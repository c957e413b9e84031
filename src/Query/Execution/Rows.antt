-- ===== src/Query/Execution/Rows.antt =====
-- src/execution: the rows that executors yield, one for each call of `next` with SUCCESS, up to the
-- call that returns OUT_OF_RANGE.
use tadis.Prelude.{
  ℕ, zero, suc, ◌<◌, ◌≡◌, sym, ap, ◌∙◌, Bool, true, false, some, List, [], ◌∷◌, length, arith,
  if◌then◌else◌, Bool-cases, inl, inr,
}
use tadis.Common.Rc.{success, out_of_range}
use tadis.Sql.Ast.{FloatOps}
use tadis.Catalog.Schema.{Schema}
use tadis.Catalog.Tuple.{FloatBytes}
use tadis.Query.Expression.{Expression}
use tadis.Query.Execution.{Tuple, Running, Step, passes, filter_loop}

module _ (next : Step) where
  -- Whatever the tuple is, `next` returns SUCCESS with a tuple of these bytes.
  abbrev pub Row : Running → List ℕ → Running → Type 0
  Row w row w' =
      (t : Tuple) → (t' : Tuple) × (next t w ≡ some ((success, t'), w')) × (t'.bytes ≡ row)

  abbrev pub End : Running → Running → Type 0
  End w w' = (t : Tuple) → (t' : Tuple) × (next t w ≡ some ((out_of_range, t'), w'))

  pub data Yields : Running → List (List ℕ) → Running → Type 0 where
    stop : {w w' : Running} → End w w' → Yields w [] w'
    more :
        {w w' w'' : Running} {row : List ℕ} {rows : List (List ℕ)}
        → Row w row w'
        → Yields w' rows w''
        → Yields w (row ∷ rows) w''

  -- A state whose call of `next` is the one at another state yields the same rows.
  Yields-skip :
      {w w' w'' : Running} {rows : List (List ℕ)}
      → ((t : Tuple) → (t' : Tuple) × (next t w ≡ next t' w'))
      → Yields w' rows w''
      → Yields w rows w''
  Yields-skip same (stop f) = stop (λ t. ((f (same t).0).0, (same t).1 ∙ (f (same t).0).1))
  Yields-skip same (more f y) =
      more (λ t. ((f (same t).0).0, (same t).1 ∙ (f (same t).0).1, (f (same t).0).2)) y

abbrev pub kept : (List ℕ → Bool) → List (List ℕ) → List (List ℕ)
kept keep [] = []
kept keep (row ∷ rows) = let rest = kept keep rows in if keep row then row ∷ rest else rest

module _ {F : Type 0} (fl : FloatOps F) (fb : FloatBytes F) (expr : Expression F) (schema : Schema)
    (next : Step) (keep : List ℕ → Bool) where
  -- The condition decides each of the rows as `keep` does.
  abbrev pub Decides : List (List ℕ) → Type 0
  Decides [] = Unit
  Decides (row ∷ rows) =
      ((t : Tuple) → t.bytes ≡ row → passes fl fb expr schema t ≡ some (keep row)) × Decides rows

  filter_stop :
      (fuel : ℕ) {w w' : Running} (t t' : Tuple)
      → next t w ≡ some ((out_of_range, t'), w')
      → filter_loop fl fb (suc fuel) expr schema next t w ≡ some ((out_of_range, t'), w')
  unfolding filter_loop
  filter_stop fuel t t' e = ground (arith, e)

  filter_pass :
      (fuel : ℕ) {w w' : Running} (t t' : Tuple)
      → next t w ≡ some ((success, t'), w')
      → passes fl fb expr schema t' ≡ some true
      → filter_loop fl fb (suc fuel) expr schema next t w ≡ some ((success, t'), w')
  unfolding filter_loop
  filter_pass fuel t t' e p = ground (arith, e, p)

  filter_again :
      (fuel : ℕ) {w w' : Running} (t t' : Tuple)
      → next t w ≡ some ((success, t'), w')
      → passes fl fb expr schema t' ≡ some false
      → filter_loop fl fb (suc fuel) expr schema next t w
        ≡ filter_loop fl fb fuel expr schema next t' w'
  unfolding filter_loop
  filter_again fuel t t' e p = ground (arith, e, p)

  -- More fuel than rows changes nothing.
  filter_fuel :
      (n m : ℕ) {w w' : Running} (rows : List (List ℕ))
      → Yields next w rows w'
      → Decides rows
      → length rows < n
      → length rows < m
      → (t : Tuple)
      → filter_loop fl fb n expr schema next t w ≡ filter_loop fl fb m expr schema next t w
  filter_fuel zero m rows y d h k t = absurd (omega arith)
  filter_fuel (suc n) zero rows y d h k t = absurd (omega arith)
  filter_fuel (suc n) (suc m) _ (stop f) d h k t =
      filter_stop n t (f t).0 (f t).1 ∙ sym (filter_stop m t (f t).0 (f t).1)
  filter_fuel (suc n) (suc m) (row ∷ rows) (more f y) d h k t =
      let (t', e, same) = f t in
      elim (Bool-cases (keep row)) [
        | inl yes_ ↦
            let p = d.0 t' same ∙ ap some yes_ in
            filter_pass n t t' e p ∙ sym (filter_pass m t t' e p)
        | inr no_ ↦
            let p = d.0 t' same ∙ ap some no_ in
            filter_again n t t' e p
            ∙ filter_fuel n m rows y d.1 (omega arith) (omega arith) t'
            ∙ sym (filter_again m t t' e p)
      ]

  -- Where the child yields `rows` and the condition decides each of them, a filter with more fuel
  -- than there are rows yields those that it keeps, in their order.
  pub filter-Yields :
      (fuel : ℕ) {w w' : Running} (rows : List (List ℕ))
      → Yields next w rows w'
      → Decides rows
      → length rows < fuel
      → Yields (filter_loop fl fb fuel expr schema next) w (kept keep rows) w'
  filter-Yields zero rows y d h = absurd (omega arith)
  filter-Yields (suc n) _ (stop f) d h = stop (λ t. ((f t).0, filter_stop n t (f t).0 (f t).1))
  filter-Yields (suc n) (row ∷ rows) (more f y) d h =
      let later = filter-Yields (suc n) rows y d.1 (omega arith) in
      elim (Bool-cases (keep row)) [
        | inl yes_ ↦ rw yes_ (
            more
              (λ t. (
                (f t).0,
                filter_pass n t (f t).0 (f t).1 (d.0 (f t).0 (f t).2 ∙ ap some yes_),
                (f t).2,
              ))
              later)
        | inr no_ ↦ rw no_ (
            Yields-skip _
              (λ t. (
                (f t).0,
                filter_again n t (f t).0 (f t).1 (d.0 (f t).0 (f t).2 ∙ ap some no_)
                    ∙ filter_fuel n (suc n) rows y d.1 (omega arith) (omega arith) (f t).0,
              ))
              later)
      ]
