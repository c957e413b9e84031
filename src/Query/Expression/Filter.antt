-- ===== src/Query/Expression/Filter.antt =====
-- src/expression: when a comparison and a filter hold.
use tadis.Prelude.{
  ℕ, ◌+◌, ◌<◌, ◌≡◌, ◌≢◌, ◌↔◌, ◌⊎◌, inl, inr, refl, true, none, some, List, arith, Option-cases,
}
use tadis.Prelude.Int.{ℤ, pos, negsuc, ◌-ℤ◌, pos_part, neg_part, eq_of_parts}
use tadis.Sql.Ast as Ast
use tadis.Sql.Ast.{FloatOps, Value, compare, init_int, is_long, wrap_int, ints}
use tadis.Catalog.Schema.{Schema}
use tadis.Catalog.Tuple.{FloatBytes}
use tadis.Catalog.Tuple.Offsets.{IsInt}
use tadis.Query.Expression.{
  ComparsionType, equal, not_equal, less_than, greater_than, verdict, Expression, Expressions, end,
  child, column, constant, projection, comparsion, filter, evaluate, evaluate_all, truth,
}

-- What a comparison says of two integers.
abbrev pub Related : ComparsionType → ℤ → ℤ → Type 0
Related equal a b = a ≡ b
Related not_equal a b = a ≢ b
Related less_than a b = pos_part a + neg_part b < pos_part b + neg_part a
Related greater_than a b = pos_part b + neg_part a < pos_part a + neg_part b

verdict_iff : (t : ComparsionType) (a b : ℤ) → (verdict t (a -ℤ b) ≡ pos 1) ↔ Related t a b
unfolding verdict ◌-ℤ◌
verdict_iff equal a b = ground (arith, eq_of_parts a b)
verdict_iff not_equal a b = ground (arith, eq_of_parts a b)
verdict_iff less_than a b = ground arith
verdict_iff greater_than a b = ground arith

wrap-IsInt : (a : ℤ) → IsInt a → wrap_int a ≡ a
wrap-IsInt (pos n) h = ground arith
wrap-IsInt (negsuc n) h = ground arith

is_long-IsInt : (a : ℤ) → IsInt a → is_long a ≡ true
is_long-IsInt (pos n) h = ground arith
is_long-IsInt (negsuc n) h = ground arith

module _ {F : Type 0} (fl : FloatOps F) (fb : FloatBytes F) (tuple : List ℕ) (schema : Schema) where
  abbrev pub Holds : Expression F → Type 0
  Holds e = evaluate fl fb e tuple schema ≡ some (init_int (pos 1))

  -- A comparison of two integers whose difference is an `int` holds exactly if they are related
  -- as its type says.
  pub evaluate-comparsion :
      (left right : Expression F) (t : ComparsionType) (a b : ℤ)
      → evaluate fl fb left tuple schema ≡ some (init_int a)
      → evaluate fl fb right tuple schema ≡ some (init_int b)
      → IsInt (a -ℤ b)
      → Holds (comparsion left right t) ↔ Related t a b
  unfolding evaluate compare init_int
  evaluate-comparsion left right t a b l r small =
      ground
        (arith, l, r, wrap-IsInt (a -ℤ b) small, is_long-IsInt (a -ℤ b) small, verdict_iff t a b)

  abbrev pub AllComparsions : Expressions F → Type 0
  AllComparsions end = Unit
  AllComparsions (child (comparsion l r t) es) = AllComparsions es
  AllComparsions (child _ es) = ⊥

  abbrev pub AllHold : Expressions F → Type 0
  AllHold end = Unit
  AllHold (child e es) = Holds e × AllHold es

  verdict_cases : (t : ComparsionType) (r : ℤ) → (verdict t r ≡ pos 1) ⊎ (verdict t r ≡ negsuc 0)
  unfolding verdict
  verdict_cases equal r = ground arith
  verdict_cases not_equal r = ground arith
  verdict_cases less_than r = ground arith
  verdict_cases greater_than r = ground arith

  -- The three outcomes of a comparison.
  abbrev Decided : Expression F → Type 0
  Decided e =
      (evaluate fl fb e tuple schema ≡ none)
      ⊎ Holds e
      ⊎ (evaluate fl fb e tuple schema ≡ some (init_int (negsuc 0)))

  comparsion-Decided : (l r : Expression F) (t : ComparsionType) → Decided (comparsion l r t)
  unfolding evaluate
  comparsion-Decided l r t = elim (Option-cases (evaluate fl fb l tuple schema)) [
    | inl e ↦ inl (ground (arith, e))
    | inr (u, e) ↦ elim (Option-cases (evaluate fl fb r tuple schema)) [
      | inl e' ↦ inl (ground (arith, e, e'))
      | inr (v, e') ↦ elim (Option-cases (compare fl u v)) [
        | inl c ↦ inl (ground (arith, e, e', c))
        | inr (n, c) ↦ elim (verdict_cases t n) [
          | inl w ↦ inr (inl (ground (arith, e, e', c, w)))
          | inr w ↦ inr (inr (ground (arith, e, e', c, w)))
        ]
      ]
    ]
  ]

  child_iff :
      (e : Expression F) (es : Expressions F)
      → Decided e
      → (evaluate_all fl fb es (init_int (pos 1)) tuple schema ≡ some (init_int (pos 1)))
        ↔ AllHold es
      → (evaluate_all fl fb (child e es) (init_int (pos 1)) tuple schema ≡ some (init_int (pos 1)))
        ↔ (Holds e × AllHold es)
  unfolding evaluate_all truth init_int Ast.check_attr_type
  child_iff e es (inl o) (there, back) =
      (λ h. absurd (ground (arith, o)), λ h. absurd (ground (arith, o, h.0)))
  child_iff e es (inr (inl o)) (there, back) =
      (λ h. (o, there (ground (arith, o))), λ h. ground (arith, o, back h.1))
  child_iff e es (inr (inr o)) (there, back) =
      (λ h. absurd (ground (arith, o)), λ h. absurd (ground (arith, o, h.0)))

  all_iff :
      (es : Expressions F)
      → AllComparsions es
      → (evaluate_all fl fb es (init_int (pos 1)) tuple schema ≡ some (init_int (pos 1)))
        ↔ AllHold es
  unfolding evaluate_all
  all_iff end c = (λ h. tt, λ h. refl)
  all_iff (child (comparsion l r t) es) c =
      child_iff (comparsion l r t) es (comparsion-Decided l r t) (all_iff es c)
  all_iff (child (column _) es) c = elim c [ ]
  all_iff (child (constant _) es) c = elim c [ ]
  all_iff (child (filter _) es) c = elim c [ ]
  all_iff (child (projection _) es) c = elim c [ ]

  -- A filter over comparisons holds exactly if all of them hold.
  pub evaluate-filter : (es : Expressions F) → AllComparsions es → Holds (filter es) ↔ AllHold es
  unfolding evaluate
  evaluate-filter es c = all_iff es c
