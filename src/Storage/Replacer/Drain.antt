-- ===== src/Storage/Replacer/Drain.antt =====
-- src/storage/bufferpool/replacer.hpp: `victim`, called again and again.
use tadis.Prelude.{
  ℕ, zero, suc, ◌≡◌, refl, sym, ap, ◌∙◌, Option, none, some, List, [], ◌∷◌, ◌++◌, arith, length,
}
use tadis.Storage.Replacer.{LruReplacer, victim}
use tadis.Storage.Replacer.Chain.{values, drop_last, get_last?}
use tadis.Storage.Replacer.Refine.{IsConsistent, length-drop_last, victim-Refines}

-- What `n` calls of `victim` give out, in order; a call that finds nothing gives nothing.
unfoldable pub victims : ℕ → LruReplacer → Option (LruReplacer × List ℕ)
victims zero r = some (r, [])
victims (suc n) r = elim (victim r) [
  | none ↦ none
  | some (r', o) ↦ elim (victims n r') [
    | none ↦ none
    | some (r'', ts) ↦ some (r'', elim o [ none ↦ ts | some t ↦ t ∷ ts ])
  ]
]

abbrev pub oldest_first : List ℕ → List ℕ
oldest_first [] = []
oldest_first (x ∷ xs) = oldest_first xs ++ (x ∷ [])

oldest_first_last :
    (t : ℕ) (xs : List ℕ)
    → get_last? xs ≡ some t
    → oldest_first xs ≡ t ∷ oldest_first (drop_last xs)
oldest_first_last t [] e = absurd (ground arith)
oldest_first_last t (x ∷ []) e = ground arith
oldest_first_last t (x ∷ y ∷ xs) e = ap (λ l. l ++ (x ∷ [])) (oldest_first_last t (y ∷ xs) e)

last_of_longer : (x : ℕ) (xs : List ℕ) → (t : ℕ) × (get_last? (x ∷ xs) ≡ some t)
last_of_longer x [] = (x, refl)
last_of_longer x (y ∷ xs) = last_of_longer y xs

abbrev pub Drained : LruReplacer → List ℕ → Type 0
Drained r xs =
    (r' : LruReplacer) × (victims (length xs) r ≡ some (r', oldest_first xs))
    × IsConsistent r'
    × (values r'.lru_list ≡ [])

victims-suc :
    (n : ℕ) (r r1 r2 : LruReplacer) (t : ℕ) (ts : List ℕ)
    → victim r ≡ some (r1, some t)
    → victims n r1 ≡ some (r2, ts)
    → victims (suc n) r ≡ some (r2, t ∷ ts)
unfolding victims
victims-suc n r r1 r2 t ts first rest = ground arith

drain :
    (n : ℕ) (r : LruReplacer) (xs : List ℕ)
    → IsConsistent r
    → values r.lru_list ≡ xs
    → length xs ≡ n
    → Drained r xs
drain n r [] c vals len = (r, unfold victims in refl, c, vals)
drain zero r (x ∷ xs) c vals len = absurd (omega arith)
drain (suc n) r (x ∷ xs) c vals len =
    let (r1, o, ran, last, (c1, vals1, cap)) = victim-Refines r c in
    let (t, at) = last_of_longer x xs in
    let gives : o ≡ some t = last ∙ ap get_last? vals ∙ at in
    let count : length (drop_last (x ∷ xs)) ≡ length xs = omega (arith, length-drop_last x xs) in
    let (r2, rest, c2, empty) =
      drain n r1 (drop_last (x ∷ xs)) c1 (vals1 ∙ ap drop_last vals) (omega (arith, count)) in
    let rest' = ap (λ k. victims k r1) (sym count) ∙ rest in
    (
      r2,
      victims-suc (length xs) r r1 r2 t (oldest_first (drop_last (x ∷ xs)))
            (ran ∙ ap (λ o. some (r1, o)) gives) rest'
          ∙ ap (λ ts. some (r2, ts)) (sym (oldest_first_last t (x ∷ xs) at)),
      c2,
      empty,
    )

-- As many calls of `victim` as a consistent replacer has values give every one of them out, the
-- least recent first, and leave it consistent and empty.
pub victims_lem : (r : LruReplacer) → IsConsistent r → Drained r (values r.lru_list)
victims_lem r c = drain (length (values r.lru_list)) r (values r.lru_list) c refl refl
