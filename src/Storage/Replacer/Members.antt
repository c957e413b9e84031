-- ===== src/Storage/Replacer/Members.antt =====
-- Which values a replacer holds after each operation on its list of values.
use tadis.Prelude.{
  ℕ, ◌≡◌, ◌≢◌, true, false, some, List, [], ◌∷◌, arith, ◌==◌, if◌then◌else◌, Bool-cases, inl, inr,
}
use tadis.Storage.Replacer.{Node}
use tadis.Storage.Replacer.Chain.{Chain, values, without, drop_last, get_last?}
use tadis.Storage.Replacer.Refine.{mem, mem_of_find, put_values}

abbrev pub Distinct : List ℕ → Type 0
Distinct [] = Unit
Distinct (x ∷ l) = (mem x l ≡ false) × Distinct l

pub Distinct-values : (n : ℕ) (l : List Node) → Chain n l → Distinct (values l)
Distinct-values n [] c = tt
Distinct-values n ((id, v) ∷ l) c = (ground (arith, mem_of_find v l), Distinct-values id l c.2)

pub mem-without :
    (q t : ℕ) (xs : List ℕ)
    → Distinct xs
    → mem q (without t xs) ≡ (if q == t then false else mem q xs)
mem-without q t [] d = ground arith
mem-without q t (x ∷ xs) d = elim (Bool-cases (x == t)) [
  | inl e ↦ rw e (ground arith)
  | inr ne ↦ rw ne (ground (arith, mem-without q t xs d.1))
]

pub mem_of_last : (b : ℕ) (xs : List ℕ) → get_last? xs ≡ some b → mem b xs ≡ true
mem_of_last b [] e = cc
mem_of_last b (x ∷ []) e = ground arith
mem_of_last b (x ∷ y ∷ xs) e = ground (arith, mem_of_last b (y ∷ xs) e)

pub mem-drop_last :
    (q b : ℕ) (xs : List ℕ)
    → Distinct xs
    → get_last? xs ≡ some b
    → mem q (drop_last xs) ≡ (if q == b then false else mem q xs)
mem-drop_last q b [] d e = absurd (ground arith)
mem-drop_last q b (x ∷ []) d e = ground arith
mem-drop_last q b (x ∷ y ∷ xs) d e =
    let last = mem_of_last b (y ∷ xs) e in
    let rest = mem-drop_last q b (y ∷ xs) d.1 e in
    elim (Bool-cases (x == q)) [ inl h ↦ rw h (ground arith) | inr h ↦ rw h rest ]

pub mem_of-drop_last : (q : ℕ) (xs : List ℕ) → mem q (drop_last xs) ≡ true → mem q xs ≡ true
mem_of-drop_last q [] h = h
mem_of-drop_last q (x ∷ []) h = absurd (ground arith)
mem_of-drop_last q (x ∷ y ∷ xs) h = ground (arith, mem_of-drop_last q (y ∷ xs))

pub mem_of-without : (q t : ℕ) (xs : List ℕ) → mem q (without t xs) ≡ true → mem q xs ≡ true
mem_of-without q t [] h = h
mem_of-without q t (x ∷ xs) h = elim (Bool-cases (x == t)) [
  | inl e ↦ (let h' : mem q xs ≡ true = rw e at h in ground arith)
  | inr ne ↦
      (let h' : mem q (x ∷ without t xs) ≡ true = rw ne at h in
        ground (arith, mem_of-without q t xs))
]

-- `put` lets in its value only.
pub mem_of-put_values :
    (q cap t : ℕ) (xs : List ℕ) → q ≢ t → mem q (put_values cap t xs) ≡ true → mem q xs ≡ true
mem_of-put_values q cap t xs ne h = elim (Bool-cases (mem t xs)) [
  | inl known ↦
      (let h' : mem q (t ∷ without t xs) ≡ true = rw known at h in
        ground (arith, mem_of-without q t xs))
  | inr new ↦ ground (arith, mem_of-drop_last q xs)
]
