-- ===== src/Storage/BufferPool/Dir.antt =====
-- The page table `dir_`, and the frames.
use tadis.Prelude.{
  ℕ, zero, suc, ◌≡◌, refl, ap, ◌∙◌, true, false, none, some, List, [], ◌∷◌, arith, ◌==◌,
  if◌then◌else◌, Bool-cases, inl, inr, get_elem?, set,
}
use tadis.Storage.Replacer.Refine.{mem}
use tadis.Storage.Replacer.Members.{Distinct}
use tadis.Storage.BufferPool.{find, erase, assign, pop_back}

abbrev pub Keys : List (ℕ × ℕ) → Type 0
Keys [] = Unit
Keys ((pid, frame) ∷ dir) = (find pid dir ≡ none) × Keys dir

pub find-erase :
    (id j : ℕ) (dir : List (ℕ × ℕ))
    → Keys dir
    → find j (erase id dir) ≡ (if j == id then none else find j dir)
unfolding find erase
find-erase id j [] k = ground arith
find-erase id j ((pid, f) ∷ dir) k = elim (Bool-cases (pid == id)) [
  | inl e ↦ rw e (ground arith)
  | inr ne ↦ rw ne (ground (arith, find-erase id j dir k.1))
]

pub erase-Keys : (id : ℕ) (dir : List (ℕ × ℕ)) → Keys dir → Keys (erase id dir)
unfolding erase
erase-Keys id [] k = tt
erase-Keys id ((pid, f) ∷ dir) k = elim (Bool-cases (pid == id)) [
  | inl e ↦ rw e k.1
  | inr ne ↦ rw ne (ground (arith, find-erase id pid dir k.1), erase-Keys id dir k.1)
]

pub find-assign :
    (id f j : ℕ) (dir : List (ℕ × ℕ))
    → find j (assign id f dir) ≡ (if j == id then some f else find j dir)
unfolding find assign
find-assign id f j [] = ground arith
find-assign id f j ((pid, g) ∷ dir) = elim (Bool-cases (pid == id)) [
  | inl e ↦ rw e (ground arith)
  | inr ne ↦ rw ne (ground (arith, find-assign id f j dir))
]

pub assign-Keys : (id f : ℕ) (dir : List (ℕ × ℕ)) → Keys dir → Keys (assign id f dir)
unfolding assign
assign-Keys id f [] k = (unfold find in refl, tt)
assign-Keys id f ((pid, g) ∷ dir) k = elim (Bool-cases (pid == id)) [
  | inl e ↦ rw e k
  | inr ne ↦ rw ne (ground (arith, find-assign id f pid dir), assign-Keys id f dir k.1)
]

module _ {A : Type 0} where
  pub get_elem?-set :
      (xs : List A) (i j : ℕ) (v : A) {x : A}
      → get_elem? xs i ≡ some x
      → get_elem? (set xs i v) j ≡ (if j == i then some v else get_elem? xs j)
  get_elem?-set [] i j v e = absurd (ground arith)
  get_elem?-set (x ∷ xs) zero zero v e = refl
  get_elem?-set (x ∷ xs) zero (suc j) v e = ground arith
  get_elem?-set (x ∷ xs) (suc i) zero v e = ground arith
  get_elem?-set (x ∷ xs) (suc i) (suc j) v e = get_elem?-set xs i j v e ∙ ground arith

  pub set-set : (xs : List A) (i : ℕ) (v w : A) → set (set xs i v) i w ≡ set xs i w
  set-set [] i v w = refl
  set-set (x ∷ xs) zero v w = refl
  set-set (x ∷ xs) (suc i) v w = ap (◌∷◌ x) (set-set xs i v w)

pub pop_back_lem :
    (x : ℕ) (l : List ℕ)
    → Distinct (x ∷ l)
    → (z : ℕ) × (l' : List ℕ) × (pop_back (x ∷ l) ≡ some (z, l'))
      × Distinct l'
      × (mem z (x ∷ l) ≡ true)
      × ((q : ℕ) → mem q l' ≡ (if q == z then false else mem q (x ∷ l)))
unfolding pop_back
pop_back_lem x [] d = (x, [], refl, tt, ground arith, λ q. ground arith)
pop_back_lem x (y ∷ l) d =
    let (z, l', popped, d', inside, rest) = pop_back_lem y l d.1 in
    (
      z,
      x ∷ l',
      rw popped refl,
      (ground (arith, rest x, d.0), d'),
      ground arith,
      λ q. ground (arith, rest q, d.0),
    )
