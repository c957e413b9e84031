-- ===== src/Common/TextMap.antt =====
-- `std::map<std::string, A>` as the code uses it: the entries in the order of their keys.
pub mod Laws
use tadis.Prelude.{
  ℕ, Bool, true, false, ◌&&◌, Option, none, some, List, [], ◌∷◌, ltb, ◌==◌, if◌then◌else◌,
}

-- Equality of two strings.
unfoldable pub eq_text : List ℕ → List ℕ → Bool
eq_text [] [] = true
eq_text [] (y ∷ ys) = false
eq_text (x ∷ xs) [] = false
eq_text (x ∷ xs) (y ∷ ys) = x == y && eq_text xs ys

-- The order of the keys.
unfoldable pub less_text : List ℕ → List ℕ → Bool
less_text [] [] = false
less_text [] (y ∷ ys) = true
less_text (x ∷ xs) [] = false
less_text (x ∷ xs) (y ∷ ys) = let rest = less_text xs ys in if x == y then rest else ltb x y

module _ {A : Type 0} where
  -- `find`
  unfoldable pub lookup : List ℕ → List (List ℕ × A) → Option A
  lookup key [] = none
  lookup key ((k, a) ∷ m) = let later = lookup key m in if eq_text k key then some a else later

  unfoldable pub place : List ℕ → A → List (List ℕ × A) → List (List ℕ × A)
  place key v [] = (key, v) ∷ []
  place key v ((k, a) ∷ m) =
      let later = place key v m in if less_text key k then (key, v) ∷ (k, a) ∷ m else (k, a) ∷ later

  -- `emplace`: a key that is there keeps its value.
  unfoldable pub emplace : List ℕ → A → List (List ℕ × A) → List (List ℕ × A)
  emplace key v m = elim (lookup key m) [ some a ↦ m | none ↦ place key v m ]

  -- The value of a key, changed through the pointer that `find` gives.
  unfoldable pub update : List ℕ → A → List (List ℕ × A) → List (List ℕ × A)
  update key v [] = []
  update key v ((k, a) ∷ m) = (k, if eq_text k key then v else a) ∷ update key v m

  unfoldable pub erase : List ℕ → List (List ℕ × A) → List (List ℕ × A)
  erase key [] = []
  erase key ((k, a) ∷ m) =
      let later = erase key m in if eq_text k key then later else (k, a) ∷ later

  unfoldable pub keys : List (List ℕ × A) → List (List ℕ)
  keys [] = []
  keys ((k, a) ∷ m) = k ∷ keys m
