-- ===== src/Common/TextMap/Laws.antt =====
-- The laws of the maps from strings.
use tadis.Prelude.{
  ℕ, ◌≡◌, ◌≢◌, refl, sym, ap, ◌∙◌, true, false, none, some, List, [], ◌∷◌, ◌++◌, arith,
  if◌then◌else◌, length, length-append, Bool-cases, inl, inr,
}
use tadis.Common.TextMap.{eq_text, lookup, place, emplace, update, erase}

pub eq_text_refl : (a : List ℕ) → eq_text a a ≡ true
unfolding eq_text
eq_text_refl [] = refl
eq_text_refl (x ∷ a) = ground (arith, eq_text_refl a)

pub eq_text_sound : (a b : List ℕ) → eq_text a b ≡ true → a ≡ b
unfolding eq_text
eq_text_sound [] [] h = refl
eq_text_sound [] (y ∷ b) h = absurd (cc)
eq_text_sound (x ∷ a) [] h = absurd (cc)
eq_text_sound (x ∷ a) (y ∷ b) h = ground (arith, eq_text_sound a b)

pub eq_text_comm : (a b : List ℕ) → eq_text a b ≡ eq_text b a
unfolding eq_text
eq_text_comm [] [] = refl
eq_text_comm [] (y ∷ b) = refl
eq_text_comm (x ∷ a) [] = refl
eq_text_comm (x ∷ a) (y ∷ b) = ground (arith, eq_text_comm a b)

pub eq_text-length : (a b : List ℕ) → length a ≢ length b → eq_text a b ≡ false
eq_text-length a b ne = elim (Bool-cases (eq_text a b)) [
  | inr other ↦ other
  | inl same ↦ absurd (ne (ap length (eq_text_sound a b same)))
]

-- A common end, and a common front, do not matter.
pub eq_text-append : (a b c : List ℕ) → eq_text (a ++ c) (b ++ c) ≡ eq_text a b
unfolding eq_text
eq_text-append [] [] c = eq_text_refl c
eq_text-append [] (y ∷ b) c =
    eq_text-length c (y ∷ (b ++ c)) (λ e. absurd (omega (arith, e, length-append b c)))
eq_text-append (x ∷ a) [] c =
    eq_text-length (x ∷ (a ++ c)) c (λ e. absurd (omega (arith, e, length-append a c)))
eq_text-append (x ∷ a) (y ∷ b) c = ground (arith, eq_text-append a b c)

pub eq_text-prefix : (a b c : List ℕ) → eq_text (a ++ b) (a ++ c) ≡ eq_text b c
unfolding eq_text
eq_text-prefix [] b c = refl
eq_text-prefix (x ∷ a) b c = ground (arith, eq_text-prefix a b c)

-- The last character of a text.
abbrev pub last_of : ℕ → List ℕ → ℕ
last_of x [] = x
last_of x (y ∷ l) = last_of y l

pub last_of-append :
    (x : ℕ) (a : List ℕ) (y : ℕ) (l : List ℕ) → last_of x (a ++ (y ∷ l)) ≡ last_of y l
last_of-append x [] y l = refl
last_of-append x (z ∷ a) y l = last_of-append z a y l

-- Texts with different last characters are different.
pub eq_text_ends :
    (a : List ℕ) (x : ℕ) (l : List ℕ) (b : List ℕ) (y : ℕ) (m : List ℕ)
    → last_of x l ≢ last_of y m
    → eq_text (a ++ (x ∷ l)) (b ++ (y ∷ m)) ≡ false
eq_text_ends a x l b y m ne = elim (Bool-cases (eq_text (a ++ (x ∷ l)) (b ++ (y ∷ m)))) [
  | inr other ↦ other
  | inl same ↦ absurd (
      ne (
        sym (last_of-append 0 a x l)
        ∙ ap (last_of 0) (eq_text_sound (a ++ (x ∷ l)) (b ++ (y ∷ m)) same)
        ∙ last_of-append 0 b y m))
]

module _ {A : Type 0} where
  lookup-place :
      (j k : List ℕ) (v : A) (m : List (List ℕ × A))
      → lookup k m ≡ none
      → lookup j (place k v m) ≡ (if eq_text k j then some v else lookup j m)
  unfolding lookup place
  lookup-place j k v [] h = refl
  lookup-place j k v ((k', a) ∷ m) h = ground (
    arith,
    lookup-place j k v m,
    eq_text_sound k' j,
    eq_text_sound k j,
    eq_text_comm k k',
    eq_text_refl k,
    eq_text_refl j,
  )

  pub lookup-emplace :
      (j k : List ℕ) (v : A) (m : List (List ℕ × A))
      → lookup k m ≡ none
      → lookup j (emplace k v m) ≡ (if eq_text k j then some v else lookup j m)
  unfolding emplace
  lookup-emplace j k v m h = rw (h, emplace) (lookup-place j k v m h)

  pub lookup-erase :
      (j k : List ℕ) (m : List (List ℕ × A))
      → lookup j (erase k m) ≡ (if eq_text k j then none else lookup j m)
  unfolding lookup erase
  lookup-erase j k [] = ground arith
  lookup-erase j k ((k', a) ∷ m) = ground (
    arith,
    lookup-erase j k m,
    eq_text_sound k' j,
    eq_text_sound k j,
    eq_text_sound k' k,
    eq_text_comm k k',
    eq_text_refl k,
    eq_text_refl j,
  )

  pub lookup-update :
      (j k : List ℕ) (v : A) (m : List (List ℕ × A))
      → lookup j (update k v m) ≡ (
          if eq_text k j then (elim (lookup k m) [ none ↦ none | some w ↦ some v ]) else lookup j m)
  unfolding lookup update
  lookup-update j k v [] = ground arith
  lookup-update j k v ((k', a) ∷ m) = ground (
    arith,
    lookup-update j k v m,
    eq_text_sound k' j,
    eq_text_sound k j,
    eq_text_sound k' k,
    eq_text_comm k k',
    eq_text_refl k,
    eq_text_refl j,
  )
