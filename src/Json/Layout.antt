-- ===== src/Json/Layout.antt =====
-- src/json/json_writer.hpp: the printed text with its blanks, and without them.
use mathlib.Core.List.{append_assoc}
use tadis.Prelude.{
  ℕ, ◌≡◌, refl, ap, ◌∙◌, Bool, true, false, List, [], ◌∷◌, ◌++◌, arith, ◌==◌, if◌then◌else◌,
}
use tadis.Json.Value.{
  Value, Items, Fields, null, bool, number, string, array, object, nil, cons, end, field,
  array_size, object_size,
}
use tadis.Json.Numbers.{NumberOps}
use tadis.Json.Parser.{true_word, false_word, null_word}
use tadis.Json.Writer.{newline, print_value, print_items, print_fields}

-- A blank that stands only in the text as it is printed.
abbrev pub gap : Bool → ℕ → List ℕ → List ℕ
gap true ch rest = ch ∷ rest
gap false ch rest = rest

-- The name of an entry, before the text of its value.
abbrev pub key : Bool → List ℕ → List ℕ → List ℕ
key blanks k rest = b'"' ∷ (k ++ (b'"' ∷ gap blanks b' ' (b':' ∷ gap blanks b' ' rest)))

-- The text of a value and what follows it.
module _ {N : Type 0} (ops : NumberOps N) (blanks : Bool) where
  unfoldable mutual
    pub lay : Value N → List ℕ → List ℕ
    lay null rest = null_word ++ rest
    lay (bool true) rest = true_word ++ rest
    lay (bool false) rest = false_word ++ rest
    lay (number n) rest = ops.to_string n ++ rest
    lay (string s) rest = b'"' ∷ (s ++ (b'"' ∷ rest))
    lay (array nil) rest = b'[' ∷ b']' ∷ rest
    lay (array (cons v xs)) rest = b'[' ∷ lay v (lay_items xs rest)
    lay (object end) rest = b'{' ∷ b'}' ∷ rest
    lay (object (field k v fs)) rest =
        b'{' ∷ gap blanks newline (key blanks k (lay v (lay_fields fs rest)))

    -- The items behind the first one, and the closing bracket.
    pub lay_items : Items N → List ℕ → List ℕ
    lay_items nil rest = b']' ∷ rest
    lay_items (cons v xs) rest =
        gap blanks b' ' (b',' ∷ gap blanks b' ' (lay v (lay_items xs rest)))

    pub lay_fields : Fields N → List ℕ → List ℕ
    lay_fields end rest = gap blanks newline (b'}' ∷ rest)
    lay_fields (field k v fs) rest =
        b',' ∷ gap blanks b' ' (gap blanks newline (key blanks k (lay v (lay_fields fs rest))))

module _ {N : Type 0} (ops : NumberOps N) where
  -- What the loops print behind the first item and the first entry.
  abbrev more_items : Items N → List ℕ
  more_items xs = if array_size xs == 0 then [] else b' ' ∷ b',' ∷ b' ' ∷ print_items ops xs

  abbrev more_fields : Fields N → List ℕ
  more_fields fs = if object_size fs == 0 then [] else b',' ∷ b' ' ∷ newline ∷ print_fields ops fs

  more_items-cons :
      (v : Value N) (xs : Items N)
      → more_items (cons v xs) ≡ b' ' ∷ b',' ∷ b' ' ∷ (print_value ops v ++ more_items xs)
  unfolding array_size print_items
  more_items-cons v xs = ground arith

  more_fields-field :
      (k : List ℕ) (v : Value N) (fs : Fields N)
      → more_fields (field k v fs)
        ≡ b',' ∷ b' ' ∷ newline ∷ key true k (print_value ops v ++ more_fields fs)
  unfolding object_size print_fields
  more_fields-field k v fs = ground arith

  print_array-cons :
      (v : Value N) (xs : Items N)
      → print_value ops (array (cons v xs))
        ≡ b'[' ∷ ((print_value ops v ++ more_items xs) ++ (b']' ∷ []))
  unfolding array_size print_value print_items
  print_array-cons v xs = ground arith

  print_object-field :
      (k : List ℕ) (v : Value N) (fs : Fields N)
      → print_value ops (object (field k v fs))
        ≡ b'{'
          ∷ newline
          ∷ (key true k (print_value ops v ++ more_fields fs) ++ (newline ∷ b'}' ∷ []))
  unfolding object_size print_value print_fields
  print_object-field k v fs = ground arith

  -- Appending behind the text of a value, then behind that of a name.
  regroup : (a b c d : List ℕ) → ((a ++ b) ++ c) ++ d ≡ a ++ (b ++ (c ++ d))
  regroup a b c d = simp (append_assoc)

  key-append : (k a b : List ℕ) → key true k a ++ b ≡ key true k (a ++ b)
  key-append k a b = ap (λ t. b'"' ∷ t) (append_assoc k (b'"' ∷ b' ' ∷ b':' ∷ b' ' ∷ a) b)

  mutual
    unfolding lay print_value array_size object_size

    pub lay-print_value :
        (v : Value N) (rest : List ℕ) → print_value ops v ++ rest ≡ lay ops true v rest
    lay-print_value null rest = refl
    lay-print_value (bool true) rest = refl
    lay-print_value (bool false) rest = refl
    lay-print_value (number n) rest = refl
    lay-print_value (string s) rest = ap (λ t. b'"' ∷ t) (append_assoc s (b'"' ∷ []) rest)
    lay-print_value (array nil) rest = refl
    lay-print_value (array (cons v xs)) rest =
        ap (λ t. t ++ rest) (print_array-cons v xs)
        ∙ ap (λ t. b'[' ∷ t)
            (regroup (print_value ops v) (more_items xs) (b']' ∷ []) rest
              ∙ lay-print_value v (more_items xs ++ (b']' ∷ rest))
              ∙ ap (lay ops true v) (lay-more_items xs rest))
        ∙ refl
    lay-print_value (object end) rest = refl
    lay-print_value (object (field k v fs)) rest =
        ap (λ t. t ++ rest) (print_object-field k v fs)
        ∙ ap (λ t. b'{' ∷ newline ∷ t)
            (append_assoc (key true k (print_value ops v ++ more_fields fs)) (newline ∷ b'}' ∷ [])
                rest
              ∙ key-append k (print_value ops v ++ more_fields fs) (newline ∷ b'}' ∷ rest)
              ∙ ap (key true k) (
                  append_assoc (print_value ops v) (more_fields fs) (newline ∷ b'}' ∷ rest)
                  ∙ lay-print_value v (more_fields fs ++ (newline ∷ b'}' ∷ rest))
                  ∙ ap (lay ops true v) (lay-more_fields fs rest)))
        ∙ refl

    lay-more_items :
        (xs : Items N) (rest : List ℕ) → more_items xs ++ (b']' ∷ rest) ≡ lay_items ops true xs rest
    lay-more_items nil rest = refl
    lay-more_items (cons v xs) rest =
        ap (λ t. t ++ (b']' ∷ rest)) (more_items-cons v xs)
        ∙ ap (λ t. b' ' ∷ b',' ∷ b' ' ∷ t)
            (append_assoc (print_value ops v) (more_items xs) (b']' ∷ rest)
              ∙ lay-print_value v (more_items xs ++ (b']' ∷ rest))
              ∙ ap (lay ops true v) (lay-more_items xs rest))
        ∙ refl

    lay-more_fields :
        (fs : Fields N) (rest : List ℕ)
        → more_fields fs ++ (newline ∷ b'}' ∷ rest) ≡ lay_fields ops true fs rest
    lay-more_fields end rest = refl
    lay-more_fields (field k v fs) rest =
        ap (λ t. t ++ (newline ∷ b'}' ∷ rest)) (more_fields-field k v fs)
        ∙ ap (λ t. b',' ∷ b' ' ∷ newline ∷ t)
            (key-append k (print_value ops v ++ more_fields fs) (newline ∷ b'}' ∷ rest)
              ∙ ap (key true k) (
                  append_assoc (print_value ops v) (more_fields fs) (newline ∷ b'}' ∷ rest)
                  ∙ lay-print_value v (more_fields fs ++ (newline ∷ b'}' ∷ rest))
                  ∙ ap (lay ops true v) (lay-more_fields fs rest)))
        ∙ refl
