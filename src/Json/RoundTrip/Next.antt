-- ===== src/Json/RoundTrip/Next.antt =====
-- src/json/json_parser.hpp: the blanks between the parts of a printed text.
use tadis.Prelude.{ℕ, ◌≡◌, refl, ◌∙◌, Bool, List, ◌∷◌}
use tadis.Json.Value.{Value, Items, Fields, nil, cons, end, field}
use tadis.Json.Numbers.{NumberOps}
use tadis.Json.Parser.{skip_blank}
use tadis.Json.Layout.{lay, lay_items, lay_fields, key, gap}
use tadis.Json.Readable.{Readable, skip_blank-none, skip_blank-gap, skip_blank-lay}

module _ {N : Type 0} (ops : NumberOps N) (b : Bool) where
  -- What follows an item or an entry.
  pub skip_blank-lay_items_nil :
      (rest : List ℕ) → skip_blank (lay_items ops b nil rest) ≡ b']' ∷ rest
  unfolding lay_items skip_blank
  skip_blank-lay_items_nil rest = refl

  pub skip_blank-lay_items_cons :
      (v : Value N) (xs : Items N) (rest : List ℕ)
      → skip_blank (lay_items ops b (cons v xs) rest)
        ≡ b',' ∷ gap b b' ' (lay ops b v (lay_items ops b xs rest))
  unfolding lay_items
  skip_blank-lay_items_cons v xs rest =
      skip_blank-gap b b' ' (b',' ∷ gap b b' ' (lay ops b v (lay_items ops b xs rest))) refl
      ∙ skip_blank-none _ refl

  pub skip_blank-lay_fields_end :
      (rest : List ℕ) → skip_blank (lay_fields ops b end rest) ≡ b'}' ∷ rest
  unfolding lay_fields
  skip_blank-lay_fields_end rest = skip_blank-gap b 10 (b'}' ∷ rest) refl ∙ skip_blank-none _ refl

  -- The text behind the comma of an entry.
  abbrev pub entry_after : List ℕ → Value N → Fields N → List ℕ → List ℕ
  entry_after k v fs rest = gap b b' ' (gap b 10 (key b k (lay ops b v (lay_fields ops b fs rest))))

  pub skip_blank-lay_fields_field :
      (k : List ℕ) (v : Value N) (fs : Fields N) (rest : List ℕ)
      → skip_blank (lay_fields ops b (field k v fs) rest) ≡ b',' ∷ entry_after k v fs rest
  unfolding lay_fields skip_blank
  skip_blank-lay_fields_field k v fs rest = refl

  pub skip_blank-entry_after :
      (k : List ℕ) (v : Value N) (fs : Fields N) (rest : List ℕ)
      → skip_blank (entry_after k v fs rest) ≡ key b k (lay ops b v (lay_fields ops b fs rest))
  skip_blank-entry_after k v fs rest =
      let entry = key b k (lay ops b v (lay_fields ops b fs rest)) in
      skip_blank-gap b b' ' (gap b 10 entry) refl
      ∙ skip_blank-gap b 10 entry refl
      ∙ skip_blank-none entry refl

  pub skip_blank-colon : (t : List ℕ) → skip_blank (gap b b' ' (b':' ∷ t)) ≡ b':' ∷ t
  skip_blank-colon t = skip_blank-gap b b' ' (b':' ∷ t) refl ∙ skip_blank-none _ refl

  pub skip_blank-value :
      (v : Value N) (rest : List ℕ)
      → Readable ops v
      → skip_blank (gap b b' ' (lay ops b v rest)) ≡ lay ops b v rest
  skip_blank-value v rest r =
      skip_blank-gap b b' ' (lay ops b v rest) refl ∙ skip_blank-lay ops b v rest r
