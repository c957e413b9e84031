-- ===== src/Catalog/Tuple/Short.antt =====
-- src/catalog/tuple.hpp: a text that is shorter than its CHAR column.
use tadis.Prelude.{
  ℕ, ◌+◌, ◌^◌, ◌<◌, ◌≡◌, refl, ap, false, none, some, List, [], ◌∷◌, ◌++◌, arith, length, leb,
}
use tadis.Sql.Ast.{Value, text, string}
use tadis.Prelude.Int.{pos}
use tadis.Catalog.Column.{Column, char}
use tadis.Catalog.Tuple.{
  FloatBytes, create_tuple, typed_bytes, read_in, read_text, read_value, value_at, value_from,
}
use tadis.Catalog.Tuple.Offsets.{wrap_small}

append-nil : (s : List ℕ) → s ++ [] ≡ s
append-nil [] = refl
append-nil (x ∷ s) = ap (◌∷◌ x) (append-nil s)

not-leb : (a b : ℕ) → b < a → leb a b ≡ false
not-leb a b h = ground arith

module _ {F : Type 0} (fb : FloatBytes F) where
  abbrev pub text_value : List ℕ → Value F
  text_value s = record { value = text s; type = string }

  abbrev pub char_column : List ℕ → ℕ → Column
  char_column name size = record { type = char; name = name; size = size }

  read-short : (s : List ℕ) (size : ℕ) → length s < size → read_text {F = F} s 0 (pos size) ≡ none
  unfolding read_text read_in
  read-short s size h = rw (not-leb (0 + size) (length s) (omega arith)) refl

  -- In a tuple of one CHAR column of fewer than 2 ^ 31 characters, a text that is shorter than the
  -- column is stored without padding, and reading it back reads past the end of the tuple.
  pub value_at-short_char :
      (s name : List ℕ) (size : ℕ)
      → length s < size
      → size < 2 ^ 31
      → (create_tuple fb (text_value s ∷ []) (char_column name size ∷ []) ≡ some s)
        × (value_at fb s (char_column name size ∷ []) 0 ≡ none)
  unfolding create_tuple typed_bytes value_at value_from read_value
  value_at-short_char s name size h small =
      (ap some (append-nil s), rw (wrap_small size small) (read-short s size h))
