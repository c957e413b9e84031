-- ===== src/Catalog/Tuple.antt =====
-- src/catalog/tuple.hpp: `Tuple`. A tuple is its bytes; its `rid_` is kept by the executors. `none`
-- is a failed assertion, a failed `any_cast`, an exception, or undefined behaviour. How the
-- machine stores a `float` is a parameter.
pub mod Offsets
pub mod RoundTrip
pub mod Short
use tadis.Prelude.{
  ℕ, zero, suc, ◌+◌, ◌-◌, ◌%◌, ◌^◌, Bool, true, false, Option, none, some, List, [], ◌∷◌, ◌++◌,
  length, ltb, leb, ◌==◌, if◌then◌else◌,
}
use tadis.Prelude.Int.{ℤ, pos, negsuc, pos_part, neg_part, sub_ℕ}
use tadis.Prelude.Memory.{read_at, to_bytes, of_bytes}
use tadis.Sql.Ast.{
  Value, Any, long, float, text, AttrType, ints, floats, string, int_mod, wrap_int, init_int,
  init_float, init_string, no_value,
}
use tadis.Catalog.Column.{Column, ColumnType, int_col, float_col, varchar, char, unknown}
use tadis.Catalog.Schema.{Schema}

-- The four bytes of a `float`, and the `float` that four bytes stand for.
pub record FloatBytes (F : Type 0) : Type 0 where
  pub bytes_of : F → List ℕ
  pub of_memory : List ℕ → F

-- The four bytes of an `int` that a `long` is assigned to.
unfoldable pub word_of : ℤ → ℕ
word_of a = (pos_part a % int_mod + int_mod - neg_part a % int_mod) % int_mod

unfoldable pub int_bytes : ℤ → List ℕ
unfolding word_of
int_bytes a = to_bytes 4 (word_of a)

-- The `int` of four bytes.
unfoldable pub int_of : List ℕ → ℤ
int_of bytes = let m = of_bytes bytes in if ltb m (2 ^ 31) then pos m else sub_ℕ m int_mod

-- `memcpy` from the tuple at an offset, which must stay inside it.
unfoldable pub read_in : List ℕ → ℕ → ℕ → Option (List ℕ)
read_in bytes off n = if leb (off + n) (length bytes) then some (read_at bytes off n) else none

abbrev pub any_long : {F : Type 0} → Any F → Option ℤ
any_long (long a) = some a
any_long _ = none

abbrev pub any_float : {F : Type 0} → Any F → Option F
any_float (float f) = some f
any_float _ = none

abbrev pub any_text : {F : Type 0} → Any F → Option (List ℕ)
any_text (text s) = some s
any_text _ = none

abbrev pub bind : {A B : Type 0} → Option A → (A → Option B) → Option B
bind none f = none
bind (some a) f = f a

-- `s.assign(data, size)` at an offset.
unfoldable pub read_text : {F : Type 0} → List ℕ → ℕ → ℤ → Option (Value F)
read_text bytes off (pos n) = bind (read_in bytes off n) (λ s. some (init_string s))
read_text bytes off (negsuc n) = none

module _ {F : Type 0} (fb : FloatBytes F) where
  -- What one value appends to the record, by its type and the type of its column.
  unfoldable pub typed_bytes : Any F → AttrType → ColumnType → Option (List ℕ)
  typed_bytes a ints int_col = bind (any_long a) (λ n. some (int_bytes n))
  typed_bytes a floats float_col = bind (any_float a) (λ f. some (fb.bytes_of f))
  typed_bytes a string varchar = bind (any_text a) (λ s. some (int_bytes (pos (length s)) ++ s))
  typed_bytes a string char = any_text a
  typed_bytes a _ _ = none

  unfoldable pub create_tuple : List (Value F) → Schema → Option (List ℕ)
  create_tuple [] schema = some []
  create_tuple (v ∷ vals) [] = none
  create_tuple (v ∷ vals) (c ∷ schema) =
      bind (typed_bytes v.value v.type c.type)
        (λ bytes. bind (create_tuple vals schema) (λ rest. some (bytes ++ rest)))

  -- The last step of `value_at`, with `init_value`.
  unfoldable pub read_value : List ℕ → Column → ℕ → Option (Value F)
  read_value bytes c off = elim c.type [
    | int_col ↦ bind (read_in bytes off 4) (λ b. some (init_int (int_of b)))
    | float_col ↦ bind (read_in bytes off 4) (λ b. some (init_float (fb.of_memory b)))
    | varchar ↦ bind (read_in bytes off 4) (λ b. read_text bytes (off + 4) (int_of b))
    | char ↦ read_text bytes off (wrap_int (pos c.size))
    | unknown ↦ none
  ]

-- The offset behind a value, which the assertion keeps inside the tuple.
unfoldable pub checked : List ℕ → ℤ → Option ℕ
checked bytes (pos off) = if leb off (length bytes) then some off else none
checked bytes (negsuc n) = none

unfoldable pub skip_value : List ℕ → Column → ℕ → Option ℕ
skip_value bytes c off = elim c.type [
  | int_col ↦ checked bytes (pos (off + 4))
  | float_col ↦ checked bytes (pos (off + 4))
  | char ↦ checked bytes (pos (off + c.size))
  | varchar ↦
      bind (read_in bytes off 4)
        (λ b. checked bytes (sub_ℕ (off + 4 + pos_part (int_of b)) (neg_part (int_of b))))
  | unknown ↦ none
]

module _ {F : Type 0} (fb : FloatBytes F) where
  -- The loop of `value_at`, at the offset of the next value.
  unfoldable pub value_from : List ℕ → Schema → ℕ → ℕ → Option (Value F)
  value_from bytes [] idx off = none
  value_from bytes (c ∷ schema) zero off = read_value fb bytes c off
  value_from bytes (c ∷ schema) (suc idx) off =
      bind (skip_value bytes c off) (λ next. value_from bytes schema idx next)

  unfoldable pub value_at : List ℕ → Schema → ℕ → Option (Value F)
  value_at bytes schema idx = value_from bytes schema idx 0
