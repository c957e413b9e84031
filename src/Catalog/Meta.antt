-- ===== src/Catalog/Meta.antt =====
-- src/catalog/column.hpp and schema.hpp: `to_json` and `from_json`. `none` is a failed assertion,
-- an exception, or undefined behaviour.
pub mod RoundTrip
use tadis.Prelude.{ℕ, ◌++◌, Option, none, some, List, [], ◌∷◌, ◌==◌, if◌then◌else◌}
use tadis.Prelude.Int.{ℤ, pos, negsuc}
use tadis.Json.Value.{
  Value, Items, Fields, number, string, array, object, nil, cons, end, as_number, as_string,
  as_array, as_object, array_push_back, object_at, object_insert,
}
use tadis.Json.Parser.{done, refused, out_of_fuel}
use tadis.Json.File.{read}
use tadis.Json.Numbers.{NumberOps}
use tadis.Catalog.Column.{Column, ColumnType, int_col, float_col, varchar, char, unknown, type_code}
use tadis.Catalog.Schema.{Schema}

infixl 5 ◌>>=◌
abbrev pub ◌>>=◌ : {A B : Type 0} → Option A → (A → Option B) → Option B
none >>= f = none
some a >>= f = f a

abbrev pub name_key : List ℕ
name_key = b'n' ∷ b'a' ∷ b'm' ∷ b'e' ∷ []

abbrev pub type_key : List ℕ
type_key = b't' ∷ b'y' ∷ b'p' ∷ b'e' ∷ []

abbrev pub size_key : List ℕ
size_key = b's' ∷ b'i' ∷ b'z' ∷ b'e' ∷ []

abbrev pub columns_key : List ℕ
columns_key = b'c' ∷ b'o' ∷ b'l' ∷ b'u' ∷ b'm' ∷ b'n' ∷ b's' ∷ []

-- `static_cast<ColumnType>`; a number of no enumerator is left out.
unfoldable pub column_type : ℤ → Option ColumnType
column_type (negsuc n) = none
column_type (pos n) =
    if n == 0
    then some int_col
    else if n == 1
    then some float_col
    else if n == 2
    then some varchar
    else if n == 3
    then some char
    else if n == 4
    then some unknown
    else none

module _ {N : Type 0} (ops : NumberOps N) where
  -- `Column::to_json` and `Column::from_json`
  unfoldable pub column_to_json : Column → Value N
  column_to_json c =
      let with_name = object_insert name_key (string c.name) end in
      let with_type = object_insert type_key (number (ops.of_size (type_code c.type))) with_name in
      object (object_insert size_key (number (ops.of_size c.size)) with_type)

  unfoldable pub column_from_json : Value N → Option Column
  unfolding column_type
  column_from_json v = do
    obj ← as_object v
    name_v ← object_at name_key obj
    type_v ← object_at type_key obj
    size_v ← object_at size_key obj
    name ← as_string name_v
    type_number ← as_number type_v
    size_number ← as_number size_v
    type_int ← ops.to_int type_number
    size ← ops.to_size size_number
    type ← column_type type_int
    some (record { type = type; name = name; size = size })

  -- `Schema::to_json`, with its loop.
  unfoldable pub columns_to_json : Schema → Items N → Items N
  columns_to_json [] cols = cols
  columns_to_json (c ∷ cs) cols = columns_to_json cs (array_push_back cols (column_to_json c))

  unfoldable pub schema_to_json : Schema → Value N
  unfolding columns_to_json
  schema_to_json s = object (object_insert columns_key (array (columns_to_json s nil)) end)

  -- `Schema::from_json`, with its loop, on a schema that has some columns.
  unfoldable pub columns_from_json : Items N → Schema → Option Schema
  columns_from_json nil s = some s
  columns_from_json (cons v xs) s = elim (column_from_json v) [
    | none ↦ none
    | some c ↦ columns_from_json xs (s ++ (c ∷ []))
  ]

  unfoldable pub schema_from_json : Value N → Schema → Option Schema
  unfolding columns_from_json
  schema_from_json v s = do
    obj ← as_object v
    cols ← object_at columns_key obj
    xs ← as_array cols
    columns_from_json xs s

  -- `Catalog::init` on one meta file; a text that is refused is an exception.
  unfoldable pub read_schema : List ℕ → ℕ → Option Schema
  unfolding schema_from_json
  read_schema file last = elim (read ops file last) [
    | done v rest ↦ schema_from_json v []
    | refused ↦ none
    | out_of_fuel ↦ none
  ]
