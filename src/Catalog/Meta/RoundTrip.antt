-- ===== src/Catalog/Meta/RoundTrip.antt =====
-- src/catalog/column.hpp, schema.hpp and src/common/json.hpp: a schema that is written to a meta file.
use mathlib.Core.List.{append_assoc, append-nil}
use tadis.Prelude.{ℕ, ◌^◌, ◌<◌, ◌≡◌, refl, sym, subst, ap, ◌∙◌, some, List, [], ◌∷◌, ◌++◌, arith}
use tadis.Prelude.Int.{pos}
use tadis.Common.TextMap.{eq_text, less_text}
use tadis.Json.Value.{
  Value, Items, Fields, number, string, array, object, nil, cons, end, field, array_push_back,
  object_at, object_insert, object_place,
}
use tadis.Json.Numbers.{NumberOps}
use tadis.Json.Parser.{done}
use tadis.Json.Decimal.{ReadsBack}
use tadis.Json.Objects.{items_append, items_append-push_back}
use tadis.Json.Readable.{Readable, ReadableItems, IsPlain}
use tadis.Json.File.{read, write}
use tadis.Json.File.Blanks.{squeeze, squeeze_items, squeeze_text, read-write}
use tadis.Catalog.Column.{Column, ColumnType, int_col, float_col, varchar, char, unknown, type_code}
use tadis.Catalog.Schema.{Schema}
use tadis.Catalog.Meta.{
  ◌>>=◌, read_schema, name_key, type_key, size_key, columns_key, column_type, column_to_json,
  column_from_json, columns_to_json, schema_to_json, columns_from_json, schema_from_json,
}

-- What a `double` does with the sizes below 2 ^ 53: it stands for them exactly, is printed in full
-- and read back, and is converted back.
pub record KeepsSizes {N : Type 0} (ops : NumberOps N) : Type 0 where
  pub reads : (n : ℕ) → n < 2 ^ 53 → ReadsBack ops (ops.of_size n)
  pub sizes : (n : ℕ) → n < 2 ^ 53 → ops.to_size (ops.of_size n) ≡ some n
  pub ints : (n : ℕ) → n < 2 ^ 31 → ops.to_int (ops.of_size n) ≡ some (pos n)

-- A column as a meta file gives it back.
abbrev pub squeeze_column : Column → Column
squeeze_column c = record c { name = squeeze_text c.name }

abbrev pub squeeze_schema : Schema → Schema
squeeze_schema [] = []
squeeze_schema (c ∷ cs) = squeeze_column c ∷ squeeze_schema cs

-- The columns that can be stored: the writer escapes nothing, and a size is a `double`.
abbrev pub IsStorable : Schema → Type 0
IsStorable [] = Unit
IsStorable (c ∷ cs) = IsPlain (squeeze_text c.name) × (c.size < 2 ^ 53) × IsStorable cs

abbrev SizesFit : Schema → Type 0
SizesFit [] = Unit
SizesFit (c ∷ cs) = (c.size < 2 ^ 53) × SizesFit cs

SizesFit-squeeze : (s : Schema) → IsStorable s → SizesFit (squeeze_schema s)
SizesFit-squeeze [] st = tt
SizesFit-squeeze (c ∷ cs) st = (st.1, SizesFit-squeeze cs st.2)

column_type-type_code : (t : ColumnType) → column_type (pos (type_code t)) ≡ some t
unfolding column_type
column_type-type_code int_col = refl
column_type-type_code float_col = refl
column_type-type_code varchar = refl
column_type-type_code char = refl
column_type-type_code unknown = refl

type_code-lt : (t : ColumnType) → type_code t < 5
type_code-lt int_col = omega arith
type_code-lt float_col = omega arith
type_code-lt varchar = omega arith
type_code-lt char = omega arith
type_code-lt unknown = omega arith

items_append-nil : {N : Type 0} (xs : Items N) → items_append xs nil ≡ xs
items_append-nil nil = refl
items_append-nil (cons v xs) = ap (cons v) (items_append-nil xs)

module _ {N : Type 0} (ops : NumberOps N) where
  -- The names of a column's object, in their order.
  abbrev pub column_object : Column → Value N
  column_object c = object (
      field name_key (string c.name) (
        field size_key (number (ops.of_size c.size))
          (field type_key (number (ops.of_size (type_code c.type))) end)))

  column_to_json_lem : (c : Column) → column_to_json ops c ≡ column_object c
  unfolding column_to_json object_insert object_place object_at eq_text less_text
  column_to_json_lem c = refl

  abbrev pub columns_items : Schema → Items N
  columns_items [] = nil
  columns_items (c ∷ cs) = cons (column_object c) (columns_items cs)

  columns_to_json_lem :
      (s : Schema) (acc : Items N) → columns_to_json ops s acc ≡ items_append acc (columns_items s)
  unfolding columns_to_json
  columns_to_json_lem [] acc = sym (items_append-nil acc)
  columns_to_json_lem (c ∷ cs) acc =
      columns_to_json_lem cs (array_push_back acc (column_to_json ops c))
      ∙ items_append-push_back acc (columns_items cs) (column_to_json ops c)
      ∙ ap (λ v. items_append acc (cons v (columns_items cs))) (column_to_json_lem c)

  column_from_json_lem :
      (c : Column)
      → KeepsSizes ops
      → c.size < 2 ^ 53
      → column_from_json ops (column_object c) ≡ some c
  unfolding column_from_json object_at eq_text
  column_from_json_lem c k h =
      let small = type_code-lt c.type in
      rw (k.ints (type_code c.type) (omega arith), ◌>>=◌)
        (rw (k.sizes c.size h, ◌>>=◌) (rw (column_type-type_code c.type, ◌>>=◌) refl))

  columns_from_json_lem :
      (s before : Schema)
      → KeepsSizes ops
      → SizesFit s
      → columns_from_json ops (columns_items s) before ≡ some (before ++ s)
  unfolding columns_from_json
  columns_from_json_lem [] before k st = ap some (sym (append-nil before))
  columns_from_json_lem (c ∷ cs) before k st =
      rw (column_from_json_lem c k st.0, columns_from_json)
        (columns_from_json_lem cs (before ++ (c ∷ [])) k st.1
          ∙ ap some (append_assoc before (c ∷ []) cs))

  abbrev pub schema_object : Schema → Fields N
  schema_object s = field columns_key (array (columns_items s)) end

  pub schema_to_json_lem : (s : Schema) → schema_to_json ops s ≡ object (schema_object s)
  unfolding schema_to_json object_insert object_place object_at
  schema_to_json_lem s =
      ap (λ xs. object (field columns_key (array xs) end)) (columns_to_json_lem s nil)

  squeeze-columns :
      (s : Schema) → squeeze_items (columns_items s) ≡ columns_items (squeeze_schema s)
  unfolding squeeze squeeze_text
  squeeze-columns [] = refl
  squeeze-columns (c ∷ cs) = ap (cons (column_object (squeeze_column c))) (squeeze-columns cs)

  squeeze-schema :
      (s : Schema) → squeeze (object (schema_object s)) ≡ object (schema_object (squeeze_schema s))
  unfolding squeeze squeeze_text
  squeeze-schema s = ap (λ xs. object (field columns_key (array xs) end)) (squeeze-columns s)

  columns-Readable :
      (s : Schema)
      → KeepsSizes ops
      → IsStorable s
      → ReadableItems ops (columns_items (squeeze_schema s))
  unfolding Readable less_text
  columns-Readable [] k st = tt
  columns-Readable (c ∷ cs) k st = (
    (
      ((refl, (refl, tt)), ((refl, tt), (tt, tt))),
      (
        (refl, (refl, (refl, (refl, tt)))),
        st.0,
        (
          (refl, (refl, (refl, (refl, tt)))),
          k.reads c.size st.1,
          (
            (refl, (refl, (refl, (refl, tt)))),
            k.reads (type_code c.type) (omega (arith, type_code-lt c.type)),
            tt,
          ),
        ),
      ),
    ),
    columns-Readable cs k st.2,
  )

  Readable-schema :
      (s : Schema)
      → KeepsSizes ops
      → IsStorable s
      → Readable ops (object (schema_object (squeeze_schema s)))
  unfolding Readable
  Readable-schema s k st = (
    (tt, tt),
    ((refl, (refl, (refl, (refl, (refl, (refl, (refl, tt))))))), columns-Readable s k st, tt),
  )

  -- The meta file of a schema gives its columns back, in their order and with their types and
  -- sizes, and each name without its blanks. The names must have no quote, backslash or NUL, the
  -- sizes must be below 2 ^ 53, and a `double` must keep such sizes. The character that the reading leaves at the end does not matter.
  pub read_schema-to_json :
      (s : Schema) (last : ℕ) (file : List ℕ)
      → KeepsSizes ops
      → IsStorable s
      → write ops (schema_to_json ops s) ≡ some file
      → read_schema ops file last ≡ some (squeeze_schema s)
  unfolding read_schema schema_from_json object_at eq_text
  read_schema-to_json s last file k st e =
      let written : write ops (object (schema_object s)) ≡ some file =
        ap (write ops) (sym (schema_to_json_lem s)) ∙ e in
      let good : Readable ops (squeeze (object (schema_object s))) =
        subst (Readable ops) (sym (squeeze-schema s)) (Readable-schema s k st) in
      let back : read ops file last ≡ done (object (schema_object (squeeze_schema s))) (last ∷ []) =
        read-write ops (schema_object s) last file good written
        ∙ ap (λ v. done v (last ∷ [])) (squeeze-schema s) in
      rw (back, read_schema) (columns_from_json_lem (squeeze_schema s) [] k (SizesFit-squeeze s st))
