-- ===== src/Catalog/Schema.antt =====
-- src/catalog/schema.hpp: `Schema`, whose JSON functions are in Catalog/Meta. A schema is its columns.
use tadis.Prelude.{
  ℕ, ◌+◌, Bool, true, false, ◌&&◌, Option, none, some, List, [], ◌∷◌, length, get_elem?, ◌==◌,
  if◌then◌else◌,
}
use tadis.Common.TextMap.{eq_text}
use tadis.Catalog.Column.{Column, eq_column}

abbrev pub Schema : Type 0
Schema = List Column

-- The loop of `operator==`, for columns of the same number.
unfoldable pub eq_columns : List Column → List Column → Bool
unfolding eq_column eq_text
eq_columns [] ds = true
eq_columns (c ∷ cs) [] = false
eq_columns (c ∷ cs) (d ∷ ds) = eq_column c d && eq_columns cs ds

unfoldable pub eq_schema : Schema → Schema → Bool
unfolding eq_columns
eq_schema s t = if length s == length t then eq_columns s t else false

-- The loop of `column_idx`, at index `i`; none stands for -1.
unfoldable pub column_from : ℕ → Schema → List ℕ → Option ℕ
column_from i [] name = none
column_from i (c ∷ cs) name =
    let later = column_from (i + 1) cs name in if eq_text c.name name then some i else later

unfoldable pub column_idx : Schema → List ℕ → Option ℕ
column_idx s name = column_from 0 s name

-- `copy_schema`, and `copy_schema_from`; an index out of range is undefined behaviour.
unfoldable pub copy_schema : Schema → List ℕ → Option Schema
copy_schema s [] = some []
copy_schema s (i ∷ attr) = elim (get_elem? s i) [
  | none ↦ none
  | some c ↦ elim (copy_schema s attr) [ none ↦ none | some cols ↦ some (c ∷ cols) ]
]
