-- ===== src/Tests/Tuples.antt =====
-- Runs of src/catalog, with a unit type for the floating-point numbers.
use tadis.Prelude.{
  ℕ, ◌≡◌, ◌⊎◌, refl, none, some, false, List, [], ◌∷◌, get_elem?, arith, if◌then◌else◌,
}
use tadis.Prelude.Int.{negsuc}
use tadis.Common.TextMap.{eq_text, lookup}
use tadis.Sql.Ast.{Value, long, text, ints, string}
use tadis.Storage.BufferPool.{BufferPool}
use tadis.Storage.BufferPool.Lifecycle
use tadis.Storage.BufferPool.Lifecycle.{raw_pool}
use tadis.Catalog.Column.{int_col, varchar, char}
use tadis.Catalog.Schema.{Schema}
use tadis.Catalog.Tuple.{FloatBytes, create_tuple, value_at}
use tadis.Catalog.Tuple.RoundTrip.{
  IsFloatBytes, AllFit, fit, none_left, int_fits, varchar_fits, char_fits, value_at-create_tuple,
}
use tadis.Catalog.Tables.{Catalog, Table, create_table, get_table, has_table, open_heap, db_name}
use tadis.Catalog.Tables.Laws
use tadis.Catalog.Tables.Laws.{create_table_lem}

abbrev unit_bytes : FloatBytes (Unit {0})
unit_bytes = record { bytes_of = λ f. 0 ∷ 0 ∷ 0 ∷ 0 ∷ []; of_memory = λ b. tt }

unit_bytes-IsFloatBytes : IsFloatBytes unit_bytes
unit_bytes-IsFloatBytes = record { four = λ f. refl; kept = λ f. refl }

abbrev letter : ℕ → List ℕ
letter n = n ∷ []

abbrev three_columns : Schema
three_columns =
    record { type = int_col; name = letter b'n'; size = 0 }
    ∷ record { type = varchar; name = letter b's'; size = 0 }
    ∷ record { type = char; name = letter b'c'; size = 2 }
    ∷ []

abbrev three_values : List (Value (Unit {0}))
three_values =
    record { value = long (negsuc 6); type = ints }
    ∷ record { value = text (b'a' ∷ b'b' ∷ b'c' ∷ []); type = string }
    ∷ record { value = text (b'x' ∷ b'y' ∷ []); type = string }
    ∷ []

three_values-AllFit : AllFit three_values three_columns
three_values-AllFit =
    fit (int_fits (omega arith))
      (fit (varchar_fits (omega arith)) (fit (char_fits (omega arith) refl) none_left))

value_at-create_tuple_example :
    (bytes : List ℕ) × (create_tuple unit_bytes three_values three_columns ≡ some bytes)
    × ((idx : ℕ) (v : Value (Unit {0}))
        → get_elem? three_values idx ≡ some v
        → value_at unit_bytes bytes three_columns idx ≡ some v)
value_at-create_tuple_example =
    value_at-create_tuple unit_bytes unit_bytes-IsFloatBytes three_values three_columns
      three_values-AllFit

abbrev no_tables : Catalog
no_tables = record { tables = []; heaps = []; files = []; base_dir = letter b'.' }

no_tables-IsValid : Laws.IsValid no_tables
unfolding lookup
no_tables-IsValid = record { paired = λ name. refl }

no_t : has_table (letter b't') no_tables ≡ false
unfolding has_table lookup
no_t = refl

create_table_lem_example :
    ((open_heap (db_name (letter b't')) [] ≡ none)
      × (create_table (letter b't') three_columns no_tables ≡ none))
    ⊎ ((c' : Catalog) × (create_table (letter b't') three_columns no_tables ≡ some c')
        × Laws.IsValid c'
        × ((other : List ℕ)
            → get_table other c' ≡ (
                if eq_text (letter b't') other
                then some (record { table_name = letter b't'; schema = three_columns })
                else get_table other no_tables)))
create_table_lem_example =
    create_table_lem (letter b't') three_columns no_tables no_tables-IsValid no_t

abbrev t_table : Table
t_table = record { table_name = letter b't'; schema = three_columns }

abbrev one_table : Catalog
one_table = record no_tables {
  tables = (letter b't', t_table) ∷ [];
  heaps = (letter b't', raw_pool [] 1) ∷ [];
}
