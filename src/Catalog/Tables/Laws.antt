-- ===== src/Catalog/Tables/Laws.antt =====
-- src/catalog/catalog.hpp: what `create_table` and `drop_table` do to the tables.
use tadis.Prelude.{
  ℕ, ◌≡◌, ◌⊎◌, inl, inr, sym, ◌∙◌, false, none, some, List, arith, if◌then◌else◌, Option-cases,
}
use tadis.Common.TextMap.{eq_text, lookup, emplace}
use tadis.Common.TextMap.Laws.{lookup-emplace}
use tadis.Storage.BufferPool.{BufferPool}
use tadis.Storage.BufferPool.Lifecycle
use tadis.Catalog.Column.{Column}
use tadis.Catalog.Tables.{
  Catalog, Table, create_table, get_table, has_table, has, store_create, open_heap, db_name,
}

-- The tables and the open pools have the same names.
pub record IsValid (c : Catalog) : Type 0 where
  pub paired : (name : List ℕ) → has name c.tables ≡ has name c.heaps

has-lookup :
    {A : Type 0} (name : List ℕ) (m : List (List ℕ × A)) → has name m ≡ false → lookup name m ≡ none
has-lookup name m h = ground arith

-- On a valid catalog `create_table` of a name that is not there does not return where the file cannot be
-- opened as a table. Otherwise it makes a valid catalog with the new table and its columns beside the
-- tables that were there.
pub create_table_lem :
    (name : List ℕ) (columns : List Column) (c : Catalog)
    → IsValid c
    → has_table name c ≡ false
    → ((open_heap (db_name name) c.files ≡ none) × (create_table name columns c ≡ none))
      ⊎ ((c' : Catalog) × (create_table name columns c ≡ some c')
          × IsValid c'
          × ((other : List ℕ)
              → get_table other c' ≡ (
                  if eq_text name other
                  then some (record { table_name = name; schema = columns })
                  else get_table other c)))
unfolding create_table store_create has_table get_table
create_table_lem name columns c v fresh =
    let t : Table = record { table_name = name; schema = columns } in
    let no_table = has-lookup name c.tables fresh in
    let no_heap = has-lookup name c.heaps (sym (v.paired name) ∙ fresh) in
    elim (Option-cases (open_heap (db_name name) c.files)) [
      | inl closed ↦ inl (closed, ground (arith, no_heap, closed))
      | inr (heap, opened) ↦ inr (
        record c { tables = emplace name t c.tables; heaps = emplace name heap c.heaps },
        ground (arith, no_heap, opened),
        record {
          paired = λ other. ground (
            arith,
            lookup-emplace other name t c.tables no_table,
            lookup-emplace other name heap c.heaps no_heap,
            v.paired other,
          );
        },
        λ other. lookup-emplace other name t c.tables no_table,
      )
    ]
