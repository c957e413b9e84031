-- ===== src/Catalog/Tables.antt =====
-- src/catalog/catalog.hpp: `StorageManager`, `Table` and `Catalog`. `none` is a failed assertion, or
-- a step of a buffer pool that does not return. A file is the blocks of a table, or a text.
pub mod Laws
use tadis.Prelude.{ℕ, Bool, true, false, Option, none, some, List, [], ◌∷◌, ◌++◌, if◌then◌else◌}
use tadis.Common.TextMap
use tadis.Common.TextMap.{lookup, emplace, update, erase, keys}
use tadis.Storage.BufferPool.{BufferPool, M}
use tadis.Storage.BufferPool.Lifecycle
use tadis.Storage.Scanner
use tadis.Storage.Scanner.{RecordScanner}
use tadis.Catalog.Column.{Column}
use tadis.Catalog.Schema.{Schema}

pub data File : Type 0 where
  table_file : List (List ℕ) → File
  meta_file : List ℕ → File

pub record Table : Type 0 where
  pub table_name : List ℕ
  pub schema : Schema

-- `Catalog` with its `stm_`: the open tables are buffer pools. A file of an open table is brought
-- up to date when the table is closed.
pub record Catalog : Type 0 where
  pub tables : List (List ℕ × Table)
  pub heaps : List (List ℕ × BufferPool)
  pub files : List (List ℕ × File)
  pub base_dir : List ℕ

abbrev pub has : {A : Type 0} → List ℕ → List (List ℕ × A) → Bool
has key m = elim (lookup key m) [ none ↦ false | some a ↦ true ]

-- `table_name + ".db"` and `table_name + ".json"`
abbrev pub db_name : List ℕ → List ℕ
db_name name = name ++ (b'.' ∷ b'd' ∷ b'b' ∷ [])

abbrev pub json_name : List ℕ → List ℕ
json_name name = name ++ (b'.' ∷ b'j' ∷ b's' ∷ b'o' ∷ b'n' ∷ [])

abbrev pub blocks_of : Option File → List (List ℕ)
blocks_of (some (table_file blocks)) = blocks
blocks_of _ = []

-- `TableHeap{file}`, with the pool size of its default argument.
unfoldable pub open_heap : List ℕ → List (List ℕ × File) → Option BufferPool
open_heap file files = Lifecycle.create (blocks_of (lookup file files)) 16

-- `StorageManager::create_table`
unfoldable pub store_create : List ℕ → Catalog → Option Catalog
store_create name c = if has name c.heaps then none else elim (open_heap (db_name name) c.files) [
  | none ↦ none
  | some heap ↦ some (record c { heaps = emplace name heap c.heaps })
]

-- `StorageManager::drop_table`; the destructor of the pool closes it.
unfoldable pub store_drop : List ℕ → Catalog → Option Catalog
store_drop name c =
    let dropped =
      some
        (record c { heaps = erase name c.heaps; files = TextMap.erase (db_name name) c.files }) in
    elim (lookup name c.heaps) [
      | none ↦ dropped
      | some heap ↦ elim (Lifecycle.close heap) [ none ↦ none | some closed ↦ dropped ]
    ]

-- `StorageManager::get_table`, and a step of the pool of that table; a null table is undefined
-- behaviour.
unfoldable pub on_heap : {A : Type 0} → List ℕ → M A → Catalog → Option (A × Catalog)
on_heap name m c = elim (lookup name c.heaps) [
  | none ↦ none
  | some heap ↦ elim (m heap) [
    | none ↦ none
    | some (a, heap') ↦ some (a, record c { heaps = update name heap' c.heaps })
  ]
]

-- `Catalog::create_table`
unfoldable pub create_table : List ℕ → List Column → Catalog → Option Catalog
create_table name columns c =
    store_create name
      (record c { tables = emplace name (record { table_name = name; schema = columns }) c.tables })

unfoldable pub has_table : List ℕ → Catalog → Bool
has_table name c = has name c.tables

unfoldable pub get_table : List ℕ → Catalog → Option Table
get_table name c = lookup name c.tables

-- `Catalog::drop_table`
unfoldable pub drop_table : List ℕ → Catalog → Option Catalog
unfolding has_table
drop_table name c =
    if has_table name c
    then store_drop name
        (record c { tables = erase name c.tables; files = erase (json_name name) c.files })
    else none

-- `Catalog::scanner`; none is the null pointer.
unfoldable pub scanner : List ℕ → Catalog → Option (Option RecordScanner × Catalog)
unfolding on_heap
scanner name c = if has name c.heaps then on_heap name Scanner.init c else some (none, c)

unfoldable pub tables_name : Catalog → List (List ℕ)
tables_name c = keys c.tables
