-- ===== src/Catalog/Files.antt =====
-- src/catalog/catalog.hpp: what a `Catalog` reads from its directory and leaves there.
pub mod Heaps
pub mod Reopen
pub mod Listing
pub mod Durable
use tadis.Prelude.{
  ℕ, ◌+◌, Bool, Option, none, some, List, [], ◌∷◌, ◌++◌, length, drop, ◌==◌, if◌then◌else◌,
}
use tadis.Common.TextMap.{emplace, update}
use tadis.Storage.BufferPool.{BufferPool}
use tadis.Storage.BufferPool.Lifecycle
use tadis.Json.Numbers.{NumberOps}
use tadis.Json.File.{write}
use tadis.Catalog.Meta.{schema_to_json, read_schema}
use tadis.Catalog.Tables.{
  Catalog, Table, File, table_file, meta_file, has, db_name, json_name, open_heap,
}

-- A file that is written whole.
abbrev pub write_file : List ℕ → File → List (List ℕ × File) → List (List ℕ × File)
write_file name f files = if has name files then update name f files else emplace name f files

-- `base_dir_ + "/" + name + ".json"`, and the pattern of `is_json`.
abbrev pub meta_name : List ℕ → List ℕ → List ℕ
meta_name dir name = dir ++ (b'/' ∷ json_name name)

abbrev pub backslash : ℕ
backslash = 92

abbrev pub meta_pattern : List ℕ → List ℕ
meta_pattern dir = meta_name dir (backslash ∷ b'w' ∷ b'+' ∷ [])

-- The bytes of a file.
unfoldable pub file_bytes : File → List ℕ
file_bytes (table_file []) = []
file_bytes (table_file (block ∷ blocks)) = block ++ file_bytes (table_file blocks)
file_bytes (meta_file text) = text

-- The loop of `is_json`, which stops at a dot; without one it leaves the text.
unfoldable pub up_to_dot : List ℕ → Option (List ℕ)
up_to_dot [] = none
up_to_dot (ch ∷ text) =
    let more : Option (List ℕ) = elim (up_to_dot text) [
      | none ↦ none
      | some name ↦ some (ch ∷ name)
    ] in
    if ch == b'.' then some [] else more

-- `matches` is `std::regex_match`, of a pattern and a text; `last` is what an uninitialised
-- character is in the reading of a file.
module _ {N : Type 0} (ops : NumberOps N) (matches : List ℕ → List ℕ → Bool)
    (last : List ℕ → ℕ) where
  -- `is_json`, with the name that it gives.
  unfoldable pub is_json : List ℕ → List ℕ → Option (Option (List ℕ))
  unfolding up_to_dot
  is_json dir file =
      if matches (meta_pattern dir) file
      then (elim (up_to_dot (drop (length dir + 1) file)) [
        | none ↦ none
        | some name ↦ some (some name)
      ])
      else some none

  -- `Catalog::init` on one file.
  unfoldable pub init_file : List ℕ → File → Catalog → Option Catalog
  unfolding is_json file_bytes
  init_file file f c = elim (is_json c.base_dir file) [
    | none ↦ none
    | some none ↦ some c
    | some (some name) ↦ elim (open_heap (db_name name) c.files) [
      | none ↦ none
      | some heap ↦ elim (read_schema ops (file_bytes f) (last file)) [
        | none ↦ none
        | some schema ↦ some (record c {
          heaps = emplace name heap c.heaps;
          tables = emplace name (record { table_name = name; schema = schema }) c.tables;
        })
      ]
    ]
  ]

  -- `Catalog::init`, over the files of the directory in the order in which the iterator gives them.
  unfoldable pub init : List (List ℕ × File) → Catalog → Option Catalog
  unfolding init_file
  init [] c = some c
  init ((file, f) ∷ files) c = elim (init_file file f c) [ none ↦ none | some c' ↦ init files c' ]

module _ {N : Type 0} (ops : NumberOps N) where
  -- `Catalog::close`: the meta file of each table, in the order of the map.
  unfoldable pub write_metas :
      List ℕ → List (List ℕ × Table) → List (List ℕ × File) → Option (List (List ℕ × File))
  write_metas dir [] files = some files
  write_metas dir ((name, t) ∷ tables) files = elim (write ops (schema_to_json ops t.schema)) [
    | none ↦ none
    | some text ↦ write_metas dir tables (write_file (meta_name dir name) (meta_file text) files)
  ]

-- The destructor of `StorageManager`: each table is closed, and its file is as its pool left it.
unfoldable pub close_heaps :
    List (List ℕ × BufferPool) → List (List ℕ × File) → Option (List (List ℕ × File))
close_heaps [] files = some files
close_heaps ((name, heap) ∷ heaps) files = elim (Lifecycle.close heap) [
  | none ↦ none
  | some (u, closed) ↦
      close_heaps heaps (write_file (db_name name) (table_file closed.disk.blocks) files)
]

-- The destructor of `Catalog`: the files that it leaves.
unfoldable pub close : {N : Type 0} (ops : NumberOps N) → Catalog → Option (List (List ℕ × File))
unfolding write_metas close_heaps
close ops c = elim (write_metas ops c.base_dir c.tables c.files) [
  | none ↦ none
  | some files ↦ close_heaps c.heaps files
]
