-- ===== src/Catalog/Files/Reopen.antt =====
-- src/catalog/catalog.hpp: a meta file that `close` writes and `init` reads.
use tadis.Prelude.{
  ℕ, suc, ◌+◌, ◌≡◌, refl, ap, ◌∙◌, Bool, true, none, some, List, [], ◌∷◌, ◌++◌, arith, length, drop,
}
use tadis.Common.TextMap.{eq_text, lookup, emplace}
use tadis.Common.TextMap.Laws.{eq_text_sound, eq_text-append, eq_text-prefix}
use tadis.Catalog.Files.Heaps.{lookup-write_file}
use tadis.Storage.BufferPool.{BufferPool}
use tadis.Storage.BufferPool.Create.{IsTableFile, create_lem}
use tadis.Json.Value.{object}
use tadis.Json.Numbers.{NumberOps}
use tadis.Json.Writer.{print, print_value}
use tadis.Json.File.{write}
use tadis.Catalog.Meta.{schema_to_json}
use tadis.Catalog.Meta.RoundTrip.{
  KeepsSizes, IsStorable, squeeze_schema, schema_object, schema_to_json_lem, read_schema-to_json,
}
use tadis.Catalog.Schema.{Schema}
use tadis.Catalog.Tables.{Catalog, Table, File, meta_file, db_name, json_name, open_heap, blocks_of}
use tadis.Catalog.Files.{
  write_file, meta_name, meta_pattern, file_bytes, up_to_dot, is_json, init_file, write_metas,
}

abbrev pub AreDistinct : List (List ℕ × Table) → Type 0
AreDistinct [] = Unit
AreDistinct ((name, t) ∷ ts) = (lookup name ts ≡ none) × AreDistinct ts

drop_past : (dir rest : List ℕ) (ch : ℕ) → drop (length dir + 1) (dir ++ (ch ∷ rest)) ≡ rest
drop_past [] rest ch = refl
drop_past (x ∷ dir) rest ch =
    let one_more : suc (length dir) + 1 ≡ suc (length dir + 1) = omega arith in
    ap (λ n. drop n (x ∷ (dir ++ (ch ∷ rest)))) one_more ∙ drop_past dir rest ch

-- The files that `close` writes are written over what is there.
abbrev pub write_all : List (List ℕ × File) → List (List ℕ × File) → List (List ℕ × File)
write_all [] files = files
write_all ((name, f) ∷ metas) files = write_all metas (write_file name f files)

-- A table as it is opened again.
abbrev pub reopened : List ℕ → Table → Table
reopened name t = record { table_name = name; schema = squeeze_schema t.schema }

pub open_heap_lem :
    (file : List ℕ) (files : List (List ℕ × File))
    → IsTableFile (blocks_of (lookup file files))
    → (heap : BufferPool) × (open_heap file files ≡ some heap)
unfolding open_heap
open_heap_lem file files pages =
    let (heap, ran, valid, same) =
      create_lem (blocks_of (lookup file files)) 16 1 (omega arith) pages (omega arith)
        (omega arith) in
    (heap, ran)

module _ {N : Type 0} (ops : NumberOps N) (dir : List ℕ) where
  -- The meta files of some tables.
  unfoldable pub meta_files : List (List ℕ × Table) → List (List ℕ × File)
  meta_files [] = []
  meta_files ((name, t) ∷ ts) =
      (meta_name dir name, meta_file (print_value ops (object (schema_object ops t.schema))))
      ∷ meta_files ts

  pub length-meta_files : (ts : List (List ℕ × Table)) → length (meta_files ts) ≡ length ts
  unfolding meta_files
  length-meta_files [] = refl
  length-meta_files ((name, t) ∷ ts) = ap suc (length-meta_files ts)

  pub written :
      (s : Schema)
      → write ops (schema_to_json ops s) ≡ some (print_value ops (object (schema_object ops s)))
  unfolding print
  written s = ap (print ops) (schema_to_json_lem ops s)

  pub write_metas_lem :
      (ts : List (List ℕ × Table)) (before : List (List ℕ × File))
      → write_metas ops dir ts before ≡ some (write_all (meta_files ts) before)
  unfolding write_metas meta_files
  write_metas_lem [] before = refl
  write_metas_lem ((name, t) ∷ ts) before =
      rw (written t.schema, write_metas)
        (write_metas_lem ts (write_file (meta_name dir name) _ before))

  pub eq_text-meta_name : (a b : List ℕ) → eq_text (meta_name dir a) (meta_name dir b) ≡ eq_text a b
  unfolding eq_text
  eq_text-meta_name a b =
      eq_text-prefix dir (b'/' ∷ json_name a) (b'/' ∷ json_name b)
      ∙ eq_text-append a b (b'.' ∷ b'j' ∷ b's' ∷ b'o' ∷ b'n' ∷ [])

  -- The meta file of each table is there, and no other was written.
  pub lookup-write_all :
      (name : List ℕ) (ts : List (List ℕ × Table)) (before : List (List ℕ × File))
      → AreDistinct ts
      → lookup (meta_name dir name) (write_all (meta_files ts) before) ≡ (elim (lookup name ts) [
        | none ↦ lookup (meta_name dir name) before
        | some t ↦ some (meta_file (print_value ops (object (schema_object ops t.schema))))
      ])
  unfolding meta_files lookup
  lookup-write_all name [] before d = refl
  lookup-write_all name ((first, t) ∷ ts) before (once, d) =
      let text : File = meta_file (print_value ops (object (schema_object ops t.schema))) in
      ground (
        arith,
        lookup-write_all name ts (write_file (meta_name dir first) text before) d,
        lookup-write_file (meta_name dir name) (meta_name dir first) text before,
        eq_text-meta_name first name,
        eq_text_sound first name,
      )

module _ {N : Type 0} (ops : NumberOps N) (matches : List ℕ → List ℕ → Bool) (last : List ℕ → ℕ)
    (dir : List ℕ) (files : List (List ℕ × File)) where
  is_json-meta_name :
      (name : List ℕ)
      → matches (meta_pattern dir) (meta_name dir name) ≡ true
      → up_to_dot (json_name name) ≡ some name
      → is_json ops matches last dir (meta_name dir name) ≡ some (some name)
  unfolding is_json
  is_json-meta_name name m d = ground (arith, drop_past dir (json_name name) b'/')

  -- One meta file adds its table.
  pub init_file-meta_file :
      (name : List ℕ) (t : Table) (c : Catalog) (heap : BufferPool)
      → KeepsSizes ops
      → c.base_dir ≡ dir
      → c.files ≡ files
      → matches (meta_pattern dir) (meta_name dir name) ≡ true
      → up_to_dot (json_name name) ≡ some name
      → IsStorable t.schema
      → open_heap (db_name name) files ≡ some heap
      → init_file ops matches last
          (meta_name dir name)
          (meta_file (print_value ops (object (schema_object ops t.schema))))
          c
        ≡ some (record c {
          heaps = emplace name heap c.heaps;
          tables = emplace name (reopened name t) c.tables;
        })
  unfolding init_file file_bytes
  init_file-meta_file name t c heap k at_dir at_files m d st opens =
      let text = print_value ops (object (schema_object ops t.schema)) in
      let json : is_json ops matches last c.base_dir (meta_name dir name) ≡ some (some name) =
        ap (λ b. is_json ops matches last b (meta_name dir name)) at_dir
        ∙ is_json-meta_name name m d in
      let heap_opens : open_heap (db_name name) c.files ≡ some heap =
        ap (open_heap (db_name name)) at_files ∙ opens in
      let back =
        read_schema-to_json ops t.schema (last (meta_name dir name)) text k st
          (written ops dir t.schema) in
      ground (arith, json, heap_opens, back)
