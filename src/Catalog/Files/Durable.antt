-- ===== src/Catalog/Files/Durable.antt =====
-- src/catalog/catalog.hpp: a catalog that is closed and opened again.
use mathlib.Core.Path.{subst}
use tadis.Prelude.{
  ℕ, ◌<◌, ◌≡◌, refl, sym, ap, ◌∙◌, Bool, true, false, none, some, List, [], ◌∷◌, arith, inl, inr,
  Bool-cases, Option-cases,
}
use tadis.Common.TextMap.{eq_text, lookup}
use tadis.Common.TextMap.Laws.{eq_text_sound, eq_text_comm, eq_text_ends, last_of-append}
use tadis.Storage.Disk.Content.{max_id}
use tadis.Storage.BufferPool.{BufferPool}
use tadis.Storage.BufferPool.Invariant.{IsValid, page_content}
use tadis.Storage.BufferPool.Flush.{settled}
use tadis.Storage.BufferPool.Lifecycle
use tadis.Storage.BufferPool.Create.{IsTableFile}
use tadis.Storage.BufferPool.Durable.{create-close, close_lem}
use tadis.Json.Value.{object}
use tadis.Json.Numbers.{NumberOps}
use tadis.Json.Writer.{print_value}
use tadis.Catalog.Meta.RoundTrip.{KeepsSizes, IsStorable, schema_object}
use tadis.Catalog.Tables.{
  Catalog, Table, File, table_file, meta_file, db_name, json_name, open_heap, blocks_of,
}
use tadis.Catalog.Files.{meta_name, meta_pattern, up_to_dot, init, write_file, close}
use tadis.Catalog.Files.Heaps.{
  AllClosable, Closable-lookup, file_of, close_heaps_lem, lookup-write_file,
}
use tadis.Catalog.Files.Reopen.{
  AreDistinct, write_all, reopened, open_heap_lem, meta_files, write_metas_lem, lookup-write_all,
}
use tadis.Catalog.Files.Listing.{IsKept, IsListing, init_listing}

-- The names of the meta files and those of the table files differ.
db_name-meta_name : (dir a b : List ℕ) → eq_text (db_name a) (meta_name dir b) ≡ false
db_name-meta_name dir a b =
    eq_text_ends a b'.' (b'd' ∷ b'b' ∷ []) dir b'/' (json_name b)
      (λ e. absurd (omega (arith, e, last_of-append b'/' b b'.' (b'j' ∷ b's' ∷ b'o' ∷ b'n' ∷ []))))

module _ {N : Type 0} (ops : NumberOps N) (c : Catalog) where
  -- The meta files are written beside the table files.
  db_name-write_all :
      (name : List ℕ) (ts : List (List ℕ × Table)) (before : List (List ℕ × File))
      → lookup (db_name name) (write_all (meta_files ops c.base_dir ts) before)
        ≡ lookup (db_name name) before
  unfolding meta_files
  db_name-write_all name [] before = refl
  db_name-write_all name ((first, t) ∷ ts) before =
      let text : File = meta_file (print_value ops (object (schema_object ops t.schema))) in
      ground (
        arith,
        db_name-write_all name ts (write_file (meta_name c.base_dir first) text before),
        lookup-write_file (db_name name) (meta_name c.base_dir first) text before,
        db_name-meta_name c.base_dir name first,
        eq_text_comm (meta_name c.base_dir first) (db_name name),
      )

  -- When a catalog is closed, the meta file of each table has the printed schema of the table, and
  -- the file of each pool is the one that the close of the pool leaves. Where a name has no table,
  -- its meta file is as before, and where it has no pool, its table file is. The names of the tables
  -- are distinct, and so are those of the pools, and each pool can be closed.
  pub lookup-close :
      AreDistinct c.tables
      → AllClosable c.heaps
      → (files : List (List ℕ × File)) × (close ops c ≡ some files)
        × ((name : List ℕ)
            → lookup (meta_name c.base_dir name) files ≡ (elim (lookup name c.tables) [
              | none ↦ lookup (meta_name c.base_dir name) c.files
              | some t ↦ some (meta_file (print_value ops (object (schema_object ops t.schema))))
            ]))
        × ((name : List ℕ)
            → lookup (db_name name) files ≡ (elim (lookup name c.heaps) [
              | none ↦ lookup (db_name name) c.files
              | some heap ↦ file_of (Lifecycle.close heap)
            ]))
  unfolding close
  lookup-close distinct all =
      let before = write_all (meta_files ops c.base_dir c.tables) c.files in
      let wrote = write_metas_lem ops c.base_dir c.tables c.files in
      let (files, ran, after, others) = close_heaps_lem c.heaps before all in
      (
        files,
        ground (arith, wrote, ran),
        λ name.
            others (meta_name c.base_dir name) (λ a. db_name-meta_name c.base_dir a name)
            ∙ lookup-write_all ops c.base_dir name c.tables c.files distinct,
        λ name. ground (arith, after name, db_name-write_all name c.tables c.files),
      )

module _ {N : Type 0} (ops : NumberOps N) (matches : List ℕ → List ℕ → Bool) (last : List ℕ → ℕ)
    (c : Catalog) where
  -- Each name has no dot, its meta file has a name that the pattern takes, its columns can be
  -- stored, and its pool is open.
  abbrev pub CanReopen : List ℕ → Table → Type 0
  CanReopen name t =
      (matches (meta_pattern c.base_dir) (meta_name c.base_dir name) ≡ true)
      × (up_to_dot (json_name name) ≡ some name)
      × IsStorable t.schema
      × ((heap : BufferPool) × (lookup name c.heaps ≡ some heap))

  abbrev pub Storable : List (List ℕ × Table) → Type 0
  Storable [] = Unit
  Storable ((name, t) ∷ ts) = CanReopen name t × Storable ts

  Storable-lookup :
      (name : List ℕ) (t : Table) (ts : List (List ℕ × Table))
      → Storable ts
      → lookup name ts ≡ some t
      → CanReopen name t
  unfolding lookup
  Storable-lookup name t [] st at = absurd (ground arith)
  Storable-lookup name t ((other, first) ∷ ts) (s, st) at = elim (Bool-cases (eq_text other name)) [
    | inl here ↦
        let one : first ≡ t = ground arith in
        let same = eq_text_sound other name here in
        subst (λ n. CanReopen n t) same (subst (CanReopen other) one s)
    | inr later ↦ Storable-lookup name t ts st (ground arith)
  ]

  -- Each table has its meta file in the listing.
  abbrev pub HasMetas : List (List ℕ × File) → Type 0
  HasMetas listing =
      (name : List ℕ) (t : Table)
      → lookup name c.tables ≡ some t
      → (f : File) × (lookup (meta_name c.base_dir name) listing ≡ some f)

  module _ (distinct : AreDistinct c.tables) (all : AllClosable c.heaps) (st : Storable c.tables)
      (files : List (List ℕ × File)) (closes : close ops c ≡ some files) where
    -- What `close` left in the files.
    left_metas :
        (name : List ℕ) (t : Table)
        → lookup name c.tables ≡ some t
        → lookup (meta_name c.base_dir name) files
          ≡ some (meta_file (print_value ops (object (schema_object ops t.schema))))
    left_metas name t at =
        let (files', ran, metas, tables) = lookup-close ops c distinct all in
        let one : files' ≡ files = ground arith in
        ap (lookup (meta_name c.base_dir name)) (sym one) ∙ metas name ∙ ground arith

    left_blocks :
        (name : List ℕ) (heap closed : BufferPool)
        → lookup name c.heaps ≡ some heap
        → Lifecycle.close heap ≡ some (tt, closed)
        → blocks_of (lookup (db_name name) files) ≡ closed.disk.blocks
    left_blocks name heap closed held ran =
        let (files', ran', metas, tables) = lookup-close ops c distinct all in
        let one : files' ≡ files = ground arith in
        let file : lookup (db_name name) files ≡ some (table_file closed.disk.blocks) =
          ap (lookup (db_name name)) (sym one) ∙ tables name ∙ ground (arith, held, ran) in
        ap blocks_of file

    kept :
        (name : List ℕ) (t : Table)
        → lookup name c.tables ≡ some t
        → IsKept ops matches last c.base_dir files c.tables name t
    kept name t at =
        let (takes, no_dot, storable, (heap, held)) = Storable-lookup name t c.tables st at in
        let (closed, ran, sized, stored) =
          close_lem heap 1 (Closable-lookup name heap c.heaps all held) (omega arith)
            (omega arith) in
        record {
          takes = takes;
          no_dot = no_dot;
          storable = storable;
          text = left_metas name t at;
          opens =
              open_heap_lem (db_name name) files
                (subst IsTableFile (sym (left_blocks name heap closed held ran)) sized);
        }

  -- After a catalog is closed, a catalog that is opened over the files of its directory has every
  -- table under its name and with its columns, each column's name without its blanks, and no other
  -- table. The pool of each table is valid and has every page with the contents that it had, but for
  -- the header page, the numbers from 2 ^ 54 on, and the pages that were pinned and not dirty. The
  -- files are listed in any order, each once, and the meta file of each table is among them; files
  -- that the pattern does not take may be there, and no file that it takes but the meta files of the
  -- tables. The names of the tables are distinct, and so are those of the pools; each table has a
  -- pool, and each pool can be closed; the names and the pattern of the meta files fit, the columns
  -- can be stored, and the sizes below 2 ^ 53 are kept by a `double`.
  pub init-close :
      (name : List ℕ) (t : Table) (heap : BufferPool) (j : ℕ) (files listing : List (List ℕ × File))
      → KeepsSizes ops
      → AreDistinct c.tables
      → AllClosable c.heaps
      → Storable c.tables
      → lookup name c.tables ≡ some t
      → lookup name c.heaps ≡ some heap
      → 0 < j
      → j < max_id
      → settled heap j ≡ true
      → close ops c ≡ some files
      → IsListing ops matches last c.base_dir files c.tables listing
      → HasMetas listing
      → (c' : Catalog) × (init ops matches last listing
            (record { tables = []; heaps = []; files = files; base_dir = c.base_dir })
          ≡ some c')
        × ((other : List ℕ)
            → lookup other c'.tables
              ≡ (elim (lookup other c.tables) [ none ↦ none | some u ↦ some (reopened other u) ]))
        × ((heap' : BufferPool) × (lookup name c'.heaps ≡ some heap')
            × IsValid heap'
            × (page_content heap' j ≡ page_content heap j))
  unfolding lookup open_heap
  init-close name t heap j files listing k distinct all st at_t at_heap other j-lt s closes ls
        metas =
      let (c', opened, read) =
        init_listing ops matches last c.base_dir files c.tables (kept distinct all st files closes)
          k listing (record { tables = []; heaps = []; files = files; base_dir = c.base_dir }) refl
          refl ls (λ n f listed. (refl, refl)) in
      let (closed, ran, (heap', creates, valid, same)) =
        create-close heap j 16 (Closable-lookup name heap c.heaps all at_heap) other j-lt s
          (omega arith) in
      let blocks = left_blocks distinct all st files closes name heap closed at_heap ran in
      let (f, listed) = metas name t at_t in
      (
        c',
        opened,
        λ u. (read u).0 ∙ elim (Option-cases (lookup u c.tables)) [
          | inl gone ↦ elim (Option-cases (lookup (meta_name c.base_dir u) listing)) [
            | inl none_left ↦ ground arith
            | inr (g, there) ↦ ground arith
          ]
          | inr (w, there) ↦ let (g, at_g) = metas u w there in ground (arith, at_g)
        ],
        (
          heap',
          (read name).1
              ∙ ground (arith, at_t, listed)
              ∙ ap (λ l. Lifecycle.create l 16) blocks
              ∙ creates,
          valid,
          same,
        ),
      )
