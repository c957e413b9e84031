-- ===== src/Catalog/Files/Heaps.antt =====
-- src/catalog/catalog.hpp: the files that the destructor of `StorageManager` leaves.
use mathlib.Core.Path.{subst}
use tadis.Prelude.{
  ℕ, ◌≡◌, refl, false, Option, none, some, List, [], ◌∷◌, arith, if◌then◌else◌, Bool-cases,
  Option-cases, inl, inr,
}
use tadis.Common.TextMap.{eq_text, lookup}
use tadis.Common.TextMap.Laws.{eq_text-append, eq_text_sound, lookup-emplace, lookup-update}
use tadis.Storage.BufferPool.{BufferPool}
use tadis.Storage.BufferPool.Lifecycle
use tadis.Storage.BufferPool.Durable.{Closable, close_lem}
use tadis.Catalog.Tables.{File, table_file, db_name}
use tadis.Catalog.Files.{write_file, close_heaps}

pub lookup-write_file :
    (j k : List ℕ) (f : File) (files : List (List ℕ × File))
    → lookup j (write_file k f files) ≡ (if eq_text k j then some f else lookup j files)
lookup-write_file j k f files = elim (Option-cases (lookup k files)) [
  | inl gone ↦ ground (arith, lookup-emplace j k f files gone)
  | inr (old, there) ↦ ground (arith, lookup-update j k f files)
]

-- Distinct names, and pools that can be closed.
abbrev pub AllClosable : List (List ℕ × BufferPool) → Type 0
AllClosable [] = Unit
AllClosable ((name, heap) ∷ heaps) = Closable heap × (lookup name heaps ≡ none) × AllClosable heaps

pub Closable-lookup :
    (name : List ℕ) (heap : BufferPool) (heaps : List (List ℕ × BufferPool))
    → AllClosable heaps
    → lookup name heaps ≡ some heap
    → Closable heap
unfolding lookup
Closable-lookup name heap [] all h = absurd (ground arith)
Closable-lookup name heap ((other, first) ∷ heaps) (c, once, all) h =
    elim (Bool-cases (eq_text other name)) [
      | inl here ↦ let one : first ≡ heap = ground arith in subst Closable one c
      | inr later ↦ Closable-lookup name heap heaps all (ground arith)
    ]

-- The file of each pool is as its `close` leaves it, and the others are as before.
abbrev pub file_of : Option (Unit {0} × BufferPool) → Option File
file_of none = none
file_of (some (u, closed)) = some (table_file closed.disk.blocks)

pub close_heaps_lem :
    (heaps : List (List ℕ × BufferPool)) (files : List (List ℕ × File))
    → AllClosable heaps
    → (files' : List (List ℕ × File)) × (close_heaps heaps files ≡ some files')
      × ((name : List ℕ)
          → lookup (db_name name) files' ≡ (elim (lookup name heaps) [
            | none ↦ lookup (db_name name) files
            | some heap ↦ file_of (Lifecycle.close heap)
          ]))
      × ((file : List ℕ)
          → ((name : List ℕ) → eq_text (db_name name) file ≡ false)
          → lookup file files' ≡ lookup file files)
unfolding close_heaps lookup
close_heaps_lem [] files all = (files, refl, (λ name. refl), (λ file other. refl))
close_heaps_lem ((first, heap) ∷ heaps) files (c, once, all) =
    let (closed, ran, sized, stored) = close_lem heap 1 c (omega arith) (omega arith) in
    let closed_file = table_file closed.disk.blocks in
    let (files', rest, after, others) =
      close_heaps_lem heaps (write_file (db_name first) closed_file files) all in
    (
      files',
      ground (arith, ran, rest),
      λ name.
          let same = eq_text-append first name (b'.' ∷ b'd' ∷ b'b' ∷ []) in
          let file = lookup-write_file (db_name name) (db_name first) closed_file files in
          ground (arith, after name, ran, same, file, eq_text_sound first name),
      λ file other.
          let before = lookup-write_file file (db_name first) closed_file files in
          ground (arith, others file other, other first, before),
    )
