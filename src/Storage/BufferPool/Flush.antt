-- ===== src/Storage/BufferPool/Flush.antt =====
-- src/storage/bufferpool/buffer_pool.hpp: `BufferPool::flush_all_page`.
use tadis.Prelude.{
  ℕ, ◌<◌, ◌≡◌, refl, ◌∙◌, Bool, true, ◌||◌, ◌==◌, none, some, List, [], ◌∷◌, arith, if◌then◌else◌,
  Bool-cases, Option-cases, inl, inr, get_elem?, length,
}
use tadis.Storage.Def.{Page, page_size}
use tadis.Storage.Disk
use tadis.Storage.Disk.{Disk}
use tadis.Storage.Disk.Content.{content, max_id, Sized, content-write_page, write_page-Sized}
use tadis.Storage.BufferPool.{BufferPool, find}
use tadis.Storage.BufferPool.Lifecycle.{flush_entries, flush_all_page}
use tadis.Storage.BufferPool.Dir.{Keys}
use tadis.Storage.BufferPool.Invariant.{Held, IsValid, page_content}

-- What the disk has of page `j` after the entries of `dir` have been flushed to it.
abbrev written : BufferPool → Disk → List (ℕ × ℕ) → ℕ → List ℕ
written b d dir j = elim (find j dir) [
  | none ↦ content d j
  | some f ↦ elim (get_elem? b.pages f) [
    | none ↦ content d j
    | some p ↦ if p.dirty then p.buffer else content d j
  ]
]

abbrev with_disk : BufferPool → Disk → BufferPool
with_disk b d = record b { disk = d }

abbrev Flushed : BufferPool → Disk → List (ℕ × ℕ) → Type 0
Flushed b d dir =
    (d' : Disk) × (flush_entries dir (with_disk b d) ≡ some (tt, with_disk b d'))
    × Sized d'.blocks
    × ((j : ℕ) → j < max_id → content d' j ≡ written b d dir j)

-- The disk after one entry.
abbrev stored : Disk → ℕ → Page → Disk
stored d pid p = if p.dirty then Disk.write_page d pid p.buffer else d

content-stored :
    (d : Disk) (pid j : ℕ) (p : Page)
    → pid < max_id
    → j < max_id
    → content (stored d pid p) j
      ≡ (if p.dirty then (if pid == j then p.buffer else content d j) else content d j)
content-stored d pid j p h k = elim (Bool-cases p.dirty) [
  | inl dirty ↦ rw dirty (content-write_page d pid j p.buffer h k)
  | inr clean ↦ rw clean refl
]

stored-Sized :
    (d : Disk) (pid : ℕ) (p : Page)
    → Sized d.blocks
    → length p.buffer ≡ page_size
    → Sized (stored d pid p).blocks
stored-Sized d pid p s h = elim (Bool-cases p.dirty) [
  | inl dirty ↦ rw dirty (write_page-Sized d pid p.buffer s h)
  | inr clean ↦ rw clean s
]

flush_entries-cons :
    (b : BufferPool) (d : Disk) (pid f : ℕ) (p : Page) (dir : List (ℕ × ℕ))
    → get_elem? b.pages f ≡ some p
    → flush_entries ((pid, f) ∷ dir) (with_disk b d)
      ≡ flush_entries dir (with_disk b (stored d pid p))
unfolding flush_entries
flush_entries-cons b d pid f p dir here = elim (Bool-cases p.dirty) [
  | inl dirty ↦ ground arith
  | inr clean ↦ ground arith
]

module _ (b : BufferPool)
    (sized : (f : ℕ) (p : Page) → get_elem? b.pages f ≡ some p → length p.buffer ≡ page_size) where
  flush_entries_lem :
      (dir : List (ℕ × ℕ)) (d : Disk)
      → Keys dir
      → ((j f : ℕ) → find j dir ≡ some f → Held b j f)
      → Sized d.blocks
      → Flushed b d dir
  unfolding find
  flush_entries_lem [] d keys held s = (d, unfold flush_entries in refl, s, λ j h. refl)
  flush_entries_lem ((pid, f) ∷ dir) d (fresh, keys) held s =
      let (small, (p, here, is)) = held pid f (ground arith) in
      let (d', ran, s', after) =
        flush_entries_lem dir (stored d pid p) keys (λ j g at. held j g (ground (arith, fresh, at)))
          (stored-Sized d pid p s (sized f p here)) in
      (
        d',
        flush_entries-cons b d pid f p dir here ∙ ran,
        s',
        λ j h. after j h ∙ elim (Bool-cases (pid == j)) [
          | inl same ↦ ground (arith, fresh, content-stored d pid j p small h, here)
          | inr other ↦ elim (Option-cases (find j dir)) [
            | inl gone ↦ ground (arith, content-stored d pid j p small h)
            | inr (g, at) ↦ ground (arith, content-stored d pid j p small h)
          ]
        ],
      )

-- The disk has the page as it is in memory, or the page is in use and was not marked as changed.
abbrev pub settled : BufferPool → ℕ → Bool
settled b j = elim (find j b.dir) [
  | none ↦ true
  | some f ↦ elim (get_elem? b.pages f) [ none ↦ true | some p ↦ p.dirty || p.pin_count == 0 ]
]

-- The frame of a page is the same, whatever the disk holds.
flushed-page_content :
    (b : BufferPool) (d : Disk) (j : ℕ)
    → IsValid b
    → j < max_id
    → content d j ≡ written b b.disk b.dir j
    → (page_content (with_disk b d) j ≡ page_content b j)
      × (content d j ≡ (if settled b j then page_content b j else content b.disk j))
flushed-page_content b d j v j-lt after = elim (Option-cases (find j b.dir)) [
  | inl gone ↦ (ground arith, ground arith)
  | inr (f, held) ↦
      let (small, (p, here, is)) = v.entries j f held in
      let w = v.frames f p here in
      (
        ground arith,
        elim (Bool-cases p.dirty) [
          | inl dirty ↦ ground arith
          | inr clean ↦ elim (Bool-cases (p.pin_count == 0)) [
            | inl idle ↦
                let same : p.buffer ≡ content b.disk p.pid =
                  w.clean (ground arith) clean (ground arith) in
                ground arith
            | inr pinned ↦ ground arith
          ]
        ],
      )
]

-- On a valid pool `flush_all_page` returns, the pool stays valid, and every page below 2 ^ 54 has
-- the contents that it had. The disk then has every such page as a client sees it, but for a page
-- in memory that is pinned and not dirty, which it has as before.
pub flush_all_page_lem :
    (b : BufferPool) (j : ℕ)
    → IsValid b
    → j < max_id
    → (b' : BufferPool) × (flush_all_page b ≡ some (tt, b'))
      × IsValid b'
      × (page_content b' j ≡ page_content b j)
      × (content b'.disk j ≡ (if settled b j then page_content b j else content b.disk j))
flush_all_page_lem b j v j-lt =
    let (d', ran, s, after) =
      flush_entries_lem b (λ f p at. (v.frames f p at).sized) b.dir b.disk v.keys v.entries
        v.blocks in
    let (same, on_disk) = flushed-page_content b d' j v j-lt (after j j-lt) in
    (
      with_disk b d',
      unfold flush_all_page in ran,
      record {
        lru = v.lru;
        distinct = v.distinct;
        apart = v.apart;
        unpinned = v.unpinned;
        unheld = v.unheld;
        keys = v.keys;
        entries = v.entries;
        frames = λ f p at.
            let w = v.frames f p at in
            record {
              sized = w.sized;
              home = w.home;
              clean = λ pin clean held.
                  ground (arith, w.clean pin clean held, after p.pid (v.entries p.pid f held).0);
            };
        blocks = s;
      },
      same,
      on_disk,
    )
