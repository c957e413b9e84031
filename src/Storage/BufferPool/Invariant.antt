-- ===== src/Storage/BufferPool/Invariant.antt =====
-- The invariant of the buffer pool, and the contents of pages that it stands for.
use tadis.Prelude.{
  ℕ, ◌<◌, ◌≡◌, Bool, true, false, ◌||◌, none, some, List, [], length, get_elem?, ◌⊎◌,
}
use tadis.Storage.Def.{Page, page_size, invalid_id}
use tadis.Storage.Disk.Content.{content, max_id, Sized}
use tadis.Storage.Replacer.Chain.{values}
use tadis.Storage.Replacer.Refine.{mem, IsConsistent}
use tadis.Storage.Replacer.Members.{Distinct}
use tadis.Storage.BufferPool.{BufferPool, find}
use tadis.Storage.BufferPool.Dir.{Keys}

abbrev pub evictable : BufferPool → List ℕ
evictable b = values b.replacer.lru_list

-- The frames that `victim` may give out.
abbrev pub idle : BufferPool → ℕ → Bool
idle b f = mem f b.free_list || mem f (evictable b)

pub record FrameIsValid (b : BufferPool) (f : ℕ) (p : Page) : Type 0 where
  pub sized : length p.buffer ≡ page_size
  pub home : ((p.pid ≡ invalid_id) × (p.dirty ≡ false)) ⊎ (find p.pid b.dir ≡ some f)
  -- A page that is neither pinned nor dirty is as on disk.
  pub clean :
      p.pin_count ≡ 0
      → p.dirty ≡ false
      → find p.pid b.dir ≡ some f
      → p.buffer ≡ content b.disk p.pid

-- A page of the table is a page number and a frame that holds it.
abbrev pub Held : BufferPool → ℕ → ℕ → Type 0
Held b id f = (id < max_id) × ((p : Page) × (get_elem? b.pages f ≡ some p) × (p.pid ≡ id))

pub record IsValid (b : BufferPool) : Type 0 where
  pub lru : IsConsistent b.replacer
  pub distinct : Distinct b.free_list
  pub apart : (f : ℕ) → mem f b.free_list ≡ true → mem f (evictable b) ≡ false
  pub unpinned :
      (f : ℕ) → idle b f ≡ true → (p : Page) × (get_elem? b.pages f ≡ some p) × (p.pin_count ≡ 0)
  pub unheld : (id f : ℕ) → find id b.dir ≡ some f → mem f b.free_list ≡ false
  pub keys : Keys b.dir
  pub entries : (id f : ℕ) → find id b.dir ≡ some f → Held b id f
  pub frames : (f : ℕ) (p : Page) → get_elem? b.pages f ≡ some p → FrameIsValid b f p
  pub blocks : Sized b.disk.blocks

-- What a client sees of page `id`: the frame's bytes if it is in memory, else those on disk.
abbrev pub page_content : BufferPool → ℕ → List ℕ
page_content b id = elim (find id b.dir) [
  | none ↦ content b.disk id
  | some f ↦ elim (get_elem? b.pages f) [ none ↦ [] | some p ↦ p.buffer ]
]
