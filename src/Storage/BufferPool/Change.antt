-- ===== src/Storage/BufferPool/Change.antt =====
-- src/storage/bufferpool/buffer_pool.hpp: the steps that write the header page.
use native.Mathlib.Decide.{ℕ_discrete}
use tadis.Prelude.{
  ℕ, ◌<◌, ◌≡◌, ◌≢◌, refl, sym, ap, ◌∙◌, false, some, arith, ◌==◌, Bool-cases, inl, inr, get_elem?,
  set, length, Option-cases,
}
use tadis.Prelude.Memory.{length-write_at, to_bytes}
use tadis.Storage.Def.{Page, page_size, set_dirty}
use tadis.Storage.RecordPage.{write_size}
use tadis.Storage.Disk
use tadis.Storage.Disk.{Disk}
use tadis.Storage.Disk.Content.{content, max_id, content-write_page, write_page-Sized}
use tadis.Storage.Header.{HeaderPage, put_header}
use tadis.Storage.BufferPool.{BufferPool, find, flush_page}
use tadis.Storage.BufferPool.Dir.{get_elem?-set}
use tadis.Storage.BufferPool.Invariant.{idle, FrameIsValid, IsValid, page_content}
use tadis.Storage.BufferPool.Load.{content_of_held, content_of_missing}
use tadis.Storage.BufferPool.Unpin.{flagged, pages_flagged, entries_flagged, frames_flagged}

pub length-put_header :
    (h : HeaderPage) (p : Page) → length (put_header h p).buffer ≡ length p.buffer
unfolding put_header write_size set_dirty
length-put_header h p =
    length-write_at (write_size (write_size p.buffer 0 h.page_num) 8 h.phy_num) 16 h.bitmap
    ∙ length-write_at (write_size p.buffer 0 h.page_num) 8 (to_bytes 8 h.phy_num)
    ∙ length-write_at p.buffer 0 (to_bytes 8 h.page_num)

-- A pinned page changes, and the header.
module _ (b : BufferPool) (f : ℕ) (p q : Page) (h : HeaderPage) (v : IsValid b)
    (here : get_elem? b.pages f ≡ some p) (held : find p.pid b.dir ≡ some f)
    (pins : 0 < p.pin_count) (same_pid : q.pid ≡ p.pid) (same_pins : q.pin_count ≡ p.pin_count)
    (sized : length q.buffer ≡ page_size) where
  abbrev changed : BufferPool
  changed = record b { pages = set b.pages f q; head = h }

  busy : idle b f ≡ false
  busy = elim (Bool-cases (idle b f)) [
    | inr not_idle ↦ not_idle
    | inl is_idle ↦ let (w, at, no_pin) = v.unpinned f is_idle in absurd (ground arith)
  ]

  own : FrameIsValid (flagged b f p q b.replacer v here same_pid) f q
  own = record {
    sized = sized;
    home = inr (ap (λ i. find i b.dir) same_pid ∙ held);
    clean = λ pin d e. absurd (omega arith);
  }

  pub changed-IsValid : IsValid changed
  changed-IsValid = record {
    lru = v.lru;
    distinct = v.distinct;
    apart = v.apart;
    unpinned = λ g i.
        let (w, at, no_pin) = v.unpinned g i in
        (w, ground (arith, pages_flagged b f p q b.replacer v here same_pid g, busy), no_pin);
    unheld = v.unheld;
    keys = v.keys;
    entries = entries_flagged b f p q b.replacer v here same_pid;
    frames = λ g w at.
        let x = frames_flagged b f p q b.replacer v here same_pid own g w at in
        record { sized = x.sized; home = x.home; clean = x.clean };
    blocks = v.blocks;
  }

  -- Another page keeps its contents.
  pub content-changed : (j : ℕ) → j ≢ p.pid → page_content changed j ≡ page_content b j
  content-changed j ne = elim (Option-cases (find j b.dir)) [
    | inl gone ↦ content_of_missing changed j gone ∙ sym (content_of_missing b j gone)
    | inr (g, e) ↦
        let (small, (w, at, is)) = v.entries j g e in
        let other : g ≢ f =
          λ same. let one : p ≡ w = ground arith in ne (sym is ∙ ap (λ r. r.pid) (sym one)) in
        content_of_held changed j g w e (ground (arith, get_elem?-set b.pages f g q here))
        ∙ sym (content_of_held b j g w e at)
  ]

-- `flush_page` of a page that a frame holds.
flush_page-held :
    (b : BufferPool) (id f : ℕ) (p : Page)
    → IsValid b
    → find id b.dir ≡ some f
    → get_elem? b.pages f ≡ some p
    → IsValid (record b { disk = Disk.write_page b.disk id p.buffer })
flush_page-held b id f p v held here = record {
  lru = v.lru;
  distinct = v.distinct;
  apart = v.apart;
  unpinned = v.unpinned;
  unheld = v.unheld;
  keys = v.keys;
  entries = v.entries;
  frames = λ g q at.
      let w = v.frames g q at in
      record { sized = w.sized; home = w.home; clean = clean_after g q at };
  blocks = write_page-Sized b.disk id p.buffer v.blocks (v.frames f p here).sized;
}
  where
    clean_after :
        (g : ℕ) (q : Page)
        → get_elem? b.pages g ≡ some q
        → q.pin_count ≡ 0
        → q.dirty ≡ false
        → find q.pid b.dir ≡ some g
        → q.buffer ≡ content (Disk.write_page b.disk id p.buffer) q.pid
    clean_after g q at pin d e =
        let c =
          content-write_page b.disk id q.pid p.buffer (v.entries id f held).0
            (v.entries q.pid g e).0 in
        elim (ℕ_discrete id q.pid) [
          | yes same ↦
              let one : find id b.dir ≡ some g = rw same e in
              let two : p ≡ q = ground arith in ap (λ r. r.buffer) (sym two) ∙ ground (arith, c)
          | no other ↦ (v.frames g q at).clean pin d e ∙ ground (arith, c)
        ]

flush_page-content :
    (b : BufferPool) (id f : ℕ) (p : Page) (j : ℕ)
    → IsValid b
    → find id b.dir ≡ some f
    → j < max_id
    → page_content (record b { disk = Disk.write_page b.disk id p.buffer }) j ≡ page_content b j
flush_page-content b id f p j v held j-lt = elim (Option-cases (find j b.dir)) [
  | inl gone ↦
      let c = content-write_page b.disk id j p.buffer (v.entries id f held).0 j-lt in
      let ne : (id == j) ≡ false = elim (Bool-cases (id == j)) [
        | inl e ↦ absurd (ground arith)
        | inr e ↦ e
      ] in
      content_of_missing (record b { disk = Disk.write_page b.disk id p.buffer }) j gone
      ∙ c
      ∙ ground arith
      ∙ sym (content_of_missing b j gone)
  | inr (g, e) ↦
      let (small, (w, at, is)) = v.entries j g e in
      content_of_held (record b { disk = Disk.write_page b.disk id p.buffer }) j g w e at
      ∙ sym (content_of_held b j g w e at)
]

-- `flush_page` keeps the pool valid and the contents of each page.
pub flush_page_lem :
    (b : BufferPool) (id j : ℕ)
    → IsValid b
    → j < max_id
    → (d : Disk) × (flush_page id b ≡ some (tt, record b { disk = d }))
      × IsValid (record b { disk = d })
      × (page_content (record b { disk = d }) j ≡ page_content b j)
unfolding flush_page
flush_page_lem b id j v j-lt = elim (Option-cases (find id b.dir)) [
  | inl gone ↦ (b.disk, ground arith, v, refl)
  | inr (f, held) ↦
      let (small, (p, here, is)) = v.entries id f held in
      (
        Disk.write_page b.disk id p.buffer,
        ground arith,
        flush_page-held b id f p v held here,
        flush_page-content b id f p j v held j-lt,
      )
]

-- `set_next_page_id` leaves the blocks.
pub numbered-IsValid :
    (b : BufferPool) (n : ℕ)
    → IsValid b
    → IsValid (record b { disk = Disk.set_next_page_id b.disk n })
unfolding content Disk.read_page Disk.set_next_page_id
numbered-IsValid b n v = record {
  lru = v.lru;
  distinct = v.distinct;
  apart = v.apart;
  unpinned = v.unpinned;
  unheld = v.unheld;
  keys = v.keys;
  entries = v.entries;
  frames = λ g q at.
      let w = v.frames g q at in record { sized = w.sized; home = w.home; clean = w.clean };
  blocks = v.blocks;
}

pub content-numbered :
    (b : BufferPool) (n j : ℕ)
    → page_content (record b { disk = Disk.set_next_page_id b.disk n }) j ≡ page_content b j
unfolding content Disk.read_page Disk.set_next_page_id
content-numbered b n j = refl
