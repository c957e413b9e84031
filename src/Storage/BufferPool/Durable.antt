-- ===== src/Storage/BufferPool/Durable.antt =====
-- src/storage/bufferpool/buffer_pool.hpp: a pool that is closed, and another on the same file.
use native.Mathlib.Decide.{ℕ_discrete}
use mathlib.Core.Path.{subst}
use tadis.Prelude.{
  ℕ, ◌+◌, ◌*◌, ◌≤◌, length, sym, ◌<◌, ◌≡◌, refl, ap, ◌∙◌, true, false, none, some, arith, ◌==◌,
  ◌||◌, if◌then◌else◌, inl, inr, ◌⊎◌, get_elem?, set, Option-cases,
}
use tadis.Storage.Def.{Page, size_mod, sub_size, sizeof_size, page_size}
use tadis.Storage.Disk
use tadis.Storage.Disk.{Disk}
use tadis.Storage.Disk.Content.{content, max_id}
use tadis.Storage.Header.{HeaderPage, put_header, write2page}
use tadis.Storage.Header
use tadis.Storage.Header.Reopen.{put_header_lem}
use tadis.Storage.RecordPage.{read_size}
use tadis.Storage.BufferPool.Load.{content_of_held}
use tadis.Storage.BufferPool.{BufferPool, find}
use tadis.Storage.BufferPool.Dir.{get_elem?-set}
use tadis.Storage.BufferPool.Lifecycle.{create, close, save_header, flush_all_page}
use tadis.Storage.BufferPool.Invariant.{idle, IsValid, page_content}
use tadis.Storage.BufferPool.Fetch.{Result, fetch_lem}
use tadis.Storage.BufferPool.Unpin.{unpin_lem}
use tadis.Storage.BufferPool.Flush.{settled, flush_all_page_lem}
use tadis.Storage.BufferPool.Change.{length-put_header, changed-IsValid, content-changed}
use tadis.Storage.BufferPool.Create.{HeaderFits, IsTableFile, create_lem}

pub content-reopened : (d : Disk) (j : ℕ) → content (Disk.open_disk d.blocks) j ≡ content d j
unfolding content Disk.read_page Disk.open_disk
content-reopened d j = refl

-- A page other than the header page is as settled as before, if only the frame of the header page
-- has changed.
settled-carried :
    (b b' : BufferPool) (j f : ℕ) (q : Page)
    → IsValid b
    → IsValid b'
    → 0 < j
    → j < max_id
    → q.pid ≡ 0
    → ((g : ℕ) → get_elem? b'.pages g ≡ (if g == f then some q else get_elem? b.pages g))
    → settled b j ≡ true
    → settled b' j ≡ true
settled-carried b b' j f q v v' other j-lt home pages s = elim (Option-cases (find j b'.dir)) [
  | inl gone ↦ ground arith
  | inr (g, e) ↦
      let (small, (w, at, is)) = v'.entries j g e in
      elim (ℕ_discrete g f) [
        | yes same ↦
            let one : q ≡ w = ground (arith, pages g) in
            absurd (omega (arith, ap (λ r. r.pid) one, is, home, other))
        | no ne ↦
            let at0 : get_elem? b.pages g ≡ some w = ground (arith, pages g) in
            elim (v.frames g w at0).home [
              | inl (invalid, clean) ↦ absurd (omega arith)
              | inr held ↦ let held_j : find j b.dir ≡ some g = rw is at held in ground arith
            ]
      ]
]

-- A frame with the header page is the one that the table has for it.
header_held :
    (b : BufferPool) (f : ℕ) (q : Page)
    → IsValid b
    → get_elem? b.pages f ≡ some q
    → q.pid ≡ 0
    → find 0 b.dir ≡ some f
header_held b f q v at home = elim (v.frames f q at).home [
  | inl (invalid, clean) ↦ absurd (omega arith)
  | inr held ↦ rw home at held
]

-- The end of `close`, after the page 0 was fetched.
module _ (b b1 : BufferPool) (f j : ℕ) (p : Page) (v : IsValid b) (v1 : IsValid b1)
    (held : find 0 b1.dir ≡ some f) (home : p.pid ≡ 0) (pins : 0 < p.pin_count)
    (few : p.pin_count < size_mod)
    (pages : (g : ℕ) → get_elem? b1.pages g ≡ (if g == f then some p else get_elem? b.pages g))
    (other : 0 < j) (j-lt : j < max_id)
    (room : 2 * sizeof_size + length b1.head.bitmap ≤ page_size) where
  save_header_lem :
      (b' : BufferPool) × (save_header (some f) b1 ≡ some (true, b'))
      × IsValid b'
      × (page_content b' j ≡ page_content b1 j)
      × (settled b j ≡ true → settled b' j ≡ true)
      × (settled b' 0 ≡ true)
      × (page_content b' 0 ≡ (put_header b1.head p).buffer)
  unfolding save_header write2page
  save_header_lem =
      let q = put_header b1.head p in
      let here : get_elem? b1.pages f ≡ some p = ground (arith, pages f) in
      let kept : find p.pid b1.dir ≡ some f = ap (λ i. find i b1.dir) home ∙ held in
      let same_pid : q.pid ≡ p.pid = unfold put_header in refl in
      let same_pins : q.pin_count ≡ p.pin_count = unfold put_header in refl in
      let sized = length-put_header b1.head p ∙ (v1.frames f p here).sized in
      let v2 = changed-IsValid b1 f p q b1.head v1 here kept pins same_pid same_pins sized in
      let set_at = get_elem?-set b1.pages f f q here in
      let at : get_elem? (set b1.pages f q) f ≡ some q = ground arith in
      let inside : Header.bitmap_fits (length b1.head.bitmap) ≡ true = ground arith in
      let kept_j =
        content-changed b1 f p q b1.head v1 here kept pins same_pid same_pins sized j
          (λ e. absurd (omega (arith, e, home, other))) in
      let released : Page = record q {
        dirty = q.dirty || true;
        pin_count = sub_size q.pin_count 1;
      } in
      let (b3, ran, v3, same, after, is_idle) =
        unpin_lem (record b1 { pages = set b1.pages f q }) p.pid f q true j v2 kept at (omega arith)
          (omega arith) (λ d. absurd (ground arith)) in
      let at_f : get_elem? b3.pages f ≡ some released = ground (arith, after f) in
      let held_0 : find 0 b3.dir ≡ some f = header_held b3 f released v3 at_f (same_pid ∙ home) in
      (
        b3,
        ground (arith, ran, inside),
        v3,
        same ∙ kept_j,
        settled-carried b b3 j f released v v3 other j-lt (same_pid ∙ home)
            (λ g. after g ∙ ground (arith, get_elem?-set b1.pages f g q here, pages g)),
        ground (arith, held_0, at_f),
        content_of_held b3 0 f released held_0 at_f,
      )

-- The header counts its own page, its bitmap can be written to the header page, and so can the
-- bitmap that is read back from there.
pub record HeaderIsSound (h : HeaderPage) : Type 0 where
  pub used : 0 < h.page_num
  pub page_num-lt : h.page_num < size_mod
  pub phy_num-lt : h.phy_num < size_mod
  pub room : 2 * sizeof_size + length h.bitmap ≤ page_size
  pub announced : 2 * sizeof_size + Header.bitmap_size_of h.page_num h.phy_num ≤ page_size

-- The pool is valid and not closed, its header is sound, it has its header page in memory or an
-- idle frame to read it, and the pins of that page do not wrap.
pub record Closable (b : BufferPool) : Type 0 where
  pub valid : IsValid b
  pub is_open : b.closed ≡ false
  pub header : HeaderIsSound b.head
  pub held_or_idle : (g : ℕ) × ((find 0 b.dir ≡ some g) ⊎ (idle b g ≡ true))
  pub few :
      (f : ℕ) (p : Page)
      → find 0 b.dir ≡ some f
      → get_elem? b.pages f ≡ some p
      → p.pin_count + 1 < size_mod

-- What `close` leaves in the file.
abbrev pub Closed : BufferPool → ℕ → Type 0
Closed b j =
    (b' : BufferPool) × (close b ≡ some (tt, b'))
    × IsTableFile b'.disk.blocks
    × (settled b j ≡ true → content b'.disk j ≡ page_content b j)

-- The header that is written fits when it is read.
HeaderFits-put_header :
    (h : HeaderPage) (p : Page)
    → HeaderIsSound h
    → length p.buffer ≡ page_size
    → HeaderFits (put_header h p).buffer
HeaderFits-put_header h p s sized =
    let (first, second) = put_header_lem h p sized s.room s.used s.page_num-lt s.phy_num-lt in
    subst
      (λ n.
        2 * sizeof_size + Header.bitmap_size_of n (read_size (put_header h p).buffer 8) ≤ page_size)
      (sym first)
      (subst (λ n. 2 * sizeof_size + Header.bitmap_size_of h.page_num n ≤ page_size) (sym second)
        s.announced)

-- Where the header page is settled, the flush writes it.
header_flushed :
    (b b' : BufferPool)
    → IsValid b
    → settled b 0 ≡ true
    → flush_all_page b ≡ some (tt, b')
    → content b'.disk 0 ≡ page_content b 0
header_flushed b b' v s ran =
    let (b1, ran', v1, same, stored) = flush_all_page_lem b 0 v (omega arith) in
    let one : b1 ≡ b' = ground arith in
    ap (λ c. content c.disk 0) (sym one) ∙ stored ∙ ground (arith, s)

pub close_lem : (b : BufferPool) (j : ℕ) → Closable b → 0 < j → j < max_id → Closed b j
unfolding close Disk.close content Disk.read_page
close_lem b j c other j-lt = closed (fetch_lem b 0 j c.valid (omega arith) j-lt c.few)
  where
    closed : Result b 0 j → Closed b j
    closed (none, b1, ran, v1, same, same_head, (gone, no_idle)) = elim c.held_or_idle.1 [
      | inl held ↦ absurd (ground arith)
      | inr is_idle ↦ absurd (ground (arith, no_idle c.held_or_idle.0))
    ]
    closed
          (some f, b1, ran, v1, same, same_head, (held, how, (p, home, pins, bound, pages, read))) =
        let opened = c.is_open in
        let sound : HeaderIsSound b1.head = subst HeaderIsSound (sym same_head) c.header in
        let here : get_elem? b1.pages f ≡ some p = ground (arith, pages f) in
        let (b2, ran2, v2, same2, s2, s0, header) =
          save_header_lem b b1 f j p c.valid v1 held home pins bound pages other j-lt sound.room in
        let (b3, ran3, v3, same3, stored) = flush_all_page_lem b2 j v2 j-lt in
        let written = content-reopened b3.disk 0 ∙ header_flushed b2 b3 v2 s0 ran3 ∙ header in
        (
          record b3 { disk = Disk.close b3.disk; closed = true },
          ground (arith, ran, ran2, ran3),
          (
            v3.blocks,
            subst HeaderFits (sym written)
                (HeaderFits-put_header b1.head p sound (v1.frames f p here).sized),
          ),
          λ s. stored ∙ ground (arith, s2 s) ∙ same2 ∙ same,
        )

-- `close` returns on a pool that is valid and not closed, whose header has at most 1008 bytes of
-- bitmap and numbers of pages below 2 ^ 64 that stand for no more, the first of them positive, that
-- has its header page in memory or an idle frame to read it, and in which the pins of that page do
-- not wrap. Another pool, of at least one frame, on the file that is left is valid, and it has every
-- page with the contents of the first one, but for the header page, the numbers from 2 ^ 54 on, and
-- the pages that were pinned and not dirty.
pub create-close :
    (b : BufferPool) (j n : ℕ)
    → Closable b
    → 0 < j
    → j < max_id
    → settled b j ≡ true
    → 0 < n
    → (b' : BufferPool) × (close b ≡ some (tt, b'))
      × ((b'' : BufferPool) × (create b'.disk.blocks n ≡ some b'')
          × IsValid b''
          × (page_content b'' j ≡ page_content b j))
create-close b j n c other j-lt s pos =
    let (b', ran, sized, stored) = close_lem b j c other j-lt in
    let (b'', ran', v, same) = create_lem b'.disk.blocks n j pos sized other j-lt in
    (b', ran, (b'', ran', v, same ∙ content-reopened b'.disk j ∙ stored s))
