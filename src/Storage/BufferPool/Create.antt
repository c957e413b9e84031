-- ===== src/Storage/BufferPool/Create.antt =====
-- src/storage/bufferpool/buffer_pool.hpp: what the constructor of `BufferPool` gives.
use mathlib.Core.Path.{subst}
use tadis.Prelude.{
  ℕ, zero, suc, ◌+◌, ◌*◌, ◌≤◌, ◌<◌, ◌≡◌, refl, sym, ap, ◌∙◌, Bool, true, false, ◌||◌, none, some,
  List, [], ◌∷◌, arith, ◌==◌, Bool-cases, inl, inr, ◌⊎◌, get_elem?, set, length,
}
use tadis.Prelude.Memory.{read_at}
use tadis.Common.Bitmap
use tadis.Storage.Def.{Page, page_size, sizeof_size}
use tadis.Storage.RecordPage.{read_size}
use tadis.Storage.Disk
use tadis.Storage.Disk.{Disk}
use tadis.Storage.Disk.Content.{content, max_id, Sized}
use tadis.Storage.Header
use tadis.Storage.Header.{HeaderPage, put_header, write2page}
use tadis.Storage.BufferPool.{BufferPool, M, ◌>>◌, when, modify, find, flush_page, fetch}
use tadis.Storage.BufferPool.Lifecycle.{raw_pool, init_header, init, create}
use tadis.Storage.BufferPool.Dir.{get_elem?-set}
use tadis.Storage.BufferPool.Invariant.{idle, IsValid, page_content}
use tadis.Storage.BufferPool.Fetch.{Result, fetch_lem}
use tadis.Storage.BufferPool.Unpin.{unpin_lem}
use tadis.Storage.BufferPool.Load.{content_of_held}
use tadis.Storage.BufferPool.Change.{
  length-put_header, changed-IsValid, content-changed, flush_page_lem, numbered-IsValid,
  content-numbered,
}
use tadis.Storage.BufferPool.Start.{raw_pool-IsValid}

-- The bitmap that the header of a page announces lies inside the page.
abbrev pub HeaderFits : List ℕ → Type 0
HeaderFits buffer =
    2 * sizeof_size + Header.bitmap_size_of (read_size buffer 0) (read_size buffer sizeof_size)
    ≤ page_size

-- A file of whole pages, with such a header page.
abbrev pub IsTableFile : List (List ℕ) → Type 0
IsTableFile blocks = Sized blocks × HeaderFits (content (Disk.open_disk blocks) 0)

-- `BFPHeaderPage::init` takes the page as it is, or writes it.
init-cases :
    (p : Page)
    → HeaderFits p.buffer
    → ((h : HeaderPage) × (Header.init p ≡ some (false, h, p)))
      ⊎ ((h : HeaderPage) × (Header.init p ≡ some (true, h, put_header h p)))
unfolding Header.init write2page Bitmap.set_bit Bitmap.put_bit Bitmap.test_bit
init-cases p fits = elim (Bool-cases (read_size p.buffer 0 == 0)) [
  | inl fresh ↦ inr (record { page_num = 1; phy_num = 1; bitmap = 1 ∷ [] }, rw fresh refl)
  | inr used ↦
      let inside : Header.bitmap_fits
            (Header.bitmap_size_of (read_size p.buffer 0) (read_size p.buffer 8))
          ≡ true =
        ground arith in
      inl (
        record {
          page_num = read_size p.buffer 0;
          phy_num = read_size p.buffer 8;
          bitmap =
              read_at p.buffer 16
                (Header.bitmap_size_of (read_size p.buffer 0) (read_size p.buffer 8));
        },
        rw (used, inside) refl,
      )
]

-- The end of `init`.
abbrev finish : Bool → M (Unit {0})
finish r = do
  when r (flush_page 0)
  modify (λ b. record b { disk = Disk.set_next_page_id b.disk b.head.phy_num })

finish_lem :
    (r : Bool) (b : BufferPool) (j : ℕ)
    → IsValid b
    → j < max_id
    → (b' : BufferPool) × (finish r b ≡ some (tt, b'))
      × IsValid b'
      × (page_content b' j ≡ page_content b j)
finish_lem false b j v j-lt = (
  record b { disk = Disk.set_next_page_id b.disk b.head.phy_num },
  refl,
  numbered-IsValid b b.head.phy_num v,
  content-numbered b b.head.phy_num j,
)
finish_lem true b j v j-lt =
    let (d, ran, v', same) = flush_page_lem b 0 j v j-lt in
    (
      record b { disk = Disk.set_next_page_id d b.head.phy_num },
      ground (arith, ran),
      numbered-IsValid (record b { disk = d }) b.head.phy_num v',
      content-numbered (record b { disk = d }) b.head.phy_num j ∙ same,
    )

-- After the page 0 was fetched.
module _ (b : BufferPool) (f : ℕ) (p : Page) (v : IsValid b) (held : find 0 b.dir ≡ some f)
    (here : get_elem? b.pages f ≡ some p) (pins : p.pin_count ≡ 1) (clean : p.dirty ≡ false)
    (home : p.pid ≡ 0) (as_stored : p.buffer ≡ content b.disk 0) (j : ℕ) (other : 0 < j)
    (j-lt : j < max_id) (fits : HeaderFits p.buffer) where
  kept : find p.pid b.dir ≡ some f
  kept = ap (λ i. find i b.dir) home ∙ held

  -- The page as `unpin` takes it.
  module _ (r : Bool) (h : HeaderPage) (q : Page) (ran : Header.init p ≡ some (r, h, q))
      (same_pid : q.pid ≡ p.pid) (same_pins : q.pin_count ≡ p.pin_count)
      (sized : length q.buffer ≡ page_size)
      (saved : q.dirty || r ≡ false → q.buffer ≡ content b.disk 0) where
    init_header-changed :
        (b' : BufferPool) × (init_header (some f) b ≡ some (tt, b'))
        × IsValid b'
        × (page_content b' j ≡ page_content b j)
    unfolding init_header
    init_header-changed =
        let v1 = changed-IsValid b f p q h v here kept (omega arith) same_pid same_pins sized in
        let at = get_elem?-set b.pages f f q here in
        let at' : get_elem? (set b.pages f q) f ≡ some q = ground arith in
        let (b2, ran2, v2, same, pages, is_idle) =
          unpin_lem (record b { pages = set b.pages f q; head = h }) 0 f q r j v1 held at'
            (omega arith) (omega arith) saved in
        let kept_j =
          content-changed b f p q h v here kept (omega arith) same_pid same_pins sized j
            (λ e. absurd (omega (arith, e, home, other))) in
        let (b3, ran3, v3, same3) = finish_lem r b2 j v2 j-lt in
        (b3, ground (arith, ran2, ran3), v3, same3 ∙ same ∙ kept_j)

  init_header_lem :
      (b' : BufferPool) × (init_header (some f) b ≡ some (tt, b'))
      × IsValid b'
      × (page_content b' j ≡ page_content b j)
  unfolding put_header
  init_header_lem =
      let sized = (v.frames f p here).sized in
      elim (init-cases p fits) [
        | inl (h, ran) ↦ init_header-changed false h p ran refl refl sized (λ d. as_stored)
        | inr (h, ran) ↦
            init_header-changed true h (put_header h p) ran refl refl
              (length-put_header h p ∙ sized) (λ d. absurd (ground arith))
      ]

raw_pool-empty : (blocks : List (List ℕ)) (n j : ℕ) → find j (raw_pool blocks n).dir ≡ none
unfolding raw_pool find
raw_pool-empty blocks n j = refl

raw_pool-content :
    (blocks : List (List ℕ)) (n j : ℕ)
    → page_content (raw_pool blocks n) j ≡ content (Disk.open_disk blocks) j
unfolding raw_pool find
raw_pool-content blocks n j = refl

raw_pool-idle : (blocks : List (List ℕ)) (n : ℕ) → 0 < n → idle (raw_pool blocks n) 0 ≡ true
unfolding raw_pool
raw_pool-idle blocks zero h = absurd (omega arith)
raw_pool-idle blocks (suc n) h = ground arith

-- With at least one frame, and a file of whole pages in which the bitmap that the header page
-- announces lies inside that page, the constructor returns, the pool is valid, and each page but the
-- header page, with a number below 2 ^ 54, has the contents of the file.
pub create_lem :
    (blocks : List (List ℕ)) (bfp_size j : ℕ)
    → 0 < bfp_size
    → IsTableFile blocks
    → 0 < j
    → j < max_id
    → (b : BufferPool) × (create blocks bfp_size ≡ some b)
      × IsValid b
      × (page_content b j ≡ content (Disk.open_disk blocks) j)
unfolding create init
create_lem blocks n j pos (s, fits) other j-lt = created (
    fetch_lem raw 0 j v (omega arith) j-lt
      (λ f p held here. absurd (ground (arith, raw_pool-empty blocks n 0))))
  where
    raw : BufferPool
    raw = raw_pool blocks n

    v : IsValid raw
    v = raw_pool-IsValid blocks n pos s

    header_read :
        (f : ℕ) (b1 : BufferPool) (p : Page)
        → fetch 0 raw ≡ some (some f, b1)
        → find 0 b1.dir ≡ some f
        → get_elem? b1.pages f ≡ some p
        → p.buffer ≡ content (Disk.open_disk blocks) 0
    header_read f b1 p ran held here =
        let (o, b1', ran', v1, same, same_head, rest) =
          fetch_lem raw 0 0 v (omega arith) (omega arith)
            (λ f p held here. absurd (ground (arith, raw_pool-empty blocks n 0))) in
        let one : b1' ≡ b1 = ground arith in
        sym (content_of_held b1 0 f p held here)
        ∙ ap (λ b. page_content b 0) (sym one)
        ∙ same
        ∙ raw_pool-content blocks n 0

    created :
        Result raw 0 j
        → (b : BufferPool) × (create blocks n ≡ some b)
          × IsValid b
          × (page_content b j ≡ content (Disk.open_disk blocks) j)
    created (none, b1, ran, v1, same, same_head, (gone, no_idle)) =
        absurd (ground (arith, no_idle 0, raw_pool-idle blocks n pos))
    created (some f, b1, ran, v1, same, same_head, (held, how, (p, home, pins, few, pages, read))) =
        let (one, clean, as_stored) = read (raw_pool-empty blocks n 0) in
        let here : get_elem? b1.pages f ≡ some p = ground (arith, pages f) in
        let (b2, ran2, v2, kept_j) =
          init_header_lem b1 f p v1 held here one clean home as_stored j other j-lt
            (subst HeaderFits (sym (header_read f b1 p ran held here)) fits) in
        (b2, ground (arith, ran, ran2), v2, kept_j ∙ same ∙ raw_pool-content blocks n j)
