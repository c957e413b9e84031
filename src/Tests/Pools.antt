-- ===== src/Tests/Pools.antt =====
-- Runs of src/storage/bufferpool/disk_manager.hpp and buffer_pool.hpp, on a new file and a pool of
-- one frame.
use mathlib.Core.Path.{subst}
use tadis.Prelude.{
  ℕ, take, length, zero, suc, ◌≡◌, refl, none, some, List, [], ◌∷◌, true, false, replicate,
  get_elem?, arith, ◌==◌, if◌then◌else◌, inr,
}
use tadis.Storage.Def.{Page, page_size, sub_size}
use tadis.Storage.Disk
use tadis.Storage.Disk.{Disk, open_disk, write_page, zero_block}
use tadis.Storage.Disk.Content.{content, content-write_page}
use tadis.Storage.Header
use tadis.Storage.Header.{HeaderPage, write2page, bitmap_size_of}
use tadis.Storage.RecordPage.{read_size}
use tadis.Storage.Header.Reopen.{init-write2page}
use tadis.Storage.Replacer
use tadis.Storage.Replacer.Chain
use tadis.Storage.BufferPool.{BufferPool, find, unpin}
use tadis.Storage.BufferPool.Invariant.{IsValid, FrameIsValid, idle, page_content}
use tadis.Storage.BufferPool.Fetch.{Result, fetch_lem}
use tadis.Storage.BufferPool.Unpin.{unpin_lem}
use tadis.Storage.BufferPool.Lifecycle.{raw_pool, create, close, flush_all_page}
use tadis.Storage.BufferPool.Flush.{settled, flush_all_page_lem}
use tadis.Storage.BufferPool.Start.{raw_pool-IsValid}
use tadis.Storage.BufferPool.Create.{IsTableFile, create_lem}
use tadis.Storage.BufferPool.Durable.{HeaderIsSound, Closable, create-close}

abbrev new_file : Disk
new_file = open_disk []

abbrev ones : List ℕ
ones = replicate page_size 1

content-write_page_example :
    content (write_page new_file 2 ones) 1 ≡ (if 2 == 1 then ones else content new_file 1)
content-write_page_example = content-write_page new_file 2 1 ones (omega arith) (omega arith)

two_blocks-IsTableFile : IsTableFile (zero_block ∷ ones ∷ [])
unfolding content Disk.read_page open_disk read_size bitmap_size_of
two_blocks-IsTableFile = ((refl, (refl, tt)), omega arith)

create_lem_example :
    (b : BufferPool) × (create (zero_block ∷ ones ∷ []) 1 ≡ some b)
    × IsValid b
    × (page_content b 1 ≡ content (open_disk (zero_block ∷ ones ∷ [])) 1)
create_lem_example =
    create_lem (zero_block ∷ ones ∷ []) 1 1 (omega arith) two_blocks-IsTableFile (omega arith)
      (omega arith)

abbrev pub new_pool : BufferPool
new_pool = raw_pool [] 1

new_pool-IsValid : IsValid new_pool
new_pool-IsValid = raw_pool-IsValid [] 1 (omega arith) tt

missing : find 3 new_pool.dir ≡ none
unfolding raw_pool find
missing = refl

fetch_lem_example : Result new_pool 3 5
fetch_lem_example =
    fetch_lem new_pool 3 5 new_pool-IsValid (omega arith) (omega arith)
      (λ f p held here. absurd (ground (arith, missing)))

-- The pool whose one frame holds page 3, pinned once.
abbrev zero_page : Page
zero_page = record { buffer = zero_block; pid = 3; pin_count = 1; dirty = false }

abbrev held_pool : Page → BufferPool
held_pool p = record (raw_pool [] 1) { dir = (3, 0) ∷ []; free_list = []; pages = p ∷ [] }

held_pool-IsValid :
    (p : Page) → p.pid ≡ 3 → length p.buffer ≡ page_size → p.pin_count ≡ 1 → IsValid (held_pool p)
unfolding raw_pool find Replacer.init Disk.open_disk Chain.find
held_pool-IsValid p is_3 sized pin = record {
  lru = record { chain = tt; dir = λ t. refl; bounded = omega arith; positive = omega arith };
  distinct = tt;
  apart = λ f h. absurd (ground arith);
  unpinned = λ f h. absurd (ground arith);
  unheld = λ id f h. refl;
  keys = (refl, tt);
  entries = λ id f h. (ground arith, (p, ground arith, ground arith));
  frames = λ f q h. frame f q h;
  blocks = tt;
}
  where
    frame : (f : ℕ) (q : Page) → get_elem? (p ∷ []) f ≡ some q → FrameIsValid (held_pool p) f q
    frame zero q h =
        let is : p ≡ q = ground arith in
        subst (FrameIsValid (held_pool p) 0) is (record {
          sized = sized;
          home = inr (ground arith);
          clean = λ idle d e. absurd (omega arith);
        })
    frame (suc f) q h = absurd (ground arith)

abbrev pinned_pool : BufferPool
pinned_pool = held_pool zero_page

pinned_pool-IsValid : IsValid pinned_pool
pinned_pool-IsValid = held_pool-IsValid zero_page refl refl refl

-- The page was changed.
abbrev changed_pool : BufferPool
changed_pool = held_pool (record zero_page { buffer = ones; dirty = true })

flush_all_page_lem_example :
    (b' : BufferPool) × (flush_all_page changed_pool ≡ some (tt, b'))
    × IsValid b'
    × (page_content b' 3 ≡ page_content changed_pool 3)
    × (content b'.disk 3 ≡ (
        if settled changed_pool 3
        then page_content changed_pool 3
        else content changed_pool.disk 3))
flush_all_page_lem_example =
    flush_all_page_lem changed_pool 3
      (held_pool-IsValid (record zero_page { buffer = ones; dirty = true }) refl refl refl)
      (omega arith)

holds_3 : find 3 pinned_pool.dir ≡ some 0
unfolding find
holds_3 = refl

unpin_lem_example :
    (b' : BufferPool) × (unpin 3 true pinned_pool ≡ some (tt, b'))
    × IsValid b'
    × (page_content b' 5 ≡ page_content pinned_pool 5)
    × ((g : ℕ)
        → get_elem? b'.pages g ≡ (
            if g == 0
            then some (record zero_page { dirty = true; pin_count = sub_size 1 1 })
            else get_elem? pinned_pool.pages g))
    × (idle b' 0 ≡ (1 == 1))
unpin_lem_example =
    unpin_lem pinned_pool 3 0 zero_page true 5 pinned_pool-IsValid holds_3 refl (omega arith)
      (omega arith) (λ clean. absurd (ground arith))

-- Sixteen pages, seven of which are deleted.
abbrev sparse : HeaderPage
sparse = record { page_num = 8; phy_num = 16; bitmap = 1 ∷ 254 ∷ [] }

init-write2page_example :
    (page : Page) × (write2page sparse zero_page ≡ some page)
    × (Header.init page
        ≡ some (false, record sparse { bitmap = take (bitmap_size_of 8 16) (1 ∷ 254 ∷ []) }, page))
init-write2page_example =
    init-write2page sparse zero_page refl (omega arith) (omega arith) (omega arith) (omega arith)
      (unfold bitmap_size_of in omega arith)

-- The header page is read into the idle frame, and page 1 is on disk.
new_pool-open : new_pool.closed ≡ false
unfolding raw_pool
new_pool-open = refl

new_pool-idle : idle new_pool 0 ≡ true
unfolding raw_pool
new_pool-idle = refl

new_pool-missing : find 0 new_pool.dir ≡ none
unfolding raw_pool find
new_pool-missing = refl

pub new_pool-settled : settled new_pool 1 ≡ true
unfolding raw_pool find
new_pool-settled = refl

new_pool-header : HeaderIsSound new_pool.head
unfolding raw_pool bitmap_size_of
new_pool-header = record {
  used = omega arith;
  page_num-lt = omega arith;
  phy_num-lt = omega arith;
  room = omega arith;
  announced = omega arith;
}

pub new_pool-Closable : Closable new_pool
new_pool-Closable = record {
  valid = new_pool-IsValid;
  is_open = new_pool-open;
  header = new_pool-header;
  held_or_idle = (0, inr new_pool-idle);
  few = λ f p held here. absurd (ground (arith, new_pool-missing));
}

create-close_example :
    (b' : BufferPool) × (close new_pool ≡ some (tt, b'))
    × ((b'' : BufferPool) × (create b'.disk.blocks 2 ≡ some b'')
        × IsValid b''
        × (page_content b'' 1 ≡ page_content new_pool 1))
create-close_example =
    create-close new_pool 1 2 new_pool-Closable (omega arith) (omega arith) new_pool-settled
      (omega arith)
