-- ===== src/Tests/Scanners.antt =====
-- Runs of `RecordScanner` of src/storage/bufferpool/record.hpp, on a pool whose one frame holds a page.
use tadis.Prelude.{
  ℕ, ◌≡◌, refl, none, some, false, true, ◌||◌, List, [], ◌∷◌, get_elem?, arith, replicate, drop,
}
use tadis.Common.Rc.{success}
use tadis.Common.Bitmap
use tadis.Common.TextMap.{eq_text, lookup}
use tadis.Storage.Def.{Page, page_size, sub_size}
use tadis.Storage.Replacer.Refine.{IsConsistent}
use tadis.Storage.RecordPage
use tadis.Storage.RecordPage.{RecordPage, init, insert, read_size, read_idx}
use tadis.Storage.RecordPage.Layout.{IsValid}
use tadis.Storage.RecordPage.Slots.{contents, insert_refines}
use tadis.Storage.RecordPage.Scan.{live}
use tadis.Storage.RecordPage.Reopen.{empty-IsValid}
use tadis.Storage.BufferPool.{BufferPool, ◌>>=◌, find}
use tadis.Storage.BufferPool.Lifecycle.{raw_pool}
use tadis.Storage.BufferPool.Start.{raw_pool-IsValid}
use tadis.Storage.Scanner.{RecordScanner, next, has_next, destroy}
use tadis.Storage.Scanner.Page.{next-live, record_at}
use tadis.Storage.Scanner.Pins.{destroy-has_next}
use tadis.Query.Execution.{Running, scan_next}
use tadis.Query.Execution.Rows.{Yields}
use tadis.Query.Execution.Scan.{OnLast, stored, scan_next-Yields}

abbrev pub five : List ℕ
five = 5 ∷ 0 ∷ 0 ∷ 0 ∷ []

abbrev empty_page : RecordPage
empty_page = record { free_addr_start = 0; free_addr_end = 1024; rec_idx_count = 0; rec_idx = [] }

abbrev empty_bytes : List ℕ
empty_bytes = (init (replicate page_size 0)).1

empty_page-IsValid : IsValid empty_page empty_bytes
unfolding init read_size read_idx
empty_page-IsValid = empty-IsValid

abbrev pub one_row : RecordPage
one_row = (insert empty_page empty_bytes 1 five).1

abbrev pub one_row_bytes : List ℕ
one_row_bytes = (insert empty_page empty_bytes 1 five).2

abbrev pub one_row_page : Page
one_row_page = record { buffer = one_row_bytes; pid = 1; pin_count = 1; dirty = false }

abbrev pub pool : BufferPool
pool = record (raw_pool [] 1) { dir = (1, 0) ∷ []; free_list = []; pages = one_row_page ∷ [] }

abbrev pub at_slot : ℕ → RecordScanner
at_slot n = record {
  rp = one_row;
  frame = 0;
  attached = true;
  next_rid = record { page_id = 1; slot_id = n };
}

pool_lru : IsConsistent pool.replacer
pool_lru = (raw_pool-IsValid [] 1 (omega arith) tt).lru

one_row-IsValid : IsValid one_row one_row_bytes
one_row-IsValid = (insert_refines empty_page empty_bytes 1 five empty_page-IsValid (omega arith)).0

page_held : find 1 pool.dir ≡ some 0
unfolding find
page_held = refl

no_page_left : Bitmap.first_after pool.head.bitmap true 1 ≡ some none
unfolding Bitmap.first_after Bitmap.first_from raw_pool
no_page_left = refl

pub row_found : live 0 (drop 0 (contents one_row one_row_bytes)) ≡ some (0, five)
unfolding insert init RecordPage.read_char
row_found = refl

next-live_example :
    next (at_slot 0) pool
    ≡ some (
      (
        (success, record_at 1 0 five, record { page_id = 1; slot_id = 0 }),
        record (at_slot 0) { next_rid = record { page_id = 1; slot_id = 1 } },
      ),
      pool,
    )
next-live_example =
    next-live (at_slot 0) pool one_row_page 0 five refl refl one_row-IsValid row_found

page_done : RecordPage.has_next one_row one_row_bytes (record { page_id = 1; slot_id = 1 }) ≡ false
unfolding insert init RecordPage.has_next RecordPage.contain
page_done = refl

destroy-has_next_example :
    (b' : BufferPool) × ((has_next (at_slot 1) >>= λ found. destroy found.1) pool ≡ some (tt, b'))
    × (get_elem? b'.pages 0
        ≡ some (record one_row_page {
          dirty = (false || false) || false;
          pin_count = sub_size (sub_size 1 1) 1;
        }))
destroy-has_next_example =
    destroy-has_next (at_slot 1) pool one_row_page pool_lru refl page_held refl page_done
      no_page_left

abbrev pub t_name : List ℕ
t_name = b't' ∷ []

abbrev pub scanning_t : Running
scanning_t = record {
  catalog = record { tables = []; heaps = (t_name, pool) ∷ []; files = []; base_dir = [] };
  scanner = some (at_slot 0);
}

pub scanning_t-OnLast : OnLast t_name scanning_t (at_slot 0) pool one_row_page
unfolding lookup eq_text
scanning_t-OnLast = record {
  scanning = refl;
  held = refl;
  attached = refl;
  page = refl;
  valid = one_row-IsValid;
  here = page_held;
  lru = pool_lru;
  last = no_page_left;
}

pub one_stored : stored (drop 0 (contents one_row one_row_bytes)) ≡ five ∷ []
unfolding insert init RecordPage.read_char
one_stored = refl

scan_next-Yields_example :
    (w' : Running) × Yields
      (scan_next t_name)
      scanning_t
      (stored (drop 0 (contents one_row one_row_bytes)))
      w'
scan_next-Yields_example =
    scan_next-Yields t_name scanning_t (at_slot 0) pool one_row_page scanning_t-OnLast
