-- ===== src/Storage/Header.antt =====
-- src/storage/bufferpool/buffer_pool.hpp: `BFPHeaderPage`, the first page of a file. The result
-- `none` is a failed assertion of the bitmap, or undefined behaviour.
pub mod Reopen
use tadis.Prelude.{
  ℕ, ◌+◌, ◌*◌, ◌/◌, ◌%◌, Bool, true, false, Option, none, some, List, [], ◌∷◌, length, leb, ltb,
  ◌==◌, if◌then◌else◌,
}
use tadis.Prelude.Memory.{write_at, read_at}
use tadis.Common.Bitmap
use tadis.Storage.Def.{Page, page_size, set_dirty, bfp_max_page_num, sizeof_size}
use tadis.Storage.RecordPage.{read_size, write_size}

pub record HeaderPage : Type 0 where
  pub page_num : ℕ
  pub phy_num : ℕ
  pub bitmap : List ℕ

abbrev pub max_page_count : ℕ
max_page_count = bfp_max_page_num

-- The page that `write2page` leaves.
unfoldable pub put_header : HeaderPage → Page → Page
unfolding write_size write_at set_dirty
put_header h page =
    set_dirty
      (record page {
        buffer =
            write_at (write_size (write_size page.buffer 0 h.page_num) sizeof_size h.phy_num)
              (2 * sizeof_size) h.bitmap;
      })
      true

-- That many bytes of a bitmap lie inside the page.
abbrev pub bitmap_fits : ℕ → Bool
bitmap_fits n = leb (2 * sizeof_size + n) page_size

-- `write2page`; a bitmap that goes past the end of the page is undefined behaviour.
unfoldable pub write2page : HeaderPage → Page → Option Page
unfolding put_header
write2page h page = if bitmap_fits (length h.bitmap) then some (put_header h page) else none

-- The bytes of the bitmap that `init` reads.
unfoldable pub bitmap_size_of : ℕ → ℕ → ℕ
bitmap_size_of page_num phy_num =
    if ltb 8 phy_num then page_num / 8 + (if page_num % 8 == 0 then 0 else 1) else 1

-- `init`, with its result, the header and the page; a bitmap that is read from behind the page is
-- undefined behaviour, or too long to be allocated.
unfoldable pub init : Page → Option (Bool × HeaderPage × Page)
unfolding write2page
init page =
    let page_num = read_size page.buffer 0 in
    let phy_num = read_size page.buffer sizeof_size in
    let bitmap_size = bitmap_size_of page_num phy_num in
    let used : HeaderPage = record {
      page_num = page_num;
      phy_num = phy_num;
      bitmap = read_at page.buffer (2 * sizeof_size) bitmap_size;
    } in
    if page_num == 0
    then elim (Bitmap.set_bit (0 ∷ []) 0 true) [
      | none ↦ none
      | some bitmap ↦
          let h : HeaderPage = record { page_num = 1; phy_num = 1; bitmap = bitmap } in
          elim (write2page h page) [ none ↦ none | some page' ↦ some (true, h, page') ]
    ]
    else if bitmap_fits bitmap_size
    then some (false, used, page)
    else none
