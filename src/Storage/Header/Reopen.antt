-- ===== src/Storage/Header/Reopen.antt =====
-- src/storage/bufferpool/buffer_pool.hpp: what `BFPHeaderPage::init` reads of a page that
-- `write2page` wrote.
use tadis.Prelude.{
  ℕ, zero, suc, ◌+◌, ◌≤◌, ◌<◌, ◌^◌, ◌≡◌, refl, sym, ap, ◌∙◌, false, true, some, List, [], ◌∷◌,
  length, leb, take, drop, arith, ◌==◌,
}
use tadis.Prelude.Memory.{
  write_at, read_at, to_bytes, of_bytes, length-to_bytes, length-write_at, read_at-write_at,
  read_at-write_at_below, of_bytes-to_bytes_8,
}
use tadis.Storage.Def.{Page, page_size}
use tadis.Storage.RecordPage.{read_size, write_size}
use tadis.Storage.Header.{HeaderPage, put_header, write2page, init, bitmap_size_of}

take-take : (n m : ℕ) (xs : List ℕ) → n ≤ m → take n (take m xs) ≡ take n xs
take-take zero m xs h = refl
take-take (suc n) zero xs h = absurd (omega arith)
take-take (suc n) (suc m) [] h = refl
take-take (suc n) (suc m) (x ∷ xs) h = ap (◌∷◌ x) (take-take n m xs (omega arith))

read_at_short :
    (buf : List ℕ) (off n m : ℕ) → n ≤ m → read_at buf off n ≡ take n (read_at buf off m)
unfolding read_at
read_at_short buf off n m h = sym (take-take n m (drop off buf) h)

-- A `size_t` that is written is read back.
read_at-write_size :
    (buf : List ℕ) (off v : ℕ)
    → off + 8 ≤ length buf
    → read_at (write_at buf off (to_bytes 8 v)) off 8 ≡ to_bytes 8 v
read_at-write_size buf off v h =
    rw (length-to_bytes 8 v) at
      (read_at-write_at buf off (to_bytes 8 v) (rw (length-to_bytes 8 v) h))

module _ (h : HeaderPage) (page : Page) (size : length page.buffer ≡ page_size)
    (room : 16 + length h.bitmap ≤ page_size) (used : 0 < h.page_num)
    (page_num-lt : h.page_num < 2 ^ 64) (phy_num-lt : h.phy_num < 2 ^ 64) where
  unfoldable buf0 : List ℕ
  buf0 = write_at page.buffer 0 (to_bytes 8 h.page_num)

  unfoldable buf1 : List ℕ
  buf1 = write_at buf0 8 (to_bytes 8 h.phy_num)

  unfoldable buf2 : List ℕ
  buf2 = write_at buf1 16 h.bitmap

  written_buffer : (put_header h page).buffer ≡ buf2
  unfolding put_header write_size buf0 buf1 buf2
  written_buffer = refl

  length_0 : length buf0 ≡ page_size
  unfolding buf0
  length_0 = length-write_at page.buffer 0 (to_bytes 8 h.page_num) ∙ size

  length_1 : length buf1 ≡ page_size
  unfolding buf1
  length_1 = length-write_at buf0 8 (to_bytes 8 h.phy_num) ∙ length_0

  read_page_num : read_size buf2 0 ≡ h.page_num
  unfolding read_size buf0 buf1 buf2
  read_page_num =
      ap of_bytes (
        read_at-write_at_below buf1 16 8 0 h.bitmap (omega arith)
        ∙ read_at-write_at_below buf0 8 8 0 (to_bytes 8 h.phy_num) (omega arith)
        ∙ read_at-write_size page.buffer 0 h.page_num (omega arith))
      ∙ of_bytes-to_bytes_8 h.page_num page_num-lt

  read_phy_num : read_size buf2 8 ≡ h.phy_num
  unfolding read_size buf1 buf2
  read_phy_num =
      ap of_bytes (
        read_at-write_at_below buf1 16 8 8 h.bitmap (omega arith)
        ∙ read_at-write_size buf0 8 h.phy_num (omega (arith, length_0)))
      ∙ of_bytes-to_bytes_8 h.phy_num phy_num-lt

  read_bitmap : read_at buf2 16 (length h.bitmap) ≡ h.bitmap
  unfolding buf2
  read_bitmap = read_at-write_at buf1 16 h.bitmap (omega (arith, length_1))

  -- The two numbers of a header that is put into the page.
  pub put_header_lem :
      (read_size (put_header h page).buffer 0 ≡ h.page_num)
      × (read_size (put_header h page).buffer 8 ≡ h.phy_num)
  put_header_lem = (
    ap (λ b. read_size b 0) written_buffer ∙ read_page_num,
    ap (λ b. read_size b 8) written_buffer ∙ read_phy_num,
  )

  write2page_lem : write2page h page ≡ some (put_header h page)
  unfolding write2page
  write2page_lem = ground arith

  -- For a used header with a bitmap that fits into the page and has at least the length that
  -- `init` computes, `write2page` returns, and `init` of the page that it wrote gives the two
  -- numbers and the bitmap cut to that length, and leaves the page.
  pub init-write2page :
      bitmap_size_of h.page_num h.phy_num ≤ length h.bitmap
      → (page' : Page) × (write2page h page ≡ some page')
        × (init page'
            ≡ some (
              false,
              record h { bitmap = take (bitmap_size_of h.page_num h.phy_num) h.bitmap },
              page',
            ))
  unfolding init
  init-write2page fits =
      let page' = put_header h page in
      let (first, second) = put_header_lem in
      let third : read_at page'.buffer 16 (bitmap_size_of h.page_num h.phy_num)
          ≡ take (bitmap_size_of h.page_num h.phy_num) h.bitmap =
        ap (λ b. read_at b 16 (bitmap_size_of h.page_num h.phy_num)) written_buffer
        ∙ read_at_short buf2 16 (bitmap_size_of h.page_num h.phy_num) (length h.bitmap) fits
        ∙ ap (take (bitmap_size_of h.page_num h.phy_num)) read_bitmap in
      let nonzero : (h.page_num == 0) ≡ false = ground arith in
      let inside : leb (16 + bitmap_size_of h.page_num h.phy_num) page_size ≡ true = ground arith in
      (page', write2page_lem, rw (first, second, nonzero, inside, third) refl)
