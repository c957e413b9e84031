-- ===== src/Storage/Def.antt =====
-- src/storage/storage_def.hpp, and the class `Page` of src/storage/bufferpool/buffer_pool.hpp.
-- `size_t` has 64 bits. A page's buffer is a list of bytes.
use tadis.Prelude.{ℕ, ◌+◌, ◌-◌, ◌%◌, ◌^◌, Bool, false, not, ◌&&◌, List, length, replicate, ◌==◌}

abbrev pub size_mod : ℕ
size_mod = 2 ^ 64

-- `a - b` on `size_t`.
abbrev pub sub_size : ℕ → ℕ → ℕ
sub_size a b = (a + size_mod - b) % size_mod

abbrev pub invalid_id : ℕ
invalid_id = 2 ^ 64 - 1

abbrev pub page_size : ℕ
page_size = 1024

abbrev pub sizeof_size : ℕ
sizeof_size = 8

abbrev pub bfp_bitmap_max_size : ℕ
bfp_bitmap_max_size = 1008

abbrev pub bfp_max_page_num : ℕ
bfp_max_page_num = 8064

pub record Rid : Type 0 where
  pub page_id : ℕ
  pub slot_id : ℕ

abbrev pub invalid_rid : Rid
invalid_rid = record { page_id = invalid_id; slot_id = invalid_id }

unfoldable pub rid_eq : Rid → Rid → Bool
rid_eq a b = a.page_id == b.page_id && a.slot_id == b.slot_id

unfoldable pub rid_ne : Rid → Rid → Bool
unfolding rid_eq
rid_ne a b = not (rid_eq a b)

pub record Page : Type 0 where
  pub buffer : List ℕ
  pub pid : ℕ
  pub pin_count : ℕ
  pub dirty : Bool

-- `set_dirty`
unfoldable pub set_dirty : Page → Bool → Page
set_dirty p is_dirty = record p { dirty = is_dirty }

-- `clear_data` and `clear_all`
unfoldable pub clear_data : Page → Page
clear_data p = record p { buffer = replicate (length p.buffer) 0 }

unfoldable pub clear_all : Page → Page
unfolding clear_data
clear_all p = record (clear_data p) { pid = invalid_id; pin_count = 0; dirty = false }
