-- ===== src/Storage/Disk.antt =====
-- src/storage/bufferpool/disk_manager.hpp: `DiskManager`. The file is the sequence of its blocks of
-- one page each; `fread` and `fwrite` move whole blocks, and a write past the end leaves zeros
-- between. The mutex has no effect on one thread, and no read or write fails;
-- the file is taken to be open, so what a read or a write after `close` does is not modelled.
pub mod Content
use tadis.Prelude.{
  ℕ, zero, suc, ◌+◌, ◌-◌, ◌*◌, ◌/◌, ◌%◌, Bool, true, false, Option, none, some, List, [], ◌∷◌,
  length, get_or, replicate, ltb, if◌then◌else◌,
}
use tadis.Storage.Def.{size_mod, sub_size, page_size}

pub record Disk : Type 0 where
  pub blocks : List (List ℕ)
  pub next_page_id : ℕ
  pub is_open : Bool

-- The constructor, on a file with these blocks (none if it is new).
unfoldable pub open_disk : List (List ℕ) → Disk
open_disk blocks = record { blocks = blocks; next_page_id = 1; is_open = true }

unfoldable pub set_next_page_id : Disk → ℕ → Disk
set_next_page_id d id = record d { next_page_id = id }

-- `next_page_id()`
unfoldable pub take_page_id : Disk → ℕ × Disk
take_page_id d = (d.next_page_id, record d { next_page_id = (d.next_page_id + 1) % size_mod })

unfoldable pub current_pid : Disk → ℕ
current_pid d = sub_size d.next_page_id 1

abbrev pub offset_of : ℕ → ℕ
offset_of id = id * page_size % size_mod

-- What is in `dst` after `read_page(id, dst)`.
unfoldable pub read_page : Disk → ℕ → List ℕ → List ℕ
read_page d id dst =
    if ltb (length d.blocks * page_size) (offset_of id)
    then dst
    else get_or d.blocks (offset_of id / page_size) dst

abbrev pub zero_block : List ℕ
zero_block = replicate page_size 0

-- The write of one block, with the file extended by zeros up to it.
unfoldable pub put_block : List (List ℕ) → ℕ → List ℕ → List (List ℕ)
put_block [] zero src = src ∷ []
put_block [] (suc i) src = zero_block ∷ put_block [] i src
put_block (b ∷ blocks) zero src = src ∷ blocks
put_block (b ∷ blocks) (suc i) src = b ∷ put_block blocks i src

unfoldable pub write_page : Disk → ℕ → List ℕ → Disk
unfolding put_block
write_page d id src = record d { blocks = put_block d.blocks (offset_of id / page_size) src }

unfoldable pub close : Disk → Disk
close d = record d { is_open = false }
