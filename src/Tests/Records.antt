-- ===== src/Tests/Records.antt =====
-- Runs of src/storage/bufferpool/record.hpp, on a page of zero bytes and on the page that holds one
-- record.
use tadis.Prelude.{ℕ, ◌<◌, ◌≡◌, ◌↔◌, true, List, [], ◌∷◌, length, replicate, drop, get_elem?, arith}
use tadis.Storage.Def.{Rid, page_size}
use tadis.Storage.RecordPage.{
  RecordPage, init, insert, remove, get, enough, next, empty_record, read_size, read_idx,
}
use tadis.Storage.RecordPage.Layout.{IsValid, enough_wraps}
use tadis.Storage.RecordPage.Slots.{Inserted, insert_refines, got, contents, get_refines}
use tadis.Storage.RecordPage.Remove.{mark, page_remove_refines}
use tadis.Storage.RecordPage.Reopen.{init_reopens, empty-IsValid}
use tadis.Storage.RecordPage.Scan.{Scanned, live, next_lem}

abbrev hello : List ℕ
hello = b'h' ∷ b'i' ∷ []

abbrev blank : RecordPage
blank = record { free_addr_start = 0; free_addr_end = 1024; rec_idx_count = 0; rec_idx = [] }

abbrev blank_bytes : List ℕ
blank_bytes = (init (replicate page_size 0)).1

blank-IsValid : IsValid blank blank_bytes
unfolding init read_size read_idx
blank-IsValid = empty-IsValid

abbrev one : RecordPage
one = (insert blank blank_bytes 1 hello).1

abbrev one_bytes : List ℕ
one_bytes = (insert blank blank_bytes 1 hello).2

one-IsValid : IsValid one one_bytes
one-IsValid = (insert_refines blank blank_bytes 1 hello blank-IsValid (omega arith)).0

abbrev first_rid : Rid
first_rid = record { page_id = 1; slot_id = 0 }

insert_refines_example : Inserted blank blank_bytes 1 hello (insert blank blank_bytes 1 hello)
insert_refines_example = insert_refines blank blank_bytes 1 hello blank-IsValid (omega arith)

get_refines_example :
    get one one_bytes empty_record first_rid
    ≡ got empty_record first_rid (get_elem? (contents one one_bytes) 0)
get_refines_example = get_refines one one_bytes empty_record first_rid one-IsValid

page_remove_refines_example :
    let (done, buf') = remove one one_bytes first_rid in
    IsValid one buf'
    × (contents one buf' ≡ mark 0 (contents one one_bytes))
    × ((done ≡ true) ↔ (0 < length one.rec_idx))
page_remove_refines_example = page_remove_refines one one_bytes first_rid one-IsValid

init_reopens_example : init one_bytes ≡ (one, one_bytes)
init_reopens_example = init_reopens one one_bytes one-IsValid

next_lem_example :
    Scanned 1
      (live 0 (drop 0 (contents one one_bytes)))
      (next 2 one one_bytes (record { page_id = 1; slot_id = 0 }) empty_record)
next_lem_example =
    next_lem 1 one one_bytes 1 0 empty_record one-IsValid (unfold insert enough in omega arith)

enough_wraps_example : enough blank 2000 ≡ true
enough_wraps_example = enough_wraps blank 2000 (omega arith) (omega arith) (omega arith)
