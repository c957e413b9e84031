-- ===== src/Storage/RecordPage.antt =====
-- src/storage/bufferpool/record.hpp: a page of records, and the scan of one page.
-- A `RecordPage` keeps its header fields beside the page that it points to, so an operation takes
-- and returns the bytes of that page too. What would be written past the page is lost.
pub mod Layout
pub mod Insert
pub mod Slots
pub mod Remove
pub mod Reopen
pub mod Scan
use tadis.Prelude.{
  ℕ, zero, suc, ◌+◌, ◌-◌, ◌*◌, ◌<◌, Bool, true, false, ◌||◌, Option, none, some, List, [], ◌∷◌,
  ◌++◌, length, get_or, ltb, leb, ◌==◌, if◌then◌else◌,
}
use tadis.Prelude.Memory.{write_at, read_at, to_bytes, of_bytes}
use tadis.Common.Rc.{Rc, success, out_of_range, record_is_deleted}
use tadis.Storage.Def.{sub_size, invalid_rid, page_size, sizeof_size, Rid}

pub record RecordPage : Type 0 where
  pub free_addr_start : ℕ
  pub free_addr_end : ℕ
  pub rec_idx_count : ℕ
  pub rec_idx : List ℕ

-- `Record`; the field is what `bytes()` gives.
pub record Record : Type 0 where
  pub is_deleted : Bool
  pub rid : Rid
  pub bytes : List ℕ

-- `RecordView`: the span goes from `first` up to `last` in the page.
pub record RecordView : Type 0 where
  pub view_deleted : Bool
  pub view_rid : Rid
  pub first : ℕ
  pub last : ℕ

abbrev pub empty_record : Record
empty_record = record { is_deleted = false; rid = invalid_rid; bytes = [] }

-- A `size_t` and a `char` of the page.
unfoldable pub read_size : List ℕ → ℕ → ℕ
unfolding read_at of_bytes
read_size buf off = of_bytes (read_at buf off 8)

unfoldable pub read_char : List ℕ → ℕ → ℕ
unfolding read_at of_bytes
read_char buf off = of_bytes (read_at buf off 1)

unfoldable pub write_size : List ℕ → ℕ → ℕ → List ℕ
unfolding write_at to_bytes
write_size buf off v = write_at buf off (to_bytes 8 v)

unfoldable pub read_idx : List ℕ → ℕ → ℕ → List ℕ
unfolding read_size
read_idx buf i zero = []
read_idx buf i (suc left) = read_size buf ((3 + i) * sizeof_size) ∷ read_idx buf (i + 1) left

-- `init`
unfoldable pub init : List ℕ → RecordPage × List ℕ
unfolding read_size write_size read_idx
init buf =
    let start = read_size buf 0 in
    let end = read_size buf 8 in
    let count = read_size buf 16 in
    let fresh = end == 0 in
    let buf' = if fresh then write_size buf 8 page_size else buf in
    (
      record {
        free_addr_start = start;
        free_addr_end = if fresh then page_size else end;
        rec_idx_count = count;
        rec_idx = read_idx buf' 0 count;
      },
      buf',
    )

unfoldable pub enough : RecordPage → ℕ → Bool
enough rp record_size =
    let start_idx = sub_size (sub_size rp.free_addr_end record_size) 1 in
    ltb (sizeof_size * (3 + length rp.rec_idx) + sizeof_size) start_idx

-- `write_head(rid, idx)`
unfoldable pub write_head : RecordPage → List ℕ → Rid → ℕ → List ℕ
unfolding write_size
write_head rp buf rid idx =
    write_size
      (write_size (write_size (write_size buf 0 rp.free_addr_start) 8 rp.free_addr_end) 16
        rp.rec_idx_count)
      (sizeof_size * (3 + rid.slot_id)) idx

-- What `insert` writes for the record itself: the delete mark and the bytes.
unfoldable pub write_record : List ℕ → ℕ → List ℕ → List ℕ
unfolding write_at
write_record buf start_idx bytes = write_at (write_at buf start_idx (0 ∷ [])) (start_idx + 1) bytes

-- `insert` into the page with the number `pid`; the option is the `RID` of a record that fits.
unfoldable pub insert : RecordPage → List ℕ → ℕ → List ℕ → Option Rid × RecordPage × List ℕ
unfolding enough write_record write_head
insert rp buf pid bytes =
    let start_idx = sub_size (sub_size rp.free_addr_end (length bytes)) 1 in
    let rid : Rid = record { page_id = pid; slot_id = length rp.rec_idx } in
    let rp' : RecordPage = record {
      free_addr_start = rp.free_addr_start + 1;
      free_addr_end = start_idx;
      rec_idx_count = rp.rec_idx_count + 1;
      rec_idx = rp.rec_idx ++ (start_idx ∷ []);
    } in
    if enough rp (length bytes)
    then (some rid, rp', write_head rp' (write_record buf start_idx bytes) rid start_idx)
    else (none, rp, buf)

-- The test with which `remove`, `contain` and `get` begin.
abbrev pub misses : RecordPage → Rid → Bool
misses rp rid = length rp.rec_idx == 0 || leb (length rp.rec_idx) rid.slot_id

unfoldable pub remove : RecordPage → List ℕ → Rid → Bool × List ℕ
unfolding write_at
remove rp buf rid =
    if misses rp rid
    then (false, buf)
    else (true, write_at buf (get_or rp.rec_idx rid.slot_id 0) (1 ∷ []))

unfoldable pub contain : RecordPage → List ℕ → Rid → Rc
unfolding read_char
contain rp buf rid =
    if misses rp rid
    then out_of_range
    else if read_char buf (get_or rp.rec_idx rid.slot_id 0) == 1
    then record_is_deleted
    else success

abbrev pub end_of : RecordPage → Rid → ℕ
end_of rp rid = if rid.slot_id == 0 then page_size else get_or rp.rec_idx (rid.slot_id - 1) 0

-- `get(Record &, ...)`
unfoldable pub get : RecordPage → List ℕ → Record → Rid → Bool × Record
unfolding read_char read_at
get rp buf rec rid =
    let start_idx = get_or rp.rec_idx rid.slot_id 0 in
    if misses rp rid
    then (false, rec)
    else if read_char buf start_idx == 1
    then (false, record rec { is_deleted = true })
    else (
      true,
      record {
        is_deleted = false;
        rid = rid;
        bytes = read_at buf (start_idx + 1) (sub_size (sub_size (end_of rp rid) start_idx) 1);
      },
    )

-- `get(RecordView &, ...)`
unfoldable pub get_view : RecordPage → List ℕ → RecordView → Rid → Bool × RecordView
unfolding read_char
get_view rp buf rec rid =
    let start_idx = get_or rp.rec_idx rid.slot_id 0 in
    if misses rp rid
    then (false, rec)
    else if read_char buf start_idx == 1
    then (false, record rec { view_deleted = true })
    else (
      true,
      record { view_deleted = false; view_rid = rid; first = start_idx + 1; last = end_of rp rid },
    )

-- `PageRecordScanner::has_next`, at the scanner's `next_rid_`.
unfoldable pub has_next : RecordPage → List ℕ → Rid → Bool
has_next rp buf next_rid = elim (contain rp buf next_rid) [ out_of_range ↦ false | _ ↦ true ]

-- `PageRecordScanner::next` on fuel: the code, the record, and the next `next_rid_`. On success
-- the `RID` that it hands out is the one before `next_rid_`.
unfoldable pub next : ℕ → RecordPage → List ℕ → Rid → Record → Option (Rc × Record × Rid)
next zero rp buf next_rid rec = none
next (suc fuel) rp buf next_rid rec =
    let (ok, rec') = get rp buf rec next_rid in
    let next_rid' : Rid = record next_rid { slot_id = next_rid.slot_id + 1 } in
    let rest = next fuel rp buf next_rid' rec' in
    elim (contain rp buf next_rid) [
      | out_of_range ↦ some (out_of_range, rec', next_rid)
      | success ↦ some (success, rec', next_rid')
      | _ ↦ rest
    ]
