-- ===== src/Storage/RecordPage/Layout.antt =====
-- The layout of a page of records: the header grows upwards, the records downwards from the end.
use mathlib.Core.Path.{subst}
use tadis.Prelude.{
  ℕ, suc, ◌+◌, ◌*◌, ◌≤◌, ◌<◌, ◌^◌, ◌≡◌, refl, ◌∙◌, true, List, [], ◌∷◌, ◌++◌, arith, length, ltb,
  ◌⊎◌, inl, inr,
}
use tadis.Prelude.Memory.{
  write_at, read_at, to_bytes, length-write_at, length-to_bytes, read_at-write_at,
  read_at-write_at_below, read_at-write_at_above,
}
use tadis.Storage.Def.{Rid, page_size}
use tadis.Storage.RecordPage.{RecordPage, enough, write_size, write_head, write_record}

-- The record at index `i` takes the bytes from `idx[i]` up to `idx[i - 1]`, the first up to `hi`;
-- the last record begins at `lo`.
abbrev pub Layout : ℕ → List ℕ → ℕ → Type 0
Layout hi [] lo = hi ≡ lo
Layout hi (x ∷ idx) lo = (x < hi) × Layout x idx lo

-- The header holds the numbers `idx` from its word `k` on.
abbrev pub Rows : List ℕ → ℕ → List ℕ → Type 0
Rows buf k [] = Unit
Rows buf k (x ∷ idx) = (read_at buf (8 * k) 8 ≡ to_bytes 8 x) × Rows buf (suc k) idx

pub record IsValid (rp : RecordPage) (buf : List ℕ) : Type 0 where
  pub size : length buf ≡ page_size
  pub layout : Layout page_size rp.rec_idx rp.free_addr_end
  pub room : 8 * (3 + length rp.rec_idx) ≤ rp.free_addr_end
  pub counted : rp.rec_idx_count ≡ length rp.rec_idx
  pub started : rp.free_addr_start ≡ length rp.rec_idx
  pub on_disk_start : read_at buf 0 8 ≡ to_bytes 8 rp.free_addr_start
  pub on_disk_end : read_at buf 8 8 ≡ to_bytes 8 rp.free_addr_end
  pub on_disk_count : read_at buf 16 8 ≡ to_bytes 8 rp.rec_idx_count
  pub on_disk_idx : Rows buf 3 rp.rec_idx

pub Layout-le : (hi : ℕ) (idx : List ℕ) (lo : ℕ) → Layout hi idx lo → lo ≤ hi
Layout-le hi [] lo l = omega arith
Layout-le hi (x ∷ idx) lo l = omega (arith, Layout-le x idx lo l.1)

pub Layout-append :
    (hi : ℕ) (idx : List ℕ) (lo x : ℕ) → Layout hi idx lo → x < lo → Layout hi (idx ++ (x ∷ [])) x
Layout-append hi [] lo x l h = (omega arith, refl)
Layout-append hi (y ∷ idx) lo x l h = (l.0, Layout-append y idx lo x l.1 h)

-- A write at `off` or above leaves the header words below it.
pub Rows-write_above :
    (buf : List ℕ) (k : ℕ) (idx : List ℕ) (off : ℕ) (bytes : List ℕ)
    → 8 * (k + length idx) ≤ off
    → Rows buf k idx
    → Rows (write_at buf off bytes) k idx
Rows-write_above buf k [] off bytes h r = tt
Rows-write_above buf k (x ∷ idx) off bytes h r = (
  read_at-write_at_below buf off 8 (8 * k) bytes (omega arith) ∙ r.0,
  Rows-write_above buf (suc k) idx off bytes (omega arith) r.1,
)

-- So does a write that ends at the word `k` or below.
pub Rows-write_below :
    (buf : List ℕ) (k : ℕ) (idx : List ℕ) (off : ℕ) (bytes : List ℕ)
    → off + length bytes ≤ 8 * k
    → Rows buf k idx
    → Rows (write_at buf off bytes) k idx
Rows-write_below buf k [] off bytes h r = tt
Rows-write_below buf k (x ∷ idx) off bytes h r = (
  read_at-write_at_above buf off 8 (8 * k) bytes (omega arith) ∙ r.0,
  Rows-write_below buf (suc k) idx off bytes (omega arith) r.1,
)

pub Rows-append :
    (buf : List ℕ) (k : ℕ) (idx : List ℕ) (x : ℕ)
    → Rows buf k idx
    → read_at buf (8 * (k + length idx)) 8 ≡ to_bytes 8 x
    → Rows buf k (idx ++ (x ∷ []))
Rows-append buf k [] x r h = (subst (λ o. read_at buf o 8 ≡ to_bytes 8 x) (omega arith) h, tt)
Rows-append buf k (y ∷ idx) x r h = (
  r.0,
  Rows-append buf (suc k) idx x r.1 (subst (λ o. read_at buf o 8 ≡ to_bytes 8 x) (omega arith) h),
)

-- On a page whose free space ends within the page, for a record shorter than the address where
-- the free space ends, the test is that the record and one more header word fit.
pub enough_iff :
    (rp : RecordPage) (n : ℕ)
    → n < rp.free_addr_end
    → rp.free_addr_end ≤ page_size
    → enough rp n ≡ ltb (8 * (4 + length rp.rec_idx) + n + 1) rp.free_addr_end
unfolding enough
enough_iff rp n h small = ground arith

-- For a record whose length is at least the address where the free space ends, and below 2 ^ 63,
-- on a page of fewer than 2 ^ 32 records, the test passes, since the subtraction wraps.
pub enough_wraps :
    (rp : RecordPage) (n : ℕ)
    → rp.free_addr_end ≤ n
    → n < 2 ^ 63
    → length rp.rec_idx < 2 ^ 32
    → enough rp n ≡ true
unfolding enough
enough_wraps rp n h small few = ground arith

-- One `size_t` written into a page.
read_at-write_size_self :
    (buf : List ℕ) (off v : ℕ)
    → off + 8 ≤ length buf
    → read_at (write_size buf off v) off 8 ≡ to_bytes 8 v
unfolding write_size
read_at-write_size_self buf off v h =
    rw (length-to_bytes 8 v) at
      (read_at-write_at buf off (to_bytes 8 v) (rw (length-to_bytes 8 v) h))

read_at-write_size_ne :
    (buf : List ℕ) (off v o n : ℕ)
    → (o + n ≤ off) ⊎ (off + 8 ≤ o)
    → read_at (write_size buf off v) o n ≡ read_at buf o n
unfolding write_size
read_at-write_size_ne buf off v o n (inl h) = read_at-write_at_below buf off n o (to_bytes 8 v) h
read_at-write_size_ne buf off v o n (inr h) =
    read_at-write_at_above buf off n o (to_bytes 8 v) (rw (length-to_bytes 8 v) h)

length-write_size : (buf : List ℕ) (off v : ℕ) → length (write_size buf off v) ≡ length buf
unfolding write_size
length-write_size buf off v = length-write_at buf off (to_bytes 8 v)

module _ (rp : RecordPage) (buf : List ℕ) (rid : Rid) (idx : ℕ) where
  pub length-write_head : length (write_head rp buf rid idx) ≡ length buf
  unfolding write_head
  length-write_head = simp length-write_size

  -- `write_head` leaves what lies behind the header word that it writes.
  pub read_at-write_head_above :
      (o n : ℕ)
      → 8 * (4 + rid.slot_id) ≤ o
      → read_at (write_head rp buf rid idx) o n ≡ read_at buf o n
  unfolding write_head
  read_at-write_head_above o n h =
      read_at-write_size_ne _ (8 * (3 + rid.slot_id)) idx o n (inr (omega arith))
      ∙ read_at-write_size_ne _ 16 rp.rec_idx_count o n (inr (omega arith))
      ∙ read_at-write_size_ne _ 8 rp.free_addr_end o n (inr (omega arith))
      ∙ read_at-write_size_ne buf 0 rp.free_addr_start o n (inr (omega arith))

  -- The words of earlier records are left too.
  pub Rows-write_head :
      (old : List ℕ)
      → length old ≡ rid.slot_id
      → Rows buf 3 old
      → Rows (write_head rp buf rid idx) 3 old
  unfolding write_head write_size
  Rows-write_head old e r =
      Rows-write_above _ 3 old (8 * (3 + rid.slot_id)) (to_bytes 8 idx) (omega arith) (
        Rows-write_below _ 3 old 16 (to_bytes 8 rp.rec_idx_count) (omega arith) (
          Rows-write_below _ 3 old 8 (to_bytes 8 rp.free_addr_end) (omega arith)
            (Rows-write_below buf 3 old 0 (to_bytes 8 rp.free_addr_start) (omega arith) r)))

  -- The four words that `write_head` writes are read back.
  pub read_at-write_head :
      8 * (4 + rid.slot_id) ≤ length buf
      → (read_at (write_head rp buf rid idx) 0 8 ≡ to_bytes 8 rp.free_addr_start)
        × (read_at (write_head rp buf rid idx) 8 8 ≡ to_bytes 8 rp.free_addr_end)
        × (read_at (write_head rp buf rid idx) 16 8 ≡ to_bytes 8 rp.rec_idx_count)
        × (read_at (write_head rp buf rid idx) (8 * (3 + rid.slot_id)) 8 ≡ to_bytes 8 idx)
  unfolding write_head
  read_at-write_head h = (
    read_at-write_size_ne _ (8 * (3 + rid.slot_id)) idx 0 8 (inl (omega arith))
        ∙ read_at-write_size_ne _ 16 rp.rec_idx_count 0 8 (inl (omega arith))
        ∙ read_at-write_size_ne _ 8 rp.free_addr_end 0 8 (inl (omega arith))
        ∙ read_at-write_size_self buf 0 rp.free_addr_start (omega arith),
    read_at-write_size_ne _ (8 * (3 + rid.slot_id)) idx 8 8 (inl (omega arith))
        ∙ read_at-write_size_ne _ 16 rp.rec_idx_count 8 8 (inl (omega arith))
        ∙ read_at-write_size_self _ 8 rp.free_addr_end (rw length-write_size (omega arith)),
    read_at-write_size_ne _ (8 * (3 + rid.slot_id)) idx 16 8 (inl (omega arith))
        ∙ read_at-write_size_self _ 16 rp.rec_idx_count (simp length-write_size (omega arith)),
    read_at-write_size_self _ (8 * (3 + rid.slot_id)) idx (simp length-write_size (omega arith)),
  )

module _ (buf : List ℕ) (start_idx : ℕ) (bytes : List ℕ) where
  pub length-write_record : length (write_record buf start_idx bytes) ≡ length buf
  unfolding write_record
  length-write_record = simp length-write_at

  pub read_at-write_record_above :
      (o n : ℕ)
      → start_idx + 1 + length bytes ≤ o
      → read_at (write_record buf start_idx bytes) o n ≡ read_at buf o n
  unfolding write_record
  read_at-write_record_above o n h =
      read_at-write_at_above _ (start_idx + 1) n o bytes h
      ∙ read_at-write_at_above buf start_idx n o (0 ∷ []) (omega arith)

  pub Rows-write_record :
      (k : ℕ) (idx : List ℕ)
      → 8 * (k + length idx) ≤ start_idx
      → Rows buf k idx
      → Rows (write_record buf start_idx bytes) k idx
  unfolding write_record
  Rows-write_record k idx h r =
      Rows-write_above _ k idx (start_idx + 1) bytes (omega arith)
        (Rows-write_above buf k idx start_idx (0 ∷ []) h r)

  -- The mark and the bytes of the record are read back.
  pub read_at-write_record :
      start_idx + 1 + length bytes ≤ length buf
      → (read_at (write_record buf start_idx bytes) start_idx 1 ≡ 0 ∷ [])
        × (read_at (write_record buf start_idx bytes) (start_idx + 1) (length bytes) ≡ bytes)
  unfolding write_record
  read_at-write_record h = (
    read_at-write_at_below _ (start_idx + 1) 1 start_idx bytes (omega arith)
        ∙ read_at-write_at buf start_idx (0 ∷ []) (omega arith),
    read_at-write_at _ (start_idx + 1) bytes (rw length-write_at h),
  )
