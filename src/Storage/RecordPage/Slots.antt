-- ===== src/Storage/RecordPage/Slots.antt =====
-- src/storage/bufferpool/record.hpp: a page of records as a sequence of slots, each with its delete
-- mark and its bytes.
use native.Mathlib.Decide.{dec_lt}
use tadis.Prelude.{
  ◌⊎◌, ℕ, zero, suc, ◌+◌, ◌-◌, ◌*◌, ◌≤◌, ◌<◌, ◌≡◌, refl, ap, ap₂, ◌∙◌, Bool, true, false, Option,
  none, some, List, [], ◌∷◌, ◌++◌, arith, length, get_elem?, get_or, ltb, ◌==◌, Bool-cases, inl,
  inr, if◌then◌else◌,
}
use tadis.Prelude.Memory.{read_at, of_bytes}
use tadis.Common.Rc.{Rc, success, out_of_range, record_is_deleted}
use tadis.Storage.Def.{Rid, page_size}
use tadis.Storage.RecordPage.{RecordPage, Record, read_char, insert, get, contain, end_of, misses}
use tadis.Storage.RecordPage.Layout.{IsValid, Layout, Layout-le}
use tadis.Storage.RecordPage.Insert.{
  Fits, inserted, written, rid_of, insert_cases, written-IsValid, read_at-written,
  read_at-written_record,
}

-- The delete mark, and the bytes of the record.
abbrev pub Slot : Type 0
Slot = Bool × List ℕ

abbrev pub slot_at : List ℕ → ℕ → ℕ → Slot
slot_at buf hi x = (read_char buf x == 1, read_at buf (x + 1) (hi - x - 1))

abbrev pub slots : List ℕ → ℕ → List ℕ → List Slot
slots buf hi [] = []
slots buf hi (x ∷ idx) = slot_at buf hi x ∷ slots buf x idx

abbrev pub contents : RecordPage → List ℕ → List Slot
contents rp buf = slots buf page_size rp.rec_idx

pub length-slots : (buf : List ℕ) (hi : ℕ) (idx : List ℕ) → length (slots buf hi idx) ≡ length idx
length-slots buf hi [] = refl
length-slots buf hi (x ∷ idx) = ap suc (length-slots buf x idx)

pub slots-agree :
    (buf buf' : List ℕ) (hi : ℕ) (idx : List ℕ) (lo : ℕ)
    → Layout hi idx lo
    → ((o n : ℕ) → lo ≤ o → read_at buf' o n ≡ read_at buf o n)
    → slots buf' hi idx ≡ slots buf hi idx
unfolding read_char
slots-agree buf buf' hi [] lo l h = refl
slots-agree buf buf' hi (x ∷ idx) lo l h =
    let below = Layout-le x idx lo l.1 in
    ap₂ ◌∷◌ (λ i. (of_bytes (h x 1 below i) == 1, h (x + 1) (hi - x - 1) (omega arith) i))
      (slots-agree buf buf' x idx lo l.1 h)

slots-append :
    (buf : List ℕ) (hi : ℕ) (idx : List ℕ) (lo x : ℕ)
    → Layout hi idx lo
    → slots buf hi (idx ++ (x ∷ [])) ≡ slots buf hi idx ++ (slot_at buf lo x ∷ [])
slots-append buf hi [] lo x l = ap (λ h. slot_at buf h x ∷ []) l
slots-append buf hi (y ∷ idx) lo x l = ap (◌∷◌ (slot_at buf hi y)) (slots-append buf y idx lo x l.1)

-- Where the record at a slot ends.
abbrev pub hi_of : ℕ → List ℕ → ℕ → ℕ
hi_of hi idx zero = hi
hi_of hi idx (suc slot) = get_or idx slot 0

get_elem?-slots :
    (buf : List ℕ) (hi : ℕ) (idx : List ℕ) (slot : ℕ)
    → slot < length idx
    → get_elem? (slots buf hi idx) slot ≡ some (slot_at buf (hi_of hi idx slot) (get_or idx slot 0))
get_elem?-slots buf hi [] slot h = absurd (omega arith)
get_elem?-slots buf hi (x ∷ idx) zero h = refl
get_elem?-slots buf hi (x ∷ idx) (suc zero) h = get_elem?-slots buf x idx zero (omega arith)
get_elem?-slots buf hi (x ∷ idx) (suc (suc slot)) h =
    get_elem?-slots buf x idx (suc slot) (omega arith)

pub get_elem?-past : {A : Type 0} (xs : List A) (i : ℕ) → length xs ≤ i → get_elem? xs i ≡ none
get_elem?-past [] i h = refl
get_elem?-past (x ∷ xs) zero h = absurd (omega arith)
get_elem?-past (x ∷ xs) (suc i) h = get_elem?-past xs i (omega arith)

pub Layout-get :
    (hi : ℕ) (idx : List ℕ) (lo slot : ℕ)
    → Layout hi idx lo
    → slot < length idx
    → (get_or idx slot 0 < hi_of hi idx slot) × (hi_of hi idx slot ≤ hi) × (lo ≤ get_or idx slot 0)
Layout-get hi [] lo slot l h = absurd (omega arith)
Layout-get hi (x ∷ idx) lo zero l h = (l.0, omega arith, Layout-le x idx lo l.1)
Layout-get hi (x ∷ idx) lo (suc zero) l h =
    let (a, b, c) = Layout-get x idx lo zero l.1 (omega arith) in (a, omega arith, c)
Layout-get hi (x ∷ idx) lo (suc (suc slot)) l h =
    let (a, b, c) = Layout-get x idx lo (suc slot) l.1 (omega arith) in (a, omega arith, c)

hi_of-end_of :
    (rp : RecordPage) (pid slot : ℕ)
    → end_of rp (record { page_id = pid; slot_id = slot }) ≡ hi_of page_size rp.rec_idx slot
hi_of-end_of rp pid zero = refl
hi_of-end_of rp pid (suc slot) =
    let back : suc slot - 1 ≡ slot = omega arith in
    ground (arith, ap (λ s. get_or rp.rec_idx s 0) back)

slot_at-written :
    (rp : RecordPage) (buf : List ℕ) (pid : ℕ) (bytes : List ℕ)
    → IsValid rp buf
    → (f : Fits rp bytes)
    → slot_at (written rp buf (rid_of rp pid) f.start bytes) rp.free_addr_end f.start
      ≡ (false, bytes)
unfolding read_char
slot_at-written rp buf pid bytes v f =
    let (mark, body) = read_at-written_record rp buf pid bytes v f in
    let span : rp.free_addr_end - f.start - 1 ≡ length bytes = omega (arith, f.below) in
    let body' : read_at (written rp buf (rid_of rp pid) f.start bytes) (f.start + 1)
          (rp.free_addr_end - f.start - 1)
        ≡ bytes =
      rw span body in
    λ i. (of_bytes (mark i) == 1, body' i)

contents-written :
    (rp : RecordPage) (buf : List ℕ) (pid : ℕ) (bytes : List ℕ)
    → IsValid rp buf
    → (f : Fits rp bytes)
    → contents (inserted rp f.start) (written rp buf (rid_of rp pid) f.start bytes)
      ≡ contents rp buf ++ ((false, bytes) ∷ [])
contents-written rp buf pid bytes v f =
    let buf' = written rp buf (rid_of rp pid) f.start bytes in
    slots-append buf' page_size rp.rec_idx rp.free_addr_end f.start v.layout
    ∙ ap₂ ◌++◌
        (slots-agree buf buf' page_size rp.rec_idx rp.free_addr_end v.layout
          (read_at-written rp buf pid bytes v f))
        (ap (λ s. s ∷ []) (slot_at-written rp buf pid bytes v f))

-- What `insert` promises of the sequence of slots.
abbrev pub Inserted : RecordPage → List ℕ → ℕ → List ℕ → Option Rid × RecordPage × List ℕ → Type 0
Inserted rp buf pid bytes (o, rp', buf') =
    let fits = ltb (8 * (4 + length rp.rec_idx) + length bytes + 1) rp.free_addr_end in
    IsValid rp' buf'
    × (o ≡ (if fits then some (rid_of rp pid) else none))
    × (contents rp' buf'
        ≡ (if fits then contents rp buf ++ ((false, bytes) ∷ []) else contents rp buf))

-- On a valid page, `insert` of a record that is shorter than the address where the free space
-- ends appends one slot with its bytes if it fits, returns the number of that slot, and leaves
-- every other slot; if it does not fit, no slot changes. The page stays valid.
pub insert_refines :
    (rp : RecordPage) (buf : List ℕ) (pid : ℕ) (bytes : List ℕ)
    → IsValid rp buf
    → length bytes < rp.free_addr_end
    → Inserted rp buf pid bytes (insert rp buf pid bytes)
insert_refines rp buf pid bytes v h =
    rw (insert_cases rp buf pid bytes v h)
      (elim (Bool-cases (ltb (8 * (4 + length rp.rec_idx) + length bytes + 1) rp.free_addr_end)) [
        | inr full ↦ rw full (v, refl, refl)
        | inl fits ↦ rw fits (
            let f : Fits rp bytes = record {
              start = rp.free_addr_end - length bytes - 1;
              below = ground arith;
              header = ground arith;
            } in
            (written-IsValid rp buf pid bytes v f, refl, contents-written rp buf pid bytes v f))
      ])

-- What the reads return, by the slot.
abbrev pub got : Record → Rid → Option Slot → Bool × Record
got rec rid none = (false, rec)
got rec rid (some (true, bytes)) = (false, record rec { is_deleted = true })
got rec rid (some (false, bytes)) = (true, record { is_deleted = false; rid = rid; bytes = bytes })

abbrev pub contained : Option Slot → Rc
contained none = out_of_range
contained (some (true, bytes)) = record_is_deleted
contained (some (false, bytes)) = success

got-if :
    (rec : Record) (rid : Rid) (b : Bool) {bytes bytes' : List ℕ}
    → bytes ≡ bytes'
    → (if b
        then (false, record rec { is_deleted = true })
        else (true, record { is_deleted = false; rid = rid; bytes = bytes }))
      ≡ got rec rid (some (b, bytes'))
got-if rec rid true e = refl
got-if rec rid false e = λ i. (true, record { is_deleted = false; rid = rid; bytes = e i })

contained-if :
    (b : Bool) (bytes : List ℕ)
    → (if b then record_is_deleted else success) ≡ contained (some (b, bytes))
contained-if true bytes = refl
contained-if false bytes = refl

pub misses-cases :
    (rp : RecordPage) (buf : List ℕ) (rid : Rid)
    → IsValid rp buf
    → ((misses rp rid ≡ true) × (get_elem? (contents rp buf) rid.slot_id ≡ none))
      ⊎ ((misses rp rid ≡ false)
          × (rid.slot_id < length rp.rec_idx)
          × (get_elem? (contents rp buf) rid.slot_id
              ≡ some (slot_at buf (end_of rp rid) (get_or rp.rec_idx rid.slot_id 0)))
          × (get_or rp.rec_idx rid.slot_id 0 < end_of rp rid)
          × (end_of rp rid ≤ page_size))
misses-cases rp buf rid v = elim (dec_lt rid.slot_id (length rp.rec_idx)) [
  | yes h ↦
      let (a, b, c) = Layout-get page_size rp.rec_idx rp.free_addr_end rid.slot_id v.layout h in
      let e = hi_of-end_of rp rid.page_id rid.slot_id in
      inr (
        ground arith,
        h,
        rw (hi_of-end_of rp rid.page_id rid.slot_id)
            (get_elem?-slots buf page_size rp.rec_idx rid.slot_id h),
        omega arith,
        omega arith,
      )
  | no h ↦ inl (
    ground arith,
    get_elem?-past (contents rp buf) rid.slot_id
        (omega (arith, length-slots buf page_size rp.rec_idx)),
  )
]

-- On a valid page, `get` returns the bytes of a live slot, marks the record for a deleted one,
-- and returns false for a number with no slot.
pub get_refines :
    (rp : RecordPage) (buf : List ℕ) (rec : Record) (rid : Rid)
    → IsValid rp buf
    → get rp buf rec rid ≡ got rec rid (get_elem? (contents rp buf) rid.slot_id)
unfolding get
get_refines rp buf rec rid v = elim (misses-cases rp buf rid v) [
  | inl (m, e) ↦ rw (m, e) refl
  | inr (m, h, e, below, small) ↦
      rw (m, e)
        (got-if rec rid (read_char buf (get_or rp.rec_idx rid.slot_id 0) == 1)
          (ap (read_at buf (get_or rp.rec_idx rid.slot_id 0 + 1)) (omega arith)))
]

-- On a valid page, `contain` gives SUCCESS for a live slot, RECORD_IS_DELETED for a deleted one,
-- and OUT_OF_RANGE for a number with no slot.
pub contain_refines :
    (rp : RecordPage) (buf : List ℕ) (rid : Rid)
    → IsValid rp buf
    → contain rp buf rid ≡ contained (get_elem? (contents rp buf) rid.slot_id)
unfolding contain
contain_refines rp buf rid v = elim (misses-cases rp buf rid v) [
  | inl (m, e) ↦ rw (m, e) refl
  | inr (m, h, e, below, small) ↦
      rw (m, e) (contained-if (read_char buf (get_or rp.rec_idx rid.slot_id 0) == 1) _)
]
