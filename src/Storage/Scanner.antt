-- ===== src/Storage/Scanner.antt =====
-- src/storage/bufferpool/record.hpp: `RecordScanner`, which scans the pages of a buffer pool. The
-- logging is left out.
pub mod Page
pub mod Pins
pub mod Last
use tadis.Prelude.{ℕ, ◌+◌, ◌-◌, Bool, true, false, Option, none, some, List, length, if◌then◌else◌}
use tadis.Common.Rc.{Rc, success, out_of_range, internal_error, rc_success}
use tadis.Storage.Def.{Rid}
use tadis.Storage.RecordPage
use tadis.Storage.RecordPage.{RecordPage, Record, empty_record}
use tadis.Storage.BufferPool.{M, ◌>>=◌, ◌>>◌, pure, fault, page_at, put_page, fetch, unpin}
use tadis.Storage.BufferPool.Lifecycle.{contain, next_pid_after}

-- `rp_` with its page, `page_scanner_.rp_` (attached if it points to `rp_`, else null), and
-- `page_scanner_.next_rid_`.
pub record RecordScanner : Type 0 where
  pub rp : RecordPage
  pub frame : ℕ
  pub attached : Bool
  pub next_rid : Rid

-- `rp_.init(page)`
unfoldable pub open_page : ℕ → M RecordPage
open_page frame = do
  p ← page_at frame
  let opened = RecordPage.init p.buffer
  put_page frame (record p { buffer = opened.1 })
  pure opened.0

-- `page_scanner_.init(&rp_)`
unfoldable pub first_rid : ℕ → M Rid
first_rid frame = do p ← page_at frame; pure (record { page_id = p.pid; slot_id = 0 })

-- `init`; none is a scanner that INTERNAL_ERROR leaves without a page.
unfoldable pub init : M (Option RecordScanner)
init = do
  rc ← contain 1
  page ← fetch 1
  elim page [
    | none ↦ if rc_success rc then pure none else fault
    | some frame ↦ do
      rp ← open_page frame
      rid ← first_rid frame
      pure (some (record { rp = rp; frame = frame; attached = true; next_rid = rid }))
  ]

-- `page_scanner_.has_next()`, which reads through the pointer.
unfoldable pub page_has_next : RecordScanner → M Bool
page_has_next s =
    if s.attached
    then (do p ← page_at s.frame; pure (RecordPage.has_next s.rp p.buffer s.next_rid))
    else fault

-- The scanner moves to the page `next_id`.
unfoldable pub enter : RecordScanner → ℕ → M (Bool × RecordScanner)
enter s next_id = do
  let rid : Rid = record { page_id = next_id; slot_id = 0 }
  page ← fetch next_id
  elim page [
    | none ↦ pure (true, record s { attached = false; next_rid = rid })
    | some frame ↦ do
      rp ← open_page frame
      let s' : RecordScanner = record { rp = rp; frame = frame; attached = true; next_rid = rid }
      more ← page_has_next s'
      pure (more, s')
  ]

unfoldable pub has_next : RecordScanner → M (Bool × RecordScanner)
has_next s = do
  more ← page_has_next s
  elim more [
    | true ↦ pure (true, s)
    | false ↦ do
      next_id ← next_pid_after s.next_rid.page_id
      unpin s.next_rid.page_id false
      elim next_id [ none ↦ pure (false, s) | some id ↦ enter s id ]
  ]

-- `rp_.init(next_page)` where `next` finds the page detached; none is INTERNAL_ERROR.
unfoldable pub attach : RecordScanner → M (Option RecordScanner)
attach s = if s.attached then pure (some s) else (do
  page ← fetch s.next_rid.page_id
  elim page [
    | none ↦ pure none
    | some frame ↦ do
      rp ← open_page frame
      pure (some (record s { rp = rp; frame = frame; attached = true }))
  ])

-- `page_scanner_.next(rec, rid)`, on fuel for every slot of the page: the code, the record and the
-- record id.
unfoldable pub page_next : RecordScanner → M ((Rc × Record × Rid) × RecordScanner)
page_next s = do
  p ← page_at s.frame
  elim (RecordPage.next (length s.rp.rec_idx + 1) s.rp p.buffer s.next_rid empty_record) [
    | none ↦ fault
    | some (rc, rec, rid) ↦
        pure ((rc, rec, record rid { slot_id = rid.slot_id - 1 }), record s { next_rid = rid })
  ]

-- `next`; with another code than SUCCESS the record and its id say nothing.
unfoldable pub next : RecordScanner → M ((Rc × Record × Rid) × RecordScanner)
next s = do
  found ← has_next s
  elim found.0 [
    | false ↦ pure ((out_of_range, empty_record, s.next_rid), found.1)
    | true ↦ do
      ready ← attach found.1
      elim ready [
        | none ↦ pure ((internal_error, empty_record, s.next_rid), found.1)
        | some s' ↦ page_next s'
      ]
  ]

-- The destructor.
unfoldable pub destroy : RecordScanner → M (Unit {0})
destroy s = unpin s.next_rid.page_id false
