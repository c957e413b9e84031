-- ===== src/Storage/Scanner/Last.antt =====
-- src/storage/bufferpool/record.hpp: the end of the scan, on the last page of the file.
use tadis.Prelude.{
  ℕ, suc, ◌+◌, ◌≡◌, refl, subst, ap, ◌∙◌, Option, true, false, some, none, length, get_elem?, set,
  drop, ◌-◌, arith, Option-cases, inl, inr,
}
use tadis.Common.Rc.{Rc, out_of_range, record_is_deleted}
use tadis.Common.Bitmap
use tadis.Storage.Def.{Rid, Page}
use tadis.Storage.Replacer.Refine.{IsConsistent}
use tadis.Storage.RecordPage
use tadis.Storage.RecordPage.{Record, contain, empty_record}
use tadis.Storage.RecordPage.Layout.{IsValid}
use tadis.Storage.RecordPage.Slots.{contents, contained, contain_refines}
use tadis.Storage.RecordPage.Scan.{Scanned, live, next_lem, drop-get}
use tadis.Storage.BufferPool.{BufferPool, find}
use tadis.Storage.BufferPool.Lifecycle.{next_pid_after}
use tadis.Storage.Scanner.{RecordScanner, has_next, next, page_next, page_has_next, attach}
use tadis.Storage.Scanner.Pins.{unpin-released, released}

-- The call returns OUT_OF_RANGE.
abbrev pub Exhausted : RecordScanner → BufferPool → Type 0
Exhausted s b =
    (rec : Record) × (rid : Rid) × (s' : RecordScanner) × (b' : BufferPool) × (next s b
      ≡ some (((out_of_range, rec, rid), s'), b'))

Scanned-none :
    (pid : ℕ) (o : Option (Rc × Record × Rid))
    → Scanned pid none o
    → (rec : Record) × (rid : Rid) × (o ≡ some (out_of_range, rec, rid))
Scanned-none pid none h = absurd h
Scanned-none pid (some (rc, rec, rid)) h = (rec, rid, rw h refl)

add_one : (n : ℕ) → n + 1 ≡ suc n
add_one n = omega arith

module _ (s : RecordScanner) (b : BufferPool) (p : Page) (att : s.attached ≡ true)
    (at : get_elem? b.pages s.frame ≡ some p) where
  -- Behind the last slot.
  past_end :
      IsConsistent b.replacer
      → find s.next_rid.page_id b.dir ≡ some s.frame
      → Bitmap.first_after b.head.bitmap true s.next_rid.page_id ≡ some none
      → contain s.rp p.buffer s.next_rid ≡ out_of_range
      → Exhausted s b
  unfolding next has_next page_has_next RecordPage.has_next next_pid_after
  past_end lru here last c =
      let (r, lru', e) = unpin-released b s.next_rid.page_id s.frame p lru here at in
      (
        empty_record,
        s.next_rid,
        s,
        record b { pages = set b.pages s.frame (released p); replacer = r },
        ground (arith, att, at, c, last, e),
      )

  -- Before slots that are all deleted.
  all_deleted :
      IsValid s.rp p.buffer
      → live s.next_rid.slot_id (drop s.next_rid.slot_id (contents s.rp p.buffer)) ≡ none
      → contain s.rp p.buffer s.next_rid ≡ record_is_deleted
      → Exhausted s b
  unfolding next has_next page_has_next RecordPage.has_next attach page_next
  all_deleted v none_left c =
      let (rec, rid, e) = Scanned-none s.next_rid.page_id _ (
        subst
          (λ o.
            Scanned s.next_rid.page_id o
              (RecordPage.next (suc (length s.rp.rec_idx)) s.rp p.buffer s.next_rid empty_record))
          none_left
          (next_lem (length s.rp.rec_idx) s.rp p.buffer s.next_rid.page_id s.next_rid.slot_id
            empty_record v (omega arith))) in
      (
        rec,
        record rid { slot_id = rid.slot_id - 1 },
        record s { next_rid = rid },
        b,
        ground (arith, att, at, c, e, add_one (length s.rp.rec_idx)),
      )

  -- With no record left on the last page, `next` returns OUT_OF_RANGE.
  pub next-Exhausted :
      IsConsistent b.replacer
      → find s.next_rid.page_id b.dir ≡ some s.frame
      → Bitmap.first_after b.head.bitmap true s.next_rid.page_id ≡ some none
      → IsValid s.rp p.buffer
      → live s.next_rid.slot_id (drop s.next_rid.slot_id (contents s.rp p.buffer)) ≡ none
      → Exhausted s b
  next-Exhausted lru here last v none_left =
      let slots = contents s.rp p.buffer in
      let slot = s.next_rid.slot_id in
      elim (Option-cases (get_elem? slots slot)) [
        | inl e ↦
            past_end lru here last (contain_refines s.rp p.buffer s.next_rid v ∙ ap contained e)
        | inr ((true, r), e) ↦
            all_deleted v none_left (contain_refines s.rp p.buffer s.next_rid v ∙ ap contained e)
        | inr ((false, r), e) ↦ absurd (ground (arith, none_left, drop-get slots slot e))
      ]
