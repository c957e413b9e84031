-- ===== src/Storage/Scanner/Page.antt =====
-- src/storage/bufferpool/record.hpp: the steps of `RecordScanner` inside one page.
use tadis.Prelude.{
  ℕ, suc, ◌+◌, ◌≡◌, refl, subst, ap, ◌∙◌, Option, true, false, some, none, List, length, get_elem?,
  drop, arith, Option-cases, inl, inr,
}
use tadis.Common.Rc.{Rc, success}
use tadis.Storage.Def.{Rid, Page}
use tadis.Storage.RecordPage
use tadis.Storage.RecordPage.{Record, contain, empty_record}
use tadis.Storage.RecordPage.Layout.{IsValid}
use tadis.Storage.RecordPage.Slots.{contents, contained, contain_refines}
use tadis.Storage.RecordPage.Scan.{Scanned, live, next_lem, drop-past}
use tadis.Storage.BufferPool.{BufferPool}
use tadis.Storage.Scanner.{RecordScanner, has_next, next, page_next, page_has_next, attach}

abbrev pub record_at : ℕ → ℕ → List ℕ → Record
record_at pid n bytes = record {
  is_deleted = false;
  rid = record { page_id = pid; slot_id = n };
  bytes = bytes;
}

Scanned-some :
    (pid n : ℕ) (bytes : List ℕ) (o : Option (Rc × Record × Rid))
    → Scanned pid (some (n, bytes)) o
    → o ≡ some (success, record_at pid n bytes, record { page_id = pid; slot_id = n + 1 })
Scanned-some pid n bytes none h = absurd h
Scanned-some pid n bytes (some (rc, rec, rid)) (a, b, c) = rw (a, b, c) refl

add_one : (n : ℕ) → n + 1 ≡ suc n
add_one n = omega arith

module _ (s : RecordScanner) (b : BufferPool) (p : Page) (n : ℕ) (bytes : List ℕ)
    (att : s.attached ≡ true) (at : get_elem? b.pages s.frame ≡ some p) (v : IsValid s.rp p.buffer)
    (found : live s.next_rid.slot_id (drop s.next_rid.slot_id (contents s.rp p.buffer))
      ≡ some (n, bytes)) where
  more : RecordPage.has_next s.rp p.buffer s.next_rid ≡ true
  unfolding RecordPage.has_next
  more = elim (Option-cases (get_elem? (contents s.rp p.buffer) s.next_rid.slot_id)) [
    | inl e ↦
        absurd (ground (arith, found, drop-past (contents s.rp p.buffer) s.next_rid.slot_id e))
    | inr ((true, r), e) ↦
        let c = contain_refines s.rp p.buffer s.next_rid v ∙ ap contained e in ground (arith, c)
    | inr ((false, r), e) ↦
        let c = contain_refines s.rp p.buffer s.next_rid v ∙ ap contained e in ground (arith, c)
  ]

  page_found :
      RecordPage.next (length s.rp.rec_idx + 1) s.rp p.buffer s.next_rid empty_record
      ≡ some (
        success,
        record_at s.next_rid.page_id n bytes,
        record { page_id = s.next_rid.page_id; slot_id = n + 1 },
      )
  page_found = rw (add_one (length s.rp.rec_idx)) (
      Scanned-some s.next_rid.page_id n bytes _ (
        subst
          (λ o.
            Scanned s.next_rid.page_id o
              (RecordPage.next (suc (length s.rp.rec_idx)) s.rp p.buffer s.next_rid empty_record))
          found
          (next_lem (length s.rp.rec_idx) s.rp p.buffer s.next_rid.page_id s.next_rid.slot_id
            empty_record v (omega arith))))

  -- Where the page under the scanner holds a record that is not deleted from `next_rid_` on,
  -- `next` returns SUCCESS with the first such record and its id, moves behind it, and leaves the
  -- pool as it is.
  pub next-live :
      next s b
      ≡ some (
        (
          (
            success,
            record_at s.next_rid.page_id n bytes,
            record { page_id = s.next_rid.page_id; slot_id = n },
          ),
          record s { next_rid = record { page_id = s.next_rid.page_id; slot_id = n + 1 } },
        ),
        b,
      )
  unfolding next has_next page_has_next attach page_next
  next-live = ground (arith, att, at, more, page_found)
