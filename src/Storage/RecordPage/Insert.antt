-- ===== src/Storage/RecordPage/Insert.antt =====
-- src/storage/bufferpool/record.hpp: `RecordPage::insert`, on the layout of the page and its header.
use tadis.Prelude.{
  ℕ, ◌+◌, ◌-◌, ◌*◌, ◌≤◌, ◌<◌, ◌≡◌, refl, ◌∙◌, none, some, List, [], ◌∷◌, ◌++◌, arith, length,
  length-append, ltb, if◌then◌else◌,
}
use tadis.Prelude.Memory.{read_at}
use tadis.Storage.Def.{Rid, page_size, sub_size}
use tadis.Storage.RecordPage.{RecordPage, write_head, write_record, insert}
use tadis.Storage.RecordPage.Layout.{
  IsValid, Layout-le, Layout-append, Rows-append, Rows-write_head, Rows-write_record,
  read_at-write_head, read_at-write_head_above, read_at-write_record, read_at-write_record_above,
  length-write_head, length-write_record, enough_iff,
}

-- The state after a record that fits, with the subtraction written out.
pub record Fits (rp : RecordPage) (bytes : List ℕ) : Type 0 where
  pub start : ℕ
  pub below : start + 1 + length bytes ≡ rp.free_addr_end
  pub header : 8 * (4 + length rp.rec_idx) < start

abbrev pub inserted : RecordPage → ℕ → RecordPage
inserted rp start = record {
  free_addr_start = rp.free_addr_start + 1;
  free_addr_end = start;
  rec_idx_count = rp.rec_idx_count + 1;
  rec_idx = rp.rec_idx ++ (start ∷ []);
}

abbrev pub written : RecordPage → List ℕ → Rid → ℕ → List ℕ → List ℕ
written rp buf rid start bytes =
    write_head (inserted rp start) (write_record buf start bytes) rid start

abbrev pub rid_of : RecordPage → ℕ → Rid
rid_of rp pid = record { page_id = pid; slot_id = length rp.rec_idx }

module _ (rp : RecordPage) (buf : List ℕ) (pid : ℕ) (bytes : List ℕ) (v : IsValid rp buf) where
  end-le : rp.free_addr_end ≤ page_size
  end-le = Layout-le page_size rp.rec_idx rp.free_addr_end v.layout

  -- A record shorter than the free space is inserted exactly if it fits, and otherwise nothing
  -- changes.
  pub insert_cases :
      length bytes < rp.free_addr_end
      → insert rp buf pid bytes ≡ (
          if ltb (8 * (4 + length rp.rec_idx) + length bytes + 1) rp.free_addr_end
          then (
            some (rid_of rp pid),
            inserted rp (rp.free_addr_end - length bytes - 1),
            written rp buf (rid_of rp pid) (rp.free_addr_end - length bytes - 1) bytes,
          )
          else (none, rp, buf))
  unfolding insert
  insert_cases h =
      let start : sub_size (sub_size rp.free_addr_end (length bytes)) 1
          ≡ rp.free_addr_end - length bytes - 1 =
        omega (arith, end-le) in
      rw (enough_iff rp (length bytes) h end-le, start) refl

  -- `insert` keeps the page valid.
  pub written-IsValid :
      (f : Fits rp bytes)
      → IsValid (inserted rp f.start) (written rp buf (rid_of rp pid) f.start bytes)
  written-IsValid f =
      let rid = rid_of rp pid in
      let rp' = inserted rp f.start in
      let buf' = write_record buf f.start bytes in
      let (head_start, head_end, head_count, head_idx) =
        read_at-write_head rp' buf' rid f.start
          (rw length-write_record (omega (arith, v.size, end-le, f.header, f.below))) in
      record {
        size =
            length-write_head rp' buf' rid f.start ∙ length-write_record buf f.start bytes ∙ v.size;
        layout =
            Layout-append page_size rp.rec_idx rp.free_addr_end f.start v.layout
              (omega (arith, f.below));
        room = omega (arith, length-append rp.rec_idx (f.start ∷ []), f.header);
        counted = omega (arith, length-append rp.rec_idx (f.start ∷ []), v.counted);
        started = omega (arith, length-append rp.rec_idx (f.start ∷ []), v.started);
        on_disk_start = head_start;
        on_disk_end = head_end;
        on_disk_count = head_count;
        on_disk_idx =
            Rows-append (written rp buf rid f.start bytes) 3 rp.rec_idx f.start
              (Rows-write_head rp' buf' rid f.start rp.rec_idx refl (
                Rows-write_record buf f.start bytes 3 rp.rec_idx (omega (arith, f.header))
                  v.on_disk_idx))
              head_idx;
      }

  -- What lies above the free space is not touched.
  pub read_at-written :
      (f : Fits rp bytes) (o n : ℕ)
      → rp.free_addr_end ≤ o
      → read_at (written rp buf (rid_of rp pid) f.start bytes) o n ≡ read_at buf o n
  read_at-written f o n h =
      read_at-write_head_above (inserted rp f.start) (write_record buf f.start bytes)
        (rid_of rp pid) f.start o n (omega (arith, f.header, f.below))
      ∙ read_at-write_record_above buf f.start bytes o n (omega (arith, f.below))

  pub read_at-written_record :
      (f : Fits rp bytes)
      → (read_at (written rp buf (rid_of rp pid) f.start bytes) f.start 1 ≡ 0 ∷ [])
        × (read_at (written rp buf (rid_of rp pid) f.start bytes) (f.start + 1) (length bytes)
            ≡ bytes)
  read_at-written_record f =
      let (mark, body) =
        read_at-write_record buf f.start bytes (omega (arith, v.size, end-le, f.below)) in
      (
        read_at-write_head_above (inserted rp f.start) (write_record buf f.start bytes)
              (rid_of rp pid) f.start f.start 1 (omega (arith, f.header))
            ∙ mark,
        read_at-write_head_above (inserted rp f.start) (write_record buf f.start bytes)
              (rid_of rp pid) f.start (f.start + 1) (length bytes) (omega (arith, f.header))
            ∙ body,
      )
