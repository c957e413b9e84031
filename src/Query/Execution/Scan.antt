-- ===== src/Query/Execution/Scan.antt =====
-- src/execution/seqscan_executer.hpp: the rows of a table of one page.
use tadis.Prelude.{
  ℕ, zero, suc, ◌+◌, ◌≤◌, ◌<◌, ◌≡◌, refl, Option, true, false, some, none, List, [], ◌∷◌, length,
  get_elem?, drop, arith, Option-cases, inl, inr,
}
use tadis.Common.Rc.{success, out_of_range}
use tadis.Common.Bitmap
use tadis.Common.TextMap.{lookup, update}
use tadis.Common.TextMap.Laws.{lookup-update, eq_text_refl}
use tadis.Storage.Def.{Page}
use tadis.Storage.Replacer.Refine.{IsConsistent}
use tadis.Storage.RecordPage.Layout.{IsValid}
use tadis.Storage.RecordPage.Slots.{Slot, contents}
use tadis.Storage.RecordPage.Scan.{live, get_elem?-in, drop-get, drop-past}
use tadis.Storage.BufferPool.{BufferPool, find}
use tadis.Storage.Scanner.{RecordScanner}
use tadis.Storage.Scanner.Page.{next-live}
use tadis.Storage.Scanner.Last.{next-Exhausted}
use tadis.Catalog.Tables.{on_heap}
use tadis.Query.Execution.{Tuple, Running, scan_next}
use tadis.Query.Execution.Rows.{Yields, stop, more}

-- The records that are not deleted.
abbrev pub stored : List Slot → List (List ℕ)
stored [] = []
stored ((true, bytes) ∷ slots) = stored slots
stored ((false, bytes) ∷ slots) = bytes ∷ stored slots

stored-live :
    (m n : ℕ) (c : List Slot)
    → length c ≤ n + m
    → (k : ℕ) (bytes : List ℕ) → live n (drop n c) ≡ some (k, bytes)
    → (n ≤ k) × (k < length c) × (stored (drop n c) ≡ bytes ∷ stored (drop (k + 1) c))
stored-live zero n c h k bytes e = elim (Option-cases (get_elem? c n)) [
  | inl past ↦ absurd (ground (arith, e, drop-past c n past))
  | inr (x, at) ↦ absurd (omega (arith, get_elem?-in c n at))
]
stored-live (suc m) n c h k bytes e = elim (Option-cases (get_elem? c n)) [
  | inl past ↦ absurd (ground (arith, e, drop-past c n past))
  | inr ((true, b), at) ↦
      let (le, lt, same) =
        stored-live m (n + 1) c (omega arith) k bytes (ground (arith, e, drop-get c n at)) in
      (omega arith, lt, rw (drop-get c n at) same)
  | inr ((false, b), at) ↦
      let found : ◌≡◌ {A = Option (ℕ × List ℕ)} (some (n, b)) (some (k, bytes)) =
        rw (drop-get c n at) at e in
      let n_is : n ≡ k = ground (arith, found) in
      let b_is : b ≡ bytes = ground (arith, found) in
      (
        omega (arith, n_is),
        omega (arith, n_is, get_elem?-in c n at),
        rw (drop-get c n at, n_is, b_is) refl,
      )
]

stored-none : (n : ℕ) (c : List Slot) → live n c ≡ none → stored c ≡ []
stored-none n [] e = refl
stored-none n ((true, b) ∷ c) e = stored-none (n + 1) c e
stored-none n ((false, b) ∷ c) e = absurd (cc)

-- The scan stands on the last page of the table, which is valid.
pub record OnLast (name : List ℕ) (w : Running) (s : RecordScanner) (heap : BufferPool) (p : Page)
    : Type 0 where
  pub scanning : w.scanner ≡ some s
  pub held : lookup name w.catalog.heaps ≡ some heap
  pub attached : s.attached ≡ true
  pub page : get_elem? heap.pages s.frame ≡ some p
  pub valid : IsValid s.rp p.buffer
  pub here : find s.next_rid.page_id heap.dir ≡ some s.frame
  pub lru : IsConsistent heap.replacer
  pub last : Bitmap.first_after heap.head.bitmap true s.next_rid.page_id ≡ some none

module _ (name : List ℕ) where
  scan_row :
      (w : Running) (s : RecordScanner) (heap : BufferPool) (p : Page) (n : ℕ) (bytes : List ℕ)
      → OnLast name w s heap p
      → live s.next_rid.slot_id (drop s.next_rid.slot_id (contents s.rp p.buffer)) ≡ some (n, bytes)
      → (w' : Running) × ((t : Tuple)
          → (t' : Tuple) × (scan_next name t w ≡ some ((success, t'), w')) × (t'.bytes ≡ bytes))
        × OnLast name w'
            (record s { next_rid = record { page_id = s.next_rid.page_id; slot_id = n + 1 } })
            heap
            p
  unfolding scan_next on_heap
  scan_row w s heap p n bytes o e =
      let s' : RecordScanner = record s {
        next_rid = record { page_id = s.next_rid.page_id; slot_id = n + 1 };
      } in
      let step = next-live s heap p n bytes o.attached o.page o.valid e in
      (
        record {
          catalog = record w.catalog { heaps = update name heap w.catalog.heaps };
          scanner = some s';
        },
        λ t. (
          record { bytes = bytes; rid = record { page_id = s.next_rid.page_id; slot_id = n } },
          ground (arith, o.scanning, o.held, step),
          refl,
        ),
        record {
          scanning = refl;
          held =
              ground
                (arith, lookup-update name name heap w.catalog.heaps, eq_text_refl name, o.held);
          attached = o.attached;
          page = o.page;
          valid = o.valid;
          here = o.here;
          lru = o.lru;
          last = o.last;
        },
      )

  scan_end :
      (w : Running) (s : RecordScanner) (heap : BufferPool) (p : Page)
      → OnLast name w s heap p
      → live s.next_rid.slot_id (drop s.next_rid.slot_id (contents s.rp p.buffer)) ≡ none
      → (w' : Running) × ((t : Tuple)
          → (t' : Tuple) × (scan_next name t w ≡ some ((out_of_range, t'), w')))
  unfolding scan_next on_heap
  scan_end w s heap p o e =
      let (rec, rid, s', heap', ran) =
        next-Exhausted s heap p o.attached o.page o.lru o.here o.last o.valid e in
      (
        record {
          catalog = record w.catalog { heaps = update name heap' w.catalog.heaps };
          scanner = some s';
        },
        λ t. (t, ground (arith, o.scanning, o.held, ran)),
      )

  scan_from :
      (m : ℕ) (w : Running) (s : RecordScanner) (heap : BufferPool) (p : Page)
      → OnLast name w s heap p
      → length (contents s.rp p.buffer) ≤ s.next_rid.slot_id + m
      → (w' : Running) × Yields
          (scan_next name)
          w
          (stored (drop s.next_rid.slot_id (contents s.rp p.buffer)))
          w'
  scan_from zero w s heap p o h =
      let slots = contents s.rp p.buffer in
      elim (Option-cases (live s.next_rid.slot_id (drop s.next_rid.slot_id slots))) [
        | inl e ↦
            let (w', ended) = scan_end w s heap p o e in
            (w', rw (stored-none s.next_rid.slot_id (drop s.next_rid.slot_id slots) e) (stop ended))
        | inr ((n, bytes), e) ↦
            let (le, lt, same) = stored-live zero s.next_rid.slot_id slots h n bytes e in
            absurd (omega arith)
      ]
  scan_from (suc m) w s heap p o h =
      let slots = contents s.rp p.buffer in
      elim (Option-cases (live s.next_rid.slot_id (drop s.next_rid.slot_id slots))) [
        | inl e ↦
            let (w', ended) = scan_end w s heap p o e in
            (w', rw (stored-none s.next_rid.slot_id (drop s.next_rid.slot_id slots) e) (stop ended))
        | inr ((n, bytes), e) ↦
            let (w1, row, o1) = scan_row w s heap p n bytes o e in
            let (le, lt, same) = stored-live (suc m) s.next_rid.slot_id slots h n bytes e in
            let (w2, later) = scan_from m w1 _ heap p o1 (omega arith) in
            (w2, rw same (more row later))
      ]

  -- The executor of a scan that stands on the last page of its table yields the records from its
  -- slot on that are not deleted, in the order of their slots, and no others.
  pub scan_next-Yields :
      (w : Running) (s : RecordScanner) (heap : BufferPool) (p : Page)
      → OnLast name w s heap p
      → (w' : Running) × Yields
          (scan_next name)
          w
          (stored (drop s.next_rid.slot_id (contents s.rp p.buffer)))
          w'
  scan_next-Yields w s heap p o =
      scan_from (length (contents s.rp p.buffer)) w s heap p o (omega arith)
