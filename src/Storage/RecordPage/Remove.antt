-- ===== src/Storage/RecordPage/Remove.antt =====
-- src/storage/bufferpool/record.hpp: `RecordPage::remove`.
use tadis.Prelude.{
  ℕ, zero, suc, ◌+◌, ◌-◌, ◌≤◌, ◌<◌, ◌≡◌, refl, ap, ap₂, ◌∙◌, true, List, [], ◌∷◌, arith, length,
  get_elem?, get_or, ◌==◌, inl, inr, none, ◌↔◌,
}
use tadis.Prelude.Memory.{
  read_at, write_at, of_bytes, length-write_at, read_at-write_at, read_at-write_at_below,
  read_at-write_at_above,
}
use tadis.Storage.Def.{Rid, page_size}
use tadis.Storage.RecordPage.{RecordPage, read_char, remove}
use tadis.Storage.RecordPage.Layout.{IsValid, Layout, Rows-write_above}
use tadis.Storage.RecordPage.Slots.{Slot, slot_at, slots, contents, Layout-get, misses-cases}

abbrev pub mark : ℕ → List Slot → List Slot
mark slot [] = []
mark zero ((b, bytes) ∷ s) = (true, bytes) ∷ s
mark (suc slot) (x ∷ s) = x ∷ mark slot s

module _ (buf : List ℕ) (off : ℕ) where
  slot_at-above :
      (hi x : ℕ) → off + 1 ≤ x → slot_at (write_at buf off (1 ∷ [])) hi x ≡ slot_at buf hi x
  unfolding read_char
  slot_at-above hi x h =
      let marked = read_at-write_at_above buf off 1 x (1 ∷ []) h in
      let body = read_at-write_at_above buf off (hi - x - 1) (x + 1) (1 ∷ []) (omega arith) in
      λ i. (of_bytes (marked i) == 1, body i)

  slot_at_self :
      (hi : ℕ)
      → off + 1 ≤ length buf
      → slot_at (write_at buf off (1 ∷ [])) hi off ≡ (true, read_at buf (off + 1) (hi - off - 1))
  unfolding read_char
  slot_at_self hi h =
      let marked = read_at-write_at buf off (1 ∷ []) h in
      let body = read_at-write_at_above buf off (hi - off - 1) (off + 1) (1 ∷ []) (omega arith) in
      λ i. (of_bytes (marked i) == 1, body i)

  slots-below :
      (hi : ℕ) (idx : List ℕ) (lo : ℕ)
      → Layout hi idx lo
      → hi ≤ off
      → slots (write_at buf off (1 ∷ [])) hi idx ≡ slots buf hi idx
  unfolding read_char
  slots-below hi [] lo l h = refl
  slots-below hi (x ∷ idx) lo l h =
      let marked = read_at-write_at_below buf off 1 x (1 ∷ []) (omega arith) in
      let body = read_at-write_at_below buf off (hi - x - 1) (x + 1) (1 ∷ []) (omega arith) in
      ap₂ ◌∷◌ (λ i. (of_bytes (marked i) == 1, body i)) (slots-below x idx lo l.1 (omega arith))

Layout-hi :
    (hi : ℕ) (idx : List ℕ) (lo slot : ℕ)
    → Layout hi idx lo
    → slot < length idx
    → get_or idx slot 0 < hi
Layout-hi hi idx lo slot l h = let (a, b, c) = Layout-get hi idx lo slot l h in omega arith

mark_past : (slot : ℕ) (s : List Slot) → get_elem? s slot ≡ none → s ≡ mark slot s
mark_past slot [] e = refl
mark_past zero (x ∷ s) e = cc
mark_past (suc slot) (x ∷ s) e = ap (◌∷◌ x) (mark_past slot s e)

slots-mark :
    (buf : List ℕ) (hi : ℕ) (idx : List ℕ) (lo slot : ℕ)
    → Layout hi idx lo
    → hi ≤ length buf
    → slot < length idx
    → slots (write_at buf (get_or idx slot 0) (1 ∷ [])) hi idx ≡ mark slot (slots buf hi idx)
slots-mark buf hi [] lo slot l small h = absurd (omega arith)
slots-mark buf hi (x ∷ idx) lo zero l small h =
    ap₂ ◌∷◌ (slot_at_self buf x hi (omega arith)) (slots-below buf x x idx lo l.1 (omega arith))
slots-mark buf hi (x ∷ idx) lo (suc slot) l small h =
    let (a, b, c) = Layout-get hi (x ∷ idx) lo (suc slot) l h in
    let inside = Layout-hi x idx lo slot l.1 (omega arith) in
    ap₂ ◌∷◌ (slot_at-above buf (get_or idx slot 0) hi x (omega arith))
      (slots-mark buf x idx lo slot l.1 (omega arith) (omega arith))

-- On a valid page, `remove` of a number with a slot marks that slot as deleted and keeps its
-- bytes and all other slots; of any other number it returns false and the slots are as before.
-- The page stays valid.
pub page_remove_refines :
    (rp : RecordPage) (buf : List ℕ) (rid : Rid)
    → IsValid rp buf
    → let (done, buf') = remove rp buf rid in
      IsValid rp buf'
      × (contents rp buf' ≡ mark rid.slot_id (contents rp buf))
      × ((done ≡ true) ↔ (rid.slot_id < length rp.rec_idx))
unfolding remove
page_remove_refines rp buf rid v = elim (misses-cases rp buf rid v) [
  | inl (m, e) ↦ rw m (v, mark_past rid.slot_id (contents rp buf) e, (λ p. cc, λ p. ground arith))
  | inr (m, h, e, below, small) ↦
      let target = get_or rp.rec_idx rid.slot_id 0 in
      let (a, b, c) = Layout-get page_size rp.rec_idx rp.free_addr_end rid.slot_id v.layout h in
      rw m (
        record {
          size = length-write_at buf target (1 ∷ []) ∙ v.size;
          layout = v.layout;
          room = v.room;
          counted = v.counted;
          started = v.started;
          on_disk_start =
              read_at-write_at_below buf target 8 0 (1 ∷ []) (omega (arith, v.room))
              ∙ v.on_disk_start;
          on_disk_end =
              read_at-write_at_below buf target 8 8 (1 ∷ []) (omega (arith, v.room))
              ∙ v.on_disk_end;
          on_disk_count =
              read_at-write_at_below buf target 8 16 (1 ∷ []) (omega (arith, v.room))
              ∙ v.on_disk_count;
          on_disk_idx =
              Rows-write_above buf 3 rp.rec_idx target (1 ∷ []) (omega (arith, v.room))
                v.on_disk_idx;
        },
        slots-mark buf page_size rp.rec_idx rp.free_addr_end rid.slot_id v.layout
            (omega (arith, v.size)) h,
        (λ p. h, λ p. refl),
      )
]
