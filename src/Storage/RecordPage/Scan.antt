-- ===== src/Storage/RecordPage/Scan.antt =====
-- `PageRecordScanner`: the next record that is not deleted.
use tadis.Prelude.{
  ℕ, zero, suc, ◌+◌, ◌≤◌, ◌<◌, ◌≡◌, refl, ap, ap₂, ◌∙◌, true, false, Option, none, some, List, [],
  ◌∷◌, arith, length, get_elem?, drop,
}
use tadis.Common.Rc.{Rc, success, out_of_range, record_is_deleted}
use tadis.Storage.Def.{Rid, page_size}
use tadis.Storage.RecordPage.{RecordPage, Record, get, contain, next}
use tadis.Storage.RecordPage.Layout.{IsValid}
use tadis.Storage.RecordPage.Slots.{
  Slot, contents, got, contained, get_refines, contain_refines, length-slots,
}

-- The first slot from number `n` on that is not deleted.
abbrev pub live : ℕ → List Slot → Option (ℕ × List ℕ)
live n [] = none
live n ((true, bytes) ∷ s) = live (n + 1) s
live n ((false, bytes) ∷ s) = some (n, bytes)

abbrev pub Scanned : ℕ → Option (ℕ × List ℕ) → Option (Rc × Record × Rid) → Type 0
Scanned pid o none = ⊥
Scanned pid none (some (rc, rec, rid)) = rc ≡ out_of_range
Scanned pid (some (n, bytes)) (some (rc, rec, rid)) =
    (rc ≡ success)
    × (rec
        ≡ record { is_deleted = false; rid = record { page_id = pid; slot_id = n }; bytes = bytes })
    × (rid ≡ record { page_id = pid; slot_id = n + 1 })

pub drop-get :
    (s : List Slot) (i : ℕ) {x : Slot} → get_elem? s i ≡ some x → drop i s ≡ x ∷ drop (i + 1) s
drop-get [] i e = cc
drop-get (y ∷ s) zero {x} e = ap₂ ◌∷◌ (ground arith) refl
drop-get (y ∷ s) (suc i) {x} e =
    let next : i + 1 ≡ suc i = omega arith in
    let deeper : suc i + 1 ≡ suc (suc i) = omega arith in drop-get s i e ∙ rw (next, deeper) refl

pub drop-past : (s : List Slot) (i : ℕ) → get_elem? s i ≡ none → drop i s ≡ []
drop-past [] zero e = refl
drop-past [] (suc i) e = refl
drop-past (y ∷ s) zero e = cc
drop-past (y ∷ s) (suc i) e = drop-past s i e

pub get_elem?-in : (s : List Slot) (i : ℕ) {x : Slot} → get_elem? s i ≡ some x → i < length s
get_elem?-in [] i e = cc
get_elem?-in (y ∷ s) zero e = omega arith
get_elem?-in (y ∷ s) (suc i) e = omega (arith, get_elem?-in s i e)

module _ (rp : RecordPage) (buf : List ℕ) (rec : Record) (rid : Rid) where
  next-past :
      (fuel : ℕ)
      → contain rp buf rid ≡ out_of_range
      → next (suc fuel) rp buf rid rec ≡ some (out_of_range, (get rp buf rec rid).1, rid)
  unfolding next
  next-past fuel c = rw (c, next) refl

  next-success :
      (fuel : ℕ)
      → contain rp buf rid ≡ success
      → next (suc fuel) rp buf rid rec
        ≡ some (success, (get rp buf rec rid).1, record rid { slot_id = rid.slot_id + 1 })
  unfolding next
  next-success fuel c = rw (c, next) refl

  next-deleted :
      (fuel : ℕ)
      → contain rp buf rid ≡ record_is_deleted
      → next (suc fuel) rp buf rid rec
        ≡ next fuel rp buf (record rid { slot_id = rid.slot_id + 1 }) (get rp buf rec rid).1
  unfolding next
  next-deleted fuel c = rw (c, next) refl

module _ (rp : RecordPage) (buf : List ℕ) (pid slot : ℕ) (rec : Record) (v : IsValid rp buf)
    (fuel : ℕ) where
  here : Rid
  here = record { page_id = pid; slot_id = slot }

  next_cases :
      (o : Option Slot)
      → get_elem? (contents rp buf) slot ≡ o
      → (slot < length rp.rec_idx
          → Scanned pid (live (slot + 1) (drop (slot + 1) (contents rp buf))) (
              next fuel rp buf
                (record { page_id = pid; slot_id = slot + 1 })
                (get rp buf rec here).1))
      → Scanned pid (live slot (drop slot (contents rp buf))) (next (suc fuel) rp buf here rec)
  unfolding here
  next_cases none e later =
      let past = contain_refines rp buf here v ∙ ap contained e in
      rw (drop-past (contents rp buf) slot e, next-past rp buf rec here fuel past) refl
  next_cases (some (false, bytes)) e later =
      let found = contain_refines rp buf here v ∙ ap contained e in
      rw (drop-get (contents rp buf) slot e, next-success rp buf rec here fuel found)
        (refl, ap (λ p. p.1) (get_refines rp buf rec here v ∙ ap (got rec here) e), refl)
  next_cases (some (true, bytes)) e later =
      let deleted = contain_refines rp buf here v ∙ ap contained e in
      let inside = get_elem?-in (contents rp buf) slot e in
      rw (drop-get (contents rp buf) slot e, next-deleted rp buf rec here fuel deleted)
        (later (omega (arith, length-slots buf page_size rp.rec_idx)))

-- On a valid page and with fuel for the slots that are left and one more, `next` returns the
-- first record from `next_rid_` on that is not deleted, with its number, and moves behind it; if
-- there is none it returns OUT_OF_RANGE.
pub next_lem :
    (fuel : ℕ) (rp : RecordPage) (buf : List ℕ) (pid slot : ℕ) (rec : Record)
    → IsValid rp buf
    → length rp.rec_idx ≤ slot + fuel
    → Scanned pid
        (live slot (drop slot (contents rp buf)))
        (next (suc fuel) rp buf (record { page_id = pid; slot_id = slot }) rec)
unfolding here
next_lem zero rp buf pid slot rec v h =
    next_cases rp buf pid slot rec v zero (get_elem? (contents rp buf) slot) refl
      (λ inside. absurd (omega arith))
next_lem (suc fuel) rp buf pid slot rec v h =
    next_cases rp buf pid slot rec v (suc fuel) (get_elem? (contents rp buf) slot) refl
      (λ inside. next_lem fuel rp buf pid (slot + 1) _ v (omega arith))
