-- ===== src/Json/Objects/Laws.antt =====
-- src/json/json_value.hpp: `Object` as a map from names to values.
use tadis.Prelude.{
  ℕ, ◌≡◌, inl, inr, refl, true, false, none, some, List, [], ◌∷◌, arith, if◌then◌else◌, Bool-cases,
  Option-cases,
}
use tadis.Common.TextMap.{eq_text, less_text}
use tadis.Common.TextMap.Laws.{eq_text_refl, eq_text_sound, eq_text_comm}
use tadis.Json.Value.{
  Value, Fields, object, end, field, object_at, object_has, object_place, object_insert,
  object_erase, insert, at, erase,
}
use tadis.Json.Objects.{IsSorted, Above}

less_text_trans :
    (a b c : List ℕ) → less_text a b ≡ true → less_text b c ≡ true → less_text a c ≡ true
unfolding less_text
less_text_trans [] [] c h k = absurd (cc)
less_text_trans [] (y ∷ b) [] h k = absurd (cc)
less_text_trans [] (y ∷ b) (z ∷ c) h k = refl
less_text_trans (x ∷ a) [] c h k = absurd (cc)
less_text_trans (x ∷ a) (y ∷ b) [] h k = absurd (cc)
less_text_trans (x ∷ a) (y ∷ b) (z ∷ c) h k = ground (arith, less_text_trans a b c)

less_text_total :
    (a b : List ℕ) → less_text a b ≡ false → eq_text b a ≡ false → less_text b a ≡ true
unfolding less_text eq_text
less_text_total [] [] h k = absurd (cc)
less_text_total [] (y ∷ b) h k = absurd (cc)
less_text_total (x ∷ a) [] h k = refl
less_text_total (x ∷ a) (y ∷ b) h k = ground (arith, less_text_total a b)

module _ {N : Type 0} where
  Above-less : (k j : List ℕ) (fs : Fields N) → less_text k j ≡ true → Above j fs → Above k fs
  Above-less k j end h a = tt
  Above-less k j (field i w fs) h a = (less_text_trans k j i h a.0, Above-less k j fs h a.1)

  Above-object_place :
      (i k : List ℕ) (v : Value N) (fs : Fields N)
      → less_text i k ≡ true
      → Above i fs
      → Above i (object_place k v fs)
  unfolding object_place
  Above-object_place i k v end h a = (h, tt)
  Above-object_place i k v (field j w fs) h a = elim (Bool-cases (less_text k j)) [
    | inl before ↦ rw before (h, a)
    | inr behind ↦ rw behind (a.0, Above-object_place i k v fs h a.1)
  ]

  IsSorted-object_place :
      (k : List ℕ) (v : Value N) (fs : Fields N)
      → object_at k fs ≡ none
      → IsSorted fs
      → IsSorted (object_place k v fs)
  unfolding object_place object_at
  IsSorted-object_place k v end gone s = (tt, tt)
  IsSorted-object_place k v (field j w fs) gone s = elim (Bool-cases (less_text k j)) [
    | inl before ↦ rw before ((before, Above-less k j fs before s.0), s)
    | inr behind ↦
        let apart : eq_text j k ≡ false = ground arith in
        let after : less_text j k ≡ true = less_text_total k j behind apart in
        rw behind
          (Above-object_place j k v fs after s.0, IsSorted-object_place k v fs (ground arith) s.1)
  ]

  at_place :
      (j k : List ℕ) (v : Value N) (fs : Fields N)
      → object_at k fs ≡ none
      → object_at j (object_place k v fs) ≡ (if eq_text k j then some v else object_at j fs)
  unfolding object_at object_place
  at_place j k v end gone = refl
  at_place j k v (field i w fs) gone = ground (
    arith,
    at_place j k v fs,
    eq_text_sound i j,
    eq_text_sound k j,
    eq_text_comm k i,
    eq_text_refl k,
    eq_text_refl j,
  )

  -- `insert` into an object with its names in order returns, and the names stay in order. A name
  -- that is there keeps its value; otherwise the new name has the new value, and every other name
  -- has what it had.
  pub at-insert :
      (j k : List ℕ) (v : Value N) (fs : Fields N)
      → IsSorted fs
      → (fs' : Fields N) × (insert k v (object fs) ≡ some (object fs'))
        × IsSorted fs'
        × (at j (object fs') ≡ (
            if object_has k fs
            then at j (object fs)
            else if eq_text k j
            then some v
            else at j (object fs)))
  unfolding insert at object_insert
  at-insert j k v fs s = elim (Option-cases (object_at k fs)) [
    | inl gone ↦ (
      object_place k v fs,
      ground arith,
      IsSorted-object_place k v fs gone s,
      ground (arith, at_place j k v fs gone),
    )
    | inr (w, there) ↦ (fs, ground arith, s, ground arith)
  ]

  Above-object_erase : (i k : List ℕ) (fs : Fields N) → Above i fs → Above i (object_erase k fs)
  unfolding object_erase
  Above-object_erase i k end a = tt
  Above-object_erase i k (field j w fs) a = elim (Bool-cases (eq_text j k)) [
    | inl same ↦ rw same (Above-object_erase i k fs a.1)
    | inr other ↦ rw other (a.0, Above-object_erase i k fs a.1)
  ]

  IsSorted-object_erase : (k : List ℕ) (fs : Fields N) → IsSorted fs → IsSorted (object_erase k fs)
  unfolding object_erase
  IsSorted-object_erase k end s = tt
  IsSorted-object_erase k (field j w fs) s = elim (Bool-cases (eq_text j k)) [
    | inl same ↦ rw same (IsSorted-object_erase k fs s.1)
    | inr other ↦ rw other (Above-object_erase j k fs s.0, IsSorted-object_erase k fs s.1)
  ]

  at_erased :
      (j k : List ℕ) (fs : Fields N)
      → object_at j (object_erase k fs) ≡ (if eq_text k j then none else object_at j fs)
  unfolding object_at object_erase
  at_erased j k end = ground arith
  at_erased j k (field i w fs) = ground (
    arith,
    at_erased j k fs,
    eq_text_sound i j,
    eq_text_sound i k,
    eq_text_comm i k,
    eq_text_refl j,
  )

  -- `erase` from an object with its names in order returns, and the names stay in order. The name
  -- is no longer there, and every other name has what it had.
  pub at-erase :
      (j k : List ℕ) (fs : Fields N)
      → IsSorted fs
      → (fs' : Fields N) × (erase k (object fs) ≡ some (object fs'))
        × IsSorted fs'
        × (at j (object fs') ≡ (if eq_text k j then none else at j (object fs)))
  unfolding erase at
  at-erase j k fs s = (object_erase k fs, refl, IsSorted-object_erase k fs s, at_erased j k fs)
