-- ===== src/Common/Bitmap/Laws.antt =====
-- What `BitMap` promises: reads after writes, and the searches.
use tadis.Prelude.{
  ℕ, zero, suc, ◌+◌, ◌-◌, ◌*◌, ◌/◌, ◌%◌, ◌≤◌, ◌<◌, ◌≡◌, ◌≢◌, refl, Bool, true, Option, none, some,
  List, [], ◌∷◌, arith, length, length-set, get_elem?, set, get_elem?-set_self, get_elem?-set_ne,
  leb, ◌==◌, Bool-cases, Option-cases, if◌then◌else◌, inl, inr,
}
use mathlib.Core.Path.{subst}
use mathlib.Core.Logic.{◌↔◌}
use native.Mathlib.Decide.{ℕ_discrete}
use tadis.Common.Bitmap.{test_bit, put_bit, bit_eq, get, set_bit, first_from, first, first_after}
use tadis.Common.Bitmap.Bits.{test_bit-put_bit, put_bit-lt}

abbrev pub IsBytes : List ℕ → Type 0
IsBytes [] = Unit
IsBytes (b ∷ bytes) = (b < 256) × IsBytes bytes

get_elem?-lt :
    (bytes : List ℕ) (i : ℕ) {b : ℕ} → IsBytes bytes → get_elem? bytes i ≡ some b → b < 256
get_elem?-lt [] i v h = cc
get_elem?-lt (x ∷ xs) zero v h = ground arith
get_elem?-lt (x ∷ xs) (suc i) v h = get_elem?-lt xs i v.1 h

set-IsBytes : (bytes : List ℕ) (i b : ℕ) → IsBytes bytes → b < 256 → IsBytes (set bytes i b)
set-IsBytes [] i b v h = tt
set-IsBytes (x ∷ xs) zero b v h = (h, v.1)
set-IsBytes (x ∷ xs) (suc i) b v h = (v.0, set-IsBytes xs i b v.1 h)

get_elem?-in : (bytes : List ℕ) (i : ℕ) {b : ℕ} → get_elem? bytes i ≡ some b → i < length bytes
get_elem?-in [] i h = cc
get_elem?-in (x ∷ xs) zero h = omega arith
get_elem?-in (x ∷ xs) (suc i) h = omega (arith, get_elem?-in xs i h)

get_elem?-none : (bytes : List ℕ) (i : ℕ) → get_elem? bytes i ≡ none → length bytes ≤ i
get_elem?-none [] i h = omega arith
get_elem?-none (x ∷ xs) zero h = cc
get_elem?-none (x ∷ xs) (suc i) h = omega (arith, get_elem?-none xs i h)

-- `get` passes its assertion exactly on the bits of the map.
pub get_total :
    (bytes : List ℕ) (i : ℕ) → i < length bytes * 8 → (b : Bool) × (get bytes i ≡ some b)
unfolding get
get_total bytes i h = elim (Option-cases (get_elem? bytes (i / 8))) [
  | inl e ↦ absurd (omega (arith, get_elem?-none bytes (i / 8) e))
  | inr (ch, e) ↦ (test_bit ch (i % 8), rw (e, get))
]

-- After a `set` within a map of bytes, the bit is read back, every other bit keeps its value,
-- and the map is one of bytes of the same number.
pub get-set_bit :
    (bytes : List ℕ) (idx j : ℕ) (bit : Bool) {bytes' : List ℕ}
    → IsBytes bytes
    → set_bit bytes idx bit ≡ some bytes'
    → (get bytes' j ≡ (if idx == j then some bit else get bytes j))
      × IsBytes bytes'
      × (length bytes' ≡ length bytes)
unfolding get set_bit
get-set_bit bytes idx j bit {bytes'} v h = elim (Option-cases (get_elem? bytes (idx / 8))) [
  | inl e ↦ absurd (ground arith)
  | inr (ch, e) ↦
      let ch' = put_bit ch (idx % 8) bit in
      let written : set bytes (idx / 8) ch' ≡ bytes' = ground arith in
      let small = get_elem?-lt bytes (idx / 8) v e in
      let inside = get_elem?-in bytes (idx / 8) e in
      rw (← written) (
        ground (
          arith,
          get_elem?-set_self bytes (idx / 8) ch' inside,
          get_elem?-set_ne bytes {i = idx / 8} {j = j / 8} ch',
          test_bit-put_bit ch (idx % 8) (j % 8) bit small,
        ),
        set-IsBytes bytes (idx / 8) ch' v (put_bit-lt ch (idx % 8) bit small (omega arith)),
        length-set bytes (idx / 8) ch',
      )
]

-- `first` finds the least bit with the value asked for, or finds that there is none; it does not
-- fail an assertion.
abbrev pub Least : List ℕ → Bool → ℕ → ℕ → Option ℕ → Type 0
Least bytes bit from to none = (j : ℕ) → from ≤ j → j < to → get bytes j ≢ some bit
Least bytes bit from to (some i) =
    (from ≤ i)
    × (i < to)
    × (get bytes i ≡ some bit)
    × ((j : ℕ) → from ≤ j → j < i → get bytes j ≢ some bit)

skip :
    (bytes : List ℕ) (bit : Bool) (i to : ℕ)
    → get bytes i ≢ some bit
    → ((j : ℕ) → i + 1 ≤ j → j < to → get bytes j ≢ some bit)
    → (j : ℕ) → i ≤ j
    → j < to
    → get bytes j ≢ some bit
skip bytes bit i to here later j lo hi = elim (ℕ_discrete i j) [
  | yes e ↦ rw (← e) here
  | no ne ↦ later j (omega arith) hi
]

Least-skip :
    (bytes : List ℕ) (bit : Bool) (i left : ℕ) (o : Option ℕ)
    → get bytes i ≢ some bit
    → Least bytes bit (i + 1) (i + 1 + left) o
    → Least bytes bit i (i + suc left) o
Least-skip bytes bit i left none here l =
    λ j lo hi. skip bytes bit i (i + 1 + left) here l j lo (omega arith)
Least-skip bytes bit i left (some k) here l =
    (omega arith, omega arith, l.2, skip bytes bit i k here l.3)

bit_eq_iff : (a b : Bool) → (bit_eq a b ≡ true) ↔ (a ≡ b)
bit_eq_iff a b = ground arith

first_from-Least :
    (bytes : List ℕ) (bit : Bool) (i left : ℕ)
    → i + left ≤ length bytes * 8
    → (o : Option ℕ) × (first_from bytes bit i left ≡ some o) × Least bytes bit i (i + left) o
unfolding first_from
first_from-Least bytes bit i zero h = (none, refl, λ j lo hi. absurd (omega arith))
first_from-Least bytes bit i (suc left) h =
    let (b, e) = get_total bytes i (omega arith) in
    let (o, r, l) = first_from-Least bytes bit (i + 1) left (omega arith) in
    elim (Bool-cases (bit_eq b bit)) [
      | inl same ↦ (
        some i,
        rw (e, first_from) (rw same refl),
        (
          omega arith,
          omega arith,
          ground (arith, bit_eq_iff b bit),
          λ j lo hi. absurd (omega arith),
        ),
      )
      | inr other ↦ (
        o,
        rw (e, first_from) (rw (other, r)),
        Least-skip bytes bit i left o (λ found. ground (arith, bit_eq_iff b bit)) l,
      )
    ]

-- `first` fails no assertion, and returns the least index whose bit has the value, or nothing if
-- no bit of the map has it.
pub first_lem :
    (bytes : List ℕ) (bit : Bool)
    → (o : Option ℕ) × (first bytes bit ≡ some o) × Least bytes bit 0 (length bytes * 8) o
unfolding first
first_lem bytes bit =
    let (o, r, l) = first_from-Least bytes bit 0 (length bytes * 8) (omega arith) in
    (o, r, subst (λ n. Least bytes bit 0 n o) (omega arith) l)

-- `first_after` fails no assertion, and returns the least index above `cur_idx` whose bit has
-- the value, or nothing if there is none.
pub first_after_lem :
    (bytes : List ℕ) (bit : Bool) (cur_idx : ℕ)
    → (o : Option ℕ) × (first_after bytes bit cur_idx ≡ some o)
      × Least bytes bit (cur_idx + 1) (length bytes * 8) o
unfolding first_after
first_after_lem bytes bit cur_idx = elim (Bool-cases (leb (length bytes * 8) cur_idx)) [
  | inl past ↦ (none, rw past refl, λ j lo hi. absurd (ground arith))
  | inr before ↦
      let inside : cur_idx < length bytes * 8 = ground arith in
      let (o, r, l) =
        first_from-Least bytes bit (cur_idx + 1) (length bytes * 8 - (cur_idx + 1)) (omega arith) in
      (o, rw before r, subst (λ n. Least bytes bit (cur_idx + 1) n o) (omega arith) l)
]
