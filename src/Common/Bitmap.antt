-- ===== src/Common/Bitmap.antt =====
-- src/common/bitmap.hpp: `BitMap`, a view of a byte buffer whose writes go to the buffer.
-- The buffer is a list of bytes, and `set` returns it anew. `none` is a failed assertion.
pub mod Bits
pub mod Laws
use tadis.Prelude.{
  ℕ, zero, suc, ◌+◌, ◌-◌, ◌*◌, ◌/◌, ◌%◌, ◌^◌, Bool, true, false, Option, none, some, List, length,
  get_elem?, set, ltb, leb, ◌==◌, if◌then◌else◌,
}

-- `ch & (1 << k)` as a test.
unfoldable pub test_bit : ℕ → ℕ → Bool
test_bit ch k = ch / 2 ^ k % 2 == 1

-- `ch |= 1 << k` and `ch &= ~(1 << k)`.
unfoldable pub put_bit : ℕ → ℕ → Bool → ℕ
put_bit ch k bit =
    if bit
    then (if test_bit ch k then ch else ch + 2 ^ k)
    else (if test_bit ch k then ch - 2 ^ k else ch)

abbrev pub bit_eq : Bool → Bool → Bool
bit_eq true b = b
bit_eq false true = false
bit_eq false false = true

pub get : List ℕ → ℕ → Option Bool
get bytes idx = elim (get_elem? bytes (idx / 8)) [
  | none ↦ none
  | some ch ↦ some (test_bit ch (idx % 8))
]

unfoldable pub set_bit : List ℕ → ℕ → Bool → Option (List ℕ)
set_bit bytes idx bit = elim (get_elem? bytes (idx / 8)) [
  | none ↦ none
  | some ch ↦ some (set bytes (idx / 8) (put_bit ch (idx % 8) bit))
]

-- The loop of `first` and `first_after`, with the rounds that are left: the outer option is the
-- assertion of `get`, the inner one the result.
unfoldable pub first_from : List ℕ → Bool → ℕ → ℕ → Option (Option ℕ)
first_from bytes bit i zero = some none
first_from bytes bit i (suc left) =
    let rest = first_from bytes bit (i + 1) left in
    elim (get bytes i) [ none ↦ none | some b ↦ if bit_eq b bit then some (some i) else rest ]

pub first : List ℕ → Bool → Option (Option ℕ)
first bytes bit = first_from bytes bit 0 (length bytes * 8)

unfoldable pub first_after : List ℕ → Bool → ℕ → Option (Option ℕ)
first_after bytes bit cur_idx =
    if leb (length bytes * 8) cur_idx
    then some none
    else first_from bytes bit (cur_idx + 1) (length bytes * 8 - (cur_idx + 1))
