-- ===== src/Common/Bitmap/Bits.antt =====
-- One byte of a bitmap: all values are checked.
use tadis.Prelude.{
  ◌/◌, ℕ, zero, suc, ◌<◌, ◌≡◌, refl, Bool, true, false, ◌&&◌, arith, ==_iff, ◌==◌, if◌then◌else◌,
}
use tadis.Common.Bitmap.{test_bit, put_bit, bit_eq}

-- The test holds at all numbers below the bound.
passes : (ℕ → Bool) → ℕ → Bool
passes test zero = true
passes test (suc k) = passes test k && test k

passes_at : (test : ℕ → Bool) (k i : ℕ) → i < k → passes test k ≡ true → test i ≡ true
unfolding passes
passes_at test (suc k) i below h = ground (arith, passes_at test k i)
passes_at test zero i below h = absurd (omega arith)

bit_eq_sound : (a b : Bool) → bit_eq a b ≡ true → a ≡ b
bit_eq_sound a b h = ground arith

abbrev put_row : Bool → ℕ → ℕ → ℕ → Bool
put_row bit ch k j = bit_eq (test_bit (put_bit ch k bit) j) (if k == j then bit else test_bit ch j)

put_table : (bit : Bool) → passes (λ ch. passes (λ k. passes (put_row bit ch k) 8) 8) 256 ≡ true
unfolding passes test_bit put_bit
put_table true = refl
put_table false = refl

pub test_bit-put_bit :
    (ch k j : ℕ) (bit : Bool)
    → ch < 256
    → k < 8
    → j < 8
    → test_bit (put_bit ch k bit) j ≡ (if k == j then bit else test_bit ch j)
test_bit-put_bit ch k j bit hc hk hj = bit_eq_sound _ _ (
    passes_at (put_row bit ch k) 8 j hj (
      passes_at (λ k. passes (put_row bit ch k) 8) 8 k hk
        (passes_at (λ ch. passes (λ k. passes (put_row bit ch k) 8) 8) 256 ch hc (put_table bit))))

abbrev byte_row : Bool → ℕ → ℕ → Bool
byte_row bit ch k = put_bit ch k bit / 256 == 0

byte_table : (bit : Bool) → passes (λ ch. passes (byte_row bit ch) 8) 256 ≡ true
unfolding passes test_bit put_bit
byte_table true = refl
byte_table false = refl

pub put_bit-lt : (ch k : ℕ) (bit : Bool) → ch < 256 → k < 8 → put_bit ch k bit < 256
put_bit-lt ch k bit hc hk =
    let row =
      passes_at (byte_row bit ch) 8 k hk
        (passes_at (λ ch. passes (byte_row bit ch) 8) 256 ch hc (byte_table bit)) in
    omega (arith, (==_iff _ _).0 row)
