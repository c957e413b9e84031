-- ===== src/Tests/Bitmaps.antt =====
-- Runs of src/common/bitmap.hpp.
use tadis.Prelude.{
  ℕ, ◌≡◌, refl, true, false, Option, some, List, [], ◌∷◌, length, arith, ◌==◌, if◌then◌else◌, ◌*◌,
}
use tadis.Common.Bitmap
use tadis.Common.Bitmap.{get, set_bit, first, first_after}
use tadis.Common.Bitmap.Laws.{IsBytes, Least, get-set_bit, first_lem}

abbrev two_bytes : List ℕ
two_bytes = 255 ∷ 1 ∷ []

abbrev with_bit : List ℕ
with_bit = 255 ∷ 9 ∷ []

get-set_bit_example :
    (get with_bit 11 ≡ (if 11 == 11 then some true else get two_bytes 11))
    × IsBytes with_bit
    × (length with_bit ≡ length two_bytes)
get-set_bit_example =
    get-set_bit two_bytes 11 11 true (omega arith, (omega arith, tt))
      (unfold Bitmap.set_bit Bitmap.put_bit Bitmap.test_bit in refl)

first_lem_example :
    (o : Option ℕ) × (first two_bytes false ≡ some o)
    × Least two_bytes false 0 (length two_bytes * 8) o
first_lem_example = first_lem two_bytes false
