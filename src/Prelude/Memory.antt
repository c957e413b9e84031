-- ===== src/Prelude/Memory.antt =====
-- Bytes in memory: `memcpy` to and from a buffer, and the eight bytes of a `size_t`.
use Prim.Native.Nat.{ℕ, zero, suc, ◌+◌, ◌*◌, ◌/◌, ◌%◌, ◌^◌, ◌≤◌, ◌<◌}
use mathlib.Core.Path.{◌≡◌, refl, ap}
use mathlib.Core.List.{List, [], ◌∷◌}
use native.Mathlib.Omega.{arith}
use tadis.Prelude.Lists.{length, take, drop, length-take, length-drop}

-- `memcpy(buf + off, bytes, n)`. What would lie past the end of the buffer is not written.
unfoldable pub write_at : List ℕ → ℕ → List ℕ → List ℕ
write_at [] off bytes = []
write_at (x ∷ buf) zero [] = x ∷ buf
write_at (x ∷ buf) zero (b ∷ bytes) = b ∷ write_at buf zero bytes
write_at (x ∷ buf) (suc off) bytes = x ∷ write_at buf off bytes

-- `memcpy(dst, buf + off, n)`, as the bytes that are read.
unfoldable pub read_at : List ℕ → ℕ → ℕ → List ℕ
read_at buf off n = take n (drop off buf)

pub length-write_at :
    (buf : List ℕ) (off : ℕ) (bytes : List ℕ) → length (write_at buf off bytes) ≡ length buf
unfolding write_at
length-write_at [] off bytes = refl
length-write_at (x ∷ buf) zero [] = refl
length-write_at (x ∷ buf) zero (b ∷ bytes) = ap suc (length-write_at buf zero bytes)
length-write_at (x ∷ buf) (suc off) bytes = ap suc (length-write_at buf off bytes)

pub length-read_at :
    (buf : List ℕ) (off n : ℕ) → off + n ≤ length buf → length (read_at buf off n) ≡ n
unfolding read_at
length-read_at buf off n h = omega (arith, length-take n (drop off buf), length-drop off buf)

pub read_at-write_at :
    (buf : List ℕ) (off : ℕ) (bytes : List ℕ)
    → off + length bytes ≤ length buf
    → read_at (write_at buf off bytes) off (length bytes) ≡ bytes
unfolding read_at write_at
read_at-write_at [] zero [] h = refl
read_at-write_at [] (suc off) [] h = absurd (omega arith)
read_at-write_at [] off (b ∷ bytes) h = absurd (omega arith)
read_at-write_at (x ∷ buf) zero [] h = refl
read_at-write_at (x ∷ buf) zero (b ∷ bytes) h =
    ap (◌∷◌ b) (read_at-write_at buf zero bytes (omega arith))
read_at-write_at (x ∷ buf) (suc off) bytes h = read_at-write_at buf off bytes (omega arith)

-- A read before the written bytes.
pub read_at-write_at_below :
    (buf : List ℕ) (off n o : ℕ) (bytes : List ℕ)
    → o + n ≤ off
    → read_at (write_at buf off bytes) o n ≡ read_at buf o n
unfolding read_at write_at
read_at-write_at_below [] off n o bytes h = refl
read_at-write_at_below (x ∷ buf) zero zero zero bytes h = refl
read_at-write_at_below (x ∷ buf) (suc off) zero zero bytes h = refl
read_at-write_at_below (x ∷ buf) zero (suc n) o bytes h = absurd (omega arith)
read_at-write_at_below (x ∷ buf) zero n (suc o) bytes h = absurd (omega arith)
read_at-write_at_below (x ∷ buf) (suc off) (suc n) zero bytes h =
    ap (◌∷◌ x) (read_at-write_at_below buf off n zero bytes (omega arith))
read_at-write_at_below (x ∷ buf) (suc off) n (suc o) bytes h =
    read_at-write_at_below buf off n o bytes (omega arith)

-- A read behind the written bytes.
pub read_at-write_at_above :
    (buf : List ℕ) (off n o : ℕ) (bytes : List ℕ)
    → off + length bytes ≤ o
    → read_at (write_at buf off bytes) o n ≡ read_at buf o n
unfolding read_at write_at
read_at-write_at_above [] off n o bytes h = refl
read_at-write_at_above (x ∷ buf) zero n o [] h = refl
read_at-write_at_above (x ∷ buf) zero n zero (b ∷ bytes) h = absurd (omega arith)
read_at-write_at_above (x ∷ buf) zero n (suc o) (b ∷ bytes) h =
    read_at-write_at_above buf zero n o bytes (omega arith)
read_at-write_at_above (x ∷ buf) (suc off) n zero bytes h = absurd (omega arith)
read_at-write_at_above (x ∷ buf) (suc off) n (suc o) bytes h =
    read_at-write_at_above buf off n o bytes (omega arith)

-- The `n` bytes of a number, least significant first, and the number that bytes stand for.
unfoldable pub to_bytes : ℕ → ℕ → List ℕ
to_bytes zero v = []
to_bytes (suc n) v = v % 256 ∷ to_bytes n (v / 256)

unfoldable pub of_bytes : List ℕ → ℕ
of_bytes [] = 0
of_bytes (b ∷ bytes) = b + 256 * of_bytes bytes

pub length-to_bytes : (n v : ℕ) → length (to_bytes n v) ≡ n
unfolding to_bytes
length-to_bytes zero v = refl
length-to_bytes (suc n) v = ap suc (length-to_bytes n (v / 256))

pub of_bytes-to_bytes_8 : (v : ℕ) → v < 2 ^ 64 → of_bytes (to_bytes 8 v) ≡ v
unfolding of_bytes to_bytes
of_bytes-to_bytes_8 v h = omega arith

pub of_bytes-to_bytes_4 : (v : ℕ) → v < 2 ^ 32 → of_bytes (to_bytes 4 v) ≡ v
unfolding of_bytes to_bytes
of_bytes-to_bytes_4 v h = omega arith
