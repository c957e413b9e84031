-- ===== src/Catalog/Tuple/Offsets.antt =====
-- src/catalog/tuple.hpp: what is read at an offset of a tuple.
use tadis.Prelude.{
  ℕ, zero, suc, ◌+◌, ◌^◌, ◌≡◌, ◌≤◌, ◌<◌, refl, ap, ◌∙◌, sym, subst, true, leb, some, List, [], ◌∷◌,
  ◌++◌, arith, length, length-append, take, drop,
}
use mathlib.Core.List.{append_assoc}
use tadis.Prelude.Int.{ℤ, pos, negsuc, sub_ℕ}
use tadis.Prelude.Memory.{read_at, length-to_bytes, of_bytes-to_bytes_4}
use tadis.Sql.Ast.{text, string, wrap_int, init_string}
use tadis.Catalog.Tuple.{word_of, int_bytes, int_of, read_in, read_text, checked}

-- The values of an `int`.
abbrev pub IsInt : ℤ → Type 0
IsInt (pos n) = n < 2 ^ 31
IsInt (negsuc n) = n < 2 ^ 31

pub int_of-int_bytes : (n : ℤ) → IsInt n → int_of (int_bytes n) ≡ n
unfolding int_of int_bytes word_of
int_of-int_bytes (pos n) h = ground (arith, of_bytes-to_bytes_4 (word_of (pos n)) (omega arith))
int_of-int_bytes (negsuc n) h =
    ground (arith, of_bytes-to_bytes_4 (word_of (negsuc n)) (omega arith))

pub length-int_bytes : (n : ℤ) → length (int_bytes n) ≡ 4
unfolding int_bytes
length-int_bytes n = length-to_bytes 4 (word_of n)

take-append : (b rest : List ℕ) → take (length b) (b ++ rest) ≡ b
take-append [] rest = refl
take-append (x ∷ b) rest = ap (◌∷◌ x) (take-append b rest)

drop-append : (b rest : List ℕ) → drop (length b) (b ++ rest) ≡ rest
drop-append [] rest = refl
drop-append (x ∷ b) rest = drop-append b rest

drop_nil : (n : ℕ) → drop {A = ℕ} n [] ≡ []
drop_nil zero = refl
drop_nil (suc n) = refl

zero_add : (n : ℕ) → 0 + n ≡ n
zero_add n = omega arith

suc_add : (m n : ℕ) → suc m + n ≡ suc (m + n)
suc_add m n = omega arith

drop-drop : (bytes : List ℕ) (m n : ℕ) → drop (m + n) bytes ≡ drop n (drop m bytes)
drop-drop [] zero n = drop_nil (0 + n) ∙ sym (drop_nil n)
drop-drop [] (suc m) n = drop_nil (suc m + n) ∙ sym (drop_nil n)
drop-drop (x ∷ bytes) zero n = rw (zero_add n) refl
drop-drop (x ∷ bytes) (suc m) n = ap (λ k. drop k (x ∷ bytes)) (suc_add m n) ∙ drop-drop bytes m n

pub le→leb : (a b : ℕ) → a ≤ b → leb a b ≡ true
le→leb a b h = ground arith

-- The bytes from an offset on.
pub record At (bytes : List ℕ) (off : ℕ) (suffix : List ℕ) : Type 0 where
  pub inside : length bytes ≡ off + length suffix
  pub there : drop off bytes ≡ suffix

pub At-read_in :
    (bytes : List ℕ) (off : ℕ) (b rest : List ℕ) (n : ℕ)
    → At bytes off (b ++ rest)
    → length b ≡ n
    → read_in bytes off n ≡ some b
unfolding read_in read_at
At-read_in bytes off b rest n at e =
    let fits : leb (off + n) (length bytes) ≡ true =
      le→leb _ _ (omega (arith, at.inside, length-append b rest)) in
    rw (fits, at.there, sym e, take-append b rest) refl

pub At-append :
    (bytes : List ℕ) (off : ℕ) (b rest : List ℕ) (n : ℕ)
    → At bytes off (b ++ rest)
    → length b ≡ n
    → At bytes (off + n) rest
At-append bytes off b rest n at e = record {
  inside = omega (arith, at.inside, length-append b rest);
  there = drop-drop bytes off n ∙ rw (at.there, sym e) (drop-append b rest);
}

pub At-checked :
    (bytes : List ℕ) (off : ℕ) (b rest : List ℕ) (n : ℕ)
    → At bytes off (b ++ rest)
    → length b ≡ n
    → checked bytes (pos (off + n)) ≡ some (off + length b)
unfolding checked
At-checked bytes off b rest n at e = rw (sym e) (
    rw (le→leb (off + length b) (length bytes) (omega (arith, at.inside, length-append b rest)))
      refl)

At-assoc :
    (bytes : List ℕ) (off : ℕ) (a b rest : List ℕ)
    → At bytes off ((a ++ b) ++ rest)
    → At bytes off (a ++ (b ++ rest))
At-assoc bytes off a b rest at = subst (At bytes off) (append_assoc a b rest) at

pub At-read_text :
    {F : Type 0} (bytes : List ℕ) (off : ℕ) (s rest : List ℕ) (n : ℤ)
    → At bytes off (s ++ rest)
    → n ≡ pos (length s)
    → read_text {F = F} bytes off n ≡ some (record { value = text s; type = string })
unfolding read_text init_string
At-read_text bytes off s rest n at e = rw (e, At-read_in bytes off s rest (length s) at refl) refl

pub wrap_small : (n : ℕ) → n < 2 ^ 31 → wrap_int (pos n) ≡ pos n
wrap_small n h = ground arith

pub sub_zero : (n : ℕ) → sub_ℕ n 0 ≡ pos n
sub_zero n = ground arith

pub At-varchar :
    (bytes : List ℕ) (off : ℕ) (s rest : List ℕ)
    → length s < 2 ^ 31
    → At bytes off ((int_bytes (pos (length s)) ++ s) ++ rest)
    → (read_in bytes off 4 ≡ some (int_bytes (pos (length s))))
      × (int_of (int_bytes (pos (length s))) ≡ pos (length s))
      × At bytes (off + 4) (s ++ rest)
At-varchar bytes off s rest h at =
    let l = int_bytes (pos (length s)) in
    let at' = At-assoc bytes off l s rest at in
    (
      At-read_in bytes off l (s ++ rest) 4 at' (length-int_bytes _),
      int_of-int_bytes (pos (length s)) h,
      At-append bytes off l (s ++ rest) 4 at' (length-int_bytes _),
    )
