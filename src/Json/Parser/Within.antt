-- ===== src/Json/Parser/Within.antt =====
-- src/json/json_parser.hpp: what the functions without recursion leave of a text.
use tadis.Prelude.{
  ℕ, suc, ◌<◌, ◌≤◌, ◌≡◌, refl, Bool, true, false, some, List, [], ◌∷◌, arith, length, drop,
  length-drop, ◌==◌, if◌then◌else◌, Option-cases, inl, inr,
}
use tadis.Json.Value.{Value}
use tadis.Json.Parser.{
  Reply, done, refused, out_of_fuel, skip_blank, skip_digits, scan_whole, scan_digits,
  scan_fraction, scan_exponent, number_end, string_row, parse_string_row, starts_with, parse_word,
}

abbrev Inside : {A : Type 0} → ℕ → Reply A → Type 0
Inside n (done a rest) = length rest < n
Inside n refused = Unit
Inside n out_of_fuel = ⊥

-- The fuel was enough, and what was read leaves fewer than `n` characters.
pub record Within {A : Type 0} (n : ℕ) (r : Reply A) : Type 0 where
  pub inside : Inside n r

pub Within-done :
    {A : Type 0} {n : ℕ} (a : A) (rest : List ℕ) → length rest < n → Within n (done a rest)
Within-done a rest h = record { inside = h }

pub Within-refused : {A : Type 0} {n : ℕ} → Within {A = A} n refused
Within-refused = record { inside = tt }

pub Within-weaken : {A : Type 0} (n m : ℕ) (r : Reply A) → n ≤ m → Within n r → Within m r
Within-weaken n m (done a rest) h w = let i = w.inside in Within-done a rest (omega arith)
Within-weaken n m refused h w = Within-refused
Within-weaken n m out_of_fuel h w = absurd w.inside

pub Within-if :
    {A : Type 0} (n : ℕ) (b : Bool) (x y : Reply A)
    → (b ≡ true → Within n x)
    → (b ≡ false → Within n y)
    → Within n (if b then x else y)
Within-if n true x y hx hy = hx refl
Within-if n false x y hx hy = hy refl

pub Within-then :
    {A B : Type 0} (n : ℕ) (r : Reply A) (f : A → List ℕ → Reply B)
    → Within n r
    → ((a : A) (rest : List ℕ) → length rest < n → Within n (f a rest))
    → Within n (elim r [ done a rest ↦ f a rest | refused ↦ refused | out_of_fuel ↦ out_of_fuel ])
Within-then n (done a rest) f w k = k a rest w.inside
Within-then n refused f w k = Within-refused
Within-then n out_of_fuel f w k = absurd w.inside

pub length-skip_blank : (text : List ℕ) → length (skip_blank text) ≤ length text
unfolding skip_blank
length-skip_blank [] = omega arith
length-skip_blank (ch ∷ text) = ground (arith, length-skip_blank text)

length-skip_digits : (text : List ℕ) → length (skip_digits text) ≤ length text
unfolding skip_digits
length-skip_digits [] = omega arith
length-skip_digits (ch ∷ text) = ground (arith, length-skip_digits text)

-- The parts of a number: the first takes a character at least.
scan_digits_le : (t u : List ℕ) → scan_digits t ≡ some u → length u ≤ length t
unfolding scan_digits
scan_digits_le t u e = ground (arith, length-skip_digits t)

scan_whole_lt : (t u : List ℕ) → scan_whole t ≡ some u → length u < length t
unfolding scan_whole skip_digits
scan_whole_lt [] u e = ground arith
scan_whole_lt (a ∷ []) u e = ground arith
scan_whole_lt (a ∷ b ∷ t) u e = ground (arith, length-skip_digits t, length-skip_digits (b ∷ t))

scan_fraction_le : (t u : List ℕ) → scan_fraction t ≡ some u → length u ≤ length t
unfolding scan_fraction
scan_fraction_le t u e = ground (arith, scan_digits_le (drop 1 t) u, length-drop 1 t)

scan_exponent_le : (t u : List ℕ) → scan_exponent t ≡ some u → length u ≤ length t
unfolding scan_exponent
scan_exponent_le t u e = ground (
  arith,
  scan_digits_le (drop 1 t) u,
  scan_digits_le (drop 1 (drop 1 t)) u,
  length-drop 1 t,
  length-drop 1 (drop 1 t),
)

pub number_end_lt : (t u : List ℕ) → number_end t ≡ some u → length u < length t
unfolding number_end
number_end_lt t u e = elim (Option-cases (scan_whole t)) [
  | inl bad ↦ ground arith
  | inr (v, ev) ↦ elim (Option-cases (scan_fraction v)) [
    | inl bad ↦ ground arith
    | inr (w, ew) ↦
        ground (arith, scan_whole_lt t v ev, scan_fraction_le v w ew, scan_exponent_le w u)
  ]
]

string_row-Within : (skip : Bool) (text s : List ℕ) → Within (length text) (string_row skip text s)
unfolding string_row
string_row-Within skip [] s = Within-refused
string_row-Within true (ch ∷ text) s =
    Within-weaken (length text) (suc (length text)) (string_row false text s) (omega arith)
      (string_row-Within false text s)
string_row-Within false (ch ∷ text) s =
    Within-if _ (ch == b'"') _ _ (λ e. Within-done _ _ (omega arith))
      (λ e.
        Within-if _ (ch == 0) _ _ (λ e. Within-refused)
          (λ e.
            Within-weaken (length text) (suc (length text)) (string_row _ text _) (omega arith)
              (string_row-Within _ text _)))

pub parse_string_row-Within : (text : List ℕ) → Within (length text) (parse_string_row text)
unfolding parse_string_row
parse_string_row-Within text =
    Within-weaken (length (drop 1 text)) (length text) (string_row false (drop 1 text) [])
      (omega (arith, length-drop 1 text)) (string_row-Within false (drop 1 text) [])

length-starts_with : (word text : List ℕ) → starts_with word text ≡ true → length word ≤ length text
length-starts_with [] text h = omega arith
length-starts_with (w ∷ word) [] h = absurd (cc)
length-starts_with (w ∷ word) (c ∷ text) h = ground (arith, length-starts_with word text)

pub parse_word-Within :
    {N : Type 0} (c : ℕ) (word : List ℕ) (v : Value N) (text : List ℕ)
    → Within (length text) (parse_word (c ∷ word) v text)
parse_word-Within c word v text =
    Within-if _ (starts_with (c ∷ word) text) _ _
      (λ e.
        Within-done _ _ (
          omega
            (arith, length-starts_with (c ∷ word) text e, length-drop (suc (length word)) text)))
      (λ e. Within-refused)
