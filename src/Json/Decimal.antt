-- ===== src/Json/Decimal.antt =====
-- src/json/json_parser.hpp: `parse_number` on a decimal text, such as `std::to_string` gives.
use mathlib.Core.List.{append_assoc}
use tadis.Prelude.{
  ℕ, ◌≡◌, ◌⊎◌, refl, ap, ◌∙◌, Bool, true, false, not, ◌||◌, some, List, [], ◌∷◌, ◌++◌, arith, ◌==◌,
  if◌then◌else◌, inl, inr,
}
use tadis.Json.Value.{number}
use tadis.Json.Numbers.{NumberOps}
use tadis.Json.Parser.{
  done, peek, is_digit, is_one_to_nine, skip_digits, scan_whole, scan_digits, scan_fraction,
  scan_exponent, number_end, parse_number,
}

-- The text behind a number goes on with no character that could belong to it.
abbrev pub stops : List ℕ → Bool
stops text =
    not (is_digit (peek text) || peek text == b'.' || peek text == b'e' || peek text == b'E')

abbrev pub AllDigits : List ℕ → Type 0
AllDigits [] = Unit
AllDigits (c ∷ cs) = (is_digit c ≡ true) × AllDigits cs

-- The digits before the point: a zero alone, or digits of which the first is not zero.
abbrev pub IsWhole : List ℕ → Type 0
IsWhole [] = ⊥
IsWhole (c ∷ cs) = ((c ≡ b'0') × (cs ≡ [])) ⊎ ((is_one_to_nine c ≡ true) × AllDigits cs)

abbrev pub decimal : Bool → List ℕ → ℕ → List ℕ → List ℕ
decimal true whole d frac = b'-' ∷ (whole ++ (b'.' ∷ d ∷ frac))
decimal false whole d frac = whole ++ (b'.' ∷ d ∷ frac)

-- What `to_string` and `strtod` do with the number: its text is a decimal one with digits behind
-- the point, and reading the front of a text gives the number back.
pub record ReadsBack {N : Type 0} (ops : NumberOps N) (n : N) : Type 0 where
  pub sign : Bool
  pub whole : List ℕ
  pub first_digit : ℕ
  pub fraction : List ℕ
  pub text : ops.to_string n ≡ decimal sign whole first_digit fraction
  pub whole_form : IsWhole whole
  pub digits : AllDigits (first_digit ∷ fraction)
  pub value : (rest : List ℕ) → stops rest ≡ true → ops.strtod (ops.to_string n ++ rest) ≡ n
  pub in_range : (rest : List ℕ) → stops rest ≡ true → ops.erange (ops.to_string n ++ rest) ≡ false
  pub finite : ops.is_huge n ≡ false

skip_digits-append :
    (ds rest : List ℕ)
    → AllDigits ds
    → is_digit (peek rest) ≡ false
    → skip_digits (ds ++ rest) ≡ rest
unfolding skip_digits
skip_digits-append [] [] a h = refl
skip_digits-append [] (c ∷ rest) a h = ground arith
skip_digits-append (d ∷ ds) rest a h = ground (arith, skip_digits-append ds rest a.1 h)

scan_signed :
    (sign : Bool) (whole rest : List ℕ)
    → IsWhole whole
    → scan_whole (if sign then b'-' ∷ (whole ++ (b'.' ∷ rest)) else whole ++ (b'.' ∷ rest))
      ≡ some (b'.' ∷ rest)
unfolding scan_whole skip_digits
scan_signed sign [] rest w = absurd w
scan_signed true (c ∷ cs) rest (inl (e, none_left)) = rw none_left (ground arith)
scan_signed true (c ∷ cs) rest (inr (e, ds)) =
    ground (arith, skip_digits-append cs (b'.' ∷ rest) ds refl)
scan_signed false (c ∷ cs) rest (inl (e, none_left)) = rw none_left (ground arith)
scan_signed false (c ∷ cs) rest (inr (e, ds)) =
    ground (arith, skip_digits-append cs (b'.' ∷ rest) ds refl)

decimal-append :
    (sign : Bool) (whole : List ℕ) (d : ℕ) (frac rest : List ℕ)
    → decimal sign whole d frac ++ rest ≡ (
        if sign
        then b'-' ∷ (whole ++ (b'.' ∷ d ∷ (frac ++ rest)))
        else whole ++ (b'.' ∷ d ∷ (frac ++ rest)))
decimal-append true whole d frac rest =
    ap (λ t. b'-' ∷ t) (append_assoc whole (b'.' ∷ d ∷ frac) rest)
decimal-append false whole d frac rest = append_assoc whole (b'.' ∷ d ∷ frac) rest

scan_whole-decimal :
    (sign : Bool) (whole : List ℕ) (d : ℕ) (frac rest : List ℕ)
    → IsWhole whole
    → scan_whole (decimal sign whole d frac ++ rest) ≡ some (b'.' ∷ d ∷ (frac ++ rest))
scan_whole-decimal sign whole d frac rest w =
    ap scan_whole (decimal-append sign whole d frac rest)
    ∙ scan_signed sign whole (d ∷ (frac ++ rest)) w

number_end-decimal :
    (sign : Bool) (whole : List ℕ) (d : ℕ) (frac rest : List ℕ)
    → IsWhole whole
    → AllDigits (d ∷ frac)
    → stops rest ≡ true
    → number_end (decimal sign whole d frac ++ rest) ≡ some rest
unfolding number_end scan_fraction scan_exponent scan_digits
number_end-decimal sign whole d frac rest w ds h =
    ground
      (arith, scan_whole-decimal sign whole d frac rest w, skip_digits-append (d ∷ frac) rest ds)

module _ {N : Type 0} (ops : NumberOps N) where
  pub parse_number-to_string :
      (n : N) (rest : List ℕ)
      → ReadsBack ops n
      → stops rest ≡ true
      → parse_number ops (ops.to_string n ++ rest) ≡ done (number n) rest
  unfolding parse_number
  parse_number-to_string n rest r h =
      let e : number_end (ops.to_string n ++ rest) ≡ some rest =
        ap (λ t. number_end (t ++ rest)) r.text
        ∙ number_end-decimal r.sign r.whole r.first_digit r.fraction rest r.whole_form r.digits h in
      ground (arith, e, r.value rest h, r.in_range rest h, r.finite)
