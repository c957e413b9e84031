-- ===== src/Json/Readable.antt =====
-- src/json/: the values whose printed text can be read back, and how such a text begins.
use mathlib.Core.List.{append_assoc, append-nil}
use tadis.Prelude.{
  ℕ, suc, ◌+◌, ◌<◌, ◌≡◌, refl, sym, ap, ◌∙◌, Bool, true, false, not, ◌||◌, List, [], ◌∷◌, ◌++◌,
  arith, length, length-append, ◌==◌, inl, inr,
}
use tadis.Json.Value.{
  Value, Items, Fields, null, bool, number, string, array, object, nil, cons, end, field,
}
use tadis.Json.Numbers.{NumberOps}
use tadis.Json.Parser.{
  done, peek, is_blank, is_digit, skip_blank, backslash, string_row, parse_string_row,
}
use tadis.Json.Decimal.{ReadsBack, stops, decimal, IsWhole}
use tadis.Json.Objects.{IsSorted}
use tadis.Json.Layout.{lay, lay_items, lay_fields, gap}

-- Neither a quote nor a backslash nor a NUL, none of which the writer escapes.
abbrev pub is_plain : ℕ → Bool
is_plain ch = not (ch == b'"' || ch == backslash || ch == 0)

abbrev pub IsPlain : List ℕ → Type 0
IsPlain [] = Unit
IsPlain (ch ∷ s) = (is_plain ch ≡ true) × IsPlain s

-- A number is not followed by a character that could belong to it.
abbrev pub Follows : {N : Type 0} → Value N → List ℕ → Type 0
Follows null rest = Unit
Follows (bool b) rest = Unit
Follows (number n) rest = stops rest ≡ true
Follows (string s) rest = Unit
Follows (array xs) rest = Unit
Follows (object fs) rest = Unit

pub stops-Follows : {N : Type 0} (v : Value N) (rest : List ℕ) → stops rest ≡ true → Follows v rest
stops-Follows null rest h = tt
stops-Follows (bool b) rest h = tt
stops-Follows (number n) rest h = h
stops-Follows (string s) rest h = tt
stops-Follows (array xs) rest h = tt
stops-Follows (object fs) rest h = tt

-- The values that can be read back: plain texts, numbers that `strtod` gives back, and objects
-- with their names in order.
module _ {N : Type 0} (ops : NumberOps N) where
  unfoldable mutual
    pub Readable : Value N → Type 0
    Readable null = Unit
    Readable (bool b) = Unit
    Readable (number n) = ReadsBack ops n
    Readable (string s) = IsPlain s
    Readable (array xs) = ReadableItems xs
    Readable (object fs) = IsSorted fs × ReadableFields fs

    pub ReadableItems : Items N → Type 0
    ReadableItems nil = Unit
    ReadableItems (cons v xs) = Readable v × ReadableItems xs

    pub ReadableFields : Fields N → Type 0
    ReadableFields end = Unit
    ReadableFields (field k v fs) = IsPlain k × Readable v × ReadableFields fs

-- The calls that reading a value takes, one inside the other.
module _ {N : Type 0} where
  unfoldable mutual
    pub need : Value N → ℕ
    need null = 1
    need (bool b) = 1
    need (number n) = 1
    need (string s) = 1
    need (array xs) = suc (need_items xs)
    need (object fs) = suc (need_fields fs)

    pub need_items : Items N → ℕ
    need_items nil = 1
    need_items (cons v xs) = suc (need v + need_items xs)

    pub need_fields : Fields N → ℕ
    need_fields end = 1
    need_fields (field k v fs) = suc (need v + need_fields fs)

pub string_row-plain :
    (s rest acc : List ℕ)
    → IsPlain s
    → string_row false (s ++ (b'"' ∷ rest)) acc ≡ done (acc ++ s) rest
unfolding string_row
string_row-plain [] rest acc p = ap (λ a. done a rest) (sym (append-nil acc))
string_row-plain (ch ∷ s) rest acc p =
    ground (arith, string_row-plain s rest (acc ++ (ch ∷ [])) p.1, append_assoc acc (ch ∷ []) s)

pub parse_string_row-plain :
    (s rest : List ℕ) → IsPlain s → parse_string_row (b'"' ∷ (s ++ (b'"' ∷ rest))) ≡ done s rest
unfolding parse_string_row
parse_string_row-plain s rest p = string_row-plain s rest [] p

pub skip_blank-none : (t : List ℕ) → is_blank (peek t) ≡ false → skip_blank t ≡ t
unfolding skip_blank
skip_blank-none [] h = refl
skip_blank-none (ch ∷ t) h = ground arith

pub skip_blank-gap :
    (b : Bool) (ch : ℕ) (t : List ℕ) → is_blank ch ≡ true → skip_blank (gap b ch t) ≡ skip_blank t
unfolding skip_blank
skip_blank-gap true ch t h = ground arith
skip_blank-gap false ch t h = refl

-- The first character of a number, and of any value.
abbrev pub starts_number : ℕ → Bool
starts_number ch = ch == b'-' || is_digit ch

abbrev pub opens : ℕ → Bool
opens ch = not (is_blank ch || ch == b']' || ch == 0)

pub decimal-starts :
    (sign : Bool) (whole : List ℕ) (d : ℕ) (frac rest : List ℕ)
    → IsWhole whole
    → starts_number (peek (decimal sign whole d frac ++ rest)) ≡ true
decimal-starts sign [] d frac rest w = absurd w
decimal-starts true (c ∷ cs) d frac rest w = refl
decimal-starts false (c ∷ cs) d frac rest (inl (e, none_left)) = ground arith
decimal-starts false (c ∷ cs) d frac rest (inr (e, ds)) = ground arith

pub length-decimal :
    (sign : Bool) (whole : List ℕ) (d : ℕ) (frac : List ℕ) → 0 < length (decimal sign whole d frac)
length-decimal true whole d frac = omega arith
length-decimal false whole d frac = omega (arith, length-append whole (b'.' ∷ d ∷ frac))

pub stops-gap :
    (b : Bool) (ch : ℕ) (t : List ℕ)
    → is_blank ch ≡ true
    → stops t ≡ true
    → stops (gap b ch t) ≡ true
stops-gap true ch t h st = ground arith
stops-gap false ch t h st = st

module _ {N : Type 0} (ops : NumberOps N) (b : Bool) where
  pub to_string-starts :
      (n : N) (rest : List ℕ)
      → ReadsBack ops n
      → starts_number (peek (ops.to_string n ++ rest)) ≡ true
  to_string-starts n rest r =
      ap (λ t. starts_number (peek (t ++ rest))) r.text
      ∙ decimal-starts r.sign r.whole r.first_digit r.fraction rest r.whole_form

  pub lay-opens :
      (v : Value N) (rest : List ℕ) → Readable ops v → opens (peek (lay ops b v rest)) ≡ true
  unfolding lay Readable
  lay-opens null rest r = refl
  lay-opens (bool true) rest r = refl
  lay-opens (bool false) rest r = refl
  lay-opens (number n) rest r = ground (arith, to_string-starts n rest r)
  lay-opens (string s) rest r = refl
  lay-opens (array nil) rest r = refl
  lay-opens (array (cons v xs)) rest r = refl
  lay-opens (object end) rest r = refl
  lay-opens (object (field k v fs)) rest r = refl

  pub skip_blank-lay :
      (v : Value N) (rest : List ℕ)
      → Readable ops v
      → skip_blank (lay ops b v rest) ≡ lay ops b v rest
  skip_blank-lay v rest r = skip_blank-none (lay ops b v rest) (ground (arith, lay-opens v rest r))

  pub stops-lay_items : (xs : Items N) (rest : List ℕ) → stops (lay_items ops b xs rest) ≡ true
  unfolding lay_items
  stops-lay_items nil rest = refl
  stops-lay_items (cons v xs) rest =
      stops-gap b b' ' (b',' ∷ gap b b' ' (lay ops b v (lay_items ops b xs rest))) refl refl

  pub stops-lay_fields : (fs : Fields N) (rest : List ℕ) → stops (lay_fields ops b fs rest) ≡ true
  unfolding lay_fields
  stops-lay_fields end rest = stops-gap b 10 (b'}' ∷ rest) refl refl
  stops-lay_fields (field k v fs) rest = refl

  pub opens_some : (text : List ℕ) → opens (peek text) ≡ true → (length text == 0) ≡ false
  opens_some [] o = absurd (cc)
  opens_some (ch ∷ text) o = ground arith
