-- ===== src/Json/RoundTrip/Length.antt =====
-- src/json/json_parser.hpp: the length of a printed text, and the calls that reading it takes.
use tadis.Prelude.{
  ℕ, ◌+◌, ◌*◌, ◌<◌, ◌≤◌, Bool, true, false, List, ◌∷◌, arith, length, length-append,
}
use tadis.Json.Value.{
  Value, Items, Fields, null, bool, number, string, array, object, nil, cons, end, field,
}
use tadis.Json.Numbers.{NumberOps}
use tadis.Json.Decimal.{ReadsBack}
use tadis.Json.Layout.{lay, lay_items, lay_fields, key, gap}
use tadis.Json.Readable.{
  Readable, ReadableItems, ReadableFields, need, need_items, need_fields, length-decimal,
}

module _ {N : Type 0} (ops : NumberOps N) (b : Bool) where
  length-to_string : (n : N) → ReadsBack ops n → 0 < length (ops.to_string n)
  length-to_string n r = rw (r.text) (length-decimal r.sign r.whole r.first_digit r.fraction)

  length-gap : (b : Bool) (ch : ℕ) (t : List ℕ) → length t ≤ length (gap b ch t)
  length-gap true ch t = omega arith
  length-gap false ch t = omega arith

  length-key : (k t : List ℕ) → length t + 3 ≤ length (key b k t)
  length-key k t = omega (
    arith,
    length-append k (b'"' ∷ gap b b' ' (b':' ∷ gap b b' ' t)),
    length-gap b b' ' (b':' ∷ gap b b' ' t),
    length-gap b b' ' t,
  )

  pub need_pos : (v : Value N) → 0 < need v
  unfolding need
  need_pos null = omega arith
  need_pos (bool c) = omega arith
  need_pos (number n) = omega arith
  need_pos (string s) = omega arith
  need_pos (array xs) = omega arith
  need_pos (object fs) = omega arith

  -- The fuel that `parse` gives is enough for a printed text.
  mutual
    unfolding lay Readable need

    pub need-le :
        (v : Value N) (rest : List ℕ)
        → Readable ops v
        → need v + 2 * length rest ≤ 2 * length (lay ops b v rest)
    need-le null rest r = omega arith
    need-le (bool true) rest r = omega arith
    need-le (bool false) rest r = omega arith
    need-le (number n) rest r =
        omega (arith, length-append (ops.to_string n) rest, length-to_string n r)
    need-le (string s) rest r = omega (arith, length-append s (b'"' ∷ rest))
    need-le (array nil) rest r = omega arith
    need-le (array (cons v xs)) rest r =
        omega (arith, need-le v (lay_items ops b xs rest) r.0, need_items-le xs rest r.1)
    need-le (object end) rest r = omega arith
    need-le (object (field k v fs)) rest r = omega (
      arith,
      length-gap b 10 (key b k (lay ops b v (lay_fields ops b fs rest))),
      length-key k (lay ops b v (lay_fields ops b fs rest)),
      need-le v (lay_fields ops b fs rest) r.1.1,
      need_fields-le fs rest r.1.2,
    )

    need_items-le :
        (xs : Items N) (rest : List ℕ)
        → ReadableItems ops xs
        → need_items xs + 2 * length rest ≤ 2 * length (lay_items ops b xs rest)
    need_items-le nil rest r = omega arith
    need_items-le (cons v xs) rest r = omega (
      arith,
      length-gap b b' ' (b',' ∷ gap b b' ' (lay ops b v (lay_items ops b xs rest))),
      length-gap b b' ' (lay ops b v (lay_items ops b xs rest)),
      need-le v (lay_items ops b xs rest) r.0,
      need_items-le xs rest r.1,
    )

    need_fields-le :
        (fs : Fields N) (rest : List ℕ)
        → ReadableFields ops fs
        → need_fields fs + 2 * length rest ≤ 2 * length (lay_fields ops b fs rest)
    need_fields-le end rest r = omega (arith, length-gap b 10 (b'}' ∷ rest))
    need_fields-le (field k v fs) rest r = omega (
      arith,
      length-gap b b' ' (gap b 10 (key b k (lay ops b v (lay_fields ops b fs rest)))),
      length-gap b 10 (key b k (lay ops b v (lay_fields ops b fs rest))),
      length-key k (lay ops b v (lay_fields ops b fs rest)),
      need-le v (lay_fields ops b fs rest) r.1,
      need_fields-le fs rest r.2,
    )
