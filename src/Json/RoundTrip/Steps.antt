-- ===== src/Json/RoundTrip/Steps.antt =====
-- src/json/json_parser.hpp: one step of each function of the parser, on a printed text.
use tadis.Prelude.{ℕ, suc, ◌≡◌, refl, Bool, true, false, List, ◌∷◌, ◌++◌, arith, length, ◌==◌}
use tadis.Json.Value.{
  Value, Items, Fields, null, bool, number, string, array, object, nil, end, array_push_back,
  object_insert,
}
use tadis.Json.Numbers.{NumberOps}
use tadis.Json.Parser.{
  done, peek, skip_blank, parse_string_row, parse_string, parse_value, parse_items, parse_fields,
}
use tadis.Json.Decimal.{ReadsBack, stops, parse_number-to_string}
use tadis.Json.Layout.{lay}
use tadis.Json.Readable.{IsPlain, parse_string_row-plain, opens, to_string-starts}

module _ {N : Type 0} (ops : NumberOps N) (b : Bool) where
  -- One step of the parser.
  pub parse_value-array :
      (fuel : ℕ) (text rest : List ℕ) (xs : Items N)
      → skip_blank text ≡ text
      → opens (peek text) ≡ true
      → (length text == 0) ≡ false
      → parse_items ops false fuel text nil ≡ done xs rest
      → parse_value ops false (suc fuel) (b'[' ∷ text) ≡ done (array xs) rest
  unfolding parse_value
  parse_value-array fuel text rest xs start o some_left ran = rw (start, parse_value) (ground arith)

  pub parse_value-object :
      (fuel : ℕ) (text inside rest : List ℕ) (fs : Fields N)
      → skip_blank text ≡ b'"' ∷ inside
      → parse_fields ops false fuel (b'"' ∷ inside) end ≡ done fs rest
      → parse_value ops false (suc fuel) (b'{' ∷ text) ≡ done (object fs) rest
  unfolding parse_value
  parse_value-object fuel text inside rest fs start ran = ground arith

  pub parse_items-last :
      (fuel : ℕ) (text mid rest : List ℕ) (v : Value N) (acc : Items N)
      → parse_value ops false fuel (skip_blank text) ≡ done v mid
      → skip_blank mid ≡ b']' ∷ rest
      → parse_items ops false (suc fuel) text acc ≡ done (array_push_back acc v) rest
  unfolding parse_items
  parse_items-last fuel text mid rest v acc ran next = ground arith

  pub parse_items-more :
      (fuel : ℕ) (text mid next : List ℕ) (v : Value N) (acc : Items N)
      → parse_value ops false fuel (skip_blank text) ≡ done v mid
      → skip_blank mid ≡ b',' ∷ next
      → parse_items ops false (suc fuel) text acc
        ≡ parse_items ops false fuel next (array_push_back acc v)
  unfolding parse_items
  parse_items-more fuel text mid next v acc ran comma = ground arith

  pub parse_fields-last :
      (fuel : ℕ) (text colon after mid rest k : List ℕ) (v : Value N) (acc : Fields N)
      → parse_string_row text ≡ done k colon
      → skip_blank colon ≡ b':' ∷ after
      → parse_value ops false fuel (skip_blank after) ≡ done v mid
      → skip_blank mid ≡ b'}' ∷ rest
      → parse_fields ops false (suc fuel) text acc ≡ done (object_insert k v acc) rest
  unfolding parse_fields
  parse_fields-last fuel text colon after mid rest k v acc name c ran next = ground arith

  pub parse_fields-more :
      (fuel : ℕ) (text colon after mid next k : List ℕ) (v : Value N) (acc : Fields N)
      → parse_string_row text ≡ done k colon
      → skip_blank colon ≡ b':' ∷ after
      → parse_value ops false fuel (skip_blank after) ≡ done v mid
      → skip_blank mid ≡ b',' ∷ next
      → parse_fields ops false (suc fuel) text acc
        ≡ parse_fields ops false fuel (skip_blank next) (object_insert k v acc)
  unfolding parse_fields
  parse_fields-more fuel text colon after mid next k v acc name c ran comma = ground arith

  pub parse_value-number :
      (fuel : ℕ) (n : N) (rest : List ℕ)
      → ReadsBack ops n
      → stops rest ≡ true
      → parse_value ops false (suc fuel) (ops.to_string n ++ rest) ≡ done (number n) rest
  unfolding parse_value
  parse_value-number fuel n rest r st =
      ground (arith, to_string-starts ops b n rest r, parse_number-to_string ops n rest r st)

  pub parse_value-string :
      (fuel : ℕ) (s rest : List ℕ)
      → IsPlain s
      → parse_value ops false (suc fuel) (b'"' ∷ (s ++ (b'"' ∷ rest))) ≡ done (string s) rest
  unfolding parse_value parse_string
  parse_value-string fuel s rest p = ground (arith, parse_string_row-plain s rest p)

  -- The texts with nothing inside.
  pub word_null :
      (fuel : ℕ) (rest : List ℕ)
      → parse_value ops false (suc fuel) (lay ops b null rest) ≡ done null rest
  unfolding parse_value lay
  word_null fuel rest = refl

  pub word_true :
      (fuel : ℕ) (rest : List ℕ)
      → parse_value ops false (suc fuel) (lay ops b (bool true) rest) ≡ done (bool true) rest
  unfolding parse_value lay
  word_true fuel rest = refl

  pub word_false :
      (fuel : ℕ) (rest : List ℕ)
      → parse_value ops false (suc fuel) (lay ops b (bool false) rest) ≡ done (bool false) rest
  unfolding parse_value lay
  word_false fuel rest = refl

  pub empty_array :
      (fuel : ℕ) (rest : List ℕ)
      → parse_value ops false (suc fuel) (lay ops b (array nil) rest) ≡ done (array nil) rest
  unfolding parse_value lay skip_blank
  empty_array fuel rest = ground arith

  pub empty_object :
      (fuel : ℕ) (rest : List ℕ)
      → parse_value ops false (suc fuel) (lay ops b (object end) rest) ≡ done (object end) rest
  unfolding parse_value lay skip_blank
  empty_object fuel rest = ground arith
