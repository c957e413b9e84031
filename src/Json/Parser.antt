-- ===== src/Json/Parser.antt =====
-- src/json/json_parser.hpp: `Parser`. Its state is the text from `offset_` on; at the end of the
-- text `d[offset]` is the NUL of the string.
pub mod Within
pub mod Fuel
use tadis.Prelude.{
  ℕ, zero, suc, ◌+◌, ◌*◌, Bool, true, false, ◌&&◌, ◌||◌, Option, none, some, List, [], ◌∷◌, ◌++◌,
  length, get_or, drop, leb, ◌==◌, if◌then◌else◌,
}
use tadis.Json.Value.{
  Value, Items, Fields, null, bool, number, string, array, object, nil, end, array_push_back,
  object_insert,
}
use tadis.Json.Numbers.{NumberOps}

-- The functions return false by `refused`; what they then leave in the value is not looked at.
pub data Reply (A : Type 0) : Type 0 where
  done : A → List ℕ → Reply A
  refused : Reply A
  out_of_fuel : Reply A

-- `d[offset]`
abbrev pub peek : List ℕ → ℕ
peek text = get_or text 0 0

abbrev pub is_blank : ℕ → Bool
is_blank ch = ch == 0x20 || ch == 0x09 || ch == 0x0A || ch == 0x0D

unfoldable pub skip_blank : List ℕ → List ℕ
skip_blank [] = []
skip_blank (ch ∷ text) = let rest = skip_blank text in if is_blank ch then rest else ch ∷ text

-- `ISDIGIT` and `ISONETONINE`
abbrev pub is_digit : ℕ → Bool
is_digit ch = leb b'0' ch && leb ch b'9'

abbrev pub is_one_to_nine : ℕ → Bool
is_one_to_nine ch = leb b'1' ch && leb ch b'9'

unfoldable pub skip_digits : List ℕ → List ℕ
skip_digits [] = []
skip_digits (ch ∷ text) = let rest = skip_digits text in if is_digit ch then rest else ch ∷ text

-- The three parts of a number that `parse_number` scans; none is its `return false`.
unfoldable pub scan_whole : List ℕ → Option (List ℕ)
unfolding skip_digits
scan_whole text =
    let unsigned : List ℕ = if peek text == b'-' then drop 1 text else text in
    if peek unsigned == b'0'
    then some (drop 1 unsigned)
    else if is_one_to_nine (peek unsigned)
    then some (skip_digits unsigned)
    else none

unfoldable pub scan_digits : List ℕ → Option (List ℕ)
unfolding skip_digits
scan_digits text = if is_digit (peek text) then some (skip_digits text) else none

unfoldable pub scan_fraction : List ℕ → Option (List ℕ)
unfolding scan_digits
scan_fraction text = if peek text == b'.' then scan_digits (drop 1 text) else some text

unfoldable pub scan_exponent : List ℕ → Option (List ℕ)
unfolding scan_digits
scan_exponent text =
    let sign = drop 1 text in
    if peek text == b'e' || peek text == b'E'
    then scan_digits (if peek sign == b'+' || peek sign == b'-' then drop 1 sign else sign)
    else some text

unfoldable pub number_end : List ℕ → Option (List ℕ)
unfolding scan_whole scan_fraction scan_exponent
number_end text = elim (scan_whole text) [
  | none ↦ none
  | some t ↦ elim (scan_fraction t) [ none ↦ none | some u ↦ scan_exponent u ]
]

abbrev pub backslash : ℕ
backslash = 92

-- The loop of `parse_string_row`, behind the opening quote; `skip` is that the next character is
-- passed over. The inner switch on a backslash reads the backslash itself once more, so it takes
-- the case of a backslash and no other, and control falls through to the default case.
unfoldable pub string_row : Bool → List ℕ → List ℕ → Reply (List ℕ)
string_row skip [] s = refused
string_row true (ch ∷ text) s = string_row false text s
string_row false (ch ∷ text) s =
    let escape = ch == backslash in
    let more = string_row escape text (s ++ (if escape then ch ∷ ch ∷ [] else ch ∷ [])) in
    if ch == b'"' then done s text else if ch == 0 then refused else more

unfoldable pub parse_string_row : List ℕ → Reply (List ℕ)
unfolding string_row
parse_string_row text = string_row false (drop 1 text) []

abbrev pub true_word : List ℕ
true_word = b't' ∷ b'r' ∷ b'u' ∷ b'e' ∷ []

abbrev pub false_word : List ℕ
false_word = b'f' ∷ b'a' ∷ b'l' ∷ b's' ∷ b'e' ∷ []

abbrev pub null_word : List ℕ
null_word = b'n' ∷ b'u' ∷ b'l' ∷ b'l' ∷ []

-- `parse_true`, `parse_false` and `parse_null`: the word must stand in full.
abbrev pub starts_with : List ℕ → List ℕ → Bool
starts_with [] text = true
starts_with (ch ∷ word) [] = false
starts_with (ch ∷ word) (c ∷ text) = c == ch && starts_with word text

abbrev pub parse_word : {N : Type 0} → List ℕ → Value N → List ℕ → Reply (Value N)
parse_word word v text = if starts_with word text then done v (drop (length word) text) else refused

module _ {N : Type 0} (ops : NumberOps N) where
  unfoldable pub parse_number : List ℕ → Reply (Value N)
  unfolding number_end
  parse_number text = elim (number_end text) [
    | none ↦ refused
    | some rest ↦
        let res = ops.strtod text in
        if ops.erange text || ops.is_huge res then refused else done (number res) rest
  ]

  unfoldable pub parse_string : List ℕ → Reply (Value N)
  unfolding parse_string_row
  parse_string text = elim (parse_string_row text) [
    | done s rest ↦ done (string s) rest
    | refused ↦ refused
    | out_of_fuel ↦ out_of_fuel
  ]

  -- `parse_value`, with `parse_array` and `parse_object` down to their loops, which are
  -- `parse_items` and `parse_fields`. `nothing` is that `size_` is 0. A call takes one from the fuel.
  unfoldable mutual
    pub parse_value : Bool → ℕ → List ℕ → Reply (Value N)
    parse_value nothing zero text = out_of_fuel
    parse_value nothing (suc fuel) text =
        let inside = skip_blank (drop 1 text) in
        let items = parse_items nothing fuel inside nil in
        let fields = parse_fields nothing fuel inside end in
        if nothing
        then done null text
        else if peek text == b't'
        then parse_word true_word (bool true) text
        else if peek text == b'f'
        then parse_word false_word (bool false) text
        else if peek text == b'n'
        then parse_word null_word null text
        else if peek text == b'"'
        then parse_string text
        else if peek text == b'['
        then (if length inside == 0
            then refused
            else if peek inside == b']'
            then done (array nil) (drop 1 inside)
            else elim items [
              | done xs rest ↦ done (array xs) rest
              | refused ↦ refused
              | out_of_fuel ↦ out_of_fuel
            ])
        else if peek text == b'{'
        then (if length inside == 0
            then refused
            else if peek inside == b'}'
            then done (object end) (drop 1 inside)
            else elim fields [
              | done fs rest ↦ done (object fs) rest
              | refused ↦ refused
              | out_of_fuel ↦ out_of_fuel
            ])
        else parse_number text

    pub parse_items : Bool → ℕ → List ℕ → Items N → Reply (Items N)
    parse_items nothing zero text xs = out_of_fuel
    parse_items nothing (suc fuel) text xs = elim (parse_value nothing fuel (skip_blank text)) [
      | refused ↦ refused
      | out_of_fuel ↦ out_of_fuel
      | done val rest ↦
          let next = skip_blank rest in
          let more = parse_items nothing fuel (drop 1 next) (array_push_back xs val) in
          if peek next == b','
          then more
          else if peek next == b']'
          then done (array_push_back xs val) (drop 1 next)
          else refused
    ]

    pub parse_fields : Bool → ℕ → List ℕ → Fields N → Reply (Fields N)
    parse_fields nothing zero text fs = out_of_fuel
    parse_fields nothing (suc fuel) text fs = elim (parse_string_row text) [
      | refused ↦ refused
      | out_of_fuel ↦ out_of_fuel
      | done name colon ↦
          let value = parse_value nothing fuel (skip_blank (drop 1 (skip_blank colon))) in
          if peek (skip_blank colon) == b':'
          then elim value [
            | refused ↦ refused
            | out_of_fuel ↦ out_of_fuel
            | done val rest ↦
                let next = skip_blank rest in
                let fs' = object_insert name val fs in
                let after_comma = parse_fields nothing fuel (skip_blank (drop 1 next)) fs' in
                let again = parse_fields nothing fuel next fs' in
                if peek next == b','
                then after_comma
                else if peek next == b'}'
                then done fs' (drop 1 next)
                else if length next == 0
                then refused
                else again
          ]
          else refused
    ]

  -- `Parse` of a new parser over a text: `Value::parse`.
  unfoldable pub parse : List ℕ → Reply (Value N)
  parse text = parse_value (length text == 0) (2 * length text + 1) (skip_blank text)
