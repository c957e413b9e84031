-- ===== src/Sql/Token.antt =====
-- src/sql/parser/lexer.hpp: the tokens and the words that are keywords. A character is its code.
use tadis.Prelude.{
  ℕ, ◌-◌, ◌+◌, Bool, true, false, ◌&&◌, ◌||◌, List, [], ◌∷◌, map, leb, ◌==◌, if◌then◌else◌,
}

pub data Token : Type 0 where
  select_t insert_t create_t delete_t update_t drop_t : Token
  from_t where_t into_t values_t table_t id_t : Token
  plus_t minus_t float_t integer_t string_t colon_t : Token
  dot_t commas_t star_t assign_t not_eq_t greater_t : Token
  smaller_t lbrace_t rbrace_t in_t is_t not_t : Token
  null_t nullable_t s_char_t s_varchar_t s_int_t s_float_t : Token
  bad_expr : Token

-- The place of a token in the enumeration.
abbrev pub token_code : Token → ℕ
token_code select_t = 0
token_code insert_t = 1
token_code create_t = 2
token_code delete_t = 3
token_code update_t = 4
token_code drop_t = 5
token_code from_t = 6
token_code where_t = 7
token_code into_t = 8
token_code values_t = 9
token_code table_t = 10
token_code id_t = 11
token_code plus_t = 12
token_code minus_t = 13
token_code float_t = 14
token_code integer_t = 15
token_code string_t = 16
token_code colon_t = 17
token_code dot_t = 18
token_code commas_t = 19
token_code star_t = 20
token_code assign_t = 21
token_code not_eq_t = 22
token_code greater_t = 23
token_code smaller_t = 24
token_code lbrace_t = 25
token_code rbrace_t = 26
token_code in_t = 27
token_code is_t = 28
token_code not_t = 29
token_code null_t = 30
token_code nullable_t = 31
token_code s_char_t = 32
token_code s_varchar_t = 33
token_code s_int_t = 34
token_code s_float_t = 35
token_code bad_expr = 36

abbrev pub token_eq : Token → Token → Bool
token_eq a b = token_code a == token_code b

abbrev pub is_digit : ℕ → Bool
is_digit c = leb b'0' c && leb c b'9'

abbrev pub is_lower : ℕ → Bool
is_lower c = leb b'a' c && leb c b'z'

abbrev pub is_start : ℕ → Bool
is_start c = is_lower c || leb b'A' c && leb c b'Z' || c == b'_'

abbrev pub is_word : ℕ → Bool
is_word c = is_start c || is_digit c

-- `to_upper`
unfoldable pub to_upper : List ℕ → List ℕ
to_upper s = map (λ ch. if is_lower ch then ch - b'a' + b'A' else ch) s

abbrev pub text_eq : List ℕ → List ℕ → Bool
text_eq [] [] = true
text_eq [] (y ∷ ys) = false
text_eq (x ∷ xs) [] = false
text_eq (x ∷ xs) (y ∷ ys) = x == y && text_eq xs ys

-- `spec_token_`, as `init` fills it.
abbrev pub keywords : List (List ℕ × Token)
keywords =
    (b'S' ∷ b'E' ∷ b'L' ∷ b'E' ∷ b'C' ∷ b'T' ∷ [], select_t)
    ∷ (b'I' ∷ b'N' ∷ b'S' ∷ b'E' ∷ b'R' ∷ b'T' ∷ [], insert_t)
    ∷ (b'U' ∷ b'P' ∷ b'D' ∷ b'A' ∷ b'T' ∷ b'E' ∷ [], update_t)
    ∷ (b'C' ∷ b'R' ∷ b'E' ∷ b'A' ∷ b'T' ∷ b'E' ∷ [], create_t)
    ∷ (b'D' ∷ b'E' ∷ b'L' ∷ b'E' ∷ b'T' ∷ b'E' ∷ [], delete_t)
    ∷ (b'D' ∷ b'R' ∷ b'O' ∷ b'P' ∷ [], drop_t)
    ∷ (b'I' ∷ b'N' ∷ b'T' ∷ b'O' ∷ [], into_t)
    ∷ (b'F' ∷ b'R' ∷ b'O' ∷ b'M' ∷ [], from_t)
    ∷ (b'W' ∷ b'H' ∷ b'E' ∷ b'R' ∷ b'E' ∷ [], where_t)
    ∷ (b'I' ∷ b'N' ∷ b'F' ∷ b'O' ∷ [], into_t)
    ∷ (b'T' ∷ b'A' ∷ b'B' ∷ b'L' ∷ b'E' ∷ [], table_t)
    ∷ (b'V' ∷ b'A' ∷ b'L' ∷ b'U' ∷ b'E' ∷ b'S' ∷ [], values_t)
    ∷ (b'I' ∷ b'N' ∷ [], in_t)
    ∷ (b'I' ∷ b'S' ∷ [], is_t)
    ∷ (b'N' ∷ b'O' ∷ b'T' ∷ [], not_t)
    ∷ (b'N' ∷ b'U' ∷ b'L' ∷ b'L' ∷ [], null_t)
    ∷ (b'N' ∷ b'U' ∷ b'L' ∷ b'L' ∷ b'A' ∷ b'B' ∷ b'L' ∷ b'E' ∷ [], nullable_t)
    ∷ (b'C' ∷ b'H' ∷ b'A' ∷ b'R' ∷ [], s_char_t)
    ∷ (b'V' ∷ b'A' ∷ b'R' ∷ b'C' ∷ b'H' ∷ b'A' ∷ b'R' ∷ [], s_varchar_t)
    ∷ (b'I' ∷ b'N' ∷ b'T' ∷ [], s_int_t)
    ∷ (b'F' ∷ b'L' ∷ b'O' ∷ b'A' ∷ b'T' ∷ [], s_float_t)
    ∷ []

unfoldable pub lookup : List ℕ → List (List ℕ × Token) → Token
lookup s [] = id_t
lookup s ((k, t) ∷ ks) = if text_eq s k then t else lookup s ks

-- The token of a word: that of a keyword in any case, else `ID_T`.
unfoldable pub word_token : List ℕ → Token
unfolding to_upper lookup
word_token s = lookup (to_upper s) keywords
