-- ===== src/Sql/Lexer.antt =====
-- src/sql/parser/lexer.hpp: `Lexer<std::string>`. A read past the end of the input gives the NUL
-- that ends a `std::string`. The result `none` is an overflow of `long` or an exception of `stof`.
pub mod Progress
pub mod Lookahead
use tadis.Prelude.{
  ℕ, zero, suc, ◌+◌, ◌-◌, ◌*◌, ◌^◌, Bool, true, false, not, ◌&&◌, ◌||◌, Option, none, some, List,
  [], ◌∷◌, length, get_or, take, drop, ltb, leb, ◌==◌, if◌then◌else◌,
}
use tadis.Prelude.Int.{ℤ, pos, negsuc, ◌-ℤ◌}
use tadis.Common.Rc.{Rc, success, syntax_error}
use tadis.Sql.Token.{
  Token, plus_t, minus_t, float_t, integer_t, string_t, colon_t, dot_t, commas_t, star_t, assign_t,
  not_eq_t, greater_t, smaller_t, lbrace_t, rbrace_t, id_t, bad_expr, token_eq, is_digit, is_start,
  is_word, word_token,
}
use tadis.Sql.Ast.{FloatOps, Any, empty, text, long, float}

pub record Lexer (F : Type 0) : Type 0 where
  pub input : List ℕ
  pub p : ℕ
  pub cur_val : Any F

unfoldable pub init : {F : Type 0} → List ℕ → Lexer F
init input = record { input = input; p = 0; cur_val = empty }

unfoldable pub eof : {F : Type 0} → Lexer F → Bool
eof lx = leb (length lx.input) lx.p

unfoldable pub remain_flow : {F : Type 0} → Lexer F → List ℕ
remain_flow lx = drop lx.p lx.input

-- The number of characters up to the first that fails the test.
unfoldable pub run : (ℕ → Bool) → List ℕ → ℕ
run ok [] = 0
run ok (c ∷ cs) = let rest = run ok cs in if ok c then suc rest else 0

abbrev pub char_at : {F : Type 0} → Lexer F → ℕ → ℕ
char_at lx i = get_or lx.input i 0

unfoldable pub skip_blank : {F : Type 0} → Lexer F → Lexer F
skip_blank lx = record lx { p = lx.p + run (λ c. c == b' ') (drop lx.p lx.input) }

-- The value of the digits.
unfoldable pub number : ℕ → List ℕ → Option ℕ
number acc [] = some acc
number acc (c ∷ cs) = let v = c - b'0' + acc * 10 in if ltb v (2 ^ 63) then number v cs else none

-- What the cases of `internal_next` give, the last argument being the new state.
abbrev pub Lexed : Type 0 → Type 0
Lexed F = Option (Rc × Token × Lexer F)

abbrev advance : {F : Type 0} → Lexer F → ℕ → Token → Lexed F
advance lx n t = some (success, t, record lx { p = lx.p + n })

module _ {F : Type 0} (fl : FloatOps F) where
  unfoldable pub parse_num : Lexer F → Option (Token × Lexer F)
  parse_num lx =
      let digits = run is_digit (drop lx.p lx.input) in
      let end = lx.p + digits in
      let more = run is_digit (drop (end + 1) lx.input) in
      elim (number 0 (take digits (drop lx.p lx.input))) [
        | none ↦ none
        | some num ↦
            if char_at lx end == b'.'
            then (if more == 0
                then some (bad_expr, record lx { p = end + 1 })
                else elim (fl.stof (take (digits + more) (drop lx.p lx.input))) [
                  | none ↦ none
                  | some f ↦ some (float_t, record lx { p = end + 1 + more; cur_val = float f })
                ])
            else some (integer_t, record lx { p = end; cur_val = long (pos num) })
      ]

  -- A word.
  unfoldable pub lex_word : Lexer F → Lexed F
  lex_word lx =
      let n = run is_word (drop lx.p lx.input) in
      let id = take n (drop lx.p lx.input) in
      let t = word_token id in
      some (
        success,
        t,
        record lx { p = lx.p + n; cur_val = if token_eq t id_t then text id else lx.cur_val },
      )

  -- A number with no sign.
  unfoldable pub lex_num : Lexer F → Lexed F
  lex_num lx = elim (parse_num lx) [
    | none ↦ none
    | some (t, lx') ↦ some (if token_eq t bad_expr then syntax_error else success, t, lx')
  ]

  abbrev negated : Any F → Any F
  negated (long n) = long (pos 0 -ℤ n)
  negated (float f) = float (fl.negate f)
  negated a = a

  -- The number after a sign.
  abbrev pub signed : Option (Token × Lexer F) → Lexed F
  signed none = none
  signed (some (t, lx)) = some (
    success,
    t,
    record lx { cur_val = if token_eq t bad_expr then lx.cur_val else negated lx.cur_val },
  )

  -- After '-': a number, or the sign alone.
  unfoldable pub lex_minus : Lexer F → Lexed F
  lex_minus lx =
      if ltb (lx.p + 1) (length lx.input) && is_digit (char_at lx (lx.p + 1))
      then signed (parse_num (record lx { p = lx.p + 1 }))
      else advance lx 1 minus_t

  -- A string in quotes.
  -- Its closing quote may be missing.
  unfoldable pub lex_quoted : Lexer F → ℕ → Lexed F
  lex_quoted lx n =
      if n == 0
      then some (syntax_error, bad_expr, lx)
      else some (
        success,
        string_t,
        record lx { p = lx.p + 1 + n + 1; cur_val = text (take n (drop (lx.p + 1) lx.input)) },
      )

  unfoldable pub lex_string : Lexer F → Lexed F
  lex_string lx = lex_quoted lx (run (λ c. not (c == b'\'')) (drop (lx.p + 1) lx.input))

  -- The characters that are a token.
  abbrev pub single : ℕ → Option Token
  single c =
      if c == b'+'
      then some plus_t
      else if c == b'='
      then some assign_t
      else if c == b'>'
      then some greater_t
      else if c == b','
      then some commas_t
      else if c == b'*'
      then some star_t
      else if c == b'.'
      then some dot_t
      else if c == b';'
      then some colon_t
      else if c == b'('
      then some lbrace_t
      else if c == b')'
      then some rbrace_t
      else none

  -- The switch of `internal_next`, on the character at `p_`.
  unfoldable pub lex_char : ℕ → Lexer F → Lexed F
  lex_char ch lx =
      if is_start ch
      then lex_word lx
      else if ch == b'0' && ltb (lx.p + 1) (length lx.input) && is_digit (char_at lx (lx.p + 1))
      then some (syntax_error, bad_expr, lx)
      else if is_digit ch
      then lex_num lx
      else if ch == b'-'
      then lex_minus lx
      else if ch == b'<'
      then (if ltb (lx.p + 1) (length lx.input) && char_at lx (lx.p + 1) == b'>'
          then advance lx 2 not_eq_t
          else advance lx 1 smaller_t)
      else if ch == b'\''
      then lex_string lx
      else elim (single ch) [ some t ↦ advance lx 1 t | none ↦ some (syntax_error, bad_expr, lx) ]

  unfoldable pub lex_at : Lexer F → Lexed F
  lex_at lx = lex_char (char_at lx lx.p) lx

  -- The code, the token, the position before it, and the new state.
  unfoldable pub internal_next : Lexer F → Option (Rc × Token × ℕ × Lexer F)
  internal_next lx =
      let l = skip_blank lx in
      if leb (length l.input) l.p
      then some (syntax_error, bad_expr, lx.p, l)
      else elim (lex_at l) [ none ↦ none | some (rc, t, l') ↦ some (rc, t, lx.p, l') ]

  unfoldable pub next : Lexer F → Lexed F
  next lx = elim (internal_next lx) [ none ↦ none | some (rc, t, last_p, l) ↦ some (rc, t, l) ]

  unfoldable pub next_if : Token → Lexer F → Lexed F
  next_if t lx = elim (internal_next lx) [
    | none ↦ none
    | some (rc, tk, last_p, l) ↦
        if token_eq tk t
        then some (success, tk, l)
        else some (syntax_error, tk, record l { p = last_p })
  ]

  unfoldable pub peek : Lexer F → Lexed F
  peek lx = elim (internal_next lx) [
    | none ↦ none
    | some (rc, t, last_p, l) ↦ some (rc, t, record l { p = last_p })
  ]
