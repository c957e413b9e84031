-- ===== src/Sql/Lexer/Lookahead.antt =====
-- src/sql/parser/lexer.hpp: `Lexer::peek` before `next`.
use tadis.Prelude.{
  ℕ, ◌≡◌, refl, sym, ap, ◌∙◌, Bool, true, false, ◌&&◌, get_or, ltb, ◌+◌, some, arith, if◌then◌else◌,
  Bool-cases, Option-cases, inl, inr, length,
}
use tadis.Common.Rc.{Rc, success}
use tadis.Sql.Token.{Token, token_eq, bad_expr, is_digit}
use tadis.Sql.Ast.{FloatOps, Any}
use tadis.Sql.Lexer.Progress.{internal_next-Moves}
use tadis.Sql.Lexer.{
  Lexer, Lexed, skip_blank, parse_num, lex_word, lex_num, lex_minus, signed, negated, lex_quoted,
  lex_string, lex_char, lex_at, internal_next, next, peek,
}

abbrev with_val : {F : Type 0} → Lexer F → Any F → Lexer F
with_val lx a = record lx { cur_val = a }

module _ {F : Type 0} (fl : FloatOps F) where
  parse_num_again :
      (lx l : Lexer F) (t : Token)
      → parse_num fl lx ≡ some (t, l)
      → parse_num fl (with_val lx l.cur_val) ≡ some (t, l)
  unfolding parse_num
  parse_num_again lx l t e = ground arith

  lex_word_again :
      (lx l : Lexer F) (rc : Rc) (t : Token)
      → lex_word fl lx ≡ some (rc, t, l)
      → lex_word fl (with_val lx l.cur_val) ≡ some (rc, t, l)
  unfolding lex_word
  lex_word_again lx l rc t e = ground arith

  lex_num_again :
      (lx l : Lexer F) (rc : Rc) (t : Token)
      → lex_num fl lx ≡ some (rc, t, l)
      → lex_num fl (with_val lx l.cur_val) ≡ some (rc, t, l)
  unfolding lex_num
  lex_num_again lx l rc t e = elim (Option-cases (parse_num fl lx)) [
    | inl e' ↦ absurd (ground arith)
    | inr ((t', l'), e') ↦ ground (arith, parse_num_again lx l' t' e')
  ]

  -- `parse_num` sets the value, or leaves it if there is no number.
  parse_num_val :
      (lx l : Lexer F) (t : Token) (v : Any F)
      → parse_num fl lx ≡ some (t, l)
      → parse_num fl (with_val lx v)
        ≡ some (t, with_val l (if token_eq t bad_expr then v else l.cur_val))
  unfolding parse_num
  parse_num_val lx l t v e = ground arith

  lex_minus-digit :
      (lx : Lexer F)
      → ltb (lx.p + 1) (length lx.input) && is_digit (get_or lx.input (lx.p + 1) 0) ≡ true
      → lex_minus fl lx ≡ signed fl (parse_num fl (record lx { p = lx.p + 1 }))
  unfolding lex_minus
  lex_minus-digit lx h = rw h refl

  signed_again :
      (bad : Bool) (l' l : Lexer F) (t' : Token) (rc : Rc) (t : Token)
      → ◌≡◌ {A = Lexed F}
          (some (success, t', with_val l' (if bad then l'.cur_val else negated fl l'.cur_val)))
          (some (rc, t, l))
      → ◌≡◌ {A = Lexed F}
          (some (
            success,
            t',
            with_val l' (
                if bad
                then if bad then l.cur_val else l'.cur_val
                else negated fl (if bad then l.cur_val else l'.cur_val)),
          ))
          (some (rc, t, l))
  signed_again true l' l t' rc t e = ground arith
  signed_again false l' l t' rc t e = e

  lex_minus_again :
      (lx l : Lexer F) (rc : Rc) (t : Token)
      → lex_minus fl lx ≡ some (rc, t, l)
      → lex_minus fl (with_val lx l.cur_val) ≡ some (rc, t, l)
  unfolding lex_minus
  lex_minus_again lx l rc t e = elim (Option-cases (parse_num fl (record lx { p = lx.p + 1 }))) [
    | inl e' ↦
        elim (Bool-cases
          (ltb (lx.p + 1) (length lx.input) && is_digit (get_or lx.input (lx.p + 1) 0))) [
            | inl digit ↦ absurd (ground arith)
            | inr sign ↦ ground arith
          ]
    | inr ((t', l'), e') ↦
        let again = parse_num_val (record lx { p = lx.p + 1 }) l' t' l.cur_val e' in
        elim (Bool-cases
          (ltb (lx.p + 1) (length lx.input) && is_digit (get_or lx.input (lx.p + 1) 0))) [
            | inl digit ↦
                let ran : signed fl (some (t', l')) ≡ some (rc, t, l) =
                  sym (lex_minus-digit lx digit ∙ ap (signed fl) e') ∙ e in
                lex_minus-digit (with_val lx l.cur_val) digit
                ∙ ap (signed fl) again
                ∙ signed_again (token_eq t' bad_expr) l' l t' rc t ran
            | inr sign ↦ ground arith
          ]
  ]

  lex_string_again :
      (lx l : Lexer F) (rc : Rc) (t : Token)
      → lex_string fl lx ≡ some (rc, t, l)
      → lex_string fl (with_val lx l.cur_val) ≡ some (rc, t, l)
  unfolding lex_string lex_quoted
  lex_string_again lx l rc t e = ground arith

  lex_char_again :
      (ch : ℕ) (lx l : Lexer F) (rc : Rc) (t : Token)
      → lex_char fl ch lx ≡ some (rc, t, l)
      → lex_char fl ch (with_val lx l.cur_val) ≡ some (rc, t, l)
  unfolding lex_char
  lex_char_again ch lx l rc t e = ground (
    arith,
    lex_word_again lx l rc t,
    lex_num_again lx l rc t,
    lex_minus_again lx l rc t,
    lex_string_again lx l rc t,
  )

  lex_at_again :
      (lx l : Lexer F) (rc : Rc) (t : Token)
      → lex_at fl lx ≡ some (rc, t, l)
      → lex_at fl (with_val lx l.cur_val) ≡ some (rc, t, l)
  unfolding lex_at
  lex_at_again lx l rc t e = lex_char_again _ lx l rc t e

  internal_next_again :
      (lx l : Lexer F) (rc : Rc) (t : Token) (last_p : ℕ)
      → internal_next fl lx ≡ some (rc, t, last_p, l)
      → internal_next fl (with_val lx l.cur_val) ≡ some (rc, t, last_p, l)
  unfolding internal_next skip_blank
  internal_next_again lx l rc t last_p e = ground (arith, lex_at_again (skip_blank lx) l rc t)

  -- Where `peek` returns a token, `next` gives the same token, with or without the `peek`, and
  -- leaves the same state.
  pub peek-next :
      (lx l : Lexer F) (rc : Rc) (t : Token)
      → peek fl lx ≡ some (rc, t, l)
      → (next fl l ≡ next fl lx) × ((l' : Lexer F) × (next fl lx ≡ some (rc, t, l')))
  unfolding peek next
  peek-next lx l rc t e = elim (Option-cases (internal_next fl lx)) [
    | inl e' ↦ absurd (ground arith)
    | inr ((rc', t', last_p, l'), e') ↦
        let (back, m) = internal_next-Moves fl lx l' rc' t' last_p e' in
        let mi = m.same_input in
        let again = internal_next_again lx l' rc' t' last_p e' in
        let same : l ≡ with_val lx l'.cur_val = ground arith in
        (rw same (ground arith), (l', ground arith))
  ]
