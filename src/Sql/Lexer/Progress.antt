-- ===== src/Sql/Lexer/Progress.antt =====
-- src/sql/parser/lexer.hpp: the positions of `Lexer` before and after a call.
use mathlib.Core.Path.{subst}
use tadis.Prelude.{
  ℕ, zero, suc, ◌+◌, ◌≤◌, ◌<◌, ◌≡◌, ◌⊎◌, refl, sym, ap, ◌∙◌, Bool, true, false, ◌&&◌, Option, none,
  some, List, [], ◌∷◌, arith, ◌==◌, ltb, leb, if◌then◌else◌, Bool-cases, Option-cases, inl, inr,
  length, take, drop, get_or,
}
use tadis.Common.Rc.{Rc, success, syntax_error}
use tadis.Sql.Token.{
  Token, token_eq, bad_expr, minus_t, not_eq_t, smaller_t, string_t, is_digit, is_start, is_word,
  word_token,
}
use tadis.Sql.Ast.{FloatOps, Any}
use tadis.Sql.Lexer.{
  Lexer, Lexed, run, skip_blank, parse_num, lex_word, lex_num, lex_minus, signed, single,
  lex_quoted, lex_string, lex_char, lex_at, internal_next, next_if,
}

-- The input stays and the position does not go back.
pub record Moves {F : Type 0} (a b : Lexer F) (n : ℕ) : Type 0 where
  pub same_input : b.input ≡ a.input
  pub forward : a.p + n ≤ b.p

unfoldable MovesIf : {F : Type 0} → Lexer F → ℕ → Lexed F → Type 0
MovesIf lx n none = Unit
MovesIf lx n (some (rc, t, l)) = Moves lx l (if token_eq t bad_expr then 0 else n)

Moves-if : {F : Type 0} (a b : Lexer F) (c : Bool) → Moves a b 1 → Moves a b (if c then 0 else 1)
Moves-if a b true m = record { same_input = m.same_input; forward = omega (arith, m.forward) }
Moves-if a b false m = m

-- At a character that passes the test, the run is not empty.
run_pos :
    (ok : ℕ → Bool) (xs : List ℕ) (i : ℕ)
    → ok 0 ≡ false
    → ok (get_or xs i 0) ≡ true
    → 1 ≤ run ok (drop i xs)
unfolding run
run_pos ok [] i z h = absurd (cc)
run_pos ok (x ∷ xs) zero z h = rw h (omega arith)
run_pos ok (x ∷ xs) (suc i) z h = run_pos ok xs i z h

module _ {F : Type 0} (fl : FloatOps F) where
  parse_num-Moves :
      (lx lx' : Lexer F) (t : Token)
      → is_digit (get_or lx.input lx.p 0) ≡ true
      → parse_num fl lx ≡ some (t, lx')
      → Moves lx lx' 1
  unfolding parse_num
  parse_num-Moves lx lx' t d e =
      let pos_run = run_pos is_digit lx.input lx.p refl d in
      record { same_input = ground arith; forward = ground arith }

  lex_word_moves :
      (lx : Lexer F) → is_start (get_or lx.input lx.p 0) ≡ true → MovesIf lx 1 (lex_word fl lx)
  unfolding lex_word MovesIf
  lex_word_moves lx d =
      let pos_run = run_pos is_word lx.input lx.p refl (ground arith) in
      Moves-if lx _
        (token_eq (word_token (take (run is_word (drop lx.p lx.input)) (drop lx.p lx.input)))
          bad_expr)
        (record { same_input = refl; forward = omega arith })

  lex_num_moves :
      (lx : Lexer F) → is_digit (get_or lx.input lx.p 0) ≡ true → MovesIf lx 1 (lex_num fl lx)
  unfolding lex_num MovesIf
  lex_num_moves lx d = elim (Option-cases (parse_num fl lx)) [
    | inl e ↦ rw (e, lex_num) tt
    | inr ((t, l), e) ↦
        rw (e, lex_num) (Moves-if lx l (token_eq t bad_expr) (parse_num-Moves lx l t d e))
  ]

  branch :
      (lx : Lexer F) (c : Bool) (x y : Lexed F)
      → (c ≡ true → MovesIf lx 1 x)
      → (c ≡ false → MovesIf lx 1 y)
      → MovesIf lx 1 (if c then x else y)
  branch lx true x y f g = f refl
  branch lx false x y f g = g refl

  stays : (lx : Lexer F) (rc : Rc) → MovesIf lx 1 (some (rc, bad_expr, lx))
  unfolding MovesIf
  stays lx rc = record { same_input = refl; forward = omega arith }

  advance_moves :
      (lx : Lexer F) (n : ℕ) (t : Token)
      → 1 ≤ n
      → MovesIf lx 1 (some (success, t, record lx { p = lx.p + n }))
  unfolding MovesIf
  advance_moves lx n t h =
      Moves-if lx (record lx { p = lx.p + n }) (token_eq t bad_expr)
        (record { same_input = refl; forward = omega arith })

  single_moves :
      (lx : Lexer F) (o : Option Token)
      → MovesIf lx 1 (elim o [
        | some t ↦ some (success, t, record lx { p = lx.p + 1 })
        | none ↦ some (syntax_error, bad_expr, lx)
      ])
  single_moves lx none = stays lx syntax_error
  single_moves lx (some t) = advance_moves lx 1 t (omega arith)

  negative_moves :
      (lx : Lexer F)
      → is_digit (get_or lx.input (lx.p + 1) 0) ≡ true
      → MovesIf lx 1 (signed fl (parse_num fl (record lx { p = lx.p + 1 })))
  unfolding MovesIf
  negative_moves lx d = elim (Option-cases (parse_num fl (record lx { p = lx.p + 1 }))) [
    | inl e ↦ rw e tt
    | inr ((t, l), e) ↦
        let m = parse_num-Moves (record lx { p = lx.p + 1 }) l t d e in
        rw e (
          Moves-if lx _ (token_eq t bad_expr)
            (record { same_input = m.same_input; forward = omega (arith, m.forward) }))
  ]

  lex_minus_moves : (lx : Lexer F) → MovesIf lx 1 (lex_minus fl lx)
  unfolding lex_minus
  lex_minus_moves lx =
      branch lx _ _ _ (λ c. negative_moves lx (ground arith))
        (λ c. advance_moves lx 1 minus_t (omega arith))

  quoted_moves :
      (lx : Lexer F) (n : ℕ) (a : Any F)
      → MovesIf lx 1 (some (success, string_t, record lx { p = lx.p + 1 + n + 1; cur_val = a }))
  unfolding MovesIf
  quoted_moves lx n a = record { same_input = refl; forward = omega arith }

  lex_quoted_moves : (lx : Lexer F) (n : ℕ) → MovesIf lx 1 (lex_quoted fl lx n)
  unfolding lex_quoted
  lex_quoted_moves lx n =
      branch lx (n == 0) _ _ (λ c. stays lx syntax_error) (λ c. quoted_moves lx _ _)

  lex_string_moves : (lx : Lexer F) → MovesIf lx 1 (lex_string fl lx)
  unfolding lex_string
  lex_string_moves lx = lex_quoted_moves lx _

  lex_char_moves :
      (lx : Lexer F) (ch : ℕ) → ch ≡ get_or lx.input lx.p 0 → MovesIf lx 1 (lex_char fl ch lx)
  unfolding lex_char
  lex_char_moves lx ch e =
      branch lx (is_start ch) _ _ (λ c. lex_word_moves lx (ap is_start (sym e) ∙ c))
        (λ c1.
          branch lx
            (ch == b'0'
              && ltb (lx.p + 1) (length lx.input)
              && is_digit (get_or lx.input (lx.p + 1) 0))
            _ _ (λ c. stays lx syntax_error)
            (λ c2.
              branch lx (is_digit ch) _ _ (λ c. lex_num_moves lx (ap is_digit (sym e) ∙ c))
                (λ c3.
                  branch lx (ch == b'-') _ _ (λ c. lex_minus_moves lx)
                    (λ c4.
                      branch lx (ch == b'<') _ _
                        (λ c.
                          branch lx
                            (ltb (lx.p + 1) (length lx.input)
                              && get_or lx.input (lx.p + 1) 0 == b'>')
                            _ _ (λ d. advance_moves lx 2 not_eq_t (omega arith))
                            (λ d. advance_moves lx 1 smaller_t (omega arith)))
                        (λ c5.
                          branch lx (ch == b'\'') _ _ (λ c. lex_string_moves lx)
                            (λ c6. single_moves lx (single fl ch)))))))

  lex_at_moves : (lx : Lexer F) → MovesIf lx 1 (lex_at fl lx)
  unfolding lex_at
  lex_at_moves lx = lex_char_moves lx _ refl

  Moves-of :
      (lx l : Lexer F) (rc : Rc) (t : Token)
      → MovesIf lx 1 (some (rc, t, l))
      → Moves lx l (if token_eq t bad_expr then 0 else 1)
  unfolding MovesIf
  Moves-of lx l rc t m = m

  skip_moves : (lx : Lexer F) → ((skip_blank lx).input ≡ lx.input) × (lx.p ≤ (skip_blank lx).p)
  unfolding skip_blank
  skip_moves lx = (refl, omega arith)

  -- Where `internal_next` returns, it gives the position before the token, the input is as
  -- before, and the position is past the old one, or, for BAD_EXPR, not before it.
  pub internal_next-Moves :
      (lx l : Lexer F) (rc : Rc) (t : Token) (last_p : ℕ)
      → internal_next fl lx ≡ some (rc, t, last_p, l)
      → (last_p ≡ lx.p) × Moves lx l (if token_eq t bad_expr then 0 else 1)
  unfolding internal_next
  internal_next-Moves lx l rc t last_p e =
      elim (Bool-cases (leb (length (skip_blank lx).input) (skip_blank lx).p)) [
        | inl past ↦
            let skipped = skip_moves lx in
            (ground arith, record { same_input = ground arith; forward = ground arith })
        | inr before ↦ elim (Option-cases (lex_at fl (skip_blank lx))) [
          | inl e' ↦ absurd (ground arith)
          | inr ((rc', t', l'), e') ↦
              let skipped = skip_moves lx in
              let m =
                Moves-of (skip_blank lx) l' rc' t'
                  (subst (MovesIf (skip_blank lx) 1) e' (lex_at_moves (skip_blank lx))) in
              let mi = m.same_input in
              let mf = m.forward in
              (ground arith, record { same_input = ground arith; forward = ground arith })
        ]
      ]

  -- Where `next_if` returns, asked for a token other than BAD_EXPR, it gives SUCCESS exactly on
  -- the token that it asks for, and the position is then past the old one; on any other token it
  -- gives SYNTAX_ERROR and the position is as before. The input stays.
  pub next_if_lem :
      (want t : Token) (lx l : Lexer F) (rc : Rc)
      → token_eq want bad_expr ≡ false
      → next_if fl want lx ≡ some (rc, t, l)
      → ((token_eq t want ≡ true) × (rc ≡ success) × (l.input ≡ lx.input) × (lx.p < l.p))
        ⊎ ((token_eq t want ≡ false) × (rc ≡ syntax_error) × (l.input ≡ lx.input) × (l.p ≡ lx.p))
  unfolding next_if
  next_if_lem want t lx l rc good e = elim (Option-cases (internal_next fl lx)) [
    | inl e' ↦ absurd (ground arith)
    | inr ((rc', t', last_p, l'), e') ↦
        let (back, m) = internal_next-Moves lx l' rc' t' last_p e' in
        let mi = m.same_input in
        let mf = m.forward in
        elim (Bool-cases (token_eq t' want)) [
          | inl same ↦ inl (ground arith, ground arith, ground arith, ground arith)
          | inr other ↦ inr (ground arith, ground arith, ground arith, ground arith)
        ]
  ]

  -- A token other than BAD_EXPR stands before the end of the input.
  pub internal_next-inside :
      (lx l : Lexer F) (rc : Rc) (t : Token) (last_p : ℕ)
      → internal_next fl lx ≡ some (rc, t, last_p, l)
      → token_eq t bad_expr ≡ false
      → lx.p < length lx.input
  unfolding internal_next skip_blank
  internal_next-inside lx l rc t last_p e good =
      elim (Bool-cases (leb (length (skip_blank lx).input) (skip_blank lx).p)) [
        | inl past ↦ absurd (ground (arith, past, e, good))
        | inr before ↦ ground (arith, before)
      ]
