-- ===== src/Sql/Parser/Ends.antt =====
-- src/sql/parser/parser.hpp: parsers that do not run out of fuel, one rule for each way to build a
-- parser.
use tadis.Prelude.{
  ℕ, suc, ◌-◌, ◌≤◌, ◌≡◌, sym, subst, Bool, true, false, Option, none, some, [], ap, arith, length,
  if◌then◌else◌, Option-cases, Bool-cases, inl, inr,
}
use tadis.Common.Rc.{success, syntax_error}
use tadis.Sql.Token.{Token, token_eq, bad_expr, commas_t}
use tadis.Sql.Ast.{FloatOps, Any, text, long, float, empty, rel}
use tadis.Sql.Lexer
use tadis.Sql.Lexer.{Lexer, Lexed, internal_next, skip_blank}
use tadis.Sql.Lexer.Progress.{Moves, internal_next-Moves, internal_next-inside}
use tadis.Sql.Parser.{
  P, Run, done, fault, out_of_fuel, ◌>>=◌, pure, fail, lex, next, peek, accept, take_text, take_any,
  take_long, take_float,
}

-- The characters in front of the lexer.
abbrev pub left : {F : Type 0} → Lexer F → ℕ
left lx = length lx.input - lx.p

abbrev pub Ended : {F A : Type 0} → ℕ → Run (A × Lexer F) → Type 0
Ended n (done (a, lx)) = left lx ≤ n
Ended n fault = Unit
Ended n out_of_fuel = ⊥

-- With at most `n` characters left, the parser does not run out of fuel, and as many are left after it.
pub record Ends {F A : Type 0} (n : ℕ) (m : P F A) : Type 0 where
  pub at : (lx : Lexer F) → left lx ≤ n → Ended n (m lx)

module _ {F A : Type 0} {n : ℕ} where
  pub Ends-pure : (a : A) → Ends {F = F} n (pure a)
  unfolding pure
  Ends-pure a = record { at = λ lx h. h }

  pub Ends-fail : Ends {F = F} {A = A} n fail
  unfolding fail
  Ends-fail = record { at = λ lx h. tt }

  pub Ends-if : (b : Bool) (x y : P F A) → Ends n x → Ends n y → Ends n (if b then x else y)
  Ends-if true x y ex ey = ex
  Ends-if false x y ex ey = ey

  pub Ends-elim :
      (b : Bool) (x y : P F A) → Ends n x → Ends n y → Ends n (elim b [ true ↦ x | false ↦ y ])
  Ends-elim true x y ex ey = ex
  Ends-elim false x y ex ey = ey

module _ {F A B : Type 0} {n : ℕ} where
  pub Ends-option :
      (o : Option B) (x : P F A) (f : B → P F A)
      → Ends n x
      → ((b : B) → Ends n (f b))
      → Ends n (elim o [ none ↦ x | some b ↦ f b ])
  Ends-option none x f ex ef = ex
  Ends-option (some b) x f ex ef = ef b

  Ended-then :
      (r : Run (A × Lexer F)) (f : A → P F B)
      → Ended n r
      → ((a : A) → Ends n (f a))
      → Ended n (elim r [ done (a, lx) ↦ f a lx | fault ↦ fault | out_of_fuel ↦ out_of_fuel ])
  Ended-then (done (a, lx)) f h k = (k a).at lx h
  Ended-then fault f h k = tt
  Ended-then out_of_fuel f h k = h

  pub Ends-bind :
      (m : P F A) (f : A → P F B) → Ends n m → ((a : A) → Ends n (f a)) → Ends n (m >>= f)
  unfolding ◌>>=◌
  Ends-bind m f e k = record { at = λ lx h. Ended-then (m lx) f (e.at lx h) k }

module _ {F : Type 0} {n : ℕ} where
  pub Ends-take_text : Ends {F = F} n take_text
  unfolding take_text
  Ends-take_text = record { at = λ lx h. go lx lx.cur_val h }
    where
      go :
          (lx : Lexer F) (v : Any F)
          → left lx ≤ n
          → Ended n (elim v [ text s ↦ done (s, record lx { cur_val = text [] }) | _ ↦ fault ])
      go lx (text s) h = h
      go lx (long s) h = tt
      go lx (float s) h = tt
      go lx (rel s) h = tt
      go lx empty h = tt

  pub Ends-take_any : Ends {F = F} n take_any
  unfolding take_any
  Ends-take_any = record { at = λ lx h. h }

  pub Ends-take_long : Ends {F = F} n take_long
  unfolding take_long
  Ends-take_long = record { at = λ lx h. go lx lx.cur_val h }
    where
      go :
          (lx : Lexer F) (v : Any F)
          → left lx ≤ n
          → Ended n (elim v [ long s ↦ done (s, lx) | _ ↦ fault ])
      go lx (text s) h = tt
      go lx (long s) h = h
      go lx (float s) h = tt
      go lx (rel s) h = tt
      go lx empty h = tt

  pub Ends-take_float : Ends {F = F} n take_float
  unfolding take_float
  Ends-take_float = record { at = λ lx h. go lx lx.cur_val h }
    where
      go :
          (lx : Lexer F) (v : Any F)
          → left lx ≤ n
          → Ended n (elim v [ float s ↦ done (s, lx) | _ ↦ fault ])
      go lx (text s) h = tt
      go lx (long s) h = tt
      go lx (float s) h = h
      go lx (rel s) h = tt
      go lx empty h = tt

Moves-left : {F : Type 0} (a b : Lexer F) (k : ℕ) → Moves a b k → left b ≤ left a
Moves-left a b k m = omega (arith, ap length m.same_input, m.forward)

not_bad : (t : Token) → token_eq t commas_t ≡ true → token_eq t bad_expr ≡ false
not_bad t h = ground arith

Ended-weaken : {F A : Type 0} (n k : ℕ) (r : Run (A × Lexer F)) → k ≤ n → Ended k r → Ended n r
Ended-weaken n k (done (a, lx)) le h = omega arith
Ended-weaken n k fault le h = tt
Ended-weaken n k out_of_fuel le h = h

-- A run that is known.
Ended-of :
    {F A : Type 0} (n : ℕ) {r : Run (A × Lexer F)} (r' : Run (A × Lexer F))
    → r ≡ r'
    → Ended n r'
    → Ended n r
Ended-of n r' e h = subst (Ended n) (sym e) h

module _ {F : Type 0} (fl : FloatOps F) {n : ℕ} where
  pub Ends-next : Ends n (next fl)
  unfolding lex Lexer.next
  Ends-next = record {
    at = λ lx h. elim (Option-cases (internal_next fl lx)) [
      | inl e ↦ Ended-of n fault (ground (arith, e)) tt
      | inr ((rc, t, last_p, l), e) ↦
          let (back, m) = internal_next-Moves fl lx l rc t last_p e in
          Ended-of n (done ((rc, t), l)) (ground (arith, e)) (omega (arith, Moves-left lx l _ m))
    ];
  }

  pub Ends-peek : Ends n (peek fl)
  unfolding lex Lexer.peek
  Ends-peek = record {
    at = λ lx h. elim (Option-cases (internal_next fl lx)) [
      | inl e ↦ Ended-of n fault (ground (arith, e)) tt
      | inr ((rc, t, last_p, l), e) ↦
          let (back, m) = internal_next-Moves fl lx l rc t last_p e in
          Ended-of n (done ((rc, t), record l { p = last_p })) (ground (arith, e))
            (omega (arith, ap length m.same_input, back))
    ];
  }

  pub Ends-next_if : (want : Token) → Ends n (lex (Lexer.next_if fl want))
  unfolding lex Lexer.next_if
  Ends-next_if want = record {
    at = λ lx h. elim (Option-cases (internal_next fl lx)) [
      | inl e ↦ Ended-of n fault (ground (arith, e)) tt
      | inr ((rc, t, last_p, l), e) ↦
          let (back, m) = internal_next-Moves fl lx l rc t last_p e in
          elim (Bool-cases (token_eq t want)) [
            | inl same ↦
                Ended-of n (done ((success, t), l)) (ground (arith, e, same))
                  (omega (arith, Moves-left lx l _ m))
            | inr other ↦
                Ended-of n (done ((syntax_error, t), record l { p = last_p }))
                  (ground (arith, e, other)) (omega (arith, ap length m.same_input, back))
          ]
    ];
  }

  -- After a comma fewer characters are left.
  pub Ends-comma :
      {A : Type 0} (x y : P F A)
      → ((k : ℕ) → n ≡ suc k → Ends k x)
      → Ends n y
      → Ends n (accept fl commas_t >>= λ c. elim c [ true ↦ x | false ↦ y ])
  unfolding ◌>>=◌ pure lex Lexer.next_if
  Ends-comma x y ex ey = record {
    at = λ lx h. elim (Option-cases (internal_next fl lx)) [
      | inl e ↦ Ended-of n fault (ground (arith, e)) tt
      | inr ((rc, t, last_p, l), e) ↦
          let (back, m) = internal_next-Moves fl lx l rc t last_p e in
          elim (Bool-cases (token_eq t commas_t)) [
            | inl same ↦
                let good : token_eq t bad_expr ≡ false = not_bad t same in
                let inside = internal_next-inside fl lx l rc t last_p e good in
                let m1 : Moves lx l 1 =
                  subst (λ (b : Bool). Moves lx l (if b then 0 else 1)) good m in
                let fewer : suc (left l) ≤ n =
                  omega (arith, ap length m1.same_input, m1.forward, inside) in
                Ended-of n (x l) (ground (arith, e, same)) (
                  Ended-weaken n (n - 1) (x l) (omega arith)
                    ((ex (n - 1) (omega arith)).at l (omega arith)))
            | inr other ↦
                let l' : Lexer F = record l { p = last_p } in
                Ended-of n (y l') (ground (arith, e, other))
                  (ey.at l' (omega (arith, ap length m.same_input, back)))
          ]
    ];
  }

pub ruleset ends_rules = (
  Ends-pure, Ends-fail, Ends-take_text, Ends-take_any, Ends-take_long, Ends-take_float, Ends-next,
  Ends-peek, Ends-next_if, Ends-if, Ends-elim, Ends-comma, Ends-bind,
)
