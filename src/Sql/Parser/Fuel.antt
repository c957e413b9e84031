-- ===== src/Sql/Parser/Fuel.antt =====
-- src/sql/parser/parser.hpp: the fuel that is enough for the loops of the parser.
pub mod Statement
use tadis.Prelude.{
  Option, none, some, ℕ, zero, suc, ◌<◌, ◌≡◌, ◌≢◌, Bool, true, false, List, [], arith, length,
}
use tadis.Sql.Ast.{QueryStmt, FloatOps, Value, Condition, RelAttr, ColAttr}
use tadis.Sql.Lexer
use tadis.Sql.Lexer.{Lexer}
use tadis.Sql.Parser
use tadis.Sql.Parser.{
  accept, P, Run, done, fault, out_of_fuel, ◌>>=◌, pure, fail, lex, parse_attr, parse_attrs,
  parse_cols, parse_from, parse_rel, parse_value, parse_values, parse_cond, cond_loop, parse_conds,
}
use tadis.Sql.Parser.Statements.{
  parse_text_size, parse_col_data_type, parse_col_attrs, parse_select, parse_delete, insert_values,
  parse_insert, parse_create_table, parse_create, parse_drop, parse_statement, do_parse, init,
  ParserState, Parsed, reject, require,
}
use tadis.Sql.Token.{Token, delete_t, colon_t, token_eq, star_t, id_t}
use tadis.Common.Rc.{Rc, success, rc_success}
use tadis.Sql.Parser.Ends.{
  Ends, Ended, Ends-fail, Ends-peek, Ends-next_if, Ends-pure, Ends-if, ends_rules, Ends-bind,
  Ends-comma, Ends-elim, Ends-option, Ends-next, Ends-take_text,
}

module _ {F : Type 0} (fl : FloatOps F) {n : ℕ} where
  Ends-parse_attr : (name : List ℕ) → Ends n (parse_attr fl name)
  unfolding parse_attr
  Ends-parse_attr name = search (ends_rules) depth 20

  Ends-parse_rel : (name : List ℕ) → Ends n (parse_rel fl name)
  unfolding parse_rel
  Ends-parse_rel name = search (ends_rules) depth 20

  Ends-parse_value : Ends n (parse_value fl)
  unfolding parse_value
  Ends-parse_value = search (ends_rules, Ends-parse_rel) depth 20

  Ends-parse_cond : Ends n (parse_cond fl)
  unfolding parse_cond
  Ends-parse_cond = search (ends_rules, Ends-parse_value) depth 20

-- With more fuel than characters, each loop ends.
pub Ends-parse_cols :
    {F : Type 0} (fl : FloatOps F) (n fuel : ℕ) (cols : List (List ℕ))
    → n < fuel
    → Ends n (parse_cols fl fuel cols)
unfolding parse_cols
Ends-parse_cols fl n zero cols h = absurd (omega arith)
Ends-parse_cols fl n (suc fuel) cols h =
    let again : (k : ℕ) (c : List (List ℕ)) → n ≡ suc k → Ends k (parse_cols fl fuel c) =
      λ k c e. Ends-parse_cols fl k fuel c (omega arith) in
    Ends-bind _ _ (search (ends_rules)) (λ ok.
      Ends-elim ok _ _
        (Ends-bind _ _ (search (ends_rules))
          (λ name. Ends-comma fl _ _ (λ k e. again k _ e) (search (ends_rules))))
        (search (ends_rules)))

pub Ends-parse_values :
    {F : Type 0} (fl : FloatOps F) (n fuel : ℕ) (vs : List (Value F))
    → n < fuel
    → Ends n (parse_values fl fuel vs)
unfolding parse_values
Ends-parse_values fl n zero vs h = absurd (omega arith)
Ends-parse_values {F} fl n (suc fuel) vs h =
    let again : (k : ℕ) (c : List (Value F)) → n ≡ suc k → Ends k (parse_values fl fuel c) =
      λ k c e. Ends-parse_values fl k fuel c (omega arith) in
    Ends-bind _ _ (Ends-parse_value fl) (λ v.
      Ends-elim (rc_success v.0) _ _
        (Ends-elim (Parser.is_constant fl v.1) _ _
          (Ends-comma fl _ _ (λ k e. again k _ e) (search (ends_rules))) (search (ends_rules)))
        (search (ends_rules)))

Ends-cond_loop :
    {F : Type 0} (fl : FloatOps F) (n fuel : ℕ) (cs : List (Condition F))
    → n < fuel
    → Ends n (cond_loop fl fuel cs)
unfolding cond_loop
Ends-cond_loop fl n zero cs h = absurd (omega arith)
Ends-cond_loop {F} fl n (suc fuel) cs h =
    let again : (k : ℕ) (c : List (Condition F)) → n ≡ suc k → Ends k (cond_loop fl fuel c) =
      λ k c e. Ends-cond_loop fl k fuel c (omega arith) in
    Ends-bind _ _ (Ends-parse_cond fl) (λ c.
      Ends-option c.1 _ _ (search (ends_rules))
        (λ cond. Ends-comma fl _ _ (λ k e. again k _ e) (search (ends_rules))))

pub Ends-parse_attrs :
    {F : Type 0} (fl : FloatOps F) (n fuel : ℕ) (as_ : List RelAttr)
    → n < fuel
    → Ends n (parse_attrs fl fuel as_)
unfolding parse_attrs
Ends-parse_attrs fl n zero as_ h = absurd (omega arith)
Ends-parse_attrs fl n (suc fuel) as_ h =
    let again : (k : ℕ) (c : List RelAttr) → n ≡ suc k → Ends k (parse_attrs fl fuel c) =
      λ k c e. Ends-parse_attrs fl k fuel c (omega arith) in
    Ends-bind _ _ (Ends-next fl) (λ r.
      Ends-elim (rc_success r.0) _ _
        (Ends-elim (token_eq r.1 star_t) _ _ (search (ends_rules)) (
          Ends-elim (token_eq r.1 id_t) _ _
            (Ends-bind _ _ Ends-take_text (λ name. Ends-bind _ _ (Ends-parse_attr fl name) (λ a.
              Ends-elim (rc_success a.0) _ _
                (Ends-comma fl _ _ (λ k e. again k _ e) (search (ends_rules)))
                (search (ends_rules)))))
            (search (ends_rules))))
        (search (ends_rules)))

pub Ends-parse_from :
    {F : Type 0} (fl : FloatOps F) (n fuel : ℕ) → n < fuel → Ends n (parse_from fl fuel)
unfolding parse_from
Ends-parse_from fl n fuel h =
    let cols : (c : List (List ℕ)) → Ends n (parse_cols fl fuel c) =
      λ c. Ends-parse_cols fl n fuel c h in
    search (ends_rules, cols) depth 20

pub Ends-parse_conds :
    {F : Type 0} (fl : FloatOps F) (n fuel : ℕ) → n < fuel → Ends n (parse_conds fl fuel)
unfolding parse_conds
Ends-parse_conds {F} fl n fuel h =
    let conds : (c : List (Condition F)) → Ends n (cond_loop fl fuel c) =
      λ c. Ends-cond_loop fl n fuel c h in
    search (ends_rules, conds) depth 20

module _ {F : Type 0} (fl : FloatOps F) {n : ℕ} where
  Ends-parse_text_size : (name type_name : List ℕ) → Ends n (parse_text_size fl name type_name)
  unfolding parse_text_size
  Ends-parse_text_size name type_name = search (ends_rules) depth 20

  Ends-parse_col_data_type : (name : List ℕ) → Ends n (parse_col_data_type fl name)
  unfolding parse_col_data_type
  Ends-parse_col_data_type name = search (ends_rules, Ends-parse_text_size) depth 20

pub Ends-parse_col_attrs :
    {F : Type 0} (fl : FloatOps F) (n fuel : ℕ) (cs : List ColAttr)
    → n < fuel
    → Ends n (parse_col_attrs fl fuel cs)
unfolding parse_col_attrs
Ends-parse_col_attrs fl n zero cs h = absurd (omega arith)
Ends-parse_col_attrs fl n (suc fuel) cs h =
    let again : (k : ℕ) (c : List ColAttr) → n ≡ suc k → Ends k (parse_col_attrs fl fuel c) =
      λ k c e. Ends-parse_col_attrs fl k fuel c (omega arith) in
    Ends-bind _ _ (search (ends_rules)) (λ ok.
      Ends-elim ok _ _
        (Ends-bind _ _ Ends-take_text (λ name.
          Ends-bind _ _ (Ends-parse_col_data_type fl name) (λ c.
            Ends-elim (rc_success c.0) _ _
              (Ends-comma fl _ _ (λ k e. again k _ e) (search (ends_rules)))
              (search (ends_rules)))))
        (search (ends_rules)))
