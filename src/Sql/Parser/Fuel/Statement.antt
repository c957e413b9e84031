-- ===== src/Sql/Parser/Fuel/Statement.antt =====
-- src/sql/parser/parser.hpp: the fuel that is enough for a statement.
use tadis.Prelude.{Option, none, some, ℕ, ◌<◌, ◌≢◌, Bool, List, [], arith, length}
use tadis.Sql.Ast.{QueryStmt, FloatOps, Value, ColAttr}
use tadis.Sql.Lexer
use tadis.Sql.Lexer.{Lexer}
use tadis.Sql.Parser.{accept, P, Run, done, fault, out_of_fuel, parse_cols, parse_values}
use tadis.Sql.Parser.Statements.{
  ParserState, parse_col_attrs, parse_select, parse_delete, insert_values, parse_insert,
  parse_create_table, parse_create, parse_drop, parse_statement, do_parse, init, Parsed, reject,
  require,
}
use tadis.Sql.Token.{Token, delete_t, colon_t, star_t}
use tadis.Common.Rc.{Rc}
use tadis.Sql.Parser.Ends.{
  Ends, Ended, Ends-fail, Ends-peek, Ends-next_if, Ends-pure, Ends-if, ends_rules, Ends-bind,
  Ends-elim, Ends-next,
}
use tadis.Sql.Parser.Fuel.{
  Ends-parse_attrs, Ends-parse_col_attrs, Ends-parse_cols, Ends-parse_conds, Ends-parse_from,
  Ends-parse_values,
}

module _ {F : Type 0} {n : ℕ} where
  Ends-reject : Ends {F = F} n reject
  unfolding reject
  Ends-reject = Ends-pure _

  Ends-require :
      (found : P F Bool) (rest : Parsed F)
      → Ends n found
      → Ends n rest
      → Ends n (require found rest)
  unfolding require
  Ends-require found rest e k = Ends-bind found _ e (λ ok. Ends-elim ok rest reject k Ends-reject)

module _ {F : Type 0} (fl : FloatOps F) (n fuel : ℕ) (h : n < fuel) where
  Ends-accept : (want : Token) → Ends n (accept fl want)
  Ends-accept want = search (ends_rules)

  Ends-parse_select : Ends n (parse_select fl fuel)
  unfolding parse_select
  Ends-parse_select = Ends-bind _ _ (Ends-next fl) (λ t. Ends-if _ _ _ Ends-fail (
      Ends-bind _ _ (Ends-parse_attrs fl n fuel [] h) (λ a. Ends-if _ _ _ (Ends-pure _) (
        Ends-bind _ _ (Ends-parse_from fl n fuel h) (λ f.
          Ends-if _ _ _ (Ends-pure _)
            (Ends-bind _ _ (Ends-parse_conds fl n fuel h) (λ c. Ends-pure _)))))))

  Ends-parse_delete : Ends n (parse_delete fl fuel)
  unfolding parse_delete
  Ends-parse_delete = Ends-require _ _ (Ends-accept delete_t) (
      Ends-bind _ _ (Ends-next_if fl star_t) (λ star.
        Ends-bind _ _ (Ends-parse_from fl n fuel h) (λ f. Ends-if _ _ _ (Ends-pure _) (
          Ends-bind _ _ (Ends-peek fl) (λ t. Ends-if _ _ _ Ends-reject (
            Ends-bind _ _ (Ends-parse_conds fl n fuel h) (λ c.
              Ends-if _ _ _ (Ends-pure _)
                (Ends-bind _ _ (Ends-accept colon_t) (λ ok. Ends-pure _)))))))))

  Ends-insert_values :
      (name : List ℕ) (cols : List (List ℕ)) → Ends n (insert_values fl fuel name cols)
  unfolding insert_values
  Ends-insert_values name cols =
      let values : (v : List (Value F)) → Ends n (parse_values fl fuel v) =
        λ v. Ends-parse_values fl n fuel v h in
      search (ends_rules, Ends-reject, Ends-require, values) depth 30

  Ends-parse_insert : Ends n (parse_insert fl fuel)
  unfolding parse_insert
  Ends-parse_insert =
      let cols : (c : List (List ℕ)) → Ends n (parse_cols fl fuel c) =
        λ c. Ends-parse_cols fl n fuel c h in
      search (ends_rules, Ends-reject, Ends-require, cols, Ends-insert_values) depth 30

  Ends-parse_create_table : Ends n (parse_create_table fl fuel)
  unfolding parse_create_table
  Ends-parse_create_table =
      let attrs : (c : List ColAttr) → Ends n (parse_col_attrs fl fuel c) =
        λ c. Ends-parse_col_attrs fl n fuel c h in
      search (ends_rules, Ends-reject, Ends-require, attrs) depth 30

  Ends-parse_create : Ends n (parse_create fl fuel)
  unfolding parse_create
  Ends-parse_create =
      search (ends_rules, Ends-reject, Ends-require, Ends-parse_create_table) depth 30

  Ends-parse_drop : Ends n (parse_drop fl)
  unfolding parse_drop
  Ends-parse_drop = search (ends_rules) depth 30

  Ends-parse_statement : Ends n (parse_statement fl fuel)
  unfolding parse_statement
  Ends-parse_statement = Ends-bind _ _ (Ends-peek fl) (λ t. Ends-if _ _ _ Ends-parse_select (
      Ends-if _ _ _ Ends-parse_create (
        Ends-if _ _ _ Ends-parse_delete
          (Ends-if _ _ _ Ends-parse_insert (Ends-if _ _ _ Ends-parse_drop Ends-reject)))))

-- With more fuel than the statement has characters, the parser does not run out of it.
pub do_parse_fuel :
    {F : Type 0} (fl : FloatOps F) (fuel : ℕ) (sql : List ℕ)
    → length sql < fuel
    → do_parse fl fuel (init sql) ≢ out_of_fuel
unfolding do_parse init Lexer.init
do_parse_fuel {F} fl fuel sql h =
    kept (parse_statement fl fuel (init sql).lexer)
      ((Ends-parse_statement fl (length sql) fuel h).at (init sql).lexer (omega arith))
  where
    query : QueryStmt F
    query = (init sql).query

    kept :
        (r : Run ((Rc × Option (QueryStmt F)) × Lexer F))
        → Ended (length sql) r
        → ◌≢◌ {A = Run (Rc × ParserState F)}
            (elim r [
              | fault ↦ fault
              | out_of_fuel ↦ out_of_fuel
              | done (r, lx) ↦
                  done (r.0, record { lexer = lx; query = elim r.1 [ none ↦ query | some q ↦ q ] })
            ])
            out_of_fuel
    kept (done (r, lx)) e = ground arith
    kept fault e = ground arith
    kept out_of_fuel e = absurd e
