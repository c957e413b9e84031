-- ===== src/Sql/Parser/Statements.antt =====
-- src/sql/parser/parser.hpp: the statements, and `do_parse`.
use tadis.Prelude.{
  ℕ, zero, suc, Bool, true, false, not, ◌&&◌, Option, none, some, List, [], ◌∷◌, ◌++◌,
  if◌then◌else◌,
}
use tadis.Common.Rc.{Rc, success, syntax_error, rc_success}
use tadis.Sql.Token.{
  Token, select_t, insert_t, create_t, delete_t, drop_t, where_t, into_t, values_t, table_t, id_t,
  integer_t, colon_t, commas_t, star_t, lbrace_t, rbrace_t, s_char_t, s_varchar_t, s_int_t,
  s_float_t,
}
use tadis.Sql.Ast.{
  FloatOps, QueryStmt, select_stmt, delete_stmt, insert_stmt, create_stmt, drop_stmt, ColAttr,
}
use tadis.Sql.Lexer.{Lexer}
use tadis.Sql.Lexer
use tadis.Sql.Parser
use tadis.Sql.Parser.{
  P, Run, done, fault, out_of_fuel, ◌>>=◌, pure, fail, spent, take_text, take_long, size_of_long,
  parse_attrs, parse_cols, parse_from, parse_values, parse_conds,
}

-- The state of a `Parser`.
pub record ParserState (F : Type 0) : Type 0 where
  pub lexer : Lexer F
  pub query : QueryStmt F

abbrev pub empty_query : {F : Type 0} → QueryStmt F
empty_query = select_stmt (record { selist = []; from_list = []; cond_list = [] })

-- The constructor.
unfoldable pub init : {F : Type 0} → List ℕ → ParserState F
unfolding Lexer.init
init input = record { lexer = Lexer.init input; query = empty_query }

-- What a statement gives: its code, and `query_` if it sets it.
abbrev pub Parsed : Type 0 → Type 0
Parsed F = P F (Rc × Option (QueryStmt F))

unfoldable pub reject : {F : Type 0} → Parsed F
reject = pure (syntax_error, none)

-- The rest of a statement, once a token has been found.
unfoldable pub require : {F : Type 0} → P F Bool → Parsed F → Parsed F
require found rest = do ok ← found; elim ok [ true ↦ rest | false ↦ reject ]

module _ {F : Type 0} (fl : FloatOps F) where
  abbrev next : P F (Rc × Token)
  next = Parser.next fl

  abbrev peek : P F (Rc × Token)
  peek = Parser.peek fl

  abbrev accept : Token → P F Bool
  accept = Parser.accept fl

  abbrev is : Token → Rc × Token → Bool
  is = Parser.is fl

  unfoldable pub parse_select : ℕ → Parsed F
  parse_select fuel = do
    t ← next
    if not (is select_t t && rc_success t.0) then fail else (do
      a ← parse_attrs fl fuel []
      if not (rc_success a.0)
          then pure
              (a.0, some (select_stmt (record { selist = a.1; from_list = []; cond_list = [] })))
          else (do
            f ← parse_from fl fuel
            if not (rc_success f.0)
                then pure (
                  f.0,
                  some (select_stmt (record { selist = a.1; from_list = f.1; cond_list = [] })),
                )
                else (do
                  c ← parse_conds fl fuel
                  pure (
                    c.0,
                    some (select_stmt (record { selist = a.1; from_list = f.1; cond_list = c.1 })),
                  ))))

  unfoldable pub parse_delete : ℕ → Parsed F
  parse_delete fuel = require (accept delete_t) (do
    star ← Parser.lex (Lexer.next_if fl star_t)
    f ← parse_from fl fuel
    if not (rc_success f.0) then pure (f.0, none) else (do
      t ← peek
      if is where_t t && is star_t star then reject else (do
        c ← parse_conds fl fuel
        if not (rc_success c.0) then pure (c.0, none) else (do
          ok ← accept colon_t
          pure (
            if ok then success else syntax_error,
            some (delete_stmt (record { tables = f.1; conds = c.1 })),
          )))))

  -- `parse_insert` from the parenthesis of the values on.
  unfoldable pub insert_values : ℕ → List ℕ → List (List ℕ) → Parsed F
  insert_values fuel name cols = require (accept lbrace_t) (do
    v ← parse_values fl fuel []
    if not (rc_success v.0)
        then reject
        else require (accept rbrace_t) (
            require (accept colon_t) (
              pure (
                success,
                some (insert_stmt (record { table_name = name; cols = cols; values = v.1 })),
              ))))

  unfoldable pub parse_insert : ℕ → Parsed F
  parse_insert fuel = require (accept insert_t) (
      require (accept into_t) (
        require (accept id_t) (do
          name ← take_text
          t ← next
          if not (rc_success t.0)
              then pure (t.0, none)
              else if is lbrace_t t
              then (do
                c ← parse_cols fl fuel []
                if not (rc_success c.0)
                    then pure (c.0, none)
                    else require (accept rbrace_t)
                        (require (accept values_t) (insert_values fuel name c.1)))
              else if is values_t t
              then insert_values fuel name []
              else reject)))

  -- The size of a text type, in parentheses.
  unfoldable pub parse_text_size : List ℕ → List ℕ → P F (Rc × ColAttr)
  parse_text_size name type_name = do
    let unsized : ColAttr = record { name = name; type_name = type_name; size = 0 }
    opened ← accept lbrace_t
    if not opened then pure (syntax_error, unsized) else (do
      int ← accept integer_t
      if not int then pure (syntax_error, unsized) else (do
        n ← take_long
        close ← accept rbrace_t
        pure (
          if close then success else syntax_error,
          record { name = name; type_name = type_name; size = size_of_long n },
        )))

  unfoldable pub parse_col_data_type : List ℕ → P F (Rc × ColAttr)
  parse_col_data_type name = do
    let sized : List ℕ → ColAttr = λ t. record { name = name; type_name = t; size = 0 }
    t ← next
    if not (rc_success t.0)
        then pure (syntax_error, sized [])
        else if is s_int_t t
        then pure (success, sized (b'I' ∷ b'N' ∷ b'T' ∷ []))
        else if is s_float_t t
        then pure (success, sized (b'F' ∷ b'L' ∷ b'O' ∷ b'A' ∷ b'T' ∷ []))
        else if is s_char_t t
        then parse_text_size name (b'C' ∷ b'H' ∷ b'A' ∷ b'R' ∷ [])
        else if is s_varchar_t t
        then parse_text_size name (b'V' ∷ b'A' ∷ b'R' ∷ b'C' ∷ b'H' ∷ b'A' ∷ b'R' ∷ [])
        else pure (syntax_error, sized [])

  unfoldable pub parse_col_attrs : ℕ → List ColAttr → P F (Rc × List ColAttr)
  parse_col_attrs zero attrs = spent
  parse_col_attrs (suc fuel) attrs = do
    ok ← accept id_t
    elim ok [
      | false ↦ pure (syntax_error, attrs)
      | true ↦ do
        name ← take_text
        c ← parse_col_data_type name
        elim (rc_success c.0) [
          | false ↦ pure (syntax_error, attrs)
          | true ↦ do
            comma ← accept commas_t
            elim comma [
              | true ↦ parse_col_attrs fuel (attrs ++ (c.1 ∷ []))
              | false ↦ pure (success, attrs ++ (c.1 ∷ []))
            ]
        ]
    ]

  unfoldable pub parse_create_table : ℕ → Parsed F
  parse_create_table fuel = require (accept table_t) (
      require (accept id_t) (do
        name ← take_text
        require (accept lbrace_t) (do
          c ← parse_col_attrs fuel []
          if not (rc_success c.0)
              then reject
              else require (accept rbrace_t) (
                  require (accept colon_t) (
                    pure (
                      success,
                      some (create_stmt (record { created_name = name; col_attrs = c.1 })),
                    ))))))

  unfoldable pub parse_create : ℕ → Parsed F
  parse_create fuel =
      require (accept create_t)
        (do t ← peek; if is table_t t then parse_create_table fuel else reject)

  -- A token that is not the one expected ends `parse_drop` with the code of the lexer.
  unfoldable pub parse_drop : Parsed F
  parse_drop = do
    t ← next
    if not (rc_success t.0 && is drop_t t) then pure (t.0, none) else (do
      u ← next
      if not (rc_success u.0 && is table_t u) then pure (u.0, none) else (do
        v ← next
        if not (rc_success v.0 && is id_t v) then pure (v.0, none) else (do
          name ← take_text
          w ← next
          pure (
            if rc_success w.0 && is colon_t w then success else syntax_error,
            some (drop_stmt (record { dropped = name })),
          ))))

  unfoldable pub parse_statement : ℕ → Parsed F
  parse_statement fuel = do
    t ← peek
    if is select_t t
        then parse_select fuel
        else if is create_t t
        then parse_create fuel
        else if is delete_t t
        then parse_delete fuel
        else if is insert_t t
        then parse_insert fuel
        else if is drop_t t
        then parse_drop
        else reject

  unfoldable pub do_parse : ℕ → ParserState F → Run (Rc × ParserState F)
  unfolding parse_statement
  do_parse fuel p = elim (parse_statement fuel p.lexer) [
    | fault ↦ fault
    | out_of_fuel ↦ out_of_fuel
    | done (r, lx) ↦
        done (r.0, record { lexer = lx; query = elim r.1 [ none ↦ p.query | some q ↦ q ] })
  ]
