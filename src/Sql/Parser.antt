-- ===== src/Sql/Parser.antt =====
-- src/sql/parser/parser.hpp: `Parser<std::string>`. A parsing function returns its code beside
-- what it has put into its reference argument; a statement that is none leaves `query_` alone.
-- The loops run on fuel.
pub mod Statements
pub mod Ends
pub mod Fuel
use tadis.Prelude.{
  ℕ, zero, suc, ◌+◌, ◌-◌, ◌*◌, ◌%◌, Bool, true, false, not, ◌&&◌, ◌||◌, Option, none, some, List,
  [], ◌∷◌, ◌++◌, length, if◌then◌else◌,
}
use tadis.Prelude.Int.{ℤ, pos_part, neg_part}
use tadis.Common.Rc.{Rc, success, syntax_error, rc_success}
use tadis.Storage.Def.{size_mod}
use tadis.Sql.Token.{
  Token, select_t, insert_t, create_t, delete_t, drop_t, from_t, where_t, into_t, values_t, table_t,
  id_t, float_t, integer_t, string_t, colon_t, dot_t, commas_t, star_t, lbrace_t, rbrace_t, null_t,
  s_char_t, s_varchar_t, s_int_t, s_float_t, token_eq,
}
use tadis.Sql.Ast.{
  FloatOps, RelAttr, CondOp, undefined, token2op, Any, empty, text, long, float, rel, Value,
  no_value, rel_attr, string, ints, floats, null_a, undefined_a, attr_code, Condition, SelectStmt,
  DeleteStmt, InsertStmt, ColAttr, CreateTableStmt, DropStmt, QueryStmt, select_stmt, delete_stmt,
  insert_stmt, create_stmt, drop_stmt,
}
use tadis.Sql.Lexer
use tadis.Sql.Lexer.{Lexer, Lexed}

-- `fault` is undefined behaviour, a failed assertion, a bad cast or an exception.
pub data Run (A : Type 0) : Type 0 where
  done : A → Run A
  fault : Run A
  out_of_fuel : Run A

abbrev pub P : Type 0 → Type 0 → Type 0
P F A = Lexer F → Run (A × Lexer F)

infixl 5 ◌>>=◌
unfoldable pub ◌>>=◌ : {F A B : Type 0} → P F A → (A → P F B) → P F B
◌>>=◌ m f lx = elim (m lx) [ done (a, lx') ↦ f a lx' | fault ↦ fault | out_of_fuel ↦ out_of_fuel ]

unfoldable pub pure : {F A : Type 0} → A → P F A
pure a lx = done (a, lx)

unfoldable pub fail : {F A : Type 0} → P F A
fail lx = fault

unfoldable pub spent : {F A : Type 0} → P F A
spent lx = out_of_fuel

-- A call of the lexer.
unfoldable pub lex : {F : Type 0} → (Lexer F → Lexed F) → P F (Rc × Token)
lex f lx = elim (f lx) [ none ↦ fault | some (rc, t, lx') ↦ done ((rc, t), lx') ]

-- `std::move(lexer_.cur_ref<std::string>())`, which leaves an empty string.
unfoldable pub take_text : {F : Type 0} → P F (List ℕ)
take_text lx = elim lx.cur_val [ text s ↦ done (s, record lx { cur_val = text [] }) | _ ↦ fault ]

-- `std::move(lexer_.cur_any_ref())`
unfoldable pub take_any : {F : Type 0} → P F (Any F)
take_any lx = done (lx.cur_val, record lx { cur_val = empty })

-- `cur_ref<long>()` and `cur_ref<float>()`, as a value.
unfoldable pub take_long : {F : Type 0} → P F ℤ
take_long lx = elim lx.cur_val [ long n ↦ done (n, lx) | _ ↦ fault ]

unfoldable pub take_float : {F : Type 0} → P F F
take_float lx = elim lx.cur_val [ float x ↦ done (x, lx) | _ ↦ fault ]

abbrev pub size_of_long : ℤ → ℕ
size_of_long n = (pos_part n % size_mod + size_mod - neg_part n % size_mod) % size_mod

abbrev star_attr : RelAttr
star_attr = record { table = []; attribute = b'*' ∷ [] }

abbrev is_op : CondOp → Bool
is_op undefined = false
is_op _ = true

abbrev no_attrs : List RelAttr → Bool
no_attrs [] = true
no_attrs (a ∷ attrs) = false

module _ {F : Type 0} (fl : FloatOps F) where
  abbrev pub next : P F (Rc × Token)
  next = lex (Lexer.next fl)

  abbrev pub peek : P F (Rc × Token)
  peek = lex (Lexer.peek fl)

  -- `next_if`, as the test that its code is `SUCCESS`.
  abbrev pub accept : Token → P F Bool
  accept t = do r ← lex (Lexer.next_if fl t); pure (rc_success r.0)

  abbrev pub is : Token → Rc × Token → Bool
  is t r = token_eq r.1 t

  -- The attribute of `parse_attrs` after its first name.
  unfoldable pub parse_attr : List ℕ → P F (Rc × RelAttr)
  unfolding take_text
  parse_attr name = do
    peeked ← peek
    if is dot_t peeked
        then (do
          dot ← next
          ok ← accept id_t
          if ok
              then (do
                attribute ← take_text
                pure (success, record { table = name; attribute = attribute }))
              else pure (syntax_error, record { table = name; attribute = [] }))
        else pure (success, record { table = []; attribute = name })

  unfoldable pub parse_attrs : ℕ → List RelAttr → P F (Rc × List RelAttr)
  unfolding parse_attr take_text
  parse_attrs zero attrs = spent
  parse_attrs (suc fuel) attrs = do
    r ← next
    elim (rc_success r.0) [
      | false ↦ pure (r.0, attrs)
      | true ↦ elim (is star_t r) [
        | true ↦ if no_attrs attrs then pure (r.0, star_attr ∷ []) else pure (syntax_error, attrs)
        | false ↦ elim (is id_t r) [
          | false ↦ pure (syntax_error, attrs)
          | true ↦ do
            name ← take_text
            a ← parse_attr name
            elim (rc_success a.0) [
              | false ↦ pure (a.0, attrs)
              | true ↦ do
                comma ← accept commas_t
                elim comma [
                  | true ↦ parse_attrs fuel (attrs ++ (a.1 ∷ []))
                  | false ↦ pure (success, attrs ++ (a.1 ∷ []))
                ]
            ]
        ]
      ]
    ]

  -- `parse_cols`, and the loop of `parse_from`.
  unfoldable pub parse_cols : ℕ → List (List ℕ) → P F (Rc × List (List ℕ))
  unfolding take_text
  parse_cols zero cols = spent
  parse_cols (suc fuel) cols = do
    ok ← accept id_t
    elim ok [
      | false ↦ pure (syntax_error, cols)
      | true ↦ do
        name ← take_text
        comma ← accept commas_t
        elim comma [
          | true ↦ parse_cols fuel (cols ++ (name ∷ []))
          | false ↦ pure (success, cols ++ (name ∷ []))
        ]
    ]

  unfoldable pub parse_from : ℕ → P F (Rc × List (List ℕ))
  unfolding parse_cols
  parse_from fuel = do
    r ← next
    if rc_success r.0 && is from_t r then parse_cols fuel [] else pure (syntax_error, [])

  -- The value of a name, which may have a table before it.
  unfoldable pub parse_rel : List ℕ → P F (Rc × Value F)
  unfolding take_text
  parse_rel name = do
    dot ← accept dot_t
    if dot
        then (do
          ok ← accept id_t
          if ok
              then (do
                attribute ← take_text
                pure (
                  success,
                  record {
                    value = rel (record { table = name; attribute = attribute });
                    type = rel_attr;
                  },
                ))
              else pure (
                syntax_error,
                record { value = rel (record { table = name; attribute = [] }); type = rel_attr },
              ))
        else pure (
          success,
          record { value = rel (record { table = []; attribute = name }); type = rel_attr },
        )

  unfoldable pub parse_value : P F (Rc × Value F)
  unfolding parse_rel take_text take_any take_long take_float
  parse_value = do
    r ← next
    if not (rc_success r.0)
        then pure (r.0, no_value)
        else if is id_t r
        then (do name ← take_text; parse_rel name)
        else if is float_t r
        then (do x ← take_float; pure (success, record { value = float x; type = floats }))
        else if is integer_t r
        then (do n ← take_long; pure (success, record { value = long n; type = ints }))
        else if is string_t r
        then (do a ← take_any; pure (success, record { value = a; type = string }))
        else if is null_t r
        then pure (success, record { value = empty; type = null_a })
        else fail

  abbrev pub is_constant : Value F → Bool
  is_constant v = elim v.type [ rel_attr ↦ false | undefined_a ↦ false | _ ↦ true ]

  unfoldable pub parse_values : ℕ → List (Value F) → P F (Rc × List (Value F))
  unfolding parse_value
  parse_values zero values = spent
  parse_values (suc fuel) values = do
    v ← parse_value
    elim (rc_success v.0) [
      | false ↦ pure (v.0, values)
      | true ↦ elim (is_constant v.1) [
        | false ↦ pure (syntax_error, values)
        | true ↦ do
          comma ← accept commas_t
          elim comma [
            | true ↦ parse_values fuel (values ++ (v.1 ∷ []))
            | false ↦ pure (success, values ++ (v.1 ∷ []))
          ]
      ]
    ]

  -- One condition.
  unfoldable pub parse_cond : P F (Rc × Option (Condition F))
  unfolding parse_value token2op
  parse_cond = do
    l ← parse_value
    if not (rc_success l.0) then pure (l.0, none) else (do
      t ← next
      let op = token2op t.1
      if not (rc_success t.0)
          then pure (t.0, none)
          else if not (is_op op)
          then pure (syntax_error, none)
          else (do
            r ← parse_value
            if rc_success r.0
                then pure (success, some (record { left = l.1; right = r.1; op = op }))
                else pure (r.0, none)))

  unfoldable pub cond_loop : ℕ → List (Condition F) → P F (Rc × List (Condition F))
  unfolding parse_cond
  cond_loop zero conds = spent
  cond_loop (suc fuel) conds = do
    c ← parse_cond
    elim c.1 [
      | none ↦ pure (c.0, conds)
      | some cond ↦ do
        comma ← accept commas_t
        elim comma [
          | true ↦ cond_loop fuel (conds ++ (cond ∷ []))
          | false ↦ pure (success, conds ++ (cond ∷ []))
        ]
    ]

  unfoldable pub parse_conds : ℕ → P F (Rc × List (Condition F))
  unfolding cond_loop
  parse_conds fuel = do
    r ← next
    if not (rc_success r.0)
        then pure (r.0, [])
        else if is where_t r
        then cond_loop fuel []
        else pure (if is colon_t r then success else syntax_error, [])
