-- ===== src/Query/Binder.antt =====
-- src/binder/binder.hpp: from a statement to an executor. `none` is a failed assertion or undefined
-- behaviour. The messages `msg_` are left out.
pub mod Insert
pub mod Select
pub mod Branches
use tadis.Prelude.{
  ℕ, zero, suc, ◌+◌, Bool, true, false, not, ◌&&◌, ◌||◌, Option, none, some, List, [], ◌∷◌, ◌++◌,
  length, ◌==◌, if◌then◌else◌,
}
use tadis.Common.Rc.{
  Rc, success, syntax_error, table_not_existed, table_already_existed, column_not_exist,
  column_type_mismatch,
}
use tadis.Common.TextMap.{eq_text}
use tadis.Sql.Ast as Ast
use tadis.Sql.Ast.{
  Value, Any, rel, RelAttr, rel_attr, Condition, SelectStmt, InsertStmt, DeleteStmt,
  CreateTableStmt, DropStmt, ColAttr, QueryStmt, select_stmt, delete_stmt, insert_stmt, create_stmt,
  drop_stmt, QueryType, select_q, insert_q, delete_q, create_q, drop_q,
}
use tadis.Catalog.Column.{
  Column, ColumnType, int_col, float_col, varchar, char, unknown, check_attr_type,
}
use tadis.Catalog.Schema.{Schema, column_idx, copy_schema}
use tadis.Catalog.Tuple.{bind}
use tadis.Catalog.Tables.{Catalog, Table, get_table, has_table, scanner}
use tadis.Query.Expression.{
  Expression, Expressions, column, constant, comparsion, filter, end, child, convert,
}
use tadis.Query.Execution.{
  Tuple, Executer, seq_scan, filter_exec, projection_exec, insert_exec, create_exec, drop_exec,
  error_exec, Running,
}

-- `QueryResult`; none is a `type_` that is not set.
pub record QueryResult : Type 0 where
  pub type : Option QueryType
  pub rc : Rc
  pub tuples : List Tuple
  pub output_schema : Option Schema

abbrev pub result_of : QueryType → QueryResult
result_of type = record { type = some type; rc = success; tuples = []; output_schema = none }

-- An executor and `result_` of the context.
abbrev pub Bound : Type 0 → Type 0
Bound F = Executer F × QueryResult

unfoldable pub error_executer : {F : Type 0} → Rc → QueryType → Bound F
error_executer rc type = (error_exec rc, record (result_of type) { rc = rc })

abbrev pub text_star : List ℕ
text_star = b'*' ∷ []

abbrev pub is_empty : {A : Type 0} → List A → Bool
is_empty [] = true
is_empty (x ∷ xs) = false

-- The names in the list of attributes that stand for another table than the one selected from.
unfoldable pub misnamed : List ℕ → List RelAttr → Bool
misnamed table [] = false
misnamed table (a ∷ attrs) =
    (not (is_empty a.table) && not (eq_text table a.table)) || misnamed table attrs

abbrev pub count_from : ℕ → ℕ → List ℕ
count_from i zero = []
count_from i (suc n) = i ∷ count_from (i + 1) n

-- The indices of the columns that are put out; none if a column is not in the schema.
unfoldable pub output_idx : Schema → List RelAttr → Option (List ℕ)
output_idx schema [] = some []
output_idx schema (a ∷ attrs) =
    if eq_text a.attribute text_star
    then bind (output_idx schema attrs) (λ rest. some (count_from 0 (length schema) ++ rest))
    else bind (column_idx schema a.attribute)
        (λ i. bind (output_idx schema attrs) (λ rest. some (i ∷ rest)))

unfoldable pub columns_of : {F : Type 0} → List ℕ → Expressions F
columns_of [] = end
columns_of (i ∷ idx) = child (column i) (columns_of idx)

module _ {F : Type 0} where
  abbrev any_rel : Any F → Option RelAttr
  any_rel (rel a) = some a
  any_rel _ = none

  -- `col_value_express` and `constant_express`, for one side of a condition.
  unfoldable pub side : Schema → Value F → Option (Expression F)
  side schema v =
      if Ast.check_attr_type v rel_attr
      then bind (any_rel v.value) (λ a. bind (column_idx schema a.attribute) (λ i. some (column i)))
      else some (constant v)

  -- The loop of `filter_executer`.
  unfoldable pub comparsions : Schema → List (Condition F) → Option (Expressions F)
  comparsions schema [] = some end
  comparsions schema (c ∷ cs) = bind (side schema c.left) (λ l. bind (side schema c.right) (λ r.
      bind (convert c.op)
        (λ t. bind (comparsions schema cs) (λ es. some (child (comparsion l r t) es)))))

  -- `filter_exec` over `scan_exec`, or `scan_exec` where there is no condition.
  unfoldable pub source : List ℕ → Schema → List (Condition F) → Option (Executer F)
  source name schema conds =
      if is_empty conds
      then some (seq_scan name schema)
      else bind (comparsions schema conds)
          (λ es. some (filter_exec (filter es) (seq_scan name schema) schema))

  -- The end of `bind_select`, from `// out put` on.
  unfoldable pub bind_output : List RelAttr → Schema → Executer F → Option (Bound F)
  bind_output select_list schema from = elim (output_idx schema select_list) [
    | none ↦ some (error_executer column_not_exist select_q)
    | some idx ↦ bind (copy_schema schema idx) (λ out. some (
      projection_exec (columns_of idx) from out,
      record (result_of select_q) { output_schema = some out },
    ))
  ]

  -- `bind_select` for a table that is there. The scanner is made before the columns are known.
  unfoldable pub bind_scan : List ℕ → Table → SelectStmt F → Running → Option (Bound F × Running)
  bind_scan name t stmt w = elim (scanner name w.catalog) [
    | none ↦ none
    | some (s, catalog) ↦ bind (source name t.schema stmt.cond_list) (λ from.
        bind (bind_output stmt.selist t.schema from)
          (λ bound. some (bound, record { catalog = catalog; scanner = s })))
  ]

  unfoldable pub bind_select : SelectStmt F → Running → Option (Bound F × Running)
  bind_select stmt w = elim stmt.from_list [
    | [] ↦ some (error_executer syntax_error select_q, w)
    | name ∷ more ↦
        if is_empty stmt.selist || not (is_empty more) || misnamed name stmt.selist
        then some (error_executer syntax_error select_q, w)
        else elim (get_table name w.catalog) [
          | none ↦ some (error_executer table_not_existed select_q, w)
          | some t ↦ bind_scan name t stmt w
        ]
  ]

  -- The checks of the columns' types in `bind_insert`, for as many values as columns.
  unfoldable pub types_match : Schema → List (Value F) → Bool
  types_match [] vals = true
  types_match (c ∷ schema) [] = false
  types_match (c ∷ schema) (v ∷ vals) = check_attr_type v.type c.type && types_match schema vals

  unfoldable pub bind_insert : InsertStmt F → Running → Bound F
  bind_insert stmt w = elim (get_table stmt.table_name w.catalog) [
    | none ↦ error_executer table_not_existed insert_q
    | some t ↦
        if not (length stmt.values == length t.schema)
        then error_executer column_type_mismatch insert_q
        else if not (types_match t.schema stmt.values)
        then error_executer column_type_mismatch insert_q
        else (insert_exec t.table_name t.schema stmt.values, result_of insert_q)
  ]

  unfoldable pub bind_delete : DeleteStmt F → Running → Bound F
  bind_delete stmt w = error_executer syntax_error delete_q

  unfoldable pub bind_drop : DropStmt → Running → Bound F
  bind_drop stmt w = (drop_exec stmt.dropped, result_of drop_q)

abbrev text_varchar : List ℕ
text_varchar = b'V' ∷ b'A' ∷ b'R' ∷ b'C' ∷ b'H' ∷ b'A' ∷ b'R' ∷ []

abbrev text_char : List ℕ
text_char = b'C' ∷ b'H' ∷ b'A' ∷ b'R' ∷ []

abbrev text_int : List ℕ
text_int = b'I' ∷ b'N' ∷ b'T' ∷ []

abbrev text_float : List ℕ
text_float = b'F' ∷ b'L' ∷ b'O' ∷ b'A' ∷ b'T' ∷ []

-- The type of a new column; none is the failed assertion.
unfoldable pub type_of_attr : List ℕ → Option ColumnType
type_of_attr t =
    if eq_text t text_varchar
    then some varchar
    else if eq_text t text_char
    then some char
    else if eq_text t text_int
    then some int_col
    else if eq_text t text_float
    then some float_col
    else none

abbrev size_of_attr : ColumnType → ℕ → ℕ
size_of_attr char n = n
size_of_attr _ n = 0

unfoldable pub columns_from : List ColAttr → Option (List Column)
columns_from [] = some []
columns_from (a ∷ attrs) = bind (type_of_attr a.type_name) (λ t.
    bind (columns_from attrs)
      (λ cols. some (record { type = t; name = a.name; size = size_of_attr t a.size } ∷ cols)))

module _ {F : Type 0} where
  unfoldable pub bind_create : CreateTableStmt → Running → Option (Bound F)
  bind_create stmt w =
      if has_table stmt.created_name w.catalog
      then some (error_executer table_already_existed create_q)
      else if is_empty stmt.col_attrs
      then some (error_executer syntax_error create_q)
      else bind (columns_from stmt.col_attrs)
          (λ cols. some (create_exec stmt.created_name cols, result_of create_q))

  -- `bind`, by the alternative of the statement, from which `SqlStmt` takes its type.
  unfoldable pub bind_stmt : QueryStmt F → Running → Option (Bound F × Running)
  bind_stmt (select_stmt stmt) w = bind_select stmt w
  bind_stmt (insert_stmt stmt) w = some (bind_insert stmt w, w)
  bind_stmt (delete_stmt stmt) w = some (bind_delete stmt w, w)
  bind_stmt (drop_stmt stmt) w = some (bind_drop stmt w, w)
  bind_stmt (create_stmt stmt) w = bind (bind_create stmt w) (λ bound. some (bound, w))
