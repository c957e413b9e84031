-- ===== src/Tests/Queries.antt =====
-- Runs of src/expression, src/execution, src/binder and src/bin/command.cc, with a unit type for the
-- floating-point numbers.
use tadis.Prelude.{ℕ, ◌≡◌, ◌↔◌, ◌⊎◌, refl, none, some, List, [], ◌∷◌, arith}
use tadis.Prelude.Int.{ℤ, pos}
use tadis.Common.Rc.{success, table_not_existed, column_type_mismatch}
use tadis.Common.TextMap.{eq_text, lookup, erase}
use tadis.Sql.Ast as Ast
use tadis.Sql.Ast.{
  SelectStmt, FloatOps, Value, InsertStmt, RelAttr, QueryStmt, insert_stmt, delete_stmt, drop_stmt,
  delete_q, insert_q, select_q, long, ints, init_int, compare, compare_ints,
}
use tadis.Catalog.Column.{int_col}
use tadis.Catalog.Schema.{Schema}
use tadis.Catalog.Tuple.{FloatBytes, create_tuple}
use tadis.Catalog.Tables.{Table, get_table, drop_table, store_drop, has_table}
use tadis.Query.Expression.{
  Expression, Expressions, end, child, constant, comparsion, filter, equal, less_than, evaluate,
}
use tadis.Query.Expression.Filter.{Holds, AllHold, evaluate-filter}
use tadis.Query.Execution.{Executer, seq_scan, insert_exec, drop_exec, Running, next, drop_next}
use tadis.Query.Execution.Rows.{Yields, stop}
use tadis.Query.Binder.{QueryResult, result_of, error_executer, bind_insert, bind_stmt, bind_drop}
use tadis.Query.Binder.Insert.{AllStored, typed_int, bind_insert_lem}
use tadis.Query.Binder.Branches.{Outcome, bind_select_lem}
use tadis.Query.Session.{execute_stmt, destroy, scanned}
use tadis.Query.Session.Loop.{bytes_of, execute_stmt-Yields}

abbrev unit_ops : FloatOps (Unit {0})
unit_ops = record { stof = λ s. some tt; negate = λ f. f; int_of_sub = λ f g. some (pos 0) }

abbrev unit_bytes : FloatBytes (Unit {0})
unit_bytes = record { bytes_of = λ f. 0 ∷ 0 ∷ 0 ∷ 0 ∷ []; of_memory = λ b. tt }

abbrev number : ℤ → Expression (Unit {0})
number n = constant (record { value = long n; type = ints })

number_is : (n : ℤ) → evaluate unit_ops unit_bytes (number n) [] [] ≡ some (init_int n)
unfolding evaluate init_int
number_is n = refl

abbrev two_conditions : Expressions (Unit {0})
two_conditions =
    child (comparsion (number (pos 1)) (number (pos 2)) less_than)
      (child (comparsion (number (pos 1)) (number (pos 2)) equal) end)

evaluate-filter_example :
    Holds unit_ops unit_bytes [] [] (filter two_conditions)
    ↔ AllHold unit_ops unit_bytes [] [] two_conditions
evaluate-filter_example = evaluate-filter unit_ops unit_bytes [] [] two_conditions tt

abbrev n_name : List ℕ
n_name = b'n' ∷ []

abbrev t_name : List ℕ
t_name = b't' ∷ []

abbrev one_column : Schema
one_column = record { type = int_col; name = n_name; size = 0 } ∷ []

abbrev t_table : Table
t_table = record { table_name = t_name; schema = one_column }

abbrev with_t : Running
with_t = record {
  catalog = record { tables = (t_name, t_table) ∷ []; heaps = []; files = []; base_dir = [] };
  scanner = none;
}

abbrev insert_seven : InsertStmt (Unit {0})
insert_seven = record {
  table_name = t_name;
  cols = [];
  values = record { value = long (pos 7); type = ints } ∷ [];
}

bind_insert_lem_example :
    ((get_table t_name with_t.catalog ≡ none)
      × (bind_insert insert_seven with_t ≡ error_executer table_not_existed insert_q))
    ⊎ ((t : Table) × (get_table t_name with_t.catalog ≡ some t)
        × (((AllStored insert_seven.values t.schema → ⊥)
              × (bind_insert insert_seven with_t ≡ error_executer column_type_mismatch insert_q))
            ⊎ (AllStored insert_seven.values t.schema
                × (bind_insert insert_seven with_t
                    ≡ (insert_exec t.table_name t.schema insert_seven.values, result_of insert_q))
                × ((bytes : List ℕ) × (create_tuple unit_bytes insert_seven.values t.schema
                      ≡ some bytes)))))
bind_insert_lem_example = bind_insert_lem unit_bytes insert_seven with_t (typed_int, tt)

abbrev all_attrs : List RelAttr
all_attrs =
    record { table = []; attribute = b'*' ∷ [] } ∷ record { table = []; attribute = n_name } ∷ []

abbrev scan_t : Executer (Unit {0})
scan_t = seq_scan t_name one_column

-- SELECT * FROM t
abbrev select_t : SelectStmt (Unit {0})
select_t = record { selist = all_attrs; from_list = t_name ∷ []; cond_list = [] }

bind_select_lem_example : Outcome select_t with_t
bind_select_lem_example = bind_select_lem select_t with_t

-- DROP TABLE t, in a catalog where no file of the table is open.
abbrev drop_t : QueryStmt (Unit {0})
drop_t = drop_stmt (record { dropped = t_name })

abbrev without_t : Running
without_t = record with_t { catalog = record with_t.catalog { tables = [] } }

drop_bound : bind_stmt drop_t with_t ≡ some ((drop_exec t_name, result_of Ast.drop_q), with_t)
unfolding bind_stmt bind_drop
drop_bound = refl

drop_rows : Yields (next unit_ops unit_bytes 1 (drop_exec t_name)) with_t [] without_t
unfolding next drop_next has_table drop_table store_drop lookup erase eq_text
drop_rows = stop (λ t. (t, refl))

drop_ended : destroy {F = Unit {0}} (drop_exec t_name) without_t ≡ some without_t
unfolding destroy scanned
drop_ended = refl

execute_stmt-Yields_example :
    (r : QueryResult) × (execute_stmt unit_ops unit_bytes 1 drop_t with_t ≡ some (r, without_t))
    × (r.rc ≡ success)
    × (bytes_of r.tuples ≡ [])
    × (r.output_schema ≡ none)
execute_stmt-Yields_example =
    execute_stmt-Yields unit_ops unit_bytes 1 drop_t with_t with_t (drop_exec t_name)
      (result_of Ast.drop_q) drop_bound refl without_t without_t [] drop_rows (omega arith)
      drop_ended
