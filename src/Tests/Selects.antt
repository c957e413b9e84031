-- ===== src/Tests/Selects.antt =====
-- A run of the executors of a query, SELECT n FROM t WHERE n = 5, over the page of one row.
use tadis.Prelude.{refl, subst, some, true, [], ◌∷◌, map, arith}
use tadis.Prelude.Int.{pos, ◌-ℤ◌}
use tadis.Sql.Ast.{FloatOps, long, ints, init_int, compare}
use tadis.Sql.Ast as Ast
use tadis.Catalog.Column.{int_col}
use tadis.Catalog.Schema.{Schema}
use tadis.Prelude.Memory.{read_at, of_bytes, to_bytes}
use tadis.Catalog.Tuple.{
  FloatBytes, create_tuple, typed_bytes, int_bytes, word_of, int_of, read_in, read_value, value_at,
  value_from,
}
use tadis.Query.Expression.{
  Expression, Expressions, end, child, column, constant, comparsion, filter, equal, evaluate,
  evaluate_all, verdict, truth,
}
use tadis.Query.Execution.{
  Running, seq_scan, filter_exec, projection_exec, next, scan_next, passes, project, values_of,
}
use tadis.Query.Execution.Rows.{Yields, kept, Decides}
use tadis.Query.Execution.Scan.{scan_next-Yields}
use tadis.Query.Execution.Select.{Projects, next-Yields}
use tadis.Tests.Scanners.{
  five, t_name, scanning_t, at_slot, pool, one_row_page, scanning_t-OnLast, one_stored,
}

abbrev unit_ops : FloatOps (Unit {0})
unit_ops = record { stof = λ s. some tt; negate = λ f. f; int_of_sub = λ f g. some (pos 0) }

abbrev unit_bytes : FloatBytes (Unit {0})
unit_bytes = record { bytes_of = λ f. 0 ∷ 0 ∷ 0 ∷ 0 ∷ []; of_memory = λ b. tt }

abbrev one_column : Schema
one_column = record { type = int_col; name = b'n' ∷ []; size = 0 } ∷ []

abbrev is_five : Expression (Unit {0})
is_five = filter (
    child (comparsion (column 0) (constant (record { value = long (pos 5); type = ints })) equal)
      end)

abbrev first_column : Expressions (Unit {0})
first_column = child (column 0) end

abbrev scanned_rows : (w' : Running) × Yields (scan_next t_name) scanning_t (five ∷ []) w'
scanned_rows =
    let (w', y) =
      scan_next-Yields t_name scanning_t (at_slot 0) pool one_row_page scanning_t-OnLast in
    (w', subst (λ rows. Yields (scan_next t_name) scanning_t rows w') one_stored y)

five-Decides :
    Decides unit_ops unit_bytes is_five one_column (scan_next t_name) (λ row. true) (five ∷ [])
unfolding passes evaluate evaluate_all value_at value_from read_value read_in read_at int_of
    of_bytes init_int compare ◌-ℤ◌ verdict truth Ast.check_attr_type
five-Decides = (λ t e. rw (e, passes, evaluate, evaluate_all, value_at) refl, tt)

five-Projects :
    Projects unit_ops unit_bytes first_column one_column one_column (λ row. row) (five ∷ [])
unfolding project values_of evaluate value_at value_from read_value read_in read_at int_of of_bytes
    init_int create_tuple typed_bytes int_bytes word_of to_bytes
five-Projects = (λ t c e. rw (e, project, values_of, evaluate, value_at) refl, tt)

next-Yields_example :
    Yields
      (next unit_ops unit_bytes 2 (
        projection_exec first_column
          (filter_exec is_five (seq_scan t_name one_column) one_column)
          one_column))
      scanning_t
      (map (λ row. row) (kept (λ row. true) (five ∷ [])))
      scanned_rows.0
next-Yields_example =
    next-Yields unit_ops unit_bytes 2 t_name one_column one_column is_five first_column
      (λ row. true) (λ row. row) (five ∷ []) scanned_rows.1 five-Decides five-Projects (omega arith)
