-- ===== src/Query/Session.antt =====
-- src/bin/command.cc: `execute_sql`, on fuel for the loops of the parser, of the filter and of the
-- rows. `none` is a failed assertion, undefined behaviour, or fuel that ran out. The message of a
-- result, and what is printed, are left out.
pub mod Loop
use tadis.Prelude.{
  ℕ, zero, suc, Bool, true, false, not, Option, none, some, List, [], ◌∷◌, ◌++◌, if◌then◌else◌,
}
use tadis.Common.Rc.{Rc, success, out_of_range, rc_success}
use tadis.Sql.Ast.{FloatOps, QueryStmt}
use tadis.Sql.Parser.{Run, done, fault, out_of_fuel}
use tadis.Sql.Parser.Statements as Statements
use tadis.Sql.Parser.Statements.{ParserState}
use tadis.Storage.Scanner
use tadis.Catalog.Tuple.{FloatBytes, bind}
use tadis.Catalog.Tables.{Catalog, on_heap}
use tadis.Query.Execution.{
  Tuple, empty_tuple, Executer, seq_scan, filter_exec, projection_exec, next, Running, Step,
}
use tadis.Query.Binder.{QueryResult, Bound, bind_stmt}

-- The loop of `execute_sql`, with the tuples so far.
unfoldable pub collect :
    ℕ → Step → Tuple → List Tuple → Running → Option ((Rc × List Tuple) × Running)
collect zero next t tuples w = none
collect (suc fuel) next t tuples w = elim (next t w) [
  | none ↦ none
  | some ((rc, t'), w') ↦
      let again = collect fuel next t' (tuples ++ (t' ∷ [])) w' in
      if rc_success rc then again else some ((rc, tuples), w')
]

-- The table that an executor scans.
unfoldable pub scanned : {F : Type 0} → Executer F → Option (List ℕ)
scanned (seq_scan name schema) = some name
scanned (filter_exec e c schema) = scanned c
scanned (projection_exec es c schema) = scanned c
scanned _ = none

-- The destructor of the executor, with that of its scanner.
unfoldable pub destroy : {F : Type 0} → Executer F → Running → Option Running
destroy exec w = elim (scanned exec) [
  | none ↦ some w
  | some name ↦ elim w.scanner [
    | none ↦ some w
    | some s ↦
        bind (on_heap name (Scanner.destroy s) w.catalog)
          (λ r. some (record { catalog = r.1; scanner = none }))
  ]
]

-- The code of the result, from the code that ended the loop.
unfoldable pub final : Rc → Rc
final out_of_range = success
final rc = rc

module _ {F : Type 0} (fl : FloatOps F) (fb : FloatBytes F) where
  -- From the statement on.
  unfoldable pub execute_stmt : ℕ → QueryStmt F → Running → Option (QueryResult × Running)
  execute_stmt fuel q w = bind (bind_stmt q w) (λ b.
      let exec = b.0.0 in
      bind (collect fuel (next fl fb fuel exec) empty_tuple b.0.1.tuples b.1) (λ r.
        bind (destroy exec r.1)
          (λ w'. some (record b.0.1 { rc = final r.0.0; tuples = r.0.1 }, w'))))

  abbrev parse_failed : Rc → QueryResult
  parse_failed rc = record { type = none; rc = rc; tuples = []; output_schema = none }

  unfoldable pub execute_sql : ℕ → List ℕ → Running → Option (QueryResult × Running)
  unfolding execute_stmt
  execute_sql fuel sql w = elim (Statements.do_parse fl fuel (Statements.init sql)) [
    | fault ↦ none
    | out_of_fuel ↦ none
    | done (rc, p) ↦
        if rc_success rc then execute_stmt fuel p.query w else some (parse_failed rc, w)
  ]
