-- ===== src/Query/Execution.antt =====
-- src/execution: the executors. An executor that scans a table owns a `RecordScanner`; a statement
-- has at most one, which stands with the catalog in the state of the run. `none` is a failed
-- assertion, undefined behaviour, or fuel that ran out in the loop of `FilterExecuter::next`.
pub mod Rows
pub mod Select
pub mod Scan
use tadis.Prelude.{
  ℕ, zero, suc, Bool, true, false, not, Option, none, some, List, [], ◌∷◌, ◌==◌, if◌then◌else◌,
}
use tadis.Prelude.Int.{ℤ, pos, negsuc}
use tadis.Common.Rc.{Rc, success, out_of_range, table_not_existed, rc_success}
use tadis.Sql.Ast.{FloatOps, Value}
use tadis.Storage.RecordPage.{Record}
use tadis.Storage.Def.{Rid, invalid_rid}
use tadis.Storage.TableHeap
use tadis.Storage.Scanner
use tadis.Storage.Scanner.{RecordScanner}
use tadis.Catalog.Column.{Column}
use tadis.Catalog.Schema.{Schema}
use tadis.Catalog.Tuple.{FloatBytes, bind, any_long, create_tuple}
use tadis.Catalog.Tables.{Catalog, on_heap, create_table, drop_table, has_table}
use tadis.Query.Expression.{Expression, Expressions, end, child, evaluate}

-- `Tuple`: its bytes and `rid_`.
pub record Tuple : Type 0 where
  pub bytes : List ℕ
  pub rid : Rid

abbrev pub empty_tuple : Tuple
empty_tuple = record { bytes = []; rid = invalid_rid }

-- The executors with their fields; `schema_` is the last argument where it is set.
pub data Executer (F : Type 0) : Type 0 where
  seq_scan : List ℕ → Schema → Executer F
  filter_exec : Expression F → Executer F → Schema → Executer F
  projection_exec : Expressions F → Executer F → Schema → Executer F
  insert_exec : List ℕ → Schema → List (Value F) → Executer F
  create_exec : List ℕ → List Column → Executer F
  drop_exec : List ℕ → Executer F
  error_exec : Rc → Executer F

-- `schema_`; the executors without one have the null pointer.
unfoldable pub schema_of : {F : Type 0} → Executer F → Option Schema
schema_of (seq_scan name schema) = some schema
schema_of (filter_exec e c schema) = some schema
schema_of (projection_exec es c schema) = some schema
schema_of _ = none

pub record Running : Type 0 where
  pub catalog : Catalog
  pub scanner : Option RecordScanner

-- A call of `next`: the code, and `*t` after it.
abbrev pub Step : Type 0
Step = Tuple → Running → Option ((Rc × Tuple) × Running)

-- `SeqScanExectuer::next`
unfoldable pub scan_next : List ℕ → Step
scan_next name t w = elim w.scanner [
  | none ↦ none
  | some s ↦ elim (on_heap name (Scanner.next s) w.catalog) [
    | none ↦ none
    | some (((rc, rec, rid), s'), catalog) ↦ some (
      (rc, if rc_success rc then record { bytes = rec.bytes; rid = rid } else t),
      record { catalog = catalog; scanner = some s' },
    )
  ]
]

abbrev is_one : ℤ → Bool
is_one (pos n) = n == 1
is_one (negsuc n) = false

module _ {F : Type 0} (fl : FloatOps F) (fb : FloatBytes F) where
  -- `ok_value.get<long>() == 1`
  unfoldable pub passes : Expression F → Schema → Tuple → Option Bool
  passes expr schema t =
      bind (evaluate fl fb expr t.bytes schema)
        (λ v. bind (any_long v.value) (λ n. some (is_one n)))

  -- The loop of `FilterExecuter::next`, over the `next` of its child.
  unfoldable pub filter_loop : ℕ → Expression F → Schema → Step → Step
  filter_loop zero expr schema next t w = none
  filter_loop (suc fuel) expr schema next t w = elim (next t w) [
    | none ↦ none
    | some ((rc, t'), w') ↦
        let again = filter_loop fuel expr schema next t' w' in
        if not (rc_success rc) then some ((rc, t'), w') else elim (passes expr schema t') [
          | none ↦ none
          | some true ↦ some ((success, t'), w')
          | some false ↦ again
        ]
  ]

  unfoldable pub values_of : Expressions F → Schema → Tuple → Option (List (Value F))
  values_of end schema t = some []
  values_of (child e es) schema t =
      bind (evaluate fl fb e t.bytes schema)
        (λ v. bind (values_of es schema t) (λ vs. some (v ∷ vs)))

  -- The new tuple of `ProjecetionExecuter::next`; `*tuple = ...` copies the bytes alone.
  unfoldable pub project : Expressions F → Schema → Schema → Tuple → Tuple → Option Tuple
  project es child_schema schema t c =
      bind (values_of es child_schema c)
        (λ vs. bind (create_tuple fb vs schema) (λ bytes. some (record t { bytes = bytes })))

  unfoldable pub projection_next : Expressions F → Schema → Schema → Step → Step
  projection_next es child_schema schema next t w = elim (next empty_tuple w) [
    | none ↦ none
    | some ((rc, c), w') ↦
        if not (rc_success rc)
        then some ((rc, t), w')
        else elim (project es child_schema schema t c) [
          | none ↦ none
          | some t' ↦ some ((success, t'), w')
        ]
  ]

  -- `InsertExecuter::next`: the result of the heap's `insert` is dropped.
  unfoldable pub insert_next : List ℕ → Schema → List (Value F) → Step
  insert_next name schema values t w = bind (create_tuple fb values schema) (λ bytes.
      elim (on_heap name (TableHeap.insert bytes) w.catalog) [
        | none ↦ none
        | some (ok, catalog) ↦ some ((out_of_range, t), record w { catalog = catalog })
      ])

  -- `DropTableExecuter::next`
  unfoldable pub drop_next : List ℕ → Step
  drop_next name t w =
      if not (has_table name w.catalog)
      then some ((table_not_existed, t), w)
      else elim (drop_table name w.catalog) [
        | none ↦ none
        | some catalog ↦ some ((out_of_range, t), record w { catalog = catalog })
      ]

  -- `CreateTableExecuter::next`
  unfoldable pub create_next : List ℕ → List Column → Step
  create_next name cols t w = elim (create_table name cols w.catalog) [
    | none ↦ none
    | some catalog ↦ some ((out_of_range, t), record w { catalog = catalog })
  ]

  abbrev no_schema : Option Schema → Schema
  no_schema none = []
  no_schema (some s) = s

  -- `next`, by the class of the executor. `ErrorExecuter` asserts that its code is an error.
  unfoldable pub next : ℕ → Executer F → Step
  next fuel (seq_scan name schema) = scan_next name
  next fuel (filter_exec expr c schema) =
      filter_loop fuel expr (no_schema (schema_of c)) (next fuel c)
  next fuel (projection_exec es c schema) =
      projection_next es (no_schema (schema_of c)) schema (next fuel c)
  next fuel (insert_exec name schema values) = insert_next name schema values
  next fuel (create_exec name cols) = create_next name cols
  next fuel (drop_exec name) = drop_next name
  next fuel (error_exec rc) = λ t w. if rc_success rc then none else some ((rc, t), w)
