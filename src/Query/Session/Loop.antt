-- ===== src/Query/Session/Loop.antt =====
-- src/bin/command.cc: the tuples and the code of a statement's result.
use mathlib.Core.List.{append_assoc}
use tadis.Prelude.{
  ℕ, zero, suc, ◌<◌, ◌≡◌, refl, ap, ap₂, ◌∙◌, some, List, [], ◌∷◌, ◌++◌, length, arith,
}
use tadis.Common.Rc.{success, out_of_range}
use tadis.Sql.Ast.{FloatOps, QueryStmt}
use tadis.Catalog.Tuple.{FloatBytes}
use tadis.Query.Execution.{Tuple, empty_tuple, Executer, next, Running, Step}
use tadis.Query.Execution.Rows.{Yields, stop, more}
use tadis.Query.Binder.{QueryResult, bind_stmt}
use tadis.Query.Session.{collect, destroy, final, execute_stmt}

abbrev pub bytes_of : List Tuple → List (List ℕ)
bytes_of [] = []
bytes_of (t ∷ ts) = t.bytes ∷ bytes_of ts

append-nil : (ts : List Tuple) → ts ++ [] ≡ ts
append-nil [] = refl
append-nil (t ∷ ts) = ap (◌∷◌ t) (append-nil ts)

module _ (step : Step) where
  -- The loop appends a tuple for each row.
  collect-Yields :
      (fuel : ℕ) {w w' : Running} (rows : List (List ℕ)) (t : Tuple) (before : List Tuple)
      → Yields step w rows w'
      → length rows < fuel
      → (ts : List Tuple) × (collect fuel step t before w ≡ some ((out_of_range, before ++ ts), w'))
        × (bytes_of ts ≡ rows)
  unfolding collect
  collect-Yields zero rows t before y h = absurd (omega arith)
  collect-Yields (suc n) _ t before (stop f) h =
      ([], rw ((f t).1, collect, append-nil before) refl, refl)
  collect-Yields (suc n) (row ∷ rows) t before (more f y) h =
      let (t', e, same) = f t in
      let (ts, ran, bs) = collect-Yields n rows t' (before ++ (t' ∷ [])) y (omega arith) in
      (t' ∷ ts, rw (e, collect) (ran ∙ rw (append_assoc before (t' ∷ []) ts) refl), ap₂ ◌∷◌ same bs)

module _ {F : Type 0} (fl : FloatOps F) (fb : FloatBytes F) (fuel : ℕ) (q : QueryStmt F)
    (w w1 : Running) (exec : Executer F) (res : QueryResult)
    (bound : bind_stmt q w ≡ some ((exec, res), w1)) (fresh : res.tuples ≡ []) where
  -- A bound statement whose executor yields some rows, fewer than the fuel, and can then be
  -- destroyed gives SUCCESS with the bytes of these rows in their order and with the schema of the
  -- binder, in the state after the executor is destroyed.
  pub execute_stmt-Yields :
      (w2 w3 : Running) (rows : List (List ℕ))
      → Yields (next fl fb fuel exec) w1 rows w2
      → length rows < fuel
      → destroy exec w2 ≡ some w3
      → (r : QueryResult) × (execute_stmt fl fb fuel q w ≡ some (r, w3))
        × (r.rc ≡ success)
        × (bytes_of r.tuples ≡ rows)
        × (r.output_schema ≡ res.output_schema)
  unfolding execute_stmt final
  execute_stmt-Yields w2 w3 rows y h ended =
      let (ts, ran, bs) =
        collect-Yields (next fl fb fuel exec) fuel rows empty_tuple res.tuples y h in
      (
        record res { rc = success; tuples = res.tuples ++ ts },
        ground (arith, bound, ran, ended),
        refl,
        ap (λ l. bytes_of (l ++ ts)) fresh ∙ bs,
        refl,
      )
