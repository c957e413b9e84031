-- ===== src/Query/Execution/Select.antt =====
-- src/execution: the rows of a projection, of a scan of one page, and of the executors of a query
-- one above the other.
use tadis.Prelude.{ℕ, ◌<◌, ◌≡◌, refl, Bool, some, List, [], ◌∷◌, map, length}
use tadis.Sql.Ast.{FloatOps}
use tadis.Catalog.Schema.{Schema}
use tadis.Catalog.Tuple.{FloatBytes}
use tadis.Query.Expression.{Expression, Expressions}
use tadis.Query.Execution.{
  Tuple, Running, Step, seq_scan, filter_exec, projection_exec, next, schema_of, filter_loop,
  project, projection_next, empty_tuple, scan_next,
}
use tadis.Query.Execution.Rows.{Yields, stop, more, kept, Decides, filter-Yields}

module _ {F : Type 0} (fl : FloatOps F) (fb : FloatBytes F) (es : Expressions F)
    (child_schema schema : Schema) (out : List ℕ → List ℕ) where
  -- The projection makes the bytes `out` of each of the rows.
  abbrev pub Projects : List (List ℕ) → Type 0
  Projects [] = Unit
  Projects (row ∷ rows) =
      ((t c : Tuple)
        → c.bytes ≡ row
        → project fl fb es child_schema schema t c ≡ some (record t { bytes = out row }))
      × Projects rows

  pub projection-Yields :
      (step : Step) {w w' : Running} (rows : List (List ℕ))
      → Yields step w rows w'
      → Projects rows
      → Yields (projection_next fl fb es child_schema schema step) w (map out rows) w'
  unfolding projection_next
  projection-Yields step _ (stop f) p =
      stop (λ t. (t, rw ((f empty_tuple).1, projection_next) refl))
  projection-Yields step (row ∷ rows) (more f y) p =
      more
        (λ t. (
          record t { bytes = out row },
          rw ((f empty_tuple).1, projection_next, p.0 t (f empty_tuple).0 (f empty_tuple).2) refl,
          refl,
        ))
        (projection-Yields step rows y p.1)

module _ {F : Type 0} (fl : FloatOps F) (fb : FloatBytes F) where
  -- The scan of a table yields some rows, the condition decides by `keep` on each, and the
  -- projection makes `out` of each row kept. Then, with more fuel than rows, the executors of the
  -- query yield the rows kept in their order, each as the projection makes it, and end in the state
  -- in which the scan ends.
  pub next-Yields :
      (fuel : ℕ) (name : List ℕ) (table schema : Schema) (expr : Expression F) (es : Expressions F)
      (keep : List ℕ → Bool) (out : List ℕ → List ℕ) {w w' : Running} (rows : List (List ℕ))
      → Yields (scan_next name) w rows w'
      → Decides fl fb expr table (scan_next name) keep rows
      → Projects fl fb es table schema out (kept keep rows)
      → length rows < fuel
      → Yields
          (next fl fb fuel
            (projection_exec es (filter_exec expr (seq_scan name table) table) schema))
          w
          (map out (kept keep rows))
          w'
  unfolding next schema_of
  next-Yields fuel name table schema expr es keep out rows y d p h =
      projection-Yields fl fb es table schema out
        (filter_loop fl fb fuel expr table (scan_next name)) (kept keep rows)
        (filter-Yields fl fb expr table (scan_next name) keep fuel rows y d h) p
