-- ===== src/Query/Binder/Branches.antt =====
-- src/binder/binder.hpp: `bind_select` on every branch.
use mathlib.Core.Path.{subst}
use tadis.Prelude.{
  ℕ, ◌≡◌, ◌≢◌, ◌⊎◌, refl, sym, ap, ◌∙◌, true, false, Option, none, some, List, [], ◌∷◌, arith,
  Option-cases, Bool-cases, inl, inr,
}
use tadis.Common.Rc.{syntax_error, table_not_existed, column_not_exist}
use tadis.Sql.Ast as Ast
use tadis.Sql.Ast.{Value, Condition, RelAttr, rel_attr, SelectStmt, select_q}
use tadis.Catalog.Schema.{Schema, copy_schema}
use tadis.Catalog.Tables.{Catalog, Table, get_table, scanner}
use tadis.Storage.Scanner.{RecordScanner}
use tadis.Query.Expression.{
  Expression, Expressions, column, constant, comparsion, filter, end, child, convert,
}
use tadis.Query.Execution.{Executer, seq_scan, filter_exec, projection_exec, Running}
use tadis.Query.Binder.{
  error_executer, result_of, columns_of, misnamed, any_rel, is_empty, side, comparsions, source,
  bind_scan, bind_select,
}
use tadis.Query.Binder.Select.{
  names, selected, HasColumn, AllKnown, column_idx_cases, bind_output_lem,
}

is_empty-false : {A : Type 0} (l : List A) → l ≢ [] → is_empty l ≡ false
is_empty-false [] ne = absurd (ne refl)
is_empty-false (x ∷ l) ne = refl

module _ {F : Type 0} where
  -- A side of a condition is a constant, or a column of the table.
  abbrev pub UsableSide : Schema → Value F → Type 0
  UsableSide schema v =
      (Ast.check_attr_type v rel_attr ≡ false)
      ⊎ ((a : RelAttr) × (any_rel v.value ≡ some a) × HasColumn schema a.attribute)

  -- Each condition has such sides, and an operator that is a comparison.
  abbrev pub Usable : Schema → List (Condition F) → Type 0
  Usable schema [] = Unit
  Usable schema (c ∷ cs) =
      UsableSide schema c.left
      × UsableSide schema c.right
      × (convert c.op ≢ none)
      × Usable schema cs

  not_usable :
      (schema : Schema) (v : Value F)
      → Ast.check_attr_type v rel_attr ≡ true
      → ((a : RelAttr) → any_rel v.value ≡ some a → HasColumn schema a.attribute → ⊥)
      → UsableSide schema v
      → ⊥
  not_usable schema v is_rel unknown (inl plain) = absurd (ground arith)
  not_usable schema v is_rel unknown (inr (a, named, known)) = unknown a named known

  side_cases :
      (schema : Schema) (v : Value F)
      → ((side schema v ≡ none) × (UsableSide schema v → ⊥))
        ⊎ ((e : Expression F) × (side schema v ≡ some e) × UsableSide schema v)
  unfolding side
  side_cases schema v = elim (Bool-cases (Ast.check_attr_type v rel_attr)) [
    | inr plain ↦ inr (constant v, ground arith, inl plain)
    | inl is_rel ↦ elim (Option-cases (any_rel v.value)) [
      | inl other ↦
          inl (ground arith, not_usable schema v is_rel (λ a named known. absurd (ground arith)))
      | inr (a, named) ↦ elim (column_idx_cases schema a.attribute) [
        | inl (gone, unknown) ↦ inl (
          ground arith,
          not_usable schema v is_rel (λ b other known.
              let same : a ≡ b = ground arith in
              unknown (subst (λ r. HasColumn schema r.attribute) (sym same) known)),
        )
        | inr (i, at, known) ↦ inr (column i, ground arith, inr (a, named, known))
      ]
    ]
  ]

  comparsions_cases :
      (schema : Schema) (cs : List (Condition F))
      → ((comparsions schema cs ≡ none) × (Usable schema cs → ⊥))
        ⊎ ((es : Expressions F) × (comparsions schema cs ≡ some es) × Usable schema cs)
  unfolding comparsions
  comparsions_cases schema [] = inr (end, refl, tt)
  comparsions_cases schema (c ∷ cs) = elim (side_cases schema c.left) [
    | inl (l, unknown) ↦ inl (ground arith, λ u. unknown u.0)
    | inr (left, l, known_left) ↦ elim (side_cases schema c.right) [
      | inl (r, unknown) ↦ inl (ground arith, λ u. unknown u.1)
      | inr (right, r, known_right) ↦ elim (Option-cases (convert c.op)) [
        | inl o ↦ inl (ground arith, λ u. u.2 o)
        | inr (t, o) ↦ elim (comparsions_cases schema cs) [
          | inl (rest, unknown) ↦ inl (ground arith, λ u. unknown u.3)
          | inr (es, rest, known) ↦ inr (
            child (comparsion left right t) es,
            ground arith,
            (known_left, known_right, (λ e. absurd (ground arith)), known),
          )
        ]
      ]
    ]
  ]

  -- The executor of the rows: the scan, or a filter over it.
  source_cases :
      (name : List ℕ) (schema : Schema) (cs : List (Condition F))
      → ((source name schema cs ≡ none) × (Usable schema cs → ⊥))
        ⊎ ((from : Executer F) × (source name schema cs ≡ some from) × Usable schema cs)
  unfolding source
  source_cases name schema [] = inr (seq_scan name schema, refl, tt)
  source_cases name schema (c ∷ cs) = elim (comparsions_cases schema (c ∷ cs)) [
    | inl (e, unknown) ↦ inl (ground arith, unknown)
    | inr (es, e, known) ↦
        inr (filter_exec (filter es) (seq_scan name schema) schema, ground arith, known)
  ]

  -- The statement selects from one table, and selects something, and names no other table there.
  abbrev pub IsWellFormed : SelectStmt F → List ℕ → Type 0
  IsWellFormed stmt name =
      (stmt.from_list ≡ name ∷ []) × (stmt.selist ≢ []) × (misnamed name stmt.selist ≡ false)

  -- What `bind_select` gives for a table that is there, whose scanner is made in `w'`.
  abbrev pub Columns : SelectStmt F → List ℕ → Table → Running → Running → Type 0
  Columns stmt name t w w' =
      ((Usable t.schema stmt.cond_list → ⊥) × (bind_select stmt w ≡ none))
      ⊎ (Usable t.schema stmt.cond_list
          × (from : Executer F) × (source name t.schema stmt.cond_list ≡ some from)
          × (((AllKnown t.schema stmt.selist → ⊥)
                × (bind_select stmt w ≡ some (error_executer column_not_exist select_q, w')))
              ⊎ (AllKnown t.schema stmt.selist
                  × ((idx : List ℕ) × (out : Schema) × (bind_select stmt w
                        ≡ some (
                          (
                            projection_exec (columns_of idx) from out,
                            record (result_of select_q) { output_schema = some out },
                          ),
                          w',
                        ))
                      × (copy_schema t.schema idx ≡ some out)
                      × (names out ≡ selected t.schema stmt.selist)))))

  -- The branches of `bind_select`.
  abbrev pub Outcome : SelectStmt F → Running → Type 0
  Outcome stmt w =
      (((name : List ℕ) → IsWellFormed stmt name → ⊥)
        × (bind_select stmt w ≡ some (error_executer syntax_error select_q, w)))
      ⊎ ((name : List ℕ) × IsWellFormed stmt name
          × (((get_table name w.catalog ≡ none)
                × (bind_select stmt w ≡ some (error_executer table_not_existed select_q, w)))
              ⊎ ((t : Table) × (get_table name w.catalog ≡ some t)
                  × (((scanner name w.catalog ≡ none) × (bind_select stmt w ≡ none))
                      ⊎ ((s : Option RecordScanner) × (catalog : Catalog) × (scanner name w.catalog
                            ≡ some (s, catalog))
                          × Columns stmt name t w (record { catalog = catalog; scanner = s }))))))

  bind_select-malformed :
      (stmt : SelectStmt F) (w : Running)
      → ((name : List ℕ) → IsWellFormed stmt name → ⊥)
      → bind_select stmt w ≡ some (error_executer syntax_error select_q, w)
  unfolding bind_select
  bind_select-malformed stmt w bad = by_list stmt.from_list refl
    where
      by_list :
          (l : List (List ℕ))
          → stmt.from_list ≡ l
          → bind_select stmt w ≡ some (error_executer syntax_error select_q, w)
      by_list [] e = rw e refl
      by_list (name ∷ second ∷ more) e = rw e (ground arith)
      by_list (name ∷ []) e = elim (Bool-cases (is_empty stmt.selist)) [
        | inl nothing ↦ rw e (ground arith)
        | inr something ↦ elim (Bool-cases (misnamed name stmt.selist)) [
          | inl wrong ↦ rw e (ground arith)
          | inr right ↦ absurd (bad name (e, (λ h. absurd (ground (arith, ap is_empty h))), right))
        ]
      ]

  IsWellFormed-cases :
      (stmt : SelectStmt F)
      → ((name : List ℕ) → IsWellFormed stmt name → ⊥) ⊎ ((name : List ℕ) × IsWellFormed stmt name)
  IsWellFormed-cases stmt = by_list stmt.from_list refl
    where
      by_list :
          (l : List (List ℕ))
          → stmt.from_list ≡ l
          → ((name : List ℕ) → IsWellFormed stmt name → ⊥)
            ⊎ ((name : List ℕ) × IsWellFormed stmt name)
      by_list [] e = inl (λ name well. absurd (ground (arith, well.0)))
      by_list (name ∷ second ∷ more) e = inl (λ other well. absurd (ground (arith, well.0)))
      by_list (name ∷ []) e = elim (Bool-cases (is_empty stmt.selist)) [
        | inl nothing ↦
            inl (λ other well. absurd (ground (arith, is_empty-false stmt.selist well.1)))
        | inr something ↦ elim (Bool-cases (misnamed name stmt.selist)) [
          | inl wrong ↦ inl (λ other well.
              let same : name ≡ other = ground (arith, well.0) in
              let right : misnamed name stmt.selist ≡ false =
                ap (λ n. misnamed n stmt.selist) same ∙ well.2 in
              absurd (ground arith))
          | inr right ↦ inr (name, (e, (λ h. absurd (ground (arith, ap is_empty h))), right))
        ]
      ]

  bind_select-unknown :
      (stmt : SelectStmt F) (w : Running) (name : List ℕ)
      → IsWellFormed stmt name
      → get_table name w.catalog ≡ none
      → bind_select stmt w ≡ some (error_executer table_not_existed select_q, w)
  unfolding bind_select
  bind_select-unknown stmt w name (e, some_there, right) gone =
      let something : is_empty stmt.selist ≡ false = is_empty-false stmt.selist some_there in
      rw e (ground arith)

  bind_select-table :
      (stmt : SelectStmt F) (w : Running) (name : List ℕ) (t : Table)
      → IsWellFormed stmt name
      → get_table name w.catalog ≡ some t
      → bind_select stmt w ≡ bind_scan name t stmt w
  unfolding bind_select
  bind_select-table stmt w name t (e, some_there, right) there =
      let something : is_empty stmt.selist ≡ false = is_empty-false stmt.selist some_there in
      rw e (ground arith)

  bind_select-Columns :
      (stmt : SelectStmt F) (w : Running) (name : List ℕ) (t : Table) (s : Option RecordScanner)
      (catalog : Catalog)
      → IsWellFormed stmt name
      → get_table name w.catalog ≡ some t
      → scanner name w.catalog ≡ some (s, catalog)
      → Columns stmt name t w (record { catalog = catalog; scanner = s })
  unfolding bind_scan
  bind_select-Columns stmt w name t s catalog well there scans =
      let to_scan = bind_select-table stmt w name t well there in
      elim (source_cases name t.schema stmt.cond_list) [
        | inl (e, unknown) ↦ inl (unknown, to_scan ∙ ground arith)
        | inr (from, e, known) ↦ elim (bind_output_lem stmt.selist t.schema from) [
          | inl (absent, out) ↦ inr (known, from, e, inl (absent, to_scan ∙ ground arith))
          | inr (all, (idx, out, bound, copied, named)) ↦
              inr (known, from, e, inr (all, (idx, out, to_scan ∙ ground arith, copied, named)))
        ]
      ]

  -- `bind_select` gives SYNTAX_ERROR exactly where the statement does not select something from one
  -- table without naming another. Otherwise it gives TABLE_NOT_EXISTED where the table is not there.
  -- Where it is, and its scanner cannot be made or a condition has an unknown column or an operator
  -- that is no comparison, `bind_select` does not return. Otherwise it gives COLUMN_NOT_EXIST if a
  -- selected attribute is neither `*` nor a column of the table, and if each is, a projection, over
  -- the scan with the conditions, to columns of the table: its schema has the selected names in
  -- their order, with every column of the table for `*`, and the result has the same schema.
  pub bind_select_lem : (stmt : SelectStmt F) (w : Running) → Outcome stmt w
  bind_select_lem stmt w = elim (IsWellFormed-cases stmt) [
    | inl bad ↦ inl (bad, bind_select-malformed stmt w bad)
    | inr (name, well) ↦ inr (
      name,
      well,
      elim (Option-cases (get_table name w.catalog)) [
        | inl gone ↦ inl (gone, bind_select-unknown stmt w name well gone)
        | inr (t, there) ↦ inr (
          t,
          there,
          elim (Option-cases (scanner name w.catalog)) [
            | inl stuck ↦ inl (
              stuck,
              bind_select-table stmt w name t well there ∙ unfold bind_scan in ground arith,
            )
            | inr ((s, catalog), scans) ↦
                inr
                  (s, catalog, scans, bind_select-Columns stmt w name t s catalog well there scans)
          ],
        )
      ],
    )
  ]
