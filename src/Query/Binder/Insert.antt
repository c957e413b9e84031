-- ===== src/Query/Binder/Insert.antt =====
-- src/binder/binder.hpp: `bind_insert` with the executor that it makes.
use native.Mathlib.Decide.{ℕ_discrete}
use tadis.Prelude.{
  ◌⊎◌, ◌↔◌, Bool-cases, ℕ, suc, ◌≡◌, refl, ap, true, none, some, List, [], ◌∷◌, ◌++◌, length, arith,
  Option-cases, inl, inr,
}
use tadis.Common.Rc.{table_not_existed, column_type_mismatch}
use tadis.Prelude.Int.{ℤ}
use tadis.Sql.Ast.{
  AttrType, Value, InsertStmt, insert_q, long, float, text, rel, empty, RelAttr, ints, floats,
  string, undefined_a, rel_attr,
}
use tadis.Catalog.Column.{ColumnType, int_col, float_col, varchar, char, unknown, check_attr_type}
use tadis.Catalog.Schema.{Schema}
use tadis.Catalog.Tuple.{FloatBytes, typed_bytes, create_tuple}
use tadis.Catalog.Tables.{Table, get_table}
use tadis.Query.Execution.{insert_exec, Running}
use tadis.Query.Binder.{bind_insert, types_match, error_executer, result_of}

-- A value that holds what its type says, as `init` makes them.
pub data IsTyped {F : Type 0} : Value F → Type 0 where
  typed_int : {n : ℤ} → IsTyped (record { value = long n; type = ints })
  typed_float : {f : F} → IsTyped (record { value = float f; type = floats })
  typed_text : {s : List ℕ} → IsTyped (record { value = text s; type = string })
  typed_rel : {a : RelAttr} → IsTyped (record { value = rel a; type = rel_attr })
  typed_null : IsTyped (record { value = empty; type = undefined_a })

abbrev pub AllTyped : {F : Type 0} → List (Value F) → Type 0
AllTyped [] = Unit
AllTyped (v ∷ vals) = IsTyped v × AllTyped vals

-- Which values a column stores.
abbrev pub Stores : AttrType → ColumnType → Type 0
Stores ints int_col = Unit
Stores floats float_col = Unit
Stores string varchar = Unit
Stores string char = Unit
Stores _ _ = ⊥

-- There is a value for each column, which stores it.
abbrev pub AllStored : {F : Type 0} → List (Value F) → Schema → Type 0
AllStored [] [] = Unit
AllStored [] (c ∷ schema) = ⊥
AllStored (v ∷ vals) [] = ⊥
AllStored (v ∷ vals) (c ∷ schema) = Stores v.type c.type × AllStored vals schema

check_attr_type_iff : (t : AttrType) (c : ColumnType) → (check_attr_type t c ≡ true) ↔ Stores t c
unfolding check_attr_type
check_attr_type_iff t int_col = ground arith
check_attr_type_iff t float_col = ground arith
check_attr_type_iff t varchar = ground arith
check_attr_type_iff t char = ground arith
check_attr_type_iff t unknown = ground arith

types_match_iff :
    {F : Type 0} (vals : List (Value F)) (schema : Schema)
    → ((length vals ≡ length schema) × (types_match schema vals ≡ true)) ↔ AllStored vals schema
unfolding types_match
types_match_iff [] [] = (λ h. tt, λ h. (refl, refl))
types_match_iff [] (c ∷ schema) = (λ h. absurd (omega (arith, h.0)), λ h. absurd h)
types_match_iff (v ∷ vals) [] = (λ h. absurd (omega (arith, h.0)), λ h. absurd h)
types_match_iff (v ∷ vals) (c ∷ schema) =
    let (there, back) = types_match_iff vals schema in
    let (one, eno) = check_attr_type_iff v.type c.type in
    (
      λ h. (one (ground (arith, h.1)), there (omega (arith, h.0), ground (arith, h.1))),
      λ h. (ap suc (back h.1).0, ground (arith, eno h.0, (back h.1).1)),
    )

module _ {F : Type 0} (fb : FloatBytes F) where
  typed_bytes-some :
      (v : Value F) (t : ColumnType)
      → IsTyped v
      → check_attr_type v.type t ≡ true
      → (bytes : List ℕ) × (typed_bytes fb v.value v.type t ≡ some bytes)
  unfolding typed_bytes check_attr_type
  typed_bytes-some _ int_col typed_int h = (_, refl)
  typed_bytes-some _ float_col typed_float h = (_, refl)
  typed_bytes-some _ varchar typed_text h = (_, refl)
  typed_bytes-some _ char typed_text h = (_, refl)
  typed_bytes-some _ int_col typed_float h = absurd (cc)
  typed_bytes-some _ int_col typed_text h = absurd (cc)
  typed_bytes-some _ int_col typed_rel h = absurd (cc)
  typed_bytes-some _ int_col typed_null h = absurd (cc)
  typed_bytes-some _ float_col typed_int h = absurd (cc)
  typed_bytes-some _ float_col typed_text h = absurd (cc)
  typed_bytes-some _ float_col typed_rel h = absurd (cc)
  typed_bytes-some _ float_col typed_null h = absurd (cc)
  typed_bytes-some _ varchar typed_int h = absurd (cc)
  typed_bytes-some _ varchar typed_float h = absurd (cc)
  typed_bytes-some _ varchar typed_rel h = absurd (cc)
  typed_bytes-some _ varchar typed_null h = absurd (cc)
  typed_bytes-some _ char typed_int h = absurd (cc)
  typed_bytes-some _ char typed_float h = absurd (cc)
  typed_bytes-some _ char typed_rel h = absurd (cc)
  typed_bytes-some _ char typed_null h = absurd (cc)
  typed_bytes-some _ unknown typed_int h = absurd (cc)
  typed_bytes-some _ unknown typed_float h = absurd (cc)
  typed_bytes-some _ unknown typed_text h = absurd (cc)
  typed_bytes-some _ unknown typed_rel h = absurd (cc)
  typed_bytes-some _ unknown typed_null h = absurd (cc)

  create_tuple-some :
      (vals : List (Value F)) (schema : Schema)
      → AllTyped vals
      → length vals ≡ length schema
      → types_match schema vals ≡ true
      → (bytes : List ℕ) × (create_tuple fb vals schema ≡ some bytes)
  unfolding create_tuple types_match
  create_tuple-some [] schema y l h = ([], refl)
  create_tuple-some (v ∷ vals) [] y l h = absurd (omega arith)
  create_tuple-some (v ∷ vals) (c ∷ schema) (y, ys) l h =
      let (b, e) = typed_bytes-some v c.type y (ground (arith, h)) in
      let (rest, e') = create_tuple-some vals schema ys (omega arith) (ground (arith, h)) in
      (b ++ rest, rw (e, e') refl)

  -- An insertion into a table that is not there gives TABLE_NOT_EXISTED. Otherwise, where the table's
  -- columns do not store the values, one for each column, it gives COLUMN_TYPE_MISMATCH; where they do,
  -- and the values hold what their types say, it gives an `InsertExecuter` for the table and these values,
  -- of which `create_tuple` makes a tuple.
  pub bind_insert_lem :
      (stmt : InsertStmt F) (w : Running)
      → AllTyped stmt.values
      → ((get_table stmt.table_name w.catalog ≡ none)
          × (bind_insert stmt w ≡ error_executer table_not_existed insert_q))
        ⊎ ((t : Table) × (get_table stmt.table_name w.catalog ≡ some t)
            × (((AllStored stmt.values t.schema → ⊥)
                  × (bind_insert stmt w ≡ error_executer column_type_mismatch insert_q))
                ⊎ (AllStored stmt.values t.schema
                    × (bind_insert stmt w
                        ≡ (insert_exec t.table_name t.schema stmt.values, result_of insert_q))
                    × ((bytes : List ℕ) × (create_tuple fb stmt.values t.schema ≡ some bytes)))))
  unfolding bind_insert
  bind_insert_lem stmt w y = elim (Option-cases (get_table stmt.table_name w.catalog)) [
    | inl e ↦ inl (e, ground (arith, e))
    | inr (t, e) ↦
        let (there, back) = types_match_iff stmt.values t.schema in
        elim (ℕ_discrete (length stmt.values) (length t.schema)) [
          | no l ↦ inr (t, e, inl (λ h. absurd (l (back h).0), ground (arith, e, l)))
          | yes l ↦ elim (Bool-cases (types_match t.schema stmt.values)) [
            | inl m ↦ inr (
              t,
              e,
              inr (
                there (l, m),
                ground (arith, e, l, m),
                create_tuple-some stmt.values t.schema y l m,
              ),
            )
            | inr m ↦
                inr
                  (t, e, inl (λ h. absurd (ground (arith, (back h).1, m)), ground (arith, e, l, m)))
          ]
        ]
  ]
