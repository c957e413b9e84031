-- ===== src/Query/Binder/Select.antt =====
-- src/binder/binder.hpp: the columns that `bind_select` puts out.
use mathlib.Core.List.{append_assoc}
use tadis.Prelude.{
  ℕ, zero, suc, ◌+◌, ◌≡◌, ◌⊎◌, refl, sym, ap, ap₂, ◌∙◌, true, false, none, some, List, [], ◌∷◌,
  ◌++◌, length, get_elem?, arith, if◌then◌else◌, Option-cases, Bool-cases, inl, inr,
}
use tadis.Common.Rc.{column_not_exist}
use tadis.Common.TextMap.{eq_text}
use tadis.Common.TextMap.Laws.{eq_text_refl, eq_text_sound}
use tadis.Sql.Ast.{RelAttr, select_q}
use tadis.Catalog.Column.{Column}
use tadis.Catalog.Schema.{Schema, column_from, column_idx, copy_schema}
use tadis.Query.Execution.{Executer, projection_exec}
use tadis.Query.Binder.{
  error_executer, result_of, text_star, count_from, output_idx, columns_of, bind_output,
}

abbrev pub names : Schema → List (List ℕ)
names [] = []
names (c ∷ cs) = c.name ∷ names cs

-- The names of the columns that a list of attributes selects: all of them for `*`.
abbrev pub selected : Schema → List RelAttr → List (List ℕ)
selected schema [] = []
selected schema (a ∷ attrs) =
    let rest = selected schema attrs in
    if eq_text a.attribute text_star then names schema ++ rest else a.attribute ∷ rest

-- A column of the schema with this name.
abbrev pub HasColumn : Schema → List ℕ → Type 0
HasColumn schema name = (i : ℕ) × ((c : Column) × (get_elem? schema i ≡ some c) × (c.name ≡ name))

-- Each of the attributes is `*` or a column of the schema.
abbrev pub AllKnown : Schema → List RelAttr → Type 0
AllKnown schema [] = Unit
AllKnown schema (a ∷ attrs) =
    ((a.attribute ≡ text_star) ⊎ HasColumn schema a.attribute) × AllKnown schema attrs

column_from-some :
    (i : ℕ) (s : Schema) (name : List ℕ) (k : ℕ)
    → column_from i s name ≡ some k
    → (j : ℕ) × (k ≡ i + j) × ((c : Column) × (get_elem? s j ≡ some c) × (c.name ≡ name))
unfolding column_from
column_from-some i [] name k e = absurd (cc)
column_from-some i (c ∷ s) name k e = elim (Bool-cases (eq_text c.name name)) [
  | inl same ↦ (0, ground (arith, e, same), (c, refl, eq_text_sound c.name name same))
  | inr other ↦
      let (j, k_is, (d, at, named)) =
        column_from-some (i + 1) s name k (ground (arith, e, other)) in
      (suc j, omega arith, (d, at, named))
]

column_from-none :
    (i : ℕ) (s : Schema) (name : List ℕ) → column_from i s name ≡ none → HasColumn s name → ⊥
unfolding column_from
column_from-none i [] name e (j, (c, at, named)) = absurd (cc)
column_from-none i (c ∷ s) name e (zero, (d, at, named)) =
    absurd (ground (arith, e, at, named, eq_text_refl name))
column_from-none i (c ∷ s) name e (suc j, (d, at, named)) =
    column_from-none (i + 1) s name (ground (arith, e)) (j, (d, at, named))

get_elem?-append :
    (pre : Schema) (c : Column) (s : Schema) → get_elem? (pre ++ (c ∷ s)) (length pre) ≡ some c
get_elem?-append [] c s = refl
get_elem?-append (d ∷ pre) c s = get_elem?-append pre c s

length-snoc : (pre : Schema) (c : Column) → length (pre ++ (c ∷ [])) ≡ length pre + 1
length-snoc [] c = refl
length-snoc (d ∷ pre) c = omega (arith, length-snoc pre c)

copy_schema-cons :
    (s : Schema) (i : ℕ) (idx : List ℕ) (c : Column) (out : Schema)
    → get_elem? s i ≡ some c
    → copy_schema s idx ≡ some out
    → copy_schema s (i ∷ idx) ≡ some (c ∷ out)
unfolding copy_schema
copy_schema-cons s i idx c out e e' = ground (arith, e, e')

copy_all : (pre s : Schema) → copy_schema (pre ++ s) (count_from (length pre) (length s)) ≡ some s
unfolding copy_schema
copy_all pre [] = refl
copy_all pre (c ∷ s) =
    let later : copy_schema (pre ++ (c ∷ s)) (count_from (length pre + 1) (length s)) ≡ some s =
      rw (append_assoc pre (c ∷ []) s, length-snoc pre c) at (copy_all (pre ++ (c ∷ [])) s) in
    copy_schema-cons (pre ++ (c ∷ s)) (length pre) _ c s (get_elem?-append pre c s) later

copy_schema-append :
    (s : Schema) (a b : List ℕ) (ca cb : Schema)
    → copy_schema s a ≡ some ca
    → copy_schema s b ≡ some cb
    → copy_schema s (a ++ b) ≡ some (ca ++ cb)
unfolding copy_schema
copy_schema-append s [] b ca cb e e' =
    let none_copied : ◌≡◌ {A = Schema} [] ca = ground (arith, e) in
    e' ∙ ap (λ (l : Schema). some (l ++ cb)) none_copied
copy_schema-append s (i ∷ a) b ca cb e e' = elim (Option-cases (get_elem? s i)) [
  | inl none_there ↦ absurd (ground (arith, e, none_there))
  | inr (c, at) ↦ elim (Option-cases (copy_schema s a)) [
    | inl none_left ↦ absurd (ground (arith, e, at, none_left))
    | inr (ca', e'') ↦
        let is : c ∷ ca' ≡ ca = ground (arith, e, at, e'') in
        copy_schema-cons s i (a ++ b) c (ca' ++ cb) at (copy_schema-append s a b ca' cb e'' e')
        ∙ ap (λ l. some (l ++ cb)) is
  ]
]

names-append : (s t : Schema) → names (s ++ t) ≡ names s ++ names t
names-append [] t = refl
names-append (c ∷ s) t = ap (◌∷◌ c.name) (names-append s t)

-- The indices of the selected columns, with the schema of these columns.
record Found (schema : Schema) (attrs : List RelAttr) : Type 0 where
  idx : List ℕ
  out : Schema
  picked : output_idx schema attrs ≡ some idx
  copied : copy_schema schema idx ≡ some out
  named : names out ≡ selected schema attrs

module _ (schema : Schema) (a : RelAttr) (attrs : List RelAttr) where
  Found-star : eq_text a.attribute text_star ≡ true → Found schema attrs → Found schema (a ∷ attrs)
  unfolding output_idx
  Found-star star f = record {
    idx = count_from 0 (length schema) ++ f.idx;
    out = schema ++ f.out;
    picked = ground (arith, star, f.picked);
    copied =
        copy_schema-append schema (count_from 0 (length schema)) f.idx schema f.out
          (copy_all [] schema) f.copied;
    named = names-append schema f.out ∙ ap (λ l. names schema ++ l) f.named ∙ sym (rw star refl);
  }

  Found-column :
      (i : ℕ)
      → eq_text a.attribute text_star ≡ false
      → column_idx schema a.attribute ≡ some i
      → Found schema attrs
      → Found schema (a ∷ attrs)
  unfolding output_idx column_idx
  Found-column i plain at f =
      let (j, i_is, (c, there, same)) = column_from-some 0 schema a.attribute i at in
      let here : get_elem? schema i ≡ some c = ap (get_elem? schema) (omega arith) ∙ there in
      record {
        idx = i ∷ f.idx;
        out = c ∷ f.out;
        picked = ground (arith, plain, at, f.picked);
        copied = copy_schema-cons schema i f.idx c f.out here f.copied;
        named = ap₂ ◌∷◌ same f.named ∙ sym (rw plain refl);
      }

output_idx-none :
    (schema : Schema) (a : RelAttr) (attrs : List RelAttr)
    → output_idx schema attrs ≡ none
    → output_idx schema (a ∷ attrs) ≡ none
unfolding output_idx
output_idx-none schema a attrs e = elim (Option-cases (column_idx schema a.attribute)) [
  | inl at ↦ ground (arith, e, at)
  | inr (i, at) ↦ ground (arith, e, at)
]

column_idx-some :
    (schema : Schema) (name : List ℕ) (i : ℕ)
    → column_idx schema name ≡ some i
    → HasColumn schema name
unfolding column_idx
column_idx-some schema name i e =
    let (j, i_is, found) = column_from-some 0 schema name i e in (j, found)

pub column_idx_cases :
    (schema : Schema) (name : List ℕ)
    → ((column_idx schema name ≡ none) × (HasColumn schema name → ⊥))
      ⊎ ((i : ℕ) × (column_idx schema name ≡ some i) × HasColumn schema name)
unfolding column_idx
column_idx_cases schema name = elim (Option-cases (column_idx schema name)) [
  | inl e ↦ inl (e, column_from-none 0 schema name e)
  | inr (i, e) ↦ inr (i, e, column_idx-some schema name i e)
]

absent :
    (schema : Schema) (a : RelAttr)
    → eq_text a.attribute text_star ≡ false
    → column_idx schema a.attribute ≡ none
    → ((a.attribute ≡ text_star) ⊎ HasColumn schema a.attribute)
    → ⊥
unfolding column_idx
absent schema a plain e (inl star) =
    absurd (ground (arith, plain, eq_text_refl text_star, ap (λ n. eq_text n text_star) star))
absent schema a plain e (inr there) = column_from-none 0 schema a.attribute e there

output_idx_cases :
    (schema : Schema) (attrs : List RelAttr)
    → ((AllKnown schema attrs → ⊥) × (output_idx schema attrs ≡ none))
      ⊎ (AllKnown schema attrs × Found schema attrs)
unfolding output_idx column_idx copy_schema
output_idx_cases schema [] =
    inr (tt, record { idx = []; out = []; picked = refl; copied = refl; named = refl })
output_idx_cases schema (a ∷ attrs) = elim (output_idx_cases schema attrs) [
  | inl (unknown, e) ↦ inl (λ k. unknown k.1, output_idx-none schema a attrs e)
  | inr (known, f) ↦ elim (Bool-cases (eq_text a.attribute text_star)) [
    | inl star ↦
        inr (
          (inl (eq_text_sound a.attribute text_star star), known),
          Found-star schema a attrs star f,
        )
    | inr plain ↦ elim (Option-cases (column_idx schema a.attribute)) [
      | inl e ↦ inl (λ k. absent schema a plain e k.0, ground (arith, plain, e))
      | inr (i, e) ↦ inr (
        (inr (column_idx-some schema a.attribute i e), known),
        Found-column schema a attrs i plain e f,
      )
    ]
  ]
]

module _ {F : Type 0} where
  -- If some selected attribute is neither `*` nor a column of the table, COLUMN_NOT_EXIST is the result.
  -- Otherwise it is a projection to columns of the table, whose schema has the selected names in their
  -- order, with every column of the table for `*`, and the result has the same schema.
  pub bind_output_lem :
      (attrs : List RelAttr) (schema : Schema) (from : Executer F)
      → ((AllKnown schema attrs → ⊥)
          × (bind_output attrs schema from ≡ some (error_executer column_not_exist select_q)))
        ⊎ (AllKnown schema attrs
            × ((idx : List ℕ) × (out : Schema) × (bind_output attrs schema from
                  ≡ some (
                    projection_exec (columns_of idx) from out,
                    record (result_of select_q) { output_schema = some out },
                  ))
                × (copy_schema schema idx ≡ some out)
                × (names out ≡ selected schema attrs)))
  unfolding bind_output
  bind_output_lem attrs schema from = elim (output_idx_cases schema attrs) [
    | inl (unknown, e) ↦ inl (unknown, ground (arith, e))
    | inr (known, f) ↦
        inr (known, (f.idx, f.out, ground (arith, f.picked, f.copied), f.copied, f.named))
  ]
