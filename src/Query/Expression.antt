-- ===== src/Query/Expression.antt =====
-- src/expression: the expressions over a tuple. `none` is a failed assertion, a failed `any_cast` or
-- undefined behaviour. The children of an expression are a list of its own.
pub mod Filter
use tadis.Sql.Ast as Ast
use tadis.Prelude.{ℕ, Bool, true, false, Option, none, some, List, ◌==◌, if◌then◌else◌}
use tadis.Prelude.Int.{ℤ, pos, negsuc, ltb_ℤ}
use tadis.Sql.Ast.{
  FloatOps, Value, CondOp, greater, smaller, eq, not_eq, AttrType, ints, long, compare, init_int,
}
use tadis.Catalog.Schema.{Schema}
use tadis.Catalog.Tuple.{FloatBytes, bind, any_long, value_at}

pub data ComparsionType : Type 0 where
  equal not_equal less_than greater_than : ComparsionType

-- `convert`; none stands for false.
unfoldable pub convert : CondOp → Option ComparsionType
convert greater = some greater_than
convert not_eq = some not_equal
convert smaller = some less_than
convert eq = some equal
convert _ = none

abbrev is_zero : ℤ → Bool
is_zero (pos n) = n == 0
is_zero (negsuc n) = false

-- The switch of `ComparsionExpression::evaluate`, on the result of `compare`.
unfoldable pub verdict : ComparsionType → ℤ → ℤ
verdict equal r = if is_zero r then pos 1 else negsuc 0
verdict not_equal r = if is_zero r then negsuc 0 else pos 1
verdict less_than r = if ltb_ℤ r (pos 0) then pos 1 else negsuc 0
verdict greater_than r = if ltb_ℤ (pos 0) r then pos 1 else negsuc 0

-- `column` is `ColumnValueExpression`, `constant` is `ConstantExpression`.
mutual
  pub data Expression (F : Type 0) : Type 0 where
    column : ℕ → Expression F
    constant : Value F → Expression F
    comparsion : Expression F → Expression F → ComparsionType → Expression F
    filter : Expressions F → Expression F
    projection : Expressions F → Expression F

  pub data Expressions (F : Type 0) : Type 0 where
    end : Expressions F
    child : Expression F → Expressions F → Expressions F

-- `get<long>()` of a value whose type is INTS.
unfoldable pub truth : {F : Type 0} → Value F → Option ℤ
truth v = if Ast.check_attr_type v ints then any_long v.value else none

abbrev is_minus_one : ℤ → Bool
is_minus_one (pos n) = false
is_minus_one (negsuc n) = n == 0

module _ {F : Type 0} (fl : FloatOps F) (fb : FloatBytes F) where
  unfoldable mutual
    pub evaluate : Expression F → List ℕ → Schema → Option (Value F)
    evaluate (column idx) tuple schema = value_at fb tuple schema idx
    evaluate (constant v) tuple schema = some v
    evaluate (comparsion left right type) tuple schema = bind (evaluate left tuple schema) (λ l.
        bind (evaluate right tuple schema)
          (λ r. bind (compare fl l r) (λ c. some (init_int (verdict type c)))))
    evaluate (filter children) tuple schema = evaluate_all children (init_int (pos 1)) tuple schema
    evaluate (projection children) tuple schema = none

    -- The loop of `FilterExpression::evaluate`, with the value so far.
    pub evaluate_all : Expressions F → Value F → List ℕ → Schema → Option (Value F)
    evaluate_all end v tuple schema = some v
    evaluate_all (child e es) v tuple schema = bind (evaluate e tuple schema) (λ w.
        bind (truth w) (λ n.
          let rest = evaluate_all es w tuple schema in if is_minus_one n then some w else rest))
