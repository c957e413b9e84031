-- ===== src/Sql/Ast.antt =====
-- src/sql/parser/ast.hpp: the values, conditions and statements. A string is the list of its
-- characters. `F` is the type `float` of the compiler; what the code needs of it is `FloatOps`.
use tadis.Prelude.{
  ℕ, ◌+◌, ◌-◌, ◌%◌, ◌^◌, Bool, true, false, ◌&&◌, Option, none, some, List, [], ◌∷◌, ltb, leb, ◌==◌,
  if◌then◌else◌,
}
use tadis.Prelude.Int.{ℤ, pos, negsuc, pos_part, neg_part, ◌-ℤ◌, sub_ℕ}
use tadis.Sql.Token.{Token, not_eq_t, assign_t, greater_t, smaller_t, in_t, is_t}

-- `std::stof` (none when it throws), the negation, and the difference as an `int` (none when the
-- conversion is undefined).
pub record FloatOps (F : Type 0) : Type 0 where
  pub stof : List ℕ → Option F
  pub negate : F → F
  pub int_of_sub : F → F → Option ℤ

pub record RelAttr : Type 0 where
  pub table : List ℕ
  pub attribute : List ℕ

pub data CondOp : Type 0 where
  undefined not_eq eq greater smaller is is_not in_op : CondOp

unfoldable pub token2op : Token → CondOp
token2op not_eq_t = not_eq
token2op assign_t = eq
token2op greater_t = greater
token2op smaller_t = smaller
token2op in_t = in_op
token2op is_t = is
token2op _ = undefined

pub data AttrType : Type 0 where
  undefined_a rel_attr string ints floats null_a query : AttrType

-- What a `std::any` of the parser holds.
pub data Any (F : Type 0) : Type 0 where
  empty : Any F
  text : List ℕ → Any F
  long : ℤ → Any F
  float : F → Any F
  rel : RelAttr → Any F

-- `Value`
pub record Value (F : Type 0) : Type 0 where
  pub value : Any F
  pub type : AttrType

abbrev pub no_value : {F : Type 0} → Value F
no_value = record { value = empty; type = undefined_a }

-- A `long` difference as an `int`: the low 32 bits, as a signed number.
abbrev pub int_mod : ℕ
int_mod = 2 ^ 32

abbrev pub wrap_int : ℤ → ℤ
wrap_int a =
    let m = (pos_part a % int_mod + int_mod - neg_part a % int_mod) % int_mod in
    if ltb m (2 ^ 31) then pos m else sub_ℕ m int_mod

abbrev pub is_long : ℤ → Bool
is_long a = ltb (pos_part a) (2 ^ 63) && leb (neg_part a) (2 ^ 63)

-- The sign of `std::string::compare`, as the standard gives no more.
unfoldable pub compare_text : List ℕ → List ℕ → ℤ
compare_text [] [] = pos 0
compare_text [] (y ∷ ys) = negsuc 0
compare_text (x ∷ xs) [] = pos 1
compare_text (x ∷ xs) (y ∷ ys) =
    if x == y then compare_text xs ys else if ltb x y then negsuc 0 else pos 1

abbrev pub compare_ints : {F : Type 0} → Any F → Any F → Option ℤ
compare_ints (long a) (long b) = if is_long (a -ℤ b) then some (wrap_int (a -ℤ b)) else none
compare_ints _ _ = none

abbrev pub compare_floats : {F : Type 0} → FloatOps F → Any F → Any F → Option ℤ
compare_floats fl (float a) (float b) = fl.int_of_sub a b
compare_floats fl _ _ = none

abbrev pub compare_strings : {F : Type 0} → Any F → Any F → Option ℤ
compare_strings (text a) (text b) = some (compare_text a b)
compare_strings _ _ = none

-- `Value::compare`. The result none is a failed assertion, a bad cast, or undefined behaviour.
unfoldable pub compare : {F : Type 0} → FloatOps F → Value F → Value F → Option ℤ
unfolding compare_text
compare fl u v = go u.type v.type
  where
    go : AttrType → AttrType → Option ℤ
    go ints ints = compare_ints u.value v.value
    go floats floats = compare_floats fl u.value v.value
    go string string = compare_strings u.value v.value
    go _ _ = none

-- `check_attr_type`
abbrev pub attr_code : AttrType → ℕ
attr_code undefined_a = 0
attr_code rel_attr = 1
attr_code string = 2
attr_code ints = 3
attr_code floats = 4
attr_code null_a = 5
attr_code query = 6

unfoldable pub check_attr_type : {F : Type 0} → Value F → AttrType → Bool
check_attr_type v t = attr_code v.type == attr_code t

-- `Value::init` at `int`, `float`, the strings and `RelAttr`.
unfoldable pub init_int : {F : Type 0} → ℤ → Value F
init_int n = record { value = long n; type = ints }

unfoldable pub init_float : {F : Type 0} → F → Value F
init_float f = record { value = float f; type = floats }

unfoldable pub init_string : {F : Type 0} → List ℕ → Value F
init_string s = record { value = text s; type = string }

unfoldable pub init_rel : {F : Type 0} → RelAttr → Value F
init_rel r = record { value = rel r; type = rel_attr }

pub record Condition (F : Type 0) : Type 0 where
  pub left : Value F
  pub right : Value F
  pub op : CondOp

pub record SelectStmt (F : Type 0) : Type 0 where
  pub selist : List RelAttr
  pub from_list : List (List ℕ)
  pub cond_list : List (Condition F)

pub record DeleteStmt (F : Type 0) : Type 0 where
  pub tables : List (List ℕ)
  pub conds : List (Condition F)

pub record InsertStmt (F : Type 0) : Type 0 where
  pub table_name : List ℕ
  pub cols : List (List ℕ)
  pub values : List (Value F)

-- `ColAttr`
pub record ColAttr : Type 0 where
  pub name : List ℕ
  pub type_name : List ℕ
  pub size : ℕ

pub record CreateTableStmt : Type 0 where
  pub created_name : List ℕ
  pub col_attrs : List ColAttr

pub record DropStmt : Type 0 where
  pub dropped : List ℕ

pub data QueryStmt (F : Type 0) : Type 0 where
  select_stmt : SelectStmt F → QueryStmt F
  delete_stmt : DeleteStmt F → QueryStmt F
  insert_stmt : InsertStmt F → QueryStmt F
  create_stmt : CreateTableStmt → QueryStmt F
  drop_stmt : DropStmt → QueryStmt F

pub data QueryType : Type 0 where
  select_q insert_q delete_q create_q drop_q : QueryType

pub record SqlStmt (F : Type 0) : Type 0 where
  pub q : QueryStmt F
  pub query_type : QueryType

-- The tests of the constructor of `SqlStmt`, in its order.
unfoldable pub type_of : {F : Type 0} → QueryStmt F → QueryType
type_of (select_stmt s) = select_q
type_of (insert_stmt s) = insert_q
type_of (delete_stmt s) = delete_q
type_of (create_stmt s) = create_q
type_of (drop_stmt s) = drop_q

unfoldable pub sql_stmt : {F : Type 0} → QueryStmt F → SqlStmt F
unfolding type_of
sql_stmt q = record { q = q; query_type = type_of q }

abbrev has_conds : {F : Type 0} → List (Condition F) → Bool
has_conds [] = false
has_conds (c ∷ cs) = true

-- `where_is_vaild`; none is a bad variant access.
unfoldable pub where_is_vaild : {F : Type 0} → SqlStmt F → Option Bool
where_is_vaild s = elim s.q [ select_stmt q ↦ some (has_conds q.cond_list) | _ ↦ none ]
