-- ===== src/Catalog/Column.antt =====
-- src/catalog/column.hpp: the types of columns and `Column`, whose JSON functions are in Catalog/Meta.
use tadis.Prelude.{ℕ, Bool, false, ◌&&◌, List, [], ◌∷◌, ◌==◌, if◌then◌else◌}
use tadis.Common.TextMap.{eq_text}
use tadis.Sql.Ast.{AttrType, string, ints, floats, attr_code}

pub data ColumnType : Type 0 where
  int_col float_col varchar char unknown : ColumnType

-- `check_attr_type` of a column.
unfoldable pub check_attr_type : AttrType → ColumnType → Bool
check_attr_type t int_col = attr_code ints == attr_code t
check_attr_type t float_col = attr_code floats == attr_code t
check_attr_type t varchar = attr_code string == attr_code t
check_attr_type t char = attr_code string == attr_code t
check_attr_type t unknown = false

-- The number of a type in its enumeration.
abbrev pub type_code : ColumnType → ℕ
type_code int_col = 0
type_code float_col = 1
type_code varchar = 2
type_code char = 3
type_code unknown = 4

pub record Column : Type 0 where
  pub type : ColumnType
  pub name : List ℕ
  pub size : ℕ

-- `operator==`
unfoldable pub eq_column : Column → Column → Bool
eq_column c d = type_code c.type == type_code d.type && eq_text c.name d.name && c.size == d.size

unfoldable pub column_from_string : List ℕ → ColumnType
unfolding eq_text
column_from_string t =
    if eq_text t (b'i' ∷ b'n' ∷ b't' ∷ [])
    then int_col
    else if eq_text t (b'f' ∷ b'l' ∷ b'o' ∷ b'a' ∷ b't' ∷ [])
    then float_col
    else if eq_text t (b'v' ∷ b'a' ∷ b'r' ∷ b'c' ∷ b'h' ∷ b'a' ∷ b'r' ∷ [])
    then varchar
    else if eq_text t (b'c' ∷ b'h' ∷ b'a' ∷ b'r' ∷ [])
    then char
    else unknown
