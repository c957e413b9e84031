-- ===== src/Json/Value.antt =====
-- src/json/json_value.hpp: `Value`, `Array` and `Object`. A number is a `double`, which is a
-- parameter. `none` is undefined behaviour: a `PSON_ASSERT` prints a line and goes on.
use tadis.Prelude.{
  ℕ, zero, suc, Bool, true, false, Option, none, some, List, [], length, ltb, if◌then◌else◌,
}
use tadis.Common.TextMap.{eq_text, less_text}

-- The containers of `Array` and `Object`; the entries of an object stand in the order of their
-- names.
mutual
  pub data Value (N : Type 0) : Type 0 where
    null : Value N
    bool : Bool → Value N
    number : N → Value N
    string : List ℕ → Value N
    array : Items N → Value N
    object : Fields N → Value N

  pub data Items (N : Type 0) : Type 0 where
    nil : Items N
    cons : Value N → Items N → Items N

  pub data Fields (N : Type 0) : Type 0 where
    end : Fields N
    field : List ℕ → Value N → Fields N → Fields N

pub data JsonType : Type 0 where
  json_null json_bool json_number json_string json_array json_object : JsonType

module _ {N : Type 0} where
  unfoldable pub type : Value N → JsonType
  type null = json_null
  type (bool b) = json_bool
  type (number n) = json_number
  type (string s) = json_string
  type (array xs) = json_array
  type (object fs) = json_object

  -- `as<T>` and `as_` of each type.
  abbrev pub as_bool : Value N → Option Bool
  as_bool (bool b) = some b
  as_bool _ = none

  abbrev pub as_number : Value N → Option N
  as_number (number n) = some n
  as_number _ = none

  abbrev pub as_string : Value N → Option (List ℕ)
  as_string (string s) = some s
  as_string _ = none

  abbrev pub as_array : Value N → Option (Items N)
  as_array (array xs) = some xs
  as_array _ = none

  abbrev pub as_object : Value N → Option (Fields N)
  as_object (object fs) = some fs
  as_object _ = none

  -- `Array`
  unfoldable pub array_size : Items N → ℕ
  array_size nil = 0
  array_size (cons v xs) = suc (array_size xs)

  unfoldable pub array_at : Items N → ℕ → Option (Value N)
  array_at nil i = none
  array_at (cons v xs) zero = some v
  array_at (cons v xs) (suc i) = array_at xs i

  unfoldable pub array_has : Items N → ℕ → Bool
  unfolding array_size
  array_has xs i = ltb i (array_size xs)

  unfoldable pub array_push_back : Items N → Value N → Items N
  array_push_back nil w = cons w nil
  array_push_back (cons v xs) w = cons v (array_push_back xs w)

  unfoldable pub array_pop_back : Items N → Option (Items N)
  array_pop_back nil = none
  array_pop_back (cons v nil) = some nil
  array_pop_back (cons v (cons w xs)) = elim (array_pop_back (cons w xs)) [
    | none ↦ none
    | some ys ↦ some (cons v ys)
  ]

  unfoldable pub array_back : Items N → Option (Value N)
  array_back nil = none
  array_back (cons v nil) = some v
  array_back (cons v (cons w xs)) = array_back (cons w xs)

  -- `Object`, over `std::map<std::string, Value>`; `at` of a name that is not there throws.
  unfoldable pub object_size : Fields N → ℕ
  object_size end = 0
  object_size (field k v fs) = suc (object_size fs)

  unfoldable pub object_at : List ℕ → Fields N → Option (Value N)
  object_at name end = none
  object_at name (field k v fs) =
      let later = object_at name fs in if eq_text k name then some v else later

  abbrev pub object_has : List ℕ → Fields N → Bool
  object_has name fs = elim (object_at name fs) [ none ↦ false | some v ↦ true ]

  unfoldable pub object_place : List ℕ → Value N → Fields N → Fields N
  object_place name v end = field name v end
  object_place name v (field k w fs) =
      let later = object_place name v fs in
      if less_text name k then field name v (field k w fs) else field k w later

  -- `emplace`: a name that is there keeps its value.
  unfoldable pub object_insert : List ℕ → Value N → Fields N → Fields N
  unfolding object_place
  object_insert name v fs = if object_has name fs then fs else object_place name v fs

  unfoldable pub object_erase : List ℕ → Fields N → Fields N
  object_erase name end = end
  object_erase name (field k v fs) =
      let later = object_erase name fs in if eq_text k name then later else field k v later

  -- `reset` and `init_base`; `z` is the number 0.0.
  abbrev pub reset : Value N → Value N
  reset v = null

  unfoldable pub init_base : N → JsonType → Value N
  init_base z json_null = null
  init_base z json_bool = bool false
  init_base z json_number = number z
  init_base z json_string = string []
  init_base z json_array = array nil
  init_base z json_object = object end

  -- `copy_value`, which stores the same whether the types agree or not.
  unfoldable pub copy_value : Value N → Value N → Value N
  copy_value v null = null
  copy_value v (bool b) = bool b
  copy_value v (number n) = number n
  copy_value v (string s) = string s
  copy_value v (array xs) = array xs
  copy_value v (object fs) = object fs

  -- `swap_value`, and the assignment of a value that is moved, with what it leaves there.
  abbrev pub swap_value : Value N → Value N → Value N × Value N
  swap_value v w = (w, v)

  abbrev pub move_assign : Value N → Value N → Value N × Value N
  move_assign v w = swap_value (reset v) w

  -- `Value::empty` and `Value::size`
  unfoldable pub is_empty : Value N → Bool
  is_empty null = true
  is_empty (array nil) = true
  is_empty (object end) = true
  is_empty _ = false

  unfoldable pub size : Value N → ℕ
  unfolding array_size object_size
  size (string s) = length s
  size (array xs) = array_size xs
  size (object fs) = object_size fs
  size _ = 0

  -- The operations of a value that is an array; an index is not negative.
  unfoldable pub push_back : Value N → Value N → Option (Value N)
  unfolding array_push_back
  push_back (array xs) w = some (array (array_push_back xs w))
  push_back _ w = none

  unfoldable pub pop_back : Value N → Option (Value N)
  unfolding array_pop_back
  pop_back (array xs) = elim (array_pop_back xs) [ none ↦ none | some ys ↦ some (array ys) ]
  pop_back _ = none

  unfoldable pub back : Value N → Option (Value N)
  unfolding array_back
  back (array xs) = array_back xs
  back _ = none

  unfoldable pub has_item : Value N → ℕ → Option Bool
  unfolding array_has
  has_item (array xs) i = some (array_has xs i)
  has_item _ i = none

  unfoldable pub item_at : Value N → ℕ → Option (Value N)
  unfolding array_at
  item_at (array xs) i = array_at xs i
  item_at _ i = none

  -- The operations of a value that is an object.
  unfoldable pub insert : List ℕ → Value N → Value N → Option (Value N)
  unfolding object_insert
  insert name v (object fs) = some (object (object_insert name v fs))
  insert name v _ = none

  unfoldable pub has : List ℕ → Value N → Option Bool
  unfolding object_at
  has name (object fs) = some (object_has name fs)
  has name _ = none

  unfoldable pub at : List ℕ → Value N → Option (Value N)
  unfolding object_at
  at name (object fs) = object_at name fs
  at name _ = none

  unfoldable pub erase : List ℕ → Value N → Option (Value N)
  unfolding object_erase
  erase name (object fs) = some (object (object_erase name fs))
  erase name _ = none
