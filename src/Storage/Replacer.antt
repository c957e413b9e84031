-- ===== src/Storage/Replacer.antt =====
-- src/storage/bufferpool/replacer.hpp: `LruReplacer<T>` at `T = size_t`, its only instance.
-- A `std::list` is the list of its nodes; an iterator names a node by a number that no later node
-- has again, and `none` is the end iterator. The result `none` of an operation is undefined
-- behaviour: `erase` of an iterator that names no node, `back` or `pop_back` of an empty list.
pub mod Chain
pub mod Refine
pub mod Members
pub mod Drain
use tadis.Prelude.{
  ℕ, zero, suc, ◌+◌, Bool, true, false, Option, none, some, List, [], ◌∷◌, length, ◌==◌,
  if◌then◌else◌,
}

abbrev pub Node : Type 0
Node = ℕ × ℕ

abbrev pub Iter : Type 0
Iter = Option ℕ

pub record LruReplacer : Type 0 where
  pub lru_list : List Node
  pub next_node : ℕ
  pub dir : ℕ → Option Iter
  pub capacity : ℕ

unfoldable pub init : ℕ → LruReplacer
init cap = record { lru_list = []; next_node = 0; dir = λ t. none; capacity = cap }

abbrev pub default_capacity : ℕ
default_capacity = 16

unfoldable pub emplace : ℕ → Iter → (ℕ → Option Iter) → ℕ → Option Iter
emplace t it dir k = if k == t then some it else dir k

unfoldable pub erase_key : ℕ → (ℕ → Option Iter) → ℕ → Option Iter
erase_key t dir k = if k == t then none else dir k

-- `lru_list_.begin()`
unfoldable pub begin : List Node → Iter
begin [] = none
begin ((id, v) ∷ l) = some id

unfoldable pub erase_node : ℕ → List Node → Option (List Node)
erase_node i [] = none
erase_node i ((id, v) ∷ l) =
    if id == i
    then some l
    else elim (erase_node i l) [ none ↦ none | some l' ↦ some ((id, v) ∷ l') ]

unfoldable pub erase : Iter → List Node → Option (List Node)
unfolding erase_node
erase none l = none
erase (some i) l = erase_node i l

-- `back()` with `pop_back()`
unfoldable pub pop_back : List Node → Option (ℕ × List Node)
pop_back [] = none
pop_back ((id, v) ∷ []) = some (v, [])
pop_back ((id, v) ∷ n ∷ l) = elim (pop_back (n ∷ l)) [
  | none ↦ none
  | some (w, l') ↦ some (w, (id, v) ∷ l')
]

unfoldable pub push_front : ℕ → LruReplacer → LruReplacer
push_front t r = record r { lru_list = (r.next_node, t) ∷ r.lru_list; next_node = r.next_node + 1 }

-- The last two statements of `put`.
unfoldable pub put_front : ℕ → LruReplacer → LruReplacer
unfolding push_front emplace begin
put_front t r = let r' = push_front t r in record r' { dir = emplace t (begin r'.lru_list) r'.dir }

unfoldable pub put : LruReplacer → ℕ → Option LruReplacer
unfolding put_front erase erase_key pop_back
put r t = elim (r.dir t) [
  | some it ↦ elim (erase it r.lru_list) [
    | none ↦ none
    | some l ↦ some (put_front t (record r { lru_list = l; dir = erase_key t r.dir }))
  ]
  | none ↦
      if r.capacity == length r.lru_list
      then elim (pop_back r.lru_list) [
        | none ↦ none
        | some (back, l) ↦
            some (put_front t (record r { lru_list = l; dir = erase_key back r.dir }))
      ]
      else some (put_front t r)
]

-- `touch` takes `begin()` before it pushes the node.
unfoldable pub touch : LruReplacer → ℕ → Option (LruReplacer × Bool)
unfolding push_front erase emplace begin
touch r t = elim (r.dir t) [
  | none ↦ some (r, false)
  | some it ↦ elim (erase it r.lru_list) [
    | none ↦ none
    | some l ↦
        some (push_front t (record r { lru_list = l; dir = emplace t (begin l) r.dir }), true)
  ]
]

unfoldable pub remove : LruReplacer → ℕ → Option LruReplacer
unfolding erase erase_key
remove r t = elim (r.dir t) [
  | none ↦ some r
  | some it ↦ elim (erase it r.lru_list) [
    | none ↦ none
    | some l ↦ some (record r { lru_list = l; dir = erase_key t r.dir })
  ]
]

-- The result, if any, is what goes through the reference argument when `victim` returns true.
unfoldable pub victim : LruReplacer → Option (LruReplacer × Option ℕ)
unfolding erase_key pop_back
victim r = elim r.lru_list [
  | [] ↦ some (r, none)
  | n ∷ l ↦ elim (pop_back (n ∷ l)) [
    | none ↦ none
    | some (back, l') ↦ some (record r { lru_list = l'; dir = erase_key back r.dir }, some back)
  ]
]
