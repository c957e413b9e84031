-- ===== src/Storage/Replacer/Refine.antt =====
-- src/storage/bufferpool/replacer.hpp: the replacer against the list of its values, most recent first.
use native.Mathlib.Decide.{ℕ_discrete}
use tadis.Prelude.{
  ℕ, ◌+◌, ◌<◌, ◌≤◌, ◌≡◌, refl, sym, ap, Bool, true, false, Option, none, some, List, [], ◌∷◌, arith,
  length, ◌==◌, if◌then◌else◌, ◌≢◌, inl, inr, Option-cases,
}
use tadis.Storage.Replacer.{
  Node, LruReplacer, Iter, put_front, put, erase_key, emplace, touch, remove, victim, erase_node,
  pop_back,
}
use tadis.Storage.Replacer.Chain.{
  find, Chain, values, without, drop_last, get_last?, length-values, find-lt, erase_node-Erased,
  Popped, pop_back-Popped,
}

abbrev pub iter : Option ℕ → Option Iter
iter none = none
iter (some i) = some (some i)

pub record IsConsistent (r : LruReplacer) : Type 0 where
  pub chain : Chain r.next_node r.lru_list
  pub dir : (t : ℕ) → r.dir t ≡ iter (find t r.lru_list)
  pub bounded : length r.lru_list ≤ r.capacity
  pub positive : 0 < r.capacity

abbrev pub mem : ℕ → List ℕ → Bool
mem t [] = false
mem t (x ∷ xs) = if x == t then true else mem t xs

abbrev pub has_value : Option ℕ → Bool
has_value none = false
has_value (some i) = true

-- The abstract replacer.
abbrev pub put_values : ℕ → ℕ → List ℕ → List ℕ
put_values cap t xs =
    if mem t xs then t ∷ without t xs else if cap == length xs then t ∷ drop_last xs else t ∷ xs

abbrev pub victim_values : List ℕ → List ℕ × Option ℕ
victim_values xs = (drop_last xs, get_last? xs)

pub mem_of_find : (t : ℕ) (l : List Node) → mem t (values l) ≡ has_value (find t l)
mem_of_find t [] = refl
mem_of_find t ((id, v) ∷ l) = ground (arith, mem_of_find t l)

length-without :
    (t i : ℕ) (l : List Node) → find t l ≡ some i → length (without t (values l)) + 1 ≡ length l
length-without t i [] e = absurd (ground arith)
length-without t i ((id, v) ∷ l) e = ground (arith, length-without t i l, length-values l)

pub length-drop_last : (x : ℕ) (xs : List ℕ) → length (drop_last (x ∷ xs)) + 1 ≡ length (x ∷ xs)
length-drop_last x [] = omega arith
length-drop_last x (y ∷ xs) = omega (arith, length-drop_last y xs)

put_front-IsConsistent :
    (t : ℕ) (r : LruReplacer)
    → Chain r.next_node r.lru_list
    → ((q : ℕ) → q ≢ t → r.dir q ≡ iter (find q r.lru_list))
    → find t r.lru_list ≡ none
    → length r.lru_list < r.capacity
    → IsConsistent (put_front t r)
unfolding put_front
put_front-IsConsistent t r c d f h = record {
  chain = (omega arith, f, c);
  dir = λ q. ground (arith, d q);
  bounded = omega arith;
  positive = omega arith;
}

abbrev pub Refines : LruReplacer → LruReplacer → List ℕ → Type 0
Refines r r' xs = IsConsistent r' × (values r'.lru_list ≡ xs) × (r'.capacity ≡ r.capacity)

without_absent : (t : ℕ) (l : List Node) → find t l ≡ none → values l ≡ without t (values l)
without_absent t [] e = refl
without_absent t ((id, v) ∷ l) e = ground (arith, without_absent t l)

module _ (r : LruReplacer) (v : IsConsistent r) where
  put_hit :
      (t i : ℕ)
      → find t r.lru_list ≡ some i
      → (r' : LruReplacer) × (put r t ≡ some r')
        × Refines r r' (put_values r.capacity t (values r.lru_list))
  unfolding put
  put_hit t i e =
      let (l, erased, known) = erase_node-Erased r.next_node t i r.lru_list v.chain e in
      let finds = known.finds in
      let shorter = length-without t i r.lru_list e in
      let same : length l + 1 ≡ length r.lru_list =
        omega (arith, ap length known.rest, length-values l) in
      let stripped : LruReplacer = record r { lru_list = l; dir = erase_key t r.dir } in
      (
        put_front t stripped,
        ground (arith, v.dir t),
        (
          put_front-IsConsistent t stripped known.chain (λ q ne. ground (arith, finds q, v.dir q))
              (ground (arith, finds t)) (omega (arith, v.bounded, same)),
          ground (arith, mem_of_find t r.lru_list, known.rest),
          refl,
        ),
      )

  put_room :
      (t : ℕ)
      → find t r.lru_list ≡ none
      → r.capacity ≢ length r.lru_list
      → (r' : LruReplacer) × (put r t ≡ some r')
        × Refines r r' (put_values r.capacity t (values r.lru_list))
  unfolding put
  put_room t e room = (
    put_front t r,
    ground (arith, v.dir t),
    (
      put_front-IsConsistent t r v.chain (λ q ne. v.dir q) e (omega (arith, v.bounded)),
      ground (arith, mem_of_find t r.lru_list, length-values r.lru_list),
      refl,
    ),
  )

-- The list of a full replacer has a last node.
pop_back-of_nonempty :
    (n : ℕ) (l : List Node)
    → 0 < length l
    → Chain n l
    → (back : ℕ) × (l' : List Node) × (pop_back l ≡ some (back, l')) × Popped n l l' back
pop_back-of_nonempty n [] h c = absurd (omega arith)
pop_back-of_nonempty n ((id, v) ∷ l) h c = pop_back-Popped n id v l c

length-popped :
    (l l' : List Node) → 0 < length l → values l' ≡ drop_last (values l) → length l' + 1 ≡ length l
length-popped [] l' h e = absurd (omega arith)
length-popped ((id, v) ∷ l) l' h e =
    omega (arith, ap length e, length-values l', length-values l, length-drop_last v (values l))

module _ (r : LruReplacer) (v : IsConsistent r) where
  put_full :
      (t : ℕ)
      → find t r.lru_list ≡ none
      → r.capacity ≡ length r.lru_list
      → (r' : LruReplacer) × (put r t ≡ some r')
        × Refines r r' (put_values r.capacity t (values r.lru_list))
  unfolding put
  put_full t e full =
      let nonempty : 0 < length r.lru_list = omega (arith, v.positive) in
      let (back, l, popped, known) = pop_back-of_nonempty r.next_node r.lru_list nonempty v.chain in
      let finds = known.finds in
      let same = length-popped r.lru_list l nonempty known.rest in
      let stripped : LruReplacer = record r { lru_list = l; dir = erase_key back r.dir } in
      (
        put_front t stripped,
        ground (arith, v.dir t),
        (
          put_front-IsConsistent t stripped known.chain (λ q ne. ground (arith, finds q, v.dir q))
              (ground (arith, finds t)) (omega arith),
          ground (arith, mem_of_find t r.lru_list, known.rest, length-values r.lru_list),
          refl,
        ),
      )

  -- On a replacer whose map and nodes agree, `put` does not reach undefined behaviour; it moves
  -- a known value to the front, and puts a new one there, for which it drops the least recent
  -- value if the replacer is full. The map and the nodes still agree.
  pub put-Refines :
      (t : ℕ)
      → (r' : LruReplacer) × (put r t ≡ some r')
        × Refines r r' (put_values r.capacity t (values r.lru_list))
  put-Refines t = elim (Option-cases (find t r.lru_list)) [
    | inr (i, e) ↦ put_hit r v t i e
    | inl e ↦ elim (ℕ_discrete r.capacity (length r.lru_list)) [
      | yes full ↦ put_full t e full
      | no room ↦ put_room r v t e room
    ]
  ]

  -- On a replacer whose map and nodes agree, `remove` does not reach undefined behaviour; it
  -- takes the value out of the order, or changes nothing if the value is not there. The map and
  -- the nodes still agree.
  pub remove-Refines :
      (t : ℕ)
      → (r' : LruReplacer) × (remove r t ≡ some r') × Refines r r' (without t (values r.lru_list))
  unfolding remove
  remove-Refines t = elim (Option-cases (find t r.lru_list)) [
    | inl e ↦ (r, ground (arith, v.dir t), (v, without_absent t r.lru_list e, refl))
    | inr (i, e) ↦
        let (l, erased, known) = erase_node-Erased r.next_node t i r.lru_list v.chain e in
        let finds = known.finds in
        let shorter = length-without t i r.lru_list e in
        let same : length l + 1 ≡ length r.lru_list =
          omega (arith, ap length known.rest, length-values l) in
        (
          record r { lru_list = l; dir = erase_key t r.dir },
          ground (arith, v.dir t),
          (
            record {
              chain = known.chain;
              dir = λ q. ground (arith, finds q, v.dir q);
              bounded = omega (arith, v.bounded);
              positive = v.positive;
            },
            known.rest,
            refl,
          ),
        )
  ]

  victim_of :
      (l : List Node)
      → r.lru_list ≡ l
      → (r' : LruReplacer) × (o : Option ℕ) × (victim r ≡ some (r', o))
        × (o ≡ get_last? (values r.lru_list))
        × Refines r r' (drop_last (values r.lru_list))
  unfolding victim
  victim_of [] e = (r, none, ground arith, rw e refl, (v, rw e refl, refl))
  victim_of (n ∷ l) e =
      let nonempty : 0 < length r.lru_list = rw e (omega arith) in
      let (back, l', popped, known) =
        pop_back-of_nonempty r.next_node r.lru_list nonempty v.chain in
      let finds = known.finds in
      let same = length-popped r.lru_list l' nonempty known.rest in
      let popped' : pop_back (n ∷ l) ≡ some (back, l') = rw e at popped in
      (
        record r { lru_list = l'; dir = erase_key back r.dir },
        some back,
        rw (e, victim) (rw popped' refl),
        sym known.last,
        (
          record {
            chain = known.chain;
            dir = λ q. ground (arith, finds q, v.dir q);
            bounded = omega (arith, v.bounded);
            positive = v.positive;
          },
          known.rest,
          refl,
        ),
      )

  -- On a replacer whose map and nodes agree, `victim` does not reach undefined behaviour; it
  -- returns and drops the least recent value, or returns false if there is none. The map and the
  -- nodes still agree.
  pub victim-Refines :
      (r' : LruReplacer) × (o : Option ℕ) × (victim r ≡ some (r', o))
      × (o ≡ get_last? (values r.lru_list))
      × Refines r r' (drop_last (values r.lru_list))
  victim-Refines = victim_of r.lru_list refl

-- On a replacer whose map and nodes agree, after `touch` of a value that is not the first,
-- `remove` of that value keeps it and drops the former first value.
pub touch_misplaces :
    (r : LruReplacer) (t i j w : ℕ) (l : List Node)
    → IsConsistent r
    → r.lru_list ≡ (j, w) ∷ l
    → w ≢ t
    → find t l ≡ some i
    → (r' : LruReplacer) × (r'' : LruReplacer) × (touch r t ≡ some (r', true))
      × (remove r' t ≡ some r'')
      × (values r''.lru_list ≡ t ∷ without t (values l))
unfolding touch remove
touch_misplaces r t i j w l v front ne e =
    let c : Chain r.next_node ((j, w) ∷ l) = rw front at v.chain in
    let (l', erased, known) = erase_node-Erased j t i l c.2 e in
    let below = find-lt j l t i c.2 e in
    let hit : r.dir t ≡ some (some i) = ground (arith, v.dir t) in
    let cut : erase_node i r.lru_list ≡ some ((j, w) ∷ l') = ground arith in
    let touched : LruReplacer = record r {
      lru_list = (r.next_node, t) ∷ (j, w) ∷ l';
      next_node = r.next_node + 1;
      dir = emplace t (some j) r.dir;
    } in
    (
      touched,
      record touched { lru_list = (r.next_node, t) ∷ l'; dir = erase_key t touched.dir },
      ground arith,
      ground arith,
      ground (arith, known.rest),
    )
