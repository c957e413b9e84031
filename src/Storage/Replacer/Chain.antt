-- ===== src/Storage/Replacer/Chain.antt =====
-- The list of nodes: node names fall from front to back, and no value stands in two nodes.
use tadis.Prelude.{
  ℕ, suc, ◌<◌, ◌≤◌, ◌≡◌, refl, ap, Option, none, some, List, [], ◌∷◌, arith, length, ◌==◌,
  if◌then◌else◌, ◌≢◌, inl, inr, Bool-cases,
}
use tadis.Storage.Replacer.{Node, erase_node, pop_back}

abbrev pub find : ℕ → List Node → Option ℕ
find t [] = none
find t ((id, v) ∷ l) = if v == t then some id else find t l

abbrev pub Chain : ℕ → List Node → Type 0
Chain n [] = Unit
Chain n ((id, v) ∷ l) = (id < n) × (find v l ≡ none) × Chain id l

-- The values, most recent first, and the list without one value.
abbrev pub values : List Node → List ℕ
values [] = []
values ((id, v) ∷ l) = v ∷ values l

abbrev pub without : ℕ → List ℕ → List ℕ
without t [] = []
without t (x ∷ xs) = if x == t then xs else x ∷ without t xs

abbrev pub drop_last : List ℕ → List ℕ
drop_last [] = []
drop_last (x ∷ []) = []
drop_last (x ∷ y ∷ xs) = x ∷ drop_last (y ∷ xs)

abbrev pub get_last? : List ℕ → Option ℕ
get_last? [] = none
get_last? (x ∷ []) = some x
get_last? (x ∷ y ∷ xs) = get_last? (y ∷ xs)

pub length-values : (l : List Node) → length (values l) ≡ length l
length-values [] = refl
length-values (n ∷ l) = ap suc (length-values l)

pub Chain-weaken : (n m : ℕ) (l : List Node) → n ≤ m → Chain n l → Chain m l
Chain-weaken n m [] h c = tt
Chain-weaken n m ((id, v) ∷ l) h c = (omega arith, c.1, c.2)

pub find-lt : (n : ℕ) (l : List Node) (t i : ℕ) → Chain n l → find t l ≡ some i → i < n
find-lt n [] t i c e = cc
find-lt n ((id, v) ∷ l) t i c e = ground (arith, find-lt id l t i c.2)

-- What `erase` of the node of a value leaves.
pub record Erased (n t : ℕ) (l l' : List Node) : Type 0 where
  pub chain : Chain n l'
  pub rest : values l' ≡ without t (values l)
  pub finds : (q : ℕ) → find q l' ≡ (if q == t then none else find q l)

pub erase_node-Erased :
    (n t i : ℕ) (l : List Node)
    → Chain n l
    → find t l ≡ some i
    → (l' : List Node) × (erase_node i l ≡ some l') × Erased n t l l'
unfolding erase_node
erase_node-Erased n t i [] c e = absurd (ground arith)
erase_node-Erased n t i ((id, v) ∷ l) c e = elim (Bool-cases (v == t)) [
  | inl here ↦ (
    l,
    ground arith,
    record {
      chain = Chain-weaken id n l (omega arith) c.2;
      rest = rw here refl;
      finds = λ q. ground arith;
    },
  )
  | inr there ↦
      let e' : find t l ≡ some i = rw there at e in
      let (l', erased, known) = erase_node-Erased id t i l c.2 e' in
      let rest = known.rest in
      let finds = known.finds in
      (
        (id, v) ∷ l',
        ground (arith, find-lt id l t i c.2 e'),
        record {
          chain = (c.0, ground (arith, finds v), known.chain);
          rest = rw (there, rest) refl;
          finds = λ q. ground (arith, finds q);
        },
      )
]

last-found : (l : List Node) (b : ℕ) → get_last? (values l) ≡ some b → find b l ≢ none
last-found [] b h = cc
last-found ((id, v) ∷ []) b h = ground arith
last-found ((id, v) ∷ (id', v') ∷ l) b h = ground (arith, last-found ((id', v') ∷ l) b h)

pub record Popped (n : ℕ) (l l' : List Node) (back : ℕ) : Type 0 where
  pub chain : Chain n l'
  pub rest : values l' ≡ drop_last (values l)
  pub last : get_last? (values l) ≡ some back
  pub finds : (q : ℕ) → find q l' ≡ (if q == back then none else find q l)

pub pop_back-Popped :
    (n id v : ℕ) (l : List Node)
    → Chain n ((id, v) ∷ l)
    → (back : ℕ) × (l' : List Node) × (pop_back ((id, v) ∷ l) ≡ some (back, l'))
      × Popped n ((id, v) ∷ l) l' back
unfolding pop_back
pop_back-Popped n id v [] c =
    (v, [], refl, record { chain = tt; rest = refl; last = refl; finds = λ q. ground arith })
pop_back-Popped n id v ((id', v') ∷ l) c =
    let (back, l', popped, known) = pop_back-Popped id id' v' l c.2 in
    let finds = known.finds in
    let found = last-found ((id', v') ∷ l) back known.last in
    (
      back,
      (id, v) ∷ l',
      rw popped refl,
      record {
        chain = (c.0, ground (arith, finds v), known.chain);
        rest = ap (◌∷◌ v) known.rest;
        last = known.last;
        finds = λ q. ground (arith, finds q);
      },
    )
