-- ===== src/Json/Objects.antt =====
-- src/json/json_value.hpp: what `push_back` and `insert` build in a row.
pub mod Laws
use tadis.Prelude.{ℕ, ◌≡◌, refl, ap, true, false, none, List, [], ◌∷◌, arith}
use tadis.Common.TextMap.{eq_text, less_text}
use tadis.Json.Value.{
  Value, Items, Fields, nil, cons, end, field, array_push_back, object_at, object_place,
  object_insert,
}

pub less_text_apart :
    (a b : List ℕ) → less_text a b ≡ true → (eq_text a b ≡ false) × (less_text b a ≡ false)
unfolding eq_text less_text
less_text_apart [] [] h = absurd (cc)
less_text_apart [] (y ∷ b) h = (refl, refl)
less_text_apart (x ∷ a) [] h = absurd (cc)
less_text_apart (x ∷ a) (y ∷ b) h = ground (arith, less_text_apart a b)

module _ {N : Type 0} where
  abbrev pub items_append : Items N → Items N → Items N
  items_append nil ys = ys
  items_append (cons v xs) ys = cons v (items_append xs ys)

  abbrev pub fields_append : Fields N → Fields N → Fields N
  fields_append end gs = gs
  fields_append (field k v fs) gs = field k v (fields_append fs gs)

  pub items_append-push_back :
      (xs ys : Items N) (v : Value N)
      → items_append (array_push_back xs v) ys ≡ items_append xs (cons v ys)
  unfolding array_push_back
  items_append-push_back nil ys v = refl
  items_append-push_back (cons w xs) ys v = ap (cons w) (items_append-push_back xs ys v)

  pub array_push_back_lem :
      (xs : Items N) (v : Value N) → array_push_back xs v ≡ items_append xs (cons v nil)
  unfolding array_push_back
  array_push_back_lem nil v = refl
  array_push_back_lem (cons w xs) v = ap (cons w) (array_push_back_lem xs v)

  pub fields_append_assoc :
      (fs gs hs : Fields N)
      → fields_append (fields_append fs gs) hs ≡ fields_append fs (fields_append gs hs)
  fields_append_assoc end gs hs = refl
  fields_append_assoc (field k v fs) gs hs = ap (field k v) (fields_append_assoc fs gs hs)

  -- Every name of the object is before `k`, or behind it.
  abbrev pub Below : Fields N → List ℕ → Type 0
  Below end k = Unit
  Below (field j v fs) k = (less_text j k ≡ true) × Below fs k

  abbrev pub Above : List ℕ → Fields N → Type 0
  Above k end = Unit
  Above k (field j v fs) = (less_text k j ≡ true) × Above k fs

  -- The order in which `std::map` keeps the names.
  abbrev pub IsSorted : Fields N → Type 0
  IsSorted end = Unit
  IsSorted (field k v fs) = Above k fs × IsSorted fs

  -- The names of the second object come behind those of the first.
  abbrev pub Behind : Fields N → Fields N → Type 0
  Behind fs end = Unit
  Behind fs (field k v gs) = Below fs k × Behind fs gs

  pub Behind-end : (gs : Fields N) → Behind end gs
  Behind-end end = tt
  Behind-end (field k v gs) = (tt, Behind-end gs)

  Below-append :
      (fs : Fields N) (k j : List ℕ) (v : Value N)
      → Below fs j
      → less_text k j ≡ true
      → Below (fields_append fs (field k v end)) j
  Below-append end k j v b h = (h, tt)
  Below-append (field i w fs) k j v b h = (b.0, Below-append fs k j v b.1 h)

  pub Behind-append :
      (fs gs : Fields N) (k : List ℕ) (v : Value N)
      → Behind fs gs
      → Above k gs
      → Behind (fields_append fs (field k v end)) gs
  Behind-append fs end k v b a = tt
  Behind-append fs (field j w gs) k v b a =
      (Below-append fs k j v b.0 a.0, Behind-append fs gs k v b.1 a.1)

  object_at-Below : (k : List ℕ) (fs : Fields N) → Below fs k → object_at k fs ≡ none
  unfolding object_at
  object_at-Below k end b = refl
  object_at-Below k (field j v fs) b =
      ground (arith, less_text_apart j k b.0, object_at-Below k fs b.1)

  object_place-Below :
      (k : List ℕ) (v : Value N) (fs : Fields N)
      → Below fs k
      → object_place k v fs ≡ fields_append fs (field k v end)
  unfolding object_place
  object_place-Below k v end b = refl
  object_place-Below k v (field j w fs) b =
      ground (arith, less_text_apart j k b.0, object_place-Below k v fs b.1)

  -- A name behind all others is put at the end.
  pub object_insert-Below :
      (k : List ℕ) (v : Value N) (fs : Fields N)
      → Below fs k
      → object_insert k v fs ≡ fields_append fs (field k v end)
  unfolding object_insert
  object_insert-Below k v fs b = ground (arith, object_at-Below k fs b, object_place-Below k v fs b)
