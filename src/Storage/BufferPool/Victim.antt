-- ===== src/Storage/BufferPool/Victim.antt =====
-- `BufferPool::victim`: which frame it gives out.
use mathlib.Core.Path.{subst}
use tadis.Prelude.{
  ℕ, ◌≡◌, refl, sym, ap, ◌∙◌, true, false, Option, none, some, List, [], ◌∷◌, arith, ◌==◌,
  if◌then◌else◌,
}
use tadis.Storage.Replacer
use tadis.Storage.Replacer.Chain.{values, drop_last, get_last?}
use tadis.Storage.Replacer.Refine.{mem, IsConsistent, Refines, victim-Refines}
use tadis.Storage.Replacer.Members.{
  Distinct, Distinct-values, mem_of_last, mem-drop_last, mem_of-drop_last,
}
use tadis.Storage.BufferPool.{BufferPool, pop_back, victim}
use tadis.Storage.BufferPool.Dir.{pop_back_lem}
use tadis.Storage.BufferPool.Invariant.{evictable, idle, IsValid}

-- The pool after `victim`: only the two pools of idle frames have changed.
pub record Picked (b b' : BufferPool) (f : ℕ) : Type 0 where
  pub was_idle : idle b f ≡ true
  pub lru : IsConsistent b'.replacer
  pub distinct : Distinct b'.free_list
  pub apart : (g : ℕ) → mem g b'.free_list ≡ true → mem g (evictable b') ≡ false
  pub still_free : (g : ℕ) → mem g b'.free_list ≡ true → mem g b.free_list ≡ true
  pub now_idle : (g : ℕ) → idle b' g ≡ (if g == f then false else idle b g)

abbrev pub Victim : BufferPool → BufferPool → Option ℕ → Type 0
Victim b b' none =
    ((f : ℕ) → idle b f ≡ false)
    × IsConsistent b'.replacer
    × ((f : ℕ) → idle b' f ≡ false)
    × Distinct b'.free_list
Victim b b' (some f) = Picked b b' f

-- What `victim` may change.
abbrev pub rest_of : BufferPool → BufferPool → BufferPool
rest_of b b' = record b { free_list = b'.free_list; replacer = b'.replacer }

mem_of_no_last : (q : ℕ) (xs : List ℕ) → get_last? xs ≡ none → mem q xs ≡ false
mem_of_no_last q [] e = refl
mem_of_no_last q (x ∷ []) e = cc
mem_of_no_last q (x ∷ y ∷ xs) e = absurd (has_last y xs e)
  where
    has_last : (y : ℕ) (xs : List ℕ) → get_last? (y ∷ xs) ≡ none → ⊥
    has_last y [] e = cc
    has_last y (z ∷ xs) e = has_last z xs e

abbrev Outcome : BufferPool → Type 0
Outcome b =
    (o : Option ℕ) × (b' : BufferPool) × (victim b ≡ some (o, b'))
    × Victim b b' o
    × (b' ≡ rest_of b b')

victim_free : (b : BufferPool) (x : ℕ) (l : List ℕ) → IsValid b → b.free_list ≡ x ∷ l → Outcome b
unfolding victim
victim_free b x l v e =
    let (f, l', popped, d, inside, others) = pop_back_lem x l (subst Distinct e v.distinct) in
    let popped' : pop_back b.free_list ≡ some (f, l') = ap pop_back e ∙ popped in
    let member : (g : ℕ) → mem g l' ≡ (if g == f then false else mem g b.free_list) =
      λ g. rw e (others g) in
    let inside' : mem f b.free_list ≡ true = rw e inside in
    let apart = v.apart in
    (
      some f,
      record b { free_list = l' },
      rw (popped', victim) refl,
      record {
        was_idle = ground arith;
        lru = v.lru;
        distinct = d;
        apart = λ g h. ground (arith, member g, apart g);
        still_free = λ g h. ground (arith, member g);
        now_idle = λ g. ground (arith, member g, apart g, apart f, inside');
      },
      refl,
    )

victim_lru : (b : BufferPool) → IsValid b → b.free_list ≡ [] → Outcome b
unfolding victim
victim_lru b v e = go (victim-Refines b.replacer v.lru)
  where
    xs : List ℕ
    xs = evictable b

    popped : pop_back b.free_list ≡ none
    popped = ap pop_back e

    go :
        ((r' : Replacer.LruReplacer) × (o : Option ℕ) × (Replacer.victim b.replacer ≡ some (r', o))
          × (o ≡ get_last? xs)
          × Refines b.replacer r' (drop_last xs))
        → Outcome b
    go (r, none, ran, last, (c, vals, cap)) =
        let nothing : (f : ℕ) → mem f xs ≡ false = λ f. mem_of_no_last f xs (sym last) in
        let nothing' : (f : ℕ) → mem f (values r.lru_list) ≡ false =
          λ f. rw vals (ground (arith, mem_of-drop_last f xs, nothing f)) in
        (
          none,
          record b { replacer = r },
          rw (popped, victim) (rw ran refl),
          (λ f. rw (e, nothing f) refl, c, (λ f. rw (e, nothing' f) refl), v.distinct),
          refl,
        )
    go (r, some f, ran, last, (c, vals, cap)) =
        let d = Distinct-values b.replacer.next_node b.replacer.lru_list v.lru.chain in
        let member : (g : ℕ) → mem g (values r.lru_list) ≡ (if g == f then false else mem g xs) =
          λ g. rw vals (mem-drop_last g f xs d (sym last)) in
        let inside = mem_of_last f xs (sym last) in
        (
          some f,
          record b { replacer = r },
          rw (popped, victim) (rw ran refl),
          record {
            was_idle = rw (e, inside) refl;
            lru = c;
            distinct = v.distinct;
            apart = λ g h. absurd (ground arith);
            still_free = λ g h. h;
            now_idle = λ g. rw (e, member g) refl;
          },
          refl,
        )

victim_of : (b : BufferPool) (l : List ℕ) → IsValid b → b.free_list ≡ l → Outcome b
victim_of b [] v e = victim_lru b v e
victim_of b (x ∷ l) v e = victim_free b x l v e

-- `victim` returns an idle frame, which is then no longer idle; it fails only if none is. Nothing
-- but the two pools of idle frames changes.
pub victim_lem :
    (b : BufferPool)
    → IsValid b
    → (o : Option ℕ) × (b' : BufferPool) × (victim b ≡ some (o, b'))
      × Victim b b' o
      × (b' ≡ rest_of b b')
victim_lem b v = victim_of b b.free_list v refl
