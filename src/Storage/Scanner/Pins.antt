-- ===== src/Storage/Scanner/Pins.antt =====
-- src/storage/bufferpool/record.hpp: the pins that `RecordScanner` gives back at the end.
use native.Mathlib.Decide.{ℕ_discrete}
use tadis.Prelude.{
  ℕ, zero, suc, [], ◌∷◌, ◌<◌, ◌≡◌, true, false, ◌||◌, some, none, List, length, get_elem?, set,
  get_elem?-set_self, arith,
}
use tadis.Common.Bitmap
use tadis.Storage.Def.{Page, sub_size}
use tadis.Storage.Replacer.{LruReplacer}
use tadis.Storage.Replacer.Refine.{IsConsistent, put-Refines}
use tadis.Storage.RecordPage
use tadis.Storage.BufferPool.{BufferPool, ◌>>=◌, find, unpin}
use tadis.Storage.BufferPool.Lifecycle.{next_pid_after}
use tadis.Storage.Scanner.{RecordScanner, has_next, destroy, page_has_next}

abbrev pub released : Page → Page
released p = record p { dirty = p.dirty || false; pin_count = sub_size p.pin_count 1 }

get_elem?-length :
    {A : Type 0} (xs : List A) (i : ℕ) {x : A} → get_elem? xs i ≡ some x → i < length xs
get_elem?-length [] i e = absurd (cc)
get_elem?-length (x ∷ xs) zero e = omega arith
get_elem?-length (x ∷ xs) (suc i) e = omega (arith, get_elem?-length xs i e)

-- `unpin` of a page that a frame holds takes one pin off, whatever the count is.
pub unpin-released :
    (b : BufferPool) (id f : ℕ) (p : Page)
    → IsConsistent b.replacer
    → find id b.dir ≡ some f
    → get_elem? b.pages f ≡ some p
    → (r : LruReplacer) × IsConsistent r
      × (unpin id false b
          ≡ some (tt, record b { pages = set b.pages f (released p); replacer = r }))
unfolding unpin
unpin-released b id f p lru here at = elim (ℕ_discrete (sub_size p.pin_count 1) 0) [
  | no more ↦ (b.replacer, lru, ground (arith, here, at))
  | yes last ↦
      let (r, ran, (lru', vals, cap)) = put-Refines b.replacer lru f in
      (r, lru', ground (arith, here, at, ran))
]

-- On a consistent replacer, where the page under an attached scanner is in memory, it has no record
-- left and no page follows, `has_next` and the destruction of the scanner return, and they have
-- taken two pins off the page together.
pub destroy-has_next :
    (s : RecordScanner) (b : BufferPool) (p : Page)
    → IsConsistent b.replacer
    → s.attached ≡ true
    → find s.next_rid.page_id b.dir ≡ some s.frame
    → get_elem? b.pages s.frame ≡ some p
    → RecordPage.has_next s.rp p.buffer s.next_rid ≡ false
    → Bitmap.first_after b.head.bitmap true s.next_rid.page_id ≡ some none
    → (b' : BufferPool) × ((has_next s >>= λ found. destroy found.1) b ≡ some (tt, b'))
      × (get_elem? b'.pages s.frame
          ≡ some (record p {
            dirty = (p.dirty || false) || false;
            pin_count = sub_size (sub_size p.pin_count 1) 1;
          }))
unfolding has_next destroy page_has_next next_pid_after
destroy-has_next s b p lru att here at none_left last =
    let (r, lru', e) = unpin-released b s.next_rid.page_id s.frame p lru here at in
    let inside = get_elem?-length b.pages s.frame at in
    let at' = get_elem?-set_self b.pages s.frame (released p) inside in
    let b1 : BufferPool = record b { pages = set b.pages s.frame (released p); replacer = r } in
    let (r', lru'', e') = unpin-released b1 s.next_rid.page_id s.frame (released p) lru' here at' in
    let inside' = get_elem?-length (set b.pages s.frame (released p)) s.frame at' in
    (
      record b1 { pages = set b1.pages s.frame (released (released p)); replacer = r' },
      ground (arith, att, at, none_left, last, e, e'),
      get_elem?-set_self (set b.pages s.frame (released p)) s.frame (released (released p)) inside',
    )
