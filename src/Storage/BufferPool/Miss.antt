-- ===== src/Storage/BufferPool/Miss.antt =====
-- src/storage/bufferpool/buffer_pool.hpp: the pool after `fetch` of a page that was not in memory.
use native.Mathlib.Decide.{ℕ_discrete}
use mathlib.Core.Path.{subst}
use tadis.Prelude.{ℕ, ◌<◌, ◌≡◌, ◌≢◌, false, none, some, arith, get_elem?}
use tadis.Storage.Def.{Page}
use tadis.Storage.Disk.Content.{max_id}
use tadis.Storage.BufferPool.{BufferPool, find}
use tadis.Storage.Replacer.Refine.{mem}
use tadis.Storage.BufferPool.Dir.{erase-Keys, assign-Keys}
use tadis.Storage.BufferPool.Invariant.{FrameIsValid, IsValid}
use tadis.Storage.BufferPool.Victim.{Picked, rest_of}
use tadis.Storage.BufferPool.Load.{
  loaded, loaded_page, evicted, FrameIsValid-loaded, entries-loaded, find-loaded, get_elem?-loaded,
  FrameIsValid-loaded_self, Sized-evicted,
}

-- The state after a miss.
abbrev pub after_miss : BufferPool → BufferPool → ℕ → ℕ → Page → BufferPool
after_miss b b' id f p = rest_of (loaded b id f p) b'

module _ (b b' : BufferPool) (id f : ℕ) (p : Page) (v : IsValid b) (picked : Picked b b' f)
    (miss : find id b.dir ≡ none) (id-lt : id < max_id) (here : get_elem? b.pages f ≡ some p)
    (pins : p.pin_count ≡ 0) where
  unheld' : (j g : ℕ) → find j (loaded b id f p).dir ≡ some g → mem g b'.free_list ≡ false
  unheld' j g held = elim (ℕ_discrete g f) [
    | yes same ↦ ground (arith, picked.now_idle g)
    | no other ↦
        ground
          (arith, picked.still_free g, v.unheld j g, find-loaded b id f p v miss id-lt here pins j)
  ]

  frames' :
      (g : ℕ) (q : Page)
      → get_elem? (loaded b id f p).pages g ≡ some q
      → FrameIsValid (loaded b id f p) g q
  frames' g q at = elim (ℕ_discrete g f) [
    | yes same ↦
        let is : loaded_page id (evicted b.disk p) p ≡ q =
          ground (arith, get_elem?-loaded b id f p v miss id-lt here pins g) in
        rw same (
          subst (FrameIsValid (loaded b id f p) f) is
            (FrameIsValid-loaded_self b id f p v miss id-lt here pins))
    | no other ↦
        FrameIsValid-loaded b id f p v miss id-lt here pins g q other
          (ground (arith, get_elem?-loaded b id f p v miss id-lt here pins g))
  ]

  pub after_miss-IsValid : IsValid (after_miss b b' id f p)
  after_miss-IsValid = record {
    lru = picked.lru;
    distinct = picked.distinct;
    apart = picked.apart;
    unpinned = λ g i.
        let ne : g ≢ f = λ e. ground (arith, picked.now_idle g) in
        let (q, at, pin) = v.unpinned g (ground (arith, picked.now_idle g)) in
        (q, ground (arith, get_elem?-loaded b id f p v miss id-lt here pins g), pin);
    unheld = λ j g held. unheld' j g held;
    keys = assign-Keys id f _ (erase-Keys p.pid b.dir v.keys);
    entries = entries-loaded b id f p v miss id-lt here pins;
    frames = λ g q at.
        let w = frames' g q at in record { sized = w.sized; home = w.home; clean = w.clean };
    blocks = Sized-evicted b id f p v miss id-lt here pins;
  }
