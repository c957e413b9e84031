-- ===== src/Storage/BufferPool/Start.antt =====
-- The pool as the constructor makes it.
use mathlib.Core.Path.{subst}
use tadis.Prelude.{
  ℕ, zero, suc, ◌+◌, ◌≤◌, ◌<◌, ◌≡◌, refl, sym, true, some, List, arith, replicate, get_elem?, inl,
}
use tadis.Storage.Disk.Content.{Sized}
use tadis.Storage.Disk
use tadis.Storage.Replacer
use tadis.Storage.Replacer.Chain
use tadis.Storage.Replacer.Refine.{mem}
use tadis.Storage.Replacer.Members.{Distinct}
use tadis.Storage.BufferPool.{find}
use tadis.Storage.BufferPool.Invariant.{FrameIsValid, IsValid}
use tadis.Storage.BufferPool.Lifecycle.{raw_pool, count_up, fresh_page}

mem-count_up : (q i n : ℕ) → mem q (count_up i n) ≡ true → (i ≤ q) × (q < i + n)
mem-count_up q i zero h = absurd (ground arith)
mem-count_up q i (suc n) h = ground (arith, mem-count_up q (i + 1) n)

Distinct-count_up : (i n : ℕ) → Distinct (count_up i n)
Distinct-count_up i zero = tt
Distinct-count_up i (suc n) =
    (ground (arith, mem-count_up i (i + 1) n), Distinct-count_up (i + 1) n)

get_elem?-replicate :
    {A : Type 0} (n i : ℕ) (x y : A) → get_elem? (replicate n x) i ≡ some y → y ≡ x
get_elem?-replicate zero i x y h = absurd (ground arith)
get_elem?-replicate (suc n) zero x y h = ground arith
get_elem?-replicate (suc n) (suc i) x y h = get_elem?-replicate n i x y h

get_elem?-replicate_in :
    {A : Type 0} (n i : ℕ) (x : A) → i < n → get_elem? (replicate n x) i ≡ some x
get_elem?-replicate_in zero i x h = absurd (omega arith)
get_elem?-replicate_in (suc n) zero x h = refl
get_elem?-replicate_in (suc n) (suc i) x h = get_elem?-replicate_in n i x (omega arith)

-- With at least one frame and a file of whole pages, the pool that the constructor makes is
-- valid before it reads the header page.
pub raw_pool-IsValid :
    (blocks : List (List ℕ)) (bfp_size : ℕ)
    → 0 < bfp_size
    → Sized blocks
    → IsValid (raw_pool blocks bfp_size)
unfolding raw_pool find Replacer.init Disk.open_disk Chain.find
raw_pool-IsValid blocks n pos s = record {
  lru = record { chain = tt; dir = λ t. refl; bounded = omega arith; positive = pos };
  distinct = Distinct-count_up 0 n;
  apart = λ f h. refl;
  unpinned = λ f h. (
    fresh_page,
    get_elem?-replicate_in n f fresh_page (ground (arith, mem-count_up f 0 n)),
    refl,
  );
  unheld = λ id f h. absurd (ground arith);
  keys = tt;
  entries = λ id f h. absurd (ground arith);
  frames = λ f p h.
      subst (FrameIsValid (raw_pool blocks n) f) (sym (get_elem?-replicate n f fresh_page p h))
        (record {
          sized = refl;
          home = inl (refl, refl);
          clean = λ pin d e. absurd (ground arith);
        });
  blocks = s;
}
