-- ===== src/Storage/BufferPool/Fetch.antt =====
-- src/storage/bufferpool/buffer_pool.hpp: `BufferPool::fetch`, by the three ways it may go.
use native.Mathlib.Decide.{ℕ_discrete}
use mathlib.Core.Path.{subst}
use tadis.Prelude.{
  ℕ, ◌+◌, ◌%◌, ◌<◌, ◌≡◌, ◌≢◌, ◌⊎◌, refl, sym, ap, ◌∙◌, true, false, Option, none, some, arith, ◌==◌,
  if◌then◌else◌, Option-cases, inl, inr, get_elem?, set,
}
use tadis.Storage.Def.{Page, size_mod}
use tadis.Storage.Disk.Content.{content, max_id}
use tadis.Storage.BufferPool.{BufferPool, find, victim, fetch_into, fetch}
use tadis.Storage.Replacer.Refine.{mem, remove-Refines}
use tadis.Storage.Replacer.Members.{mem-without, Distinct-values}
use tadis.Storage.Replacer
use tadis.Storage.Replacer.{LruReplacer}
use tadis.Storage.Replacer.Chain.{values}
use tadis.Storage.BufferPool.Dir.{get_elem?-set}
use tadis.Storage.BufferPool.Invariant.{evictable, idle, FrameIsValid, Held, IsValid, page_content}
use tadis.Storage.BufferPool.Victim.{Picked, Victim, rest_of, victim_lem}
use tadis.Storage.BufferPool.Load.{
  content_of_held, content_of_missing, read-loaded, loaded_page, evicted, fetch_into_lem,
  find-loaded, get_elem?-loaded, page_content-loaded,
}
use tadis.Storage.BufferPool.Miss.{after_miss, after_miss-IsValid}

-- What `fetch` gives. On success, the frame held the page or was idle; it holds the page now and is
-- pinned, and every other frame is as it was. On failure the page is not held and no frame is idle.
abbrev pub Fetched : BufferPool → BufferPool → ℕ → Option ℕ → Type 0
Fetched b b' id none = (find id b.dir ≡ none) × ((g : ℕ) → idle b g ≡ false)
Fetched b b' id (some f) =
    (find id b'.dir ≡ some f)
    × ((find id b.dir ≡ some f) ⊎ ((find id b.dir ≡ none) × (idle b f ≡ true)))
    × ((p : Page) × (p.pid ≡ id)
        × (0 < p.pin_count)
        × (p.pin_count < size_mod)
        × ((g : ℕ) → get_elem? b'.pages g ≡ (if g == f then some p else get_elem? b.pages g))
        × (find id b.dir ≡ none
            → (p.pin_count ≡ 1) × (p.dirty ≡ false) × (p.buffer ≡ content b'.disk id)))

abbrev pub Result : BufferPool → ℕ → ℕ → Type 0
Result b id j =
    (o : Option ℕ) × (b' : BufferPool) × (fetch id b ≡ some (o, b'))
    × IsValid b'
    × (page_content b' j ≡ page_content b j)
    × (b'.head ≡ b.head)
    × Fetched b b' id o

fetch-miss :
    (b b' : BufferPool) (id : ℕ) (o : Option ℕ)
    → find id b.dir ≡ none
    → victim b ≡ some (o, b')
    → fetch id b ≡ fetch_into id o b'
unfolding fetch
fetch-miss b b' id o miss ran = ground arith

module _ (b : BufferPool) (id j : ℕ) (v : IsValid b) (id-lt : id < max_id) (j-lt : j < max_id) where
  fetch_from_idle :
      (b' : BufferPool) (f : ℕ)
      → find id b.dir ≡ none
      → victim b ≡ some (some f, b')
      → Picked b b' f
      → b' ≡ rest_of b b'
      → Result b id j
  fetch_from_idle b' f miss ran picked same =
      let (p, here, pins) = v.unpinned f picked.was_idle in
      let held = (v.frames f p here).home in
      let loads = fetch_into_lem (rest_of b b') id f p here (λ d. ground (arith, held)) in
      (
        some f,
        after_miss b b' id f p,
        fetch-miss b b' id (some f) miss ran ∙ ap (fetch_into id (some f)) same ∙ loads,
        after_miss-IsValid b b' id f p v picked miss id-lt here pins,
        page_content-loaded b id f p v miss id-lt here pins j j-lt,
        refl,
        (
          ground (arith, find-loaded b id f p v miss id-lt here pins id),
          inr (miss, picked.was_idle),
          (
            loaded_page id (evicted b.disk p) p,
            refl,
            omega arith,
            omega arith,
            get_elem?-loaded b id f p v miss id-lt here pins,
            λ gone. (refl, refl, read-loaded b id f p v miss id-lt here pins),
          ),
        ),
      )

  fetch_fails :
      (b' : BufferPool)
      → find id b.dir ≡ none
      → victim b ≡ some (none, b')
      → Victim b b' none
      → b' ≡ rest_of b b'
      → Result b id j
  fetch_fails b' miss ran (none_idle, lru, still, distinct) same = (
    none,
    rest_of b b',
    fetch-miss b b' id none miss ran ∙ ap (fetch_into id none) same ∙ unfold fetch_into in refl,
    record {
      lru = lru;
      distinct = distinct;
      apart = λ g h. absurd (ground (arith, still g));
      unpinned = λ g h. absurd (ground (arith, still g));
      unheld = λ j g held. ground (arith, still g);
      keys = v.keys;
      entries = v.entries;
      frames = λ g q at.
          let w = v.frames g q at in record { sized = w.sized; home = w.home; clean = w.clean };
      blocks = v.blocks;
    },
    refl,
    refl,
    (miss, none_idle),
  )

-- The page is in memory.
module _ (b : BufferPool) (id f : ℕ) (p : Page) (v : IsValid b) (held : find id b.dir ≡ some f)
    (here : get_elem? b.pages f ≡ some p) (home_id : p.pid ≡ id)
    (few : p.pin_count + 1 < size_mod) where
  abbrev pinned : Page
  pinned = record p { pin_count = (p.pin_count + 1) % size_mod }

  abbrev after_hit : LruReplacer → BufferPool
  after_hit r = record b { pages = set b.pages f pinned; replacer = r }

  pages_after :
      (g : ℕ)
      → get_elem? (set b.pages f pinned) g ≡ (if g == f then some pinned else get_elem? b.pages g)
  pages_after g = get_elem?-set b.pages f g pinned here

  fetch-hit :
      (r : LruReplacer)
      → Replacer.remove b.replacer f ≡ some r
      → fetch id b ≡ some (some f, after_hit r)
  unfolding fetch
  fetch-hit r ran = ground arith

  frames_hit :
      (r : LruReplacer) (g : ℕ) (q : Page)
      → get_elem? (set b.pages f pinned) g ≡ some q
      → FrameIsValid (after_hit r) g q
  frames_hit r g q at = elim (ℕ_discrete g f) [
    | yes same ↦
        let w = v.frames f p here in
        let is : pinned ≡ q = ground (arith, pages_after g) in
        rw same (
          subst (FrameIsValid (after_hit r) f) is
            (record { sized = w.sized; home = w.home; clean = λ pin d h. absurd (omega arith) }))
    | no other ↦
        let w = v.frames g q (ground (arith, pages_after g)) in
        record { sized = w.sized; home = w.home; clean = w.clean }
  ]

  entries_hit : (r : LruReplacer) (j g : ℕ) → find j b.dir ≡ some g → Held (after_hit r) j g
  entries_hit r j g e =
      let (small, (q, at, is)) = v.entries j g e in
      elim (ℕ_discrete g f) [
        | yes same ↦
            let at' : get_elem? b.pages f ≡ some q = rw (sym same) at in
            (small, (pinned, ground (arith, pages_after g), ground arith))
        | no other ↦ (small, (q, ground (arith, pages_after g), is))
      ]

  content_hit : (r : LruReplacer) (j : ℕ) → page_content (after_hit r) j ≡ page_content b j
  content_hit r j = elim (Option-cases (find j b.dir)) [
    | inl gone ↦ content_of_missing (after_hit r) j gone ∙ sym (content_of_missing b j gone)
    | inr (g, e) ↦
        let (small, (q, at, is)) = v.entries j g e in
        elim (ℕ_discrete g f) [
          | yes same ↦
              let at' : get_elem? b.pages f ≡ some q = rw (sym same) at in
              let is' : p ≡ q = ground arith in
              content_of_held (after_hit r) j g pinned e (ground (arith, pages_after g))
              ∙ ap (λ q. q.buffer) is'
              ∙ sym (content_of_held b j g q e at)
          | no other ↦
              content_of_held (after_hit r) j g q e (ground (arith, pages_after g))
              ∙ sym (content_of_held b j g q e at)
        ]
  ]

  fetch_hit : (j : ℕ) → Result b id j
  fetch_hit j =
      let (r, ran, (lru, vals, cap)) = remove-Refines b.replacer v.lru f in
      let d = Distinct-values b.replacer.next_node b.replacer.lru_list v.lru.chain in
      let member : (g : ℕ)
          → mem g (values r.lru_list) ≡ (if g == f then false else mem g (evictable b)) =
        λ g. rw vals (mem-without g f (evictable b) d) in
      (
        some f,
        after_hit r,
        fetch-hit r ran,
        record {
          lru = lru;
          distinct = v.distinct;
          apart = λ g h. ground (arith, member g, v.apart g);
          unpinned = λ g h.
              let ne : g ≢ f = λ e. ground (arith, member g, v.unheld id f held) in
              let (q, at, pin) = v.unpinned g (ground (arith, member g)) in
              (q, ground (arith, pages_after g), pin);
          unheld = v.unheld;
          keys = v.keys;
          entries = entries_hit r;
          frames = frames_hit r;
          blocks = v.blocks;
        },
        content_hit r j,
        refl,
        (
          held,
          inl held,
          (pinned, home_id, omega arith, omega arith, pages_after, λ gone. absurd (ground arith)),
        ),
      )

-- On a valid pool, with page numbers below 2 ^ 54 and room in the pin count of the page, `fetch`
-- returns, the pool stays valid and keeps its header, and every page has the contents that it had, in memory or on
-- disk. The frame that it gives held the page or was idle; it now holds the page and is pinned,
-- and every other frame is as it was. A page that was not in memory is pinned once, clean, and as
-- on disk. It gives none only if the page is not in memory and no frame is free or evictable.
pub fetch_lem :
    (b : BufferPool) (id j : ℕ)
    → IsValid b
    → id < max_id
    → j < max_id
    → ((f : ℕ) (p : Page)
        → find id b.dir ≡ some f
        → get_elem? b.pages f ≡ some p
        → p.pin_count + 1 < size_mod)
    → Result b id j
fetch_lem b id j v id-lt j-lt few = elim (Option-cases (find id b.dir)) [
  | inr (f, held) ↦
      let (small, (p, here, is)) = v.entries id f held in
      fetch_hit b id f p v held here is (few f p held here) j
  | inl miss ↦ by_victim miss (victim_lem b v)
]
  where
    by_victim :
        find id b.dir ≡ none
        → ((o : Option ℕ) × (b' : BufferPool) × (victim b ≡ some (o, b'))
            × Victim b b' o
            × (b' ≡ rest_of b b'))
        → Result b id j
    by_victim miss (none, b', ran, lost, same) =
        fetch_fails b id j v id-lt j-lt b' miss ran lost same
    by_victim miss (some f, b', ran, picked, same) =
        fetch_from_idle b id j v id-lt j-lt b' f miss ran picked same
