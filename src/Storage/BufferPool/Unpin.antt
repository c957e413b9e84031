-- ===== src/Storage/BufferPool/Unpin.antt =====
-- src/storage/bufferpool/buffer_pool.hpp: `BufferPool::unpin`.
use native.Mathlib.Decide.{ℕ_discrete}
use mathlib.Core.Path.{subst}
use tadis.Prelude.{
  ℕ, ◌<◌, ◌≡◌, ◌≢◌, refl, sym, ap, ◌∙◌, Bool, true, false, ◌||◌, some, List, arith, ◌==◌,
  if◌then◌else◌, Bool-cases, Option-cases, inl, inr, get_elem?, set, length,
}
use tadis.Storage.Def.{Page, size_mod, sub_size}
use tadis.Storage.Disk.Content.{content}
use tadis.Storage.Replacer
use tadis.Storage.Replacer.{LruReplacer}
use tadis.Storage.Replacer.Chain.{values}
use tadis.Storage.Replacer.Refine.{mem, IsConsistent, put_values, put-Refines}
use tadis.Storage.Replacer.Members.{mem_of-put_values}
use tadis.Storage.BufferPool.{BufferPool, find, unpin}
use tadis.Storage.BufferPool.Dir.{get_elem?-set}
use tadis.Storage.BufferPool.Invariant.{evictable, idle, FrameIsValid, Held, IsValid, page_content}
use tadis.Storage.BufferPool.Load.{content_of_held, content_of_missing}

put_values_self : (cap f : ℕ) (xs : List ℕ) → mem f xs ≡ false → mem f (put_values cap f xs) ≡ true
put_values_self cap f xs fresh = elim (Bool-cases (cap == length xs)) [
  | inl full ↦ ground arith
  | inr room ↦ ground arith
]

-- The page of a frame changes but for its number, and the replacer's order.
module _ (b : BufferPool) (f : ℕ) (p q : Page) (r : LruReplacer) (v : IsValid b)
    (here : get_elem? b.pages f ≡ some p) (same_pid : q.pid ≡ p.pid) where
  abbrev pub flagged : BufferPool
  flagged = record b { pages = set b.pages f q; replacer = r }

  pub pages_flagged :
      (g : ℕ) → get_elem? (set b.pages f q) g ≡ (if g == f then some q else get_elem? b.pages g)
  pages_flagged g = get_elem?-set b.pages f g q here

  pub entries_flagged : (j g : ℕ) → find j b.dir ≡ some g → Held flagged j g
  entries_flagged j g e =
      let (small, (w, at, is)) = v.entries j g e in
      elim (ℕ_discrete g f) [
        | yes same ↦
            let at' : get_elem? b.pages f ≡ some w = rw (sym same) at in
            (small, (q, ground (arith, pages_flagged g), ground arith))
        | no other ↦ (small, (w, ground (arith, pages_flagged g), is))
      ]

  content_flagged : q.buffer ≡ p.buffer → (j : ℕ) → page_content flagged j ≡ page_content b j
  content_flagged same_buffer j = elim (Option-cases (find j b.dir)) [
    | inl gone ↦ content_of_missing flagged j gone ∙ sym (content_of_missing b j gone)
    | inr (g, e) ↦
        let (small, (w, at, is)) = v.entries j g e in
        elim (ℕ_discrete g f) [
          | yes same ↦
              let at' : get_elem? b.pages f ≡ some w = rw (sym same) at in
              let is' : p ≡ w = ground arith in
              content_of_held flagged j g q e (ground (arith, pages_flagged g))
              ∙ same_buffer
              ∙ ap (λ w. w.buffer) is'
              ∙ sym (content_of_held b j g w e at)
          | no other ↦
              content_of_held flagged j g w e (ground (arith, pages_flagged g))
              ∙ sym (content_of_held b j g w e at)
        ]
  ]

  pub frames_flagged :
      FrameIsValid flagged f q
      → (g : ℕ) (w : Page) → get_elem? (set b.pages f q) g ≡ some w
      → FrameIsValid flagged g w
  frames_flagged own g w at = elim (ℕ_discrete g f) [
    | yes same ↦
        let is : q ≡ w = ground (arith, pages_flagged g) in
        rw same (subst (FrameIsValid flagged f) is own)
    | no other ↦
        let old = v.frames g w (ground (arith, pages_flagged g)) in
        record { sized = old.sized; home = old.home; clean = old.clean }
  ]

-- `unpin` of the page `id`, which the frame `f` holds.
module _ (b : BufferPool) (id f : ℕ) (p : Page) (is_dirty : Bool) (j : ℕ) (v : IsValid b)
    (held : find id b.dir ≡ some f) (here : get_elem? b.pages f ≡ some p) (pins : 0 < p.pin_count)
    (few : p.pin_count < size_mod)
    (saved : p.dirty || is_dirty ≡ false → p.buffer ≡ content b.disk id) where
  abbrev released : Page
  released = record p { dirty = p.dirty || is_dirty; pin_count = sub_size p.pin_count 1 }

  abbrev after_unpin : LruReplacer → BufferPool
  after_unpin r = record b { pages = set b.pages f released; replacer = r }

  busy : idle b f ≡ false
  busy = elim (Bool-cases (idle b f)) [
    | inr not_idle ↦ not_idle
    | inl is_idle ↦ let (q, at, none) = v.unpinned f is_idle in absurd (ground arith)
  ]

  same_page : p.pid ≡ id
  same_page = let (small, (q, at, e)) = v.entries id f held in ground arith

  own : (r : LruReplacer) → FrameIsValid (after_unpin r) f released
  own r =
      let old = v.frames f p here in
      record {
        sized = old.sized;
        home = inr (ap (λ i. find i b.dir) same_page ∙ held);
        clean = λ pin d h. saved d ∙ ap (content b.disk) (sym same_page);
      }

  pinned_still : sub_size p.pin_count 1 ≢ 0 → IsValid (after_unpin b.replacer)
  pinned_still ne = record {
    lru = v.lru;
    distinct = v.distinct;
    apart = v.apart;
    unpinned = λ g h.
        let (q, at, none) = v.unpinned g h in
        (q, ground (arith, pages_flagged b f p released b.replacer v here refl g, busy), none);
    unheld = v.unheld;
    keys = v.keys;
    entries = entries_flagged b f p released b.replacer v here refl;
    frames = frames_flagged b f p released b.replacer v here refl (own b.replacer);
    blocks = v.blocks;
  }

  now_evictable :
      (r : LruReplacer)
      → sub_size p.pin_count 1 ≡ 0
      → IsConsistent r
      → values r.lru_list ≡ put_values b.replacer.capacity f (evictable b)
      → IsValid (after_unpin r)
  now_evictable r zero lru vals =
      let busy' = busy in
      let member : (g : ℕ) → mem g (values r.lru_list) ≡ true → g ≢ f → mem g (evictable b) ≡ true =
        λ g h ne. mem_of-put_values g b.replacer.capacity f (evictable b) ne (rw vals at h) in
      record {
        lru = lru;
        distinct = v.distinct;
        apart = λ g h. ground (arith, member g, v.unheld id f held, v.apart g);
        unpinned = λ g h. elim (ℕ_discrete g f) [
          | yes same ↦
              (released, ground (arith, pages_flagged b f p released r v here refl g), zero)
          | no other ↦
              let (q, at, none) = v.unpinned g (ground (arith, member g)) in
              (q, ground (arith, pages_flagged b f p released r v here refl g), none)
        ];
        unheld = v.unheld;
        keys = v.keys;
        entries = entries_flagged b f p released r v here refl;
        frames = frames_flagged b f p released r v here refl (own r);
        blocks = v.blocks;
      }

  unpin-pinned :
      sub_size p.pin_count 1 ≢ 0 → unpin id is_dirty b ≡ some (tt, after_unpin b.replacer)
  unfolding unpin
  unpin-pinned ne = ground arith

  unpin-put :
      (r : LruReplacer)
      → sub_size p.pin_count 1 ≡ 0
      → Replacer.put b.replacer f ≡ some r
      → unpin id is_dirty b ≡ some (tt, after_unpin r)
  unfolding unpin
  unpin-put r zero ran = ground arith

  -- On a valid pool, `unpin` of a pinned page that a frame holds returns, and the pool stays
  -- valid and every page keeps its contents, provided that the page is on disk as it is in
  -- memory where neither its flag nor the argument says dirty. The pin count goes down by one,
  -- the dirty flag is kept or set, every other frame is as it was, and the frame is idle exactly
  -- if this was the last pin.
  pub unpin_lem :
      (b' : BufferPool) × (unpin id is_dirty b ≡ some (tt, b'))
      × IsValid b'
      × (page_content b' j ≡ page_content b j)
      × ((g : ℕ)
          → get_elem? b'.pages g ≡ (
              if g == f
              then some
                  (record p { dirty = p.dirty || is_dirty; pin_count = sub_size p.pin_count 1 })
              else get_elem? b.pages g))
      × (idle b' f ≡ (p.pin_count == 1))
  unpin_lem = elim (ℕ_discrete (sub_size p.pin_count 1) 0) [
    | no more ↦ (
      after_unpin b.replacer,
      unpin-pinned more,
      pinned_still more,
      content_flagged b f p released b.replacer v here refl refl j,
      pages_flagged b f p released b.replacer v here refl,
      busy ∙ ground arith,
    )
    | yes last ↦
        let (r, ran, (lru, vals, cap)) = put-Refines b.replacer v.lru f in
        let fresh : mem f (evictable b) ≡ false = ground (arith, busy) in
        let inside : mem f (values r.lru_list) ≡ true =
          ap (mem f) vals ∙ put_values_self b.replacer.capacity f (evictable b) fresh in
        (
          after_unpin r,
          unpin-put r last ran,
          now_evictable r last lru vals,
          content_flagged b f p released r v here refl refl j,
          pages_flagged b f p released r v here refl,
          ground (arith, inside),
        )
  ]
