-- ===== src/Storage/BufferPool/Load.antt =====
-- src/storage/bufferpool/buffer_pool.hpp: the part of `fetch` that reads a page into a frame which
-- `victim` gave out, and evicts the page that was there.
use native.Mathlib.Decide.{ℕ_discrete}
use tadis.Prelude.{
  ℕ, ◌<◌, ◌≡◌, ◌≢◌, refl, sym, ap, ◌∙◌, true, false, none, some, arith, ◌==◌, if◌then◌else◌,
  Bool-cases, Option-cases, inl, inr, ◌⊎◌, length, replicate, get_elem?, set,
}
use tadis.Storage.Def.{Page}
use tadis.Storage.Disk
use tadis.Storage.Disk.{Disk, zero_block}
use tadis.Storage.Disk.Content.{
  content, max_id, Sized, content-write_page, write_page-Sized, length-content,
}
use tadis.Storage.BufferPool.{BufferPool, find, erase, assign, fetch_into}
use tadis.Storage.BufferPool.Dir.{find-erase, find-assign, get_elem?-set, set-set}
use tadis.Storage.BufferPool.Invariant.{FrameIsValid, Held, IsValid, page_content}

abbrev pub evicted : Disk → Page → Disk
evicted d p = if p.dirty then Disk.write_page d p.pid p.buffer else d

abbrev pub loaded_page : ℕ → Disk → Page → Page
loaded_page id d p = record {
  buffer = Disk.read_page d id (replicate (length p.buffer) 0);
  pid = id;
  pin_count = 1;
  dirty = false;
}

abbrev pub loaded : BufferPool → ℕ → ℕ → Page → BufferPool
loaded b id f p = record b {
  dir = assign id f (erase p.pid b.dir);
  disk = evicted b.disk p;
  pages = set b.pages f (loaded_page id (evicted b.disk p) p);
}

-- `fetch_into` writes a dirty page back, then reads the new page into its frame.
pub fetch_into_lem :
    (b : BufferPool) (id f : ℕ) (p : Page)
    → get_elem? b.pages f ≡ some p
    → (p.dirty ≡ true → find p.pid b.dir ≡ some f)
    → fetch_into id (some f) b ≡ some (some f, loaded b id f p)
unfolding fetch_into
fetch_into_lem b id f p here held =
    let blank : Page = record {
      buffer = replicate (length p.buffer) 0;
      pid = id;
      pin_count = 0;
      dirty = false;
    } in
    let there = get_elem?-set b.pages f f blank here in
    let twice = set-set b.pages f blank (loaded_page id (evicted b.disk p) p) in
    elim (Bool-cases p.dirty) [ inl d ↦ ground (arith, held d) | inr d ↦ ground arith ]

pub content_of_held :
    (b : BufferPool) (j g : ℕ) (q : Page)
    → find j b.dir ≡ some g
    → get_elem? b.pages g ≡ some q
    → page_content b j ≡ q.buffer
content_of_held b j g q held at = rw (held, page_content) (rw at refl)

pub content_of_missing :
    (b : BufferPool) (j : ℕ) → find j b.dir ≡ none → page_content b j ≡ content b.disk j
content_of_missing b j gone = rw (gone, page_content) refl

-- Page `id` is not in memory, and the frame `f` with its page `p` was idle.
module _ (b : BufferPool) (id f : ℕ) (p : Page) (v : IsValid b) (miss : find id b.dir ≡ none)
    (id-lt : id < max_id) (here : get_elem? b.pages f ≡ some p) (pins : p.pin_count ≡ 0) where
  old : FrameIsValid b f p
  old = v.frames f p here

  -- The old page is in the table, or the frame was never used.
  home : (j : ℕ) → j < max_id → (p.dirty ≡ true) ⊎ (j ≡ p.pid) → find p.pid b.dir ≡ some f
  home j h used = elim old.home [ inl (invalid, clean) ↦ absurd (ground arith) | inr held ↦ held ]

  pid-lt : p.dirty ≡ true → p.pid < max_id
  pid-lt d = (v.entries p.pid f (home id id-lt (inl d))).0

  content-evicted :
      (j : ℕ) → j < max_id → j ≢ p.pid → content (evicted b.disk p) j ≡ content b.disk j
  content-evicted j h ne = elim (Bool-cases p.dirty) [
    | inl d ↦ rw d (content-write_page b.disk p.pid j p.buffer (pid-lt d) h ∙ ground arith)
    | inr d ↦ rw d refl
  ]

  -- The evicted page can be read back.
  content-evicted_self : find p.pid b.dir ≡ some f → content (evicted b.disk p) p.pid ≡ p.buffer
  content-evicted_self held =
      let small = (v.entries p.pid f held).0 in
      elim (Bool-cases p.dirty) [
        | inl d ↦ rw d (content-write_page b.disk p.pid p.pid p.buffer small small ∙ ground arith)
        | inr d ↦ rw d (sym (old.clean pins d held))
      ]

  pub Sized-evicted : Sized (evicted b.disk p).blocks
  Sized-evicted = elim (Bool-cases p.dirty) [
    | inl d ↦ rw d (write_page-Sized b.disk p.pid p.buffer v.blocks old.sized)
    | inr d ↦ rw d v.blocks
  ]

  pub find-loaded :
      (j : ℕ)
      → find j (loaded b id f p).dir
        ≡ (if j == id then some f else if j == p.pid then none else find j b.dir)
  find-loaded j =
      find-assign id f j (erase p.pid b.dir) ∙ ground (arith, find-erase p.pid j b.dir v.keys)

  pub read-loaded : (loaded_page id (evicted b.disk p) p).buffer ≡ content (evicted b.disk p) id
  unfolding content
  read-loaded = ap (λ n. Disk.read_page (evicted b.disk p) id (replicate n 0)) old.sized

  pub FrameIsValid-loaded_self :
      FrameIsValid (loaded b id f p) f (loaded_page id (evicted b.disk p) p)
  FrameIsValid-loaded_self = record {
    sized = ap length read-loaded ∙ length-content (evicted b.disk p) id id-lt Sized-evicted;
    home = inr (find-loaded id ∙ ground arith);
    clean = λ pin dirty held. absurd (omega arith);
  }

  -- The new page is what the disk had for it.
  buffer-loaded : (loaded_page id (evicted b.disk p) p).buffer ≡ content b.disk id
  buffer-loaded = read-loaded ∙ elim (Bool-cases p.dirty) [
    | inl d ↦
        let held = home id id-lt (inl d) in
        content-evicted id id-lt (λ e. cc (ap (λ j. find j b.dir) e))
    | inr d ↦ rw d refl
  ]

  pub get_elem?-loaded :
      (g : ℕ)
      → get_elem? (loaded b id f p).pages g
        ≡ (if g == f then some (loaded_page id (evicted b.disk p) p) else get_elem? b.pages g)
  get_elem?-loaded g = get_elem?-set b.pages f g (loaded_page id (evicted b.disk p) p) here

  -- Another frame keeps its page, and its page keeps its entry.
  kept : (j g : ℕ) → find j b.dir ≡ some g → g ≢ f → (j ≢ id) × (j ≢ p.pid)
  kept j g held ne = (
    λ e. cc (ap (λ j. find j b.dir) e),
    λ e.
        let back = home j (v.entries j g held).0 (inr e) in
        let same = ap (λ j. find j b.dir) e in ne (ground arith),
  )

  pub FrameIsValid-loaded :
      (g : ℕ) (q : Page) → g ≢ f → get_elem? b.pages g ≡ some q → FrameIsValid (loaded b id f p) g q
  FrameIsValid-loaded g q ne at =
      let valid = v.frames g q at in
      let before : find q.pid (loaded b id f p).dir ≡ some g → find q.pid b.dir ≡ some g =
        λ held. ground (arith, find-loaded q.pid) in
      record {
        sized = valid.sized;
        home = elim valid.home [
          | inl unused ↦ inl unused
          | inr held ↦ inr (ground (arith, kept q.pid g held ne, find-loaded q.pid))
        ];
        clean = λ pin dirty held.
            let old_held = before held in
            let small = (v.entries q.pid g old_held).0 in
            valid.clean pin dirty old_held
            ∙ sym (content-evicted q.pid small (kept q.pid g old_held ne).1);
      }

  entries-old : (j g : ℕ) → j ≢ p.pid → find j b.dir ≡ some g → (g ≢ f) × Held b j g
  entries-old j g ne held =
      let (small, (q, at, e)) = v.entries j g held in
      (
        λ same. (let here' : get_elem? b.pages g ≡ some p = rw same here in ne (ground arith)),
        v.entries j g held,
      )

  pub entries-loaded :
      (j g : ℕ) → find j (loaded b id f p).dir ≡ some g → Held (loaded b id f p) j g
  entries-loaded j g held = elim (ℕ_discrete j id) [
    | yes same ↦
        let at : g ≡ f = ground (arith, find-loaded j) in
        (
          omega arith,
          (loaded_page id (evicted b.disk p) p, ground (arith, get_elem?-loaded g), sym same),
        )
    | no other ↦
        let ne : j ≢ p.pid = λ e. ground (arith, find-loaded j) in
        let old_held : find j b.dir ≡ some g = ground (arith, find-loaded j) in
        let (apart, (small, (q, at, e))) = entries-old j g ne old_held in
        (small, (q, ground (arith, get_elem?-loaded g), e))
  ]

  -- Every page has the contents that it had.
  pub page_content-loaded :
      (j : ℕ) → j < max_id → page_content (loaded b id f p) j ≡ page_content b j
  page_content-loaded j h = elim (ℕ_discrete j id) [
    | yes same ↦ rw same (
        content_of_held (loaded b id f p) id f (loaded_page id (evicted b.disk p) p)
          (find-loaded id ∙ ground arith) (get_elem?-loaded f ∙ ground arith)
        ∙ buffer-loaded
        ∙ sym (content_of_missing b id miss))
    | no other ↦ elim (ℕ_discrete j p.pid) [
      | yes was ↦
          let held = home j h (inr was) in
          rw was (
            content_of_missing (loaded b id f p) p.pid (find-loaded p.pid ∙ ground arith)
            ∙ content-evicted_self held
            ∙ sym (content_of_held b p.pid f p held here))
      | no ne ↦ elim (Option-cases (find j b.dir)) [
        | inl gone ↦
            content_of_missing (loaded b id f p) j (find-loaded j ∙ ground arith)
            ∙ content-evicted j h ne
            ∙ sym (content_of_missing b j gone)
        | inr (g, held) ↦
            let (apart, (small, (q, at, e))) = entries-old j g ne held in
            content_of_held (loaded b id f p) j g q (find-loaded j ∙ ground arith)
              (get_elem?-loaded g ∙ ground arith)
            ∙ sym (content_of_held b j g q held at)
      ]
    ]
  ]
