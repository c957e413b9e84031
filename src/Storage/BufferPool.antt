-- ===== src/Storage/BufferPool.antt =====
-- src/storage/bufferpool/buffer_pool.hpp: `BufferPool`. A frame is an index into `pages_`, and
-- a `Page *` that the pool hands out is its frame. `dir_` is an association list in the order in
-- which the hash map would give it. `none` is a failed assertion or undefined behaviour.
pub mod Lifecycle
pub mod Dir
pub mod Invariant
pub mod Victim
pub mod Load
pub mod Miss
pub mod Fetch
pub mod Flush
pub mod Unpin
pub mod Start
pub mod Change
pub mod Create
pub mod Durable
use tadis.Prelude.{
  ℕ, zero, suc, ◌+◌, ◌-◌, ◌*◌, ◌/◌, ◌%◌, Bool, true, false, not, ◌||◌, ◌&&◌, Option, none, some,
  List, [], ◌∷◌, ◌++◌, length, get_elem?, set, replicate, ltb, leb, ◌==◌, if◌then◌else◌,
}
use tadis.Common.Rc.{Rc, success, out_of_range, page_is_deleted}
use tadis.Common.Bitmap
use tadis.Storage.Def.{Page, clear_all, invalid_id, page_size, size_mod, sub_size, set_dirty}
use tadis.Storage.Disk
use tadis.Storage.Disk.{Disk}
use tadis.Storage.Header
use tadis.Storage.Header.{HeaderPage}
use tadis.Storage.Replacer
use tadis.Storage.Replacer.{LruReplacer}

pub record BufferPool : Type 0 where
  pub dir : List (ℕ × ℕ)
  pub free_list : List ℕ
  pub pages : List Page
  pub replacer : LruReplacer
  pub disk : Disk
  pub head : HeaderPage
  pub closed : Bool

-- A step changes the pool and returns a value, or does not return.
abbrev pub M : Type 0 → Type 0
M A = BufferPool → Option (A × BufferPool)

infixl 5 ◌>>=◌ ◌>>◌
abbrev pub ◌>>=◌ : {A B : Type 0} → M A → (A → M B) → M B
◌>>=◌ m f b = elim (m b) [ none ↦ none | some (a, b') ↦ f a b' ]

abbrev pub ◌>>◌ : {B : Type 0} → M (Unit {0}) → M B → M B
m >> k = m >>= λ _. k

abbrev pub pure : {A : Type 0} → A → M A
pure a b = some (a, b)

abbrev pub fault : {A : Type 0} → M A
fault b = none

abbrev pub when : Bool → M (Unit {0}) → M (Unit {0})
when c m b = elim c [ true ↦ m b | false ↦ some (tt, b) ]

-- A value that may fail.
abbrev pub lift : {A : Type 0} → (BufferPool → Option A) → M A
lift f b = elim (f b) [ none ↦ none | some a ↦ some (a, b) ]

abbrev pub modify : (BufferPool → BufferPool) → M (Unit {0})
modify f b = some (tt, f b)

abbrev pub gets : {A : Type 0} → (BufferPool → A) → M A
gets f b = some (f b, b)

-- `dir_`
unfoldable pub find : ℕ → List (ℕ × ℕ) → Option ℕ
find id [] = none
find id ((pid, frame) ∷ dir) = if pid == id then some frame else find id dir

unfoldable pub erase : ℕ → List (ℕ × ℕ) → List (ℕ × ℕ)
erase id [] = []
erase id ((pid, frame) ∷ dir) = if pid == id then dir else (pid, frame) ∷ erase id dir

unfoldable pub assign : ℕ → ℕ → List (ℕ × ℕ) → List (ℕ × ℕ)
assign id f [] = (id, f) ∷ []
assign id f ((pid, frame) ∷ dir) =
    if pid == id then (pid, f) ∷ dir else (pid, frame) ∷ assign id f dir

-- `back()` with `pop_back()` of the free list.
unfoldable pub pop_back : List ℕ → Option (ℕ × List ℕ)
pop_back [] = none
pop_back (x ∷ []) = some (x, [])
pop_back (x ∷ y ∷ l) = elim (pop_back (y ∷ l)) [ none ↦ none | some (z, l') ↦ some (z, x ∷ l') ]

-- `pages_[frame]`
abbrev pub page_at : ℕ → M Page
page_at frame = lift (λ b. get_elem? b.pages frame)

abbrev pub put_page : ℕ → Page → M (Unit {0})
put_page frame p = modify (λ b. record b { pages = set b.pages frame p })

-- `replacer_.put`, `replacer_.remove`
abbrev pub replacer_put : ℕ → M (Unit {0})
replacer_put frame b = elim (Replacer.put b.replacer frame) [
  | none ↦ none
  | some r ↦ some (tt, record b { replacer = r })
]

abbrev pub replacer_remove : ℕ → M (Unit {0})
replacer_remove frame b = elim (Replacer.remove b.replacer frame) [
  | none ↦ none
  | some r ↦ some (tt, record b { replacer = r })
]

-- `victim`; the option is the frame if it returns true.
unfoldable pub victim : M (Option ℕ)
unfolding pop_back
victim b = elim (pop_back b.free_list) [
  | some (frame, l) ↦ some (some frame, record b { free_list = l })
  | none ↦ elim (Replacer.victim b.replacer) [
    | none ↦ none
    | some (r, o) ↦ some (o, record b { replacer = r })
  ]
]

unfoldable pub flush_page : ℕ → M (Unit {0})
unfolding find
flush_page id b = elim (find id b.dir) [
  | none ↦ some (tt, b)
  | some frame ↦ elim (get_elem? b.pages frame) [
    | none ↦ none
    | some p ↦ some (tt, record b { disk = Disk.write_page b.disk id p.buffer })
  ]
]

unfoldable pub change_correspondence : ℕ → ℕ → M (Unit {0})
unfolding flush_page erase assign clear_all
change_correspondence pid frame = do
  p ← page_at frame
  when p.dirty (flush_page p.pid)
  modify (λ b. record b { dir = erase p.pid b.dir })
  put_page frame (record (clear_all p) { pid = pid })
  modify (λ b. record b { dir = assign pid frame b.dir })

-- The part of `fetch` for a page that is not in memory.
unfoldable pub fetch_into : ℕ → Option ℕ → M (Option ℕ)
unfolding change_correspondence
fetch_into id none = pure none
fetch_into id (some frame) = do
  change_correspondence id frame
  p ← page_at frame
  d ← gets (λ b. b.disk)
  put_page frame
      (record p { buffer = Disk.read_page d id p.buffer; pin_count = 1; pid = id; dirty = false })
  pure (some frame)

unfoldable pub fetch : ℕ → M (Option ℕ)
fetch id b = elim (find id b.dir) [
  | some frame ↦
      (do
        p ← page_at frame
        put_page frame (record p { pin_count = (p.pin_count + 1) % size_mod })
        replacer_remove frame
        pure (some frame))
        b
  | none ↦ (do frame ← victim; fetch_into id frame) b
]

unfoldable pub unpin : ℕ → Bool → M (Unit {0})
unpin id is_dirty b = elim (find id b.dir) [
  | none ↦ some (tt, b)
  | some frame ↦
      (do
        p ← page_at frame
        let pins = sub_size p.pin_count 1
        put_page frame (record p { dirty = p.dirty || is_dirty; pin_count = pins })
        when (pins == 0) (replacer_put frame))
        b
]
