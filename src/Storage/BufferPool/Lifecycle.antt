-- ===== src/Storage/BufferPool/Lifecycle.antt =====
-- src/storage/bufferpool/buffer_pool.hpp: the operations of `BufferPool` that allocate and delete
-- pages, open and close the pool, and the queries on its bitmap.
use tadis.Prelude.{
  ℕ, zero, suc, ◌+◌, ◌*◌, ◌/◌, ◌%◌, Bool, true, false, Option, none, some, List, [], ◌∷◌, ◌++◌,
  length, replicate, ltb, leb, if◌then◌else◌,
}
use tadis.Common.Rc.{Rc, success, out_of_range, page_is_deleted}
use tadis.Common.Bitmap
use tadis.Storage.Def.{Page, clear_all, invalid_id, page_size, size_mod, sub_size}
use tadis.Storage.Disk
use tadis.Storage.Header
use tadis.Storage.Header.{HeaderPage}
use tadis.Storage.Replacer
use tadis.Storage.BufferPool.{
  BufferPool, M, ◌>>=◌, ◌>>◌, pure, when, lift, modify, gets, find, erase, page_at, put_page,
  victim, flush_page, change_correspondence, fetch, unpin,
}

-- `contain`
unfoldable pub contain : ℕ → M Rc
contain id b =
    if leb (length b.head.bitmap * 8) id
    then some (out_of_range, b)
    else elim (Bitmap.get b.head.bitmap id) [
      | none ↦ none
      | some c ↦ some (if c then success else page_is_deleted, b)
    ]

-- `next_pid_after`; the option is `next_id` if it returns true.
unfoldable pub next_pid_after : ℕ → M (Option ℕ)
next_pid_after current_pid = lift (λ b. Bitmap.first_after b.head.bitmap true current_pid)

-- `current_pid`
unfoldable pub current_pid : BufferPool → ℕ
current_pid b = Disk.current_pid b.disk

-- The loop of `new_page` that lets the bitmap grow. It ends on fuel above `idx / 8`.
unfoldable pub grow : ℕ → ℕ → List ℕ → List ℕ
grow zero idx bitmap = bitmap
grow (suc fuel) idx bitmap =
    let rest = grow fuel idx (bitmap ++ (0 ∷ [])) in
    if leb (length bitmap * 8) idx then rest else bitmap

-- The number of the new page, or none when the file is full.
unfoldable pub pick_page_id : M (Option ℕ)
pick_page_id = do
  unused ← lift (λ b. Bitmap.first b.head.bitmap false)
  last ← gets (λ b. Disk.current_pid b.disk)
  let fresh : M (Option ℕ) = λ b.
      let (idx, disk) = Disk.take_page_id b.disk in
      some (if ltb Header.max_page_count idx then none else some idx, record b { disk = disk })
  elim unused [ none ↦ fresh | some idx ↦ if leb last idx then fresh else pure (some idx) ]

-- `bitmap.set(id, bit)` on the header's bitmap.
unfoldable pub mark_page : ℕ → Bool → M (Unit {0})
mark_page id bit b = elim (Bitmap.set_bit b.head.bitmap id bit) [
  | none ↦ none
  | some bitmap ↦ some (tt, record b { head = record b.head { bitmap = bitmap } })
]

-- What `new_page` does with the frame that it got.
unfoldable pub new_page_in : ℕ → Option ℕ → M (Option (ℕ × ℕ))
unfolding grow mark_page
new_page_in idx none = pure none
new_page_in idx (some frame) = do
  modify (λ b. record b { head = record b.head { bitmap = grow (idx / 8 + 1) idx b.head.bitmap } })
  mark_page idx true
  change_correspondence idx frame
  modify (λ b. record b {
    head = record b.head {
      page_num = (b.head.page_num + 1) % size_mod;
      phy_num = (b.head.phy_num + 1) % size_mod;
    };
  })
  p ← page_at frame
  put_page frame (record p { pid = idx; dirty = true; pin_count = 1 })
  pure (some (idx, frame))

-- `new_page`: the number and the frame of the page, or none for nullptr.
unfoldable pub new_page : M (Option (ℕ × ℕ))
unfolding pick_page_id new_page_in
new_page = do
  picked ← pick_page_id
  elim picked [ none ↦ pure none | some idx ↦ do frame ← victim; new_page_in idx frame ]

-- The end of `delete_page` and of `close`: the header goes to page 0.
unfoldable pub save_header : Option ℕ → M Bool
save_header none = pure false
save_header (some frame) = do
  p ← page_at frame
  h ← gets (λ b. b.head)
  written ← lift (λ b. Header.write2page h p)
  put_page frame written
  unpin p.pid true
  pure true

abbrev pub count_down : M (Unit {0})
count_down =
    modify (λ b. record b { head = record b.head { page_num = sub_size b.head.page_num 1 } })

unfoldable pub delete_page : ℕ → M (Unit {0})
unfolding mark_page save_header
delete_page id b = if leb b.head.phy_num id then some (tt, b) else elim (find id b.dir) [
  | some frame ↦
      (do
        p ← page_at frame
        mark_page id false
        put_page frame (clear_all p)
        modify (λ b. record b { free_list = frame ∷ b.free_list; dir = erase id b.dir })
        count_down
        head_page ← fetch 0
        saved ← save_header head_page
        pure tt)
        b
  | none ↦
      (do
        mark_page id false
        count_down
        head_page ← fetch 0
        saved ← save_header head_page
        pure tt)
        b
]

-- `flush_all_page`, over the entries of `dir_`.
unfoldable pub flush_entries : List (ℕ × ℕ) → M (Unit {0})
flush_entries [] = pure tt
flush_entries ((pid, frame) ∷ dir) = do
  p ← page_at frame
  when p.dirty (modify (λ b. record b { disk = Disk.write_page b.disk pid p.buffer }))
  flush_entries dir

unfoldable pub flush_all_page : M (Unit {0})
unfolding flush_entries
flush_all_page b = flush_entries b.dir b

-- `close`, which the destructor calls too.
unfoldable pub close : M (Unit {0})
unfolding save_header flush_all_page
close b =
    if b.closed
    then some (tt, b)
    else (do
      page ← fetch 0
      saved ← save_header page
      when saved
          (do flush_all_page; modify (λ b. record b { disk = Disk.close b.disk; closed = true })))
        b

-- `init`: the header page is read, or written to a new file.
unfoldable pub init_header : Option ℕ → M (Unit {0})
init_header none = pure tt
init_header (some frame) = do
  p ← page_at frame
  r ← lift (λ b. Header.init p)
  put_page frame r.2
  modify (λ b. record b { head = r.1 })
  unpin 0 r.0
  when r.0 (flush_page 0)
  modify (λ b. record b { disk = Disk.set_next_page_id b.disk b.head.phy_num })

unfoldable pub init : M (Unit {0})
unfolding init_header
init = do frame ← fetch 0; init_header frame

abbrev pub count_up : ℕ → ℕ → List ℕ
count_up i zero = []
count_up i (suc n) = i ∷ count_up (i + 1) n

-- A frame as the constructor makes it, and the pool before its `init`.
abbrev pub fresh_page : Page
fresh_page = record {
  buffer = replicate page_size 0;
  pid = invalid_id;
  pin_count = 0;
  dirty = false;
}

unfoldable pub raw_pool : List (List ℕ) → ℕ → BufferPool
raw_pool blocks bfp_size = record {
  dir = [];
  free_list = count_up 0 bfp_size;
  pages = replicate bfp_size fresh_page;
  replacer = Replacer.init bfp_size;
  disk = Disk.open_disk blocks;
  head = record { page_num = 1; phy_num = 1; bitmap = [] };
  closed = false;
}

-- The constructor, on a file with these blocks.
unfoldable pub create : List (List ℕ) → ℕ → Option BufferPool
unfolding raw_pool init
create blocks bfp_size = elim (init (raw_pool blocks bfp_size)) [
  | none ↦ none
  | some (u, b) ↦ some b
]
