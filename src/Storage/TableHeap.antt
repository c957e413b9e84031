-- ===== src/Storage/TableHeap.antt =====
-- src/storage/table_heap/table_heap.hpp: `TableHeap`, as steps of its buffer pool. A record is its
-- bytes.
use tadis.Prelude.{ℕ, Bool, true, false, ◌||◌, Option, none, some, List, ◌==◌, if◌then◌else◌}
use tadis.Storage.Def.{invalid_id, Rid}
use tadis.Storage.RecordPage
use tadis.Storage.BufferPool.{M, ◌>>=◌, ◌>>◌, pure, fault, gets, page_at, put_page, fetch, unpin}
use tadis.Storage.BufferPool.Lifecycle
use tadis.Storage.BufferPool.Lifecycle.{new_page}

abbrev is_some : {A : Type 0} → Option A → Bool
is_some none = false
is_some (some a) = true

-- `RecordPage record_page{page}` with its `insert`.
unfoldable pub insert_in : ℕ → List ℕ → M Bool
insert_in frame bytes = do
  p ← page_at frame
  let opened = RecordPage.init p.buffer
  let r = RecordPage.insert opened.0 opened.1 p.pid bytes
  put_page frame (record p { buffer = r.2 })
  pure (is_some r.0)

-- The record goes to a new page, since it does not fit into the page `pid`.
unfoldable pub insert_next : ℕ → List ℕ → M Bool
insert_next pid bytes = do
  unpin pid false
  page ← new_page
  elim page [
    | none ↦ pure false
    | some (new_pid, frame) ↦ do ok ← insert_in frame bytes; unpin new_pid true; pure ok
  ]

-- The page that `insert` tries first; a null page fails the assertion of `RecordPage`.
unfoldable pub last_page : ℕ → M (Option (ℕ × ℕ))
last_page pid =
    if pid == invalid_id || pid == 0
    then new_page
    else (do page ← fetch pid; elim page [ none ↦ fault | some frame ↦ pure (some (pid, frame)) ])

unfoldable pub insert : List ℕ → M Bool
insert bytes = do
  current ← gets Lifecycle.current_pid
  page ← last_page current
  elim page [
    | none ↦ pure false
    | some (pid, frame) ↦ do
      ok ← insert_in frame bytes
      elim ok [ true ↦ do unpin pid true; pure true | false ↦ insert_next pid bytes ]
  ]

unfoldable pub remove : Rid → M Bool
remove rid = do
  page ← fetch rid.page_id
  elim page [
    | none ↦ pure false
    | some frame ↦ do
      p ← page_at frame
      let opened = RecordPage.init p.buffer
      let r = RecordPage.remove opened.0 opened.1 rid
      put_page frame (record p { buffer = r.1 })
      unpin rid.page_id true
      pure r.0
  ]

unfoldable pub close : M (Unit {0})
close = Lifecycle.close
