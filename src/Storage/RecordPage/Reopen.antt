-- ===== src/Storage/RecordPage/Reopen.antt =====
-- A `RecordPage` that is built anew over the bytes of a page.
use mathlib.Core.Path.{subst}
use tadis.Prelude.{
  ℕ, suc, ◌+◌, ◌*◌, ◌≤◌, ◌<◌, ◌^◌, ◌≡◌, refl, ap, ap₂, ◌∙◌, false, List, [], ◌∷◌, arith, length,
  replicate, ◌==◌,
}
use tadis.Prelude.Memory.{read_at, of_bytes, to_bytes, of_bytes-to_bytes_8}
use tadis.Storage.Def.{page_size, sizeof_size}
use tadis.Storage.RecordPage.{RecordPage, read_size, read_idx, write_size, init}
use tadis.Storage.RecordPage.Layout.{IsValid, Layout, Layout-le, Rows}

read_size-to_bytes :
    (buf : List ℕ) (off v : ℕ)
    → v < 2 ^ 64
    → read_at buf off 8 ≡ to_bytes 8 v
    → read_size buf off ≡ v
unfolding read_size
read_size-to_bytes buf off v h e = ap of_bytes e ∙ of_bytes-to_bytes_8 v h

read_idx-Rows :
    (buf : List ℕ) (i hi : ℕ) (idx : List ℕ) (lo : ℕ)
    → Layout hi idx lo
    → hi ≤ page_size
    → Rows buf (3 + i) idx
    → read_idx buf i (length idx) ≡ idx
unfolding read_idx
read_idx-Rows buf i hi [] lo l h r = refl
read_idx-Rows buf i hi (x ∷ idx) lo l h r =
    let at : (3 + i) * sizeof_size ≡ 8 * (3 + i) = omega arith in
    let next : suc (3 + i) ≡ 3 + (i + 1) = omega arith in
    ap₂ ◌∷◌ (ap (read_size buf) at ∙ read_size-to_bytes buf (8 * (3 + i)) x (omega arith) r.0)
      (read_idx-Rows buf (i + 1) x idx lo l.1 (omega arith) (subst (λ k. Rows buf k idx) next r.1))

-- `init` over the bytes of a valid page gives that page's state and leaves the bytes as they
-- are.
pub init_reopens : (rp : RecordPage) (buf : List ℕ) → IsValid rp buf → init buf ≡ (rp, buf)
unfolding init
init_reopens rp buf v =
    let end-le = Layout-le page_size rp.rec_idx rp.free_addr_end v.layout in
    let start =
      read_size-to_bytes buf 0 rp.free_addr_start (omega (arith, v.started, v.room))
        v.on_disk_start in
    let end = read_size-to_bytes buf 8 rp.free_addr_end (omega arith) v.on_disk_end in
    let count =
      read_size-to_bytes buf 16 rp.rec_idx_count (omega (arith, v.counted, v.room))
        v.on_disk_count in
    let rows =
      read_idx-Rows buf 0 page_size rp.rec_idx rp.free_addr_end v.layout (omega arith)
        v.on_disk_idx in
    let used : (rp.free_addr_end == 0) ≡ false = ground (arith, v.room) in
    let idx = ap (read_idx buf 0) v.counted ∙ rows in
    rw (start, end, count, used) (λ i. (record rp { rec_idx = idx i }, buf))

-- A page of zero bytes opens as a valid page without records.
pub empty-IsValid : let (rp, buf) = init (replicate page_size 0) in IsValid rp buf
unfolding init read_size read_idx write_size
empty-IsValid = record {
  size = refl;
  layout = refl;
  room = omega arith;
  counted = refl;
  started = refl;
  on_disk_start = refl;
  on_disk_end = refl;
  on_disk_count = refl;
  on_disk_idx = tt;
}
