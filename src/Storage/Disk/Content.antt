-- ===== src/Storage/Disk/Content.antt =====
-- What a page number reads from the file.
use tadis.Prelude.{
  ℕ, zero, suc, ◌*◌, ◌/◌, ◌^◌, ◌≤◌, ◌<◌, ◌≡◌, refl, sym, ◌∙◌, List, [], ◌∷◌, arith, length, get_or,
  ltb, ◌==◌, if◌then◌else◌, Bool-cases, inl, inr,
}
use tadis.Storage.Def.{page_size}
use tadis.Storage.Disk.{Disk, offset_of, read_page, put_block, write_page, zero_block}

-- Below this number no offset wraps.
abbrev pub max_id : ℕ
max_id = 2 ^ 54

abbrev pub Sized : List (List ℕ) → Type 0
Sized [] = Unit
Sized (b ∷ blocks) = (length b ≡ page_size) × Sized blocks

unfoldable pub content : Disk → ℕ → List ℕ
content d id = read_page d id zero_block

get_or-past :
    (blocks : List (List ℕ)) (i : ℕ) (x : List ℕ) → length blocks ≤ i → get_or blocks i x ≡ x
get_or-past [] i x h = refl
get_or-past (b ∷ blocks) zero x h = absurd (omega arith)
get_or-past (b ∷ blocks) (suc i) x h = get_or-past blocks i x (omega arith)

-- A page past the end of the file reads as zeros.
content-get_or : (d : Disk) (id : ℕ) → id < max_id → content d id ≡ get_or d.blocks id zero_block
unfolding content read_page
content-get_or d id h =
    let block : offset_of id / page_size ≡ id = omega arith in
    elim (Bool-cases (ltb (length d.blocks * page_size) (offset_of id))) [
      | inl past ↦ rw past (sym (get_or-past d.blocks id zero_block (ground arith)))
      | inr inside ↦ rw (inside, block) refl
    ]

get_or-put_block :
    (blocks : List (List ℕ)) (i j : ℕ) (src : List ℕ)
    → get_or (put_block blocks i src) j zero_block
      ≡ (if i == j then src else get_or blocks j zero_block)
unfolding put_block
get_or-put_block [] zero zero src = refl
get_or-put_block [] zero (suc j) src = ground arith
get_or-put_block [] (suc i) zero src = ground arith
get_or-put_block [] (suc i) (suc j) src = ground (arith, get_or-put_block [] i j src)
get_or-put_block (b ∷ blocks) zero zero src = refl
get_or-put_block (b ∷ blocks) zero (suc j) src = ground arith
get_or-put_block (b ∷ blocks) (suc i) zero src = ground arith
get_or-put_block (b ∷ blocks) (suc i) (suc j) src = ground (arith, get_or-put_block blocks i j src)

-- For page numbers below 2 ^ 54, a page that is written is read back, and every other page reads
-- as before, also where the file grew.
pub content-write_page :
    (d : Disk) (id j : ℕ) (src : List ℕ)
    → id < max_id
    → j < max_id
    → content (write_page d id src) j ≡ (if id == j then src else content d j)
unfolding write_page
content-write_page d id j src h k =
    let block : offset_of id / page_size ≡ id = omega arith in
    content-get_or (write_page d id src) j k
    ∙ rw (block, content-get_or d j k) (get_or-put_block d.blocks id j src)

put_block-Sized :
    (blocks : List (List ℕ)) (i : ℕ) (src : List ℕ)
    → Sized blocks
    → length src ≡ page_size
    → Sized (put_block blocks i src)
unfolding put_block
put_block-Sized [] zero src s h = (h, tt)
put_block-Sized [] (suc i) src s h = (refl, put_block-Sized [] i src tt h)
put_block-Sized (b ∷ blocks) zero src s h = (h, s.1)
put_block-Sized (b ∷ blocks) (suc i) src s h = (s.0, put_block-Sized blocks i src s.1 h)

pub write_page-Sized :
    (d : Disk) (id : ℕ) (src : List ℕ)
    → Sized d.blocks
    → length src ≡ page_size
    → Sized (write_page d id src).blocks
unfolding write_page
write_page-Sized d id src s h = put_block-Sized d.blocks (offset_of id / page_size) src s h

get_or-Sized :
    (blocks : List (List ℕ)) (i : ℕ)
    → Sized blocks
    → length (get_or blocks i zero_block) ≡ page_size
get_or-Sized [] i s = refl
get_or-Sized (b ∷ blocks) zero s = s.0
get_or-Sized (b ∷ blocks) (suc i) s = get_or-Sized blocks i s.1

pub length-content :
    (d : Disk) (id : ℕ) → id < max_id → Sized d.blocks → length (content d id) ≡ page_size
length-content d id h s = rw (content-get_or d id h) (get_or-Sized d.blocks id s)
