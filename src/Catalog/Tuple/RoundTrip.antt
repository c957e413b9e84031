-- ===== src/Catalog/Tuple/RoundTrip.antt =====
-- src/catalog/tuple.hpp: what `value_at` reads from a tuple that `create_tuple` made.
use tadis.Prelude.{
  ℕ, zero, suc, ◌+◌, ◌^◌, ◌≡◌, ◌<◌, refl, ap, ◌∙◌, sym, some, List, [], ◌∷◌, ◌++◌, arith, length,
  length-append, get_elem?,
}
use tadis.Prelude.Int.{ℤ, pos}
use tadis.Sql.Ast.{Value, long, float, text, ints, floats, string, init_int, init_float}
use tadis.Catalog.Column.{Column, int_col, float_col, varchar, char}
use tadis.Catalog.Schema.{Schema}
use tadis.Catalog.Tuple.Offsets.{
  IsInt, int_of-int_bytes, length-int_bytes, At, At-read_in, At-append, At-checked, At-read_text,
  At-varchar, wrap_small, sub_zero,
}
use tadis.Catalog.Tuple.{
  FloatBytes, int_bytes, typed_bytes, create_tuple, read_value, skip_value, value_from, value_at,
}

-- A value that its column holds whole.
pub data Fits {F : Type 0} : Value F → Column → Type 0 where
  int_fits :
      {n : ℤ} {name : List ℕ} {size : ℕ}
      → IsInt n
      → Fits
          (record { value = long n; type = ints })
          (record { type = int_col; name = name; size = size })
  float_fits :
      {f : F} {name : List ℕ} {size : ℕ}
      → Fits
          (record { value = float f; type = floats })
          (record { type = float_col; name = name; size = size })
  varchar_fits :
      {s name : List ℕ} {size : ℕ}
      → length s < 2 ^ 31
      → Fits
          (record { value = text s; type = string })
          (record { type = varchar; name = name; size = size })
  char_fits :
      {s name : List ℕ} {size : ℕ}
      → length s < 2 ^ 31
      → size ≡ length s
      → Fits
          (record { value = text s; type = string })
          (record { type = char; name = name; size = size })

-- What the code relies on in the storage of a `float`.
pub record IsFloatBytes {F : Type 0} (fb : FloatBytes F) : Type 0 where
  pub four : (f : F) → length (fb.bytes_of f) ≡ 4
  pub kept : (f : F) → fb.of_memory (fb.bytes_of f) ≡ f

-- A value that fits its column is appended as some bytes, from which it is read again.
record Kept {F : Type 0} (fb : FloatBytes F) (v : Value F) (c : Column) (b : List ℕ) : Type 0 where
  made : typed_bytes fb v.value v.type c.type ≡ some b
  seen :
      (bytes : List ℕ) (off : ℕ) (rest : List ℕ)
      → At bytes off (b ++ rest)
      → read_value fb bytes c off ≡ some v
  skipped :
      (bytes : List ℕ) (off : ℕ) (rest : List ℕ)
      → At bytes off (b ++ rest)
      → skip_value bytes c off ≡ some (off + length b)

module _ {F : Type 0} (fb : FloatBytes F) where
  Fits-Kept : IsFloatBytes fb → (v : Value F) (c : Column) → Fits v c → (b : List ℕ) × Kept fb v c b
  unfolding typed_bytes read_value skip_value init_int init_float
  Fits-Kept ok v c (int_fits {n} h) = (
    int_bytes n,
    record {
      made = refl;
      seen = λ bytes off rest at.
          rw
            (
              At-read_in bytes off (int_bytes n) rest 4 at (length-int_bytes n),
              int_of-int_bytes n h,
            )
            refl;
      skipped =
          λ bytes off rest at. At-checked bytes off (int_bytes n) rest 4 at (length-int_bytes n);
    },
  )
  Fits-Kept ok v c (float_fits {f}) = (
    fb.bytes_of f,
    record {
      made = refl;
      seen = λ bytes off rest at.
          rw (At-read_in bytes off (fb.bytes_of f) rest 4 at (ok.four f), ok.kept f) refl;
      skipped = λ bytes off rest at. At-checked bytes off (fb.bytes_of f) rest 4 at (ok.four f);
    },
  )
  Fits-Kept ok v c (varchar_fits {s} h) = (
    int_bytes (pos (length s)) ++ s,
    record {
      made = refl;
      seen = λ bytes off rest at.
          let (l, n, at') = At-varchar bytes off s rest h at in
          rw l (At-read_text bytes (off + 4) s rest _ at' n);
      skipped = λ bytes off rest at.
          let (l, n, at') = At-varchar bytes off s rest h at in
          rw (l, n, sub_zero (off + 4 + length s))
            (At-checked bytes (off + 4) s rest (length s) at' refl
              ∙ ap some (
                  omega (
                    arith,
                    length-int_bytes (pos (length s)),
                    length-append (int_bytes (pos (length s))) s,
                  )));
    },
  )
  Fits-Kept ok v c (char_fits {s} h e) = (
    s,
    record {
      made = refl;
      seen =
          λ bytes off rest at. At-read_text bytes off s rest _ at (rw e (wrap_small (length s) h));
      skipped = λ bytes off rest at. At-checked bytes off s rest c.size at (sym e);
    },
  )

-- Every value fits the column at its place, and there is a column for each.
pub data AllFit {F : Type 0} : List (Value F) → Schema → Type 0 where
  none_left : AllFit [] []
  fit :
      {v : Value F} {c : Column} {vals : List (Value F)} {schema : Schema}
      → Fits v c
      → AllFit vals schema
      → AllFit (v ∷ vals) (c ∷ schema)

module _ {F : Type 0} (fb : FloatBytes F) where
  -- The tuple of some values, as read from an offset on.
  record Stored (vals : List (Value F)) (schema : Schema) (bytes : List ℕ) : Type 0 where
    created : create_tuple fb vals schema ≡ some bytes
    read :
        (whole : List ℕ) (off : ℕ)
        → At whole off bytes
        → (idx : ℕ) (v : Value F) → get_elem? vals idx ≡ some v
        → value_from fb whole schema idx off ≡ some v

  AllFit-Stored :
      IsFloatBytes fb
      → (vals : List (Value F)) (schema : Schema) → AllFit vals schema
      → (bytes : List ℕ) × Stored vals schema bytes
  unfolding create_tuple value_from
  AllFit-Stored ok _ _ none_left =
      ([], record { created = refl; read = λ whole off at idx v e. absurd (cc) })
  AllFit-Stored ok _ _ (fit {v} {c} {vals} {schema} f fs) =
      let (b, kept) = Fits-Kept fb ok v c f in
      let (bytes, stored) = AllFit-Stored ok vals schema fs in
      (
        b ++ bytes,
        record {
          created = rw (kept.made, stored.created) refl;
          read = λ whole off at idx w.
              elim idx
                as (λ n.
                  get_elem? (v ∷ vals) n ≡ some w
                  → value_from fb whole (c ∷ schema) n off ≡ some w) [
                    | zero ↦ λ e. kept.seen whole off bytes at ∙ e
                    | suc n ↦ λ e. rw (kept.skipped whole off bytes at) (
                        stored.read whole (off + length b)
                          (At-append whole off b bytes (length b) at refl) n w e)
                  ];
        },
      )

  -- If every value fits its column, `create_tuple` makes a tuple, and `value_at` reads each of
  -- the values from it.
  pub value_at-create_tuple :
      IsFloatBytes fb
      → (vals : List (Value F)) (schema : Schema) → AllFit vals schema
      → (bytes : List ℕ) × (create_tuple fb vals schema ≡ some bytes)
        × ((idx : ℕ) (v : Value F)
            → get_elem? vals idx ≡ some v
            → value_at fb bytes schema idx ≡ some v)
  unfolding value_at
  value_at-create_tuple ok vals schema fits =
      let (bytes, stored) = AllFit-Stored ok vals schema fits in
      (bytes, stored.created, stored.read bytes 0 (record { inside = omega arith; there = refl }))
