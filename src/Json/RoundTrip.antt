-- ===== src/Json/RoundTrip.antt =====
-- src/json/: what was printed is read back.
pub mod Steps
pub mod Next
pub mod Length
use mathlib.Core.List.{append_assoc, append-nil}
use tadis.Prelude.{
  ℕ, zero, suc, ◌+◌, ◌*◌, ◌<◌, ◌≤◌, ◌≡◌, refl, sym, ap, ap₂, ◌∙◌, Bool, true, false, not, ◌&&◌,
  ◌||◌, some, List, [], ◌∷◌, ◌++◌, arith, length, length-append, drop, ◌==◌, if◌then◌else◌, inl,
  inr,
}
use tadis.Json.Value.{
  Value, Items, Fields, null, bool, number, string, array, object, nil, cons, end, field,
  array_push_back, object_insert,
}
use tadis.Json.Numbers.{NumberOps}
use tadis.Json.Parser.{
  Reply, done, peek, is_blank, is_digit, skip_blank, backslash, string_row, parse_string_row,
  parse_string, parse_value, parse_items, parse_fields, parse,
}
use tadis.Json.Decimal.{ReadsBack, stops, decimal, IsWhole, parse_number-to_string}
use tadis.Json.Objects.{
  items_append, fields_append, IsSorted, Behind, Behind-end, Behind-append, items_append-push_back,
  array_push_back_lem, fields_append_assoc, object_insert-Below,
}
use tadis.Json.Layout.{lay, lay_items, lay_fields, key, gap, lay-print_value}
use tadis.Json.Writer.{print_value}
use tadis.Json.Readable.{
  is_plain, IsPlain, Follows, stops-Follows, Readable, ReadableItems, ReadableFields, need,
  need_items, need_fields, string_row-plain, parse_string_row-plain, skip_blank-none,
  skip_blank-gap, starts_number, opens, decimal-starts, length-decimal, stops-gap, to_string-starts,
  lay-opens, skip_blank-lay, stops-lay_items, stops-lay_fields, opens_some,
}
use tadis.Json.RoundTrip.Steps.{
  parse_value-array, parse_value-object, parse_items-last, parse_items-more, parse_fields-last,
  parse_fields-more, parse_value-number, parse_value-string, word_null, word_true, word_false,
  empty_array, empty_object,
}
use tadis.Json.RoundTrip.Next.{
  skip_blank-lay_items_nil, skip_blank-lay_items_cons, skip_blank-lay_fields_end, entry_after,
  skip_blank-lay_fields_field, skip_blank-entry_after, skip_blank-colon, skip_blank-value,
}
use tadis.Json.RoundTrip.Length.{need_pos, need-le}

module _ {N : Type 0} (ops : NumberOps N) (b : Bool) where
  mutual
    unfolding lay Readable need

    reads_value :
        (v : Value N) (rest : List ℕ) (fuel : ℕ)
        → Readable ops v
        → Follows v rest
        → need v ≤ fuel
        → parse_value ops false fuel (lay ops b v rest) ≡ done v rest
    reads_value v rest zero r st h = absurd (omega (arith, need_pos ops b v))
    reads_value null rest (suc fuel) r st h = word_null ops b fuel rest
    reads_value (bool true) rest (suc fuel) r st h = word_true ops b fuel rest
    reads_value (bool false) rest (suc fuel) r st h = word_false ops b fuel rest
    reads_value (number n) rest (suc fuel) r st h = parse_value-number ops b fuel n rest r st
    reads_value (string s) rest (suc fuel) r st h = parse_value-string ops b fuel s rest r
    reads_value (array nil) rest (suc fuel) r st h = empty_array ops b fuel rest
    reads_value (array (cons v xs)) rest (suc fuel) r st h =
        let text = lay ops b v (lay_items ops b xs rest) in
        let o = lay-opens ops b v (lay_items ops b xs rest) r.0 in
        parse_value-array ops b fuel text rest (cons v xs)
          (skip_blank-lay ops b v (lay_items ops b xs rest) r.0) o (opens_some ops b text o)
          (reads_items xs v text rest nil fuel
            (skip_blank-lay ops b v (lay_items ops b xs rest) r.0) r.0 r.1 (omega arith))
    reads_value (object end) rest (suc fuel) r st h = empty_object ops b fuel rest
    reads_value (object (field k v fs)) rest (suc fuel) r st h =
        let entry = key b k (lay ops b v (lay_fields ops b fs rest)) in
        parse_value-object ops b fuel (gap b 10 entry) _ rest (field k v fs)
          (skip_blank-gap b 10 entry refl ∙ skip_blank-none entry refl)
          (reads_fields fs k v rest end fuel r.1 r.0 (tt, Behind-end fs) (omega arith))

    reads_items :
        (xs : Items N) (v : Value N) (text rest : List ℕ) (acc : Items N) (fuel : ℕ)
        → skip_blank text ≡ lay ops b v (lay_items ops b xs rest)
        → Readable ops v
        → ReadableItems ops xs
        → suc (need v + need_items xs) ≤ fuel
        → parse_items ops false fuel text acc ≡ done (items_append acc (cons v xs)) rest
    reads_items xs v text rest acc zero start r rs h = absurd (omega arith)
    reads_items nil v text rest acc (suc fuel) start r rs h =
        parse_items-last ops b fuel text (lay_items ops b nil rest) rest v acc
          (ap (parse_value ops false fuel) start
            ∙ reads_value v (lay_items ops b nil rest) fuel r
                (stops-Follows v _ (stops-lay_items ops b nil rest)) (omega arith))
          (skip_blank-lay_items_nil ops b rest)
        ∙ ap (λ ys. done ys rest) (array_push_back_lem acc v)
    reads_items (cons w xs) v text rest acc (suc fuel) start r rs h =
        let next = gap b b' ' (lay ops b w (lay_items ops b xs rest)) in
        parse_items-more ops b fuel text (lay_items ops b (cons w xs) rest) next v acc
          (ap (parse_value ops false fuel) start
            ∙ reads_value v (lay_items ops b (cons w xs) rest) fuel r
                (stops-Follows v _ (stops-lay_items ops b (cons w xs) rest)) (omega arith))
          (skip_blank-lay_items_cons ops b w xs rest)
        ∙ reads_items xs w next rest (array_push_back acc v) fuel
            (skip_blank-value ops b w (lay_items ops b xs rest) rs.0) rs.0 rs.1 (omega arith)
        ∙ ap (λ ys. done ys rest) (items_append-push_back acc (cons w xs) v)

    reads_fields :
        (fs : Fields N) (k : List ℕ) (v : Value N) (rest : List ℕ) (acc : Fields N) (fuel : ℕ)
        → ReadableFields ops (field k v fs)
        → IsSorted (field k v fs)
        → Behind acc (field k v fs)
        → suc (need v + need_fields fs) ≤ fuel
        → parse_fields ops false fuel (key b k (lay ops b v (lay_fields ops b fs rest))) acc
          ≡ done (fields_append acc (field k v fs)) rest
    reads_fields fs k v rest acc zero r sorted behind h = absurd (omega arith)
    reads_fields end k v rest acc (suc fuel) r sorted behind h =
        let mid = lay_fields ops b end rest in
        parse_fields-last ops b fuel _ (gap b b' ' (b':' ∷ gap b b' ' (lay ops b v mid)))
          (gap b b' ' (lay ops b v mid)) mid rest k v acc (parse_string_row-plain k _ r.0)
          (skip_blank-colon ops b (gap b b' ' (lay ops b v mid)))
          (ap (parse_value ops false fuel) (skip_blank-value ops b v mid r.1)
            ∙ reads_value v mid fuel r.1 (stops-Follows v _ (stops-lay_fields ops b end rest))
                (omega arith))
          (skip_blank-lay_fields_end ops b rest)
        ∙ ap (λ gs. done gs rest) (object_insert-Below k v acc behind.0)
    reads_fields (field l w fs) k v rest acc (suc fuel) r sorted behind h =
        let mid = lay_fields ops b (field l w fs) rest in
        parse_fields-more ops b fuel _ (gap b b' ' (b':' ∷ gap b b' ' (lay ops b v mid)))
          (gap b b' ' (lay ops b v mid)) mid (entry_after ops b l w fs rest) k v acc
          (parse_string_row-plain k _ r.0) (skip_blank-colon ops b (gap b b' ' (lay ops b v mid)))
          (ap (parse_value ops false fuel) (skip_blank-value ops b v mid r.1)
            ∙ reads_value v mid fuel r.1
                (stops-Follows v _ (stops-lay_fields ops b (field l w fs) rest)) (omega arith))
          (skip_blank-lay_fields_field ops b l w fs rest)
        ∙ ap₂ (parse_fields ops false fuel) (skip_blank-entry_after ops b l w fs rest)
            (object_insert-Below k v acc behind.0)
        ∙ reads_fields fs l w rest (fields_append acc (field k v end)) fuel r.2 sorted.1
            (Behind-append acc (field l w fs) k v behind.1 sorted.0) (omega arith)
        ∙ ap (λ gs. done gs rest) (fields_append_assoc acc (field k v end) (field l w fs))

  -- The text that `parse` reads, with its blanks or without them.
  pub parse-lay :
      (v : Value N) (rest : List ℕ)
      → Readable ops v
      → Follows v rest
      → parse ops (lay ops b v rest) ≡ done v rest
  unfolding parse
  parse-lay v rest r f =
      let text = lay ops b v rest in
      let some_left = opens_some ops b text (lay-opens ops b v rest r) in
      ap₂ (λ e t. parse_value ops e (2 * length text + 1) t) some_left
        (skip_blank-lay ops b v rest r)
      ∙ reads_value v rest (2 * length text + 1) r f (omega (arith, need-le ops b v rest r))

-- A value with plain texts, with numbers that are read back, and with names in order, is read back
-- from its printed text, which another text may follow.
pub parse-print_value :
    {N : Type 0} (ops : NumberOps N) (v : Value N) (rest : List ℕ)
    → Readable ops v
    → Follows v rest
    → parse ops (print_value ops v ++ rest) ≡ done v rest
parse-print_value ops v rest r f =
    ap (parse ops) (lay-print_value ops v rest) ∙ parse-lay ops true v rest r f
