-- ===== src/Json/File/Blanks.antt =====
-- src/common/json.hpp: a value that is written to a file and read from it.
use mathlib.Core.List.{append-nil}
use tadis.Prelude.{
  ℕ, ◌≡◌, refl, sym, ap, ap₂, ◌∙◌, Bool, true, false, some, List, [], ◌∷◌, ◌++◌, arith,
  if◌then◌else◌, inl, inr,
}
use tadis.Json.Value.{
  Value, Items, Fields, null, bool, number, string, array, object, nil, cons, end, field,
}
use tadis.Json.Numbers.{NumberOps}
use tadis.Json.Parser.{done, parse}
use tadis.Json.Writer.{print, print_value}
use tadis.Json.Decimal.{ReadsBack, decimal, IsWhole, AllDigits}
use tadis.Json.Layout.{lay, lay_items, lay_fields, key, gap, lay-print_value}
use tadis.Json.Readable.{Readable, ReadableItems, ReadableFields}
use tadis.Json.RoundTrip.{parse-lay}
use tadis.Json.File.{is_space, read_chars, read, write}

-- A text without the characters that `>>` passes over, and a value with such texts.
unfoldable pub squeeze_text : List ℕ → List ℕ
squeeze_text [] = []
squeeze_text (ch ∷ s) = let rest = squeeze_text s in if is_space ch then rest else ch ∷ rest

module _ {N : Type 0} where
  unfoldable mutual
    unfolding squeeze_text

    pub squeeze : Value N → Value N
    squeeze null = null
    squeeze (bool b) = bool b
    squeeze (number n) = number n
    squeeze (string s) = string (squeeze_text s)
    squeeze (array xs) = array (squeeze_items xs)
    squeeze (object fs) = object (squeeze_fields fs)

    pub squeeze_items : Items N → Items N
    squeeze_items nil = nil
    squeeze_items (cons v xs) = cons (squeeze v) (squeeze_items xs)

    pub squeeze_fields : Fields N → Fields N
    squeeze_fields end = end
    squeeze_fields (field k v fs) = field (squeeze_text k) (squeeze v) (squeeze_fields fs)

read_chars-append :
    (s file : List ℕ) (last : ℕ)
    → read_chars (s ++ file) last ≡ squeeze_text s ++ read_chars file last
unfolding read_chars squeeze_text
read_chars-append [] file last = refl
read_chars-append (ch ∷ s) file last = ground (arith, read_chars-append s file last)

read_chars-gap :
    (ch : ℕ) (file : List ℕ) (last : ℕ)
    → is_space ch ≡ true
    → read_chars (gap true ch file) last ≡ read_chars file last
unfolding read_chars
read_chars-gap ch file last h = ground arith

read_chars-key :
    (k file : List ℕ) (last : ℕ)
    → read_chars (key true k file) last ≡ key false (squeeze_text k) (read_chars file last)
unfolding read_chars
read_chars-key k file last =
    ap (λ t. b'"' ∷ t) (read_chars-append k (b'"' ∷ b' ' ∷ b':' ∷ b' ' ∷ file) last)

-- A decimal text has no blanks.
squeeze_text-digits : (ds : List ℕ) → AllDigits ds → squeeze_text ds ≡ ds
unfolding squeeze_text
squeeze_text-digits [] a = refl
squeeze_text-digits (d ∷ ds) a = ground (arith, squeeze_text-digits ds a.1)

squeeze_text-append : (s t : List ℕ) → squeeze_text (s ++ t) ≡ squeeze_text s ++ squeeze_text t
unfolding squeeze_text
squeeze_text-append [] t = refl
squeeze_text-append (ch ∷ s) t = ground (arith, squeeze_text-append s t)

squeeze_text-whole : (whole : List ℕ) → IsWhole whole → squeeze_text whole ≡ whole
unfolding squeeze_text
squeeze_text-whole [] w = absurd w
squeeze_text-whole (c ∷ cs) (inl (e, none_left)) = rw none_left (ground arith)
squeeze_text-whole (c ∷ cs) (inr (e, ds)) = ground (arith, squeeze_text-digits cs ds)

squeeze_text-decimal :
    (sign : Bool) (whole : List ℕ) (d : ℕ) (frac : List ℕ)
    → IsWhole whole
    → AllDigits (d ∷ frac)
    → squeeze_text (decimal sign whole d frac) ≡ decimal sign whole d frac
unfolding squeeze_text
squeeze_text-decimal true whole d frac w ds =
    ap (λ t. b'-' ∷ t)
      (squeeze_text-append whole (b'.' ∷ d ∷ frac)
        ∙ ap₂ ◌++◌ (squeeze_text-whole whole w)
            (ap (λ t. b'.' ∷ t) (squeeze_text-digits (d ∷ frac) ds)))
squeeze_text-decimal false whole d frac w ds =
    squeeze_text-append whole (b'.' ∷ d ∷ frac)
    ∙ ap₂ ◌++◌ (squeeze_text-whole whole w) (ap (λ t. b'.' ∷ t) (squeeze_text-digits (d ∷ frac) ds))

module _ {N : Type 0} (ops : NumberOps N) (last : ℕ) where
  read_chars-to_string :
      (n : N) (file : List ℕ)
      → ReadsBack ops n
      → read_chars (ops.to_string n ++ file) last ≡ ops.to_string n ++ read_chars file last
  read_chars-to_string n file r =
      read_chars-append (ops.to_string n) file last
      ∙ ap (λ t. t ++ read_chars file last)
          (ap squeeze_text r.text
            ∙ squeeze_text-decimal r.sign r.whole r.first_digit r.fraction r.whole_form r.digits
            ∙ sym r.text)

  mutual
    unfolding lay squeeze Readable read_chars squeeze_text

    read_chars-lay :
        (v : Value N) (file : List ℕ)
        → Readable ops (squeeze v)
        → read_chars (lay ops true v file) last ≡ lay ops false (squeeze v) (read_chars file last)
    read_chars-lay null file r = refl
    read_chars-lay (bool true) file r = refl
    read_chars-lay (bool false) file r = refl
    read_chars-lay (number n) file r = read_chars-to_string n file r
    read_chars-lay (string s) file r = ap (λ t. b'"' ∷ t) (read_chars-append s (b'"' ∷ file) last)
    read_chars-lay (array nil) file r = refl
    read_chars-lay (array (cons v xs)) file r =
        ap (λ t. b'[' ∷ t)
          (read_chars-lay v (lay_items ops true xs file) r.0
            ∙ ap (lay ops false (squeeze v)) (read_chars-lay_items xs file r.1))
    read_chars-lay (object end) file r = refl
    read_chars-lay (object (field k v fs)) file r =
        ap (λ t. b'{' ∷ t)
          (read_chars-key k (lay ops true v (lay_fields ops true fs file)) last
            ∙ ap (key false (squeeze_text k)) (
                read_chars-lay v (lay_fields ops true fs file) r.1.1
                ∙ ap (lay ops false (squeeze v)) (read_chars-lay_fields fs file r.1.2)))

    read_chars-lay_items :
        (xs : Items N) (file : List ℕ)
        → ReadableItems ops (squeeze_items xs)
        → read_chars (lay_items ops true xs file) last
          ≡ lay_items ops false (squeeze_items xs) (read_chars file last)
    read_chars-lay_items nil file r = refl
    read_chars-lay_items (cons v xs) file r =
        ap (λ t. b',' ∷ t)
          (read_chars-lay v (lay_items ops true xs file) r.0
            ∙ ap (lay ops false (squeeze v)) (read_chars-lay_items xs file r.1))

    read_chars-lay_fields :
        (fs : Fields N) (file : List ℕ)
        → ReadableFields ops (squeeze_fields fs)
        → read_chars (lay_fields ops true fs file) last
          ≡ lay_fields ops false (squeeze_fields fs) (read_chars file last)
    read_chars-lay_fields end file r = refl
    read_chars-lay_fields (field k v fs) file r =
        ap (λ t. b',' ∷ t)
          (read_chars-key k (lay ops true v (lay_fields ops true fs file)) last
            ∙ ap (key false (squeeze_text k)) (
                read_chars-lay v (lay_fields ops true fs file) r.1
                ∙ ap (lay ops false (squeeze v)) (read_chars-lay_fields fs file r.2)))

-- An object that is written to a file is read from it with every blank taken out of its texts and
-- names, if it can be read back without them. The character that the reading leaves at the end
-- does not matter.
pub read-write :
    {N : Type 0} (ops : NumberOps N) (fs : Fields N) (last : ℕ) (file : List ℕ)
    → Readable ops (squeeze (object fs))
    → write ops (object fs) ≡ some file
    → read ops file last ≡ done (squeeze (object fs)) (last ∷ [])
unfolding read print read_chars
read-write {N} ops fs last file r e =
    let same : print_value ops (object fs) ≡ file = cc in
    let layout : file ≡ lay ops true (object fs) [] =
      sym same
      ∙ sym (append-nil (print_value ops (object fs)))
      ∙ lay-print_value ops (object fs) [] in
    ap (λ f. parse ops (read_chars f last)) layout
    ∙ ap (parse ops) (read_chars-lay ops last (object fs) [] r)
    ∙ parse-lay ops false (squeeze (object fs)) (last ∷ []) r (unfold squeeze in tt)
