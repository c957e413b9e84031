-- ===== src/Json/Parser/Fuel.antt =====
-- src/json/json_parser.hpp: the fuel that is enough for a text.
use tadis.Prelude.{
  ℕ, zero, suc, ◌+◌, ◌*◌, ◌<◌, ◌≡◌, ◌≢◌, sym, ap, ◌∙◌, true, false, List, [], ◌∷◌, arith, length,
  drop, length-drop, ◌==◌, if◌then◌else◌, Option-cases, inl, inr,
}
use tadis.Json.Value.{Items, Fields, null, bool}
use tadis.Json.Numbers.{NumberOps}
use tadis.Json.Parser.{
  Reply, done, refused, out_of_fuel, peek, skip_blank, number_end, parse_string_row, true_word,
  false_word, null_word, parse_number, parse_string, parse_value, parse_items, parse_fields, parse,
}
use tadis.Json.Parser.Within.{
  Within-done, Within-refused, Within-weaken, Within-if, Within-then, length-skip_blank,
  number_end_lt, parse_string_row-Within, parse_word-Within, Within,
}

-- Behind an opening bracket, the closing one or what the loop `r` reads.
Within-bracket :
    {A B : Type 0} (text : List ℕ) (close : ℕ) (none_there : B) (r : Reply A) (f : A → B)
    → (0 < length (skip_blank (drop 1 text)) → Within (length (skip_blank (drop 1 text))) r)
    → Within (length text) (
        let inside = skip_blank (drop 1 text) in
        if length inside == 0
        then refused
        else if peek inside == close
        then done none_there (drop 1 inside)
        else elim r [
          | done a rest ↦ done (f a) rest
          | refused ↦ refused
          | out_of_fuel ↦ out_of_fuel
        ])
Within-bracket text close none_there r f k =
    let inside = skip_blank (drop 1 text) in
    let shorter = length-skip_blank (drop 1 text) in
    let down = length-drop 1 text in
    let after = length-drop 1 inside in
    Within-if _ (length inside == 0) _ _ (λ e. Within-refused)
      (λ e.
        let some_left : 0 < length inside = ground arith in
        Within-if _ (peek inside == close) _ _ (λ c. Within-done _ _ (omega arith))
          (λ c.
            Within-then _ r _ (Within-weaken (length inside) _ r (omega arith) (k some_left))
              (λ a rest w. Within-done _ _ w)))

module _ {N : Type 0} (ops : NumberOps N) where
  parse_number-Within : (text : List ℕ) → Within (length text) (parse_number ops text)
  unfolding parse_number
  parse_number-Within text = elim (Option-cases (number_end text)) [
    | inl bad ↦ record { inside = ground arith }
    | inr (rest, e) ↦ record { inside = ground (arith, number_end_lt text rest e) }
  ]

  parse_string-Within : (text : List ℕ) → Within (length text) (parse_string ops text)
  unfolding parse_string
  parse_string-Within text =
      Within-then _ (parse_string_row text) _ (parse_string_row-Within text)
        (λ s rest h. Within-done _ _ h)

  mutual
    unfolding parse_value parse_items parse_fields

    parse_value-Within :
        (fuel : ℕ) (text : List ℕ)
        → 2 * length text < fuel
        → Within (length text) (parse_value ops false fuel text)
    parse_value-Within zero text h = absurd (omega arith)
    parse_value-Within (suc fuel) text h =
        let inside = skip_blank (drop 1 text) in
        let shorter = length-skip_blank (drop 1 text) in
        let down = length-drop 1 text in
        Within-if _ (peek text == b't') _ _
          (λ b. parse_word-Within b't' (drop 1 true_word) (bool true) text)
          (λ b.
            Within-if _ (peek text == b'f') _ _
              (λ b. parse_word-Within b'f' (drop 1 false_word) (bool false) text)
              (λ b.
                Within-if _ (peek text == b'n') _ _
                  (λ b. parse_word-Within b'n' (drop 1 null_word) (null) text)
                  (λ b.
                    Within-if _ (peek text == b'"') _ _ (λ b. parse_string-Within text)
                      (λ b.
                        Within-if _ (peek text == b'[') _ _
                          (λ b.
                            Within-bracket text b']' _ (parse_items ops false fuel inside _) _
                              (λ k. parse_items-Within fuel inside _ (omega arith)))
                          (λ b.
                            Within-if _ (peek text == b'{') _ _
                              (λ b.
                                Within-bracket text b'}' _ (parse_fields ops false fuel inside _) _
                                  (λ k. parse_fields-Within fuel inside _ (omega arith)))
                              (λ b. parse_number-Within text))))))

    parse_items-Within :
        (fuel : ℕ) (text : List ℕ) (xs : Items N)
        → 2 * length text + 1 < fuel
        → Within (length text) (parse_items ops false fuel text xs)
    parse_items-Within zero text xs h = absurd (omega arith)
    parse_items-Within (suc fuel) text xs h =
        let start = skip_blank text in
        let less = length-skip_blank text in
        Within-then (length text) (parse_value ops false fuel start) _
          (Within-weaken (length start) (length text) (parse_value ops false fuel start) less
            (parse_value-Within fuel start (omega arith)))
          (λ val rest w.
            let next = skip_blank rest in
            let less' = length-skip_blank rest in
            let down = length-drop 1 next in
            let shorter : length (drop 1 next) < length text = omega arith in
            Within-if (length text) (peek next == b',') _ _
              (λ b.
                Within-weaken (length (drop 1 next)) (length text)
                  (parse_items ops false fuel (drop 1 next) _) (omega arith)
                  (parse_items-Within fuel (drop 1 next) _ (omega arith)))
              (λ b.
                Within-if (length text) (peek next == b']') _ _ (λ c. Within-done _ _ shorter)
                  (λ c. Within-refused)))

    parse_fields-Within :
        (fuel : ℕ) (text : List ℕ) (fs : Fields N)
        → 2 * length text + 1 < fuel
        → Within (length text) (parse_fields ops false fuel text fs)
    parse_fields-Within zero text fs h = absurd (omega arith)
    parse_fields-Within (suc fuel) text fs h =
        Within-then (length text) (parse_string_row text) _ (parse_string_row-Within text)
          (λ name colon w.
            let start = skip_blank (drop 1 (skip_blank colon)) in
            let less1 = length-skip_blank colon in
            let less2 = length-drop 1 (skip_blank colon) in
            let less3 = length-skip_blank (drop 1 (skip_blank colon)) in
            Within-if (length text) (peek (skip_blank colon) == b':') _ _
              (λ b.
                Within-then (length text) (parse_value ops false fuel start) _
                  (Within-weaken (length start) (length text) (parse_value ops false fuel start)
                    (omega arith) (parse_value-Within fuel start (omega arith)))
                  (λ val rest w'.
                    let next = skip_blank rest in
                    let less4 = length-skip_blank rest in
                    let down = length-drop 1 next in
                    let shorter : length (drop 1 next) < length text = omega arith in
                    let less5 = length-skip_blank (drop 1 next) in
                    Within-if (length text) (peek next == b',') _ _
                      (λ c.
                        Within-weaken (length (skip_blank (drop 1 next))) (length text)
                          (parse_fields ops false fuel (skip_blank (drop 1 next)) _) (omega arith)
                          (parse_fields-Within fuel (skip_blank (drop 1 next)) _ (omega arith)))
                      (λ c.
                        Within-if (length text) (peek next == b'}') _ _
                          (λ d. Within-done _ _ shorter)
                          (λ d.
                            Within-if (length text) (length next == 0) _ _ (λ e. Within-refused)
                              (λ e.
                                Within-weaken (length next) (length text)
                                  (parse_fields ops false fuel next _) (omega arith)
                                  (parse_fields-Within fuel next _ (omega arith)))))))
              (λ b. Within-refused))

Within-returns : {A : Type 0} (n : ℕ) (r : Reply A) → Within n r → r ≢ out_of_fuel
Within-returns n (done a rest) w e = cc
Within-returns n refused w e = cc
Within-returns n out_of_fuel w e = w.inside

-- `parse` returns on every text: the fuel that it gives is enough.
pub parse_fuel : {N : Type 0} (ops : NumberOps N) (text : List ℕ) → parse ops text ≢ out_of_fuel
unfolding parse parse_value skip_blank
parse_fuel ops [] e = cc
parse_fuel ops (ch ∷ text) e =
    let whole = ch ∷ text in
    let start = skip_blank whole in
    let some_left : (length whole == 0) ≡ false = ground arith in
    Within-returns (length start) (parse_value ops false (2 * length whole + 1) start)
      (parse_value-Within ops (2 * length whole + 1) start (omega (arith, length-skip_blank whole)))
      (ap (λ b. parse_value ops b (2 * length whole + 1) start) (sym some_left) ∙ e)
