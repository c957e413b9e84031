-- ===== src/Json/Writer.antt =====
-- src/json/json_writer.hpp: the printing of a value. What a function appends to `to_print` is its
-- result.
use tadis.Prelude.{ℕ, true, false, Option, none, some, List, [], ◌∷◌, ◌++◌, ◌==◌, if◌then◌else◌}
use tadis.Json.Value.{
  Value, Items, Fields, null, bool, number, string, array, object, nil, cons, end, field,
  array_size, object_size,
}
use tadis.Json.Parser.{true_word, false_word, null_word}
use tadis.Json.Numbers.{NumberOps}

abbrev pub newline : ℕ
newline = 10

module _ {N : Type 0} (ops : NumberOps N) where
  -- `print_items` and `print_fields` are the loops of `pson_print_array` and `pson_print_object`.
  unfoldable mutual
    unfolding array_size object_size

    pub print_value : Value N → List ℕ
    print_value null = null_word
    print_value (bool true) = true_word
    print_value (bool false) = false_word
    print_value (number n) = ops.to_string n
    print_value (string s) = b'"' ∷ (s ++ (b'"' ∷ []))
    print_value (array xs) =
        if array_size xs == 0 then b'[' ∷ b']' ∷ [] else b'[' ∷ (print_items xs ++ (b']' ∷ []))
    print_value (object fs) =
        if object_size fs == 0
        then b'{' ∷ b'}' ∷ []
        else b'{' ∷ newline ∷ (print_fields fs ++ (newline ∷ b'}' ∷ []))

    pub print_items : Items N → List ℕ
    print_items nil = []
    print_items (cons v xs) =
        print_value v ++ (if array_size xs == 0 then [] else b' ' ∷ b',' ∷ b' ' ∷ print_items xs)

    pub print_fields : Fields N → List ℕ
    print_fields end = []
    print_fields (field k v fs) =
        b'"'
        ∷ (k
            ++ (b'"'
                ∷ b' '
                ∷ b':'
                ∷ b' '
                ∷ (print_value v
                    ++ (if object_size fs == 0
                        then []
                        else b',' ∷ b' ' ∷ newline ∷ print_fields fs))))

  -- `Value::print`, which prints an object; another value is undefined behaviour.
  unfoldable pub print : Value N → Option (List ℕ)
  print (object fs) = some (print_value (object fs))
  print _ = none
