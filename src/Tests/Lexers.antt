-- ===== src/Tests/Lexers.antt =====
-- src/sql/parser/lexer.hpp at some inputs, with a unit type for the floating-point numbers.
use tadis.Prelude.{◌<◌, ◌≡◌, ◌⊎◌, refl, true, false, some, [], ◌∷◌, if◌then◌else◌}
use tadis.Prelude.Int.{pos}
use tadis.Common.Rc.{success, syntax_error}
use tadis.Sql.Token.{token_eq, bad_expr, star_t, from_t}
use tadis.Sql.Ast.{FloatOps, empty}
use tadis.Sql.Lexer
use tadis.Sql.Lexer.{Lexer, internal_next, next, next_if, peek}
use tadis.Sql.Lexer.Progress.{Moves, internal_next-Moves, next_if_lem}
use tadis.Sql.Lexer.Lookahead.{peek-next}

-- Nothing is known of a floating-point number.
abbrev unit_ops : FloatOps (Unit {0})
unit_ops = record { stof = λ s. some tt; negate = λ f. f; int_of_sub = λ f g. some (pos 0) }

abbrev star : Lexer (Unit {0})
star = record { input = b' ' ∷ b'*' ∷ []; p = 0; cur_val = empty }

abbrev past : Lexer (Unit {0})
past = record star { p = 2 }

run_star : internal_next unit_ops star ≡ some (success, star_t, 0, past)
unfolding Lexer.internal_next Lexer.skip_blank Lexer.run Lexer.lex_at Lexer.lex_char
run_star = refl

internal_next-Moves_example :
    (0 ≡ star.p) × Moves star past (if token_eq star_t bad_expr then 0 else 1)
internal_next-Moves_example = internal_next-Moves unit_ops star past success star_t 0 run_star

refused : next_if unit_ops from_t star ≡ some (syntax_error, star_t, star)
unfolding Lexer.next_if Lexer.internal_next Lexer.skip_blank Lexer.run Lexer.lex_at Lexer.lex_char
refused = refl

next_if_lem_example :
    ((token_eq star_t from_t ≡ true)
      × (syntax_error ≡ success)
      × (star.input ≡ star.input)
      × (star.p < star.p))
    ⊎ ((token_eq star_t from_t ≡ false)
        × (syntax_error ≡ syntax_error)
        × (star.input ≡ star.input)
        × (star.p ≡ star.p))
next_if_lem_example = next_if_lem unit_ops from_t star_t star star syntax_error refl refused

peeked : peek unit_ops star ≡ some (success, star_t, star)
unfolding Lexer.peek Lexer.internal_next Lexer.skip_blank Lexer.run Lexer.lex_at Lexer.lex_char
peeked = refl

peek-next_example :
    (next unit_ops star ≡ next unit_ops star)
    × ((l' : Lexer (Unit {0})) × (next unit_ops star ≡ some (success, star_t, l')))
peek-next_example = peek-next unit_ops star star success star_t peeked
