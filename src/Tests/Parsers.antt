-- ===== src/Tests/Parsers.antt =====
-- Runs of src/sql/parser/parser.hpp.
use tadis.Prelude.{ℕ, ◌≡◌, ◌≢◌, arith, refl, Option, some, none, List, [], ◌∷◌}
use tadis.Prelude.Int
use tadis.Prelude.Int.{pos}
use tadis.Common.Rc.{Rc, success, syntax_error}
use tadis.Sql.Token
use tadis.Sql.Ast
use tadis.Sql.Ast.{FloatOps, QueryStmt}
use tadis.Sql.Lexer
use tadis.Sql.Parser
use tadis.Sql.Parser.{Run, done, fault, out_of_fuel}
use tadis.Sql.Parser.Statements
use tadis.Sql.Parser.Fuel.Statement.{do_parse_fuel}
use tadis.Sql.Parser.Statements.{ParserState, do_parse}

abbrev unit_ops : FloatOps (Unit {0})
unit_ops = record { stof = λ s. some tt; negate = λ f. f; int_of_sub = λ f g. some (pos 0) }

abbrev outcome : {F : Type 0} → Run (Rc × ParserState F) → Option (Rc × QueryStmt F)
outcome (done (rc, p)) = some (rc, p.query)
outcome fault = none
outcome out_of_fuel = none

abbrev drop_into : List ℕ
drop_into = b'd' ∷ b'r' ∷ b'o' ∷ b'p' ∷ b' ' ∷ b'i' ∷ b'n' ∷ b't' ∷ b'o' ∷ []

-- The statement is not one, and the parser says SUCCESS.
drop_into_accepted :
    outcome (do_parse unit_ops 9 (Statements.init drop_into))
    ≡ some (success, Statements.empty_query)
unfolding Parser.◌>>=◌ Parser.lex Parser.pure Statements.do_parse Statements.parse_statement
    Statements.parse_drop Statements.init Lexer.init Lexer.peek Lexer.next Lexer.internal_next
    Lexer.skip_blank Lexer.run Lexer.lex_at Lexer.lex_char Lexer.lex_word Token.word_token
    Token.to_upper Token.lookup
drop_into_accepted = refl

abbrev delete_all : List ℕ
delete_all =
    b'd' ∷ b'e' ∷ b'l' ∷ b'e' ∷ b't' ∷ b'e' ∷ b' ' ∷ b'f' ∷ b'r' ∷ b'o' ∷ b'm' ∷ b' ' ∷ b't' ∷ b';'
    ∷ []

-- The one semicolon is taken before `parse_delete` asks for it.
delete_all_refused :
    outcome (do_parse unit_ops 14 (Statements.init delete_all))
    ≡ some (syntax_error, Ast.delete_stmt (record { tables = (b't' ∷ []) ∷ []; conds = [] }))
unfolding Parser.◌>>=◌ Parser.lex Parser.pure Statements.require Statements.do_parse
    Statements.parse_statement Statements.parse_delete Parser.parse_from Parser.parse_cols
    Parser.parse_conds Parser.take_text Statements.init Lexer.init Lexer.peek Lexer.next
    Lexer.next_if Lexer.internal_next Lexer.skip_blank Lexer.run Lexer.lex_at Lexer.lex_char
    Lexer.lex_word Token.word_token Token.to_upper Token.lookup
delete_all_refused = refl

-- A float is the text that `stof` gets.
abbrev text_ops : FloatOps (List ℕ)
text_ops = record { stof = λ s. some s; negate = λ f. f; int_of_sub = λ f g. some (pos 0) }

abbrev one_and_a_half : List ℕ
one_and_a_half = b'1' ∷ b'.' ∷ b'5' ∷ []

last_digit_lost :
    Lexer.next text_ops (Lexer.init one_and_a_half)
    ≡ some (
      success,
      Token.float_t,
      record { input = one_and_a_half; p = 3; cur_val = Ast.float (b'1' ∷ b'.' ∷ []) },
    )
unfolding Lexer.init Lexer.next Lexer.internal_next Lexer.skip_blank Lexer.run Lexer.lex_at
    Lexer.lex_char Lexer.lex_num Lexer.parse_num Lexer.number
last_digit_lost = refl

compared_equal :
    Ast.compare unit_ops (Ast.init_int (pos 4294967296)) (Ast.init_int (pos 0)) ≡ some (pos 0)
unfolding Ast.compare Ast.init_int Int.◌-ℤ◌
compared_equal = refl

do_parse_fuel_example : do_parse unit_ops 15 (Statements.init delete_all) ≢ out_of_fuel
do_parse_fuel_example = do_parse_fuel unit_ops 15 delete_all (omega arith)
