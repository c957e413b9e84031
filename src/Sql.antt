-- ===== src/Sql.antt =====
-- src/sql/parser: the statements, the lexer and the parser.
pub mod Token
pub mod Ast
pub mod Lexer
pub mod Parser
