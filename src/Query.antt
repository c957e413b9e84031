-- ===== src/Query.antt =====
-- src/expression, src/execution, src/binder and src/bin: from a statement to its result.
pub mod Expression
pub mod Execution
pub mod Binder
pub mod Session
