-- ===== src/Tests.antt =====
-- Concrete runs of the operations, one file for each part of the program.
mod Bitmaps
mod Replacers
mod Records
mod Pools
mod Lexers
mod Parsers
mod Tuples
mod Scanners
mod Queries
mod Selects
mod Metas
