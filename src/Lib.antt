-- ===== src/Lib.antt =====
-- Verification of tadis, a small relational database in C++ (src/ of the repository).
--
-- A statement passes through the program as follows. The lexer and the parser
-- (sql/parser/lexer.hpp, parser.hpp, ast.hpp) turn its text into a syntax tree. The binder
-- (binder/binder.hpp) looks up tables and columns in the catalog (catalog/catalog.hpp) and makes a
-- tree of executors (execution/) with expressions over tuples (expression/, catalog/tuple.hpp).
-- `execute_sql` (bin/command.cc) calls the executor until it gives no more rows. The executors read
-- and write records in pages of 1024 bytes (storage/bufferpool/record.hpp), which a buffer pool
-- (buffer_pool.hpp) keeps in memory and in a file (disk_manager.hpp); it evicts the least recently
-- used page that nobody has pinned (replacer.hpp), and keeps the set of pages in use as a bitmap
-- (common/bitmap.hpp) on the file's first page. When the program ends, the catalog writes the
-- schema of each table to a meta file in JSON (json/, common/json.hpp), and it opens the tables
-- again from these files.
--
-- Files, with the code that each models:
--   Common/Rc                   common/rc.hpp: `RC`, `rc_success`, `rc2str`
--   Common/Bitmap               common/bitmap.hpp: `BitMap::get`, `set`, `first`, `first_after`
--   Common/TextMap              `std::map<std::string, A>`, as the catalog uses it
--   Storage/Def                 storage/storage_def.hpp: `RID`, the sizes; class `Page`
--   Storage/Replacer            replacer.hpp: `LruReplacer`; a `std::list` node has a number, and an
--                               iterator is that number
--   Storage/RecordPage          record.hpp: `RecordPage`, `Record`, `PageRecordScanner`
--   Storage/Scanner             record.hpp: `RecordScanner`, over the buffer pool
--   Storage/Disk                disk_manager.hpp: `DiskManager`; the file is a list of blocks
--   Storage/Header              buffer_pool.hpp: `BFPHeaderPage`
--   Storage/BufferPool          buffer_pool.hpp: `BufferPool`; a step takes the pool and gives a
--                               value and the new pool; Lifecycle has the operations that
--                               allocate, delete, open and close
--   Storage/TableHeap           table_heap/table_heap.hpp: `TableHeap`
--   Sql/Token, Sql/Lexer        lexer.hpp: `Token`, `Lexer` over `std::string`
--   Sql/Ast                     ast.hpp: `Value`, `Condition`, the statements
--   Sql/Parser, .../Statements  parser.hpp: every `parse_` function and `do_parse`
--   Catalog/Column, .../Schema  catalog/column.hpp, schema.hpp
--   Json/Value                  json/json_value.hpp: `Value`, `Array`, `Object`
--   Json/Parser, Json/Writer    json/json_parser.hpp: `Parser`; json_writer.hpp: the `pson_print_`
--                               functions; Json/Numbers has what they take from the C library
--   Json/File                   common/json.hpp: `JsonFileRWer`
--   Catalog/Meta                column.hpp, schema.hpp: `to_json`, `from_json`
--   Catalog/Tuple               catalog/tuple.hpp: `create_tuple`, `value_at`
--   Catalog/Tables              catalog/catalog.hpp: `StorageManager`, `Table`, `Catalog`
--   Catalog/Files               catalog/catalog.hpp: `Catalog::init`, `is_json`, `close`
--   Query/Expression            expression/: `evaluate` of each expression
--   Query/Execution             execution/: `next` of each executor
--   Query/Binder                binder/binder.hpp: `bind` of each statement
--   Query/Session               bin/command.cc: `execute_sql`
-- The children of these files hold the theorems; Prelude has the shared lists, tests, signed
-- integers and the bytes of memory; Tests runs the operations at concrete inputs.
--
-- How the model corresponds to the code. `size_t` has 64 bits, and a subtraction that may wrap is
-- written out (`sub_size`). Memory is a list of bytes; a record that would
-- be written past the end of a page is cut off in the model, and the theorems that need it assume a
-- layout in which that does not happen; a bitmap that goes past the end of the header page gives
-- `none`. `none` stands for a failed assertion or undefined behaviour, where it is not the missing
-- result that a comment names. An executor tree does not change while it runs: what changes is the
-- catalog and the one scanner of the statement, which are the state of a run. The texts that go to
-- the log, and the messages of results, are left out.
--
-- Bounds and fuel. Page numbers below 2 ^ 54 have offsets that do not wrap. `next` of the page scan
-- takes fuel; each turn passes a slot, so one more than the slots that are left is enough, and the
-- record scanner gives it as much. `grow` takes the number of bytes that the bitmap may lack. The
-- loops of the SQL parser take fuel and tell an exhausted fuel (`out_of_fuel`) from a failure; each
-- turn takes a token, and `do_parse` is meant to get more fuel than the statement has characters.
-- The JSON parser gives itself twice the length of the text and one more, since two calls, one
-- inside the other, take a character. The loop of the filter and the loop of `execute_sql` take one
-- turn for a row, and are meant to get more fuel than there are rows.
--
-- Parameters. The type `float` with `std::stof`, negation and the difference as an `int` is a
-- parameter (`FloatOps`), of which nothing is assumed; how a `float` lies in memory is another
-- (`FloatBytes`), of which `IsFloatBytes` says that it has four bytes and is read back as written.
-- The type `double` with `strtod`, `std::to_string` and its conversions is a third (`NumberOps`);
-- `ReadsBack` says of one number that its text is a decimal one which `strtod` reads back, and
-- `KeepsSizes` that this holds of the sizes below 2 ^ 53, with the conversions. `matches` is
-- `std::regex_match`, and `last` is the uninitialised character that the reading of a file appends.
--
-- Not modelled: the escapes of a JSON text, which the parser never reaches; `from_json` on a type
-- number that no enumerator has; the helpers of common/utility.hpp and expect.hpp, which the
-- program's core does not call; the printing of results and the command table; and the table
-- printer bin/tabulate.h, which is third-party code. Paths are compared as texts.
pub mod Prelude
pub mod Json
pub mod Catalog
pub mod Common
pub mod Storage
pub mod Sql
pub mod Query
pub mod Tests
