-- ===== src/Tests/Metas.antt =====
-- Runs of src/json/, src/common/json.hpp and the meta files of src/catalog/catalog.hpp. A number is
-- stored as that many ones and one more, with a zero behind the point.
use mathlib.Core.Path.{subst}
use tadis.Prelude.{
  ℕ, zero, suc, ◌≡◌, ◌≢◌, refl, sym, ap, Bool, true, false, none, some, List, [], ◌∷◌, ◌++◌, arith,
  replicate, drop, ◌==◌, if◌then◌else◌, inr,
}
use tadis.Prelude.Int.{pos}
use tadis.Common.TextMap.{lookup, eq_text, less_text}
use tadis.Json.Value.{
  Fields, null, bool, number, string, array, object, nil, cons, end, field, object_insert,
  object_at, object_has, insert, at,
}
use tadis.Json.Objects.{IsSorted}
use tadis.Json.Objects.Laws.{at-insert}
use tadis.Json.Numbers.{NumberOps}
use tadis.Json.Parser.{
  done, out_of_fuel, parse, skip_blank, parse_value, parse_string, parse_string_row, backslash,
}
use tadis.Json.Parser.Fuel.{parse_fuel}
use tadis.Json.Writer.{print, print_value}
use tadis.Json.Decimal.{ReadsBack, AllDigits}
use tadis.Json.Readable.{Readable}
use tadis.Json.RoundTrip.{parse-print_value}
use tadis.Json.File.{read, write}
use tadis.Json.File.Blanks.{squeeze, squeeze_text, read-write}
use tadis.Catalog.Column.{int_col, varchar}
use tadis.Catalog.Schema.{Schema}
use tadis.Catalog.Meta.{schema_to_json, read_schema}
use tadis.Catalog.Meta.RoundTrip.{
  KeepsSizes, IsStorable, squeeze_schema, schema_object, read_schema-to_json,
}
use tadis.Catalog.Tables.{Catalog, Table, File, meta_file, db_name}
use tadis.Catalog.Files.{up_to_dot, is_json, meta_name, init, close}
use tadis.Catalog.Files.Reopen.{AreDistinct, reopened, eq_text-meta_name}
use tadis.Catalog.Files.Heaps.{AllClosable, file_of}
use tadis.Catalog.Files.Listing.{IsListing}
use tadis.Catalog.Files.Durable.{Storable, HasMetas, lookup-close, init-close}
use tadis.Storage.BufferPool.Lifecycle
use tadis.Storage.BufferPool.{BufferPool}
use tadis.Storage.BufferPool.Invariant.{IsValid, page_content}
use tadis.Tests.Pools.{new_pool, new_pool-Closable, new_pool-settled}

abbrev leading : List ℕ → ℕ
leading [] = 0
leading (c ∷ cs) = if c == b'1' then suc (leading cs) else 0

abbrev ones : NumberOps ℕ
ones = record {
  strtod = λ text. leading (drop 1 text);
  erange = λ text. false;
  is_huge = λ n. false;
  to_string = λ n. b'1' ∷ (replicate n b'1' ++ (b'.' ∷ b'0' ∷ []));
  of_size = λ n. n;
  to_int = λ n. some (pos n);
  to_size = λ n. some n;
}

AllDigits-replicate : (n : ℕ) → AllDigits (replicate n b'1')
AllDigits-replicate zero = tt
AllDigits-replicate (suc n) = (refl, AllDigits-replicate n)

leading-replicate :
    (n : ℕ) (rest : List ℕ) → leading ((replicate n b'1' ++ (b'.' ∷ b'0' ∷ [])) ++ rest) ≡ n
leading-replicate zero rest = refl
leading-replicate (suc n) rest = ap suc (leading-replicate n rest)

reads_back : (n : ℕ) → ReadsBack ones n
reads_back n = record {
  sign = false;
  whole = b'1' ∷ replicate n b'1';
  first_digit = b'0';
  fraction = [];
  text = refl;
  whole_form = inr (refl, AllDigits-replicate n);
  digits = (refl, tt);
  value = λ rest h. leading-replicate n rest;
  in_range = λ rest h. refl;
  finite = refl;
}

keeps_sizes : KeepsSizes ones
keeps_sizes = record { reads = λ n h. reads_back n; sizes = λ n h. refl; ints = λ n h. refl }

-- {"b c":[true,2],"d":{}}
abbrev two_fields : Fields ℕ
two_fields =
    field (b'b' ∷ b' ' ∷ b'c' ∷ []) (array (cons (bool true) (cons (number 2) nil)))
      (field (b'd' ∷ []) (object end) end)

abbrev squeezed : Fields ℕ
squeezed =
    field (b'b' ∷ b'c' ∷ []) (array (cons (bool true) (cons (number 2) nil)))
      (field (b'd' ∷ []) (object end) end)

squeezed-Readable : Readable ones (object squeezed)
unfolding Readable less_text
squeezed-Readable = (
  ((refl, tt), (tt, tt)),
  ((refl, (refl, tt)), (tt, (reads_back 2, tt)), ((refl, tt), (tt, tt), tt)),
)

squeezed-IsSorted : IsSorted squeezed
unfolding less_text
squeezed-IsSorted = ((refl, tt), (tt, tt))

at-insert_example :
    (fs : Fields ℕ) × (insert (b'c' ∷ []) null (object squeezed) ≡ some (object fs))
    × IsSorted fs
    × (at (b'd' ∷ []) (object fs) ≡ (
        if object_has (b'c' ∷ []) squeezed
        then at (b'd' ∷ []) (object squeezed)
        else if eq_text (b'c' ∷ []) (b'd' ∷ [])
        then some null
        else at (b'd' ∷ []) (object squeezed)))
at-insert_example = at-insert (b'd' ∷ []) (b'c' ∷ []) null squeezed squeezed-IsSorted

-- { without its end is refused, and nothing runs out of fuel.
parse_fuel_example : parse ones (b'{' ∷ b' ' ∷ []) ≢ out_of_fuel
parse_fuel_example = parse_fuel ones (b'{' ∷ b' ' ∷ [])

parse-print_value_example :
    parse ones (print_value ones (object squeezed) ++ (b'!' ∷ []))
    ≡ done (object squeezed) (b'!' ∷ [])
parse-print_value_example =
    parse-print_value ones (object squeezed) (b'!' ∷ []) squeezed-Readable tt

-- The text of the object above, with the blanks of its name.
abbrev written : List ℕ
written = print_value ones (object two_fields)

squeezed_lem : squeeze (object two_fields) ≡ object squeezed
unfolding squeeze
squeezed_lem = refl

read-write_example : read ones written 7 ≡ done (squeeze (object two_fields)) (7 ∷ [])
unfolding print
read-write_example =
    read-write ones two_fields 7 written
      (subst (Readable ones) (sym squeezed_lem) squeezed-Readable) refl

abbrev columns : Schema
columns =
    record { type = int_col; size = 4; name = b'i' ∷ b'd' ∷ [] }
    ∷ record { type = varchar; size = 30; name = b'm' ∷ b'e' ∷ [] }
    ∷ []

columns-IsStorable : IsStorable columns
unfolding squeeze_text
columns-IsStorable = ((refl, (refl, tt)), omega arith, ((refl, (refl, tt)), omega arith, tt))

abbrev stored : List ℕ
stored = elim (write ones (schema_to_json ones columns)) [ none ↦ [] | some text ↦ text ]

stored_lem : write ones (schema_to_json ones columns) ≡ some stored
unfolding print schema_to_json
stored_lem = refl

read_schema-to_json_example : read_schema ones stored 7 ≡ some (squeeze_schema columns)
read_schema-to_json_example =
    read_schema-to_json ones columns 7 stored keeps_sizes columns-IsStorable stored_lem

-- A pattern that takes every name.
abbrev every : List ℕ → List ℕ → Bool
every pattern text = true

abbrev people : Table
people = record { table_name = b'p' ∷ []; schema = columns }

abbrev one_table : List (List ℕ × Table)
one_table = (b'p' ∷ [], people) ∷ []

abbrev small : Catalog
small = record {
  tables = one_table;
  heaps = (b'p' ∷ [], new_pool) ∷ [];
  files = [];
  base_dir = b'd' ∷ [];
}

small-Storable : Storable ones every (λ file. 7) small one_table
unfolding up_to_dot lookup eq_text
small-Storable = ((refl, refl, columns-IsStorable, (new_pool, refl)), tt)

small-AllClosable : AllClosable small.heaps
unfolding lookup
small-AllClosable = (new_pool-Closable, refl, tt)

small-AreDistinct : AreDistinct one_table
unfolding lookup
small-AreDistinct = (refl, tt)

small-table : lookup (b'p' ∷ []) small.tables ≡ some people
unfolding lookup eq_text
small-table = refl

small-heap : lookup (b'p' ∷ []) small.heaps ≡ some new_pool
unfolding lookup eq_text
small-heap = refl

-- The file of the schema of the table.
abbrev people_file : File
people_file = meta_file (print_value ones (object (schema_object ones columns)))

-- The files that the catalog leaves.
abbrev Left : Type 0
Left =
    (files : List (List ℕ × File)) × (close ones small ≡ some files)
    × ((name : List ℕ)
        → lookup (meta_name (b'd' ∷ []) name) files ≡ (elim (lookup name one_table) [
          | none ↦ lookup (meta_name (b'd' ∷ []) name) []
          | some t ↦ some (meta_file (print_value ones (object (schema_object ones t.schema))))
        ]))
    × ((name : List ℕ)
        → lookup (db_name name) files ≡ (elim (lookup name small.heaps) [
          | none ↦ lookup (db_name name) []
          | some heap ↦ file_of (Lifecycle.close heap)
        ]))

lookup-close_example :
    (files : List (List ℕ × File)) × (close ones small ≡ some files)
    × ((name : List ℕ)
        → lookup (meta_name (b'd' ∷ []) name) files ≡ (elim (lookup name one_table) [
          | none ↦ lookup (meta_name (b'd' ∷ []) name) []
          | some t ↦ some (meta_file (print_value ones (object (schema_object ones t.schema))))
        ]))
    × ((name : List ℕ)
        → lookup (db_name name) files ≡ (elim (lookup name small.heaps) [
          | none ↦ lookup (db_name name) []
          | some heap ↦ file_of (Lifecycle.close heap)
        ]))
lookup-close_example = lookup-close ones small small-AreDistinct small-AllClosable

left : Left
left = lookup-close ones small small-AreDistinct small-AllClosable

-- The directory after it: the meta file is the only file.
abbrev directory : List (List ℕ × File)
directory = (meta_name (b'd' ∷ []) (b'p' ∷ []), people_file) ∷ []

directory-IsListing : IsListing ones every (λ file. 7) (b'd' ∷ []) left.0 one_table directory
unfolding lookup eq_text
directory-IsListing = (left.2 (b'p' ∷ []), refl, inr (b'p' ∷ [], people, refl, refl), tt)

directory-HasMetas : HasMetas ones every (λ file. 7) small directory
unfolding lookup
directory-HasMetas name t at =
    (people_file, ground (arith, eq_text-meta_name ones (b'd' ∷ []) (b'p' ∷ []) name))

init-close_example :
    (c' : Catalog) × (init ones every
        (λ file. 7)
        directory
        (record { tables = []; heaps = []; files = left.0; base_dir = b'd' ∷ [] })
      ≡ some c')
    × ((other : List ℕ)
        → lookup other c'.tables
          ≡ (elim (lookup other one_table) [ none ↦ none | some u ↦ some (reopened other u) ]))
    × ((heap' : BufferPool) × (lookup (b'p' ∷ []) c'.heaps ≡ some heap')
        × IsValid heap'
        × (page_content heap' 1 ≡ page_content new_pool 1))
init-close_example =
    init-close ones every (λ file. 7) small (b'p' ∷ []) people new_pool 1 left.0 directory
      keeps_sizes small-AreDistinct small-AllClosable small-Storable small-table small-heap
      (omega arith) (omega arith) new_pool-settled left.1 directory-IsListing directory-HasMetas

-- {"a":true "b":null}: the comma between the two entries is missing.
missing_comma :
    parse ones (
      b'{' ∷ b'"' ∷ b'a' ∷ b'"' ∷ b':' ∷ b't' ∷ b'r' ∷ b'u' ∷ b'e' ∷ b' ' ∷ b'"' ∷ b'b' ∷ b'"'
      ∷ b':' ∷ b'n' ∷ b'u' ∷ b'l' ∷ b'l' ∷ b'}' ∷ [])
    ≡ done (object (field (b'a' ∷ []) (bool true) (field (b'b' ∷ []) null end))) []
unfolding parse skip_blank parse_value parse_string_row object_insert object_at eq_text less_text
missing_comma = refl

-- "\n" is read as two backslashes.
escaped :
    parse ones (b'"' ∷ backslash ∷ b'n' ∷ b'"' ∷ []) ≡ done (string (backslash ∷ backslash ∷ [])) []
unfolding parse skip_blank parse_value parse_string
escaped = refl

-- A name without a dot, which the unescaped dot of the pattern lets in.
dotless :
    is_json ones every
      (λ file. 7)
      (b'd' ∷ [])
      (b'd' ∷ b'/' ∷ b'a' ∷ b'X' ∷ b'j' ∷ b's' ∷ b'o' ∷ b'n' ∷ [])
    ≡ none
unfolding is_json
dotless = refl
