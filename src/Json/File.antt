-- ===== src/Json/File.antt =====
-- src/common/json.hpp: `JsonFileRWer`, on the contents of a file that can be opened.
pub mod Blanks
use tadis.Prelude.{
  ℕ, Bool, ◌&&◌, ◌||◌, Option, none, some, List, [], ◌∷◌, ◌++◌, leb, ◌==◌, if◌then◌else◌,
}
use tadis.Json.Value.{Value}
use tadis.Json.Numbers.{NumberOps}
use tadis.Json.Parser.{Reply, parse}
use tadis.Json.Writer.{print}

-- The characters that `>>` passes over.
abbrev pub is_space : ℕ → Bool
is_space ch = ch == b' ' || (leb 9 ch && leb ch 13)

-- The loop of `read`. The `>>` behind the last character fails and leaves `ch` as it is, which is
-- not initialised: `last` stands for it.
unfoldable pub read_chars : List ℕ → ℕ → List ℕ
read_chars [] last = last ∷ []
read_chars (ch ∷ file) last =
    let rest = read_chars file last in if is_space ch then rest else ch ∷ rest

module _ {N : Type 0} (ops : NumberOps N) where
  unfoldable pub read : List ℕ → ℕ → Reply (Value N)
  unfolding read_chars
  read file last = parse ops (read_chars file last)

  -- The contents that `write` gives the file.
  abbrev pub write : Value N → Option (List ℕ)
  write v = print ops v
