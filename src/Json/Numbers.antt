-- ===== src/Json/Numbers.antt =====
-- What src/json/ takes from the C library for a `double`.
use tadis.Prelude.{ℕ, Bool, Option, List}
use tadis.Prelude.Int.{ℤ}

-- `strtod` reads the front of a text that ends with a NUL; `erange` is that it sets `errno` to
-- ERANGE, and `is_huge` is equality with HUGE_VAL or its negation. `to_string` is that of the
-- standard library. A conversion gives none where it is undefined.
pub record NumberOps (N : Type 0) : Type 0 where
  pub strtod : List ℕ → N
  pub erange : List ℕ → Bool
  pub is_huge : N → Bool
  pub to_string : N → List ℕ
  pub of_size : ℕ → N
  pub to_int : N → Option ℤ
  pub to_size : N → Option ℕ
