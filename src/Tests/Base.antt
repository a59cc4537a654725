-- ===== src/Tests/Base.antt =====
-- A DuckDB for the tests.
use lance_duckdb.Common.{ℕ, ◌*◌, ◌+◌, ◌-◌, ◌%◌, ◌^◌, true, arith}
use lance_duckdb.Common.Int.{ℤ, IsSigned, to_word, of_word}
use lance_duckdb.ExprIr.Types.{DuckDb}
use lance_duckdb.ExprIr.RoundTrip.Values.{IsDuckDb}

-- Arithmetic modulo 2 ^ 128.
abbrev pub wrap : ℕ → ℤ
wrap n = of_word (2 ^ 127) (n % 2 ^ 128)

wrap-IsSigned : (n : ℕ) → IsSigned (2 ^ 127) (wrap n)
unfolding of_word
wrap-IsSigned n = ground arith

-- Names that are in lower case already, and calendar tests that every value passes.
abbrev pub duckdb : DuckDb
duckdb = record {
  lower = λ s. s;
  date_is_finite = λ d. true;
  timestamp_is_finite = λ t. true;
  hugeint_mul = λ a b. wrap (to_word (2 ^ 127) a * to_word (2 ^ 127) b);
  hugeint_add = λ a b. wrap (to_word (2 ^ 127) a + to_word (2 ^ 127) b);
  hugeint_neg = λ a. wrap (2 ^ 128 - to_word (2 ^ 127) a);
}

pub duckdb_laws : IsDuckDb duckdb
duckdb_laws = record {
  mul_range = λ a b. wrap-IsSigned _;
  add_range = λ a b. wrap-IsSigned _;
  neg_range = λ a. wrap-IsSigned _;
  lower_utf8 = λ s h. h;
}
