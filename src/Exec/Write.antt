-- ===== src/Exec/Write.antt =====
-- src/lance_exec_ir.cpp, WriteU8 to WriteString and the literals: the bytes that each appends.
use lance_duckdb.Common.{
  ℕ, ◌*◌, ◌/◌, ◌%◌, ◌^◌, ◌||◌, Bytes, List, [], ◌∷◌, ◌++◌, map, length, ltb, if◌then◌else◌, ok, err,
  or_throw, ◌>>=◌, ◌>>◌, throw_if, invalid_input,
}
use lance_duckdb.Common.Int.{ℤ, to_word}
use lance_duckdb.Wire.Writer.{u32_max, word_indices}
use lance_duckdb.ExprIr.Types.{LogicalType, big, plain}
use lance_duckdb.Exec.Types.{declined, thrown, cast_failed, Attempt, decline_if, Value, DuckDb}

unfoldable pub write_u8 : ℕ → Bytes
write_u8 v = v ∷ []

unfoldable pub write_u32 : ℕ → Bytes
write_u32 v = v % 256 ∷ (v / 2 ^ 8 % 256) ∷ (v / 2 ^ 16 % 256) ∷ (v / 2 ^ 24 % 256) ∷ []

unfoldable pub write_u64 : ℕ → Bytes
write_u64 v = map (λ i. v / 2 ^ (8 * i) % 256) word_indices

unfoldable pub write_i64 : ℤ → Bytes
write_i64 v = write_u64 (to_word (2 ^ 63) v)

unfoldable pub write_f64 : ℕ → Bytes
write_f64 bits = write_u64 bits

-- The two halves of a hugeint_t.
unfoldable pub write_hugeint : ℤ → Bytes
write_hugeint v =
    let pattern = to_word (2 ^ 127) v in
    write_u64 (pattern % 2 ^ 64) ++ write_u64 (pattern / 2 ^ 64)

unfoldable pub write_string : Bytes → Attempt Bytes
write_string s = do
  throw_if (ltb u32_max (length s)) (thrown invalid_input)
  ok (write_u32 (length s) ++ s)

-- `for (auto &s : strings) WriteString(out, s);`
unfoldable pub write_strings : List Bytes → Attempt Bytes
write_strings [] = ok []
write_strings (s ∷ ss) = do first ← write_string s; rest ← write_strings ss; ok (first ++ rest)

unfoldable pub try_encode_output_type_hint : LogicalType → Attempt Bytes
try_encode_output_type_hint LogicalType.boolean = ok (write_u8 1)
try_encode_output_type_hint (LogicalType.signed big) = ok (write_u8 2)
try_encode_output_type_hint LogicalType.double = ok (write_u8 3)
try_encode_output_type_hint LogicalType.date = ok (write_u8 4)
try_encode_output_type_hint (LogicalType.timestamp plain) = ok (write_u8 5)
try_encode_output_type_hint LogicalType.varchar = ok (write_u8 6)
try_encode_output_type_hint (LogicalType.decimal width scale) = do
  decline_if (ltb 255 width || ltb 255 scale)
  ok (7 ∷ width ∷ scale ∷ [])
try_encode_output_type_hint _ = err declined

-- The tag LITERAL, the literal's own tag, and the value.
unfoldable pub try_encode_exec_literal : DuckDb → Value → Attempt Bytes
try_encode_exec_literal db Value.null = ok (2 ∷ 0 ∷ [])
try_encode_exec_literal db (Value.integer z) = do
  i64 ← or_throw (db.to_bigint z) cast_failed
  ok (2 ∷ 1 ∷ write_i64 i64)
try_encode_exec_literal db (Value.double bits) = ok (2 ∷ 2 ∷ write_f64 bits)
try_encode_exec_literal db (Value.float bits) = ok (2 ∷ 2 ∷ write_f64 (db.float_to_double bits))
try_encode_exec_literal db (Value.boolean b) = ok (2 ∷ 3 ∷ write_u8 (if b then 1 else 0))
try_encode_exec_literal db (Value.varchar s) = do text ← write_string s; ok (2 ∷ 4 ∷ text)
try_encode_exec_literal db (Value.decimal width scale dec) = do
  decline_if (ltb 255 width || ltb 255 scale)
  ok (2 ∷ 5 ∷ width ∷ scale ∷ write_hugeint dec)
try_encode_exec_literal db Value.other = err declined
