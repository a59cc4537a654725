-- ===== src/Wire/Writer.antt =====
-- src/lance_expr_ir.cpp, AppendU8 to EncodeMessage. An unsigned argument is a number below the
-- modulus of its type; a float or double is its bit pattern, which is all that memcpy moves.
use lance_duckdb.Common.{
  ℕ, ◌-◌, ◌*◌, ◌/◌, ◌%◌, ◌^◌, Bytes, List, [], ◌∷◌, ◌++◌, map, length, ltb, Result, ok, ◌>>=◌, ◌>>◌,
  throw_if, Exception, invalid_input,
}
use lance_duckdb.Common.Int.{ℤ, to_word}

unfoldable pub append_u8 : Bytes → ℕ → Bytes
append_u8 out v = out ++ v ∷ []

unfoldable pub append_u32 : Bytes → ℕ → Bytes
append_u32 out v = out ++ v % 256 ∷ (v / 2 ^ 8 % 256) ∷ (v / 2 ^ 16 % 256) ∷ (v / 2 ^ 24 % 256) ∷ []

unfoldable pub append_i32 : Bytes → ℤ → Bytes
append_i32 out v = append_u32 out (to_word (2 ^ 31) v)

-- `for (idx_t i = 0; i < 8; i++)`.
abbrev pub word_indices : List ℕ
word_indices = 0 ∷ 1 ∷ 2 ∷ 3 ∷ 4 ∷ 5 ∷ 6 ∷ 7 ∷ []

unfoldable pub append_u64 : Bytes → ℕ → Bytes
append_u64 out v = out ++ map (λ i. v / 2 ^ (8 * i) % 256) word_indices

unfoldable pub append_i64 : Bytes → ℤ → Bytes
append_i64 out v = append_u64 out (to_word (2 ^ 63) v)

-- A hugeint_t is the integer that it stands for; `lower` and `upper` are its two halves.
unfoldable pub append_i128 : Bytes → ℤ → Bytes
append_i128 out v =
    let pattern = to_word (2 ^ 127) v in
    append_u64 (append_u64 out (pattern % 2 ^ 64)) (pattern / 2 ^ 64)

unfoldable pub append_f32 : Bytes → ℕ → Bytes
append_f32 out bits = append_u32 out bits

unfoldable pub append_f64 : Bytes → ℕ → Bytes
append_f64 out bits = append_u64 out bits

unfoldable pub append_bytes : Bytes → Bytes → Bytes
append_bytes out bytes = out ++ bytes

-- std::numeric_limits<uint32_t>::max()
abbrev pub u32_max : ℕ
u32_max = 2 ^ 32 - 1

unfoldable pub append_len_prefixed : Bytes → Bytes → Result Exception Bytes
append_len_prefixed out bytes = do
  throw_if (ltb u32_max (length bytes)) invalid_input
  ok (append_bytes (append_u32 out (length bytes)) bytes)

unfoldable pub append_len_prefixed_string : Bytes → Bytes → Result Exception Bytes
append_len_prefixed_string out value = append_len_prefixed out value

-- `for (auto &item : items) AppendLenPrefixed(out, item);`
unfoldable pub append_all_len_prefixed : Bytes → List Bytes → Result Exception Bytes
append_all_len_prefixed out [] = ok out
append_all_len_prefixed out (item ∷ items) = do
  out' ← append_len_prefixed out item
  append_all_len_prefixed out' items

-- LANCE_EXPR_IR_MAGIC
abbrev pub magic : Bytes
magic = b'L' ∷ b'U' ∷ b'E' ∷ b'1' ∷ []

unfoldable pub encode_message : Bytes → Bytes
encode_message root = magic ++ root
