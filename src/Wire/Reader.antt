-- ===== src/Wire/Reader.antt =====
-- rust/expr_ir.rs, Cursor. A cursor is the list of the bytes from `pos` on, so that `is_eof` is a
-- test for the empty list; `pos + len` stays far below usize::MAX and does not overflow.
use lance_duckdb.Common.{
  ℕ, zero, suc, ◌+◌, ◌*◌, ◌%◌, ◌^◌, Bytes, Bool, true, false, Option, none, some, List, [], ◌∷◌,
  length, take, drop, ltb, leb, ◌==◌, ◌&&◌, if◌then◌else◌, bit_or, Result, ok, err, ◌>>=◌,
}
use lance_duckdb.Common.Int.{ℤ, of_word}

-- The messages that the parser answers with. `out_of_fuel` is the model's own: see `Parser`.
pub data ParseError : Type 0 where
  too_short magic_mismatch trailing_bytes unexpected_eof not_utf8 bad_tag bad_op bad_unit :
      ParseError
  no_children no_branches no_segments unresolved_udf not_a_string bad_option bad_mode : ParseError
  bad_regexp bad_version out_of_fuel : ParseError

abbrev pub Reader {ℓ} : Type ℓ → Type ℓ
Reader A = Bytes → Result ParseError (A × Bytes)

unfoldable pub read_u8 : Reader ℕ
read_u8 [] = err unexpected_eof
read_u8 (b ∷ rest) = ok (b, rest)

-- `for i in .. { out |= (self.read_u8()? as uN) << (i * 8); }` in a type of `modulus` values.
unfoldable pub read_word : ℕ → List ℕ → ℕ → Reader ℕ
read_word modulus [] out bs = ok (out, bs)
read_word modulus (i ∷ is) out bs = do
  (b, rest) ← read_u8 bs
  read_word modulus is (bit_or out (b * 2 ^ (8 * i) % modulus)) rest

unfoldable pub read_u32 : Reader ℕ
read_u32 = read_word (2 ^ 32) (0 ∷ 1 ∷ 2 ∷ 3 ∷ []) 0

unfoldable pub read_u64 : Reader ℕ
read_u64 = read_word (2 ^ 64) (0 ∷ 1 ∷ 2 ∷ 3 ∷ 4 ∷ 5 ∷ 6 ∷ 7 ∷ []) 0

unfoldable pub read_bytes : ℕ → Reader Bytes
read_bytes len bs =
    if ltb (length bs) len then err unexpected_eof else ok (take len bs, drop len bs)

-- from_le_bytes of the standard library, to an unsigned number.
unfoldable pub from_le_bytes : Bytes → ℕ
from_le_bytes [] = 0
from_le_bytes (b ∷ bs) = b + 256 * from_le_bytes bs

unfoldable pub read_i32 : Reader ℤ
read_i32 bs = do (raw, rest) ← read_bytes 4 bs; ok (of_word (2 ^ 31) (from_le_bytes raw), rest)

unfoldable pub read_i64 : Reader ℤ
read_i64 bs = do (v, rest) ← read_u64 bs; ok (of_word (2 ^ 63) v, rest)

unfoldable pub read_i128 : Reader ℤ
read_i128 bs = do (raw, rest) ← read_bytes 16 bs; ok (of_word (2 ^ 127) (from_le_bytes raw), rest)

-- A float is its bit pattern.
unfoldable pub read_f32 : Reader ℕ
read_f32 bs = do (raw, rest) ← read_bytes 4 bs; ok (from_le_bytes raw, rest)

unfoldable pub read_f64 : Reader ℕ
read_f64 bs = do (raw, rest) ← read_bytes 8 bs; ok (from_le_bytes raw, rest)

unfoldable pub read_len_prefixed_bytes : Reader Bytes
read_len_prefixed_bytes bs = do (len, rest) ← read_u32 bs; read_bytes len rest

abbrev between : ℕ → ℕ → ℕ → Bool
between lo hi b = leb lo b && leb b hi

-- The bytes that follow a leading byte, and the range of the first of them (Unicode, table 3-7).
utf8_lead : ℕ → Option (ℕ × ℕ × ℕ)
utf8_lead b =
    if ltb b 0x80
    then some (0, 0, 0)
    else if between 0xc2 0xdf b
    then some (1, 0x80, 0xbf)
    else if b == 0xe0
    then some (2, 0xa0, 0xbf)
    else if b == 0xed
    then some (2, 0x80, 0x9f)
    else if between 0xe1 0xef b
    then some (2, 0x80, 0xbf)
    else if b == 0xf0
    then some (3, 0x90, 0xbf)
    else if between 0xf1 0xf3 b
    then some (3, 0x80, 0xbf)
    else if b == 0xf4
    then some (3, 0x80, 0x8f)
    else none

utf8_rest : ℕ → ℕ → ℕ → Bytes → Bool
utf8_rest zero lo hi [] = true
utf8_rest (suc n) lo hi [] = false
utf8_rest zero lo hi (b ∷ s) = elim (utf8_lead b) [
  | none ↦ false
  | some (n, l, h) ↦ utf8_rest n l h s
]
utf8_rest (suc n) lo hi (b ∷ s) = between lo hi b && utf8_rest n 0x80 0xbf s

-- What std::str::from_utf8 accepts.
unfoldable pub is_utf8 : Bytes → Bool
unfolding utf8_rest utf8_lead
is_utf8 s = utf8_rest 0 0 0 s

unfoldable pub read_string : Reader Bytes
read_string bs = do
  (s, rest) ← read_len_prefixed_bytes bs
  if is_utf8 s then ok (s, rest) else err not_utf8
