-- ===== src/Wire/Words.antt =====
-- The words that the C++ side appends are the words that the Rust side reads.
use lance_duckdb.Common.{
  ℕ, ◌+◌, ◌*◌, ◌/◌, ◌%◌, ◌^◌, ◌≤◌, ◌<◌, ◌≡◌, Bytes, [], ◌++◌, ◌∙◌, arith, bit_or, ok, length, ltb,
  false, take-append, drop-append, length-append,
}
use lance_duckdb.Common.Bits.{bit_or-shift}
use lance_duckdb.Common.Int.{ℤ, IsSigned, to_word, to_word-lt, of_word-to_word}
use native.Mathlib.Nat.{mod-eq_of_lt}
use lance_duckdb.Wire.Writer.{
  append_u32, append_u64, append_i64, append_i32, append_i128, append_f32, append_f64,
}
use lance_duckdb.Wire.Reader.{
  read_u8, read_word, read_u32, read_u64, read_i64, read_i32, read_i128, from_le_bytes, read_bytes,
  read_f32, read_f64,
}

or_byte : (m k a b : ℕ) → a < 2 ^ k → b * 2 ^ k < m → bit_or a (b * 2 ^ k % m) ≡ a + b * 2 ^ k
or_byte m k a b fits room = rw (mod-eq_of_lt room) (bit_or-shift k a b fits)

-- One round of the reading loop, where it has read the low k bits of v.
abbrev Round : ℕ → ℕ → ℕ → Type 0
Round m k v = bit_or (v % 2 ^ k) (v / 2 ^ k % 256 * 2 ^ k % m) ≡ v % 2 ^ (k + 8)

-- The first byte: b is v or v / 2 ^ 0.
first_round : (m b : ℕ) → 256 ≤ m → bit_or 0 (b % 256 * 1 % m) ≡ b % 256
first_round m b h = omega (arith, or_byte m 0 0 (b % 256) (omega arith) (omega arith))

module _ (v : ℕ) where
  u32_rounds : Round (2 ^ 32) 8 v × Round (2 ^ 32) 16 v × Round (2 ^ 32) 24 v
  u32_rounds = (
    omega (arith, or_byte (2 ^ 32) 8 (v % 2 ^ 8) (v / 2 ^ 8 % 256) (omega arith) (omega arith)),
    omega (arith, or_byte (2 ^ 32) 16 (v % 2 ^ 16) (v / 2 ^ 16 % 256) (omega arith) (omega arith)),
    omega (arith, or_byte (2 ^ 32) 24 (v % 2 ^ 24) (v / 2 ^ 24 % 256) (omega arith) (omega arith)),
  )

  low_rounds : Round (2 ^ 64) 8 v × Round (2 ^ 64) 16 v × Round (2 ^ 64) 24 v × Round (2 ^ 64) 32 v
  low_rounds = (
    omega (arith, or_byte (2 ^ 64) 8 (v % 2 ^ 8) (v / 2 ^ 8 % 256) (omega arith) (omega arith)),
    omega (arith, or_byte (2 ^ 64) 16 (v % 2 ^ 16) (v / 2 ^ 16 % 256) (omega arith) (omega arith)),
    omega (arith, or_byte (2 ^ 64) 24 (v % 2 ^ 24) (v / 2 ^ 24 % 256) (omega arith) (omega arith)),
    omega (arith, or_byte (2 ^ 64) 32 (v % 2 ^ 32) (v / 2 ^ 32 % 256) (omega arith) (omega arith)),
  )

  high_rounds : Round (2 ^ 64) 40 v × Round (2 ^ 64) 48 v × Round (2 ^ 64) 56 v
  high_rounds = (
    omega (arith, or_byte (2 ^ 64) 40 (v % 2 ^ 40) (v / 2 ^ 40 % 256) (omega arith) (omega arith)),
    omega (arith, or_byte (2 ^ 64) 48 (v % 2 ^ 48) (v / 2 ^ 48 % 256) (omega arith) (omega arith)),
    omega (arith, or_byte (2 ^ 64) 56 (v % 2 ^ 56) (v / 2 ^ 56 % 256) (omega arith) (omega arith)),
  )

pub read_u32-append_u32 :
    (v : ℕ) (rest : Bytes) → v < 2 ^ 32 → read_u32 (append_u32 [] v ++ rest) ≡ ok (v, rest)
unfolding read_u32 append_u32 read_word read_u8
read_u32-append_u32 v rest h =
    let (r1, r2, r3) = u32_rounds v in
    rw (first_round (2 ^ 32) v (omega arith), r1, r2, r3, mod-eq_of_lt h)

pub read_u64-append_u64 :
    (v : ℕ) (rest : Bytes) → v < 2 ^ 64 → read_u64 (append_u64 [] v ++ rest) ≡ ok (v, rest)
unfolding read_u64 append_u64 read_word read_u8
read_u64-append_u64 v rest h =
    let (r1, r2, r3, r4) = low_rounds v in
    let (r5, r6, r7) = high_rounds v in
    rw (div_one v, first_round (2 ^ 64) v (omega arith), r1, r2, r3, r4, r5, r6, r7, mod-eq_of_lt h)
  where
    div_one : (n : ℕ) → n / 1 ≡ n
    div_one n = omega arith

pub read_i64-append_i64 :
    (z : ℤ) (rest : Bytes) → IsSigned (2 ^ 63) z → read_i64 (append_i64 [] z ++ rest) ≡ ok (z, rest)
unfolding read_i64 append_i64
read_i64-append_i64 z rest h = rw (
  read_u64-append_u64 (to_word (2 ^ 63) z) rest (to_word-lt (2 ^ 63) z (omega arith)),
  of_word-to_word (2 ^ 63) z h,
)

-- The bytes of a word, lowest first, stand for it.
from_le_u32 : (v : ℕ) → v < 2 ^ 32 → from_le_bytes (append_u32 [] v) ≡ v
unfolding from_le_bytes append_u32
from_le_u32 v h = omega arith

from_le_u64 : (v : ℕ) → v < 2 ^ 64 → from_le_bytes (append_u64 [] v) ≡ v
unfolding from_le_bytes append_u64
from_le_u64 v h = omega arith

pub read_bytes_exact : (s rest : Bytes) → read_bytes (length s) (s ++ rest) ≡ ok (s, rest)
unfolding read_bytes
read_bytes_exact s rest = rw (enough, take-append s rest, drop-append s rest)
  where
    enough : ltb (length (s ++ rest)) (length s) ≡ false
    enough = ground (arith, length-append s rest)

read_four :
    (v : ℕ) (rest : Bytes) → read_bytes 4 (append_u32 [] v ++ rest) ≡ ok (append_u32 [] v, rest)
unfolding append_u32
read_four v rest = read_bytes_exact (append_u32 [] v) rest

read_eight :
    (v : ℕ) (rest : Bytes) → read_bytes 8 (append_u64 [] v ++ rest) ≡ ok (append_u64 [] v, rest)
unfolding append_u64
read_eight v rest = read_bytes_exact (append_u64 [] v) rest

read_sixteen :
    (z : ℤ) (rest : Bytes) → read_bytes 16 (append_i128 [] z ++ rest) ≡ ok (append_i128 [] z, rest)
unfolding append_i128 append_u64
read_sixteen z rest = read_bytes_exact (append_i128 [] z) rest

pub read_f32-append_f32 :
    (bits : ℕ) (rest : Bytes)
    → bits < 2 ^ 32
    → read_f32 (append_f32 [] bits ++ rest) ≡ ok (bits, rest)
unfolding read_f32 append_f32
read_f32-append_f32 bits rest h = rw (read_four bits rest, from_le_u32 bits h)

pub read_f64-append_f64 :
    (bits : ℕ) (rest : Bytes)
    → bits < 2 ^ 64
    → read_f64 (append_f64 [] bits ++ rest) ≡ ok (bits, rest)
unfolding read_f64 append_f64
read_f64-append_f64 bits rest h = rw (read_eight bits rest, from_le_u64 bits h)

pub read_i32-append_i32 :
    (z : ℤ) (rest : Bytes) → IsSigned (2 ^ 31) z → read_i32 (append_i32 [] z ++ rest) ≡ ok (z, rest)
unfolding read_i32 append_i32
read_i32-append_i32 z rest h =
    let w = to_word (2 ^ 31) z in
    rw (
      read_four w rest,
      from_le_u32 w (to_word-lt (2 ^ 31) z (omega arith)),
      of_word-to_word (2 ^ 31) z h,
    )

from_le_u64_append :
    (v : ℕ) (more : Bytes)
    → v < 2 ^ 64
    → from_le_bytes (append_u64 [] v ++ more) ≡ v + 2 ^ 64 * from_le_bytes more
unfolding from_le_bytes append_u64
from_le_u64_append v more h = omega arith

from_le_i128 : (z : ℤ) → from_le_bytes (append_i128 [] z) ≡ to_word (2 ^ 127) z
unfolding append_i128
from_le_i128 z =
    let w = to_word (2 ^ 127) z in
    let fits = to_word-lt (2 ^ 127) z (omega arith) in
    unfold append_u64 in
    (from_le_u64_append (w % 2 ^ 64) (append_u64 [] (w / 2 ^ 64)) (omega arith))
    ∙ omega (arith, from_le_u64 (w / 2 ^ 64) (omega arith))

pub read_i128-append_i128 :
    (z : ℤ) (rest : Bytes)
    → IsSigned (2 ^ 127) z
    → read_i128 (append_i128 [] z ++ rest) ≡ ok (z, rest)
unfolding read_i128
read_i128-append_i128 z rest h =
    rw (read_sixteen z rest, from_le_i128 z, of_word-to_word (2 ^ 127) z h)
