-- ===== src/ExprIr/Fuel/Readers.antt =====
-- The readers of the cursor and of the leaves of an expression.
use lance_duckdb.Common.{ℕ, List, [], ◌∷◌, length, length-drop, ltb, arith}
use lance_duckdb.Wire.Reader.{
  read_u8, read_word, read_u32, read_u64, read_bytes, read_i32, read_i64, read_i128, read_f32,
  read_f64, read_len_prefixed_bytes, read_string, is_utf8,
}
use lance_duckdb.ExprIr.Fuel.{SafeReader, bind-Safe, if-Safe}

pub read_u8-Safe : SafeReader read_u8
unfolding read_u8
read_u8-Safe n [] h = λ e. cc
read_u8-Safe n (b ∷ rest) h = omega (arith, h)

pub read_word-Safe : (modulus : ℕ) (is : List ℕ) (out : ℕ) → SafeReader (read_word modulus is out)
unfolding read_word
read_word-Safe modulus [] out n bs h = h
read_word-Safe modulus (i ∷ is) out n bs h =
    bind-Safe n (read_u8 bs) _ (read_u8-Safe n bs h)
      (λ b rest k. read_word-Safe modulus is _ n rest k)

pub read_u32-Safe : SafeReader read_u32
unfolding read_u32
read_u32-Safe = read_word-Safe _ _ _

pub read_u64-Safe : SafeReader read_u64
unfolding read_u64
read_u64-Safe = read_word-Safe _ _ _

pub read_bytes-Safe : (len : ℕ) → SafeReader (read_bytes len)
unfolding read_bytes
read_bytes-Safe len n bs h =
    if-Safe n (ltb (length bs) len) _ _ (λ e. cc) (omega (arith, h, length-drop len bs))

pub read_i32-Safe : SafeReader read_i32
unfolding read_i32
read_i32-Safe n bs h = bind-Safe n (read_bytes 4 bs) _ (read_bytes-Safe 4 n bs h) (λ x rest k. k)

pub read_i64-Safe : SafeReader read_i64
unfolding read_i64
read_i64-Safe n bs h = bind-Safe n (read_u64 bs) _ (read_u64-Safe n bs h) (λ x rest k. k)

pub read_i128-Safe : SafeReader read_i128
unfolding read_i128
read_i128-Safe n bs h = bind-Safe n (read_bytes 16 bs) _ (read_bytes-Safe 16 n bs h) (λ x rest k. k)

pub read_f32-Safe : SafeReader read_f32
unfolding read_f32
read_f32-Safe n bs h = bind-Safe n (read_bytes 4 bs) _ (read_bytes-Safe 4 n bs h) (λ x rest k. k)

pub read_f64-Safe : SafeReader read_f64
unfolding read_f64
read_f64-Safe n bs h = bind-Safe n (read_bytes 8 bs) _ (read_bytes-Safe 8 n bs h) (λ x rest k. k)

pub read_len_prefixed_bytes-Safe : SafeReader read_len_prefixed_bytes
unfolding read_len_prefixed_bytes
read_len_prefixed_bytes-Safe n bs h =
    bind-Safe n (read_u32 bs) _ (read_u32-Safe n bs h) (λ len rest k. read_bytes-Safe len n rest k)

pub read_string-Safe : SafeReader read_string
unfolding read_string
read_string-Safe n bs h =
    bind-Safe n (read_len_prefixed_bytes bs) _ (read_len_prefixed_bytes-Safe n bs h)
      (λ s rest k. if-Safe n (is_utf8 s) _ _ k (λ e. cc))
