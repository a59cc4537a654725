-- ===== src/ExprIr/RoundTrip/Literals.antt =====
-- Literals and cast types: the bytes of EncodeLiteral and EncodeTypeHint, read by parse_literal and
-- parse_type.
use lance_duckdb.Common.{
  ℕ, ◌^◌, ◌<◌, ◌≡◌, refl, ◌++◌, Bytes, true, false, not, [], ◌∷◌, ltb, ok, >>=-eq-ok, append-nil,
  arith, throw_if-ok, not_implemented, ok-injective, ap, sym, ◌∙◌,
}
use lance_duckdb.Common.Int.{ℤ, pos, IsSigned, of_word}
use lance_duckdb.Wire.Writer.{
  append_u8, append_u32, append_i32, append_i64, append_u64, append_f32, append_f64, append_i128,
  append_len_prefixed_string,
}
use lance_duckdb.Wire.Reader.{
  read_u8, read_i64, read_u64, read_f32, read_f64, read_i32, read_i128, is_utf8, read_string,
}
use lance_duckdb.Wire.Words.{
  read_i64-append_i64, read_u64-append_u64, read_f32-append_f32, read_f64-append_f64,
  read_i32-append_i32, read_i128-append_i128,
}
use lance_duckdb.Wire.Frames.{Fits, frame, append_len_prefixed_inv, read_string-frame}
use lance_duckdb.ExprIr.Types.{
  TimestampType, LogicalType, Value, DuckDb, tiny, plain, sec, ms, ns, tz, DataType, Expr,
}
use lance_duckdb.ExprIr.Literals.{
  timestamp_unit, decimal_value, encode_literal, signed_tag, unsigned_tag, encode_type_hint,
}
use lance_duckdb.ExprIr.RoundTrip.Decimals.{decimal_value-decimal_number}
use lance_duckdb.ExprIr.RoundTrip.Values.{
  IsDuckDb, IsValue, unit_of, scalar_of, decimal_value-range,
}
use lance_duckdb.ExprIr.Parser.{parse_literal, parse_type, parse_unit}

parse_unit-timestamp_unit : (t : TimestampType) → parse_unit (timestamp_unit t) ≡ ok (unit_of t)
unfolding parse_unit timestamp_unit unit_of
parse_unit-timestamp_unit sec = refl
parse_unit-timestamp_unit ms = refl
parse_unit-timestamp_unit ns = refl
parse_unit-timestamp_unit plain = refl
parse_unit-timestamp_unit tz = refl

as_i8_small : (scale : ℕ) → ltb 127 scale ≡ false → of_word 128 scale ≡ pos scale
unfolding of_word
as_i8_small scale h = ground arith

-- A word with nothing behind it.
read_i64_all : (v : ℤ) → IsSigned (2 ^ 63) v → read_i64 (append_i64 [] v) ≡ ok (v, [])
read_i64_all v h = ap read_i64 (sym (append-nil _)) ∙ read_i64-append_i64 v [] h

read_u64_all : (v : ℕ) → v < 2 ^ 64 → read_u64 (append_u64 [] v) ≡ ok (v, [])
read_u64_all v h = ap read_u64 (sym (append-nil _)) ∙ read_u64-append_u64 v [] h

read_f32_all : (v : ℕ) → v < 2 ^ 32 → read_f32 (append_f32 [] v) ≡ ok (v, [])
read_f32_all v h = ap read_f32 (sym (append-nil _)) ∙ read_f32-append_f32 v [] h

read_f64_all : (v : ℕ) → v < 2 ^ 64 → read_f64 (append_f64 [] v) ≡ ok (v, [])
read_f64_all v h = ap read_f64 (sym (append-nil _)) ∙ read_f64-append_f64 v [] h

read_i32_all : (v : ℤ) → IsSigned (2 ^ 31) v → read_i32 (append_i32 [] v) ≡ ok (v, [])
read_i32_all v h = ap read_i32 (sym (append-nil _)) ∙ read_i32-append_i32 v [] h

read_i128_all : (v : ℤ) → IsSigned (2 ^ 127) v → read_i128 (append_i128 [] v) ≡ ok (v, [])
read_i128_all v h = ap read_i128 (sym (append-nil _)) ∙ read_i128-append_i128 v [] h

read_string_all : (s : Bytes) → Fits s → is_utf8 s ≡ true → read_string (frame s) ≡ ok (s, [])
read_string_all s h u = ap read_string (sym (append-nil _)) ∙ read_string-frame s [] h u

module _ (db : DuckDb) (laws : IsDuckDb db) where
  -- A value in the range of its type that is encoded as a literal: its bytes begin with the tag
  -- LITERAL, and behind it they are parsed as the DataFusion scalar for the value, with nothing left.
  pub parse_literal-encode :
      (v : Value) {out : Bytes}
      → IsValue v
      → encode_literal db v ≡ ok out
      → (body : Bytes) × (out ≡ 2 ∷ body)
        × (parse_literal body ≡ ok (Expr.literal (scalar_of db v), []))
  unfolding encode_literal append_u8 append_len_prefixed_string scalar_of parse_literal read_u8
  parse_literal-encode (Value.null t) i h = (0 ∷ [], cc, refl)
  parse_literal-encode (Value.boolean true) i h = (1 ∷ 1 ∷ [], cc, refl)
  parse_literal-encode (Value.boolean false) i h = (1 ∷ 0 ∷ [], cc, refl)
  parse_literal-encode (Value.signed size z) i h =
      (2 ∷ append_i64 [] z, unfold append_i64 append_u64 in cc, simp (read_i64_all z i))
  parse_literal-encode (Value.unsigned size n) i h =
      (3 ∷ append_u64 [] n, unfold append_u64 in cc, simp (read_u64_all n i))
  parse_literal-encode (Value.float bits) i h =
      (4 ∷ append_f32 [] bits, unfold append_f32 append_u32 in cc, simp (read_f32_all bits i))
  parse_literal-encode (Value.double bits) i h =
      (5 ∷ append_f64 [] bits, unfold append_f64 append_u64 in cc, simp (read_f64_all bits i))
  parse_literal-encode (Value.varchar s) i h =
      let (fits, e) = append_len_prefixed_inv (2 ∷ 6 ∷ []) s h in
      (6 ∷ frame s, e, simp (read_string_all s fits i))
  parse_literal-encode (Value.date days) i h =
      let (_, e) = throw_if-ok (not (db.date_is_finite days)) not_implemented _ h in
      (7 ∷ append_i32 [] days, unfold append_i32 append_u32 in (cc e), simp (read_i32_all days i))
  parse_literal-encode (Value.timestamp t z) i h =
      let (_, e) = throw_if-ok (not (db.timestamp_is_finite z)) not_implemented _ h in
      (
        8 ∷ timestamp_unit t ∷ append_i64 [] z,
        unfold append_i64 append_u64 in (cc e),
        simp (read_i64_all z i, parse_unit-timestamp_unit t),
      )
  parse_literal-encode (Value.decimal width scale text) i h =
      let (small_scale, h₁) = throw_if-ok (ltb 127 scale) not_implemented _ h in
      let (z, valued, e) = >>=-eq-ok (decimal_value db scale text) _ h₁ in
      (
        9 ∷ width ∷ scale ∷ append_i128 [] z,
        unfold append_i128 append_u64 in (cc e),
        simp (
          read_i128_all z (decimal_value-range db laws scale text valued),
          as_i8_small scale small_scale,
          sym (decimal_value-decimal_number db scale text valued),
        ),
      )
  parse_literal-encode (Value.other t) i h = cc

-- The Arrow type of a cast's target.
unfoldable pub data_type_of : LogicalType → DataType
data_type_of LogicalType.boolean = DataType.boolean
data_type_of (LogicalType.signed size) = DataType.int size
data_type_of (LogicalType.unsigned size) = DataType.uint size
data_type_of LogicalType.float = DataType.float32
data_type_of LogicalType.double = DataType.float64
data_type_of LogicalType.varchar = DataType.utf8
data_type_of LogicalType.date = DataType.date32
data_type_of (LogicalType.timestamp t) = DataType.timestamp (unit_of t)
data_type_of (LogicalType.decimal width scale) = DataType.decimal128 width (pos scale)
data_type_of LogicalType.struct = DataType.boolean
data_type_of LogicalType.other = DataType.boolean

-- A type hint is read back as its Arrow type, with what follows left over.
pub parse_type-encode :
    (t : LogicalType) (rest : Bytes) {out : Bytes}
    → encode_type_hint t ≡ ok out
    → parse_type (out ++ rest) ≡ ok (data_type_of t, rest)
unfolding encode_type_hint append_u8 data_type_of parse_type read_u8 signed_tag unsigned_tag
parse_type-encode LogicalType.struct rest h = cc
parse_type-encode LogicalType.other rest h = cc
parse_type-encode (LogicalType.timestamp t) rest h =
    rw (← ok-injective h) (simp (parse_unit-timestamp_unit t))
parse_type-encode (LogicalType.decimal width scale) rest h =
    let (small_scale, e) = throw_if-ok (ltb 127 scale) not_implemented _ h in
    rw (← ok-injective e) (simp (as_i8_small scale small_scale))
parse_type-encode (LogicalType.signed tiny) rest h = rw (← ok-injective h)
parse_type-encode (LogicalType.unsigned tiny) rest h = rw (← ok-injective h)
parse_type-encode _ rest h = rw (← ok-injective h)
