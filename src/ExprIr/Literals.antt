-- ===== src/ExprIr/Literals.antt =====
-- src/lance_expr_ir.cpp: EncodeLiteral, EncodeTypeHint and the predicate on logical types. The
-- out-parameter is the result: each of these functions clears it first.
use lance_duckdb.Common.{
  ℕ, zero, suc, ◌-◌, ◌+◌, Bytes, Bool, true, false, [], ◌∷◌, ltb, leb, ◌==◌, ◌||◌, if◌then◌else◌,
  Result, ok, err, ◌>>=◌, ◌>>◌, throw_if, Exception, not_implemented, not,
}
use lance_duckdb.Common.Int.{ℤ, pos}
use lance_duckdb.Wire.Writer.{
  append_u8, append_i32, append_i64, append_u64, append_f32, append_f64, append_i128,
  append_len_prefixed_string,
}
use lance_duckdb.ExprIr.Types.{
  IntSize, TimestampType, LogicalType, Value, DuckDb, tiny, small, whole, big, plain, sec, ms, ns,
  tz,
}

unfoldable pub supports_logical_type : LogicalType → Bool
supports_logical_type LogicalType.other = false
supports_logical_type _ = true

-- LanceUpdateExprIRTimestampUnit of a timestamp type.
unfoldable pub timestamp_unit : TimestampType → ℕ
timestamp_unit sec = 0
timestamp_unit ms = 1
timestamp_unit ns = 3
timestamp_unit plain = 2
timestamp_unit tz = 2

-- A decimal's text while it is read: the digits so far, whether the dot was seen, and how many digits
-- stood behind it.
pub record DecimalScan : Type 0 where
  pub acc : ℤ
  pub seen_dot : Bool
  pub frac_digits : ℕ

module _ (db : DuckDb) where
  open db use {hugeint_mul, hugeint_add, hugeint_neg}

  unfoldable pub scan_digit : ℕ → ℕ → DecimalScan → Result Exception DecimalScan
  scan_digit scale c s =
      let acc' = hugeint_add (hugeint_mul s.acc (pos 10)) (pos (c - b'0')) in
      if s.seen_dot
      then (if leb scale s.frac_digits
          then err not_implemented
          else ok (record s { acc = acc'; frac_digits = s.frac_digits + 1 }))
      else ok (record s { acc = acc' })

  -- One round of the loop over the text.
  unfoldable pub scan_char : ℕ → ℕ → DecimalScan → Result Exception DecimalScan
  unfolding scan_digit
  scan_char scale c s =
      if c == b'.'
      then (if s.seen_dot then err not_implemented else ok (record s { seen_dot = true }))
      else if ltb c b'0' || ltb b'9' c
      then err not_implemented
      else scan_digit scale c s

  unfoldable pub scan_decimal : ℕ → Bytes → DecimalScan → Result Exception DecimalScan
  scan_decimal scale [] s = ok s
  scan_decimal scale (c ∷ text) s = do s' ← scan_char scale c s; scan_decimal scale text s'

  -- `while (frac_digits < scale_u8)`, by the rounds that are left.
  unfoldable pub pad_decimal : ℕ → ℤ → ℤ
  pad_decimal zero acc = acc
  pad_decimal (suc rounds) acc = pad_decimal rounds (hugeint_mul acc (pos 10))

  unfoldable pub decimal_digits : ℕ → Bytes → Result Exception ℤ
  decimal_digits scale text = do
    s ← scan_decimal scale text (record { acc = pos 0; seen_dot = false; frac_digits = 0 })
    ok (pad_decimal (scale - s.frac_digits) s.acc)

  -- The sign, and then the digits.
  unfoldable pub decimal_value : ℕ → Bytes → Result Exception ℤ
  decimal_value scale [] = decimal_digits scale []
  decimal_value scale (c ∷ text) =
      if c == b'-'
      then (do acc ← decimal_digits scale text; ok (hugeint_neg acc))
      else if c == b'+'
      then decimal_digits scale text
      else decimal_digits scale (c ∷ text)

  -- Each clause begins with the tag LITERAL = 2 and the tag of the value's kind.
  unfoldable pub encode_literal : Value → Result Exception Bytes
  encode_literal (Value.null type) = ok (append_u8 (append_u8 [] 2) 0)
  encode_literal (Value.boolean b) =
      ok (append_u8 (append_u8 (append_u8 [] 2) 1) (if b then 1 else 0))
  encode_literal (Value.signed size v) = ok (append_i64 (append_u8 (append_u8 [] 2) 2) v)
  encode_literal (Value.unsigned size v) = ok (append_u64 (append_u8 (append_u8 [] 2) 3) v)
  encode_literal (Value.float bits) = ok (append_f32 (append_u8 (append_u8 [] 2) 4) bits)
  encode_literal (Value.double bits) = ok (append_f64 (append_u8 (append_u8 [] 2) 5) bits)
  encode_literal (Value.varchar s) = append_len_prefixed_string (append_u8 (append_u8 [] 2) 6) s
  encode_literal (Value.date days) = do
    throw_if (not (db.date_is_finite days)) not_implemented
    ok (append_i32 (append_u8 (append_u8 [] 2) 7) days)
  encode_literal (Value.timestamp type v) = do
    throw_if (not (db.timestamp_is_finite v)) not_implemented
    ok (append_i64 (append_u8 (append_u8 (append_u8 [] 2) 8) (timestamp_unit type)) v)
  encode_literal (Value.decimal width scale text) = do
    throw_if (ltb 127 scale) not_implemented
    dec ← decimal_value scale text
    ok (append_i128 (append_u8 (append_u8 (append_u8 (append_u8 [] 2) 9) width) scale) dec)
  encode_literal (Value.other type) = err not_implemented

unfoldable pub signed_tag : IntSize → ℕ
signed_tag tiny = 2
signed_tag small = 3
signed_tag whole = 4
signed_tag big = 5

unfoldable pub unsigned_tag : IntSize → ℕ
unsigned_tag tiny = 6
unsigned_tag small = 7
unsigned_tag whole = 8
unsigned_tag big = 9

unfoldable pub encode_type_hint : LogicalType → Result Exception Bytes
encode_type_hint LogicalType.boolean = ok (append_u8 [] 1)
encode_type_hint (LogicalType.signed size) = ok (append_u8 [] (signed_tag size))
encode_type_hint (LogicalType.unsigned size) = ok (append_u8 [] (unsigned_tag size))
encode_type_hint LogicalType.float = ok (append_u8 [] 10)
encode_type_hint LogicalType.double = ok (append_u8 [] 11)
encode_type_hint LogicalType.varchar = ok (append_u8 [] 12)
encode_type_hint LogicalType.date = ok (append_u8 [] 13)
encode_type_hint (LogicalType.timestamp type) =
    ok (append_u8 (append_u8 [] 14) (timestamp_unit type))
encode_type_hint (LogicalType.decimal width scale) = do
  throw_if (ltb 127 scale) not_implemented
  ok (append_u8 (append_u8 (append_u8 [] 15) width) scale)
encode_type_hint LogicalType.struct = err not_implemented
encode_type_hint LogicalType.other = err not_implemented
