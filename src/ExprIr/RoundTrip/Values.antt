-- ===== src/ExprIr/RoundTrip/Values.antt =====
-- The DataFusion value that a DuckDB value stands for, the values that the C++ types can hold, and
-- what is asked of DuckDB.
use lance_duckdb.Common.{
  ℕ, zero, suc, ◌-◌, ◌^◌, ◌<◌, ◌≡◌, Bytes, true, [], ◌∷◌, ◌==◌, ok, >>=-eq-ok, arith, Bool-cases,
  ◌⊎◌, subst, ok-injective, inl, inr,
}
use lance_duckdb.Common.Int.{ℤ, pos, IsSigned}
use lance_duckdb.Wire.Reader.{is_utf8}
use lance_duckdb.ExprIr.Types.{
  TimestampType, Value, DuckDb, plain, sec, ms, ns, tz, TimeUnit, second, millisecond, microsecond,
  nanosecond, ScalarValue,
}
use lance_duckdb.ExprIr.Literals.{
  DecimalScan, scan_decimal, scan_char, pad_decimal, decimal_digits, decimal_value,
}
use lance_duckdb.ExprIr.RoundTrip.Decimals.{decimal_number}

-- What the code relies on of DuckDB: a hugeint_t has 128 bits, and lower case keeps a text valid.
pub record IsDuckDb (db : DuckDb) : Type 0 where
  pub mul_range : (a b : ℤ) → IsSigned (2 ^ 127) (db.hugeint_mul a b)
  pub add_range : (a b : ℤ) → IsSigned (2 ^ 127) (db.hugeint_add a b)
  pub neg_range : (a : ℤ) → IsSigned (2 ^ 127) (db.hugeint_neg a)
  pub lower_utf8 : (s : Bytes) → is_utf8 s ≡ true → is_utf8 (db.lower s) ≡ true

-- A value lies in the range of its C++ type, and a VARCHAR is valid UTF-8.
abbrev pub IsValue : Value → Type 0
IsValue (Value.null t) = Unit
IsValue (Value.boolean b) = Unit
IsValue (Value.signed size z) = IsSigned (2 ^ 63) z
IsValue (Value.unsigned size n) = n < 2 ^ 64
IsValue (Value.float bits) = bits < 2 ^ 32
IsValue (Value.double bits) = bits < 2 ^ 64
IsValue (Value.varchar s) = is_utf8 s ≡ true
IsValue (Value.date z) = IsSigned (2 ^ 31) z
IsValue (Value.timestamp t z) = IsSigned (2 ^ 63) z
IsValue (Value.decimal width scale text) = Unit
IsValue (Value.other t) = Unit

unfoldable pub unit_of : TimestampType → TimeUnit
unit_of sec = second
unit_of ms = millisecond
unit_of ns = nanosecond
unit_of plain = microsecond
unit_of tz = microsecond

-- The DataFusion value that a DuckDB value stands for.
unfoldable pub scalar_of : DuckDb → Value → ScalarValue
scalar_of db (Value.null t) = ScalarValue.null
scalar_of db (Value.boolean b) = ScalarValue.boolean b
scalar_of db (Value.signed size z) = ScalarValue.int64 z
scalar_of db (Value.unsigned size n) = ScalarValue.uint64 n
scalar_of db (Value.float bits) = ScalarValue.float32 bits
scalar_of db (Value.double bits) = ScalarValue.float64 bits
scalar_of db (Value.varchar s) = ScalarValue.utf8 s
scalar_of db (Value.date z) = ScalarValue.date32 z
scalar_of db (Value.timestamp t z) = ScalarValue.timestamp (unit_of t) z
scalar_of db (Value.decimal width scale text) =
    ScalarValue.decimal128 (decimal_number db scale text) width (pos scale)
scalar_of db (Value.other t) = ScalarValue.null

module _ (db : DuckDb) (laws : IsDuckDb db) where
  pad_decimal-range :
      (rounds : ℕ) (acc : ℤ)
      → IsSigned (2 ^ 127) acc
      → IsSigned (2 ^ 127) (pad_decimal db rounds acc)
  unfolding pad_decimal
  pad_decimal-range zero acc h = h
  pad_decimal-range (suc n) acc h = pad_decimal-range n _ (laws.mul_range acc (pos 10))

  scan_char-acc :
      (scale c : ℕ) (s : DecimalScan) {s' : DecimalScan}
      → scan_char db scale c s ≡ ok s'
      → (s'.acc ≡ s.acc)
        ⊎ (s'.acc ≡ db.hugeint_add (db.hugeint_mul s.acc (pos 10)) (pos (c - b'0')))
  unfolding scan_char
  scan_char-acc scale c s h = ground arith

  scan_char-range :
      (scale c : ℕ) (s : DecimalScan) {s' : DecimalScan}
      → scan_char db scale c s ≡ ok s'
      → IsSigned (2 ^ 127) s.acc
      → IsSigned (2 ^ 127) s'.acc
  scan_char-range scale c s h r = elim (scan_char-acc scale c s h) [
    | inl e ↦ rw e r
    | inr e ↦ rw e (laws.add_range _ _)
  ]

  scan_decimal-range :
      (scale : ℕ) (text : Bytes) (s : DecimalScan) {s' : DecimalScan}
      → scan_decimal db scale text s ≡ ok s'
      → IsSigned (2 ^ 127) s.acc
      → IsSigned (2 ^ 127) s'.acc
  unfolding scan_decimal
  scan_decimal-range scale [] s h r =
      subst (λ (t : DecimalScan). IsSigned (2 ^ 127) t.acc) (ok-injective h) r
  scan_decimal-range scale (c ∷ text) s h r =
      let (s₁, first, rest) = >>=-eq-ok (scan_char db scale c s) _ h in
      scan_decimal-range scale text s₁ rest (scan_char-range scale c s first r)

  decimal_digits-range :
      (scale : ℕ) (text : Bytes) {z : ℤ}
      → decimal_digits db scale text ≡ ok z
      → IsSigned (2 ^ 127) z
  unfolding decimal_digits
  decimal_digits-range scale text h =
      let (s, scanned, e) = >>=-eq-ok (scan_decimal db scale text _) _ h in
      subst (IsSigned (2 ^ 127)) (ok-injective e) (
        pad_decimal-range (scale - s.frac_digits) s.acc
          (scan_decimal-range scale text _ scanned (omega arith)))

  pub decimal_value-range :
      (scale : ℕ) (text : Bytes) {z : ℤ} → decimal_value db scale text ≡ ok z → IsSigned (2 ^ 127) z
  unfolding decimal_value
  decimal_value-range scale [] h = decimal_digits-range scale [] h
  decimal_value-range scale (c ∷ text) h = elim (Bool-cases (c == b'-')) [
    | inl minus ↦
        let (acc, _, e) = >>=-eq-ok (decimal_digits db scale text) _ (rw minus at h) in
        subst (IsSigned (2 ^ 127)) (ok-injective e) (laws.neg_range acc)
    | inr no_minus ↦ elim (Bool-cases (c == b'+')) [
      | inl plus ↦ decimal_digits-range scale text (rw (no_minus, plus) at h)
      | inr no_plus ↦ decimal_digits-range scale (c ∷ text) (rw (no_minus, no_plus) at h)
    ]
  ]
