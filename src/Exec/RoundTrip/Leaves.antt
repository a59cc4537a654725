-- ===== src/Exec/RoundTrip/Leaves.antt =====
-- Numbers, strings, type hints and literals.
use lance_duckdb.Common.{
  ℕ, ◌^◌, ◌<◌, ◌≡◌, refl, sym, Bytes, true, false, [], ◌∷◌, ◌++◌, length, ltb, ◌||◌, ok,
  throw_if-ok, >>=-eq-ok, or_throw-ok, ok-injective, arith, invalid_input,
}
use lance_duckdb.Common.Int.{ℤ, IsSigned}
use lance_duckdb.Wire.Reader.{
  Reader, is_utf8, read_u8, read_u32, read_u64, read_i64, read_i128, read_string,
}
use lance_duckdb.Wire.Writer.{u32_max, append_u32, append_u64, append_i64, append_i128}
use lance_duckdb.Wire.Words.{
  read_u32-append_u32, read_u64-append_u64, read_i64-append_i64, read_i128-append_i128,
}
use lance_duckdb.Wire.Frames.{frame, read_string-frame}
use lance_duckdb.ExprIr.Types.{LogicalType, big, plain}
use lance_duckdb.Exec.Types.{
  declined, thrown, cast_failed, Value, DuckDb, OutputTypeHint, LiteralIr,
}
use lance_duckdb.Exec.Write.{
  write_u8, write_u32, write_u64, write_i64, write_f64, write_hugeint, write_string,
  try_encode_output_type_hint, try_encode_exec_literal,
}
use lance_duckdb.Exec.Parser.{hint_of_tag, parse_output_type_hint, literal_of_tag, parse_literal_ir}
use lance_duckdb.Exec.Meaning.{hint_meaning, literal_meaning, IsValue, IsDuckDb}

-- The reader takes these bytes, and leaves what follows.
abbrev pub Takes {ℓ} : {A : Type ℓ} → Reader A → Bytes → A → Type ℓ
Takes read bytes x = (rest : Bytes) → read (bytes ++ rest) ≡ ok (x, rest)

pub write_u32-Takes : (v : ℕ) → v < 2 ^ 32 → Takes read_u32 (write_u32 v) v
unfolding write_u32 append_u32
write_u32-Takes v h rest = read_u32-append_u32 v rest h

pub write_string-Takes :
    (s : Bytes) {bytes : Bytes}
    → is_utf8 s ≡ true
    → write_string s ≡ ok bytes
    → Takes read_string bytes s
unfolding write_string write_u32 frame append_u32
write_string-Takes s u h rest =
    let (few, k) = throw_if-ok (ltb u32_max (length s)) (thrown invalid_input) _ h in
    rw (← ok-injective k) (read_string-frame s rest (ground arith) u)

pub write_i64-Takes : (z : ℤ) → IsSigned (2 ^ 63) z → Takes read_i64 (write_i64 z) z
unfolding write_i64 write_u64 append_i64 append_u64
write_i64-Takes z h rest = read_i64-append_i64 z rest h

pub write_f64-Takes : (v : ℕ) → v < 2 ^ 64 → Takes read_u64 (write_f64 v) v
unfolding write_f64 write_u64 append_u64
write_f64-Takes v h rest = read_u64-append_u64 v rest h

pub write_hugeint-Takes : (z : ℤ) → IsSigned (2 ^ 127) z → Takes read_i128 (write_hugeint z) z
unfolding write_hugeint write_u64 append_i128 append_u64
write_hugeint-Takes z h rest = read_i128-append_i128 z rest h

-- The bytes of a type hint.
pub hint-Takes :
    (type : LogicalType) {bytes : Bytes}
    → try_encode_output_type_hint type ≡ ok bytes
    → (hint : OutputTypeHint) × (hint_meaning type ≡ ok hint)
      × Takes parse_output_type_hint bytes hint
unfolding try_encode_output_type_hint hint_meaning parse_output_type_hint hint_of_tag read_u8
    write_u8
hint-Takes LogicalType.boolean h = (OutputTypeHint.bool, refl, λ rest. rw (← ok-injective h))
hint-Takes (LogicalType.signed big) h = (OutputTypeHint.int64, refl, λ rest. rw (← ok-injective h))
hint-Takes LogicalType.double h = (OutputTypeHint.double, refl, λ rest. rw (← ok-injective h))
hint-Takes LogicalType.date h = (OutputTypeHint.date, refl, λ rest. rw (← ok-injective h))
hint-Takes (LogicalType.timestamp plain) h =
    (OutputTypeHint.timestamp_us, refl, λ rest. rw (← ok-injective h))
hint-Takes LogicalType.varchar h = (OutputTypeHint.utf8, refl, λ rest. rw (← ok-injective h))
hint-Takes (LogicalType.decimal width scale) h =
    let (_, k) = throw_if-ok (ltb 255 width || ltb 255 scale) declined _ h in
    (OutputTypeHint.decimal width scale, refl, λ rest. rw (← ok-injective k))
hint-Takes _ h = cc

-- A literal is the tag LITERAL, and bytes that are read as its value.
pub literal-Takes :
    (db : DuckDb) (laws : IsDuckDb db) (v : Value) {bytes : Bytes}
    → IsValue v
    → try_encode_exec_literal db v ≡ ok bytes
    → (l : LiteralIr) × (body : Bytes) × (literal_meaning db v ≡ ok l)
      × (bytes ≡ 2 ∷ body)
      × Takes parse_literal_ir body l
unfolding try_encode_exec_literal literal_meaning parse_literal_ir literal_of_tag read_u8 write_u8
literal-Takes db laws Value.null i h =
    (LiteralIr.null, 0 ∷ [], refl, sym (ok-injective h), λ rest. refl)
literal-Takes db laws (Value.integer z) i h =
    let (w, e, k) = or_throw-ok (db.to_bigint z) cast_failed _ h in
    let (same, range) = laws.bigint_same z e in
    (
      LiteralIr.int64 z,
      1 ∷ write_i64 w,
      refl,
      sym (ok-injective k),
      λ rest. rw (write_i64-Takes w range rest) (rw same),
    )
literal-Takes db laws (Value.double bits) i h = (
  LiteralIr.double bits,
  2 ∷ write_f64 bits,
  refl,
  sym (ok-injective h),
  λ rest. rw (write_f64-Takes bits i rest),
)
literal-Takes db laws (Value.float bits) i h = (
  LiteralIr.double (db.float_to_double bits),
  2 ∷ write_f64 (db.float_to_double bits),
  refl,
  sym (ok-injective h),
  λ rest. rw (write_f64-Takes (db.float_to_double bits) (laws.double_range bits) rest),
)
literal-Takes db laws (Value.boolean true) i h =
    (LiteralIr.bool true, 3 ∷ 1 ∷ [], refl, sym (ok-injective h), λ rest. refl)
literal-Takes db laws (Value.boolean false) i h =
    (LiteralIr.bool false, 3 ∷ 0 ∷ [], refl, sym (ok-injective h), λ rest. refl)
literal-Takes db laws (Value.varchar s) i h =
    let (text, e, k) = >>=-eq-ok (write_string s) _ h in
    (
      LiteralIr.string s,
      4 ∷ text,
      refl,
      sym (ok-injective k),
      λ rest. rw (write_string-Takes s i e rest),
    )
literal-Takes db laws (Value.decimal width scale dec) i h =
    let (_, k) = throw_if-ok (ltb 255 width || ltb 255 scale) declined _ h in
    (
      LiteralIr.decimal128 dec width scale,
      5 ∷ width ∷ scale ∷ write_hugeint dec,
      refl,
      sym (ok-injective k),
      λ rest. rw (write_hugeint-Takes dec i rest),
    )
literal-Takes db laws Value.other i h = cc
