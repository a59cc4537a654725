-- ===== src/ExprIr/RoundTrip/Columns.antt =====
-- Column references: a path of names, which becomes a column with field accesses around it.
use lance_duckdb.Common.{
  ◌≤◌, ◌≡◌, refl, Bytes, true, List, [], ◌∷◌, length, All, ◌==◌, ltb, ok, arith, throw_if-ok,
  not_implemented, invalid_input,
}
use lance_duckdb.Wire.Writer.{append_u8, u32_max}
use lance_duckdb.Wire.Reader.{is_utf8}
use lance_duckdb.Wire.Frames.{Fits, frames, read_string-frame}
use lance_duckdb.ExprIr.Types.{Expr}
use lance_duckdb.ExprIr.Nodes.{any_empty, encode_column_ref}
use lance_duckdb.ExprIr.Parser.{read_strings, nest_fields, parse_column_ref}
use lance_duckdb.ExprIr.RoundTrip.Nodes.{counted, counted_inv, read_count, suc-ne-zero}

abbrev pub IsUtf8 : Bytes → Type 0
IsUtf8 s = is_utf8 s ≡ true

encode_column_ref_inv :
    (segments : List Bytes) {out : Bytes}
    → encode_column_ref segments ≡ ok out
    → (length segments ≤ u32_max) × All Fits segments × (out ≡ 1 ∷ counted segments)
unfolding encode_column_ref append_u8
encode_column_ref_inv segments h =
    let (_, h₁) = throw_if-ok (length segments == 0) not_implemented _ h in
    let (_, h₂) = throw_if-ok (any_empty segments) not_implemented _ h₁ in
    let (few, h₃) = throw_if-ok (ltb u32_max (length segments)) invalid_input _ h₂ in
    let (fits, e) = counted_inv (1 ∷ []) segments h₃ in (ground arith, fits, e)

read_strings-frames :
    (ss : List Bytes)
    → All Fits ss
    → All IsUtf8 ss
    → read_strings (length ss) (frames ss) ≡ ok (ss, [])
unfolding read_strings frames
read_strings-frames [] fits u = refl
read_strings-frames (s ∷ ss) (f, fits) (v, u) =
    simp (read_string-frame s (frames ss) f v, read_strings-frames ss fits u)

-- The bytes of a column reference behind its COLUMN_REF tag.
pub parse_column_ref-encode :
    (s : Bytes) (ss : List Bytes) {out : Bytes}
    → All IsUtf8 (s ∷ ss)
    → encode_column_ref (s ∷ ss) ≡ ok out
    → (body : Bytes) × (out ≡ 1 ∷ body)
      × (parse_column_ref body ≡ ok (nest_fields (Expr.column s) ss, []))
unfolding parse_column_ref
parse_column_ref-encode s ss u h =
    let (few, fits, e) = encode_column_ref_inv (s ∷ ss) h in
    (
      counted (s ∷ ss),
      e,
      simp (read_count (s ∷ ss) few, suc-ne-zero (length ss), read_strings-frames (s ∷ ss) fits u),
    )
