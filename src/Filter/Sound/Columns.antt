-- ===== src/Filter/Sound/Columns.antt =====
-- A column reference is encoded as the chain of field accesses that its path says.
use lance_duckdb.Common.{
  ℕ, zero, suc, ◌+◌, ◌%◌, ◌/◌, ◌<◌, ◌≡◌, refl, Bytes, Bool, true, false, List, [], ◌∷◌, none, some,
  get_elem?, not, if◌then◌else◌, All, ◌⊎◌, inl, inr, Result, ok, err, >>=-eq-ok, or_throw-ok, arith,
}
use mathlib.Core.Option.{some-injective}
use lance_duckdb.Cache.Keys.{to_string, decimal_from}
use lance_duckdb.Wire.Reader.{ParseError, bad_tag, is_utf8}
use lance_duckdb.ExprIr.Types.{DuckDb, Expr}
use lance_duckdb.ExprIr.Literals.{supports_logical_type}
use lance_duckdb.ExprIr.Parser.{Session, nest_fields}
use lance_duckdb.ExprIr.RoundTrip.Columns.{IsUtf8}
use lance_duckdb.ExprIr.Exports.{Built}
use lance_duckdb.Filter.Types.{
  declined, ColumnType, Fields, logical_type, nth_field, LogicalGet, Table, Expression, Casts,
}
use lance_duckdb.Filter.Columns.{build_segments, is_computed_search_column, try_build_column_ref_ir}
use lance_duckdb.Filter.Place.{place_of, build_segments-place_of}
use lance_duckdb.Filter.Sound.Constants.{attempt-ok, require-ok, Builds}
use lance_duckdb.Filter.Sound.Paths.{IsPath, build_segments-NamesColumn}

abbrev IsAscii : Bytes → Type 0
IsAscii s = All (λ (b : ℕ). b < 128) s

IsAscii-utf8 : (s : Bytes) → IsAscii s → is_utf8 s ≡ true
unfolding is_utf8
IsAscii-utf8 [] a = refl
IsAscii-utf8 (b ∷ s) a = ground (arith, IsAscii-utf8 s a.1)

decimal_from-IsAscii :
    (rounds n : ℕ) (tail : Bytes) → IsAscii tail → IsAscii (decimal_from rounds n tail)
unfolding decimal_from
decimal_from-IsAscii zero n tail a = (omega arith, a)
decimal_from-IsAscii (suc rounds) n tail a =
    ground (arith, decimal_from-IsAscii rounds (n / 10) ((b'0' + n % 10) ∷ tail) (omega arith, a))

to_string_utf8 : (n : ℕ) → is_utf8 (to_string n) ≡ true
unfolding to_string
to_string_utf8 n = IsAscii-utf8 _ (decimal_from-IsAscii n n [] tt)

-- The names of the fields of a struct, at every depth, are valid UTF-8.
unfoldable mutual
  pub IsTyped : ColumnType → Type 0
  IsTyped (ColumnType.plain type) = Unit
  IsTyped (ColumnType.struct fields) = AreFields fields

  pub AreFields : Fields → Type 0
  AreFields Fields.end = Unit
  AreFields (Fields.field name type rest) = IsUtf8 name × IsTyped type × AreFields rest

pub record IsTable (table : Table) : Type 0 where
  pub names_utf8 : All IsUtf8 table.names
  pub fields_utf8 : All IsTyped table.types

pub All-get_elem {ℓ κ} :
    {A : Type ℓ} (P : A → Type κ) (xs : List A) (i : ℕ) {x : A}
    → All P xs
    → get_elem? xs i ≡ some x
    → P x
All-get_elem P [] i a h = cc
All-get_elem P (y ∷ ys) zero a h = rw (← some-injective _ _ h) a.0
All-get_elem P (y ∷ ys) (suc i) a h = All-get_elem P ys i a.1 h

nth_field-IsTyped :
    (fields : Fields) (i : ℕ) {p : Bytes × ColumnType}
    → AreFields fields
    → nth_field fields i ≡ some p
    → IsUtf8 p.0 × IsTyped p.1
unfolding nth_field AreFields
nth_field-IsTyped Fields.end i v h = cc
nth_field-IsTyped (Fields.field name type rest) zero v h = rw (← some-injective _ _ h) (v.0, v.1)
nth_field-IsTyped (Fields.field name type rest) (suc i) v h = nth_field-IsTyped rest i v.2 h

IsPath-IsUtf8 :
    {type leaf : ColumnType} {segments : List Bytes}
    → IsTyped type
    → IsPath type segments leaf
    → All IsUtf8 segments
unfolding IsTyped
IsPath-IsUtf8 v (IsPath.here t) = tt
IsPath-IsUtf8 v
      (IsPath.below {fields = fields} {segment = segment} {type = type} (i, name, e, named) rest) =
    let (u, w) = nth_field-IsTyped fields i v e in (segment_utf8 i named u, IsPath-IsUtf8 w rest)
  where
    segment_utf8 :
        {segment name : Bytes} (i : ℕ)
        → (segment ≡ name) ⊎ ((name ≡ []) × (segment ≡ to_string (i + 1)))
        → IsUtf8 name
        → IsUtf8 segment
    segment_utf8 i (inl e) u = rw e u
    segment_utf8 i (inr (_, e)) u = rw e (to_string_utf8 (i + 1))

-- The expression for a path: the column, and an access for each further segment.
unfoldable pub path_expr : List Bytes → Result ParseError Expr
path_expr [] = err bad_tag
path_expr (name ∷ fields) = ok (nest_fields (Expr.column name) fields)

module _ (casts : Casts) (get : LogicalGet) (table : Table) where
  unfoldable pub column_meaning : Expression → Result ParseError Expr
  column_meaning e = elim (place_of casts get table e) [
    | some (segments, leaf) ↦ path_expr segments
    | none ↦ err bad_tag
  ]

  pub column_ir-Builds :
      (db : DuckDb) (session : Session) (exclude : Bool) (e : Expression)
      → IsTable table
      → Builds db session (try_build_column_ref_ir casts get table exclude e) (column_meaning e)
  unfolding try_build_column_ref_ir column_meaning path_expr
  column_ir-Builds db session exclude e v out h =
      let ((segments, leaf), e₁, k₁) = >>=-eq-ok (build_segments casts get table e) _ h in
      let (first, _, k₂) = or_throw-ok (get_elem? segments 0) declined _ k₁ in
      let (_, k₃) =
        require-ok (not (if exclude then is_computed_search_column first else false)) _ k₂ in
      let (_, k₄) = require-ok (supports_logical_type (logical_type leaf)) _ k₃ in
      let (col_id, name, type, rest, en, et, es, path) =
        build_segments-NamesColumn casts table get e e₁ in
      rw (build_segments-place_of casts get table e e₁, column_meaning)
        (rw es (
          Built.column_ref name rest
            (
              All-get_elem IsUtf8 table.names col_id v.names_utf8 en,
              IsPath-IsUtf8 (All-get_elem IsTyped table.types col_id v.fields_utf8 et) path,
            )
            (attempt-ok _ (rw es at k₄))))
