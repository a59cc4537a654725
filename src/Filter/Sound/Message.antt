-- ===== src/Filter/Sound/Message.antt =====
-- What parse_filter_ir of rust/filter_ir.rs reads from the messages of src/lance_filter_ir.cpp.
use lance_duckdb.Common.{
  ℕ, suc, ◌≡◌, ◌⊎◌, inl, inr, refl, sym, ◌∙◌, Bytes, Bool, false, List, [], ◌∷◌, Option, none, some,
  get_elem?, length, ltb, bytes_eq, not, ◌==◌, ◌||◌, Result, ok, err, ◌>>=◌, >>=-eq-ok, or_throw-ok,
  ok-injective, arith,
}
use lance_duckdb.Wire.Reader.{ParseError, bad_tag}
use lance_duckdb.ExprIr.Types.{DuckDb, Expr, Exprs, and}
use lance_duckdb.ExprIr.Literals.{supports_logical_type}
use lance_duckdb.ExprIr.Nodes.{
  try_encode_and, try_encode_column_name, try_encode_column_ref, encode_column_name,
}
use lance_duckdb.ExprIr.Parser.{Session, parse_expr_ir_payload, nest_fields}
use lance_duckdb.ExprIr.Meaning.{conjunction, joined}
use lance_duckdb.ExprIr.RoundTrip.Values.{IsDuckDb}
use lance_duckdb.ExprIr.RoundTrip.Columns.{IsUtf8}
use lance_duckdb.ExprIr.Exports.{Built, BuiltAll}
use lance_duckdb.ExprIr.Exports.Reading.{Built-Reads}
use lance_duckdb.Filter.Types.{
  declined, logical_type, Table, TableFilter, LogicalGet, Expressions, Casts,
}
use lance_duckdb.Filter.Expr.{build_children}
use lance_duckdb.Filter.Parts.{
  TableFilterSet, column_filter_ir, try_build_table_filter_ir_parts, encode_filter_message,
  try_encode_filter_ir_message, try_build_table_filter_ir_message,
}
use lance_duckdb.Filter.Parser.{no_registry, parse_filter_ir}
use lance_duckdb.Filter.Meaning.{children_meaning, table_filter_meaning}
use lance_duckdb.Filter.Valid.{AllExpressions, IsCasts, IsTableFilter}
use lance_duckdb.Filter.Sound.Constants.{require-ok, Builds, BuildsAll}
use lance_duckdb.Filter.Sound.Columns.{IsTable, column_meaning, All-get_elem}
use lance_duckdb.Filter.Sound.Expr.{children-Builds}
use lance_duckdb.Filter.Sound.Table.{table_filter-Builds}

-- The filters of a set, without the null pointers, each on the column that it names.
module _ (db : DuckDb) (casts : Casts) (session : Session) (table : Table) where
  unfoldable pub on_column : ℕ → TableFilter → Result ParseError Expr
  on_column col_id filter = elim (get_elem? table.names col_id) [
    | some name ↦ table_filter_meaning db casts session name filter
    | none ↦ err bad_tag
  ]

  unfoldable pub filters_meaning : TableFilterSet → Result ParseError Exprs
  filters_meaning [] = ok Exprs.nil
  filters_meaning ((col_id, none) ∷ filters) = filters_meaning filters
  filters_meaning ((col_id, some filter) ∷ filters) = do
    x ← on_column col_id filter
    xs ← filters_meaning filters
    ok (Exprs.cons x xs)

  column_filter-Builds :
      (laws : IsCasts casts) (valid : IsTable table) (col_id : ℕ) (filter : TableFilter)
      → IsTableFilter filter
      → Builds db session (column_filter_ir db casts table col_id filter) (on_column col_id filter)
  unfolding column_filter_ir on_column try_encode_column_name encode_column_name
      try_encode_column_ref nest_fields
  column_filter-Builds laws valid col_id filter v out h =
      let (name, en, k₁) = or_throw-ok (get_elem? table.names col_id) declined _ h in
      let (type, _, k₂) = or_throw-ok (get_elem? table.types col_id) declined _ k₁ in
      let (_, k₃) = require-ok (supports_logical_type (logical_type type)) _ k₂ in
      let (col_ref_ir, ec, k₄) = or_throw-ok (try_encode_column_name name) declined _ k₃ in
      rw (en, on_column)
        (table_filter-Builds db casts laws session name col_ref_ir
          (Built.column_ref name [] (All-get_elem IsUtf8 table.names col_id valid.names_utf8 en, tt)
            ec)
          filter v out k₄)

abbrev pub AreTableFilters : TableFilterSet → Type 0
AreTableFilters [] = Unit
AreTableFilters ((col_id, none) ∷ filters) = AreTableFilters filters
AreTableFilters ((col_id, some filter) ∷ filters) = IsTableFilter filter × AreTableFilters filters

module _ (db : DuckDb) (casts : Casts) (session : Session) (table : Table) (laws : IsCasts casts)
    (valid : IsTable table) (row_id empty_id : ℕ) where
  parts-BuildsAll :
      (filters : TableFilterSet)
      → AreTableFilters filters
      → BuildsAll db session
          (try_build_table_filter_ir_parts db casts table row_id empty_id filters)
          (filters_meaning db casts session table filters)
  unfolding try_build_table_filter_ir_parts filters_meaning
  parts-BuildsAll [] v outs h = rw (← ok-injective h) BuiltAll.nil
  parts-BuildsAll ((col_id, none) ∷ filters) v outs h = parts-BuildsAll filters v outs h
  parts-BuildsAll ((col_id, some filter) ∷ filters) v outs h =
      let (_, k₁) = require-ok (not (col_id == row_id || col_id == empty_id)) _ h in
      let (part, e₁, k₂) = >>=-eq-ok (column_filter_ir db casts table col_id filter) _ k₁ in
      let (parts, e₂, k₃) =
        >>=-eq-ok (try_build_table_filter_ir_parts db casts table row_id empty_id filters) _ k₂ in
      rw (← ok-injective k₃) (
        BuiltAll.cons
          (column_filter-Builds db casts session table laws valid col_id filter v.0 part e₁)
          (parts-BuildsAll filters v.1 parts e₂))

one_conjunct :
    (m : Result ParseError Expr)
    → ((m >>= λ x. ok (Exprs.cons x Exprs.nil)) >>= conjunction and) ≡ m
unfolding conjunction joined
one_conjunct (ok x) = refl
one_conjunct (err e) = refl

-- No message for no parts; otherwise it is read as the conjunction.
abbrev pub ReadsAs : (Bytes → Option Bytes → Bool) → Bytes → Result ParseError Exprs → Type 0
ReadsAs compiles msg ms =
    ((msg ≡ []) × (ms ≡ ok Exprs.nil)) ⊎ (parse_filter_ir compiles msg ≡ (ms >>= conjunction and))

module _ (db : DuckDb) (laws : IsDuckDb db) (compiles : Bytes → Option Bytes → Bool) where
  parse_filter_ir-encode :
      (root : Bytes) {m : Result ParseError Expr}
      → Built db (no_registry compiles) root m
      → parse_filter_ir compiles (encode_filter_message root) ≡ m
  unfolding parse_filter_ir encode_filter_message bytes_eq parse_expr_ir_payload
  parse_filter_ir-encode root b =
      rw (long_enough root)
        (Built-Reads db laws (no_registry compiles) b (suc (length root)) (omega arith))
    where
      long_enough : (root : Bytes) → ltb (length (b'L' ∷ b'F' ∷ b'T' ∷ b'1' ∷ root)) 4 ≡ false
      long_enough root = ground arith

  message-ReadsAs :
      (parts : List Bytes) {ms : Result ParseError Exprs} {msg : Bytes}
      → BuiltAll db (no_registry compiles) parts ms
      → try_encode_filter_ir_message parts ≡ ok msg
      → ReadsAs compiles msg ms
  unfolding try_encode_filter_ir_message
  message-ReadsAs [] BuiltAll.nil h = inl (sym (ok-injective h), refl)
  message-ReadsAs (part ∷ []) (BuiltAll.cons {m = m} b BuiltAll.nil) h =
      inr (rw (← ok-injective h) (parse_filter_ir-encode part b ∙ sym (one_conjunct m)))
  message-ReadsAs (part ∷ part' ∷ parts) bs h =
      let (root, e, k) = or_throw-ok (try_encode_and (part ∷ part' ∷ parts)) declined _ h in
      inr (rw (← ok-injective k) (parse_filter_ir-encode root (Built.all_of bs e)))

  -- The filters of a scan, on columns whose names are valid UTF-8, with constants in the ranges of their
  -- types: if TryBuildLanceTableFilterIRMessage makes a message of them, then this is empty and there is no
  -- filter but null pointers, or parse_filter_ir reads it as the conjunction of what the filters stand for,
  -- or as the error that one of them has (an unknown function name).
  pub parse_filter_ir-table_filters :
      (casts : Casts) (table : Table) (row_id empty_id : ℕ) (filters : TableFilterSet) {msg : Bytes}
      → IsCasts casts
      → IsTable table
      → AreTableFilters filters
      → try_build_table_filter_ir_message db casts table row_id empty_id filters ≡ ok msg
      → ReadsAs compiles msg (filters_meaning db casts (no_registry compiles) table filters)
  unfolding try_build_table_filter_ir_message
  parse_filter_ir-table_filters casts table row_id empty_id filters cast_laws valid v h =
      let (parts, e, k) =
        >>=-eq-ok (try_build_table_filter_ir_parts db casts table row_id empty_id filters) _ h in
      message-ReadsAs parts
        (parts-BuildsAll db casts _ table cast_laws valid row_id empty_id filters v parts e) k

  -- Expressions over the columns of a scan, encoded with TryBuildLanceExprFilterIR and put together with
  -- TryEncodeLanceFilterIRMessage, whether computed columns are excluded or not: the message is empty and
  -- there is no expression, or parse_filter_ir reads it as the conjunction of what the expressions stand
  -- for, or as the error that one of them has.
  pub parse_filter_ir-expressions :
      (casts : Casts) (get : LogicalGet) (table : Table) (exclude : Bool) (es : Expressions)
      {parts : List Bytes} {msg : Bytes}
      → IsCasts casts
      → IsTable table
      → AllExpressions es
      → build_children db casts get table exclude es ≡ ok parts
      → try_encode_filter_ir_message parts ≡ ok msg
      → ReadsAs compiles msg
          (children_meaning db casts (no_registry compiles) (column_meaning casts get table) es)
  parse_filter_ir-expressions casts get table exclude es {parts} cast_laws valid v e k =
      message-ReadsAs parts
        (children-Builds db casts cast_laws _ get table valid exclude es v parts e) k
