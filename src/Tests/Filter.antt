-- ===== src/Tests/Filter.antt =====
-- Filters on a table with an INTEGER column and a struct with a text.
use lance_duckdb.Common.{
  ℕ, ◌≡◌, ◌↔◌, ◌+◌, refl, Bytes, Bool, true, false, [], ◌∷◌, Option, none, some, length, ok,
  if◌then◌else◌, arith, bytes_eq, ap,
}
use mathlib.Core.Option.{some-injective}
use mathlib.Core.List.{Permᴰ}
use lance_duckdb.Common.Int.{pos, to_word}
use lance_duckdb.Wire.Reader.{is_utf8}
use lance_duckdb.ExprIr.Types
use lance_duckdb.ExprIr.Types.{Value, LogicalType}
use lance_duckdb.Wire.Writer.{
  append_u8, append_u32, append_u64, append_i64, append_bytes, append_len_prefixed,
  append_len_prefixed_string, append_all_len_prefixed,
}
use lance_duckdb.ExprIr.Literals.{supports_logical_type, encode_literal}
use lance_duckdb.ExprIr.Nodes.{
  any_empty, encode_column_ref, encode_column_name, encode_unary_node, encode_comparison_op,
  encode_comparison_node, try_encode_column_ref, try_encode_comparison_op, try_encode_comparison,
  encode_conjunction_node, encode_in_list_node, try_encode_column_name, try_encode_literal,
  try_encode_is_null, try_encode_is_not_null, try_encode_in_list, try_encode_and,
}
use lance_duckdb.Filter.Calls.{value_literals, comparison_ir, call_ir, function_kind}
use lance_duckdb.Filter.Table.{try_build_table_filter_ir_expr, build_child_filters}
use lance_duckdb.Filter.Types.{
  Casts, Table, LogicalGet, ColumnType, Fields, ColumnIndex, no_children, Expression, Expressions,
  TableFilter, TableFilters,
}
use lance_duckdb.Filter.Columns.{
  try_build_column_ref_ir, is_computed_search_column, build_segments, column_segments,
  linearize_child_indexes, follow_path, access, extract, extract_by_name, field_of_name,
  struct_extract_name,
}
use lance_duckdb.Filter.Expr.{try_build_expr_filter_ir, build_children}
use lance_duckdb.Filter.Parts.{
  TableFilterSet, BuildResult, encode_filter_message, push_filter, column_filter_ir,
  build_table_filter_ir_parts, max_column_id, ids_from, probe_table_filter_ir,
  try_build_table_filter_ir_parts, try_encode_filter_ir_message, try_build_table_filter_ir_message,
}
use lance_duckdb.Filter.Parser.{no_registry}
use lance_duckdb.Filter.Meaning.{children_meaning}
use lance_duckdb.Filter.Valid.{IsCasts, IsExpression, IsTableFilter}
use lance_duckdb.Filter.Sound.Paths.{NamesColumn, build_segments-NamesColumn}
use lance_duckdb.Filter.Sound.Columns.{IsTable, IsTyped, column_meaning}
use lance_duckdb.Filter.Sound.Message.{
  ReadsAs, filters_meaning, parse_filter_ir-table_filters, parse_filter_ir-expressions,
}
use lance_duckdb.Filter.Parts.Laws.{computed_filters, build_table_filter_ir_parts-flags}
use lance_duckdb.Filter.Parts.Probe.{
  AllPushed, rebound, probe_table_filter_ir-rebound, try_build_table_filter_ir_parts-probe,
}
use lance_duckdb.Tests.Base.{duckdb, duckdb_laws}

abbrev name_id : Bytes
name_id = b'i' ∷ b'd' ∷ []

abbrev name_doc : Bytes
name_doc = b'd' ∷ b'o' ∷ b'c' ∷ []

abbrev table : Table
table = record {
  names = name_id ∷ name_doc ∷ [];
  types =
      ColumnType.plain (LogicalType.signed Types.whole)
      ∷ ColumnType.struct
          (Fields.field (b't' ∷ []) (ColumnType.plain LogicalType.varchar) Fields.end)
      ∷ [];
}

table-IsTable : IsTable table
unfolding is_utf8 IsTyped
table-IsTable = record { names_utf8 = (refl, (refl, tt)); fields_utf8 = (tt, ((refl, tt, tt), tt)) }

-- The scan has the columns in the other order.
abbrev doc_get : LogicalGet
doc_get = record {
  table_index = 4;
  column_ids = ColumnIndex.primary 1 no_children ∷ ColumnIndex.primary 0 no_children ∷ [];
}

-- Casts that change nothing, of texts that are valid.
abbrev text_of : Value → Option Bytes
text_of (Value.varchar s) = if is_utf8 s then some s else none
text_of _ = none

abbrev casts : Casts
casts = record { cast_as = λ v t. some v; to_varchar = text_of; to_bigint = λ v. none }

checked :
    (s : Bytes) (b : Bool) {t : Bytes}
    → is_utf8 s ≡ b
    → (if b then some s else none) ≡ some t
    → is_utf8 t ≡ true
checked s true e h = rw (← some-injective _ _ h) e
checked s false e h = cc

text_of_utf8 : (v : Value) {s : Bytes} → text_of v ≡ some s → is_utf8 s ≡ true
text_of_utf8 (Value.varchar s) h = checked s (is_utf8 s) refl h
text_of_utf8 _ h = cc

casts-IsCasts : IsCasts casts
casts-IsCasts = record {
  in_range = λ v t i h. rw (← some-injective _ _ h) i;
  is_text = text_of_utf8;
}

-- id IN (7) and id IS NOT NULL, on scan positions 1.
abbrev filter : TableFilter
filter = TableFilter.conjunction_and (
    TableFilters.cons TableFilter.is_not_null (
      TableFilters.cons (TableFilter.in_filter (Value.signed Types.whole (pos 7) ∷ []))
        TableFilters.nil))

abbrev filters : TableFilterSet
filters = (0, some filter) ∷ []

abbrev part : Bytes
part =
    6 ∷ 1 ∷ 2 ∷ 0 ∷ 0 ∷ 0 ∷ 16 ∷ 0 ∷ 0 ∷ 0 ∷ 11 ∷ 11 ∷ 0 ∷ 0 ∷ 0 ∷ 1 ∷ 1 ∷ 0 ∷ 0 ∷ 0 ∷ 2 ∷ 0 ∷ 0 ∷ 0
    ∷ b'i' ∷ b'd' ∷ 35 ∷ 0 ∷ 0 ∷ 0 ∷ 12 ∷ 0 ∷ 11 ∷ 0 ∷ 0 ∷ 0 ∷ 1 ∷ 1 ∷ 0 ∷ 0 ∷ 0 ∷ 2 ∷ 0 ∷ 0 ∷ 0
    ∷ b'i' ∷ b'd' ∷ 1 ∷ 0 ∷ 0 ∷ 0 ∷ 10 ∷ 0 ∷ 0 ∷ 0 ∷ 2 ∷ 2 ∷ 7 ∷ 0 ∷ 0 ∷ 0 ∷ 0 ∷ 0 ∷ 0 ∷ 0 ∷ []

abbrev message : Bytes
message = b'L' ∷ b'F' ∷ b'T' ∷ b'1' ∷ part

encoded : try_build_table_filter_ir_message duckdb casts table 100 101 filters ≡ ok message
unfolding try_build_table_filter_ir_message try_build_table_filter_ir_parts column_filter_ir
    supports_logical_type try_encode_column_name encode_column_name encode_column_ref any_empty
    append_len_prefixed append_all_len_prefixed append_u8 append_u32 append_u64 append_i64
    append_bytes append_len_prefixed_string try_build_table_filter_ir_expr build_child_filters
    value_literals try_encode_is_not_null encode_unary_node try_encode_literal encode_literal
    try_encode_in_list encode_in_list_node try_encode_and encode_conjunction_node
    try_encode_filter_ir_message encode_filter_message to_word
encoded = refl

parse_filter_ir-table_filters_example :
    ReadsAs
      (λ p f. true)
      message
      (filters_meaning duckdb casts (no_registry (λ p f. true)) table filters)
unfolding IsTableFilter
parse_filter_ir-table_filters_example =
    parse_filter_ir-table_filters duckdb duckdb_laws (λ p f. true) casts table 100 101 filters
      casts-IsCasts table-IsTable ((tt, ((omega arith, tt), tt)), tt) encoded

probed : probe_table_filter_ir duckdb casts table filters ≡ record {
  parts = part ∷ [];
  all_filters_pushed = true;
  all_prefilterable_filters_pushed = true;
}
unfolding probe_table_filter_ir max_column_id ids_from build_table_filter_ir_parts push_filter
    column_filter_ir supports_logical_type try_encode_column_name encode_column_name
    encode_column_ref any_empty append_len_prefixed append_all_len_prefixed append_u8 append_u32
    append_u64 append_i64 append_bytes append_len_prefixed_string try_build_table_filter_ir_expr
    build_child_filters value_literals try_encode_is_not_null encode_unary_node try_encode_literal
    encode_literal try_encode_in_list encode_in_list_node try_encode_and encode_conjunction_node
    to_word
probed = refl

-- Two columns, which the scan has in the other order, and with them their filters.
abbrev pair : Table
pair = record {
  names = (b'a' ∷ []) ∷ (b'b' ∷ []) ∷ [];
  types =
      ColumnType.plain (LogicalType.signed Types.whole) ∷ ColumnType.plain LogicalType.varchar ∷ [];
}

abbrev pair_filters : TableFilterSet
pair_filters = (0, some TableFilter.is_null) ∷ (1, some TableFilter.is_not_null) ∷ []

abbrev swapped_filters : TableFilterSet
swapped_filters = (1, some TableFilter.is_not_null) ∷ (0, some TableFilter.is_null) ∷ []

abbrev pair_scan : TableFilterSet
pair_scan = (0, some TableFilter.is_not_null) ∷ (1, some TableFilter.is_null) ∷ []

probed_pair : (probe_table_filter_ir duckdb casts pair pair_filters).all_filters_pushed ≡ true
unfolding probe_table_filter_ir max_column_id ids_from build_table_filter_ir_parts push_filter
    column_filter_ir supports_logical_type try_encode_column_name encode_column_name
    encode_column_ref any_empty append_len_prefixed append_all_len_prefixed append_u8 append_u32
    append_bytes append_len_prefixed_string try_build_table_filter_ir_expr try_encode_is_null
    try_encode_is_not_null encode_unary_node
probed_pair = refl

probe_table_filter_ir-rebound_example :
    AllPushed
      (build_table_filter_ir_parts duckdb casts pair (1 ∷ 0 ∷ []) false pair_scan)
      (probe_table_filter_ir duckdb casts pair pair_filters)
unfolding rebound
probe_table_filter_ir-rebound_example =
    probe_table_filter_ir-rebound duckdb casts pair (1 ∷ 0 ∷ []) pair_scan swapped_filters
      pair_filters refl (Permᴰ.swap refl refl) probed_pair

try_build_table_filter_ir_parts-probe_example :
    try_build_table_filter_ir_parts duckdb casts table 100 101 filters
    ≡ ok (probe_table_filter_ir duckdb casts table filters).parts
try_build_table_filter_ir_parts-probe_example =
    try_build_table_filter_ir_parts-probe duckdb casts table 100 101 (omega arith) (omega arith)
      filters (ap (λ (r : BuildResult). r.all_filters_pushed) probed)

-- A filter on a computed column, and a null pointer.
abbrev scored : Table
scored = record {
  names = (b'_' ∷ b's' ∷ b'c' ∷ b'o' ∷ b'r' ∷ b'e' ∷ []) ∷ [];
  types = ColumnType.plain LogicalType.float ∷ [];
}

abbrev scored_filters : TableFilterSet
scored_filters = (0, some TableFilter.is_null) ∷ (0, none) ∷ []

build_table_filter_ir_parts-flags_example :
    let r = build_table_filter_ir_parts duckdb casts scored (0 ∷ []) true scored_filters in
    ((r.all_filters_pushed ≡ true)
      ↔ (length r.parts ≡ length {A = ℕ × Option TableFilter} scored_filters))
    × ((r.all_prefilterable_filters_pushed ≡ true) ↔ (
        length r.parts + computed_filters duckdb casts scored (0 ∷ []) true scored_filters
        ≡ length {A = ℕ × Option TableFilter} scored_filters))
build_table_filter_ir_parts-flags_example =
    build_table_filter_ir_parts-flags duckdb casts scored (0 ∷ []) true scored_filters

-- struct_extract(doc, 't'), where doc is the column at position 0 of the scan.
abbrev doc_t : Expression
doc_t = Expression.function struct_extract_name (
    Expressions.cons (Expression.column_ref 0 (record { table_index = 4; column_index = 0 }))
      (Expressions.cons (Expression.constant (Value.varchar (b't' ∷ []))) Expressions.nil))

build_segments-NamesColumn_example :
    NamesColumn table (name_doc ∷ (b't' ∷ []) ∷ [], ColumnType.plain LogicalType.varchar)
unfolding build_segments column_segments linearize_child_indexes follow_path access extract
    extract_by_name field_of_name bytes_eq
build_segments-NamesColumn_example = build_segments-NamesColumn casts table doc_get doc_t refl

abbrev expressions : Expressions
expressions =
    Expressions.cons
      (Expression.comparison Types.compare_equal doc_t
        (Expression.constant (Value.varchar (b'x' ∷ []))))
      Expressions.nil

abbrev doc_part : Bytes
doc_part =
    5 ∷ 0 ∷ 17 ∷ 0 ∷ 0 ∷ 0 ∷ 1 ∷ 2 ∷ 0 ∷ 0 ∷ 0 ∷ 3 ∷ 0 ∷ 0 ∷ 0 ∷ b'd' ∷ b'o' ∷ b'c' ∷ 1 ∷ 0 ∷ 0 ∷ 0
    ∷ b't' ∷ 7 ∷ 0 ∷ 0 ∷ 0 ∷ 2 ∷ 6 ∷ 1 ∷ 0 ∷ 0 ∷ 0 ∷ b'x' ∷ []

expressions_built : build_children duckdb casts doc_get table true expressions ≡ ok (doc_part ∷ [])
unfolding build_children try_build_expr_filter_ir comparison_ir try_encode_comparison_op
    encode_comparison_op call_ir function_kind try_build_column_ref_ir build_segments
    column_segments linearize_child_indexes follow_path access extract extract_by_name field_of_name
    bytes_eq is_computed_search_column supports_logical_type try_encode_column_ref encode_column_ref
    any_empty append_len_prefixed append_all_len_prefixed append_u8 append_u32 append_bytes
    append_len_prefixed_string try_encode_literal encode_literal try_encode_comparison
    encode_comparison_node
expressions_built = refl

parse_filter_ir-expressions_example :
    ReadsAs
      (λ p f. true)
      (b'L' ∷ b'F' ∷ b'T' ∷ b'1' ∷ doc_part)
      (children_meaning duckdb casts
        (no_registry (λ p f. true))
        (column_meaning casts doc_get table)
        expressions)
unfolding is_utf8 IsExpression try_encode_filter_ir_message encode_filter_message bytes_eq
parse_filter_ir-expressions_example =
    parse_filter_ir-expressions duckdb duckdb_laws (λ p f. true) casts doc_get table true
      expressions casts-IsCasts table-IsTable (((refl, (tt, (refl, tt))), refl), tt)
      expressions_built refl
