-- ===== src/Filter/Columns.antt =====
-- src/lance_filter_ir.cpp, TryBuildLanceExprColumnRefIR: the path of names that a column reference, or
-- an access to a field of one, stands for; and IsComputedSearchColumn of src/lance_common.cpp.
use lance_duckdb.Common.{
  ℕ, zero, suc, ◌+◌, Bytes, Bool, true, false, List, [], ◌∷◌, ◌++◌, Option, none, some, get_elem?,
  bytes_eq, ◌==◌, ◌||◌, not, if◌then◌else◌, ok, err, ◌>>=◌, ◌>>◌,
}
use lance_duckdb.Common.Int.{ℤ, pos, negsuc}
use lance_duckdb.Cache.Keys.{to_string}
use lance_duckdb.ExprIr.Types.{Value}
use lance_duckdb.ExprIr.Literals.{supports_logical_type}
use lance_duckdb.ExprIr.Nodes.{is_empty, try_encode_column_ref}
use lance_duckdb.Filter.Types.{
  declined, Attempt, attempt, require, ColumnType, Fields, logical_type, nth_field, ChildIndexes,
  no_children, child, ColumnIndex, LogicalGet, Table, Expression, Expressions, Casts,
}

abbrev distance_name : Bytes
distance_name = b'_' ∷ b'd' ∷ b'i' ∷ b's' ∷ b't' ∷ b'a' ∷ b'n' ∷ b'c' ∷ b'e' ∷ []

abbrev score_name : Bytes
score_name = b'_' ∷ b's' ∷ b'c' ∷ b'o' ∷ b'r' ∷ b'e' ∷ []

abbrev hybrid_score_name : Bytes
hybrid_score_name =
    b'_' ∷ b'h' ∷ b'y' ∷ b'b' ∷ b'r' ∷ b'i' ∷ b'd' ∷ b'_' ∷ b's' ∷ b'c' ∷ b'o' ∷ b'r' ∷ b'e' ∷ []

unfoldable pub is_computed_search_column : Bytes → Bool
is_computed_search_column name =
    bytes_eq name distance_name || bytes_eq name score_name || bytes_eq name hybrid_score_name

-- Several children stand for the rest of the path, and have no children themselves.
unfoldable pub sibling_indexes : ChildIndexes → Attempt (List ℕ)
sibling_indexes no_children = ok []
sibling_indexes (child i no_children rest) = do path ← sibling_indexes rest; ok (i ∷ path)
sibling_indexes (child i (child j below beside) rest) = err declined

unfoldable pub linearize_child_indexes : ChildIndexes → Attempt (List ℕ)
linearize_child_indexes no_children = ok []
linearize_child_indexes (child i below no_children) = do
  path ← linearize_child_indexes below
  ok (i ∷ path)
linearize_child_indexes (child i below (child j beneath rest)) =
    sibling_indexes (child i below (child j beneath rest))

-- The names of the fields on a path, and the type at its end.
unfoldable pub follow_path : List ℕ → ColumnType → Attempt (List Bytes × ColumnType)
follow_path [] type = ok ([], type)
follow_path (i ∷ path) (ColumnType.plain type) = err declined
follow_path (i ∷ path) (ColumnType.struct fields) = do
  (name, type) ← attempt (nth_field fields i)
  (segments, leaf) ← follow_path path type
  ok (name ∷ segments, leaf)

abbrev pub primary_column : ColumnIndex → Attempt (ℕ × ChildIndexes)
primary_column ColumnIndex.virtual = err declined
primary_column (ColumnIndex.primary col_id children) = ok (col_id, children)

-- The first field of that name.
unfoldable pub field_of_name : Bytes → Fields → Option ColumnType
field_of_name wanted Fields.end = none
field_of_name wanted (Fields.field name type rest) =
    if bytes_eq name wanted then some type else field_of_name wanted rest

abbrev pub fields_of : ColumnType → Attempt Fields
fields_of (ColumnType.plain type) = err declined
fields_of (ColumnType.struct fields) = ok fields

-- struct_extract: a field by its name, from a constant of type VARCHAR.
unfoldable pub extract_by_name : Fields → Value → Attempt (Bytes × ColumnType)
extract_by_name fields (Value.varchar name) = do
  type ← attempt (field_of_name name fields)
  ok (name, type)
extract_by_name fields value = err declined

abbrev pub is_null_value : Value → Bool
is_null_value (Value.null type) = true
is_null_value _ = false

-- `one_based <= 0` is refused.
abbrev pub zero_based : ℤ → Attempt ℕ
zero_based (pos zero) = err declined
zero_based (pos (suc i)) = ok i
zero_based (negsuc n) = err declined

-- struct_extract_at: a field by its place, counted from 1; a field with no name goes by its number.
unfoldable pub extract_by_index : Casts → Fields → Value → Attempt (Bytes × ColumnType)
extract_by_index casts fields value = do
  one_based ← attempt (casts.to_bigint value)
  i ← zero_based one_based
  (name, type) ← attempt (nth_field fields i)
  ok ((if is_empty name then to_string (i + 1) else name), type)

abbrev pub struct_extract_name : Bytes
struct_extract_name =
    b's' ∷ b't' ∷ b'r' ∷ b'u' ∷ b'c' ∷ b't' ∷ b'_' ∷ b'e' ∷ b'x' ∷ b't' ∷ b'r' ∷ b'a' ∷ b'c' ∷ b't'
    ∷ []

abbrev pub struct_extract_at_name : Bytes
struct_extract_at_name =
    b's' ∷ b't' ∷ b'r' ∷ b'u' ∷ b'c' ∷ b't' ∷ b'_' ∷ b'e' ∷ b'x' ∷ b't' ∷ b'r' ∷ b'a' ∷ b'c' ∷ b't'
    ∷ b'_' ∷ b'a' ∷ b't' ∷ []

-- Which of the two accessors a function is.
unfoldable pub extract : Casts → Bytes → Fields → Value → Attempt (Bytes × ColumnType)
extract casts name fields value =
    if bytes_eq name struct_extract_name
    then extract_by_name fields value
    else if bytes_eq name struct_extract_at_name
    then extract_by_index casts fields value
    else err declined

-- What follows the base of a field access is one constant, which is not NULL.
unfoldable pub access :
    Casts
    → Bytes
    → Attempt (List Bytes × ColumnType)
    → Expressions
    → Attempt (List Bytes × ColumnType)
access casts name base (Expressions.cons (Expression.constant value) Expressions.nil) = do
  (segments, type) ← base
  fields ← fields_of type
  require (not (is_null_value value))
  (child_name, child_type) ← extract casts name fields value
  ok (segments ++ child_name ∷ [], child_type)
access casts name base rest = err declined

module _ (casts : Casts) (get : LogicalGet) (table : Table) where
  -- The column at an index of the scan, and the path below it.
  unfoldable pub column_segments : ℕ → Attempt (List Bytes × ColumnType)
  column_segments index = do
    col_index ← attempt (get_elem? get.column_ids index)
    (col_id, children) ← primary_column col_index
    name ← attempt (get_elem? table.names col_id)
    type ← attempt (get_elem? table.types col_id)
    path ← linearize_child_indexes children
    (segments, leaf) ← follow_path path type
    ok (name ∷ segments, leaf)

  unfoldable pub build_segments : Expression → Attempt (List Bytes × ColumnType)
  build_segments (Expression.column_ref depth binding) = do
    require (depth == 0)
    require (binding.table_index == get.table_index)
    column_segments binding.column_index
  build_segments (Expression.reference index) = column_segments index
  build_segments (Expression.function name (Expressions.cons base rest)) =
      access casts name (build_segments base) rest
  build_segments _ = err declined

  unfoldable pub try_build_column_ref_ir :
      (exclude_computed_columns : Bool) → Expression → Attempt Bytes
  try_build_column_ref_ir exclude_computed_columns expr = do
    (segments, leaf) ← build_segments expr
    first ← attempt (get_elem? segments 0)
    require (not (if exclude_computed_columns then is_computed_search_column first else false))
    require (supports_logical_type (logical_type leaf))
    attempt (try_encode_column_ref segments)
