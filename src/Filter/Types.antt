-- ===== src/Filter/Types.antt =====
-- What src/lance_filter_ir.cpp reads: bound expressions and table filters of DuckDB, the columns of a
-- scan with the fields of their types, and the casts that it asks DuckDB for. A function that answers
-- false is `err declined`; on true it returns its out-parameter.
use lance_duckdb.Common.{
  ℕ, zero, suc, Bytes, Bool, true, false, List, Option, none, some, Result, ok, err, or_throw,
}
use lance_duckdb.Common.Int.{ℤ}
use lance_duckdb.ExprIr.Types.{LogicalType, Value, ExpressionType, ColumnBinding}

pub data Declined : Type 0 where
  declined : Declined

abbrev pub Attempt {ℓ} : Type ℓ → Type ℓ
Attempt A = Result Declined A

abbrev pub attempt {ℓ} : {A : Type ℓ} → Option A → Attempt A
attempt o = or_throw o declined

-- `if (!test) return false;`
abbrev pub require : Bool → Attempt (Unit {0})
require true = ok tt
require false = err declined

-- A type with the fields of a struct; `plain` is a type that is no struct.
mutual
  pub data ColumnType : Type 0 where
    plain : LogicalType → ColumnType
    struct : Fields → ColumnType

  pub data Fields : Type 0 where
    end : Fields
    field : (name : Bytes) → ColumnType → Fields → Fields

abbrev pub logical_type : ColumnType → LogicalType
logical_type (ColumnType.plain type) = type
logical_type (ColumnType.struct fields) = LogicalType.struct

-- StructType::GetChildName and GetChildType; `none` from GetChildCount on.
unfoldable pub nth_field : Fields → ℕ → Option (Bytes × ColumnType)
nth_field Fields.end i = none
nth_field (Fields.field name type rest) zero = some (name, type)
nth_field (Fields.field name type rest) (suc i) = nth_field rest i

-- The children of a column index, each with its own children, and then its siblings.
pub data ChildIndexes : Type 0 where
  no_children : ChildIndexes
  child : (primary_index : ℕ) (children siblings : ChildIndexes) → ChildIndexes

pub data ColumnIndex : Type 0 where
  virtual : ColumnIndex
  primary : (primary_index : ℕ) → ChildIndexes → ColumnIndex

pub record LogicalGet : Type 0 where
  pub table_index : ℕ
  pub column_ids : List ColumnIndex

pub record Table : Type 0 where
  pub names : List Bytes
  pub types : List ColumnType

-- An expression by its ExpressionClass. A child that is a null pointer is `null`; the code tests most
-- children for it, and a plan has none.
mutual
  pub data Expression : Type 0 where
    null other : Expression
    column_ref : (depth : ℕ) → ColumnBinding → Expression
    reference : (index : ℕ) → Expression
    constant : Value → Expression
    cast : (try_cast : Bool) (return_type : LogicalType) → Expression → Expression
    function : (name : Bytes) → Expressions → Expression
    comparison : ExpressionType → (left right : Expression) → Expression
    conjunction : ExpressionType → Expressions → Expression
    operator : ExpressionType → Expressions → Expression
    between : (input lower upper : Expression) (lower_type upper_type : ExpressionType) → Expression

  pub data Expressions : Type 0 where
    nil : Expressions
    cons : Expression → Expressions → Expressions

-- A filter by its TableFilterType.
mutual
  pub data TableFilter : Type 0 where
    other is_null is_not_null : TableFilter
    optional : (child_filter : TableFilter) → TableFilter
    optional_empty expression_empty : TableFilter
    constant_comparison : ExpressionType → Value → TableFilter
    in_filter : List Value → TableFilter
    conjunction_and conjunction_or : TableFilters → TableFilter
    expression : Expression → TableFilter

  pub data TableFilters : Type 0 where
    nil : TableFilters
    cons : TableFilter → TableFilters → TableFilters

-- Value::DefaultCastAs: to a type, to VARCHAR and to BIGINT; `none` where it throws.
pub record Casts : Type 0 where
  pub cast_as : Value → LogicalType → Option Value
  pub to_varchar : Value → Option Bytes
  pub to_bigint : Value → Option ℤ
