-- ===== src/ExprIr/Types.antt =====
-- The values that both sides of an expression message are about: DuckDB's types, values and bound
-- expressions (as far as src/lance_expr_ir.cpp looks at them), and DataFusion's expressions (as far as
-- rust/expr_ir.rs builds them).
use lance_duckdb.Common.{ℕ, Bytes, Bool, Option}
use lance_duckdb.Common.Int.{ℤ}

pub data IntSize : Type 0 where
  tiny small whole big : IntSize

-- TIMESTAMP, TIMESTAMP_SEC, TIMESTAMP_MS, TIMESTAMP_NS and TIMESTAMP_TZ.
pub data TimestampType : Type 0 where
  plain sec ms ns tz : TimestampType

-- A type that no switch of the source names is `other`.
pub data LogicalType : Type 0 where
  boolean float double varchar date struct other : LogicalType
  signed unsigned : IntSize → LogicalType
  timestamp : TimestampType → LogicalType
  decimal : (width scale : ℕ) → LogicalType

-- A float or double is its bit pattern. A decimal comes with what its ToString returns.
pub data Value : Type 0 where
  null : LogicalType → Value
  boolean : Bool → Value
  signed : IntSize → ℤ → Value
  unsigned : IntSize → ℕ → Value
  float double : ℕ → Value
  varchar : Bytes → Value
  date : ℤ → Value
  timestamp : TimestampType → ℤ → Value
  decimal : (width scale : ℕ) → Bytes → Value
  other : LogicalType → Value

pub data ExpressionType : Type 0 where
  compare_equal compare_not_equal compare_less_than compare_less_than_or_equal : ExpressionType
  compare_greater_than compare_greater_than_or_equal : ExpressionType
  compare_distinct_from compare_not_distinct_from compare_in compare_not_in : ExpressionType
  operator_not operator_is_null operator_is_not_null : ExpressionType
  conjunction_and conjunction_or other : ExpressionType

pub record ColumnBinding : Type 0 where
  pub table_index : ℕ
  pub column_index : ℕ

-- A bound expression by its ExpressionClass; `null` is a null pointer where a child should be.
mutual
  pub data BoundExpr : Type 0 where
    null other : BoundExpr
    column_ref : ColumnBinding → BoundExpr
    reference : (alias : Bytes) (index : ℕ) → BoundExpr
    constant : Value → BoundExpr
    cast : (try_cast : Bool) → LogicalType → BoundExpr → BoundExpr
    function : (name : Bytes) → BoundExprs → BoundExpr
    operator : ExpressionType → BoundExprs → BoundExpr
    comparison : ExpressionType → BoundExpr → BoundExpr → BoundExpr
    conjunction : ExpressionType → BoundExprs → BoundExpr
    case : BoundChecks → (else_expr : BoundExpr) → BoundExpr
    between : (input lower upper : BoundExpr) (lower_type upper_type : ExpressionType) → BoundExpr

  pub data BoundExprs : Type 0 where
    nil : BoundExprs
    cons : BoundExpr → BoundExprs → BoundExprs

  pub data BoundChecks : Type 0 where
    end : BoundChecks
    check : (when_expr then_expr : BoundExpr) → BoundChecks → BoundChecks

-- What the extension takes from DuckDB here: StringUtil::Lower, the tests for infinite dates and
-- timestamps, and the arithmetic of hugeint_t.
pub record DuckDb : Type 0 where
  pub lower : Bytes → Bytes
  pub date_is_finite : ℤ → Bool
  pub timestamp_is_finite : ℤ → Bool
  pub hugeint_mul : ℤ → ℤ → ℤ
  pub hugeint_add : ℤ → ℤ → ℤ
  pub hugeint_neg : ℤ → ℤ

pub data TimeUnit : Type 0 where
  second millisecond microsecond nanosecond : TimeUnit

pub data DataType : Type 0 where
  boolean float32 float64 utf8 date32 : DataType
  int uint : IntSize → DataType
  timestamp : TimeUnit → DataType
  decimal128 : ℕ → ℤ → DataType

pub data ScalarValue : Type 0 where
  null : ScalarValue
  boolean : Bool → ScalarValue
  int64 : ℤ → ScalarValue
  uint64 : ℕ → ScalarValue
  float32 float64 : ℕ → ScalarValue
  utf8 : Bytes → ScalarValue
  date32 : ℤ → ScalarValue
  timestamp : TimeUnit → ℤ → ScalarValue
  decimal128 : (value : ℤ) (precision : ℕ) (scale : ℤ) → ScalarValue

pub data Operator : Type 0 where
  plus minus multiply divide and or : Operator
  eq not_eq lt lt_eq gt gt_eq is_distinct_from is_not_distinct_from : Operator

-- `registered` is a function of the session's registry.
pub data Udf : Type 0 where
  getfield regexp_like starts_with ends_with contains lower upper : Udf
  registered : ℕ → Udf

mutual
  pub data Expr : Type 0 where
    column : Bytes → Expr
    literal : ScalarValue → Expr
    cast : Expr → DataType → Expr
    binary : Expr → Operator → Expr → Expr
    not is_null is_not_null : Expr → Expr
    in_list : Expr → Exprs → (negated : Bool) → Expr
    like : (expr pattern : Expr) (escape_char : Option ℕ) (case_insensitive : Bool) → Expr
    case : Checks → Expr
    case_else : Checks → Expr → Expr
    scalar_function : Udf → Exprs → Expr

  pub data Exprs : Type 0 where
    nil : Exprs
    cons : Expr → Exprs → Exprs

  pub data Checks : Type 0 where
    end : Checks
    check : Expr → Expr → Checks → Checks
