-- ===== src/Exec/Types.antt =====
-- What src/lance_exec_ir.cpp reads of a plan, and what rust/exec_ir.rs parses the message into.
use lance_duckdb.Common.{
  ℕ, Bytes, Bool, List, Option, if◌then◌else◌, Result, or_throw, throw_if, Exception, io_error,
}
use lance_duckdb.Common.Int.{ℤ}
use lance_duckdb.ExprIr.Types.{LogicalType, ColumnBinding}

-- A function answers false, or throws; `cast_failed` is an exception of DuckDB's from a cast.
pub data Refusal : Type 0 where
  declined cast_failed : Refusal
  thrown : Exception → Refusal

abbrev pub Attempt {ℓ} : Type ℓ → Type ℓ
Attempt A = Result Refusal A

abbrev pub attempt {ℓ} : {A : Type ℓ} → Option A → Attempt A
attempt o = or_throw o declined

-- `if (test) return false;`
abbrev pub decline_if : Bool → Attempt (Unit {0})
decline_if test = throw_if test declined

-- `if (ExecIrFailfast()) throw IOException(...); return false;`
abbrev pub refusal : (failfast : Bool) → Refusal
refusal failfast = if failfast then thrown io_error else declined

abbrev pub refuse_if : (failfast : Bool) → Bool → Attempt (Unit {0})
refuse_if failfast test = throw_if test (refusal failfast)

-- An integer is one of the eight integer types, a double or float its bit pattern, and a decimal its
-- unscaled value.
pub data Value : Type 0 where
  null other : Value
  integer : ℤ → Value
  float double : ℕ → Value
  boolean : Bool → Value
  varchar : Bytes → Value
  decimal : (width scale : ℕ) → ℤ → Value

-- What every expression has: its return type, what HasParameter, IsVolatile and CanThrow answer, and
-- GetName.
pub record Info : Type 0 where
  pub return_type : LogicalType
  pub has_parameter : Bool
  pub is_volatile : Bool
  pub can_throw : Bool
  pub name : Bytes

-- An expression by its class; `null` is a null pointer. An operator comes with what
-- ExpressionTypeToOperator answers for it, an aggregate with whether it is DISTINCT, has a FILTER or has
-- an ORDER BY.
mutual
  pub data Expression : Type 0 where
    null : Expression
    other : Info → Expression
    column_ref : Info → ColumnBinding → Expression
    reference : Info → (index : ℕ) → Expression
    constant : Info → Value → Expression
    cast : Info → (child : Expression) → Expression
    function : Info → (name : Bytes) → Expressions → Expression
    operator : Info → (op_str : Bytes) → Expressions → Expression
    aggregate :
        Info → (name : Bytes) → (distinct filtered ordered : Bool) → Expressions → Expression

  pub data Expressions : Type 0 where
    nil : Expressions
    cons : Expression → Expressions → Expressions

-- StringUtil::Lower, the comparison of types, Value::DefaultCastAs (`none` where it throws; of an integer
-- to BIGINT by itself), and the conversion of a FLOAT to a DOUBLE.
pub record DuckDb : Type 0 where
  pub lower : Bytes → Bytes
  pub same_type : LogicalType → LogicalType → Bool
  pub cast_as : Value → LogicalType → Option Value
  pub to_bigint : ℤ → Option ℤ
  pub float_to_double : ℕ → ℕ

pub data OutputTypeHint : Type 0 where
  bool int64 double date timestamp_us utf8 : OutputTypeHint
  decimal : (precision scale : ℕ) → OutputTypeHint

pub data LiteralIr : Type 0 where
  null : LiteralIr
  int64 : ℤ → LiteralIr
  double : ℕ → LiteralIr
  bool : Bool → LiteralIr
  string : Bytes → LiteralIr
  decimal128 : (value : ℤ) (precision scale : ℕ) → LiteralIr

pub data BinaryOp : Type 0 where
  add sub mul div : BinaryOp

pub data ExprIr : Type 0 where
  column_ref : Bytes → ExprIr
  literal : LiteralIr → ExprIr
  binary : BinaryOp → (lhs rhs : ExprIr) → ExprIr
  cast : (to : OutputTypeHint) → ExprIr → ExprIr

pub data AggFunc : Type 0 where
  sum count count_star min max avg : AggFunc

pub record GroupIr : Type 0 where
  pub output_name : Bytes
  pub expr : ExprIr
  pub output_type : Option OutputTypeHint

pub record AggIr : Type 0 where
  pub func : AggFunc
  pub output_name : Bytes
  pub args : List ExprIr
  pub output_type : Option OutputTypeHint

pub record OrderByIr : Type 0 where
  pub column : Bytes
  pub asc : Bool
  pub nulls_first : Bool

pub record ExecIr : Type 0 where
  pub filter_ir : Bytes
  pub scan_projection : List Bytes
  pub groups : List GroupIr
  pub aggs : List AggIr
  pub order_by : List OrderByIr
