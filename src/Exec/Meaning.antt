-- ===== src/Exec/Meaning.antt =====
-- The expressions of the message, stated without bytes: what an expression of the plan stands for over the
-- projections below it.
use lance_duckdb.Common.{
  ℕ, ◌^◌, ◌≡◌, Bytes, true, false, List, [], ◌∷◌, ◌++◌, Option, none, some, get_elem?, All, ◌==◌,
  ok, err, ◌>>=◌, ◌<◌,
}
use lance_duckdb.Common.Int.{ℤ, IsSigned}
use lance_duckdb.Wire.Reader.{is_utf8}
use lance_duckdb.ExprIr.Types.{LogicalType, big, plain}
use lance_duckdb.ExprIr.Scope.{Scan}
use lance_duckdb.Exec.Types.{
  declined, Attempt, attempt, Value, Info, Expression, Expressions, DuckDb, OutputTypeHint,
  LiteralIr, BinaryOp, ExprIr,
}
use lance_duckdb.Exec.Expr.{Projection, projected, decimal_type, primary_id}
use lance_duckdb.Exec.Named.{named, operations, symbols}

unfoldable pub hint_meaning : LogicalType → Attempt OutputTypeHint
hint_meaning LogicalType.boolean = ok OutputTypeHint.bool
hint_meaning (LogicalType.signed big) = ok OutputTypeHint.int64
hint_meaning LogicalType.double = ok OutputTypeHint.double
hint_meaning LogicalType.date = ok OutputTypeHint.date
hint_meaning (LogicalType.timestamp plain) = ok OutputTypeHint.timestamp_us
hint_meaning LogicalType.varchar = ok OutputTypeHint.utf8
hint_meaning (LogicalType.decimal width scale) = ok (OutputTypeHint.decimal width scale)
hint_meaning _ = err declined

unfoldable pub literal_meaning : DuckDb → Value → Attempt LiteralIr
literal_meaning db Value.null = ok LiteralIr.null
literal_meaning db (Value.integer z) = ok (LiteralIr.int64 z)
literal_meaning db (Value.double bits) = ok (LiteralIr.double bits)
literal_meaning db (Value.float bits) = ok (LiteralIr.double (db.float_to_double bits))
literal_meaning db (Value.boolean b) = ok (LiteralIr.bool b)
literal_meaning db (Value.varchar s) = ok (LiteralIr.string s)
literal_meaning db (Value.decimal width scale dec) = ok (LiteralIr.decimal128 dec width scale)
literal_meaning db Value.other = err declined

abbrev pub as_literal : DuckDb → Value → Attempt ExprIr
as_literal db value = literal_meaning db value >>= λ l. ok (ExprIr.literal l)

abbrev pub column_name : Scan → ℕ → Attempt ExprIr
column_name scan i = do
  col_index ← attempt (get_elem? scan.column_ids i)
  col_id ← primary_id col_index
  name ← attempt (get_elem? scan.names col_id)
  ok (ExprIr.column_ref name)

-- The columns that an expression reads.
unfoldable pub columns_of : ExprIr → List Bytes
columns_of (ExprIr.column_ref name) = name ∷ []
columns_of (ExprIr.literal lit) = []
columns_of (ExprIr.binary op lhs rhs) = columns_of lhs ++ columns_of rhs
columns_of (ExprIr.cast to e) = columns_of e

-- A constant operand of a decimal operation is of its type.
unfoldable pub operand_meaning :
    DuckDb → Option LogicalType → Expression → Attempt ExprIr → Attempt ExprIr
operand_meaning db (some type) (Expression.constant info value) m =
    attempt (db.cast_as value type) >>= as_literal db
operand_meaning db _ child m = m

unfoldable pub binary_meaning :
    DuckDb
    → Info
    → Attempt BinaryOp
    → (left right : Expression) → Attempt ExprIr
    → Attempt ExprIr
    → Attempt ExprIr
binary_meaning db info op left right ml mr = do
  o ← op
  l ← operand_meaning db (decimal_type info left right) left ml
  r ← operand_meaning db (decimal_type info left right) right mr
  ok (ExprIr.binary o l r)

unfoldable pub cast_meaning : DuckDb → Info → Expression → Attempt ExprIr → Attempt ExprIr
cast_meaning db info (Expression.constant info' value) m =
    attempt (db.cast_as value info.return_type) >>= as_literal db
cast_meaning db info child m = do
  hint ← hint_meaning info.return_type
  e ← m
  ok (ExprIr.cast hint e)

module _ (db : DuckDb) (scan : Scan) where
  unfoldable pub exec_meaning : List Projection → Expression → Attempt ExprIr
  exec_meaning stack Expression.null = err declined
  exec_meaning stack (Expression.other info) = err declined
  exec_meaning stack (Expression.aggregate info name distinct filtered ordered children) =
      err declined
  exec_meaning [] (Expression.column_ref info binding) = column_name scan binding.column_index
  exec_meaning (projection ∷ stack) (Expression.column_ref info binding) =
      elim (binding.table_index == scan.table_index) [
        | true ↦ column_name scan binding.column_index
        | false ↦ elim (projected projection binding.column_index) [
          | some e ↦ exec_meaning stack e
          | none ↦ err declined
        ]
      ]
  exec_meaning [] (Expression.reference info index) = column_name scan index
  exec_meaning (projection ∷ stack) (Expression.reference info index) =
      elim (projected projection index) [
        | some e ↦ exec_meaning stack e
        | none ↦ column_name scan index
      ]
  exec_meaning stack (Expression.constant info value) = as_literal db value
  exec_meaning stack (Expression.cast info child) =
      cast_meaning db info child (exec_meaning stack child)
  exec_meaning stack
        (Expression.function info name
          (Expressions.cons left (Expressions.cons right Expressions.nil))) =
      binary_meaning db info (attempt (named operations (db.lower name))) left right
        (exec_meaning stack left) (exec_meaning stack right)
  exec_meaning stack (Expression.function info name _) = err declined
  exec_meaning stack
        (Expression.operator info symbol
          (Expressions.cons left (Expressions.cons right Expressions.nil))) =
      binary_meaning db info (attempt (named symbols symbol)) left right (exec_meaning stack left)
        (exec_meaning stack right)
  exec_meaning stack (Expression.operator info symbol _) = err declined

-- The values that their C++ types hold, with texts in UTF-8.
abbrev pub IsValue : Value → Type 0
IsValue (Value.double bits) = bits < 2 ^ 64
IsValue (Value.varchar s) = is_utf8 s ≡ true
IsValue (Value.decimal width scale dec) = IsSigned (2 ^ 127) dec
IsValue _ = Unit

-- A cast gives a value of its type, an integer that BIGINT holds stays what it is, and a DOUBLE has 64 bits.
pub record IsDuckDb (db : DuckDb) : Type 0 where
  pub cast_value :
      (v : Value) (t : LogicalType) {w : Value} → IsValue v → db.cast_as v t ≡ some w → IsValue w
  pub bigint_same : (z : ℤ) {w : ℤ} → db.to_bigint z ≡ some w → (w ≡ z) × IsSigned (2 ^ 63) w
  pub double_range : (bits : ℕ) → db.float_to_double bits < 2 ^ 64

unfoldable mutual
  pub IsExpression : Expression → Type 0
  IsExpression Expression.null = Unit
  IsExpression (Expression.other info) = Unit
  IsExpression (Expression.column_ref info binding) = Unit
  IsExpression (Expression.reference info index) = Unit
  IsExpression (Expression.constant info value) = IsValue value
  IsExpression (Expression.cast info child) = IsExpression child
  IsExpression (Expression.function info name children) = AllExpressions children
  IsExpression (Expression.operator info symbol children) = AllExpressions children
  IsExpression (Expression.aggregate info name distinct filtered ordered children) =
      AllExpressions children

  pub AllExpressions : Expressions → Type 0
  AllExpressions Expressions.nil = Unit
  AllExpressions (Expressions.cons e es) = IsExpression e × AllExpressions es

-- The projections below hold such expressions.
abbrev pub IsStack : List Projection → Type 0
IsStack stack = All (All IsExpression) stack
