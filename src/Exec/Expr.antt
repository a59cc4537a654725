-- ===== src/Exec/Expr.antt =====
-- src/lance_exec_ir.cpp, TryMapBinaryOp to TryEncodeExecExpr: the encoder of an expression over a stack
-- of projections above the scan.
use lance_duckdb.Common.{
  ℕ, Bytes, Bool, true, false, List, [], ◌∷◌, ◌++◌, Option, none, some, get_elem?, bytes_eq, ◌==◌,
  ◌||◌, not, if◌then◌else◌, ok, err, ◌>>=◌, ◌>>◌,
}
use lance_duckdb.ExprIr.Types.{LogicalType}
use lance_duckdb.ExprIr.Nodes.{is_empty}
use lance_duckdb.ExprIr.Update.{word_add, word_subtract, word_multiply, word_divide}
use lance_duckdb.ExprIr.Scope.{ColumnIndex, Scan}
use lance_duckdb.Exec.Types.{
  declined, Attempt, attempt, decline_if, Value, Info, Expression, Expressions, DuckDb, BinaryOp,
  add, sub, mul, div,
}
use lance_duckdb.Exec.Write.{write_string, try_encode_output_type_hint, try_encode_exec_literal}

abbrev pub is_null_pointer : Expression → Bool
is_null_pointer Expression.null = true
is_null_pointer _ = false

-- The tag of an ExecIrBinaryOp.
abbrev pub op_tag : BinaryOp → ℕ
op_tag add = 1
op_tag sub = 2
op_tag mul = 3
op_tag div = 4

unfoldable pub op_of_name : Bytes → Attempt BinaryOp
op_of_name name =
    if bytes_eq name (b'+' ∷ []) || bytes_eq name word_add
    then ok add
    else if bytes_eq name (b'-' ∷ []) || bytes_eq name word_subtract
    then ok sub
    else if bytes_eq name (b'*' ∷ []) || bytes_eq name word_multiply
    then ok mul
    else if bytes_eq name (b'/' ∷ []) || bytes_eq name word_divide
    then ok div
    else err declined

-- The operators, by their symbol alone.
unfoldable pub op_of_symbol : Bytes → Attempt BinaryOp
op_of_symbol symbol =
    if bytes_eq symbol (b'+' ∷ [])
    then ok add
    else if bytes_eq symbol (b'-' ∷ [])
    then ok sub
    else if bytes_eq symbol (b'*' ∷ [])
    then ok mul
    else if bytes_eq symbol (b'/' ∷ [])
    then ok div
    else err declined

abbrev pub info_of : Expression → Option Info
info_of Expression.null = none
info_of (Expression.other info) = some info
info_of (Expression.column_ref info binding) = some info
info_of (Expression.reference info index) = some info
info_of (Expression.constant info value) = some info
info_of (Expression.cast info child) = some info
info_of (Expression.function info name children) = some info
info_of (Expression.operator info symbol children) = some info
info_of (Expression.aggregate info name distinct filtered ordered children) = some info

abbrev pub decimal_or : LogicalType → Option LogicalType → Option LogicalType
decimal_or (LogicalType.decimal width scale) otherwise = some (LogicalType.decimal width scale)
decimal_or _ otherwise = otherwise

abbrev pub decimal_of : Option Info → Option LogicalType → Option LogicalType
decimal_of none otherwise = otherwise
decimal_of (some info) otherwise = decimal_or info.return_type otherwise

-- The type that constant operands are cast to: a decimal, of the left operand, of the right one, or of
-- the result.
unfoldable pub decimal_type : Info → (left right : Expression) → Option LogicalType
decimal_type info left right =
    decimal_of (info_of left) (decimal_of (info_of right) (decimal_or info.return_type none))

-- The bytes that are appended, and the columns of the table that they mention.
abbrev pub Encoded : Type 0
Encoded = Bytes × List ℕ

abbrev pub primary_id : ColumnIndex → Attempt ℕ
primary_id ColumnIndex.virtual = err declined
primary_id (ColumnIndex.primary col_id) = ok col_id

-- A column of the scan.
unfoldable pub encode_scan_column : Scan → ℕ → Attempt Encoded
encode_scan_column scan i = do
  col_index ← attempt (get_elem? scan.column_ids i)
  col_id ← primary_id col_index
  name ← attempt (get_elem? scan.names col_id)
  decline_if (is_empty name)
  text ← write_string name
  ok (1 ∷ text, col_id ∷ [])

unfoldable pub literal_only : DuckDb → Value → Attempt Encoded
literal_only db value = do bytes ← try_encode_exec_literal db value; ok (bytes, [])

-- An operand: a constant is cast to the decimal type, if there is one.
unfoldable pub encode_operand :
    DuckDb → Option LogicalType → Expression → Attempt Encoded → Attempt Encoded
encode_operand db (some type) (Expression.constant info value) encoded = do
  v ← attempt (db.cast_as value type)
  literal_only db v
encode_operand db _ child encoded = encoded

unfoldable pub encode_binary :
    DuckDb
    → Info
    → BinaryOp
    → (left right : Expression) → Attempt Encoded
    → Attempt Encoded
    → Attempt Encoded
encode_binary db info op left right encoded_left encoded_right = do
  let type = decimal_type info left right
  (lhs, left_cols) ← encode_operand db type left encoded_left
  (rhs, right_cols) ← encode_operand db type right encoded_right
  ok (3 ∷ op_tag op ∷ (lhs ++ rhs), left_cols ++ right_cols)

-- A cast of a constant is made here.
unfoldable pub encode_exec_cast : DuckDb → Info → Expression → Attempt Encoded → Attempt Encoded
encode_exec_cast db info (Expression.constant info' value) encoded = do
  v ← attempt (db.cast_as value info.return_type)
  literal_only db v
encode_exec_cast db info child encoded = do
  type_hint ← try_encode_output_type_hint info.return_type
  (bytes, cols) ← encoded
  ok (4 ∷ (type_hint ++ bytes), cols)

-- The expressions of a projection.
abbrev pub Projection : Type 0
Projection = List Expression

-- The projection's expression at an index, if it is there and no null pointer.
abbrev pub projected : Projection → ℕ → Option Expression
projected p i = elim (get_elem? p i) [ none ↦ none | some Expression.null ↦ none | some e ↦ some e ]

-- In the source a reference is also compared, by its address, with the expression that it refers to; an
-- expression of a projection is never looked up in that projection itself.
module _ (db : DuckDb) (scan : Scan) where
  unfoldable pub try_encode_exec_expr : List Projection → Expression → Attempt Encoded
  try_encode_exec_expr stack Expression.null = err declined
  try_encode_exec_expr stack (Expression.other info) = err declined
  try_encode_exec_expr stack (Expression.aggregate info name distinct filtered ordered children) =
      err declined
  try_encode_exec_expr [] (Expression.column_ref info binding) = do
    decline_if (not (binding.table_index == scan.table_index))
    encode_scan_column scan binding.column_index
  try_encode_exec_expr (projection ∷ stack) (Expression.column_ref info binding) =
      elim (binding.table_index == scan.table_index) [
        | true ↦ encode_scan_column scan binding.column_index
        | false ↦ elim (projected projection binding.column_index) [
          | some e ↦ try_encode_exec_expr stack e
          | none ↦ err declined
        ]
      ]
  try_encode_exec_expr [] (Expression.reference info index) = encode_scan_column scan index
  try_encode_exec_expr (projection ∷ stack) (Expression.reference info index) =
      elim (projected projection index) [
        | some e ↦ try_encode_exec_expr stack e
        | none ↦ encode_scan_column scan index
      ]
  try_encode_exec_expr stack (Expression.constant info value) = literal_only db value
  try_encode_exec_expr stack (Expression.cast info child) =
      encode_exec_cast db info child (try_encode_exec_expr stack child)
  try_encode_exec_expr stack
        (Expression.function info name
          (Expressions.cons left (Expressions.cons right Expressions.nil))) =
      do
        op ← op_of_name (db.lower name)
        encode_binary db info op left right (try_encode_exec_expr stack left)
            (try_encode_exec_expr stack right)
  try_encode_exec_expr stack (Expression.function info name _) = err declined
  try_encode_exec_expr stack
        (Expression.operator info symbol
          (Expressions.cons left (Expressions.cons right Expressions.nil))) =
      do
        decline_if (is_null_pointer left || is_null_pointer right)
        op ← op_of_symbol symbol
        encode_binary db info op left right (try_encode_exec_expr stack left)
            (try_encode_exec_expr stack right)
  try_encode_exec_expr stack (Expression.operator info symbol _) = err declined
