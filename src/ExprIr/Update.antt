-- ===== src/ExprIr/Update.antt =====
-- src/lance_expr_ir.cpp: EncodeUpdateExprNode. The mutual recursion of the source over operators and
-- expressions is two recursions in the model: over the expression, with the two ways to resolve a
-- reference as parameters, and over the scope (Scope).
use lance_duckdb.Common.{
  ℕ, suc, Bytes, Bool, true, false, List, [], ◌∷◌, Option, none, some, bytes_eq, ◌||◌,
  if◌then◌else◌, Result, ok, err, ◌>>=◌, ◌>>◌, throw_if, Exception, not_implemented, internal,
}
use lance_duckdb.Wire.Writer.{append_u8, append_u32, append_bytes, append_len_prefixed}
use lance_duckdb.ExprIr.Types.{
  DuckDb, ExpressionType, compare_in, compare_not_in, operator_not, operator_is_null,
  operator_is_not_null, conjunction_and, conjunction_or, ColumnBinding, BoundExpr, BoundExprs,
  BoundChecks,
}
use lance_duckdb.ExprIr.Literals.{encode_literal, encode_type_hint}
use lance_duckdb.ExprIr.Nodes.{
  is_empty, flag, encode_column_name, encode_comparison_op, encode_unary_node, encode_binary_node,
  encode_comparison_node, encode_conjunction_node, encode_function_node, encode_case_node,
}

abbrev pub word_add : Bytes
word_add = b'a' ∷ b'd' ∷ b'd' ∷ []

abbrev pub word_subtract : Bytes
word_subtract = b's' ∷ b'u' ∷ b'b' ∷ b't' ∷ b'r' ∷ b'a' ∷ b'c' ∷ b't' ∷ []

abbrev pub word_multiply : Bytes
word_multiply = b'm' ∷ b'u' ∷ b'l' ∷ b't' ∷ b'i' ∷ b'p' ∷ b'l' ∷ b'y' ∷ []

abbrev pub word_divide : Bytes
word_divide = b'd' ∷ b'i' ∷ b'v' ∷ b'i' ∷ b'd' ∷ b'e' ∷ []

-- The code of LanceUpdateExprIRBinaryOp for a name in lower case.
unfoldable pub binary_op_code : Bytes → Option ℕ
binary_op_code lowered =
    if bytes_eq lowered (b'+' ∷ []) || bytes_eq lowered word_add
    then some 1
    else if bytes_eq lowered (b'-' ∷ []) || bytes_eq lowered word_subtract
    then some 2
    else if bytes_eq lowered (b'*' ∷ []) || bytes_eq lowered word_multiply
    then some 3
    else if bytes_eq lowered (b'/' ∷ []) || bytes_eq lowered word_divide
    then some 4
    else none

-- A call whose arguments are encoded. The names that make a call of two arguments a BINARY node are
-- those that MapBinaryOpName knows.
unfoldable pub encode_call : DuckDb → Bytes → List Bytes → Result Exception Bytes
encode_call db name (lhs ∷ rhs ∷ []) = elim (binary_op_code (db.lower name)) [
  | some op ↦ encode_binary_node op lhs rhs
  | none ↦ encode_function_node db name (lhs ∷ rhs ∷ [])
]
encode_call db name args = encode_function_node db name args

unfoldable pub conjunction_code : ExpressionType → Result Exception ℕ
conjunction_code conjunction_and = ok 1
conjunction_code conjunction_or = ok 2
conjunction_code _ = err not_implemented

unfoldable pub is_null_expr : BoundExpr → Bool
is_null_expr BoundExpr.null = true
is_null_expr _ = false

unfoldable pub count_exprs : BoundExprs → ℕ
count_exprs BoundExprs.nil = 0
count_exprs (BoundExprs.cons e es) = suc (count_exprs es)

unfoldable pub encode_cast : Bytes → Bytes → Result Exception Bytes
encode_cast type_ir child_ir = append_len_prefixed (append_bytes (append_u8 [] 3) type_ir) child_ir

unfoldable pub encode_between : ℕ → ℕ → Bytes → Bytes → Bytes → Result Exception Bytes
encode_between lower_op upper_op input_ir lower_ir upper_ir = do
  lower_cmp_ir ← encode_comparison_node lower_op input_ir lower_ir
  upper_cmp_ir ← encode_comparison_node upper_op input_ir upper_ir
  encode_conjunction_node 1 (lower_cmp_ir ∷ upper_cmp_ir ∷ [])

-- A null pointer that is dereferenced is an InternalException, as is one that the source tests for.
module _ (db : DuckDb) (by_binding : ColumnBinding → Result Exception Bytes)
    (by_index : ℕ → Result Exception Bytes) where
  unfoldable mutual
    pub encode_node : BoundExpr → Result Exception Bytes
    encode_node BoundExpr.null = err internal
    encode_node BoundExpr.other = err not_implemented
    encode_node (BoundExpr.column_ref binding) = by_binding binding
    encode_node (BoundExpr.reference alias index) =
        if is_empty alias then by_index index else encode_column_name alias
    encode_node (BoundExpr.constant value) = encode_literal db value
    encode_node (BoundExpr.cast try_cast type child) = do
      throw_if (is_null_expr child) internal
      throw_if try_cast not_implemented
      child_ir ← encode_node child
      type_ir ← encode_type_hint type
      encode_cast type_ir child_ir
    encode_node (BoundExpr.function name children) = do
      args ← encode_nodes children
      encode_call db name args
    encode_node (BoundExpr.operator type children) = elim type [
      | operator_not ↦ encode_unary_child 7 children
      | operator_is_null ↦ encode_unary_child 10 children
      | operator_is_not_null ↦ encode_unary_child 11 children
      | compare_in ↦ encode_in false children
      | compare_not_in ↦ encode_in true children
      | _ ↦ err not_implemented
    ]
    encode_node (BoundExpr.comparison type left right) = do
      lhs_ir ← encode_node left
      rhs_ir ← encode_node right
      op ← encode_comparison_op type
      encode_comparison_node op lhs_ir rhs_ir
    encode_node (BoundExpr.conjunction type children) = do
      op ← conjunction_code type
      irs ← encode_nodes children
      encode_conjunction_node op irs
    encode_node (BoundExpr.case checks else_expr) = do
      irs ← encode_checks checks
      elim (is_null_expr else_expr) [
        | true ↦ encode_case_node irs none
        | false ↦ (encode_node else_expr) >>= λ else_ir. encode_case_node irs (some else_ir)
      ]
    encode_node (BoundExpr.between input lower upper lower_type upper_type) = do
      input_ir ← encode_node input
      lower_ir ← encode_node lower
      upper_ir ← encode_node upper
      lower_op ← encode_comparison_op lower_type
      upper_op ← encode_comparison_op upper_type
      encode_between lower_op upper_op input_ir lower_ir upper_ir

    pub encode_nodes : BoundExprs → Result Exception (List Bytes)
    encode_nodes BoundExprs.nil = ok []
    encode_nodes (BoundExprs.cons e es) = do
      ir ← encode_node e
      irs ← encode_nodes es
      ok (ir ∷ irs)

    -- `children.size() != 1` is malformed.
    pub encode_unary_child : ℕ → BoundExprs → Result Exception Bytes
    encode_unary_child tag BoundExprs.nil = err internal
    encode_unary_child tag (BoundExprs.cons e BoundExprs.nil) = do
      ir ← encode_node e
      encode_unary_node tag ir
    encode_unary_child tag (BoundExprs.cons e (BoundExprs.cons _ _)) = err internal

    -- `children.size() < 2` is malformed. The count goes to a uint32_t by a cast, unchecked.
    pub encode_in : Bool → BoundExprs → Result Exception Bytes
    encode_in negated BoundExprs.nil = err internal
    encode_in negated (BoundExprs.cons e BoundExprs.nil) = err internal
    encode_in negated (BoundExprs.cons e (BoundExprs.cons item items)) = do
      lhs_ir ← encode_node e
      out ← append_len_prefixed (append_u8 (append_u8 [] 12) (flag negated 1)) lhs_ir
      first_ir ← encode_node item
      out' ← append_len_prefixed (append_u32 out (suc (count_exprs items))) first_ir
      append_items out' items

    pub append_items : Bytes → BoundExprs → Result Exception Bytes
    append_items out BoundExprs.nil = ok out
    append_items out (BoundExprs.cons e es) = do
      ir ← encode_node e
      out' ← append_len_prefixed out ir
      append_items out' es

    pub encode_checks : BoundChecks → Result Exception (List (Bytes × Bytes))
    encode_checks BoundChecks.end = ok []
    encode_checks (BoundChecks.check when_expr then_expr checks) = do
      throw_if (is_null_expr when_expr || is_null_expr then_expr) internal
      when_ir ← encode_node when_expr
      then_ir ← encode_node then_expr
      irs ← encode_checks checks
      ok ((when_ir, then_ir) ∷ irs)
