-- ===== src/ExprIr/Nodes.antt =====
-- src/lance_expr_ir.cpp: the encoders of a node, over the bytes of its children, and the functions
-- that lance_expr_ir.hpp exports for them. The number that a node begins with is its
-- LanceUpdateExprIRTag. An exported function that answers false is `none` here.
use lance_duckdb.Common.{
  ℕ, Bytes, Bool, true, false, List, [], ◌∷◌, Option, none, some, length, ltb, ◌==◌, ◌||◌, ◌&&◌,
  not, if◌then◌else◌, bit_or, Result, ok, err, ◌>>=◌, ◌>>◌, throw_if, try_catch, Exception,
  invalid_input, not_implemented, internal,
}
use lance_duckdb.Wire.Writer.{
  append_u8, append_u32, append_len_prefixed, append_len_prefixed_string, append_all_len_prefixed,
  u32_max, encode_message,
}
use lance_duckdb.ExprIr.Types.{
  Value, DuckDb, ExpressionType, compare_equal, compare_not_equal, compare_less_than,
  compare_less_than_or_equal, compare_greater_than, compare_greater_than_or_equal,
  compare_distinct_from, compare_not_distinct_from,
}
use lance_duckdb.ExprIr.Literals.{encode_literal}

abbrev pub is_empty : Bytes → Bool
is_empty [] = true
is_empty (_ ∷ _) = false

-- Some segment of the path is empty.
unfoldable pub any_empty : List Bytes → Bool
any_empty [] = false
any_empty (s ∷ ss) = is_empty s || any_empty ss

unfoldable pub encode_column_ref : List Bytes → Result Exception Bytes
encode_column_ref segments = do
  throw_if (length segments == 0) not_implemented
  throw_if (any_empty segments) not_implemented
  throw_if (ltb u32_max (length segments)) invalid_input
  append_all_len_prefixed (append_u32 (append_u8 [] 1) (length segments)) segments

unfoldable pub encode_column_name : Bytes → Result Exception Bytes
encode_column_name name = encode_column_ref (name ∷ [])

unfoldable pub encode_comparison_op : ExpressionType → Result Exception ℕ
encode_comparison_op compare_equal = ok 0
encode_comparison_op compare_not_equal = ok 1
encode_comparison_op compare_less_than = ok 2
encode_comparison_op compare_less_than_or_equal = ok 3
encode_comparison_op compare_greater_than = ok 4
encode_comparison_op compare_greater_than_or_equal = ok 5
encode_comparison_op compare_distinct_from = ok 6
encode_comparison_op compare_not_distinct_from = ok 7
encode_comparison_op _ = err not_implemented

unfoldable pub encode_unary_node : ℕ → Bytes → Result Exception Bytes
encode_unary_node tag child = append_len_prefixed (append_u8 [] tag) child

unfoldable pub encode_binary_node : ℕ → Bytes → Bytes → Result Exception Bytes
encode_binary_node op lhs rhs = do
  out ← append_len_prefixed (append_u8 (append_u8 [] 4) op) lhs
  append_len_prefixed out rhs

unfoldable pub encode_comparison_node : ℕ → Bytes → Bytes → Result Exception Bytes
encode_comparison_node op lhs rhs = do
  out ← append_len_prefixed (append_u8 (append_u8 [] 5) op) lhs
  append_len_prefixed out rhs

unfoldable pub encode_conjunction_node : ℕ → List Bytes → Result Exception Bytes
encode_conjunction_node op children = do
  throw_if (length children == 0) internal
  throw_if (ltb u32_max (length children)) invalid_input
  append_all_len_prefixed (append_u32 (append_u8 (append_u8 [] 6) op) (length children)) children

unfoldable pub encode_function_node : DuckDb → Bytes → List Bytes → Result Exception Bytes
encode_function_node db name args = do
  throw_if (ltb u32_max (length args)) invalid_input
  out ← append_len_prefixed_string (append_u8 [] 8) (db.lower name)
  append_all_len_prefixed (append_u32 out (length args)) args

abbrev pub flag : Bool → ℕ → ℕ
flag b f = if b then f else 0

unfoldable pub encode_like_node : Bool → Bool → ℕ → Bytes → Bytes → Result Exception Bytes
encode_like_node case_insensitive has_escape escape_char expr pattern = do
  let flags = bit_or (bit_or 0 (flag case_insensitive 1)) (flag has_escape 2)
  out ← append_len_prefixed (append_u8 (append_u8 [] 13) flags) expr
  out' ← append_len_prefixed out pattern
  ok (if has_escape then append_u8 out' escape_char else out')

unfoldable pub encode_regexp_node : ℕ → Bool → Bytes → Bytes → Bytes → Result Exception Bytes
encode_regexp_node mode has_flags expr pattern flags = do
  throw_if (not (mode == 0) && not (mode == 1)) invalid_input
  out ← append_len_prefixed (append_u8 (append_u8 (append_u8 [] 14) mode) (flag has_flags 1)) expr
  out' ← append_len_prefixed out pattern
  if has_flags then append_len_prefixed out' flags else ok out'

unfoldable pub append_checks : Bytes → List (Bytes × Bytes) → Result Exception Bytes
append_checks out [] = ok out
append_checks out ((when_ir, then_ir) ∷ checks) = do
  out' ← append_len_prefixed out when_ir
  out'' ← append_len_prefixed out' then_ir
  append_checks out'' checks

unfoldable pub append_else : Bytes → Option Bytes → Result Exception Bytes
append_else out none = ok (append_u8 out 0)
append_else out (some else_ir) = append_len_prefixed (append_u8 out 1) else_ir

unfoldable pub encode_case_node : List (Bytes × Bytes) → Option Bytes → Result Exception Bytes
unfolding append_checks append_else
encode_case_node checks else_ir = do
  throw_if (length checks == 0) not_implemented
  throw_if (ltb u32_max (length checks)) invalid_input
  out ← append_checks (append_u32 (append_u8 [] 9) (length checks)) checks
  append_else out else_ir

unfoldable pub encode_in_list_node : Bool → Bytes → List Bytes → Result Exception Bytes
encode_in_list_node negated expr list = do
  out ← append_len_prefixed (append_u8 (append_u8 [] 12) (flag negated 1)) expr
  throw_if (ltb u32_max (length list)) invalid_input
  append_all_len_prefixed (append_u32 out (length list)) list

unfoldable pub try_encode_column_name : Bytes → Option Bytes
try_encode_column_name name = try_catch (encode_column_name name)

unfoldable pub try_encode_column_ref : List Bytes → Option Bytes
try_encode_column_ref segments = try_catch (encode_column_ref segments)

unfoldable pub try_encode_literal : DuckDb → Value → Option Bytes
try_encode_literal db value = try_catch (encode_literal db value)

unfoldable pub try_encode_comparison_op : ExpressionType → Option ℕ
try_encode_comparison_op type = try_catch (encode_comparison_op type)

unfoldable pub try_encode_and : List Bytes → Option Bytes
try_encode_and children = try_catch (encode_conjunction_node 1 children)

unfoldable pub try_encode_or : List Bytes → Option Bytes
try_encode_or children = try_catch (encode_conjunction_node 2 children)

unfoldable pub try_encode_not : Bytes → Option Bytes
try_encode_not child = try_catch (encode_unary_node 7 child)

unfoldable pub try_encode_is_null : Bytes → Option Bytes
try_encode_is_null child = try_catch (encode_unary_node 10 child)

unfoldable pub try_encode_is_not_null : Bytes → Option Bytes
try_encode_is_not_null child = try_catch (encode_unary_node 11 child)

unfoldable pub try_encode_comparison : ℕ → Bytes → Bytes → Option Bytes
try_encode_comparison op left right = try_catch (encode_comparison_node op left right)

unfoldable pub try_encode_in_list : Bool → Bytes → List Bytes → Option Bytes
try_encode_in_list negated expr list = try_catch (encode_in_list_node negated expr list)

unfoldable pub try_encode_scalar_function : DuckDb → Bytes → List Bytes → Option Bytes
try_encode_scalar_function db name args = try_catch (encode_function_node db name args)

unfoldable pub try_encode_like : Bool → Bool → ℕ → Bytes → Bytes → Option Bytes
try_encode_like case_insensitive has_escape escape_char expr pattern =
    try_catch (encode_like_node case_insensitive has_escape escape_char expr pattern)

unfoldable pub try_encode_regexp : ℕ → Bool → Bytes → Bytes → Bytes → Option Bytes
try_encode_regexp mode has_flags expr pattern flags =
    try_catch (encode_regexp_node mode has_flags expr pattern flags)

unfoldable pub try_wrap_message : Bytes → Option Bytes
try_wrap_message root = some (encode_message root)
