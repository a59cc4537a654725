-- ===== src/ExprIr/Parser/Nodes.antt =====
-- rust/expr_ir.rs: the parser of each kind of node, over the parser of a subexpression.
use lance_duckdb.Common.{
  ℕ, zero, suc, ◌-◌, Bytes, false, Option, none, some, ◌==◌, not, if◌then◌else◌, bit_and, Result,
  ok, err, ◌>>=◌, ◌>>◌, throw_if,
}
use lance_duckdb.Wire.Reader.{
  ParseError, Reader, bad_tag, no_children, no_branches, bad_regexp, read_u8, read_u32,
  read_len_prefixed_bytes, read_string,
}
use lance_duckdb.ExprIr.Types.{Operator, regexp_like, Expr, Exprs, Checks}
use lance_duckdb.ExprIr.Parser.Leaves.{
  parse_literal, parse_type, parse_column_ref, binary_op, comparison_op, conjunction_op,
}
use lance_duckdb.ExprIr.Parser.Calls.{
  Session, resolve_scalar_function, string_literal, regexp_options, normalize_options,
  match_pattern, regexp_args,
}

-- The parsers of a node, over the parser of a subexpression.
module _ (session : Session) (subexpr : Bytes → Result ParseError Expr) where
  unfoldable pub parse_child : Reader Expr
  parse_child bs = do (raw, rest) ← read_len_prefixed_bytes bs; e ← subexpr raw; ok (e, rest)

  unfoldable pub parse_children : ℕ → Reader Exprs
  parse_children zero bs = ok (Exprs.nil, bs)
  parse_children (suc n) bs = do
    (e, bs') ← parse_child bs
    (es, rest) ← parse_children n bs'
    ok (Exprs.cons e es, rest)

  -- `expr = BinaryExpr(expr, op, rhs)` for the children behind the first.
  unfoldable pub parse_conjuncts : Operator → ℕ → Expr → Reader Expr
  parse_conjuncts op zero e bs = ok (e, bs)
  parse_conjuncts op (suc n) e bs = do
    (rhs, bs') ← parse_child bs
    parse_conjuncts op n (Expr.binary e op rhs) bs'

  unfoldable pub parse_checks : ℕ → Reader Checks
  parse_checks zero bs = ok (Checks.end, bs)
  parse_checks (suc n) bs = do
    (when_expr, bs') ← parse_child bs
    (then_expr, bs'') ← parse_child bs'
    (checks, rest) ← parse_checks n bs''
    ok (Checks.check when_expr then_expr checks, rest)

  unfoldable pub parse_cast : Reader Expr
  parse_cast bs = do
    (type, bs') ← parse_type bs
    (e, rest) ← parse_child bs'
    ok (Expr.cast e type, rest)

  unfoldable pub parse_binary : (ℕ → Result ParseError Operator) → Reader Expr
  parse_binary op_of bs = do
    (o, bs') ← read_u8 bs
    op ← op_of o
    (lhs, bs'') ← parse_child bs'
    (rhs, rest) ← parse_child bs''
    ok (Expr.binary lhs op rhs, rest)

  unfoldable pub parse_conjunction : Reader Expr
  parse_conjunction bs = do
    (o, bs₁) ← read_u8 bs
    op ← conjunction_op o
    (count, bs₂) ← read_u32 bs₁
    throw_if (count == 0) no_children
    (first, bs₃) ← parse_child bs₂
    parse_conjuncts op (count - 1) first bs₃

  unfoldable pub parse_unary : (Expr → Expr) → Reader Expr
  parse_unary build bs = do (e, rest) ← parse_child bs; ok (build e, rest)

  unfoldable pub parse_function : Reader Expr
  parse_function bs = do
    (name, bs₁) ← read_string bs
    (count, bs₂) ← read_u32 bs₁
    (args, rest) ← parse_children count bs₂
    udf ← resolve_scalar_function session name
    ok (Expr.scalar_function udf args, rest)

  unfoldable pub parse_else : Checks → ℕ → Reader Expr
  parse_else checks has_else bs =
      if has_else == 0
      then ok (Expr.case checks, bs)
      else (do (e, rest) ← parse_child bs; ok (Expr.case_else checks e, rest))

  unfoldable pub parse_case : Reader Expr
  unfolding parse_else
  parse_case bs = do
    (count, bs₁) ← read_u32 bs
    throw_if (count == 0) no_branches
    (checks, bs₂) ← parse_checks count bs₁
    (has_else, bs₃) ← read_u8 bs₂
    parse_else checks has_else bs₃

  unfoldable pub parse_in_list : Reader Expr
  parse_in_list bs = do
    (negated, bs₁) ← read_u8 bs
    (e, bs₂) ← parse_child bs₁
    (count, bs₃) ← read_u32 bs₂
    (items, rest) ← parse_children count bs₃
    ok (Expr.in_list e items (not (negated == 0)), rest)

  unfoldable pub parse_escape : ℕ → Reader (Option ℕ)
  parse_escape flags bs =
      if bit_and flags 2 == 0 then ok (none, bs) else (do (c, rest) ← read_u8 bs; ok (some c, rest))

  unfoldable pub parse_like : Reader Expr
  unfolding parse_escape
  parse_like bs = do
    (flags, bs₁) ← read_u8 bs
    (e, bs₂) ← parse_child bs₁
    (pattern, bs₃) ← parse_child bs₂
    (escape_char, rest) ← parse_escape flags bs₃
    ok (Expr.like e pattern escape_char (not (bit_and flags 1 == 0)), rest)

  unfoldable pub parse_options : ℕ → Reader (Option Bytes)
  parse_options has_flags bs = if has_flags == 0 then ok (none, bs) else (do
    (flags_expr, rest) ← parse_child bs
    flags ← string_literal flags_expr
    (has_i, has_s) ← regexp_options false false flags
    ok (normalize_options has_i has_s, rest))

  unfoldable pub parse_regexp : Reader Expr
  unfolding parse_options
  parse_regexp bs = do
    (mode, bs₁) ← read_u8 bs
    (has_flags, bs₂) ← read_u8 bs₁
    (value, bs₃) ← parse_child bs₂
    (pattern, bs₄) ← parse_child bs₃
    (flags, rest) ← parse_options has_flags bs₄
    pattern_str ← match_pattern mode pattern
    throw_if (not (session.compiles pattern_str flags)) bad_regexp
    ok (Expr.scalar_function regexp_like (regexp_args value pattern_str flags), rest)

  -- The match on the tag.
  unfoldable pub parse_tagged : ℕ → Reader Expr
  parse_tagged tag bs =
      if tag == 1
      then parse_column_ref bs
      else if tag == 2
      then parse_literal bs
      else if tag == 3
      then parse_cast bs
      else if tag == 4
      then parse_binary binary_op bs
      else if tag == 5
      then parse_binary comparison_op bs
      else if tag == 6
      then parse_conjunction bs
      else if tag == 7
      then parse_unary Expr.not bs
      else if tag == 8
      then parse_function bs
      else if tag == 9
      then parse_case bs
      else if tag == 10
      then parse_unary Expr.is_null bs
      else if tag == 11
      then parse_unary Expr.is_not_null bs
      else if tag == 12
      then parse_in_list bs
      else if tag == 13
      then parse_like bs
      else if tag == 14
      then parse_regexp bs
      else err bad_tag

  unfoldable pub parse_node : Reader Expr
  unfolding parse_tagged
  parse_node bs = do (tag, rest) ← read_u8 bs; parse_tagged tag rest
