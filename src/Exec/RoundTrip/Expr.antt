-- ===== src/Exec/RoundTrip/Expr.antt =====
-- The bytes of an expression are read as what it stands for.
use lance_duckdb.Common.{
  ℕ, zero, suc, ◌≤◌, ◌≡◌, refl, Bytes, List, [], ◌∷◌, ◌++◌, append_assoc, Option, some, get_elem?,
  length, length-append, All, ok, ◌>>=◌, throw_if-ok, >>=-eq-ok, or_throw-ok, ok-injective, arith,
}
use mathlib.Core.Option.{some-injective}
use mathlib.Core.List.{Forall₂}
use lance_duckdb.Wire.Reader.{read_u8}
use lance_duckdb.ExprIr.Types.{LogicalType}
use lance_duckdb.ExprIr.Nodes.{is_empty}
use lance_duckdb.ExprIr.Scope.{Scan}
use lance_duckdb.ExprIr.RoundTrip.Columns.{IsUtf8}
use lance_duckdb.Filter.Sound.Columns.{All-get_elem}
use lance_duckdb.Exec.Types.{
  declined, Value, Info, Expression, DuckDb, OutputTypeHint, LiteralIr, BinaryOp, add, sub, mul,
  div, ExprIr, Attempt, attempt,
}
use lance_duckdb.Exec.Write.{write_string, try_encode_output_type_hint, try_encode_exec_literal}
use lance_duckdb.Exec.Expr.{
  Encoded, Projection, projected, op_tag, decimal_type, primary_id, encode_scan_column,
  literal_only, encode_operand, encode_binary, encode_exec_cast,
}
use lance_duckdb.Exec.Parser.{
  parse_literal_ir, parse_output_type_hint, parse_binary_op, op_of_tag, node_of_tag,
  parse_expr_node, parse_expr_ir_fuel,
}
use lance_duckdb.Exec.Meaning.{
  hint_meaning, as_literal, columns_of, column_name, operand_meaning, binary_meaning, cast_meaning,
  IsValue, IsDuckDb, IsExpression,
}
use lance_duckdb.Exec.RoundTrip.Leaves.{Takes, write_string-Takes, hint-Takes, literal-Takes}

abbrev pub ReadsExpr : Bytes → ExprIr → Type 0
ReadsExpr bytes x = (fuel : ℕ) → length bytes ≤ fuel → Takes (parse_expr_ir_fuel fuel) bytes x

-- The names of columns, by their places in the table.
abbrev pub Names : List Bytes → List ℕ → List Bytes → Type 0
Names names = Forall₂ (λ i name. get_elem? names i ≡ some name)

Names-append :
    (names : List Bytes) {is js : List ℕ} {ms ns : List Bytes}
    → Names names is ms
    → Names names js ns
    → Names names (is ++ js) (ms ++ ns)
Names-append names Forall₂.nil q = q
Names-append names (Forall₂.cons h p) q = Forall₂.cons h (Names-append names p q)

-- What is encoded is read as what it stands for.
abbrev pub Stands : List Bytes → Attempt Encoded → Attempt ExprIr → Type 0
Stands names encoded m =
    (p : Encoded)
    → encoded ≡ ok p
    → (x : ExprIr) × (m ≡ ok x) × ReadsExpr p.0 x × Names names p.1 (columns_of x)

-- One level, over the parser with one unit less of fuel.
node-ReadsExpr :
    (tag : ℕ) (body : Bytes) (x : ExprIr)
    → ((n : ℕ) → length body ≤ n → Takes (node_of_tag (parse_expr_ir_fuel n) tag) body x)
    → ReadsExpr (tag ∷ body) x
unfolding parse_expr_ir_fuel parse_expr_node read_u8
node-ReadsExpr tag body x h zero lt rest = absurd (omega arith)
node-ReadsExpr tag body x h (suc n) lt rest = h n (omega arith) rest

op-Takes : (op : BinaryOp) (rest : Bytes) → parse_binary_op (op_tag op ∷ rest) ≡ ok (op, rest)
unfolding parse_binary_op op_of_tag read_u8
op-Takes add rest = refl
op-Takes sub rest = refl
op-Takes mul rest = refl
op-Takes div rest = refl

literal-ReadsExpr :
    (body : Bytes) (l : LiteralIr)
    → Takes parse_literal_ir body l
    → ReadsExpr (2 ∷ body) (ExprIr.literal l)
unfolding node_of_tag
literal-ReadsExpr body l t = node-ReadsExpr 2 body _ (λ n lt rest. rw (t rest))

binary-ReadsExpr :
    (op : BinaryOp) (lhs rhs : Bytes) (x y : ExprIr)
    → ReadsExpr lhs x
    → ReadsExpr rhs y
    → ReadsExpr (3 ∷ op_tag op ∷ (lhs ++ rhs)) (ExprIr.binary op x y)
unfolding node_of_tag
binary-ReadsExpr op lhs rhs x y rx ry = node-ReadsExpr 3 (op_tag op ∷ (lhs ++ rhs)) _ λ n lt rest.
    rw (
      op-Takes op (lhs ++ rhs ++ rest),
      append_assoc lhs rhs rest,
      rx n (omega (arith, length-append lhs rhs)) (rhs ++ rest),
      ry n (omega (arith, length-append lhs rhs)) rest,
    )

cast-ReadsExpr :
    (hint : OutputTypeHint) (type_bytes bytes : Bytes) (x : ExprIr)
    → Takes parse_output_type_hint type_bytes hint
    → ReadsExpr bytes x
    → ReadsExpr (4 ∷ (type_bytes ++ bytes)) (ExprIr.cast hint x)
unfolding node_of_tag
cast-ReadsExpr hint type_bytes bytes x t rx = node-ReadsExpr 4 (type_bytes ++ bytes) _ λ n lt rest.
    rw (
      append_assoc type_bytes bytes rest,
      t (bytes ++ rest),
      rx n (omega (arith, length-append type_bytes bytes)) rest,
    )

module _ (db : DuckDb) (laws : IsDuckDb db) (scan : Scan) (named : All IsUtf8 scan.names) where
  pub column-Stands : (i : ℕ) → Stands scan.names (encode_scan_column scan i) (column_name scan i)
  unfolding encode_scan_column node_of_tag columns_of
  column-Stands i p h =
      let (col_index, e₁, k₁) = or_throw-ok (get_elem? scan.column_ids i) declined _ h in
      let (col_id, e₂, k₂) = >>=-eq-ok (primary_id col_index) _ k₁ in
      let (name, e₃, k₃) = or_throw-ok (get_elem? scan.names col_id) declined _ k₂ in
      let (_, k₄) = throw_if-ok (is_empty name) declined _ k₃ in
      let (text, e₄, k₅) = >>=-eq-ok (write_string name) _ k₄ in
      (
        ExprIr.column_ref name,
        rw (e₁, e₂, e₃),
        rw (← ok-injective k₅) (
            node-ReadsExpr 1 text _ (λ n lt rest.
              rw (
                write_string-Takes name (All-get_elem IsUtf8 scan.names col_id named e₃) e₄ rest))),
        rw (← ok-injective k₅) (Forall₂.cons e₃ Forall₂.nil),
      )

  pub literal-Stands :
      (v : Value) → IsValue v → Stands scan.names (literal_only db v) (as_literal db v)
  unfolding literal_only columns_of
  literal-Stands v i p h =
      let (bytes, e, k) = >>=-eq-ok (try_encode_exec_literal db v) _ h in
      let (l, body, m, eb, t) = literal-Takes db laws v i e in
      (
        ExprIr.literal l,
        rw m,
        rw (← ok-injective k) (rw eb (literal-ReadsExpr body l t)),
        rw (← ok-injective k) Forall₂.nil,
      )

  cast_as-Stands :
      (v : Value) (type : LogicalType)
      → IsValue v
      → Stands scan.names
          (attempt (db.cast_as v type) >>= literal_only db)
          (attempt (db.cast_as v type) >>= as_literal db)
  cast_as-Stands v type i p h =
      let (w, e, k) = or_throw-ok (db.cast_as v type) declined _ h in
      let (x, m, reads, n) = literal-Stands w (laws.cast_value v type i e) p k in
      (x, rw e m, reads, n)

  operand-Stands :
      (type : Option LogicalType) (e : Expression) {encoded : Attempt Encoded} {m : Attempt ExprIr}
      → IsExpression e
      → Stands scan.names encoded m
      → Stands scan.names (encode_operand db type e encoded) (operand_meaning db type e m)
  unfolding encode_operand operand_meaning IsExpression
  operand-Stands (some type) (Expression.constant info value) i s = cast_as-Stands value type i
  operand-Stands _ e i s = s

  pub binary-Stands :
      (info : Info) (op : BinaryOp) (left right : Expression) {el er : Attempt Encoded}
      {ml mr : Attempt ExprIr}
      → IsExpression left
      → IsExpression right
      → Stands scan.names el ml
      → Stands scan.names er mr
      → Stands scan.names
          (encode_binary db info op left right el er)
          (binary_meaning db info (ok op) left right ml mr)
  unfolding encode_binary binary_meaning columns_of
  binary-Stands info op left right {el} {er} {ml} {mr} il ir sl sr p h =
      let type = decimal_type info left right in
      let (lhs, e₁, k₁) = >>=-eq-ok (encode_operand db type left el) _ h in
      let (rhs, e₂, k₂) = >>=-eq-ok (encode_operand db type right er) _ k₁ in
      let (x, mx, rx, nx) = operand-Stands type left il sl lhs e₁ in
      let (y, my, ry, ny) = operand-Stands type right ir sr rhs e₂ in
      (
        ExprIr.binary op x y,
        rw (mx, my),
        rw (← ok-injective k₂) (binary-ReadsExpr op lhs.0 rhs.0 x y rx ry),
        rw (← ok-injective k₂) (Names-append scan.names nx ny),
      )

  hinted-Stands :
      (type : LogicalType) {encoded : Attempt Encoded} {m : Attempt ExprIr}
      → Stands scan.names encoded m
      → Stands scan.names
          (try_encode_output_type_hint type >>= λ hint.
            encoded >>= λ p. ok (4 ∷ (hint ++ p.0), p.1))
          (hint_meaning type >>= λ hint. m >>= λ e. ok (ExprIr.cast hint e))
  unfolding columns_of
  hinted-Stands type {encoded} {m} s p h =
      let (type_bytes, e₁, k₁) = >>=-eq-ok (try_encode_output_type_hint type) _ h in
      let (q, e₂, k₂) = >>=-eq-ok encoded _ k₁ in
      let (hint, mh, th) = hint-Takes type e₁ in
      let (x, mx, rx, nx) = s q e₂ in
      (
        ExprIr.cast hint x,
        rw (mh, mx),
        rw (← ok-injective k₂) (cast-ReadsExpr hint type_bytes q.0 x th rx),
        rw (← ok-injective k₂) nx,
      )

  pub cast-Stands :
      (info : Info) (child : Expression) {encoded : Attempt Encoded} {m : Attempt ExprIr}
      → IsExpression child
      → Stands scan.names encoded m
      → Stands scan.names (encode_exec_cast db info child encoded) (cast_meaning db info child m)
  unfolding encode_exec_cast cast_meaning IsExpression
  cast-Stands info (Expression.constant info' value) i s = cast_as-Stands value info.return_type i
  cast-Stands info _ i s = hinted-Stands info.return_type s

pub projected-IsExpression :
    (p : Projection) (i : ℕ) {e : Expression}
    → All IsExpression p
    → projected p i ≡ some e
    → IsExpression e
unfolding IsExpression
projected-IsExpression [] i a h = cc
projected-IsExpression (Expression.null ∷ es) zero a h = cc
projected-IsExpression (_ ∷ es) zero a h = rw (← some-injective _ _ h) a.0
projected-IsExpression (e ∷ es) (suc i) a h = projected-IsExpression es i a.1 h
