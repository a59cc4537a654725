-- ===== src/ExprIr/RoundTrip/Reads.antt =====
-- `Reads session out m`: on the bytes `out` the parser answers `m`, at any fuel above their number.
-- One lemma for each kind of node, from what its children read to what it reads.
use lance_duckdb.Common.{
  ℕ, zero, suc, ◌<◌, ◌≤◌, ◌≡◌, refl, ◌++◌, Bytes, [], ◌∷◌, length, length-append, Result, ok, err,
  ◌>>=◌, >>=_assoc, ap, ◌∙◌, arith,
}
use lance_duckdb.Wire.Reader.{ParseError, read_u8}
use lance_duckdb.Wire.Writer.{append_u8, append_bytes}
use lance_duckdb.Wire.Frames.{Fits, frame, length-frame, append_len_prefixed_inv}
use lance_duckdb.ExprIr.Types.{DuckDb, Value, LogicalType, Operator, Expr}
use lance_duckdb.ExprIr.Literals.{encode_literal, encode_type_hint}
use lance_duckdb.ExprIr.Nodes.{
  encode_unary_node, encode_binary_node, encode_comparison_node, encode_column_name,
}
use lance_duckdb.ExprIr.Update.{encode_cast}
use lance_duckdb.ExprIr.Parser.{
  Session, nest_fields, parse_node, parse_unary, parse_cast, parse_subexpr, at_eof, parse_binary,
  binary_op, comparison_op,
}
use lance_duckdb.ExprIr.RoundTrip.Children.{parse_child-frame_last}
use lance_duckdb.ExprIr.RoundTrip.Nodes.{
  encode_unary_inv, encode_binary_inv, encode_comparison_inv, parse_binary-frames,
}
use lance_duckdb.ExprIr.RoundTrip.Values.{IsDuckDb, IsValue, scalar_of}
use lance_duckdb.ExprIr.RoundTrip.Literals.{parse_literal-encode, parse_type-encode, data_type_of}
use lance_duckdb.ExprIr.RoundTrip.Columns.{parse_column_ref-encode, IsUtf8}

abbrev pub Reads : Session → Bytes → Result ParseError Expr → Type 0
Reads session out m = (n : ℕ) → length out < n → parse_subexpr session n out ≡ m

at_eof-end : (m : Result ParseError Expr) → ((m >>= λ x. ok (x, [])) >>= at_eof) ≡ m
at_eof-end (ok x) = refl
at_eof-end (err e) = refl

module _ (session : Session) where
  -- It is enough to look at one node over the parser with one unit less of fuel.
  pub Reads-node :
      (out : Bytes) (m : Result ParseError Expr)
      → ((n : ℕ)
          → length out ≤ n
          → parse_node session (parse_subexpr session n) out ≡ (m >>= λ x. ok (x, [])))
      → Reads session out m
  unfolding parse_subexpr
  Reads-node out m h zero lt = absurd (omega arith)
  Reads-node out m h (suc n) lt = ap (λ r. r >>= at_eof) (h n (omega arith)) ∙ at_eof-end m

  pub Reads-literal :
      (db : DuckDb)
      → IsDuckDb db
      → (v : Value) {out : Bytes} → IsValue v
      → encode_literal db v ≡ ok out
      → Reads session out (ok (Expr.literal (scalar_of db v)))
  unfolding parse_node read_u8
  Reads-literal db laws v i h =
      let (body, e, p) = parse_literal-encode db laws v i h in Reads-node _ _ (λ n lt. rw (e, p))

  pub Reads-column :
      (name : Bytes) {out : Bytes}
      → IsUtf8 name
      → encode_column_name name ≡ ok out
      → Reads session out (ok (Expr.column name))
  unfolding encode_column_name parse_node read_u8 nest_fields
  Reads-column name u h =
      let (body, e, p) = parse_column_ref-encode name [] (u, tt) h in
      Reads-node _ _ (λ n lt. rw (e, p))

  module _ (child : Bytes) (m : Result ParseError Expr) (reads : Reads session child m) where
    length_child : (head : Bytes) (n : ℕ) → length (head ++ frame child) ≤ n → length child < n
    length_child head n h = omega (arith, length-append head (frame child), length-frame child)

    reads_unary :
        (build : Expr → Expr) (n : ℕ)
        → Fits child
        → length child < n
        → parse_unary session (parse_subexpr session n) build (frame child)
          ≡ ((m >>= λ x. ok (build x)) >>= λ x. ok (x, []))
    unfolding parse_unary
    reads_unary build n fits lt =
        simp (
          parse_child-frame_last session (parse_subexpr session n) child fits,
          reads n lt,
          >>=_assoc,
        )

    pub Reads-not :
        {out : Bytes}
        → encode_unary_node 7 child ≡ ok out
        → Reads session out (m >>= λ x. ok (Expr.not x))
    unfolding parse_node read_u8
    Reads-not h =
        let (fits, e) = encode_unary_inv 7 child h in
        Reads-node _ _
          (λ n lt. rw e (reads_unary Expr.not n fits (length_child (7 ∷ []) n (rw e at lt))))

    pub Reads-is_null :
        {out : Bytes}
        → encode_unary_node 10 child ≡ ok out
        → Reads session out (m >>= λ x. ok (Expr.is_null x))
    unfolding parse_node read_u8
    Reads-is_null h =
        let (fits, e) = encode_unary_inv 10 child h in
        Reads-node _ _
          (λ n lt. rw e (reads_unary Expr.is_null n fits (length_child (10 ∷ []) n (rw e at lt))))

    pub Reads-is_not_null :
        {out : Bytes}
        → encode_unary_node 11 child ≡ ok out
        → Reads session out (m >>= λ x. ok (Expr.is_not_null x))
    unfolding parse_node read_u8
    Reads-is_not_null h =
        let (fits, e) = encode_unary_inv 11 child h in
        Reads-node _ _ (λ n lt.
          rw e (reads_unary Expr.is_not_null n fits (length_child (11 ∷ []) n (rw e at lt))))

    pub Reads-cast :
        (t : LogicalType) {type_ir out : Bytes}
        → encode_type_hint t ≡ ok type_ir
        → encode_cast type_ir child ≡ ok out
        → Reads session out (m >>= λ x. ok (Expr.cast x (data_type_of t)))
    unfolding encode_cast append_u8 append_bytes parse_node parse_cast read_u8
    Reads-cast t {type_ir} typed h =
        let (fits, e) = append_len_prefixed_inv (3 ∷ type_ir) child h in
        Reads-node _ _ λ n lt. rw e (
          simp (
            parse_type-encode t (frame child) typed,
            parse_child-frame_last session (parse_subexpr session n) child fits,
            reads n (length_child (3 ∷ type_ir) n (rw e at lt)),
            >>=_assoc,
          ))

module _ (session : Session) (l r : Bytes) (ml mr : Result ParseError Expr)
    (reads_l : Reads session l ml) (reads_r : Reads session r mr) where
  reads_binary :
      (op_of : ℕ → Result ParseError Operator) (op : ℕ) (o : Operator) (n : ℕ)
      → op_of op ≡ ok o
      → Fits l
      → Fits r
      → suc (suc (length (frame l ++ frame r))) ≤ n
      → parse_binary session (parse_subexpr session n) op_of (op ∷ (frame l ++ frame r))
        ≡ ((ml >>= λ x. mr >>= λ y. ok (Expr.binary x o y)) >>= λ x. ok (x, []))
  reads_binary op_of op o n known fl fr lt =
      parse_binary-frames session (parse_subexpr session n) op_of op l r fl fr
      ∙ simp (
        known,
        reads_l n (omega (arith, length-append (frame l) (frame r), length-frame l)),
        reads_r n (omega (arith, length-append (frame l) (frame r), length-frame r)),
        >>=_assoc,
      )

  pub Reads-binary :
      (op : ℕ) (o : Operator) {out : Bytes}
      → binary_op op ≡ ok o
      → encode_binary_node op l r ≡ ok out
      → Reads session out (ml >>= λ x. mr >>= λ y. ok (Expr.binary x o y))
  unfolding parse_node read_u8
  Reads-binary op o known h =
      let (fl, fr, e) = encode_binary_inv op l r h in
      Reads-node session _ _ (λ n lt. rw e (reads_binary binary_op op o n known fl fr (rw e at lt)))

  pub Reads-comparison :
      (op : ℕ) (o : Operator) {out : Bytes}
      → comparison_op op ≡ ok o
      → encode_comparison_node op l r ≡ ok out
      → Reads session out (ml >>= λ x. mr >>= λ y. ok (Expr.binary x o y))
  unfolding parse_node read_u8
  Reads-comparison op o known h =
      let (fl, fr, e) = encode_comparison_inv op l r h in
      Reads-node session _ _
        (λ n lt. rw e (reads_binary comparison_op op o n known fl fr (rw e at lt)))
