-- ===== src/ExprIr/RoundTrip/Nodes.antt =====
-- The nodes whose children are all framed: what each encoder writes, and what parse_node makes of it
-- over any parser `sub` of subexpressions.
use lance_duckdb.Common.{
  ℕ, suc, ◌-◌, ◌<◌, ◌≤◌, ◌≡◌, ◌++◌, Bytes, false, List, [], ◌∷◌, length, All, ◌==◌, Result, ok,
  ◌>>=◌, >>=_assoc, >>=-eq-ok, append_assoc, arith, ltb, throw_if-ok, internal, invalid_input,
}
use lance_duckdb.Wire.Writer.{
  append_u8, append_u32, append_len_prefixed, append_all_len_prefixed, u32_max,
}
use lance_duckdb.Wire.Reader.{ParseError, read_u8, read_u32}
use lance_duckdb.Wire.Words.{read_u32-append_u32}
use lance_duckdb.Wire.Frames.{Fits, frame, frames, append_len_prefixed_inv, append_each_inv}
use lance_duckdb.ExprIr.Types.{Expr, Operator}
use lance_duckdb.ExprIr.Nodes.{
  encode_unary_node, encode_binary_node, encode_comparison_node, encode_conjunction_node,
}
use lance_duckdb.ExprIr.Parser.{Session, parse_binary, parse_conjunction, conjunction_op}
use lance_duckdb.ExprIr.RoundTrip.Children.{
  parse_child-frame, parse_child-frame_last, join_each, parse_conjuncts-frames_last,
}

pub two_frames_inv :
    (out l r : Bytes) {res : Bytes}
    → (append_len_prefixed out l >>= λ out'. append_len_prefixed out' r) ≡ ok res
    → Fits l × Fits r × (res ≡ out ++ (frame l ++ frame r))
two_frames_inv out l r h =
    let (out', first, second) = >>=-eq-ok (append_len_prefixed out l) _ h in
    let (fl, el) = append_len_prefixed_inv out l first in
    let (fr, er) = append_len_prefixed_inv out' r second in
    (fl, fr, cc (el, er, append_assoc out (frame l) (frame r)))

pub encode_unary_inv :
    (tag : ℕ) (child : Bytes) {out : Bytes}
    → encode_unary_node tag child ≡ ok out
    → Fits child × (out ≡ tag ∷ frame child)
unfolding encode_unary_node append_u8
encode_unary_inv tag child h = append_len_prefixed_inv _ child h

pub encode_binary_inv :
    (op : ℕ) (l r : Bytes) {out : Bytes}
    → encode_binary_node op l r ≡ ok out
    → Fits l × Fits r × (out ≡ 4 ∷ op ∷ (frame l ++ frame r))
unfolding encode_binary_node append_u8
encode_binary_inv op l r h = two_frames_inv _ l r h

pub encode_comparison_inv :
    (op : ℕ) (l r : Bytes) {out : Bytes}
    → encode_comparison_node op l r ≡ ok out
    → Fits l × Fits r × (out ≡ 5 ∷ op ∷ (frame l ++ frame r))
unfolding encode_comparison_node append_u8
encode_comparison_inv op l r h = two_frames_inv _ l r h

-- A count and that many frames.
unfoldable pub counted : List Bytes → Bytes
counted items = append_u32 [] (length items) ++ frames items

pub counted_inv :
    (out : Bytes) (items : List Bytes) {res : Bytes}
    → append_all_len_prefixed (append_u32 out (length items)) items ≡ ok res
    → All Fits items × (res ≡ out ++ counted items)
unfolding counted append_u32
counted_inv out items h =
    let (fits, e) =
      append_each_inv (append_u32 out (length items)) items (unfold append_u32 in h) in
    (fits, cc (e, append_assoc out (append_u32 [] (length items)) (frames items)))

pub encode_conjunction_inv :
    (op : ℕ) (children : List Bytes) {out : Bytes}
    → encode_conjunction_node op children ≡ ok out
    → (0 < length children)
      × (length children ≤ u32_max)
      × All Fits children
      × (out ≡ 6 ∷ op ∷ counted children)
unfolding encode_conjunction_node append_u8
encode_conjunction_inv op children h =
    let (some_child, h₁) = throw_if-ok (length children == 0) internal _ h in
    let (few, h₂) = throw_if-ok (ltb u32_max (length children)) invalid_input _ h₁ in
    let (fits, e) = counted_inv (6 ∷ op ∷ []) children h₂ in (ground arith, ground arith, fits, e)

pub read_count :
    (items : List Bytes)
    → length items ≤ u32_max
    → read_u32 (counted items) ≡ ok (length items, frames items)
unfolding counted
read_count items h = read_u32-append_u32 (length items) (frames items) (omega arith)

pub suc-ne-zero : (n : ℕ) → (suc n == 0) ≡ false
suc-ne-zero n = ground arith

suc-sub-one : (n : ℕ) → suc n - 1 ≡ n
suc-sub-one n = omega arith

module _ (session : Session) (sub : Bytes → Result ParseError Expr) where
  pub parse_binary-frames :
      (op_of : ℕ → Result ParseError Operator) (op : ℕ) (l r : Bytes)
      → Fits l
      → Fits r
      → parse_binary session sub op_of (op ∷ (frame l ++ frame r))
        ≡ (op_of op >>= λ o. sub l >>= λ lhs. sub r >>= λ rhs. ok (Expr.binary lhs o rhs, []))
  unfolding parse_binary read_u8
  parse_binary-frames op_of op l r fl fr = simp (
    parse_child-frame session sub l (frame r) fl,
    parse_child-frame_last session sub r fr,
    >>=_assoc,
  )

  -- The first child, and the others joined to it from the left.
  pub parse_conjunction-counted :
      (op : ℕ) (s : Bytes) (ss : List Bytes)
      → length (s ∷ ss) ≤ u32_max
      → All Fits (s ∷ ss)
      → parse_conjunction session sub (op ∷ counted (s ∷ ss)) ≡ (
          conjunction_op op >>= λ o.
          sub s >>= λ e. join_each session sub o e ss >>= λ x. ok (x, []))
  unfolding parse_conjunction read_u8 frames
  parse_conjunction-counted op s ss few (fs, fits) = simp (
    read_count (s ∷ ss) few,
    suc-ne-zero (length ss),
    suc-sub-one (length ss),
    parse_child-frame session sub s (frames ss) fs,
    >>=_assoc,
    λ (o : Operator) (e : Expr). parse_conjuncts-frames_last session sub o ss e fits,
  )
