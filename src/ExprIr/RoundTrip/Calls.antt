-- ===== src/ExprIr/RoundTrip/Calls.antt =====
-- A call: arithmetic on two arguments is a BINARY node, and all else a SCALAR_FUNCTION node.
use lance_duckdb.Common.{
  ℕ, ◌≡◌, refl, Bytes, true, List, [], ◌∷◌, ◌++◌, Option, none, some, inl, inr, Bool-cases, ◌||◌,
  length, length-append, bytes_eq, Result, ok, ◌>>=◌, >>=_assoc, ap, subst, ◌∙◌, arith, ◌≤◌,
}
use lance_duckdb.Wire.Reader.{ParseError, read_u8, is_utf8}
use lance_duckdb.Wire.Frames.{frame, frames}
use lance_duckdb.ExprIr.Types.{DuckDb, Operator, Expr, Exprs}
use lance_duckdb.ExprIr.Nodes.{encode_function_node, encode_binary_node}
use lance_duckdb.ExprIr.Update.{
  binary_op_code, encode_call, word_add, word_subtract, word_multiply, word_divide,
}
use lance_duckdb.ExprIr.Parser.{Session, parse_subexpr, parse_node, binary_op}
use lance_duckdb.ExprIr.Meaning.{arithmetic, named_call, call_of}
use lance_duckdb.ExprIr.RoundTrip.Children.{parse_each}
use lance_duckdb.ExprIr.RoundTrip.Nodes.{encode_binary_inv, parse_binary-frames}
use lance_duckdb.ExprIr.RoundTrip.Reads.{Reads, Reads-node}
use lance_duckdb.ExprIr.RoundTrip.ReadsLists.{ReadsAll, Reads-function}

-- The writer, the parser and the specification agree on the names of arithmetic.
abbrev Agree : Option ℕ → Option Operator → Type 0
Agree none none = Unit
Agree (some c) (some o) = binary_op c ≡ ok o
Agree none (some o) = ⊥
Agree (some c) none = ⊥

arithmetic-Agree : (name : Bytes) → Agree (binary_op_code name) (arithmetic name)
unfolding binary_op_code arithmetic binary_op
arithmetic-Agree name = elim (Bool-cases (bytes_eq name (b'+' ∷ []) || bytes_eq name word_add)) [
  | inl e₁ ↦ rw e₁ refl
  | inr e₁ ↦ elim (Bool-cases (bytes_eq name (b'-' ∷ []) || bytes_eq name word_subtract)) [
    | inl e₂ ↦ rw (e₁, e₂) refl
    | inr e₂ ↦ elim (Bool-cases (bytes_eq name (b'*' ∷ []) || bytes_eq name word_multiply)) [
      | inl e₃ ↦ rw (e₁, e₂, e₃) refl
      | inr e₃ ↦ elim (Bool-cases (bytes_eq name (b'/' ∷ []) || bytes_eq name word_divide)) [
        | inl e₄ ↦ rw (e₁, e₂, e₃, e₄) refl
        | inr e₄ ↦ rw (e₁, e₂, e₃, e₄) tt
      ]
    ]
  ]
]

module _ (session : Session) (name : Bytes) where
  -- Over arguments that are not two, a call is by name.
  SameCall : List Bytes → Type 0
  SameCall ss =
      (sub : Bytes → Result ParseError Expr)
      → (parse_each session sub ss >>= λ es. named_call session name es)
        ≡ (parse_each session sub ss >>= λ es. call_of session name es)

  SameCall-nil : SameCall []
  unfolding SameCall parse_each call_of
  SameCall-nil sub = refl

  SameCall-one : (a : Bytes) → SameCall (a ∷ [])
  unfolding SameCall parse_each call_of
  SameCall-one a sub = simp >>=_assoc

  SameCall-many : (a b c : Bytes) (ss : List Bytes) → SameCall (a ∷ b ∷ c ∷ ss)
  unfolding SameCall parse_each call_of
  SameCall-many a b c ss sub = simp >>=_assoc

  call_of_named :
      (x y : Expr)
      → arithmetic name ≡ none
      → call_of session name (Exprs.cons x (Exprs.cons y Exprs.nil))
        ≡ named_call session name (Exprs.cons x (Exprs.cons y Exprs.nil))
  unfolding call_of
  call_of_named x y e = rw (e, call_of)

  call_of_operator :
      (x y : Expr) {o : Operator}
      → arithmetic name ≡ some o
      → call_of session name (Exprs.cons x (Exprs.cons y Exprs.nil)) ≡ ok (Expr.binary x o y)
  unfolding call_of
  call_of_operator x y e = rw (e, call_of)

  SameCall-two : (a b : Bytes) → arithmetic name ≡ none → SameCall (a ∷ b ∷ [])
  unfolding SameCall parse_each
  SameCall-two a b e sub = simp (>>=_assoc, λ (x y : Expr). call_of_named x y e)

  same_meaning :
      (ss : List Bytes) (ms : Result ParseError Exprs)
      → SameCall ss
      → ReadsAll session ss ms
      → (ms >>= λ es. named_call session name es) ≡ (ms >>= λ es. call_of session name es)
  unfolding SameCall
  same_meaning ss ms same rs =
      let n = length (frames ss) in rw (← rs n (omega arith)) (same (parse_subexpr session n))

module _ (session : Session) (db : DuckDb) (name : Bytes) (u : is_utf8 (db.lower name) ≡ true) where
  by_name :
      (ss : List Bytes) (ms : Result ParseError Exprs) {out : Bytes}
      → SameCall session (db.lower name) ss
      → ReadsAll session ss ms
      → encode_function_node db name ss ≡ ok out
      → Reads session out (ms >>= λ es. call_of session (db.lower name) es)
  by_name ss ms same rs h =
      subst (Reads session _) (same_meaning session (db.lower name) ss ms same rs)
        (Reads-function session db name ss ms u rs h)

  by_operator :
      (a b : Bytes) (ms : Result ParseError Exprs) (c : ℕ) (o : Operator) {out : Bytes}
      → binary_op c ≡ ok o
      → arithmetic (db.lower name) ≡ some o
      → ReadsAll session (a ∷ b ∷ []) ms
      → encode_binary_node c a b ≡ ok out
      → Reads session out (ms >>= λ es. call_of session (db.lower name) es)
  unfolding parse_node read_u8 parse_each frames
  by_operator a b ms c o known e rs h =
      let (fa, fb, shape) = encode_binary_inv c a b h in
      Reads-node session _ _ λ n lt.
        let sub = parse_subexpr session n in
        let all : length (frame a ++ (frame b ++ [])) ≤ n = omega (
          arith,
          length-append (frame a) (frame b ++ []),
          length-append (frame b) [],
          length-append (frame a) (frame b),
          ap length shape,
        ) in
        rw (shape, ← rs n all)
          (parse_binary-frames session sub binary_op c a b fa fb
            ∙ simp
                (known, >>=_assoc, λ (x y : Expr). call_of_operator session (db.lower name) x y e))

  two :
      (a b : Bytes) (ms : Result ParseError Exprs) {out : Bytes}
      → ReadsAll session (a ∷ b ∷ []) ms
      → (code : Option ℕ) (op : Option Operator) → binary_op_code (db.lower name) ≡ code
      → arithmetic (db.lower name) ≡ op
      → Agree code op
      → encode_call db name (a ∷ b ∷ []) ≡ ok out
      → Reads session out (ms >>= λ es. call_of session (db.lower name) es)
  unfolding encode_call
  two a b ms rs (some c) (some o) e₁ e₂ agree h =
      by_operator a b ms c o agree e₂ rs (rw (e₁, encode_call) at h)
  two a b ms rs none none e₁ e₂ agree h =
      by_name (a ∷ b ∷ []) ms (SameCall-two session (db.lower name) a b e₂) rs
        (rw (e₁, encode_call) at h)
  two a b ms rs none (some o) e₁ e₂ agree h = absurd agree
  two a b ms rs (some c) none e₁ e₂ agree h = absurd agree

  pub Reads-call :
      (ss : List Bytes) (ms : Result ParseError Exprs) {out : Bytes}
      → ReadsAll session ss ms
      → encode_call db name ss ≡ ok out
      → Reads session out (ms >>= λ es. call_of session (db.lower name) es)
  unfolding encode_call
  Reads-call [] ms rs h = by_name [] ms (SameCall-nil session (db.lower name)) rs h
  Reads-call (a ∷ []) ms rs h = by_name (a ∷ []) ms (SameCall-one session (db.lower name) a) rs h
  Reads-call (a ∷ b ∷ []) ms rs h = two a b ms rs _ _ refl refl (arithmetic-Agree (db.lower name)) h
  Reads-call (a ∷ b ∷ c ∷ ss) ms rs h =
      by_name (a ∷ b ∷ c ∷ ss) ms (SameCall-many session (db.lower name) a b c ss) rs h
