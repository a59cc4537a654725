-- ===== src/ExprIr/RoundTrip/ReadsLists.antt =====
-- `Reads` for the nodes with a list of children.
use lance_duckdb.Common.{
  ℕ, ◌+◌, ◌≤◌, ◌≡◌, refl, ◌++◌, Bytes, Bool, true, false, not, List, [], ◌∷◌, Option, none, some,
  length, length-append, All, ◌==◌, Result, ok, ◌>>=◌, >>=_assoc, ap, ◌∙◌, arith,
}
use lance_duckdb.Wire.Reader.{ParseError, read_u8, is_utf8}
use lance_duckdb.Wire.Writer.{append_u32, u32_max}
use lance_duckdb.Wire.Frames.{Fits, frame, frames, length-frame}
use lance_duckdb.ExprIr.Types.{DuckDb, Operator, Expr, Exprs, Checks}
use lance_duckdb.ExprIr.Nodes.{
  flag, encode_function_node, encode_conjunction_node, encode_case_node,
}
use lance_duckdb.ExprIr.Parser.{Session, parse_node, parse_subexpr, conjunction_op}
use lance_duckdb.ExprIr.Meaning.{joined, conjunction, named_call}
use lance_duckdb.ExprIr.RoundTrip.Children.{parse_each, join_each, check_frames, parse_each_check}
use lance_duckdb.ExprIr.RoundTrip.Nodes.{counted, encode_conjunction_inv, parse_conjunction-counted}
use lance_duckdb.ExprIr.RoundTrip.Lists.{
  encode_function_inv, encode_case_inv, else_tail, parse_function-frames, parse_in_list-frames,
  parse_maybe, parse_case-frames,
}
use lance_duckdb.ExprIr.RoundTrip.Reads.{Reads, Reads-node}

-- The children are read in order.
abbrev pub ReadsAll : Session → List Bytes → Result ParseError Exprs → Type 0
ReadsAll session ss ms =
    (n : ℕ) → length (frames ss) ≤ n → parse_each session (parse_subexpr session n) ss ≡ ms

abbrev pub ReadsChecks : Session → List (Bytes × Bytes) → Result ParseError Checks → Type 0
ReadsChecks session cs ms =
    (n : ℕ)
    → length (check_frames cs) ≤ n
    → parse_each_check session (parse_subexpr session n) cs ≡ ms

length-counted : (ss : List Bytes) → length (counted ss) ≡ 4 + length (frames ss)
unfolding counted append_u32
length-counted ss = omega arith

module _ (session : Session) where
  pub ReadsAll-nil : ReadsAll session [] (ok Exprs.nil)
  unfolding parse_each
  ReadsAll-nil n h = refl

  pub ReadsAll-cons :
      (s : Bytes) (ss : List Bytes) (m : Result ParseError Expr) (ms : Result ParseError Exprs)
      → Reads session s m
      → ReadsAll session ss ms
      → ReadsAll session (s ∷ ss) (m >>= λ x. ms >>= λ xs. ok (Exprs.cons x xs))
  unfolding parse_each frames
  ReadsAll-cons s ss m ms r rs n h = simp (
    r n (omega (arith, length-append (frame s) (frames ss), length-frame s)),
    rs n (omega (arith, length-append (frame s) (frames ss))),
  )

  pub ReadsChecks-nil : ReadsChecks session [] (ok Checks.end)
  unfolding parse_each_check
  ReadsChecks-nil n h = refl

  pub ReadsChecks-cons :
      (w t : Bytes) (cs : List (Bytes × Bytes)) (mw mt : Result ParseError Expr)
      (ms : Result ParseError Checks)
      → Reads session w mw
      → Reads session t mt
      → ReadsChecks session cs ms
      → ReadsChecks session
          ((w, t) ∷ cs)
          (mw >>= λ x. mt >>= λ y. ms >>= λ xs. ok (Checks.check x y xs))
  unfolding parse_each_check check_frames
  ReadsChecks-cons w t cs mw mt ms rw' rt rs n h =
      simp (
        rw' n (omega (arith, lengths)),
        rt n (omega (arith, lengths)),
        rs n (omega (arith, lengths)),
      )
    where
      lengths :
          length (frame w ++ (frame t ++ check_frames cs))
          ≡ (length w + 4) + ((length t + 4) + length (check_frames cs))
      lengths = omega (
        arith,
        length-append (frame w) (frame t ++ check_frames cs),
        length-append (frame t) (check_frames cs),
        length-frame w,
        length-frame t,
      )

  join_each-parse_each :
      (sub : Bytes → Result ParseError Expr) (op : Operator) (e : Expr) (ss : List Bytes)
      → join_each session sub op e ss ≡ (parse_each session sub ss >>= λ es. ok (joined op e es))
  unfolding join_each parse_each joined
  join_each-parse_each sub op e [] = refl
  join_each-parse_each sub op e (s ∷ ss) =
      simp (λ (x : Expr). join_each-parse_each sub op (Expr.binary e op x) ss, >>=_assoc)

  pub Reads-conjunction :
      (op : ℕ) (o : Operator) (ss : List Bytes) (ms : Result ParseError Exprs) {out : Bytes}
      → conjunction_op op ≡ ok o
      → ReadsAll session ss ms
      → encode_conjunction_node op ss ≡ ok out
      → Reads session out (ms >>= λ es. conjunction o es)
  unfolding parse_node read_u8 parse_each conjunction
  Reads-conjunction op o [] ms known rs h =
      absurd (omega (arith, (encode_conjunction_inv op [] h).0))
  Reads-conjunction op o (s ∷ ss) ms known rs h =
      let (_, few, fits, e) = encode_conjunction_inv op (s ∷ ss) h in
      Reads-node session _ _ λ n lt.
        let sub = parse_subexpr session n in
        rw (e, ← rs n (omega (arith, length-counted (s ∷ ss), ap length e)))
          (parse_conjunction-counted session sub op s ss few fits
            ∙ simp (known, λ (x : Expr). join_each-parse_each sub o x ss, >>=_assoc))

  pub Reads-function :
      (db : DuckDb) (name : Bytes) (ss : List Bytes) (ms : Result ParseError Exprs) {out : Bytes}
      → is_utf8 (db.lower name) ≡ true
      → ReadsAll session ss ms
      → encode_function_node db name ss ≡ ok out
      → Reads session out (ms >>= λ es. named_call session (db.lower name) es)
  unfolding parse_node read_u8 named_call
  Reads-function db name ss ms u rs h =
      let (few, fn, fits, e) = encode_function_inv db name ss h in
      Reads-node session _ _ λ n lt.
        let sub = parse_subexpr session n in
        rw
          (
            e,
            ← rs n (
                omega (
                  arith,
                  length-counted ss,
                  length-append (frame (db.lower name)) (counted ss),
                  ap length e,
                )),
          )
          (parse_function-frames session sub (db.lower name) ss few fn u fits ∙ simp >>=_assoc)

  pub Reads-in_list :
      (negated : Bool) (lhs : Bytes) (ss : List Bytes) (m : Result ParseError Expr)
      (ms : Result ParseError Exprs) {out : Bytes}
      → length ss ≤ u32_max
      → Fits lhs
      → All Fits ss
      → out ≡ 12 ∷ flag negated 1 ∷ (frame lhs ++ counted ss)
      → Reads session lhs m
      → ReadsAll session ss ms
      → Reads session out (m >>= λ x. ms >>= λ es. ok (Expr.in_list x es negated))
  unfolding parse_node read_u8
  Reads-in_list negated lhs ss m ms few fl fits e r rs = Reads-node session _ _ λ n lt.
      let sub = parse_subexpr session n in
      let sizes = length-append (frame lhs) (counted ss) in
      rw
        (
          e,
          ← rs n (omega (arith, length-counted ss, sizes, ap length e)),
          ← r n (omega (arith, length-frame lhs, sizes, ap length e)),
        )
        (parse_in_list-frames session sub (flag negated 1) lhs ss few fl fits
          ∙ simp (flag_is negated, >>=_assoc))
    where
      flag_is : (b : Bool) → not (flag b 1 == 0) ≡ b
      flag_is true = refl
      flag_is false = refl

  -- What an ELSE branch reads.
  abbrev pub ReadsElse : Option Bytes → Option (Result ParseError Expr) → Type 0
  ReadsElse none none = Unit
  ReadsElse (some s) (some m) = Reads session s m
  ReadsElse none (some m) = ⊥
  ReadsElse (some s) none = ⊥

  abbrev pub with_else : Checks → Option (Result ParseError Expr) → Result ParseError Expr
  with_else cs none = ok (Expr.case cs)
  with_else cs (some m) = m >>= λ x. ok (Expr.case_else cs x)

  parse_maybe-else :
      (cs : Checks) (e : Option Bytes) (m : Option (Result ParseError Expr)) (n : ℕ)
      → ReadsElse e m
      → length (else_tail e) ≤ n
      → parse_maybe session (parse_subexpr session n) cs e ≡ with_else cs m
  unfolding parse_maybe else_tail
  parse_maybe-else cs none none n r h = refl
  parse_maybe-else cs (some s) (some m) n r h = simp (r n (omega (arith, length-frame s)))
  parse_maybe-else cs none (some m) n r h = absurd r
  parse_maybe-else cs (some s) none n r h = absurd r

  pub Reads-case :
      (cs : List (Bytes × Bytes)) (e : Option Bytes) (ms : Result ParseError Checks)
      (m : Option (Result ParseError Expr)) {out : Bytes}
      → ReadsChecks session cs ms
      → ReadsElse e m
      → encode_case_node cs e ≡ ok out
      → Reads session out (ms >>= λ checks. with_else checks m)
  unfolding parse_node read_u8
  Reads-case [] e ms m rs re h = absurd (omega (arith, (encode_case_inv [] e h).0))
  Reads-case (c ∷ cs) e ms m rs re h =
      let (_, few, fits, fe, shape) = encode_case_inv (c ∷ cs) e h in
      Reads-node session _ _ λ n lt.
        let sub = parse_subexpr session n in
        let body = check_frames (c ∷ cs) ++ else_tail e in
        let sizes = length-append (check_frames (c ∷ cs)) (else_tail e) in
        let whole = length-append (append_u32 [] (length (c ∷ cs))) body in
        let total = ap length shape in
        rw (shape, ← rs n (omega (arith, sizes, whole, total)))
          (parse_case-frames session sub c cs e few fits fe
            ∙ simp (
              λ (checks : Checks).
                  parse_maybe-else checks e m n re (omega (arith, sizes, whole, total)),
              >>=_assoc,
            ))
