-- ===== src/ExprIr/RoundTrip/Children.antt =====
-- A child's frame, read by parse_child and its loops.
use lance_duckdb.Common.{
  ◌≡◌, refl, ◌++◌, Bytes, List, [], ◌∷◌, length, All, Result, ok, ◌>>=◌, >>=_assoc, append_assoc,
  append-nil, ap, sym, ◌∙◌, fun_ext,
}
use lance_duckdb.Wire.Reader.{ParseError}
use lance_duckdb.Wire.Frames.{Fits, frame, frames, read_frame}
use lance_duckdb.ExprIr.Types.{Expr, Exprs, Checks, Operator}
use lance_duckdb.ExprIr.Parser.{Session, parse_child, parse_children, parse_conjuncts, parse_checks}

-- The pairs of a CASE, one frame behind the other.
unfoldable pub check_frames : List (Bytes × Bytes) → Bytes
check_frames [] = []
check_frames ((w, t) ∷ checks) = frame w ++ (frame t ++ check_frames checks)

abbrev pub CheckFits : Bytes × Bytes → Type 0
CheckFits (w, t) = Fits w × Fits t

module _ (session : Session) (sub : Bytes → Result ParseError Expr) where
  pub parse_child-frame :
      (s rest : Bytes)
      → Fits s
      → parse_child session sub (frame s ++ rest) ≡ (sub s >>= λ e. ok (e, rest))
  unfolding parse_child
  parse_child-frame s rest h = rw (read_frame s rest h)

  pub parse_child-frame_last :
      (s : Bytes) → Fits s → parse_child session sub (frame s) ≡ (sub s >>= λ e. ok (e, []))
  parse_child-frame_last s h =
      ap (parse_child session sub) (sym (append-nil (frame s))) ∙ parse_child-frame s [] h

  -- The children in order, each by `sub`.
  unfoldable pub parse_each : List Bytes → Result ParseError Exprs
  parse_each [] = ok Exprs.nil
  parse_each (s ∷ ss) = do e ← sub s; es ← parse_each ss; ok (Exprs.cons e es)

  pub parse_children-frames :
      (ss : List Bytes) (rest : Bytes)
      → All Fits ss
      → parse_children session sub (length ss) (frames ss ++ rest)
        ≡ (parse_each ss >>= λ es. ok (es, rest))
  unfolding parse_children parse_each frames
  parse_children-frames [] rest h = refl
  parse_children-frames (s ∷ ss) rest (fits, h) = simp (
    append_assoc (frame s) (frames ss) rest,
    parse_child-frame s (frames ss ++ rest) fits,
    parse_children-frames ss rest h,
    >>=_assoc,
  )

  -- The children behind the first, each joined to what is on its left.
  unfoldable pub join_each : Operator → Expr → List Bytes → Result ParseError Expr
  join_each op e [] = ok e
  join_each op e (s ∷ ss) = do rhs ← sub s; join_each op (Expr.binary e op rhs) ss

  pub parse_conjuncts-frames :
      (op : Operator) (ss : List Bytes) (e : Expr) (rest : Bytes)
      → All Fits ss
      → parse_conjuncts session sub op (length ss) e (frames ss ++ rest)
        ≡ (join_each op e ss >>= λ x. ok (x, rest))
  unfolding parse_conjuncts join_each frames
  parse_conjuncts-frames op [] e rest h = refl
  parse_conjuncts-frames op (s ∷ ss) e rest (fits, h) =
      simp
        (
          append_assoc (frame s) (frames ss) rest,
          parse_child-frame s (frames ss ++ rest) fits,
          >>=_assoc,
        )
        (ap (λ k. sub s >>= k)
          (fun_ext λ rhs. parse_conjuncts-frames op ss (Expr.binary e op rhs) rest h))

  pub parse_conjuncts-frames_last :
      (op : Operator) (ss : List Bytes) (e : Expr)
      → All Fits ss
      → parse_conjuncts session sub op (length ss) e (frames ss)
        ≡ (join_each op e ss >>= λ x. ok (x, []))
  parse_conjuncts-frames_last op ss e h =
      ap (parse_conjuncts session sub op (length ss) e) (sym (append-nil (frames ss)))
      ∙ parse_conjuncts-frames op ss e [] h

  pub parse_children-frames_last :
      (ss : List Bytes)
      → All Fits ss
      → parse_children session sub (length ss) (frames ss) ≡ (parse_each ss >>= λ es. ok (es, []))
  parse_children-frames_last ss h =
      ap (parse_children session sub (length ss)) (sym (append-nil (frames ss)))
      ∙ parse_children-frames ss [] h

  unfoldable pub parse_each_check : List (Bytes × Bytes) → Result ParseError Checks
  parse_each_check [] = ok Checks.end
  parse_each_check ((w, t) ∷ checks) = do
    when_expr ← sub w
    then_expr ← sub t
    cs ← parse_each_check checks
    ok (Checks.check when_expr then_expr cs)

  pub parse_checks-frames :
      (cs : List (Bytes × Bytes)) (rest : Bytes)
      → All CheckFits cs
      → parse_checks session sub (length cs) (check_frames cs ++ rest)
        ≡ (parse_each_check cs >>= λ x. ok (x, rest))
  unfolding parse_checks parse_each_check check_frames
  parse_checks-frames [] rest h = refl
  parse_checks-frames ((w, t) ∷ cs) rest ((fw, ft), h) = simp (
    append_assoc (frame w) (frame t ++ check_frames cs) rest,
    append_assoc (frame t) (check_frames cs) rest,
    parse_child-frame w (frame t ++ (check_frames cs ++ rest)) fw,
    parse_child-frame t (check_frames cs ++ rest) ft,
    parse_checks-frames cs rest h,
    >>=_assoc,
  )
