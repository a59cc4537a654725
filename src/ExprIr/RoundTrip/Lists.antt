-- ===== src/ExprIr/RoundTrip/Lists.antt =====
-- The nodes with a list of children: function calls, IN lists and CASE.
use lance_duckdb.Common.{
  ℕ, ◌<◌, ◌≤◌, ◌≡◌, refl, ◌++◌, Bytes, Bool, true, not, List, [], ◌∷◌, Option, none, some, length,
  All, ◌==◌, Result, ok, ◌>>=◌, >>=_assoc, >>=-eq-ok, append_assoc, append-nil, arith, ltb,
  throw_if-ok, invalid_input, not_implemented,
}
use lance_duckdb.Wire.Writer.{
  append_u8, append_u32, append_len_prefixed, append_len_prefixed_string, u32_max,
}
use lance_duckdb.Wire.Reader.{ParseError, read_u8, is_utf8}
use lance_duckdb.Wire.Words.{read_u32-append_u32}
use lance_duckdb.Wire.Frames.{Fits, frame, append_len_prefixed_inv, read_string-frame}
use lance_duckdb.ExprIr.Types.{DuckDb, Expr, Checks}
use lance_duckdb.ExprIr.Nodes.{
  flag, encode_function_node, encode_in_list_node, append_checks, append_else, encode_case_node,
}
use lance_duckdb.ExprIr.Parser.{
  Session, parse_function, parse_in_list, parse_case, parse_else, resolve_scalar_function,
}
use lance_duckdb.ExprIr.RoundTrip.Children.{
  parse_child-frame, parse_child-frame_last, parse_each, parse_children-frames_last, check_frames,
  CheckFits, parse_each_check, parse_checks-frames,
}
use lance_duckdb.ExprIr.RoundTrip.Nodes.{counted, counted_inv, read_count, suc-ne-zero}

pub encode_function_inv :
    (db : DuckDb) (name : Bytes) (args : List Bytes) {out : Bytes}
    → encode_function_node db name args ≡ ok out
    → (length args ≤ u32_max)
      × Fits (db.lower name)
      × All Fits args
      × (out ≡ 8 ∷ (frame (db.lower name) ++ counted args))
unfolding encode_function_node append_u8 append_len_prefixed_string
encode_function_inv db name args h =
    let (few, h₁) = throw_if-ok (ltb u32_max (length args)) invalid_input _ h in
    let (out', first, rest) = >>=-eq-ok (append_len_prefixed (8 ∷ []) (db.lower name)) _ h₁ in
    let (fn, e) = append_len_prefixed_inv (8 ∷ []) (db.lower name) first in
    let (fits, e') = counted_inv out' args rest in (ground arith, fn, fits, cc (e, e'))

pub encode_in_list_inv :
    (negated : Bool) (lhs : Bytes) (items : List Bytes) {out : Bytes}
    → encode_in_list_node negated lhs items ≡ ok out
    → (length items ≤ u32_max)
      × Fits lhs
      × All Fits items
      × (out ≡ 12 ∷ flag negated 1 ∷ (frame lhs ++ counted items))
unfolding encode_in_list_node append_u8
encode_in_list_inv negated lhs items h =
    let (out', first, h₁) = >>=-eq-ok (append_len_prefixed (12 ∷ flag negated 1 ∷ []) lhs) _ h in
    let (few, rest) = throw_if-ok (ltb u32_max (length items)) invalid_input _ h₁ in
    let (fl, e) = append_len_prefixed_inv (12 ∷ flag negated 1 ∷ []) lhs first in
    let (fits, e') = counted_inv out' items rest in (ground arith, fl, fits, cc (e, e'))

append_checks_inv :
    (out : Bytes) (cs : List (Bytes × Bytes)) {res : Bytes}
    → append_checks out cs ≡ ok res
    → All CheckFits cs × (res ≡ out ++ check_frames cs)
unfolding append_checks check_frames
append_checks_inv out [] h = (tt, cc (append-nil out))
append_checks_inv out ((w, t) ∷ cs) h =
    let (o₁, h₁, k₁) = >>=-eq-ok (append_len_prefixed out w) _ h in
    let (o₂, h₂, k₂) = >>=-eq-ok (append_len_prefixed o₁ t) _ k₁ in
    let (fw, e₁) = append_len_prefixed_inv out w h₁ in
    let (ft, e₂) = append_len_prefixed_inv o₁ t h₂ in
    let (fits, e₃) = append_checks_inv o₂ cs k₂ in
    (
      ((fw, ft), fits),
      cc (
        e₁,
        e₂,
        e₃,
        append_assoc out (frame w) (frame t ++ check_frames cs),
        append_assoc (out ++ frame w) (frame t) (check_frames cs),
      ),
    )

-- What stands behind the checks.
unfoldable pub else_tail : Option Bytes → Bytes
else_tail none = 0 ∷ []
else_tail (some s) = 1 ∷ frame s

abbrev pub ElseFits : Option Bytes → Type 0
ElseFits none = Unit
ElseFits (some s) = Fits s

append_else_inv :
    (out : Bytes) (e : Option Bytes) {res : Bytes}
    → append_else out e ≡ ok res
    → ElseFits e × (res ≡ out ++ else_tail e)
unfolding append_else else_tail append_u8
append_else_inv out none h = (tt, cc)
append_else_inv out (some s) h =
    let (fits, e) = append_len_prefixed_inv (out ++ 1 ∷ []) s h in
    (fits, cc (e, append_assoc out (1 ∷ []) (frame s)))

pub encode_case_inv :
    (cs : List (Bytes × Bytes)) (e : Option Bytes) {out : Bytes}
    → encode_case_node cs e ≡ ok out
    → (0 < length cs)
      × (length cs ≤ u32_max)
      × All CheckFits cs
      × ElseFits e
      × (out ≡ 9 ∷ (append_u32 [] (length cs) ++ (check_frames cs ++ else_tail e)))
unfolding encode_case_node append_u8 append_u32
encode_case_inv cs e h =
    let (some_check, h₁) = throw_if-ok (length cs == 0) not_implemented _ h in
    let (few, h₂) = throw_if-ok (ltb u32_max (length cs)) invalid_input _ h₁ in
    let (out', first, last) = >>=-eq-ok (append_checks (append_u32 (9 ∷ []) (length cs)) cs) _ h₂ in
    let (fits, p) = append_checks_inv (append_u32 (9 ∷ []) (length cs)) cs first in
    let (fe, q) = append_else_inv out' e last in (ground arith, ground arith, fits, fe, cc (p, q))

module _ (session : Session) (sub : Bytes → Result ParseError Expr) where
  pub parse_function-frames :
      (name : Bytes) (args : List Bytes)
      → length args ≤ u32_max
      → Fits name
      → is_utf8 name ≡ true
      → All Fits args
      → parse_function session sub (frame name ++ counted args) ≡ (
          parse_each session sub args >>= λ es.
          resolve_scalar_function session name >>= λ udf. ok (Expr.scalar_function udf es, []))
  unfolding parse_function
  parse_function-frames name args few fn u fits = simp (
    read_string-frame name (counted args) fn u,
    read_count args few,
    parse_children-frames_last session sub args fits,
    >>=_assoc,
  )

  pub parse_in_list-frames :
      (n : ℕ) (lhs : Bytes) (items : List Bytes)
      → length items ≤ u32_max
      → Fits lhs
      → All Fits items
      → parse_in_list session sub (n ∷ (frame lhs ++ counted items)) ≡ (
          sub lhs >>= λ e.
          parse_each session sub items >>= λ es. ok (Expr.in_list e es (not (n == 0)), []))
  unfolding parse_in_list read_u8
  parse_in_list-frames n lhs items few fl fits = simp (
    parse_child-frame session sub lhs (counted items) fl,
    read_count items few,
    parse_children-frames_last session sub items fits,
    >>=_assoc,
  )

  -- CASE with its optional ELSE.
  unfoldable pub parse_maybe : Checks → Option Bytes → Result ParseError Expr
  parse_maybe checks none = ok (Expr.case checks)
  parse_maybe checks (some s) = sub s >>= λ e. ok (Expr.case_else checks e)

  parse_case-tail :
      (checks : Checks) (e : Option Bytes)
      → ElseFits e
      → (read_u8 (else_tail e) >>= λ (has_else, bs). parse_else session sub checks has_else bs)
        ≡ (parse_maybe checks e >>= λ x. ok (x, []))
  unfolding read_u8 parse_else parse_maybe else_tail
  parse_case-tail checks none fits = refl
  parse_case-tail checks (some s) fits = simp (parse_child-frame_last session sub s fits, >>=_assoc)

  pub parse_case-frames :
      (c : Bytes × Bytes) (cs : List (Bytes × Bytes)) (e : Option Bytes)
      → length (c ∷ cs) ≤ u32_max
      → All CheckFits (c ∷ cs)
      → ElseFits e
      → parse_case session sub
          (append_u32 [] (length (c ∷ cs)) ++ (check_frames (c ∷ cs) ++ else_tail e))
        ≡ (parse_each_check session sub (c ∷ cs) >>= λ checks.
            parse_maybe checks e >>= λ x. ok (x, []))
  unfolding parse_case
  parse_case-frames c cs e few fits fe = simp (
    read_u32-append_u32 (length (c ∷ cs)) (check_frames (c ∷ cs) ++ else_tail e) (omega arith),
    suc-ne-zero (length cs),
    parse_checks-frames session sub (c ∷ cs) (else_tail e) fits,
    λ (checks : Checks). parse_case-tail checks e fe,
    >>=_assoc,
  )
