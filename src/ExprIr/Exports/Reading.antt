-- ===== src/ExprIr/Exports/Reading.antt =====
-- What the exported encoders put together, the parser reads.
use lance_duckdb.Common.{
  ℕ, ◌≡◌, refl, ◌<◌, ◌≤◌, ◌+◌, All, ◌++◌, Bytes, Bool, true, false, List, [], ◌∷◌, Option, none,
  some, length, Result, ok, ◌>>=◌, >>=_assoc, try_catch, ap, ◌∙◌, arith, length-append,
  if◌then◌else◌, err,
}
use mathlib.Core.Option.{some-injective}
use lance_duckdb.Wire.Reader.{ParseError, read_u8}
use lance_duckdb.Wire.Frames.{frame, length-frame}
use lance_duckdb.ExprIr.Types.{DuckDb, and, or, Expr, Exprs}
use lance_duckdb.ExprIr.Nodes.{
  encode_like_node, encode_regexp_node, encode_column_ref, encode_in_list_node,
  try_encode_column_ref, try_encode_literal, try_encode_comparison_op, try_encode_and,
  try_encode_or, try_encode_not, try_encode_is_null, try_encode_is_not_null, try_encode_comparison,
  try_encode_in_list, try_encode_scalar_function, try_encode_like, try_encode_regexp,
  try_wrap_message,
}
use lance_duckdb.ExprIr.Parser.{
  Session, nest_fields, parse_node, parse_subexpr, parse_expr_ir, conjunction_op,
}
use lance_duckdb.ExprIr.RoundTrip.Values.{IsDuckDb}
use lance_duckdb.ExprIr.RoundTrip.Columns.{IsUtf8, parse_column_ref-encode}
use lance_duckdb.ExprIr.RoundTrip.Lists.{encode_in_list_inv}
use lance_duckdb.ExprIr.RoundTrip.Patterns.{
  like_inv, regexp_inv, parse_node-encode_like, parse_node-encode_regexp, options_of,
}
use lance_duckdb.ExprIr.RoundTrip.Reads.{
  Reads, Reads-node, Reads-literal, Reads-not, Reads-is_null, Reads-is_not_null, Reads-comparison,
}
use lance_duckdb.ExprIr.RoundTrip.ReadsLists.{
  ReadsAll, ReadsAll-nil, ReadsAll-cons, Reads-conjunction, Reads-function, Reads-in_list,
}
use lance_duckdb.ExprIr.RoundTrip.Compound.{comparison_op-encode}
use lance_duckdb.ExprIr.RoundTrip.Message.{parse_expr_ir-message}
use lance_duckdb.ExprIr.Exports.Regexp.{match_pattern-text, read-options_in}
use lance_duckdb.ExprIr.Exports.{Built, BuiltAll, flags_meaning, regexp_meaning}

try_catch-some {ℓ κ} :
    {E : Type ℓ} {A : Type κ} (m : Result E A) {a : A} → try_catch m ≡ some a → m ≡ ok a
try_catch-some (ok x) h = ap ok (some-injective _ _ h)
try_catch-some (err e) h = cc

module _ (session : Session) where
  Reads-column_ref :
      (s : Bytes) (ss : List Bytes) {out : Bytes}
      → All IsUtf8 (s ∷ ss)
      → encode_column_ref (s ∷ ss) ≡ ok out
      → Reads session out (ok (nest_fields (Expr.column s) ss))
  unfolding parse_node read_u8
  Reads-column_ref s ss u h =
      let (body, e, p) = parse_column_ref-encode s ss u h in
      Reads-node session _ _ (λ n lt. rw (e, p))

  -- Two children and what follows them are shorter than their frames.
  two_fit :
      (a b tail : Bytes) (n : ℕ)
      → length (frame a ++ (frame b ++ tail)) ≤ n
      → (length a < n) × (length b + length tail < n)
  two_fit a b tail n h = (omega (arith, sizes), omega (arith, sizes))
    where
      sizes :
          length (frame a ++ (frame b ++ tail)) ≡ (length a + 4) + ((length b + 4) + length tail)
      sizes = omega (
        arith,
        length-append (frame a) (frame b ++ tail),
        length-append (frame b) tail,
        length-frame a,
        length-frame b,
      )

  module _ (v p : Bytes) (mv mp : Result ParseError Expr) (reads_v : Reads session v mv)
      (reads_p : Reads session p mp) where
    Reads-like :
        (ci esc : Bool) (c : ℕ) {out : Bytes}
        → encode_like_node ci esc c v p ≡ ok out
        → Reads session out
            (mv >>= λ x. mp >>= λ y. ok (Expr.like x y (if esc then some c else none) ci))
    Reads-like ci esc c h =
        let (_, _, e) = like_inv ci esc c v p h in
        Reads-node session _ _ λ n lt.
          let tail : Bytes = if esc then c ∷ [] else [] in
          let (lv, lp) = two_fit v p tail n (omega (arith, rw e at lt)) in
          parse_node-encode_like session (parse_subexpr session n) ci esc c v p h
          ∙ simp (reads_v n lv, reads_p n (omega arith), >>=_assoc)

    Reads-regexp :
        (mode : ℕ) (has_flags : Bool) (flags : Bytes) (mo : Result ParseError (Option Bytes))
        {out : Bytes}
        → ((n : ℕ)
            → length (if has_flags then frame flags else []) ≤ n
            → options_of session (parse_subexpr session n) has_flags flags ≡ mo)
        → encode_regexp_node mode has_flags v p flags ≡ ok out
        → Reads session out (mv >>= λ x. mp >>= λ y. mo >>= λ o. regexp_meaning session mode x y o)
    unfolding regexp_meaning
    Reads-regexp mode has_flags flags mo ro h =
        let (_, _, _, e) = regexp_inv mode has_flags v p flags h in
        Reads-node session _ _ λ n lt.
          let tail : Bytes = if has_flags then frame flags else [] in
          let (lv, lp) = two_fit v p tail n (omega (arith, rw e at lt)) in
          parse_node-encode_regexp session (parse_subexpr session n) mode has_flags v p flags h
          ∙ simp (
            reads_v n lv,
            reads_p n (omega arith),
            ro n (omega arith),
            match_pattern-text,
            >>=_assoc,
          )

module _ (db : DuckDb) (laws : IsDuckDb db) (session : Session) where
  Reads-try_in_list :
      (negated : Bool) (ir : Bytes) (irs : List Bytes) (m : Result ParseError Expr)
      (ms : Result ParseError Exprs) {out : Bytes}
      → Reads session ir m
      → ReadsAll session irs ms
      → encode_in_list_node negated ir irs ≡ ok out
      → Reads session out (m >>= λ x. ms >>= λ es. ok (Expr.in_list x es negated))
  Reads-try_in_list negated ir irs m ms r rs h =
      let (few, fl, fits, e) = encode_in_list_inv negated ir irs h in
      Reads-in_list session negated ir irs m ms few fl fits e r rs

  mutual
    unfolding try_encode_column_ref try_encode_literal try_encode_comparison_op try_encode_and
        try_encode_or try_encode_not try_encode_is_null try_encode_is_not_null try_encode_comparison
        try_encode_in_list try_encode_scalar_function try_encode_like try_encode_regexp options_of
        flags_meaning conjunction_op

    pub Built-Reads :
        {out : Bytes} {m : Result ParseError Expr} → Built db session out m → Reads session out m
    Built-Reads (Built.column_ref s ss u h) = Reads-column_ref session s ss u (try_catch-some _ h)
    Built-Reads (Built.literal v i h) = Reads-literal session db laws v i (try_catch-some _ h)
    Built-Reads (Built.all_of bs h) =
        Reads-conjunction session 1 and _ _ refl (BuiltAll-ReadsAll bs) (try_catch-some _ h)
    Built-Reads (Built.any_of bs h) =
        Reads-conjunction session 2 or _ _ refl (BuiltAll-ReadsAll bs) (try_catch-some _ h)
    Built-Reads (Built.negation b h) = Reads-not session _ _ (Built-Reads b) (try_catch-some _ h)
    Built-Reads (Built.is_null b h) = Reads-is_null session _ _ (Built-Reads b) (try_catch-some _ h)
    Built-Reads (Built.is_not_null b h) =
        Reads-is_not_null session _ _ (Built-Reads b) (try_catch-some _ h)
    Built-Reads (Built.comparison type l r o h) =
        Reads-comparison session _ _ _ _ (Built-Reads l) (Built-Reads r) _ _
          (comparison_op-encode type (try_catch-some _ o)) (try_catch-some _ h)
    Built-Reads (Built.in_list negated b bs h) =
        Reads-try_in_list negated _ _ _ _ (Built-Reads b) (BuiltAll-ReadsAll bs)
          (try_catch-some _ h)
    Built-Reads (Built.call name u bs h) =
        Reads-function session db name _ _ (laws.lower_utf8 name u) (BuiltAll-ReadsAll bs)
          (try_catch-some _ h)
    Built-Reads (Built.like ci esc c e p h) =
        Reads-like session _ _ _ _ (Built-Reads e) (Built-Reads p) ci esc c (try_catch-some _ h)
    Built-Reads (Built.regexp mode flags e p h) =
        Reads-regexp session _ _ _ _ (Built-Reads e) (Built-Reads p) mode false flags (ok none)
          (λ n lt. refl) (try_catch-some _ h)
    Built-Reads (Built.regexp_with_flags mode {flags = flags} {mf = mf} e p f h) =
        Reads-regexp session _ _ _ _ (Built-Reads e) (Built-Reads p) mode true flags
          (flags_meaning mf)
          (λ n lt. read-options_in _ mf (Built-Reads f n (omega (arith, length-frame flags))))
          (try_catch-some _ h)

    BuiltAll-ReadsAll :
        {irs : List Bytes} {ms : Result ParseError Exprs}
        → BuiltAll db session irs ms
        → ReadsAll session irs ms
    BuiltAll-ReadsAll BuiltAll.nil = ReadsAll-nil session
    BuiltAll-ReadsAll (BuiltAll.cons b bs) =
        ReadsAll-cons session _ _ _ _ (Built-Reads b) (BuiltAll-ReadsAll bs)

-- A byte string that is put together with the exported encoders, from literals in the ranges of their
-- types and names in UTF-8, and wrapped as a message: the parser answers the expression that its
-- assembly stands for, or the error that this expression has (an unknown function, a regular
-- expression whose pattern or flags are refused).
pub parse_expr_ir-try_wrap_message :
    (db : DuckDb) (session : Session) {root msg : Bytes} {m : Result ParseError Expr}
    → IsDuckDb db
    → Built db session root m
    → try_wrap_message root ≡ some msg
    → parse_expr_ir session msg ≡ m
unfolding try_wrap_message
parse_expr_ir-try_wrap_message db session {root} laws b h =
    rw (← some-injective _ _ h) (parse_expr_ir-message session root (Built-Reads db laws session b))
