-- ===== src/Filter/Sound/Calls.antt =====
-- Calls, comparisons and conjunctions.
use lance_duckdb.Common.{
  ◌≡◌, refl, Bytes, Bool, true, false, List, [], Result, ok, >>=-eq-ok, or_throw-ok,
}
use lance_duckdb.Wire.Reader.{ParseError, is_utf8}
use lance_duckdb.ExprIr.Types.{DuckDb, ExpressionType, conjunction_and, conjunction_or, Expr, Exprs}
use lance_duckdb.ExprIr.Nodes.{try_encode_comparison_op}
use lance_duckdb.ExprIr.Parser.{Session}
use lance_duckdb.ExprIr.Exports.{Built, BuiltAll}
use lance_duckdb.Filter.Types.{declined, Attempt, Expressions, Casts}
use lance_duckdb.Filter.Calls.{
  FunctionKind, field_access, text, search, regexp, like, other, call_ir, table_call_ir, text_ir,
  text_call_ir, search_call_ir, regexp_call_ir, like_call_ir, comparison_ir, conjunction_ir,
  non_null_varchar, backslash, regexp_mode, escape_of,
}
use lance_duckdb.Filter.Meaning.{
  match_mode, call_meaning, conjunction_meaning, text_call_meaning, search_call_meaning,
  regexp_call_meaning, like_call_meaning, comparison_meaning,
}
use lance_duckdb.Filter.Valid.{IsCasts}
use lance_duckdb.Filter.Sound.Constants.{attempt-ok, Builds, BuildsAll, text_ir-Built, escape_of-ok}

mode_same : (full_match : Bool) → regexp_mode full_match ≡ match_mode full_match
mode_same true = refl
mode_same false = refl

module _ (db : DuckDb) (casts : Casts) (laws : IsCasts casts) (session : Session) where
  module _ (input : Attempt Bytes) (m : Result ParseError Expr)
      (built : Builds db session input m) where
    pub text_call_ir-Built :
        (name : Bytes) (rest : Expressions) {out : Bytes}
        → is_utf8 name ≡ true
        → text_call_ir db casts name input rest ≡ ok out
        → Built db session out (text_call_meaning db casts session name m rest)
    unfolding text_call_ir text_call_meaning
    text_call_ir-Built name Expressions.nil u h =
        let (ir, e, k) = >>=-eq-ok input _ h in
        Built.call name u (BuiltAll.cons (built ir e) BuiltAll.nil) (attempt-ok _ k)
    text_call_ir-Built name (Expressions.cons e es) u h = cc

    pub search_call_ir-Built :
        (name : Bytes) (rest : Expressions) {out : Bytes}
        → is_utf8 name ≡ true
        → search_call_ir db casts name input rest ≡ ok out
        → Built db session out (search_call_meaning db casts session name m rest)
    unfolding search_call_ir search_call_meaning
    search_call_ir-Built name Expressions.nil u h = cc
    search_call_ir-Built name (Expressions.cons needle Expressions.nil) u h =
        let (ir, e, k) = >>=-eq-ok input _ h in
        let (needle_ir, e', l) = >>=-eq-ok (text_ir db casts needle) _ k in
        Built.call name u
          (BuiltAll.cons (built ir e)
            (BuiltAll.cons (text_ir-Built db casts laws session needle e') BuiltAll.nil))
          (attempt-ok _ l)
    search_call_ir-Built name (Expressions.cons needle (Expressions.cons e es)) u h = cc

    pub regexp_call_ir-Built :
        (full_match : Bool) (rest : Expressions) {out : Bytes}
        → regexp_call_ir db casts full_match input rest ≡ ok out
        → Built db session out (regexp_call_meaning db casts session full_match m rest)
    unfolding regexp_call_ir regexp_call_meaning
    regexp_call_ir-Built full_match Expressions.nil h = cc
    regexp_call_ir-Built full_match (Expressions.cons pattern Expressions.nil) h =
        let (ir, e, k) = >>=-eq-ok input _ h in
        let (pattern_ir, e', l) = >>=-eq-ok (text_ir db casts pattern) _ k in
        rw (← mode_same full_match) (
          Built.regexp (regexp_mode full_match) [] (built ir e)
            (text_ir-Built db casts laws session pattern e') (attempt-ok _ l))
    regexp_call_ir-Built full_match
          (Expressions.cons pattern (Expressions.cons flags Expressions.nil)) h =
        let (ir, e, k) = >>=-eq-ok input _ h in
        let (pattern_ir, e', l) = >>=-eq-ok (text_ir db casts pattern) _ k in
        let (flags_ir, e'', q) = >>=-eq-ok (text_ir db casts flags) _ l in
        rw (← mode_same full_match) (
          Built.regexp_with_flags (regexp_mode full_match) (built ir e)
            (text_ir-Built db casts laws session pattern e')
            (text_ir-Built db casts laws session flags e'') (attempt-ok _ q))
    regexp_call_ir-Built full_match
          (Expressions.cons pattern (Expressions.cons flags (Expressions.cons e es))) h =
        cc

    pub like_call_ir-Built :
        (ci has_escape : Bool) (rest : Expressions) {out : Bytes}
        → like_call_ir db casts ci has_escape input rest ≡ ok out
        → Built db session out (like_call_meaning db casts session ci has_escape m rest)
    unfolding like_call_ir like_call_meaning
    like_call_ir-Built ci false Expressions.nil h = cc
    like_call_ir-Built ci true Expressions.nil h = cc
    like_call_ir-Built ci false (Expressions.cons pattern Expressions.nil) h =
        let (ir, e, k) = >>=-eq-ok input _ h in
        let (pattern_ir, e', l) = >>=-eq-ok (text_ir db casts pattern) _ k in
        Built.like ci false 0 (built ir e) (text_ir-Built db casts laws session pattern e')
          (attempt-ok _ l)
    like_call_ir-Built ci true (Expressions.cons pattern Expressions.nil) h = cc
    like_call_ir-Built ci false (Expressions.cons pattern (Expressions.cons e es)) h = cc
    like_call_ir-Built ci true (Expressions.cons pattern (Expressions.cons escape Expressions.nil))
          h =
        let (ir, e, k) = >>=-eq-ok input _ h in
        let (pattern_ir, e', l) = >>=-eq-ok (text_ir db casts pattern) _ k in
        let (escape_value, _, q) = >>=-eq-ok (non_null_varchar casts escape) _ l in
        let (c, ec, r) = >>=-eq-ok (escape_of escape_value) _ q in
        Built.like ci true backslash (built ir e) (text_ir-Built db casts laws session pattern e')
          (rw (escape_of-ok escape_value ec) at (attempt-ok _ r))
    like_call_ir-Built ci true
          (Expressions.cons pattern (Expressions.cons escape (Expressions.cons e es))) h =
        cc

    pub call_ir-Built :
        (kind : FunctionKind) (name : Bytes) (column : Attempt Bytes) (mc : Result ParseError Expr)
        (rest : Expressions) {out : Bytes}
        → is_utf8 name ≡ true
        → Builds db session column mc
        → call_ir db casts kind name column input rest ≡ ok out
        → Built db session out (call_meaning db casts session kind name mc m rest)
    unfolding call_ir call_meaning
    call_ir-Built field_access name column mc rest u b h = b _ h
    call_ir-Built text name column mc rest u b h = text_call_ir-Built name rest u h
    call_ir-Built search name column mc rest u b h = search_call_ir-Built name rest u h
    call_ir-Built (regexp full_match) name column mc rest u b h =
        regexp_call_ir-Built full_match rest h
    call_ir-Built (like ci esc) name column mc rest u b h = like_call_ir-Built ci esc rest h
    call_ir-Built other name column mc rest u b h = cc

    pub table_call_ir-Built :
        (kind : FunctionKind) (name : Bytes) (mc : Result ParseError Expr) (rest : Expressions)
        {out : Bytes}
        → is_utf8 name ≡ true
        → table_call_ir db casts kind name input rest ≡ ok out
        → Built db session out (call_meaning db casts session kind name mc m rest)
    unfolding table_call_ir call_meaning
    table_call_ir-Built text name mc rest u h = text_call_ir-Built name rest u h
    table_call_ir-Built search name mc rest u h = search_call_ir-Built name rest u h
    table_call_ir-Built _ name mc rest u h = cc

  pub conjunction_ir-Built :
      (type : ExpressionType) (irs : Attempt (List Bytes)) (ms : Result ParseError Exprs)
      → BuildsAll db session irs ms
      → Builds db session (conjunction_ir type irs) (conjunction_meaning type ms)
  unfolding conjunction_ir conjunction_meaning
  conjunction_ir-Built conjunction_and irs ms b out h =
      let (outs, e, k) = >>=-eq-ok irs _ h in Built.all_of (b outs e) (attempt-ok _ k)
  conjunction_ir-Built conjunction_or irs ms b out h =
      let (outs, e, k) = >>=-eq-ok irs _ h in Built.any_of (b outs e) (attempt-ok _ k)
  conjunction_ir-Built _ irs ms b out h = cc

  pub comparison_ir-Built :
      (type : ExpressionType) (left right : Attempt Bytes) (ml mr : Result ParseError Expr)
      → Builds db session left ml
      → Builds db session right mr
      → Builds db session (comparison_ir type left right) (comparison_meaning type ml mr)
  unfolding comparison_ir
  comparison_ir-Built type left right ml mr bl br out h =
      let (op, eo, k) = or_throw-ok (try_encode_comparison_op type) declined _ h in
      let (l, el, k₁) = >>=-eq-ok left _ k in
      let (r, er, k₂) = >>=-eq-ok right _ k₁ in
      Built.comparison type (bl l el) (br r er) eo (attempt-ok _ k₂)
