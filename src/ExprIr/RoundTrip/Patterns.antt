-- ===== src/ExprIr/RoundTrip/Patterns.antt =====
-- LIKE and regular expressions.
use lance_duckdb.Common.{
  ℕ, ◌≡◌, refl, ◌++◌, Bytes, Bool, true, false, not, [], ◌∷◌, Option, none, some, ◌==◌, bit_and,
  ◌&&◌, Result, ok, ◌>>=◌, ◌>>◌, throw_if, >>=_assoc, >>=-eq-ok, append_assoc, bit_or, ok-injective,
  sym, ap, ◌∙◌, append-nil, throw_if-ok, invalid_input, if◌then◌else◌,
}
use lance_duckdb.Wire.Writer.{append_u8, append_len_prefixed}
use lance_duckdb.Wire.Reader.{ParseError, read_u8, bad_regexp}
use lance_duckdb.Wire.Frames.{Fits, frame, append_len_prefixed_inv}
use lance_duckdb.ExprIr.Types.{Expr, regexp_like}
use lance_duckdb.ExprIr.Nodes.{flag, encode_like_node, encode_regexp_node}
use lance_duckdb.ExprIr.Parser.{
  Session, parse_node, parse_like, parse_escape, parse_regexp, parse_options, string_literal,
  regexp_options, normalize_options, match_pattern, regexp_args,
}
use lance_duckdb.ExprIr.RoundTrip.Children.{parse_child-frame, parse_child-frame_last}

pub like_inv :
    (case_insensitive has_escape : Bool) (c : ℕ) (value pattern : Bytes) {out : Bytes}
    → encode_like_node case_insensitive has_escape c value pattern ≡ ok out
    → Fits value
      × Fits pattern
      × (out
          ≡ 13
            ∷ bit_or (bit_or 0 (flag case_insensitive 1)) (flag has_escape 2)
            ∷ (frame value ++ (frame pattern ++ (if has_escape then c ∷ [] else []))))
unfolding encode_like_node append_u8
like_inv ci esc c value pattern h =
    let flags = bit_or (bit_or 0 (flag ci 1)) (flag esc 2) in
    let (o₁, h₁, k₁) = >>=-eq-ok (append_len_prefixed (13 ∷ flags ∷ []) value) _ h in
    let (o₂, h₂, k₂) = >>=-eq-ok (append_len_prefixed o₁ pattern) _ k₁ in
    let (fv, e₁) = append_len_prefixed_inv (13 ∷ flags ∷ []) value h₁ in
    let (fp, e₂) = append_len_prefixed_inv o₁ pattern h₂ in
    (
      fv,
      fp,
      sym (ok-injective k₂) ∙ tail esc o₂ (13 ∷ flags ∷ []) (e₂ ∙ ap (λ t. t ++ frame pattern) e₁),
    )
  where
    tail :
        (b : Bool) (o head : Bytes)
        → o ≡ (head ++ frame value) ++ frame pattern
        → (if b then o ++ c ∷ [] else o)
          ≡ head ++ (frame value ++ (frame pattern ++ (if b then c ∷ [] else [])))
    tail true o head e = rw e (simp append_assoc)
    tail false o head e = rw e (simp (append_assoc, append-nil))

-- The two bits of the flags.
like_bits :
    (ci esc : Bool)
    → ((bit_and (bit_or (bit_or 0 (flag ci 1)) (flag esc 2)) 2 == 0) ≡ not esc)
      × (not (bit_and (bit_or (bit_or 0 (flag ci 1)) (flag esc 2)) 1 == 0) ≡ ci)
like_bits true true = (refl, refl)
like_bits true false = (refl, refl)
like_bits false true = (refl, refl)
like_bits false false = (refl, refl)

abbrev pub FlagsFit : Bool → Bytes → Type 0
FlagsFit true flags = Fits flags
FlagsFit false flags = Unit

append_flags_inv :
    (has_flags : Bool) (out flags : Bytes) {res : Bytes}
    → (if has_flags then append_len_prefixed out flags else ok out) ≡ ok res
    → FlagsFit has_flags flags × (res ≡ out ++ (if has_flags then frame flags else []))
append_flags_inv true out flags h = append_len_prefixed_inv out flags h
append_flags_inv false out flags h = (tt, cc (append-nil out, ok-injective h))

pub regexp_inv :
    (mode : ℕ) (has_flags : Bool) (value pattern flags : Bytes) {out : Bytes}
    → encode_regexp_node mode has_flags value pattern flags ≡ ok out
    → Fits value
      × Fits pattern
      × FlagsFit has_flags flags
      × (out
          ≡ 14
            ∷ mode
            ∷ flag has_flags 1
            ∷ (frame value ++ (frame pattern ++ (if has_flags then frame flags else []))))
unfolding encode_regexp_node append_u8
regexp_inv mode has_flags value pattern flags h =
    let head : Bytes = 14 ∷ mode ∷ flag has_flags 1 ∷ [] in
    let tail : Bytes = if has_flags then frame flags else [] in
    let (_, h₀) = throw_if-ok (not (mode == 0) && not (mode == 1)) invalid_input _ h in
    let (o₁, h₁, k₁) = >>=-eq-ok (append_len_prefixed head value) _ h₀ in
    let (o₂, h₂, k₂) = >>=-eq-ok (append_len_prefixed o₁ pattern) _ k₁ in
    let (fv, e₁) = append_len_prefixed_inv head value h₁ in
    let (fp, e₂) = append_len_prefixed_inv o₁ pattern h₂ in
    let (ff, e₃) = append_flags_inv has_flags o₂ flags k₂ in
    (fv, fp, ff, cc (e₁, e₂, e₃, append_assoc (head ++ frame value) (frame pattern) tail))

module _ (session : Session) (sub : Bytes → Result ParseError Expr) where
  parse_escape-tail :
      (esc : Bool) (flags c : ℕ)
      → (bit_and flags 2 == 0) ≡ not esc
      → parse_escape session sub flags (if esc then c ∷ [] else [])
        ≡ ok (if esc then some c else none, [])
  unfolding parse_escape read_u8
  parse_escape-tail true flags c h = rw h
  parse_escape-tail false flags c h = rw h

  parse_like-frames :
      (ci esc : Bool) (flags c : ℕ) (value pattern : Bytes)
      → (bit_and flags 2 == 0) ≡ not esc
      → not (bit_and flags 1 == 0) ≡ ci
      → Fits value
      → Fits pattern
      → parse_like session sub
          (flags ∷ (frame value ++ (frame pattern ++ (if esc then c ∷ [] else []))))
        ≡ (sub value >>= λ e.
            sub pattern >>= λ p. ok (Expr.like e p (if esc then some c else none) ci, []))
  unfolding parse_like read_u8
  parse_like-frames ci esc flags c value pattern has_bit ci_bit fv fp = simp (
    parse_child-frame session sub value (frame pattern ++ (if esc then c ∷ [] else [])) fv,
    parse_child-frame session sub pattern (if esc then c ∷ [] else []) fp,
    parse_escape-tail esc flags c has_bit,
    ci_bit,
    >>=_assoc,
  )

  -- A LIKE node that was encoded is parsed to the pattern match of its two children, with its case
  -- sensitivity, and with its escape character if it has one.
  pub parse_node-encode_like :
      (case_insensitive has_escape : Bool) (c : ℕ) (value pattern : Bytes) {out : Bytes}
      → encode_like_node case_insensitive has_escape c value pattern ≡ ok out
      → parse_node session sub out ≡ (
          sub value >>= λ e. sub pattern >>= λ p.
          ok (Expr.like e p (if has_escape then some c else none) case_insensitive, []))
  unfolding parse_node read_u8
  parse_node-encode_like ci esc c value pattern h =
      let (fv, fp, e) = like_inv ci esc c value pattern h in
      let (has_bit, ci_bit) = like_bits ci esc in
      rw e (parse_like-frames ci esc _ c value pattern has_bit ci_bit fv fp)

  -- The options of a regular expression: a string literal of the letters i and s, in normal form.
  unfoldable pub options_of : Bool → Bytes → Result ParseError (Option Bytes)
  options_of false flags = ok none
  options_of true flags = do
    flags_expr ← sub flags
    text ← string_literal flags_expr
    (has_i, has_s) ← regexp_options false false text
    ok (normalize_options has_i has_s)

  parse_options-tail :
      (has_flags : Bool) (flags : Bytes)
      → FlagsFit has_flags flags
      → parse_options session sub (flag has_flags 1) (if has_flags then frame flags else [])
        ≡ (options_of has_flags flags >>= λ o. ok (o, []))
  unfolding parse_options options_of
  parse_options-tail false flags fits = refl
  parse_options-tail true flags fits =
      simp (parse_child-frame_last session sub flags fits, >>=_assoc)

  -- A regular expression node that was encoded is parsed to a call of regexp_like on the value, the
  -- pattern (anchored at both ends in full-match mode) and the normal form of the options.
  pub parse_node-encode_regexp :
      (mode : ℕ) (has_flags : Bool) (value pattern flags : Bytes) {out : Bytes}
      → encode_regexp_node mode has_flags value pattern flags ≡ ok out
      → parse_node session sub out ≡ (
          sub value >>= λ v. sub pattern >>= λ p. options_of has_flags flags >>= λ o.
          match_pattern mode p >>= λ s.
          throw_if (not (session.compiles s o)) bad_regexp
          >> ok (Expr.scalar_function regexp_like (regexp_args v s o), []))
  unfolding parse_node parse_regexp read_u8
  parse_node-encode_regexp mode has_flags value pattern flags h =
      let (fv, fp, ff, e) = regexp_inv mode has_flags value pattern flags h in
      let tail = if has_flags then frame flags else [] in
      rw e (
        simp (
          parse_child-frame session sub value (frame pattern ++ tail) fv,
          parse_child-frame session sub pattern tail fp,
          parse_options-tail has_flags flags ff,
          >>=_assoc,
        ))
