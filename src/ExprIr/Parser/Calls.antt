-- ===== src/ExprIr/Parser/Calls.antt =====
-- rust/expr_ir.rs: resolve_scalar_function and the parts of a regular expression.
use lance_duckdb.Common.{
  ℕ, Bytes, Bool, true, false, [], ◌∷◌, ◌++◌, Option, none, some, ◌==◌, bytes_eq, ◌||◌, not,
  if◌then◌else◌, Result, ok, err, ◌>>=◌, ◌>>◌, throw_if, or_throw,
}
use lance_duckdb.Wire.Reader.{ParseError, unresolved_udf, not_a_string, bad_option, bad_mode}
use lance_duckdb.ExprIr.Types.{
  ScalarValue, Udf, starts_with, ends_with, contains, lower, upper, Expr, Exprs,
}

-- What the parser is given: the session's function registry, if there is one, and whether DataFusion
-- compiles a regular expression under given flags.
pub record Session : Type 0 where
  pub registry : Option (Bytes → Option Udf)
  pub compiles : Bytes → Option Bytes → Bool

abbrev pub starts_with_name : Bytes
starts_with_name = b's' ∷ b't' ∷ b'a' ∷ b'r' ∷ b't' ∷ b's' ∷ b'_' ∷ b'w' ∷ b'i' ∷ b't' ∷ b'h' ∷ []

abbrev pub ends_with_name : Bytes
ends_with_name = b'e' ∷ b'n' ∷ b'd' ∷ b's' ∷ b'_' ∷ b'w' ∷ b'i' ∷ b't' ∷ b'h' ∷ []

abbrev pub contains_name : Bytes
contains_name = b'c' ∷ b'o' ∷ b'n' ∷ b't' ∷ b'a' ∷ b'i' ∷ b'n' ∷ b's' ∷ []

abbrev pub lower_name : Bytes
lower_name = b'l' ∷ b'o' ∷ b'w' ∷ b'e' ∷ b'r' ∷ []

abbrev pub upper_name : Bytes
upper_name = b'u' ∷ b'p' ∷ b'p' ∷ b'e' ∷ b'r' ∷ []

unfoldable pub resolve_scalar_function : Session → Bytes → Result ParseError Udf
resolve_scalar_function session name =
    if bytes_eq name starts_with_name
    then ok starts_with
    else if bytes_eq name ends_with_name
    then ok ends_with
    else if bytes_eq name contains_name
    then ok contains
    else if bytes_eq name lower_name
    then ok lower
    else if bytes_eq name upper_name
    then ok upper
    else elim session.registry [
      | some udf ↦ or_throw (udf name) unresolved_udf
      | none ↦ err unresolved_udf
    ]

-- The string of a string literal that is not null.
unfoldable pub string_literal : Expr → Result ParseError Bytes
string_literal (Expr.literal (ScalarValue.utf8 s)) = ok s
string_literal (Expr.literal _) = err not_a_string
string_literal _ = err not_a_string

-- has_i and has_s after the loop over the option's characters.
unfoldable pub regexp_options : Bool → Bool → Bytes → Result ParseError (Bool × Bool)
regexp_options has_i has_s [] = ok (has_i, has_s)
regexp_options has_i has_s (c ∷ cs) = elim (c == b'i') [
  | true ↦ regexp_options true has_s cs
  | false ↦ elim (c == b's') [
    | true ↦ regexp_options has_i true cs
    | false ↦
        if c == b' ' || c == 9 || c == 10 then regexp_options has_i has_s cs else err bad_option
  ]
]

unfoldable pub normalize_options : Bool → Bool → Option Bytes
normalize_options true true = some (b'i' ∷ b's' ∷ [])
normalize_options true false = some (b'i' ∷ [])
normalize_options false true = some (b's' ∷ [])
normalize_options false false = none

-- `^(?:pattern)$`.
abbrev pub anchored : Bytes → Bytes
anchored s = b'^' ∷ b'(' ∷ b'?' ∷ b':' ∷ (s ++ b')' ∷ b'$' ∷ [])

unfoldable pub match_pattern : ℕ → Expr → Result ParseError Bytes
unfolding string_literal
match_pattern mode pattern =
    if mode == 1
    then (do s ← string_literal pattern; ok (anchored s))
    else (do throw_if (not (mode == 0)) bad_mode; string_literal pattern)

unfoldable pub regexp_args : Expr → Bytes → Option Bytes → Exprs
regexp_args value pattern none =
    Exprs.cons value (Exprs.cons (Expr.literal (ScalarValue.utf8 pattern)) Exprs.nil)
regexp_args value pattern (some flags) = Exprs.cons value (
    Exprs.cons (Expr.literal (ScalarValue.utf8 pattern))
      (Exprs.cons (Expr.literal (ScalarValue.utf8 flags)) Exprs.nil))
