-- ===== src/ExprIr/Fuel/Calls.antt =====
-- rust/expr_ir.rs: what a node's parser decides about what it has read (functions, patterns, options),
-- and the slice of a subexpression.
use lance_duckdb.Common.{
  ℕ, ◌≤◌, Bytes, Bool, true, false, not, [], ◌∷◌, length, take, drop, length-take, length-drop, ltb,
  ◌==◌, ◌||◌, bytes_eq, Option, none, some, Result, ok, err, ◌>>=◌, throw_if, or_throw,
  if◌then◌else◌, arith,
}
use lance_duckdb.Wire.Reader.{
  ParseError, unexpected_eof, read_u32, read_bytes, read_len_prefixed_bytes, bad_mode,
  unresolved_udf,
}
use lance_duckdb.ExprIr.Types.{Expr, ScalarValue, Udf}
use lance_duckdb.ExprIr.Parser.{
  Session, resolve_scalar_function, string_literal, regexp_options, match_pattern, starts_with_name,
  ends_with_name, contains_name, lower_name, upper_name,
}
use lance_duckdb.ExprIr.Fuel.{Safe, Fueled, Cut, bind-Fueled, if-Fueled, or_throw-Fueled}
use lance_duckdb.ExprIr.Fuel.Readers.{read_u32-Safe}

pub resolve-Fueled :
    (session : Session) (name : Bytes) → Fueled (resolve_scalar_function session name)
unfolding resolve_scalar_function
resolve-Fueled session name = if-Fueled (bytes_eq name starts_with_name) _ _ tt (
    if-Fueled (bytes_eq name ends_with_name) _ _ tt (
      if-Fueled (bytes_eq name contains_name) _ _ tt (
        if-Fueled (bytes_eq name lower_name) _ _ tt
          (if-Fueled (bytes_eq name upper_name) _ _ tt (registered session.registry)))))
  where
    registered :
        (r : Option (Bytes → Option Udf))
        → Fueled
            (elim r [ some udf ↦ or_throw (udf name) unresolved_udf | none ↦ err unresolved_udf ])
    registered (some udf) = or_throw-Fueled (udf name) unresolved_udf (λ e. cc)
    registered none = λ e. cc

pub string_literal-Fueled : (e : Expr) → Fueled (string_literal e)
unfolding string_literal
string_literal-Fueled (Expr.literal (ScalarValue.utf8 s)) = tt
string_literal-Fueled (Expr.literal _) = λ e. cc
string_literal-Fueled _ = λ e. cc

elim-Fueled {ℓ} :
    {A : Type ℓ} (b : Bool) (x y : Result ParseError A)
    → Fueled x
    → Fueled y
    → Fueled (elim b [ true ↦ x | false ↦ y ])
elim-Fueled true x y h k = h
elim-Fueled false x y h k = k

pub regexp_options-Fueled : (i s : Bool) (cs : Bytes) → Fueled (regexp_options i s cs)
unfolding regexp_options
regexp_options-Fueled i s [] = tt
regexp_options-Fueled i s (c ∷ cs) = elim-Fueled (c == b'i') _ _ (regexp_options-Fueled true s cs) (
    elim-Fueled (c == b's') _ _ (regexp_options-Fueled i true cs)
      (if-Fueled (c == b' ' || c == 9 || c == 10) _ _ (regexp_options-Fueled i s cs) (λ x. cc)))

pub match_pattern-Fueled : (mode : ℕ) (e : Expr) → Fueled (match_pattern mode e)
unfolding match_pattern
match_pattern-Fueled mode e =
    if-Fueled (mode == 1) _ _ (bind-Fueled (string_literal e) _ (string_literal-Fueled e) (λ s. tt))
      (bind-Fueled _ _ (mode_known (mode == 0)) (λ u. string_literal-Fueled e))
  where
    mode_known : (b : Bool) → Fueled (throw_if (not b) bad_mode)
    mode_known true = tt
    mode_known false = λ x. cc

if-Cut :
    (n : ℕ) (b : Bool) (raw rest : Bytes)
    → length raw ≤ n
    → length rest ≤ n
    → Cut n (if b then err unexpected_eof else ok (raw, rest))
if-Cut n true raw rest h k = λ e. cc
if-Cut n false raw rest h k = (h, k)

read_bytes-Cut : (n len : ℕ) (bs : Bytes) → length bs ≤ n → Cut n (read_bytes len bs)
unfolding read_bytes
read_bytes-Cut n len bs h =
    if-Cut n (ltb (length bs) len) (take len bs) (drop len bs)
      (omega (arith, h, length-take len bs)) (omega (arith, h, length-drop len bs))

pub read_len_prefixed_bytes-Cut :
    (n : ℕ) (bs : Bytes) → length bs ≤ n → Cut n (read_len_prefixed_bytes bs)
unfolding read_len_prefixed_bytes
read_len_prefixed_bytes-Cut n bs h = counted (read_u32 bs) (read_u32-Safe n bs h)
  where
    counted :
        (m : Result ParseError (ℕ × Bytes))
        → Safe n m
        → Cut n (m >>= λ (len, rest). read_bytes len rest)
    counted (ok (len, rest)) k = read_bytes-Cut n len rest k
    counted (err e) k = k
