-- ===== src/Filter/Calls.antt =====
-- src/lance_filter_ir.cpp: what the two encoders of expressions have in common, which is all but columns:
-- constants, calls and conjunctions, over the encodings of the operands.
use lance_duckdb.Common.{
  ℕ, Bytes, Bool, true, false, List, [], ◌∷◌, bytes_eq, ◌==◌, ◌||◌, not, if◌then◌else◌, ok, err,
  ◌>>=◌, ◌>>◌,
}
use lance_duckdb.ExprIr.Types.{
  DuckDb, LogicalType, Value, ExpressionType, conjunction_and, conjunction_or,
}
use lance_duckdb.ExprIr.Nodes.{
  try_encode_literal, try_encode_and, try_encode_or, try_encode_scalar_function, try_encode_like,
  try_encode_regexp, try_encode_comparison_op, try_encode_comparison,
}
use lance_duckdb.ExprIr.Parser.{
  starts_with_name, ends_with_name, contains_name, lower_name, upper_name,
}
use lance_duckdb.Filter.Types.{declined, Attempt, attempt, require, Expression, Expressions, Casts}
use lance_duckdb.Filter.Columns.{is_null_value, struct_extract_name, struct_extract_at_name}

abbrev pub regexp_matches_name : Bytes
regexp_matches_name =
    b'r' ∷ b'e' ∷ b'g' ∷ b'e' ∷ b'x' ∷ b'p' ∷ b'_' ∷ b'm' ∷ b'a' ∷ b't' ∷ b'c' ∷ b'h' ∷ b'e' ∷ b's'
    ∷ []

abbrev pub regexp_full_match_name : Bytes
regexp_full_match_name =
    b'r' ∷ b'e' ∷ b'g' ∷ b'e' ∷ b'x' ∷ b'p' ∷ b'_' ∷ b'f' ∷ b'u' ∷ b'l' ∷ b'l' ∷ b'_' ∷ b'm' ∷ b'a'
    ∷ b't' ∷ b'c' ∷ b'h' ∷ []

abbrev pub like_name : Bytes
like_name = b'~' ∷ b'~' ∷ []

abbrev pub ilike_name : Bytes
ilike_name = b'~' ∷ b'~' ∷ b'*' ∷ []

abbrev pub like_escape_name : Bytes
like_escape_name = b'l' ∷ b'i' ∷ b'k' ∷ b'e' ∷ b'_' ∷ b'e' ∷ b's' ∷ b'c' ∷ b'a' ∷ b'p' ∷ b'e' ∷ []

abbrev pub ilike_escape_name : Bytes
ilike_escape_name =
    b'i' ∷ b'l' ∷ b'i' ∷ b'k' ∷ b'e' ∷ b'_' ∷ b'e' ∷ b's' ∷ b'c' ∷ b'a' ∷ b'p' ∷ b'e' ∷ []

-- The functions that are encoded, by the comparisons of their names.
pub data FunctionKind : Type 0 where
  field_access text search other : FunctionKind
  regexp : (full_match : Bool) → FunctionKind
  like : (case_insensitive has_escape : Bool) → FunctionKind

unfoldable pub like_kind : Bytes → FunctionKind
like_kind name =
    if bytes_eq name like_name
    then like false false
    else if bytes_eq name ilike_name
    then like true false
    else if bytes_eq name like_escape_name
    then like false true
    else if bytes_eq name ilike_escape_name
    then like true true
    else other

unfoldable pub function_kind : Bytes → FunctionKind
function_kind name =
    if bytes_eq name struct_extract_name || bytes_eq name struct_extract_at_name
    then field_access
    else if bytes_eq name lower_name || bytes_eq name upper_name
    then text
    else if bytes_eq name starts_with_name
        || bytes_eq name ends_with_name
        || bytes_eq name contains_name
    then search
    else if bytes_eq name regexp_matches_name || bytes_eq name regexp_full_match_name
    then regexp (bytes_eq name regexp_full_match_name)
    else like_kind name

module _ (casts : Casts) where
  unfoldable pub non_null_varchar : Expression → Attempt Bytes
  non_null_varchar (Expression.constant value) = do
    require (not (is_null_value value))
    attempt (casts.to_varchar value)
  non_null_varchar (Expression.cast try_cast return_type (Expression.constant value)) = do
    require (not try_cast)
    require (not (is_null_value value))
    casted ← attempt (casts.cast_as value return_type)
    attempt (casts.to_varchar casted)
  non_null_varchar _ = err declined

-- static_cast<uint8_t>('\\')
abbrev pub backslash : ℕ
backslash = 92

abbrev pub regexp_mode : Bool → ℕ
regexp_mode full_match = if full_match then 1 else 0

-- The escape character is a backslash, or none is encoded.
abbrev pub escape_of : Bytes → Attempt ℕ
escape_of (c ∷ []) = do require (c == backslash); ok c
escape_of _ = err declined

module _ (db : DuckDb) (casts : Casts) where
  -- A constant operand of a text function, as a literal of type VARCHAR.
  unfoldable pub text_ir : Expression → Attempt Bytes
  text_ir expr = do
    value ← non_null_varchar casts expr
    attempt (try_encode_literal db (Value.varchar value))

  -- A cast of a constant is made here; another cast is not encoded.
  unfoldable pub cast_ir : Bool → LogicalType → Expression → Attempt Bytes
  cast_ir try_cast return_type (Expression.constant value) = do
    require (not try_cast)
    casted ← attempt (casts.cast_as value return_type)
    attempt (try_encode_literal db casted)
  cast_ir try_cast return_type child = err declined

  -- The calls below take the name of the function, the encoding of the first child, and the others.
  unfoldable pub text_call_ir : Bytes → Attempt Bytes → Expressions → Attempt Bytes
  text_call_ir name input Expressions.nil = do
    input_ir ← input
    attempt (try_encode_scalar_function db name (input_ir ∷ []))
  text_call_ir name input rest = err declined

  unfoldable pub search_call_ir : Bytes → Attempt Bytes → Expressions → Attempt Bytes
  search_call_ir name input (Expressions.cons needle Expressions.nil) = do
    input_ir ← input
    needle_ir ← text_ir needle
    attempt (try_encode_scalar_function db name (input_ir ∷ needle_ir ∷ []))
  search_call_ir name input rest = err declined

  unfoldable pub regexp_call_ir : Bool → Attempt Bytes → Expressions → Attempt Bytes
  regexp_call_ir full_match input (Expressions.cons pattern Expressions.nil) = do
    input_ir ← input
    pattern_ir ← text_ir pattern
    attempt (try_encode_regexp (regexp_mode full_match) false input_ir pattern_ir [])
  regexp_call_ir full_match input
        (Expressions.cons pattern (Expressions.cons flags Expressions.nil)) =
      do
        input_ir ← input
        pattern_ir ← text_ir pattern
        flags_ir ← text_ir flags
        attempt (try_encode_regexp (regexp_mode full_match) true input_ir pattern_ir flags_ir)
  regexp_call_ir full_match input rest = err declined

  unfoldable pub like_call_ir :
      (case_insensitive has_escape : Bool) → Attempt Bytes → Expressions → Attempt Bytes
  like_call_ir ci false input (Expressions.cons pattern Expressions.nil) = do
    input_ir ← input
    pattern_ir ← text_ir pattern
    attempt (try_encode_like ci false 0 input_ir pattern_ir)
  like_call_ir ci true input (Expressions.cons pattern (Expressions.cons escape Expressions.nil)) =
      do
        input_ir ← input
        pattern_ir ← text_ir pattern
        escape_value ← non_null_varchar casts escape
        escape_char ← escape_of escape_value
        attempt (try_encode_like ci true escape_char input_ir pattern_ir)
  like_call_ir ci has_escape input rest = err declined

-- The dispatch on the name of the function; an access to a field is a column.
unfoldable pub call_ir :
    DuckDb
    → Casts
    → FunctionKind
    → Bytes
    → (column input : Attempt Bytes) → Expressions
    → Attempt Bytes
call_ir db casts field_access name column input rest = column
call_ir db casts text name column input rest = text_call_ir db casts name input rest
call_ir db casts search name column input rest = search_call_ir db casts name input rest
call_ir db casts (regexp full_match) name column input rest =
    regexp_call_ir db casts full_match input rest
call_ir db casts (like ci has_escape) name column input rest =
    like_call_ir db casts ci has_escape input rest
call_ir db casts other name column input rest = err declined

-- The table filter's encoder knows fewer functions.
unfoldable pub table_call_ir :
    DuckDb → Casts → FunctionKind → Bytes → (input : Attempt Bytes) → Expressions → Attempt Bytes
table_call_ir db casts text name input rest = text_call_ir db casts name input rest
table_call_ir db casts search name input rest = search_call_ir db casts name input rest
table_call_ir db casts _ name input rest = err declined

unfoldable pub comparison_ir : ExpressionType → Attempt Bytes → Attempt Bytes → Attempt Bytes
comparison_ir type left right = do
  op ← attempt (try_encode_comparison_op type)
  left_ir ← left
  right_ir ← right
  attempt (try_encode_comparison op left_ir right_ir)

unfoldable pub conjunction_ir : ExpressionType → Attempt (List Bytes) → Attempt Bytes
conjunction_ir conjunction_and children = children >>= λ irs. attempt (try_encode_and irs)
conjunction_ir conjunction_or children = children >>= λ irs. attempt (try_encode_or irs)
conjunction_ir _ children = err declined

-- The items of an IN list are constants.
unfoldable pub literals_ir : DuckDb → Expressions → Attempt (List Bytes)
literals_ir db Expressions.nil = ok []
literals_ir db (Expressions.cons (Expression.constant value) rest) = do
  lit_ir ← attempt (try_encode_literal db value)
  irs ← literals_ir db rest
  ok (lit_ir ∷ irs)
literals_ir db _ = err declined

-- The values of an IN filter.
unfoldable pub value_literals : DuckDb → List Value → Attempt (List Bytes)
value_literals db [] = ok []
value_literals db (value ∷ values) = do
  lit_ir ← attempt (try_encode_literal db value)
  items ← value_literals db values
  ok (lit_ir ∷ items)
