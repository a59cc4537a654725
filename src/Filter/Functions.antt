-- ===== src/Filter/Functions.antt =====
-- The functions of DuckDB that filters may call, by their names, and the texts of constants: a description
-- of its own of what src/lance_filter_ir.cpp tells apart.
use lance_duckdb.Common.{
  ◌≡◌, refl, Bytes, Bool, true, false, List, [], ◌∷◌, Option, none, some, bytes_eq, bytes_eq_eq,
  not, ◌||◌, if◌then◌else◌, ok, or_throw-ok,
}
use lance_duckdb.ExprIr.Types.{Value}
use lance_duckdb.Filter.Types.{declined, Expression, Casts}
use lance_duckdb.Filter.Columns.{is_null_value, struct_extract_name, struct_extract_at_name}
use lance_duckdb.ExprIr.Parser.{
  starts_with_name, ends_with_name, contains_name, lower_name, upper_name,
}
use lance_duckdb.Filter.Calls.{
  FunctionKind, field_access, text, search, regexp, like, other, function_kind, like_kind,
  regexp_matches_name, regexp_full_match_name, non_null_varchar,
}
use lance_duckdb.Filter.Attempts.{require-ok, attempt-ok}

abbrev pub function_names : List (Bytes × FunctionKind)
function_names =
    (
      b's' ∷ b't' ∷ b'r' ∷ b'u' ∷ b'c' ∷ b't' ∷ b'_' ∷ b'e' ∷ b'x' ∷ b't' ∷ b'r' ∷ b'a' ∷ b'c'
          ∷ b't' ∷ [],
      field_access,
    )
    ∷ (
      b's' ∷ b't' ∷ b'r' ∷ b'u' ∷ b'c' ∷ b't' ∷ b'_' ∷ b'e' ∷ b'x' ∷ b't' ∷ b'r' ∷ b'a' ∷ b'c'
          ∷ b't' ∷ b'_' ∷ b'a' ∷ b't' ∷ [],
      field_access,
    )
    ∷ (b'l' ∷ b'o' ∷ b'w' ∷ b'e' ∷ b'r' ∷ [], text)
    ∷ (b'u' ∷ b'p' ∷ b'p' ∷ b'e' ∷ b'r' ∷ [], text)
    ∷ (b's' ∷ b't' ∷ b'a' ∷ b'r' ∷ b't' ∷ b's' ∷ b'_' ∷ b'w' ∷ b'i' ∷ b't' ∷ b'h' ∷ [], search)
    ∷ (b'e' ∷ b'n' ∷ b'd' ∷ b's' ∷ b'_' ∷ b'w' ∷ b'i' ∷ b't' ∷ b'h' ∷ [], search)
    ∷ (b'c' ∷ b'o' ∷ b'n' ∷ b't' ∷ b'a' ∷ b'i' ∷ b'n' ∷ b's' ∷ [], search)
    ∷ (
      b'r' ∷ b'e' ∷ b'g' ∷ b'e' ∷ b'x' ∷ b'p' ∷ b'_' ∷ b'm' ∷ b'a' ∷ b't' ∷ b'c' ∷ b'h' ∷ b'e'
          ∷ b's' ∷ [],
      regexp false,
    )
    ∷ (
      b'r' ∷ b'e' ∷ b'g' ∷ b'e' ∷ b'x' ∷ b'p' ∷ b'_' ∷ b'f' ∷ b'u' ∷ b'l' ∷ b'l' ∷ b'_' ∷ b'm'
          ∷ b'a' ∷ b't' ∷ b'c' ∷ b'h' ∷ [],
      regexp true,
    )
    ∷ (b'~' ∷ b'~' ∷ [], like false false)
    ∷ (b'~' ∷ b'~' ∷ b'*' ∷ [], like true false)
    ∷ (
      b'l' ∷ b'i' ∷ b'k' ∷ b'e' ∷ b'_' ∷ b'e' ∷ b's' ∷ b'c' ∷ b'a' ∷ b'p' ∷ b'e' ∷ [],
      like false true,
    )
    ∷ (
      b'i' ∷ b'l' ∷ b'i' ∷ b'k' ∷ b'e' ∷ b'_' ∷ b'e' ∷ b's' ∷ b'c' ∷ b'a' ∷ b'p' ∷ b'e' ∷ [],
      like true true,
    )
    ∷ []

unfoldable pub kind_in : List (Bytes × FunctionKind) → Bytes → FunctionKind
kind_in [] name = other
kind_in ((known, kind) ∷ kinds) name = if bytes_eq name known then kind else kind_in kinds name

unfoldable pub kind_of : Bytes → FunctionKind
kind_of name = kind_in function_names name

-- The tests of the code, and one test for each name.
tests :
    (a b c d e f g h i : Bool) (k : FunctionKind)
    → (h ≡ true → i ≡ false)
    → (if a || b
        then field_access
        else if c || d
        then text
        else if e || f || g
        then search
        else if h || i
        then regexp i
        else k)
      ≡ (if a
          then field_access
          else if b
          then field_access
          else if c
          then text
          else if d
          then text
          else if e
          then search
          else if f
          then search
          else if g
          then search
          else if h
          then regexp false
          else if i
          then regexp true
          else k)
tests true b c d e f g h i k p = refl
tests false true c d e f g h i k p = refl
tests false false true d e f g h i k p = refl
tests false false false true e f g h i k p = refl
tests false false false false true f g h i k p = refl
tests false false false false false true g h i k p = refl
tests false false false false false false true h i k p = refl
tests false false false false false false false true i k p = rw (p refl) refl
tests false false false false false false false false true k p = refl
tests false false false false false false false false false k p = refl

not_full :
    (name : Bytes)
    → bytes_eq name regexp_matches_name ≡ true
    → bytes_eq name regexp_full_match_name ≡ false
unfolding bytes_eq
not_full name h = rw (bytes_eq_eq name regexp_matches_name h) refl

pub function_kind-kind_of : (name : Bytes) → function_kind name ≡ kind_of name
unfolding function_kind like_kind kind_of kind_in
function_kind-kind_of name =
    tests (bytes_eq name struct_extract_name) (bytes_eq name struct_extract_at_name)
      (bytes_eq name lower_name) (bytes_eq name upper_name) (bytes_eq name starts_with_name)
      (bytes_eq name ends_with_name) (bytes_eq name contains_name)
      (bytes_eq name regexp_matches_name) (bytes_eq name regexp_full_match_name) (like_kind name)
      (not_full name)

-- The text of a constant, or of one that is cast.
module _ (casts : Casts) where
  abbrev text_of : Option Value → Option Bytes
  text_of none = none
  text_of (some value) = casts.to_varchar value

  unfoldable pub constant_text : Expression → Option Bytes
  constant_text (Expression.constant value) = casts.to_varchar value
  constant_text (Expression.cast try_cast type (Expression.constant value)) =
      text_of (casts.cast_as value type)
  constant_text _ = none

  pub constant_text-non_null_varchar :
      (e : Expression) {s : Bytes} → non_null_varchar casts e ≡ ok s → constant_text e ≡ some s
  unfolding non_null_varchar constant_text
  constant_text-non_null_varchar (Expression.constant value) h =
      let (_, k) = require-ok (not (is_null_value value)) _ h in attempt-ok _ k
  constant_text-non_null_varchar (Expression.cast try_cast type (Expression.constant value)) h =
      let (_, k) = require-ok (not try_cast) _ h in
      let (_, l) = require-ok (not (is_null_value value)) _ k in
      let (casted, e, m) = or_throw-ok (casts.cast_as value type) declined _ l in
      rw e (attempt-ok _ m)
  constant_text-non_null_varchar (Expression.cast try_cast type _) h = cc
  constant_text-non_null_varchar _ h = cc
