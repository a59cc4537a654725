-- ===== src/ExprIr/Exports/Regexp.antt =====
-- The pattern and the options of a regular expression: a description of its own of what parse_regexp of
-- rust/expr_ir.rs makes of them.
use lance_duckdb.Common.{
  ℕ, zero, suc, ◌≡◌, refl, ap, Bytes, Bool, Bool-cases, true, false, [], ◌∷◌, ◌++◌, Option, none,
  some, ◌==◌, ◌||◌, ◌&&◌, if◌then◌else◌, inl, inr, Result, ok, err, ◌>>=◌, arith,
}
use lance_duckdb.Wire.Reader.{ParseError, bad_mode, bad_option, not_a_string}
use lance_duckdb.ExprIr.Types.{Expr, ScalarValue}
use lance_duckdb.ExprIr.Parser.{string_literal, regexp_options, normalize_options, match_pattern}

unfoldable pub literal_text : Expr → Result ParseError Bytes
literal_text (Expr.literal (ScalarValue.utf8 s)) = ok s
literal_text _ = err not_a_string

-- Mode 0 searches for the pattern, mode 1 has it match the whole text.
unfoldable pub pattern_text : ℕ → Expr → Result ParseError Bytes
pattern_text zero e = literal_text e
pattern_text (suc zero) e =
    literal_text e >>= λ s. ok ((b'^' ∷ b'(' ∷ b'?' ∷ b':' ∷ []) ++ (s ++ b')' ∷ b'$' ∷ []))
pattern_text (suc (suc n)) e = err bad_mode

unfoldable pub has : ℕ → Bytes → Bool
has letter [] = false
has letter (c ∷ text) = c == letter || has letter text

-- The letters i and s, and blanks.
abbrev pub is_option : ℕ → Bool
is_option c = c == b'i' || (c == b's' || (c == 32 || c == 9 || c == 10))

unfoldable pub are_options : Bytes → Bool
are_options [] = true
are_options (c ∷ text) = is_option c && are_options text

abbrev pub some_letters : Bytes → Option Bytes
some_letters [] = none
some_letters (c ∷ letters) = some (c ∷ letters)

-- Each letter that is there, once.
unfoldable pub options_in : Bytes → Result ParseError (Option Bytes)
options_in text =
    if are_options text
    then ok (
        some_letters
          ((if has b'i' text then b'i' ∷ [] else []) ++ (if has b's' text then b's' ∷ [] else [])))
    else err bad_option

string_literal-text : (e : Expr) → string_literal e ≡ literal_text e
unfolding string_literal literal_text
string_literal-text (Expr.literal (ScalarValue.utf8 s)) = refl
string_literal-text (Expr.literal _) = refl
string_literal-text _ = refl

pub match_pattern-text : (mode : ℕ) (e : Expr) → match_pattern mode e ≡ pattern_text mode e
unfolding match_pattern pattern_text
match_pattern-text zero e = string_literal-text e
match_pattern-text (suc zero) e = rw (string_literal-text e) refl
match_pattern-text (suc (suc n)) e = ground arith

options-has :
    (i s : Bool) (text : Bytes)
    → regexp_options i s text
      ≡ (if are_options text then ok (i || has b'i' text, s || has b's' text) else err bad_option)
unfolding regexp_options are_options has
options-has true true [] = refl
options-has true false [] = refl
options-has false true [] = refl
options-has false false [] = refl
options-has i s (c ∷ cs) = elim (Bool-cases (c == b'i')) [
  | inl t ↦
      let other : (c == b's') ≡ false = ground arith in
      rw (t, other, or_true i, regexp_options) (options-has true s cs)
  | inr f ↦ elim (Bool-cases (c == b's')) [
    | inl t ↦ rw (f, t, or_true s, regexp_options) (options-has i true cs)
    | inr f' ↦ elim (Bool-cases (c == 32 || c == 9 || c == 10)) [
      | inl t ↦ rw (f, f', t, regexp_options) (options-has i s cs)
      | inr f'' ↦ rw (f, f', f'', regexp_options) refl
    ]
  ]
]
  where
    or_true : (b : Bool) → (b || true) ≡ true
    or_true true = refl
    or_true false = refl

normal_letters :
    (i s : Bool)
    → normalize_options i s
      ≡ some_letters ((if i then b'i' ∷ [] else []) ++ (if s then b's' ∷ [] else []))
unfolding normalize_options
normal_letters true true = refl
normal_letters true false = refl
normal_letters false true = refl
normal_letters false false = refl

options-in :
    (text : Bytes)
    → (regexp_options false false text >>= λ p. ok (normalize_options p.0 p.1)) ≡ options_in text
unfolding options_in
options-in text = elim (Bool-cases (are_options text)) [
  | inl t ↦
      rw (options-has false false text, t) (ap ok (normal_letters (has b'i' text) (has b's' text)))
  | inr f ↦ rw (options-has false false text, f) refl
]

-- The options that the parser reads from an expression.
pub read-options_in :
    (m m' : Result ParseError Expr)
    → m ≡ m'
    → (m >>= λ e. string_literal e >>= λ text.
        regexp_options false false text >>= λ p. ok (normalize_options p.0 p.1))
      ≡ (m' >>= λ e. literal_text e >>= options_in)
read-options_in m (err x) h = rw h refl
read-options_in m (ok e) h = rw (h, string_literal-text e) (read (literal_text e))
  where
    read :
        (r : Result ParseError Bytes)
        → (r >>= λ text. regexp_options false false text >>= λ p. ok (normalize_options p.0 p.1))
          ≡ (r >>= options_in)
    read (ok text) = options-in text
    read (err x) = refl
