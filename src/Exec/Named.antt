-- ===== src/Exec/Named.antt =====
-- The aggregates and the arithmetic of a plan by the names that DuckDB gives them: a description of its own
-- of what TryMapAggFunc and TryMapBinaryOp of src/lance_exec_ir.cpp tell apart.
use lance_duckdb.Common.{
  ◌≡◌, refl, ap, Bytes, Bool, Bool-cases, true, false, List, [], ◌∷◌, Option, none, some, bytes_eq,
  bytes_eq_eq, ◌||◌, if◌then◌else◌, ◌⊎◌, inl, inr, ok, err, throw_if-ok, >>=-eq-ok, ok-injective,
}
use mathlib.Core.Option.{some-injective}
use lance_duckdb.ExprIr.Update.{word_add, word_subtract, word_multiply, word_divide}
use lance_duckdb.Filter.Place.{and_then}
use lance_duckdb.Exec.Types.{
  declined, Attempt, attempt, Expression, Expressions, DuckDb, AggFunc, sum, count, count_star, min,
  max, avg, BinaryOp, add, sub, mul, div,
}
use lance_duckdb.Exec.Expr.{op_of_name, op_of_symbol}
use lance_duckdb.Exec.Aggregates.{
  name_sum, name_count, name_count_star, name_min, name_max, name_avg, name_average, count_func,
  try_map_agg_func, map_function_agg, agg_argument, agg_of,
}
use lance_duckdb.Exec.Refusals.{or_refuse-ok, attempt_inv}

-- The first entry with that name.
unfoldable pub named {ℓ} : {A : Type ℓ} → List (Bytes × A) → Bytes → Option A
named [] name = none
named ((known, x) ∷ entries) name = if bytes_eq name known then some x else named entries name

abbrev pub symbols : List (Bytes × BinaryOp)
symbols = (b'+' ∷ [], add) ∷ (b'-' ∷ [], sub) ∷ (b'*' ∷ [], mul) ∷ (b'/' ∷ [], div) ∷ []

abbrev pub operations : List (Bytes × BinaryOp)
operations =
    (b'+' ∷ [], add)
    ∷ (b'a' ∷ b'd' ∷ b'd' ∷ [], add)
    ∷ (b'-' ∷ [], sub)
    ∷ (b's' ∷ b'u' ∷ b'b' ∷ b't' ∷ b'r' ∷ b'a' ∷ b'c' ∷ b't' ∷ [], sub)
    ∷ (b'*' ∷ [], mul)
    ∷ (b'm' ∷ b'u' ∷ b'l' ∷ b't' ∷ b'i' ∷ b'p' ∷ b'l' ∷ b'y' ∷ [], mul)
    ∷ (b'/' ∷ [], div)
    ∷ (b'd' ∷ b'i' ∷ b'v' ∷ b'i' ∷ b'd' ∷ b'e' ∷ [], div)
    ∷ []

abbrev pub aggregates : List (Bytes × AggFunc)
aggregates =
    (b's' ∷ b'u' ∷ b'm' ∷ [], sum)
    ∷ (b'c' ∷ b'o' ∷ b'u' ∷ b'n' ∷ b't' ∷ b'_' ∷ b's' ∷ b't' ∷ b'a' ∷ b'r' ∷ [], count_star)
    ∷ (b'c' ∷ b'o' ∷ b'u' ∷ b'n' ∷ b't' ∷ [], count)
    ∷ (b'm' ∷ b'i' ∷ b'n' ∷ [], min)
    ∷ (b'm' ∷ b'a' ∷ b'x' ∷ [], max)
    ∷ (b'a' ∷ b'v' ∷ b'g' ∷ [], avg)
    ∷ (b'a' ∷ b'v' ∷ b'e' ∷ b'r' ∷ b'a' ∷ b'g' ∷ b'e' ∷ [], avg)
    ∷ []

-- Without an argument only rows are counted; with one, it is the argument.
abbrev pub of_rows : AggFunc → Option (AggFunc × Option Expression)
of_rows count = some (count_star, none)
of_rows count_star = some (count_star, none)
of_rows _ = none

abbrev pub of_argument : Expression → AggFunc → Option (AggFunc × Option Expression)
of_argument e count_star = none
of_argument e func = some (func, some e)

abbrev pub aggregate_call : Bytes → Expressions → Option (AggFunc × Option Expression)
aggregate_call name Expressions.nil = and_then (named aggregates name) of_rows
aggregate_call name (Expressions.cons e Expressions.nil) =
    and_then (named aggregates name) (of_argument e)
aggregate_call name _ = none

-- The aggregate of an expression; none for one with DISTINCT, a filter or an order of its own.
unfoldable pub aggregate_of : DuckDb → Expression → Option (AggFunc × Option Expression)
aggregate_of db (Expression.aggregate info name distinct filtered ordered children) =
    if distinct || filtered || ordered then none else aggregate_call (db.lower name) children
aggregate_of db (Expression.function info name children) = aggregate_call (db.lower name) children
aggregate_of db _ = none

either_of :
    (a b c d e f g h : Bool)
    → ◌≡◌ {A = Attempt BinaryOp}
        (if a || b
          then ok add
          else if c || d
          then ok sub
          else if e || f
          then ok mul
          else if g || h
          then ok div
          else err declined)
        (attempt (
          if a
          then some add
          else if b
          then some add
          else if c
          then some sub
          else if d
          then some sub
          else if e
          then some mul
          else if f
          then some mul
          else if g
          then some div
          else if h
          then some div
          else none))
either_of true b c d e f g h = refl
either_of false true c d e f g h = refl
either_of false false true d e f g h = refl
either_of false false false true e f g h = refl
either_of false false false false true f g h = refl
either_of false false false false false true g h = refl
either_of false false false false false false true h = refl
either_of false false false false false false false true = refl
either_of false false false false false false false false = refl

pub op_of_name-named : (name : Bytes) → op_of_name name ≡ attempt (named operations name)
unfolding op_of_name named
op_of_name-named name =
    either_of (bytes_eq name (b'+' ∷ [])) (bytes_eq name word_add) (bytes_eq name (b'-' ∷ []))
      (bytes_eq name word_subtract) (bytes_eq name (b'*' ∷ [])) (bytes_eq name word_multiply)
      (bytes_eq name (b'/' ∷ [])) (bytes_eq name word_divide)

one_of :
    (a b c d : Bool)
    → ◌≡◌ {A = Attempt BinaryOp}
        (if a
          then ok add
          else if b
          then ok sub
          else if c
          then ok mul
          else if d
          then ok div
          else err declined)
        (attempt (
          if a
          then some add
          else if b
          then some sub
          else if c
          then some mul
          else if d
          then some div
          else none))
one_of true b c d = refl
one_of false true c d = refl
one_of false false true d = refl
one_of false false false true = refl
one_of false false false false = refl

pub op_of_symbol-named : (symbol : Bytes) → op_of_symbol symbol ≡ attempt (named symbols symbol)
unfolding op_of_symbol named
op_of_symbol-named symbol =
    one_of (bytes_eq symbol (b'+' ∷ [])) (bytes_eq symbol (b'-' ∷ [])) (bytes_eq symbol (b'*' ∷ []))
      (bytes_eq symbol (b'/' ∷ []))

others :
    (d e f g : Bool) {func : AggFunc}
    → (if d then some min else if e then some max else if f || g then some avg else none)
      ≡ some func
    → (if d
        then some min
        else if e
        then some max
        else if f
        then some avg
        else if g
        then some avg
        else none)
      ≡ some func
others true e f g h = h
others false true f g h = h
others false false true g h = h
others false false false true h = h
others false false false false h = h

agg_func-named :
    (name : Bytes) (children : Expressions) {func : AggFunc}
    → try_map_agg_func name children ≡ some func
    → (named aggregates name ≡ some func)
      ⊎ ((named aggregates name ≡ some count) × (count_func children ≡ some func))
unfolding try_map_agg_func named
agg_func-named name children h = elim (Bool-cases (bytes_eq name name_sum)) [
  | inl a ↦ rw a (inl (rw a at h))
  | inr a ↦ elim (Bool-cases (bytes_eq name name_count_star)) [
    | inl b ↦ rw (a, b) (inl (rw (a, b) at h))
    | inr b ↦ elim (Bool-cases (bytes_eq name name_count)) [
      | inl c ↦ rw (a, b, c) (inr (refl, (rw (a, b, c) at h)))
      | inr c ↦
          rw (a, b, c)
            (inl (
              others (bytes_eq name name_min) (bytes_eq name name_max) (bytes_eq name name_avg)
                (bytes_eq name name_average) (rw (a, b, c) at h)))
    ]
  ]
]

abbrev function_count : Expressions → AggFunc
function_count Expressions.nil = count_star
function_count (Expressions.cons e es) = count

star_is_none :
    (name : Bytes) (children : Expressions) {func : AggFunc}
    → bytes_eq name name_count_star ≡ true
    → map_function_agg name children ≡ some func
    → ⊥
unfolding map_function_agg bytes_eq
star_is_none name children t h =
    let h' : map_function_agg name_count_star children ≡ some _ =
      rw (bytes_eq_eq name name_count_star t) at h in
    cc

not_star : (name : Bytes) → bytes_eq name name_count ≡ true → bytes_eq name name_count_star ≡ false
unfolding bytes_eq
not_star name h = rw (bytes_eq_eq name name_count h) refl

function_agg-named :
    (name : Bytes) (children : Expressions) {func : AggFunc}
    → map_function_agg name children ≡ some func
    → (named aggregates name ≡ some func)
      ⊎ ((named aggregates name ≡ some count) × (function_count children ≡ func))
unfolding map_function_agg named
function_agg-named name children h = elim (Bool-cases (bytes_eq name name_sum)) [
  | inl a ↦ rw a (inl (rw a at h))
  | inr a ↦ elim (Bool-cases (bytes_eq name name_count)) [
    | inl b ↦
        rw (a, not_star name b, b)
          (inr (refl, counted children (some-injective _ _ (rw (a, b) at h))))
    | inr b ↦ elim (Bool-cases (bytes_eq name name_count_star)) [
      | inl c ↦ absurd (star_is_none name children c h)
      | inr c ↦
          rw (a, b, c)
            (inl (
              others (bytes_eq name name_min) (bytes_eq name name_max) (bytes_eq name name_avg)
                (bytes_eq name name_average) (rw (a, b) at h)))
    ]
  ]
]
  where
    counted :
        (children : Expressions) {func : AggFunc}
        → elim children [ Expressions.nil ↦ count_star | Expressions.cons e es ↦ count ] ≡ func
        → function_count children ≡ func
    counted Expressions.nil h = h
    counted (Expressions.cons e es) h = h

-- The argument that goes with the function.
module _ (failfast : Bool) where
  argument_call :
      (name : Bytes) (func : AggFunc) (children : Expressions) {arg : Option Expression}
      → named aggregates name ≡ some func
      → agg_argument failfast func children ≡ ok arg
      → aggregate_call name children ≡ some (func, arg)
  unfolding agg_argument
  argument_call name count_star Expressions.nil e h =
      rw e (ap (λ a. some (count_star, a)) (ok-injective h))
  argument_call name count_star (Expressions.cons x xs) e h = cc
  argument_call name _ Expressions.nil e h = cc
  argument_call name sum (Expressions.cons x Expressions.nil) e h =
      rw e (ap (λ a. some (sum, a)) (ok-injective h))
  argument_call name count (Expressions.cons x Expressions.nil) e h =
      rw e (ap (λ a. some (count, a)) (ok-injective h))
  argument_call name min (Expressions.cons x Expressions.nil) e h =
      rw e (ap (λ a. some (min, a)) (ok-injective h))
  argument_call name max (Expressions.cons x Expressions.nil) e h =
      rw e (ap (λ a. some (max, a)) (ok-injective h))
  argument_call name avg (Expressions.cons x Expressions.nil) e h =
      rw e (ap (λ a. some (avg, a)) (ok-injective h))
  argument_call name _ (Expressions.cons x (Expressions.cons y ys)) e h = cc

  count_call :
      (name : Bytes) (children : Expressions) {func : AggFunc} {arg : Option Expression}
      → named aggregates name ≡ some count
      → function_count children ≡ func
      → agg_argument failfast func children ≡ ok arg
      → aggregate_call name children ≡ some (func, arg)
  unfolding agg_argument
  count_call name Expressions.nil e f h =
      rw (← f, e) (ap (λ a. some (count_star, a)) (ok-injective (rw (← f) at h)))
  count_call name (Expressions.cons x Expressions.nil) e f h =
      rw (← f, e) (ap (λ a. some (count, a)) (ok-injective (rw (← f) at h)))
  count_call name (Expressions.cons x (Expressions.cons y ys)) e f h =
      let h' : ◌≡◌ {A = Attempt (Option Expression)} (err _) (ok _) = rw (← f) at h in cc

  function_count-count_func :
      (children : Expressions) {func : AggFunc}
      → count_func children ≡ some func
      → function_count children ≡ func
  function_count-count_func Expressions.nil h = some-injective _ _ h
  function_count-count_func (Expressions.cons x Expressions.nil) h = some-injective _ _ h
  function_count-count_func (Expressions.cons x (Expressions.cons y ys)) h = cc

  -- What the code maps to an aggregate is that aggregate.
  pub agg_of-aggregate_of :
      (db : DuckDb) (e : Expression) {p : AggFunc × Option Expression}
      → agg_of db failfast e ≡ ok p
      → aggregate_of db e ≡ some p
  unfolding agg_of aggregate_of
  agg_of-aggregate_of db (Expression.aggregate info name distinct filtered ordered children) h =
      let (plain, k₁) = throw_if-ok (distinct || filtered || ordered) _ _ h in
      let (func, e₂, k₂) =
        or_refuse-ok failfast (attempt (try_map_agg_func (db.lower name) children)) _ k₁ in
      let (arg, e₃, k₃) = >>=-eq-ok (agg_argument failfast func children) _ k₂ in
      rw (plain, ← ok-injective k₃)
        (elim (agg_func-named (db.lower name) children (attempt_inv _ e₂)) [
          | inl n ↦ argument_call (db.lower name) func children n e₃
          | inr (n, c) ↦
              count_call (db.lower name) children n (function_count-count_func children c) e₃
        ])
  agg_of-aggregate_of db (Expression.function info name children) h =
      let (func, e₂, k₂) =
        or_refuse-ok failfast (attempt (map_function_agg (db.lower name) children)) _ h in
      let (arg, e₃, k₃) = >>=-eq-ok (agg_argument failfast func children) _ k₂ in
      rw (← ok-injective k₃)
        (elim (function_agg-named (db.lower name) children (attempt_inv _ e₂)) [
          | inl n ↦ argument_call (db.lower name) func children n e₃
          | inr (n, c) ↦ count_call (db.lower name) children n c e₃
        ])
  agg_of-aggregate_of db _ h = cc
