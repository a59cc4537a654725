-- ===== src/Exec/RoundTrip/Places.antt =====
-- The names in the order of a message stand at the places that its expressions refer to.
use lance_duckdb.Common.{
  ℕ, zero, suc, ◌+◌, ◌-◌, ◌≡◌, refl, sym, ap, ◌∙◌, Bytes, Bool, Bool-cases, true, false, List, [],
  ◌∷◌, ◌++◌, append_assoc, map, Option, none, some, length, length-append, get_elem?, ltb, leb,
  ◌==◌, not, inl, inr, ok, err, throw_if-ok, >>=-eq-ok, ok-injective, if◌then◌else◌, arith,
}
use lance_duckdb.ExprIr.Types.{ColumnBinding}
use lance_duckdb.ExprIr.Nodes.{is_empty}
use lance_duckdb.Exec.Types.{Attempt, attempt, refusal, Info, Expression, GroupIr, AggIr}
use lance_duckdb.Exec.Expr.{info_of}
use lance_duckdb.Exec.Aggregates.{or_refuse}
use lance_duckdb.Exec.Message.{
  LogicalAggregate, LogicalProjection, OrderNode, Names, set_name, rename, is_movable, strip_casts,
  output_index, is_position, project_names, post_project, projects_to, order_name, order_entries,
}
use lance_duckdb.Exec.Plan.{
  each, names_of, name_of, output_columns, sort_columns, place_above, sort_place, order_of,
  order_meaning,
}
use lance_duckdb.Exec.RoundTrip.Arguments.{or_refuse-ok, attempt_inv}

-- The names are those of the groups, then those of the aggregates.
abbrev Splits : ℕ → Names → Type 0
Splits n names =
    (names.output_names ≡ names.group_names ++ names.agg_names) × (length names.group_names ≡ n)

length-set_name : (xs : List Bytes) (i : ℕ) (name : Bytes) → length (set_name xs i name) ≡ length xs
unfolding set_name
length-set_name [] i name = refl
length-set_name (x ∷ xs) zero name = refl
length-set_name (x ∷ xs) (suc i) name = ap suc (length-set_name xs i name)

set_name-left :
    (xs ys : List Bytes) (i : ℕ) (name : Bytes)
    → ltb i (length xs) ≡ true
    → set_name (xs ++ ys) i name ≡ set_name xs i name ++ ys
unfolding set_name
set_name-left [] ys i name h = ground arith
set_name-left (x ∷ xs) ys zero name h = refl
set_name-left (x ∷ xs) ys (suc i) name h =
    ap (λ t. x ∷ t) (set_name-left xs ys i name (ground arith))

set_name-right :
    (xs ys : List Bytes) (i : ℕ) (name : Bytes)
    → ltb i (length xs) ≡ false
    → set_name (xs ++ ys) i name ≡ xs ++ set_name ys (i - length xs) name
unfolding set_name
set_name-right [] ys i name h = let e : i ≡ i - 0 = omega arith in ap (λ k. set_name ys k name) e
set_name-right (x ∷ xs) ys zero name h = ground arith
set_name-right (x ∷ xs) ys (suc i) name h =
    let e : i - length xs ≡ suc i - suc (length xs) = omega arith in
    ap (λ t. x ∷ t)
      (set_name-right xs ys i name (ground arith) ∙ ap (λ k. xs ++ set_name ys k name) e)

set_name-next :
    (before : List Bytes) (x : Bytes) (rest : List Bytes) (name : Bytes)
    → set_name (before ++ x ∷ rest) (length before) name ≡ (before ++ name ∷ []) ++ rest
unfolding set_name
set_name-next [] x rest name = refl
set_name-next (y ∷ before) x rest name = ap (λ t. y ∷ t) (set_name-next before x rest name)

rename-Splits :
    (n i : ℕ) (name : Bytes) (names : Names) → Splits n names → Splits n (rename i name names)
unfolding rename
rename-Splits n i name names (o, l) = elim (Bool-cases (ltb i (length names.group_names))) [
  | inl t ↦ rw t (
    rw o (set_name-left names.group_names names.agg_names i name t),
    length-set_name names.group_names i name ∙ l,
  )
  | inr f ↦ rw f (rw o (set_name-right names.group_names names.agg_names i name f), l)
]

rename-outputs :
    (i : ℕ) (name : Bytes) (names : Names)
    → (rename i name names).output_names ≡ set_name names.output_names i name
unfolding rename
rename-outputs i name names = elim (Bool-cases (ltb i (length names.group_names))) [
  | inl t ↦ rw t refl
  | inr f ↦ rw f refl
]

info-name_of :
    (e : Expression) {info : Info} → attempt (info_of e) ≡ ok info → info.name ≡ name_of e
unfolding name_of
info-name_of e h = rw (attempt_inv (info_of e) h, name_of) refl

module _ (failfast : Bool) (aggregate : LogicalAggregate) (n : ℕ) where
  project_names-outputs :
      (i : ℕ) (es : List Expression) (names : Names) (before rest : List Bytes) {names' : Names}
      → Splits n names
      → names.output_names ≡ before ++ rest
      → length before ≡ i
      → length rest ≡ length es
      → project_names failfast aggregate i es names ≡ ok names'
      → (names'.output_names ≡ before ++ map name_of es) × Splits n names'
  unfolding project_names
  project_names-outputs i [] names before [] s o l r h = rw (← ok-injective h) (o, s)
  project_names-outputs i [] names before (x ∷ rest) s o l r h = ground arith
  project_names-outputs i (e ∷ es) names before [] s o l r h = ground arith
  project_names-outputs i (e ∷ es) names before (x ∷ rest) {names'} s o l r h =
      let (info, e₁, k₁) = or_refuse-ok failfast (attempt (info_of e)) _ h in
      let (_, k₂) = throw_if-ok (not (is_movable info)) _ _ k₁ in
      let (base, _, k₃) = >>=-eq-ok (strip_casts failfast aggregate e) _ k₂ in
      let (_, k₄) =
        throw_if-ok
          (not (
            is_position failfast aggregate i
              (output_index failfast aggregate (length names.group_names) base)))
          _ _ k₃ in
      let (_, k₅) = throw_if-ok (leb (length names.output_names) i) _ _ k₄ in
      let (_, k₆) = throw_if-ok (is_empty info.name) _ _ k₅ in
      let named : (rename i info.name names).output_names ≡ (before ++ info.name ∷ []) ++ rest =
        rename-outputs i info.name names
        ∙ ap (λ t. set_name t i info.name) o
        ∙ ap (λ t. set_name (before ++ x ∷ rest) t info.name) (sym l)
        ∙ set_name-next before x rest info.name in
      let (out, split) =
        project_names-outputs (i + 1) es (rename i info.name names) (before ++ info.name ∷ []) rest
          (rename-Splits n i info.name names s) named
          (omega (arith, length-append before (info.name ∷ []), l)) (omega (arith, r)) k₆ in
      (
        out
            ∙ append_assoc before (info.name ∷ []) (map name_of es)
            ∙ ap (λ t. before ++ t ∷ map name_of es) (info-name_of e e₁),
        split,
      )

  post_project-outputs :
      (projection : Option LogicalProjection) (groups : List GroupIr) (aggs : List AggIr)
      {names : Names}
      → Splits n (names_of groups aggs)
      → post_project failfast aggregate projection (names_of groups aggs) ≡ ok names
      → (names.output_names ≡ sort_columns projection groups aggs) × Splits n names
  unfolding post_project sort_columns names_of
  post_project-outputs none groups aggs s h = rw (← ok-injective h) (refl, s)
  post_project-outputs (some projection) groups aggs s h =
      let outputs = output_columns groups aggs in
      let (_, k₁) = throw_if-ok (not projection.has_one_child) _ _ h in
      let (same, k₂) = throw_if-ok (not (length projection.expressions == length outputs)) _ _ k₁ in
      project_names-outputs 0 projection.expressions (names_of groups aggs) [] outputs s refl refl
        (ground (arith, same)) k₂

get_elem-left :
    (xs ys : List Bytes) (i : ℕ) {x : Bytes}
    → get_elem? xs i ≡ some x
    → (ltb i (length xs) ≡ true) × (get_elem? (xs ++ ys) i ≡ some x)
get_elem-left [] ys i h = cc
get_elem-left (y ∷ xs) ys zero h = (ground arith, h)
get_elem-left (y ∷ xs) ys (suc i) h = let (lt, e) = get_elem-left xs ys i h in (ground arith, e)

get_elem-right :
    (xs ys : List Bytes) (i : ℕ) → get_elem? (xs ++ ys) (length xs + i) ≡ get_elem? ys i
get_elem-right [] ys i = let e : 0 + i ≡ i = omega arith in ap (get_elem? ys) e
get_elem-right (x ∷ xs) ys i =
    let e : suc (length xs) + i ≡ suc (length xs + i) = omega arith in
    ap (get_elem? (x ∷ xs ++ ys)) e ∙ get_elem-right xs ys i

refused :
    {A : Type 0} (failfast : Bool) {name : Bytes}
    → ◌≡◌ {A = Attempt Bytes} (err (refusal failfast)) (ok name)
    → A
refused failfast h = cc

found :
    (failfast : Bool) (xs : List Bytes) (i : ℕ) {name : Bytes}
    → or_refuse failfast (attempt (get_elem? xs i)) ≡ ok name
    → get_elem? xs i ≡ some name
found failfast [] i h = refused failfast h
found failfast (x ∷ xs) zero h = ap some (ok-injective h)
found failfast (x ∷ xs) (suc i) h = found failfast xs i h

-- A name, and the place where it stands among others.
abbrev StandsAt : Option ℕ → List Bytes → Bytes → Type 0
StandsAt place columns name = (i : ℕ) × (place ≡ some i) × (get_elem? columns i ≡ some name)

module _ (failfast : Bool) (aggregate : LogicalAggregate) where
  above-Stands :
      (projection : Option LogicalProjection) (names : List Bytes) (binding : ColumnBinding)
      {name : Bytes}
      → (if projects_to failfast aggregate projection binding.table_index
          then or_refuse failfast (attempt (get_elem? names binding.column_index))
          else err (refusal failfast))
        ≡ ok name
      → StandsAt (place_above projection binding) names name
  above-Stands none names binding h = refused failfast h
  above-Stands (some projection) names binding h =
      elim (Bool-cases (binding.table_index == projection.table_index)) [
        | inl t ↦
            rw t (binding.column_index, refl, found failfast names binding.column_index (rw t at h))
        | inr f ↦ refused failfast (rw f at h)
      ]

  order_name-Stands :
      (projection : Option LogicalProjection) (names : Names) (n : ℕ) (e : Expression)
      {name : Bytes}
      → Splits n names
      → order_name failfast aggregate projection names e ≡ ok name
      → StandsAt (sort_place aggregate projection n e) names.output_names name
  unfolding order_name sort_place
  order_name-Stands projection names n (Expression.reference info index) s h =
      (index, refl, found failfast names.output_names index h)
  order_name-Stands projection names n (Expression.column_ref info binding) (o, l) h =
      elim (Bool-cases (binding.table_index == aggregate.group_index)) [
        | inl t ↦
            let (lt, e) =
              get_elem-left names.group_names names.agg_names binding.column_index
                (found failfast names.group_names binding.column_index (rw t at h)) in
            rw (t, ← l, lt, o) (binding.column_index, refl, e)
        | inr f ↦ elim (Bool-cases (binding.table_index == aggregate.aggregate_index)) [
          | inl t ↦
              rw (f, t, ← l, o)
                (
                  length names.group_names + binding.column_index,
                  refl,
                  get_elem-right names.group_names names.agg_names binding.column_index
                      ∙ found failfast names.agg_names binding.column_index (rw (f, t) at h),
                )
          | inr f' ↦
              rw (f, f') (above-Stands projection names.output_names binding (rw (f, f') at h))
        ]
      ]
  order_name-Stands projection names n _ s h = refused failfast h

  order_entries-Stand :
      (projection : Option LogicalProjection) (groups : List GroupIr) (aggs : List AggIr)
      (names : Names) (nodes : List OrderNode) {entries : List (Bytes × Bool × Bool)}
      → names.output_names ≡ sort_columns projection groups aggs
      → Splits (length groups) names
      → order_entries failfast aggregate projection names nodes ≡ ok entries
      → each (order_meaning aggregate projection groups aggs) nodes ≡ ok (map order_of entries)
  unfolding order_entries each order_meaning
  order_entries-Stand projection groups aggs names [] o s h = rw (← ok-injective h) refl
  order_entries-Stand projection groups aggs names (node ∷ nodes) o s h =
      let (info, _, k₁) = or_refuse-ok failfast (attempt (info_of node.expression)) _ h in
      let (_, k₂) = throw_if-ok (not (is_movable info)) _ _ k₁ in
      let (name, e₃, k₃) =
        >>=-eq-ok (order_name failfast aggregate projection names node.expression) _ k₂ in
      let (more, e₄, k₄) =
        >>=-eq-ok (order_entries failfast aggregate projection names nodes) _ k₃ in
      let (i, placed, e₅) =
        order_name-Stands projection names (length groups) node.expression s e₃ in
      rw
        (
          ← ok-injective k₄,
          placed,
          ← o,
          e₅,
          order_entries-Stand projection groups aggs names nodes o s e₄,
        )
        refl

length-group_names :
    (groups : List GroupIr) → length (map (λ (g : GroupIr). g.output_name) groups) ≡ length groups
length-group_names [] = refl
length-group_names (g ∷ gs) = ap suc (length-group_names gs)

-- The order of a message is what its nodes stand for.
pub order-Stands :
    (failfast : Bool) (aggregate : LogicalAggregate) (projection : Option LogicalProjection)
    (groups : List GroupIr) (aggs : List AggIr) (nodes : List OrderNode) {names : Names}
    {entries : List (Bytes × Bool × Bool)}
    → post_project failfast aggregate projection (names_of groups aggs) ≡ ok names
    → order_entries failfast aggregate projection names nodes ≡ ok entries
    → each (order_meaning aggregate projection groups aggs) nodes ≡ ok (map order_of entries)
unfolding names_of
order-Stands failfast aggregate projection groups aggs nodes {names} h k =
    let (o, s) =
      post_project-outputs failfast aggregate (length groups) projection groups aggs
        (refl, length-group_names groups) h in
    order_entries-Stand failfast aggregate projection groups aggs names nodes o s k
