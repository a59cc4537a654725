-- ===== src/Exec/RoundTrip/Order.antt =====
-- The names of the order are those of columns, in UTF-8.
use lance_duckdb.Common.{
  ℕ, zero, suc, ◌+◌, ◌-◌, ◌≡◌, refl, Bytes, Bool, Bool-cases, List, [], ◌∷◌, ◌++◌, map, Option,
  none, some, length, get_elem?, ltb, leb, ◌==◌, not, inl, inr, subst, All, ok, err, throw_if-ok,
  >>=-eq-ok, ok-injective,
}
use mathlib.Core.List.{Forall₂}
use lance_duckdb.ExprIr.Nodes.{is_empty}
use lance_duckdb.ExprIr.RoundTrip.Columns.{IsUtf8}
use lance_duckdb.Exec.Types.{Attempt, attempt, refusal, Expression, GroupIr, AggIr}
use lance_duckdb.Exec.Expr.{info_of}
use lance_duckdb.Exec.Aggregates.{or_refuse, EncodedGroup, EncodedAgg}
use lance_duckdb.Exec.Message.{
  LogicalAggregate, LogicalProjection, OrderNode, Names, initial_names, set_name, rename,
  is_movable, strip_casts, output_index, is_position, project_names, post_project, projects_to,
  order_name, order_entries,
}
use lance_duckdb.Exec.Plan.{names_of, IsNamed, IsRenaming}
use lance_duckdb.Exec.RoundTrip.Arguments.{or_refuse-ok, info_name}
use lance_duckdb.Exec.RoundTrip.Items.{IsGroup, IsAgg}

abbrev pub AreUtf8 : Names → Type 0
AreUtf8 names =
    All IsUtf8 names.output_names × All IsUtf8 names.group_names × All IsUtf8 names.agg_names

set_name-All :
    (xs : List Bytes) (i : ℕ) (name : Bytes)
    → All IsUtf8 xs
    → IsUtf8 name
    → All IsUtf8 (set_name xs i name)
unfolding set_name
set_name-All [] i name a u = tt
set_name-All (x ∷ xs) zero name a u = (u, a.1)
set_name-All (x ∷ xs) (suc i) name a u = (a.0, set_name-All xs i name a.1 u)

rename-AreUtf8 :
    (i : ℕ) (name : Bytes) (names : Names)
    → AreUtf8 names
    → IsUtf8 name
    → AreUtf8 (rename i name names)
unfolding rename
rename-AreUtf8 i name names (o, g, a) u = elim (Bool-cases (ltb i (length names.group_names))) [
  | inl t ↦
      rw t
        (set_name-All names.output_names i name o u, set_name-All names.group_names i name g u, a)
  | inr f ↦ rw f (
    set_name-All names.output_names i name o u,
    g,
    set_name-All names.agg_names (i - length names.group_names) name a u,
  )
]

All-append : (xs ys : List Bytes) → All IsUtf8 xs → All IsUtf8 ys → All IsUtf8 (xs ++ ys)
All-append [] ys a b = b
All-append (x ∷ xs) ys a b = (a.0, All-append xs ys a.1 b)

module _ (names : List Bytes) where
  groups_names :
      (gs : List EncodedGroup) (xs : List GroupIr)
      → Forall₂ (IsGroup names) gs xs
      → (map (λ (g : EncodedGroup). g.output_name) gs ≡ map (λ (g : GroupIr). g.output_name) xs)
        × All IsUtf8 (map (λ (g : GroupIr). g.output_name) xs)
  groups_names [] [] i = (refl, tt)
  groups_names [] (x ∷ xs) i = elim i [ ]
  groups_names (g ∷ gs) [] i = elim i [ ]
  groups_names (g ∷ gs) (x ∷ xs) (Forall₂.cons i is) =
      let (e, u) = groups_names gs xs is in (rw (i.same_name, e) refl, (i.utf8_name, u))

  aggs_names :
      (es : List EncodedAgg) (xs : List AggIr)
      → Forall₂ (IsAgg names) es xs
      → (map (λ (g : EncodedAgg). g.output_name) es ≡ map (λ (g : AggIr). g.output_name) xs)
        × All IsUtf8 (map (λ (g : AggIr). g.output_name) xs)
  aggs_names [] [] i = (refl, tt)
  aggs_names [] (x ∷ xs) i = elim i [ ]
  aggs_names (g ∷ gs) [] i = elim i [ ]
  aggs_names (g ∷ gs) (x ∷ xs) (Forall₂.cons i is) =
      let (e, u) = aggs_names gs xs is in (rw (i.same_name, e) refl, (i.utf8_name, u))

  pub initial_names-names_of :
      (gs : List EncodedGroup) (xs : List GroupIr) (es : List EncodedAgg) (ys : List AggIr)
      → Forall₂ (IsGroup names) gs xs
      → Forall₂ (IsAgg names) es ys
      → (initial_names gs es ≡ names_of xs ys) × AreUtf8 (names_of xs ys)
  unfolding initial_names names_of
  initial_names-names_of gs xs es ys i j =
      let (e, u) = groups_names gs xs i in
      let (f, v) = aggs_names es ys j in
      (
        rw (e, f) refl,
        (
          All-append (map (λ (g : GroupIr). g.output_name) xs)
              (map (λ (g : AggIr). g.output_name) ys) u v,
          u,
          v,
        ),
      )

refused :
    (failfast : Bool) {name : Bytes}
    → ◌≡◌ {A = Attempt Bytes} (err (refusal failfast)) (ok name)
    → ⊥
refused failfast h = cc

module _ (failfast : Bool) (aggregate : LogicalAggregate) where
  project_names-AreUtf8 :
      (i : ℕ) (es : List Expression) (names names' : Names)
      → All (λ e. IsNamed (info_of e)) es
      → AreUtf8 names
      → project_names failfast aggregate i es names ≡ ok names'
      → AreUtf8 names'
  unfolding project_names
  project_names-AreUtf8 i [] names names' n u h = rw (← ok-injective h) u
  project_names-AreUtf8 i (e ∷ es) names names' n u h =
      let (info, e₁, k₁) = or_refuse-ok failfast (attempt (info_of e)) _ h in
      let (_, k₂) = throw_if-ok (not (is_movable info)) _ _ k₁ in
      let (base, _, k₃) = >>=-eq-ok (strip_casts failfast aggregate e) _ k₂ in
      let (_, k₄) =
        throw_if-ok
          (not (
            is_position failfast aggregate i
              (output_index failfast aggregate (length names.group_names) base)))
          _ _ k₃ in
      let (_, k₅) = throw_if-ok (leb (length names.output_names) i) _ _ k₄ in
      let (_, k₆) = throw_if-ok (is_empty info.name) _ _ k₅ in
      project_names-AreUtf8 (i + 1) es (rename i info.name names) names' n.1
        (rename-AreUtf8 i info.name names u (info_name e n.0 e₁)) k₆

  pub post_project-AreUtf8 :
      (projection : Option LogicalProjection) (names names' : Names)
      → IsRenaming projection
      → AreUtf8 names
      → post_project failfast aggregate projection names ≡ ok names'
      → AreUtf8 names'
  unfolding post_project
  post_project-AreUtf8 none names names' n u h = rw (← ok-injective h) u
  post_project-AreUtf8 (some projection) names names' n u h =
      let (_, k₁) = throw_if-ok (not projection.has_one_child) _ _ h in
      let (_, k₂) =
        throw_if-ok (not (length projection.expressions == length names.output_names)) _ _ k₁ in
      project_names-AreUtf8 0 projection.expressions names names' n u k₂

  found :
      (xs : List Bytes) (i : ℕ) {name : Bytes}
      → All IsUtf8 xs
      → or_refuse failfast (attempt (get_elem? xs i)) ≡ ok name
      → IsUtf8 name
  found [] i a h = absurd (refused failfast h)
  found (x ∷ xs) zero a h = rw (← ok-injective h) a.0
  found (x ∷ xs) (suc i) a h = found xs i a.1 h

  order_name-IsUtf8 :
      (projection : Option LogicalProjection) (names : Names) (e : Expression) {name : Bytes}
      → AreUtf8 names
      → order_name failfast aggregate projection names e ≡ ok name
      → IsUtf8 name
  unfolding order_name
  order_name-IsUtf8 projection names (Expression.reference info index) u h =
      found names.output_names index u.0 h
  order_name-IsUtf8 projection names (Expression.column_ref info binding) u h =
      elim (Bool-cases (binding.table_index == aggregate.group_index)) [
        | inl t ↦ found names.group_names binding.column_index u.1 (rw t at h)
        | inr f ↦ elim (Bool-cases (binding.table_index == aggregate.aggregate_index)) [
          | inl t ↦ found names.agg_names binding.column_index u.2 (rw (f, t) at h)
          | inr f' ↦
              elim (Bool-cases (projects_to failfast aggregate projection binding.table_index)) [
                | inl t ↦ found names.output_names binding.column_index u.0 (rw (f, f', t) at h)
                | inr f'' ↦ absurd (refused failfast (rw (f, f', f'') at h))
              ]
        ]
      ]
  order_name-IsUtf8 projection names _ u h = absurd (refused failfast h)

  pub order_entries-IsUtf8 :
      (projection : Option LogicalProjection) (names : Names) (nodes : List OrderNode)
      (entries : List (Bytes × Bool × Bool))
      → AreUtf8 names
      → order_entries failfast aggregate projection names nodes ≡ ok entries
      → All (λ entry. IsUtf8 entry.0) entries
  unfolding order_entries
  order_entries-IsUtf8 projection names [] entries u h = rw (← ok-injective h) tt
  order_entries-IsUtf8 projection names (node ∷ nodes) entries u h =
      let (info, _, k₁) = or_refuse-ok failfast (attempt (info_of node.expression)) _ h in
      let (_, k₂) = throw_if-ok (not (is_movable info)) _ _ k₁ in
      let (name, e₃, k₃) =
        >>=-eq-ok (order_name failfast aggregate projection names node.expression) _ k₂ in
      let (more, e₄, k₄) =
        >>=-eq-ok (order_entries failfast aggregate projection names nodes) _ k₃ in
      subst (All (λ entry. IsUtf8 entry.0)) (ok-injective k₄) (
        order_name-IsUtf8 projection names node.expression u e₃,
        order_entries-IsUtf8 projection names nodes more u e₄,
      )
