-- ===== src/Tests/Resolver.antt =====
-- A registry with a resolver of high priority beside the default one, sorted by insertion.
use lance_duckdb.Common.{
  ℕ, ◌+◌, ◌≡◌, refl, ap, ◌∙◌, Bytes, Bool, true, false, List, [], ◌∷◌, some, All, leb,
  if◌then◌else◌, ok, err, Bool-cases, inl, inr, arith,
}
use lance_duckdb.Common.Int.{ℤ, pos, negsuc}
use lance_duckdb.Resolver.{
  strict, fallback_to_path, other_table, success_with, failure_with, default_try_resolve,
  CatalogAnswer, Resolver, default_catalog_resolver, initial_registry, register_resolver,
  ResolveError, resolve, IsAtMost, IsSorted, count, IsSort,
}
use lance_duckdb.Resolver.Registry.{HasUniqueNames, Reached, Reached-IsSorted}
use lance_duckdb.Resolver.Resolution.{Answerer, resolve-Answerer, resolve-NoneAnswers}

unfoldable at_most : ℤ → ℤ → Bool
at_most (pos a) (pos b) = leb a b
at_most (pos a) (negsuc b) = false
at_most (negsuc a) (pos b) = true
at_most (negsuc a) (negsuc b) = leb b a

at_most-IsAtMost : (a b : ℤ) → at_most a b ≡ true → IsAtMost a b
unfolding at_most
at_most-IsAtMost (pos a) (pos b) h = ground arith
at_most-IsAtMost (pos a) (negsuc b) h = cc
at_most-IsAtMost (negsuc a) (pos b) h = tt
at_most-IsAtMost (negsuc a) (negsuc b) h = ground arith

above-IsAtMost : (a b : ℤ) → at_most a b ≡ false → IsAtMost b a
unfolding at_most
above-IsAtMost (pos a) (pos b) h = ground arith
above-IsAtMost (pos a) (negsuc b) h = tt
above-IsAtMost (negsuc a) (pos b) h = cc
above-IsAtMost (negsuc a) (negsuc b) h = ground arith

IsAtMost-trans : (a b c : ℤ) → IsAtMost a b → IsAtMost b c → IsAtMost a c
IsAtMost-trans (pos a) (pos b) (pos c) h k = omega arith
IsAtMost-trans (pos a) (pos b) (negsuc c) h k = absurd k
IsAtMost-trans (pos a) (negsuc b) c h k = absurd h
IsAtMost-trans (negsuc a) b (pos c) h k = tt
IsAtMost-trans (negsuc a) (pos b) (negsuc c) h k = absurd k
IsAtMost-trans (negsuc a) (negsuc b) (negsuc c) h k = omega arith

unfoldable insert : Resolver → List Resolver → List Resolver
insert r [] = r ∷ []
insert r (x ∷ xs) =
    let rest = insert r xs in if at_most x.priority r.priority then r ∷ x ∷ xs else x ∷ rest

unfoldable sort : List Resolver → List Resolver
sort [] = []
sort (x ∷ xs) = insert x (sort xs)

All-weaker :
    (a b : ℤ) (xs : List Resolver)
    → IsAtMost a b
    → All (λ (y : Resolver). IsAtMost y.priority a) xs
    → All (λ (y : Resolver). IsAtMost y.priority b) xs
All-weaker a b [] h all = tt
All-weaker a b (x ∷ xs) h (top, all) =
    (IsAtMost-trans x.priority a b top h, All-weaker a b xs h all)

insert-All :
    (P : Resolver → Type 0) (r : Resolver) (xs : List Resolver)
    → P r
    → All P xs
    → All P (insert r xs)
unfolding insert
insert-All P r [] h all = (h, tt)
insert-All P r (x ∷ xs) h (here, all) = elim (Bool-cases (at_most x.priority r.priority)) [
  | inl e ↦ rw e (h, (here, all))
  | inr e ↦ rw e (here, insert-All P r xs h all)
]

insert-IsSorted : (r : Resolver) (xs : List Resolver) → IsSorted xs → IsSorted (insert r xs)
unfolding insert IsSorted
insert-IsSorted r [] h = (tt, tt)
insert-IsSorted r (x ∷ xs) (top, sorted) = elim (Bool-cases (at_most x.priority r.priority)) [
  | inl e ↦
      let below = at_most-IsAtMost x.priority r.priority e in
      rw e ((below, All-weaker x.priority r.priority xs below top), (top, sorted))
  | inr e ↦
      rw e (
        insert-All _ r xs (above-IsAtMost x.priority r.priority e) top,
        insert-IsSorted r xs sorted,
      )
]

sort-IsSorted : (xs : List Resolver) → IsSorted (sort xs)
unfolding sort IsSorted
sort-IsSorted [] = tt
sort-IsSorted (x ∷ xs) = insert-IsSorted x (sort xs) (sort-IsSorted xs)

count-insert :
    (p : Resolver → Bool) (r : Resolver) (xs : List Resolver)
    → count p (insert r xs) ≡ count p (r ∷ xs)
unfolding insert count
count-insert p r [] = refl
count-insert p r (x ∷ xs) = elim (Bool-cases (at_most x.priority r.priority)) [
  | inl e ↦ rw e
  | inr e ↦ rw e (swapped (p x) (p r) (count p (insert r xs)) (count p xs) (count-insert p r xs))
]
  where
    swapped :
        (a b : Bool) (m n : ℕ)
        → m ≡ (if b then 1 + n else n)
        → (if a then 1 + m else m)
          ≡ (if b then 1 + (if a then 1 + n else n) else (if a then 1 + n else n))
    swapped true true m n h = omega (arith, h)
    swapped true false m n h = omega (arith, h)
    swapped false true m n h = h
    swapped false false m n h = h

count-sort : (p : Resolver → Bool) (xs : List Resolver) → count p (sort xs) ≡ count p xs
unfolding sort count
count-sort p [] = refl
count-sort p (x ∷ xs) =
    count-insert p x (sort xs) ∙ ap (λ (n : ℕ). if p x then 1 + n else n) (count-sort p xs)

sort_laws : IsSort sort
sort_laws = record { sorted = sort-IsSorted; permutes = count-sort }

abbrev catalog : Bytes → CatalogAnswer
catalog input = other_table

-- It answers everything.
abbrev eager : Resolver
eager = record {
  name = b'e' ∷ [];
  priority = pos 5;
  try_resolve = λ input. success_with (b'u' ∷ []);
}

Reached-IsSorted_example :
    IsSorted (register_resolver sort (initial_registry catalog) (some eager))
    × HasUniqueNames (register_resolver sort (initial_registry catalog) (some eager))
Reached-IsSorted_example =
    Reached-IsSorted sort catalog sort_laws (Reached.registered (some eager) Reached.initial)

abbrev registry : List Resolver
registry = eager ∷ default_catalog_resolver catalog ∷ []

registry-IsSorted : IsSorted registry
unfolding IsSorted default_catalog_resolver
registry-IsSorted = ((omega arith, tt), (tt, tt))

resolve-Answerer_example :
    (uri : Bytes) × (resolve (λ s. false) registry (some (b't' ∷ [])) strict ≡ ok uri)
    × Answerer registry (b't' ∷ []) (pos 5) uri
unfolding success_with
resolve-Answerer_example =
    resolve-Answerer (λ s. false) registry b't' [] strict 0 eager registry-IsSorted refl refl

resolve-NoneAnswers_example :
    (resolve (λ s. false) (initial_registry catalog) (some (b't' ∷ [])) fallback_to_path
      ≡ ok (b't' ∷ []))
    × ((x : ResolveError) × (resolve
            (λ s. false)
            (initial_registry catalog)
            (some (b't' ∷ []))
            strict
          ≡ err x))
unfolding initial_registry default_catalog_resolver default_try_resolve failure_with
resolve-NoneAnswers_example =
    resolve-NoneAnswers (λ s. false) (initial_registry catalog) b't' [] (refl, tt)
