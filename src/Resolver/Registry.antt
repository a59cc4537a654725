-- ===== src/Resolver/Registry.antt =====
-- The registry: its resolvers are sorted by priority and have different names.
use lance_duckdb.Common.{
  ℕ, ◌+◌, ◌≤◌, ◌≡◌, ap, Bytes, Bool, false, List, [], ◌∷◌, Option, none, some, bytes_eq,
  bytes_eq_refl, bytes_eq_eq, All, subst, Bool-cases, inl, inr, arith,
}
use lance_duckdb.Resolver.{
  CatalogAnswer, Resolver, default_catalog_resolver, initial_registry, replace_or_append,
  register_resolver, without, unregister_resolver, IsSorted, IsSort, count,
}

abbrev pub named : Bytes → Resolver → Bool
named name r = bytes_eq r.name name

-- No name is there twice.
abbrev pub HasUniqueNames : List Resolver → Type 0
HasUniqueNames registry = (name : Bytes) → count (named name) registry ≤ 1

-- A resolver of another name counts as before.
count_other :
    (name : Bytes) (r : Resolver) (xs : List Resolver)
    → bytes_eq r.name name ≡ false
    → count (named name) (replace_or_append r xs) ≡ count (named name) xs
unfolding count replace_or_append
count_other name r [] other = rw other
count_other name r (x ∷ xs) other = elim (Bool-cases (bytes_eq x.name r.name)) [
  | inl same ↦
      let also : bytes_eq x.name name ≡ false = rw (bytes_eq_eq x.name r.name same) other in
      rw (same, other, also)
  | inr differs ↦ elim (Bool-cases (bytes_eq x.name name)) [
    | inl e ↦ rw (differs, e) (ap (λ (n : ℕ). 1 + n) (count_other name r xs other))
    | inr e ↦ rw (differs, e) (count_other name r xs other)
  ]
]

-- One of its own name is there once then, if there was no more than one.
count_own :
    (r : Resolver) (xs : List Resolver)
    → count (named r.name) xs ≤ 1
    → count (named r.name) (replace_or_append r xs) ≡ 1
unfolding count replace_or_append
count_own r [] h = rw (bytes_eq_refl r.name)
count_own r (x ∷ xs) h = elim (Bool-cases (bytes_eq x.name r.name)) [
  | inl same ↦
      let none_left : 1 + count (named r.name) xs ≤ 1 = rw same at h in
      rw (same, bytes_eq_refl r.name) (omega arith)
  | inr differs ↦ rw (differs, differs) (count_own r xs (rw differs at h))
]

replace-HasUniqueNames :
    (r : Resolver) (xs : List Resolver)
    → HasUniqueNames xs
    → HasUniqueNames (replace_or_append r xs)
replace-HasUniqueNames r xs h name = elim (Bool-cases (bytes_eq r.name name)) [
  | inl same ↦
      let once = count_own r xs (h r.name) in
      subst (λ (n : Bytes). count (named n) (replace_or_append r xs) ≤ 1)
        (bytes_eq_eq r.name name same) (omega (arith, once))
  | inr other ↦ omega (arith, count_other name r xs other, h name)
]

count-without :
    (p : Resolver → Bool) (name : Bytes) (xs : List Resolver)
    → count p (without name xs) ≤ count p xs
unfolding count without
count-without p name [] = omega arith
count-without p name (x ∷ xs) =
    let rest = count-without p name xs in
    elim (Bool-cases (bytes_eq x.name name)) [
      | inl e ↦ elim (Bool-cases (p x)) [ inl q ↦ rw (e, q) (omega arith) | inr q ↦ rw (e, q) rest ]
      | inr e ↦ elim (Bool-cases (p x)) [ inl q ↦ rw (e, q) (omega arith) | inr q ↦ rw (e, q) rest ]
    ]

All-without :
    (P : Resolver → Type 0) (name : Bytes) (xs : List Resolver) → All P xs → All P (without name xs)
unfolding without
All-without P name [] h = tt
All-without P name (x ∷ xs) (here, rest) = elim (Bool-cases (bytes_eq x.name name)) [
  | inl e ↦ rw e (All-without P name xs rest)
  | inr e ↦ rw e (here, All-without P name xs rest)
]

without-IsSorted : (name : Bytes) (xs : List Resolver) → IsSorted xs → IsSorted (without name xs)
unfolding without IsSorted
without-IsSorted name [] h = tt
without-IsSorted name (x ∷ xs) (top, rest) = elim (Bool-cases (bytes_eq x.name name)) [
  | inl e ↦ rw e (without-IsSorted name xs rest)
  | inr e ↦ rw e (All-without _ name xs top, without-IsSorted name xs rest)
]

-- The states of the registry.
pub data Reached (sort : List Resolver → List Resolver) (catalog : Bytes → CatalogAnswer)
    : List Resolver → Type 0 where
  initial : Reached sort catalog (initial_registry catalog)
  registered :
      {registry : List Resolver} (r : Option Resolver)
      → Reached sort catalog registry
      → Reached sort catalog (register_resolver sort registry r)
  unregistered :
      {registry : List Resolver} (name : Bytes)
      → Reached sort catalog registry
      → Reached sort catalog (unregister_resolver registry name).1

-- However resolvers are registered and unregistered, the registry is sorted by priority, with the
-- higher ones first, and no two of its resolvers have one name.
pub Reached-IsSorted :
    (sort : List Resolver → List Resolver) (catalog : Bytes → CatalogAnswer)
    {registry : List Resolver}
    → IsSort sort
    → Reached sort catalog registry
    → IsSorted registry × HasUniqueNames registry
unfolding initial_registry IsSorted count register_resolver unregister_resolver
Reached-IsSorted sort catalog law Reached.initial = ((tt, tt), one)
  where
    one : HasUniqueNames (initial_registry catalog)
    one name = elim (Bool-cases (bytes_eq (default_catalog_resolver catalog).name name)) [
      | inl e ↦ rw e (omega arith)
      | inr e ↦ rw e (omega arith)
    ]
Reached-IsSorted sort catalog law (Reached.registered none reached) =
    Reached-IsSorted sort catalog law reached
Reached-IsSorted sort catalog law (Reached.registered {registry} (some r) reached) =
    let (_, unique) = Reached-IsSorted sort catalog law reached in
    (
      law.sorted (replace_or_append r registry),
      λ name.
          rw (law.permutes (named name) (replace_or_append r registry))
            (replace-HasUniqueNames r registry unique name),
    )
Reached-IsSorted sort catalog law (Reached.unregistered {registry} name reached) =
    let (ordered, unique) = Reached-IsSorted sort catalog law reached in
    (
      without-IsSorted name registry ordered,
      λ other. omega (arith, count-without (named other) name registry, unique other),
    )
