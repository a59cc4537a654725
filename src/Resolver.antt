-- ===== src/Resolver.antt =====
-- src/lance_resolver.cpp and src/include/lance_resolver.hpp: the resolvers that turn a table name into
-- the URI of a dataset, their registry, and the resolution of an input under a policy. Each operation
-- of the registry holds its lock and is one step on the list of resolvers. A message is what it is
-- made from. std::sort is a parameter, since the order in which it leaves resolvers of equal priority
-- is not specified.
pub mod Registry
pub mod Resolution
use lance_duckdb.Common.{
  ℕ, ◌≤◌, ◌+◌, ◌≡◌, Bytes, Bool, true, false, List, [], ◌∷◌, Option, none, some, bytes_eq, map, All,
  if◌then◌else◌, Result, ok, err,
}
use lance_duckdb.Common.Int.{ℤ, pos, negsuc}

pub data ResolvePolicy : Type 0 where
  strict fallback_to_path : ResolvePolicy

-- The error messages of resolvers; those of the resolvers of others are `text`.
pub data Message : Type 0 where
  nothing : Message
  not_a_lance_table : (input : Bytes) → Message
  not_in_catalog : (input what : Bytes) → Message
  failed_to_resolve : (input what : Bytes) → Message
  text : ℕ → Bytes → Message

-- LanceResolveResult.
pub record ResolveResult : Type 0 where
  pub success : Bool
  pub dataset_uri : Bytes
  pub error_message : Message

unfoldable pub success_with : Bytes → ResolveResult
success_with uri = record { success = true; dataset_uri = uri; error_message = nothing }

unfoldable pub failure_with : Message → ResolveResult
failure_with message = record { success = false; dataset_uri = []; error_message = message }

-- ILanceDatasetResolver, in one client context.
pub record Resolver : Type 0 where
  pub name : Bytes
  pub priority : ℤ
  pub try_resolve : Bytes → ResolveResult

-- What the catalog has under a name: a Lance table, another one, or an exception, of the catalog or
-- of another class, with its text.
pub data CatalogAnswer : Type 0 where
  lance_table : (dataset_uri : Bytes) → CatalogAnswer
  other_table : CatalogAnswer
  catalog_exception : Bytes → CatalogAnswer
  other_exception : Bytes → CatalogAnswer

-- DefaultCatalogResolver::TryResolve.
unfoldable pub default_try_resolve : Bytes → CatalogAnswer → ResolveResult
unfolding success_with failure_with
default_try_resolve input (lance_table uri) = success_with uri
default_try_resolve input other_table = failure_with (not_a_lance_table input)
default_try_resolve input (catalog_exception what) = failure_with (not_in_catalog input what)
default_try_resolve input (other_exception what) = failure_with (failed_to_resolve input what)

abbrev pub default_name : Bytes
default_name =
    b'd' ∷ b'e' ∷ b'f' ∷ b'a' ∷ b'u' ∷ b'l' ∷ b't' ∷ b'_' ∷ b'c' ∷ b'a' ∷ b't' ∷ b'a' ∷ b'l' ∷ b'o'
    ∷ b'g' ∷ []

unfoldable pub default_catalog_resolver : (Bytes → CatalogAnswer) → Resolver
unfolding default_try_resolve
default_catalog_resolver catalog = record {
  name = default_name;
  priority = pos 0;
  try_resolve = λ input. default_try_resolve input (catalog input);
}

-- The registry when it is made.
unfoldable pub initial_registry : (Bytes → CatalogAnswer) → List Resolver
unfolding default_catalog_resolver
initial_registry catalog = default_catalog_resolver catalog ∷ []

-- The first resolver of the same name is replaced; if there is none, the new one comes last.
unfoldable pub replace_or_append : Resolver → List Resolver → List Resolver
replace_or_append r [] = r ∷ []
replace_or_append r (x ∷ xs) =
    let rest = replace_or_append r xs in if bytes_eq x.name r.name then r ∷ xs else x ∷ rest

-- RegisterResolver, of a resolver or a null pointer.
unfoldable pub register_resolver :
    (List Resolver → List Resolver) → List Resolver → Option Resolver → List Resolver
unfolding replace_or_append
register_resolver sort registry none = registry
register_resolver sort registry (some r) = sort (replace_or_append r registry)

unfoldable pub without : Bytes → List Resolver → List Resolver
without name [] = []
without name (x ∷ xs) =
    let rest = without name xs in if bytes_eq x.name name then rest else x ∷ rest

-- Whether std::remove_if found one to remove.
unfoldable pub is_registered : Bytes → List Resolver → Bool
is_registered name [] = false
is_registered name (x ∷ xs) =
    let rest = is_registered name xs in if bytes_eq x.name name then true else rest

-- UnregisterResolver.
unfoldable pub unregister_resolver : List Resolver → Bytes → Bool × List Resolver
unfolding without is_registered
unregister_resolver registry name = (is_registered name registry, without name registry)

unfoldable pub resolver_names : List Resolver → List Bytes
resolver_names registry = map (λ (r : Resolver). r.name) registry

-- What Resolve throws: InvalidInputException for the first two, BinderException for the others.
pub data ResolveError : Type 0 where
  null_input empty_input redacted : ResolveError
  could_not_resolve : (input : Bytes) → ResolveError
  last_error : Message → ResolveError

-- The last error message that is not empty.
unfoldable pub latest : Message → Message → Message
latest nothing last = last
latest m last = m

-- The loop over the resolvers: the URI of the first success, or the last message that is not empty.
unfoldable pub try_each : List Resolver → Bytes → Message → Result Message Bytes
unfolding latest
try_each [] input last = err last
try_each (r ∷ rs) input last =
    let result = r.try_resolve input in
    let further = try_each rs input (latest result.error_message last) in
    if result.success then ok result.dataset_uri else further

unfoldable pub rejection : Bytes → Message → ResolveError
rejection input nothing = could_not_resolve input
rejection input m = last_error m

-- All resolvers have failed. `redacts` is LanceVanePathRequiresRedaction.
unfoldable pub all_failed :
    (Bytes → Bool) → ResolvePolicy → Bytes → Message → Result ResolveError Bytes
unfolding rejection
all_failed redacts fallback_to_path input last = ok input
all_failed redacts strict input last =
    if redacts input then err redacted else err (rejection input last)

unfoldable pub or_failed :
    (Bytes → Bool) → ResolvePolicy → Bytes → Result Message Bytes → Result ResolveError Bytes
unfolding all_failed
or_failed redacts policy input (ok uri) = ok uri
or_failed redacts policy input (err last) = all_failed redacts policy input last

-- Resolve, of a string or NULL.
unfoldable pub resolve :
    (Bytes → Bool) → List Resolver → Option Bytes → ResolvePolicy → Result ResolveError Bytes
unfolding try_each or_failed
resolve redacts registry none policy = err null_input
resolve redacts registry (some []) policy = err empty_input
resolve redacts registry (some (c ∷ s)) policy =
    or_failed redacts policy (c ∷ s) (try_each registry (c ∷ s) nothing)

-- The order of priorities, and a list with the higher ones first.
abbrev pub IsAtMost : ℤ → ℤ → Type 0
IsAtMost (pos a) (pos b) = a ≤ b
IsAtMost (pos a) (negsuc b) = ⊥
IsAtMost (negsuc a) (pos b) = Unit
IsAtMost (negsuc a) (negsuc b) = b ≤ a

unfoldable pub IsSorted : List Resolver → Type 0
IsSorted [] = Unit
IsSorted (x ∷ xs) = All (λ (y : Resolver). IsAtMost y.priority x.priority) xs × IsSorted xs

unfoldable pub count : (Resolver → Bool) → List Resolver → ℕ
count p [] = 0
count p (x ∷ xs) = let rest = count p xs in if p x then 1 + rest else rest

-- What std::sort does with the comparison of SortResolvers: its result is sorted, and of what any test
-- finds in the list it holds as many as before.
pub record IsSort (sort : List Resolver → List Resolver) : Type 0 where
  pub sorted : (xs : List Resolver) → IsSorted (sort xs)
  pub permutes : (p : Resolver → Bool) (xs : List Resolver) → count p (sort xs) ≡ count p xs
