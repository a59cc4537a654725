-- ===== src/Resolver/Resolution.antt =====
-- The resolution of an input: the resolver that answers is the one of the highest priority among those
-- that can.
use lance_duckdb.Common.{
  ℕ, zero, suc, ◌≡◌, refl, sym, ap, ◌∙◌, Bytes, Bool, true, false, List, [], ◌∷◌, some, All,
  get_elem?, ok, err, Bool-cases, inl, inr, arith, subst,
}
use mathlib.Core.Option.{some-injective}
use lance_duckdb.Common.Int.{ℤ, pos, negsuc}
use lance_duckdb.Resolver.{
  ResolvePolicy, strict, fallback_to_path, Message, nothing, Resolver, ResolveError, redacted,
  rejection, latest, try_each, all_failed, or_failed, resolve, IsAtMost, IsSorted,
}

IsAtMost-refl : (a : ℤ) → IsAtMost a a
IsAtMost-refl (pos n) = omega arith
IsAtMost-refl (negsuc n) = omega arith

All-nth {ℓ} :
    {A : Type ℓ} (P : A → Type 0) (xs : List A) (i : ℕ) {x : A}
    → All P xs
    → get_elem? xs i ≡ some x
    → P x
All-nth P [] i h e = cc
All-nth P (x ∷ xs) zero h e = subst P (some-injective _ _ e) h.0
All-nth P (x ∷ xs) (suc i) h e = All-nth P xs i h.1 e

-- A resolver that answers an input, in a list, with at least a given priority.
abbrev pub Answerer : List Resolver → Bytes → ℤ → Bytes → Type 0
Answerer rs input priority uri =
    (i : ℕ) × (r : Resolver) × (get_elem? rs i ≡ some r)
    × ((r.try_resolve input).success ≡ true)
    × ((r.try_resolve input).dataset_uri ≡ uri)
    × IsAtMost priority r.priority

try_each-answers :
    (rs : List Resolver) (input : Bytes) (last : Message) (i : ℕ) (r : Resolver)
    → IsSorted rs
    → get_elem? rs i ≡ some r
    → (r.try_resolve input).success ≡ true
    → (uri : Bytes) × (try_each rs input last ≡ ok uri) × Answerer rs input r.priority uri
unfolding try_each IsSorted
try_each-answers [] input last i r sorted e success = cc
try_each-answers (x ∷ xs) input last zero r sorted e success =
    let same = sym (some-injective _ _ e) in
    let here : (x.try_resolve input).success ≡ true =
      subst (λ (y : Resolver). (y.try_resolve input).success ≡ true) same success in
    let level : IsAtMost r.priority x.priority =
      subst (λ (y : Resolver). IsAtMost r.priority y.priority) same (IsAtMost-refl r.priority) in
    ((x.try_resolve input).dataset_uri, rw here, (zero, x, refl, here, refl, level))
try_each-answers (x ∷ xs) input last (suc i) r (top, sorted) e success =
    let lower = All-nth (λ (y : Resolver). IsAtMost y.priority x.priority) xs i top e in
    elim (Bool-cases (x.try_resolve input).success) [
      | inl here ↦ ((x.try_resolve input).dataset_uri, rw here, (zero, x, refl, here, refl, lower))
      | inr fails ↦
          let (uri, e', (j, y, there, s, u, m)) =
            try_each-answers xs input (latest (x.try_resolve input).error_message last) i r sorted e
              success in
          (uri, rw fails e', (suc j, y, there, s, u, m))
    ]

-- If some resolver of a sorted registry answers an input that is neither NULL nor empty, then the
-- resolution answers, under every policy, the URI of a resolver that does so too and whose priority is
-- at least as high.
pub resolve-Answerer :
    (redacts : Bytes → Bool) (registry : List Resolver) (c : ℕ) (s : Bytes) (policy : ResolvePolicy)
    (i : ℕ) (r : Resolver)
    → IsSorted registry
    → get_elem? registry i ≡ some r
    → (r.try_resolve (c ∷ s)).success ≡ true
    → (uri : Bytes) × (resolve redacts registry (some (c ∷ s)) policy ≡ ok uri)
      × Answerer registry (c ∷ s) r.priority uri
unfolding resolve or_failed
resolve-Answerer redacts registry c s policy i r sorted e success =
    let (uri, tried, best) = try_each-answers registry (c ∷ s) nothing i r sorted e success in
    (uri, ap (or_failed redacts policy (c ∷ s)) tried, best)

-- No resolver of a list answers.
abbrev pub NoneAnswers : List Resolver → Bytes → Type 0
NoneAnswers rs input = All (λ (r : Resolver). (r.try_resolve input).success ≡ false) rs

try_each-fails :
    (rs : List Resolver) (input : Bytes) (last : Message)
    → NoneAnswers rs input
    → (m : Message) × (try_each rs input last ≡ err m)
unfolding try_each
try_each-fails [] input last h = (last, refl)
try_each-fails (r ∷ rs) input last (here, rest) =
    let (m, e) = try_each-fails rs input (latest (r.try_resolve input).error_message last) rest in
    (m, rw here e)

-- If no resolver answers an input that is neither NULL nor empty, it is taken as a path under the
-- policy that falls back to paths, and refused under the strict one.
pub resolve-NoneAnswers :
    (redacts : Bytes → Bool) (registry : List Resolver) (c : ℕ) (s : Bytes)
    → NoneAnswers registry (c ∷ s)
    → (resolve redacts registry (some (c ∷ s)) fallback_to_path ≡ ok (c ∷ s))
      × ((x : ResolveError) × (resolve redacts registry (some (c ∷ s)) strict ≡ err x))
unfolding resolve or_failed all_failed
resolve-NoneAnswers redacts registry c s h =
    let (m, e) = try_each-fails registry (c ∷ s) nothing h in
    let (x, refused) = strictly m in
    (
      ap (or_failed redacts fallback_to_path (c ∷ s)) e,
      (x, ap (or_failed redacts strict (c ∷ s)) e ∙ refused),
    )
  where
    strictly : (m : Message) → (x : ResolveError) × (all_failed redacts strict (c ∷ s) m ≡ err x)
    strictly m = elim (Bool-cases (redacts (c ∷ s))) [
      | inl hidden ↦ (redacted, rw hidden)
      | inr shown ↦ (rejection (c ∷ s) m, rw shown)
    ]
