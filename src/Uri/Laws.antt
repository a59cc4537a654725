-- ===== src/Uri/Laws.antt =====
-- Normalized names are normal.
use lance_duckdb.Common.{
  ℕ, zero, suc, ◌≤◌, ◌≡◌, refl, sym, ap, ◌∙◌, Bytes, Bool, Bool-cases, &&-true, Option-cases, true,
  false, [], ◌∷◌, ◌++◌, map, Option, none, some, ◌⊎◌, inl, inr, length, bytes_eq, ◌==◌, ◌||◌, ◌&&◌,
  not, if◌then◌else◌, subst, ok, throw_if-ok, or_throw-ok, ok-injective, invalid_input, arith,
}
use mathlib.Core.Option.{some-injective}
use lance_duckdb.Uri.{
  at_delimiter, split_scheme, is_upper, is_scheme_first, is_scheme_char, are_scheme_chars,
  is_scheme, to_lower, s3a, s3n, s3_alias, normalize_uri_scheme, drop_slashes, strip_slashes,
  has_nul, Library, is_remote, or_itself, normalize_local, normalize_dataset_path,
}

-- The rest begins at the delimiter.
split-at_delimiter :
    (s : Bytes) (p : Bytes × Bytes) → split_scheme s ≡ some p → at_delimiter p.1 ≡ true
unfolding split_scheme
split-at_delimiter [] p h = cc
split-at_delimiter (c ∷ s) p h = elim (Bool-cases (at_delimiter (c ∷ s))) [
  | inl t ↦ subst (λ q. at_delimiter q.1 ≡ true) (some-injective _ _ (rw (t, split_scheme) at h)) t
  | inr f ↦ elim (Option-cases (split_scheme s)) [
    | inl n ↦ absurd (none_some (rw (f, n, split_scheme) at h))
    | inr (q, e) ↦
        subst (λ q. at_delimiter q.1 ≡ true) (some-injective _ _ (rw (f, e, split_scheme) at h))
          (split-at_delimiter s q e)
  ]
]
  where
    none_some : {p : Bytes × Bytes} → ◌≡◌ {A = Option (Bytes × Bytes)} none (some p) → ⊥
    none_some h = cc

not_delimiter : (c : ℕ) (s : Bytes) → (c == b':') ≡ false → at_delimiter (c ∷ s) ≡ false
not_delimiter c [] h = refl
not_delimiter c (d ∷ []) h = refl
not_delimiter c (d ∷ e ∷ s) h = rw h refl

not_colon : (c : ℕ) → is_scheme_char c ≡ true → (c == b':') ≡ false
unfolding is_scheme_char is_scheme_first
not_colon c h = ground arith

-- Bytes of a scheme before a delimiter are split from it.
split-append :
    (scheme rest : Bytes)
    → are_scheme_chars scheme ≡ true
    → at_delimiter rest ≡ true
    → split_scheme (scheme ++ rest) ≡ some (scheme, rest)
unfolding split_scheme are_scheme_chars
split-append [] [] a d = cc
split-append [] (c ∷ rest) a d = rw d refl
split-append (c ∷ scheme) rest a d =
    let (char, more) = &&-true (is_scheme_char c) (are_scheme_chars scheme) a in
    rw (not_delimiter c (scheme ++ rest) (not_colon c char), split-append scheme rest more d) refl

-- A scheme in lower case.
are_lower : Bytes → Bool
are_lower [] = true
are_lower (c ∷ s) = not (is_upper c) && are_lower s

to_lower-first :
    (c : ℕ)
    → is_scheme_first c ≡ true
    → (is_scheme_first (to_lower c) ≡ true) × (is_upper (to_lower c) ≡ false)
unfolding is_scheme_first to_lower
to_lower-first c h = (ground arith, ground arith)

to_lower-char :
    (c : ℕ)
    → is_scheme_char c ≡ true
    → (is_scheme_char (to_lower c) ≡ true) × (is_upper (to_lower c) ≡ false)
unfolding is_scheme_char is_scheme_first to_lower
to_lower-char c h = (ground arith, ground arith)

map-to_lower :
    (s : Bytes)
    → are_scheme_chars s ≡ true
    → (are_scheme_chars (map to_lower s) ≡ true) × (are_lower (map to_lower s) ≡ true)
unfolding are_scheme_chars are_lower
map-to_lower [] h = (refl, refl)
map-to_lower (c ∷ s) h =
    let (char, more) = &&-true (is_scheme_char c) (are_scheme_chars s) h in
    let (char', low) = to_lower-char c char in
    let (more', lows) = map-to_lower s more in (rw (char', more') refl, rw (low, lows) refl)

low_stays : (c : ℕ) → not (is_upper c) ≡ true → to_lower c ≡ c
unfolding to_lower
low_stays c h = ground arith

lower_stays : (s : Bytes) → are_lower s ≡ true → map to_lower s ≡ s
unfolding are_lower to_lower
lower_stays [] h = refl
lower_stays (c ∷ s) h =
    let (low, lows) = &&-true (not (is_upper c)) (are_lower s) h in
    rw (low_stays c low, lower_stays s lows) refl

-- A scheme as it is after normalizing.
abbrev IsNormal : Bytes → Type 0
IsNormal s =
    (is_scheme s ≡ true) × (are_scheme_chars s ≡ true) × (are_lower s ≡ true) × (s3_alias s ≡ s)

scheme_chars : (s : Bytes) → is_scheme s ≡ true → are_scheme_chars s ≡ true
unfolding is_scheme are_scheme_chars is_scheme_char
scheme_chars [] h = cc
scheme_chars (c ∷ s) h =
    let (first, more) = &&-true (is_scheme_first c) (are_scheme_chars s) h in rw (first, more) refl

lower-is_scheme : (s : Bytes) → is_scheme s ≡ true → is_scheme (map to_lower s) ≡ true
unfolding is_scheme
lower-is_scheme [] h = cc
lower-is_scheme (c ∷ s) h =
    let (first, more) = &&-true (is_scheme_first c) (are_scheme_chars s) h in
    rw ((to_lower-first c first).0, (map-to_lower s more).0) refl

s3_alias-IsNormal :
    (s : Bytes)
    → is_scheme s ≡ true
    → are_scheme_chars s ≡ true
    → are_lower s ≡ true
    → IsNormal (s3_alias s)
unfolding s3_alias are_lower is_scheme are_scheme_chars is_scheme_char is_scheme_first bytes_eq
s3_alias-IsNormal s i a l = elim (Bool-cases (bytes_eq s s3a || bytes_eq s s3n)) [
  | inl t ↦ rw (t, s3_alias) (refl, refl, refl, refl)
  | inr f ↦ rw (f, s3_alias) (i, a, l, rw f refl)
]

normal_stays :
    (scheme rest : Bytes)
    → IsNormal scheme
    → at_delimiter rest ≡ true
    → normalize_uri_scheme (scheme ++ rest) ≡ scheme ++ rest
unfolding normalize_uri_scheme
normal_stays scheme rest (i, a, l, s) d =
    rw (normalize_uri_scheme, split-append scheme rest a d, i, lower_stays scheme l, s) refl

scheme-IsNormal :
    (scheme : Bytes) → is_scheme scheme ≡ true → IsNormal (s3_alias (map to_lower scheme))
scheme-IsNormal scheme i =
    let (chars, low) = map-to_lower scheme (scheme_chars scheme i) in
    s3_alias-IsNormal (map to_lower scheme) (lower-is_scheme scheme i) chars low

-- Normalizing the scheme of a URI twice is normalizing it once.
pub normalize_uri_scheme-normalize_uri_scheme :
    (scope : Bytes) → normalize_uri_scheme (normalize_uri_scheme scope) ≡ normalize_uri_scheme scope
unfolding normalize_uri_scheme
normalize_uri_scheme-normalize_uri_scheme scope = elim (Option-cases (split_scheme scope)) [
  | inl n ↦ unchanged scope (rw (n, normalize_uri_scheme) refl)
  | inr ((scheme, rest), e) ↦ elim (Bool-cases (is_scheme scheme)) [
    | inr f ↦ unchanged scope (rw (e, f, normalize_uri_scheme) refl)
    | inl t ↦
        again scope (s3_alias (map to_lower scheme) ++ rest) (rw (e, t, normalize_uri_scheme) refl)
          (normal_stays (s3_alias (map to_lower scheme)) rest (scheme-IsNormal scheme t)
            (split-at_delimiter scope (scheme, rest) e))
  ]
]
  where
    unchanged :
        (s : Bytes)
        → normalize_uri_scheme s ≡ s
        → normalize_uri_scheme (normalize_uri_scheme s) ≡ normalize_uri_scheme s
    unchanged s h = ap normalize_uri_scheme h

    again :
        (s t : Bytes)
        → normalize_uri_scheme s ≡ t
        → normalize_uri_scheme t ≡ t
        → normalize_uri_scheme (normalize_uri_scheme s) ≡ normalize_uri_scheme s
    again s t h k = ap normalize_uri_scheme h ∙ k ∙ sym h

-- The last byte.
unfoldable pub ends_in_slash : Bytes → Bool
ends_in_slash [] = false
ends_in_slash (c ∷ []) = c == b'/'
ends_in_slash (c ∷ d ∷ s) = ends_in_slash (d ∷ s)

drop_slashes-ends : (s : Bytes) → ends_in_slash (drop_slashes s) ≡ false
unfolding drop_slashes ends_in_slash
drop_slashes-ends [] = refl
drop_slashes-ends (c ∷ s) = ended c (drop_slashes s) (drop_slashes-ends s)
  where
    ended :
        (c : ℕ) (t : Bytes)
        → ends_in_slash t ≡ false
        → ends_in_slash (elim t [ [] ↦ if c == b'/' then [] else c ∷ [] | d ∷ u ↦ c ∷ d ∷ u ])
          ≡ false
    ended c [] h = elim (Bool-cases (c == b'/')) [
      | inl t ↦ rw t refl
      | inr f ↦ rw (f, ends_in_slash, f) refl
    ]
    ended c (d ∷ u) h = h

-- A path that is one byte, or does not end in a slash.
abbrev pub IsStripped : Bytes → Type 0
IsStripped s = (length s ≤ 1) ⊎ (ends_in_slash s ≡ false)

strip_slashes-IsStripped : (s : Bytes) → IsStripped (strip_slashes s)
unfolding strip_slashes ends_in_slash
strip_slashes-IsStripped [] = inl (omega arith)
strip_slashes-IsStripped (c ∷ s) = one_more c (drop_slashes s) (drop_slashes-ends s)
  where
    one_more : (c : ℕ) (t : Bytes) → ends_in_slash t ≡ false → IsStripped (c ∷ t)
    one_more c [] h = inl (omega arith)
    one_more c (d ∷ u) h = inr h

pub slashes : ℕ → Bytes
slashes zero = []
slashes (suc n) = b'/' ∷ slashes n

drop_slashes-append : (s : Bytes) → (n : ℕ) × (s ≡ drop_slashes s ++ slashes n)
unfolding drop_slashes slashes
drop_slashes-append [] = (0, refl)
drop_slashes-append (c ∷ s) = let (n, e) = drop_slashes-append s in dropped c (drop_slashes s) n e
  where
    dropped :
        (c : ℕ) (t : Bytes) (n : ℕ) {s : Bytes}
        → s ≡ t ++ slashes n
        → (m : ℕ) × (c ∷ s
            ≡ (elim t [ [] ↦ if c == b'/' then [] else c ∷ [] | d ∷ u ↦ c ∷ d ∷ u ]) ++ slashes m)
    dropped c [] n e = elim (Bool-cases (c == b'/')) [
      | inl t ↦ let same : c ≡ b'/' = ground arith in rw t (suc n, rw same (ap (λ r. b'/' ∷ r) e))
      | inr f ↦ rw f (n, ap (λ r. c ∷ r) e)
    ]
    dropped c (d ∷ u) n e = (n, ap (λ r. c ∷ r) e)

-- A path without slashes at its end, but with its first byte.
pub record StripsTo (local result : Bytes) : Type 0 where
  pub dropped : ℕ
  pub only_slashes : local ≡ result ++ slashes dropped
  pub stripped : IsStripped result
  pub keeps_root : (local ≡ []) ⊎ (1 ≤ length result)

strip_slashes-StripsTo : (s : Bytes) → StripsTo s (strip_slashes s)
unfolding strip_slashes slashes
strip_slashes-StripsTo [] = record {
  dropped = 0;
  only_slashes = refl;
  stripped = strip_slashes-IsStripped [];
  keeps_root = inl refl;
}
strip_slashes-StripsTo (c ∷ s) =
    let (n, e) = drop_slashes-append s in
    record {
      dropped = n;
      only_slashes = ap (λ r. c ∷ r) e;
      stripped = strip_slashes-IsStripped (c ∷ s);
      keeps_root = inr (omega arith);
    }

-- What the library makes of a remote URI, or the URI.
abbrev pub IsRemoteResult : Option Bytes → Bytes → Bytes → Type 0
IsRemoteResult answer uri result = (answer ≡ some result) ⊎ ((answer ≡ none) × (result ≡ uri))

remote_result :
    (library : Library) (answer : Option Bytes) (uri : Bytes) {result : Bytes}
    → or_itself library answer uri ≡ result
    → IsRemoteResult answer uri result
remote_result library none uri h = inr (refl, sym h)
remote_result library (some t) uri h = inl (ap some h)

-- A path that LanceNormalizeDatasetPath accepts holds no NUL. For a remote URI, with its scheme
-- normalized, the result is what the library makes of it where paths are not accepted, or the URI
-- itself where the library makes nothing of it. For anything else the library makes a local path of
-- it, and the result is that path up to slashes at its end: it is at most one byte or does not end in
-- a slash, and it is not empty unless the path is, so that the root stays.
pub normalize_dataset_path-StripsTo :
    (library : Library) (path : Bytes) {result : Bytes}
    → normalize_dataset_path library path ≡ ok result
    → let uri = normalize_uri_scheme path in
      (has_nul path ≡ false)
      × (((is_remote library uri ≡ true)
            × IsRemoteResult (library.blob_normalize_uri uri false) uri result)
          ⊎ ((is_remote library uri ≡ false)
              × (local : Bytes) × (library.blob_normalize_uri uri true ≡ some local)
              × StripsTo local result))
unfolding normalize_dataset_path normalize_local
normalize_dataset_path-StripsTo library path {result} h =
    let uri = normalize_uri_scheme path in
    let (plain, k) = throw_if-ok (has_nul path) invalid_input _ h in
    (
      plain,
      elim (Bool-cases (is_remote library uri)) [
        | inl t ↦ inl (
          t,
          remote_result library (library.blob_normalize_uri uri false) uri
              (ok-injective (rw t at k)),
        )
        | inr f ↦
            let (local, e, k') =
              or_throw-ok (library.blob_normalize_uri uri true) invalid_input _ (rw f at k) in
            inr
              (f, local, e, subst (StripsTo local) (ok-injective k') (strip_slashes-StripsTo local))
      ],
    )
