-- ===== src/Options/Laws.antt =====
-- Options after CanonicalizeLanceS3StorageOptions.
use lance_duckdb.Common.{
  ◌≡◌, refl, sym, Bytes, Bool, Bool-cases, &&-true, ||-false, not-true, true, false, [], ◌∷◌, ◌++◌,
  ◌⊎◌, inl, inr, bytes_eq, leb, ◌==◌, ◌||◌, ◌&&◌, not, subst, All,
}
use mathlib.Core.List.{Memᴰ}
use lance_duckdb.Options.{
  aws_prefix, access_key_id, secret_access_key, session_token, region, endpoint,
  virtual_hosted_style_request, Options, is_s3_alias, names_option, canonical_key,
  has_explicit_canonical, is_overridden, canonicalize_from, canonicalize_options,
}

-- A key of lower case letters and underscores.
unfoldable pub is_lower : Bytes → Bool
is_lower [] = true
is_lower (c ∷ s) = ((leb 97 c && leb c 122) || c == 95) && is_lower s

-- Of two such keys, only equal ones are equal without regard to case.
abbrev pub IsFolding : (Bytes → Bytes → Bool) → Type 0
IsFolding ci_equals =
    (a b : Bytes) → is_lower a ≡ true → is_lower b ≡ true → ci_equals a b ≡ bytes_eq a b

module _ (ci_equals : Bytes → Bytes → Bool) (folding : IsFolding ci_equals) where
  abbrev IsCanonical : Bytes → Type 0
  IsCanonical key = (canonical_key ci_equals key ≡ key) × (is_s3_alias ci_equals key ≡ false)

  access_key_id-IsCanonical : IsCanonical (aws_prefix ++ access_key_id)
  unfolding canonical_key is_s3_alias is_lower bytes_eq
  access_key_id-IsCanonical = simp (folding) (refl, refl)

  secret_access_key-IsCanonical : IsCanonical (aws_prefix ++ secret_access_key)
  unfolding canonical_key is_s3_alias is_lower bytes_eq
  secret_access_key-IsCanonical = simp (folding) (refl, refl)

  session_token-IsCanonical : IsCanonical (aws_prefix ++ session_token)
  unfolding canonical_key is_s3_alias is_lower bytes_eq
  session_token-IsCanonical = simp (folding) (refl, refl)

  region-IsCanonical : IsCanonical (aws_prefix ++ region)
  unfolding canonical_key is_s3_alias is_lower bytes_eq
  region-IsCanonical = simp (folding) (refl, refl)

  endpoint-IsCanonical : IsCanonical (aws_prefix ++ endpoint)
  unfolding canonical_key is_s3_alias is_lower bytes_eq
  endpoint-IsCanonical = simp (folding) (refl, refl)

  virtual_hosted_style_request-IsCanonical :
      IsCanonical (aws_prefix ++ virtual_hosted_style_request)
  unfolding canonical_key is_s3_alias is_lower bytes_eq
  virtual_hosted_style_request-IsCanonical = simp (folding) (refl, refl)

  abbrev IsUnnamed : (key name : Bytes) → Type 0
  IsUnnamed key name = names_option ci_equals key name ≡ false

  no : (key name : Bytes) → IsUnnamed key name → ci_equals key name ≡ false
  no key name f = (||-false (ci_equals key name) (ci_equals key (aws_prefix ++ name)) f).0

  unnamed-IsCanonical :
      (key : Bytes)
      → IsUnnamed key access_key_id
      → IsUnnamed key secret_access_key
      → IsUnnamed key session_token
      → IsUnnamed key region
      → IsUnnamed key endpoint
      → IsUnnamed key virtual_hosted_style_request
      → IsCanonical key
  unfolding canonical_key is_s3_alias
  unnamed-IsCanonical key f₁ f₂ f₃ f₄ f₅ f₆ = (
    rw (f₁, f₂, f₃, f₄, f₅, f₆) refl,
    rw
        (
          no key access_key_id f₁,
          no key secret_access_key f₂,
          no key session_token f₃,
          no key region f₄,
          no key endpoint f₅,
          no key virtual_hosted_style_request f₆,
        )
        refl,
  )

  canonical_key-IsCanonical : (key : Bytes) → IsCanonical (canonical_key ci_equals key)
  unfolding canonical_key is_s3_alias
  canonical_key-IsCanonical key = elim (Bool-cases (names_option ci_equals key access_key_id)) [
    | inl t ↦ rw t access_key_id-IsCanonical
    | inr f₁ ↦ elim (Bool-cases (names_option ci_equals key secret_access_key)) [
      | inl t ↦ rw (f₁, t) secret_access_key-IsCanonical
      | inr f₂ ↦ elim (Bool-cases (names_option ci_equals key session_token)) [
        | inl t ↦ rw (f₁, f₂, t) session_token-IsCanonical
        | inr f₃ ↦ elim (Bool-cases (names_option ci_equals key region)) [
          | inl t ↦ rw (f₁, f₂, f₃, t) region-IsCanonical
          | inr f₄ ↦ elim (Bool-cases (names_option ci_equals key endpoint)) [
            | inl t ↦ rw (f₁, f₂, f₃, f₄, t) endpoint-IsCanonical
            | inr f₅ ↦ elim (Bool-cases (names_option ci_equals key virtual_hosted_style_request)) [
              | inl t ↦ rw (f₁, f₂, f₃, f₄, f₅, t) virtual_hosted_style_request-IsCanonical
              | inr f₆ ↦ rw (f₁, f₂, f₃, f₄, f₅, f₆) (unnamed-IsCanonical key f₁ f₂ f₃ f₄ f₅ f₆)
            ]
          ]
        ]
      ]
    ]
  ]

  abbrev AreCanonical : Options → Type 0
  AreCanonical = All (λ option. IsCanonical option.0)

  canonicalize_from-AreCanonical :
      (all options : Options) → AreCanonical (canonicalize_from ci_equals all options)
  unfolding canonicalize_from
  canonicalize_from-AreCanonical all [] = tt
  canonicalize_from-AreCanonical all ((key, value) ∷ options) =
      elim (Bool-cases (is_overridden ci_equals all key)) [
        | inl t ↦ rw t (canonicalize_from-AreCanonical all options)
        | inr f ↦ rw f (canonical_key-IsCanonical key, canonicalize_from-AreCanonical all options)
      ]

  AreCanonical-same :
      (all options : Options)
      → AreCanonical options
      → canonicalize_from ci_equals all options ≡ options
  unfolding canonicalize_from
  AreCanonical-same all [] c = refl
  AreCanonical-same all ((key, value) ∷ options) c =
      rw (c.0.1, c.0.0, AreCanonical-same all options c.1) refl

  -- Options that are canonical stay as they are: canonicalizing twice is canonicalizing once.
  pub canonicalize_options-canonicalize_options :
      (options : Options)
      → canonicalize_options ci_equals (canonicalize_options ci_equals options)
        ≡ canonicalize_options ci_equals options
  unfolding canonicalize_options
  canonicalize_options-canonicalize_options options =
      AreCanonical-same (canonicalize_from ci_equals options options)
        (canonicalize_from ci_equals options options)
        (canonicalize_from-AreCanonical options options)

module _ (ci_equals : Bytes → Bytes → Bool) where
  -- An option that is not an alias, and names the same key in whatever case.
  abbrev pub IsExplicit : Bytes → Bytes × Bytes → Type 0
  IsExplicit key option =
      (is_s3_alias ci_equals option.0 ≡ false)
      × (ci_equals option.0 (canonical_key ci_equals key) ≡ true)

  overriding :
      (options : Options) (key : Bytes)
      → has_explicit_canonical ci_equals options (canonical_key ci_equals key) ≡ true
      → (option : Bytes × Bytes) × Memᴰ option options × IsExplicit key option
  unfolding has_explicit_canonical
  overriding [] key h = cc
  overriding ((candidate, value) ∷ options) key h =
      elim (Bool-cases (
        not (is_s3_alias ci_equals candidate)
        && ci_equals candidate (canonical_key ci_equals key))) [
          | inl t ↦
              let (a, b) = &&-true _ _ t in ((candidate, value), Memᴰ.head refl, (not-true _ a, b))
          | inr f ↦
              let (option, m, e) = overriding options key (rw f at h) in (option, Memᴰ.tail m, e)
        ]

  -- An option is there under its canonical key, or it is an alias that an explicit option overrides.
  abbrev pub IsKept : (all result : Options) → Bytes × Bytes → Type 0
  IsKept all result option =
      Memᴰ (canonical_key ci_equals option.0, option.1) result
      ⊎ ((is_s3_alias ci_equals option.0 ≡ true)
          × ((other : Bytes × Bytes) × Memᴰ other all × IsExplicit option.0 other))

  later :
      (all result : Options) (x option : Bytes × Bytes)
      → IsKept all result option
      → IsKept all (x ∷ result) option
  later all result x option (inl m) = inl (Memᴰ.tail m)
  later all result x option (inr o) = inr o

  canonicalize_from-IsKept :
      (all options : Options) (option : Bytes × Bytes)
      → Memᴰ option options
      → IsKept all (canonicalize_from ci_equals all options) option
  unfolding canonicalize_from
  canonicalize_from-IsKept all [] option m = elim m [ ]
  canonicalize_from-IsKept all ((k, v) ∷ options) option m =
      elim (Bool-cases (is_overridden ci_equals all k)) [
        | inl t ↦ rw t (elim m [
          | Memᴰ.head e ↦
              let (a, h) = &&-true (is_s3_alias ci_equals k) _ t in
              subst (IsKept all (canonicalize_from ci_equals all options)) (sym e)
                (inr (a, overriding all k h))
          | Memᴰ.tail m' ↦ canonicalize_from-IsKept all options option m'
        ])
        | inr f ↦ rw f (elim m [
          | Memᴰ.head e ↦
              subst
                (IsKept all
                  ((canonical_key ci_equals k, v) ∷ canonicalize_from ci_equals all options))
                (sym e) (inl (Memᴰ.head refl))
          | Memᴰ.tail m' ↦
              later all (canonicalize_from ci_equals all options) (canonical_key ci_equals k, v)
                option (canonicalize_from-IsKept all options option m')
        ])
      ]

  -- No option is lost: each one is there under its canonical key with its value, or it is an alias and there
  -- is an option that names this key itself, in whatever case.
  pub canonicalize_options-IsKept :
      (options : Options) (option : Bytes × Bytes)
      → Memᴰ option options
      → IsKept options (canonicalize_options ci_equals options) option
  unfolding canonicalize_options
  canonicalize_options-IsKept options = canonicalize_from-IsKept options options
