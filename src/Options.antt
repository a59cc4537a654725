-- ===== src/Options.antt =====
-- src/lance_common.cpp, IsLanceS3StorageOptionAlias to CanonicalizeLanceS3StorageOptions: the names of the
-- S3 options of a storage. The keys and the values, two vectors of the same size, are a list of pairs.
pub mod Laws
use lance_duckdb.Common.{
  ℕ, ◌≡◌, refl, sym, ap, Bytes, Bool, Bool-cases, true, false, List, [], ◌∷◌, ◌++◌, ◌⊎◌, inl, inr,
  bytes_eq, leb, ◌==◌, ◌||◌, ◌&&◌, not, if◌then◌else◌, All, arith,
}
use mathlib.Core.List.{Memᴰ}

abbrev pub aws_prefix : Bytes
aws_prefix = b'a' ∷ b'w' ∷ b's' ∷ b'_' ∷ []

abbrev pub access_key_id : Bytes
access_key_id =
    b'a' ∷ b'c' ∷ b'c' ∷ b'e' ∷ b's' ∷ b's' ∷ b'_' ∷ b'k' ∷ b'e' ∷ b'y' ∷ b'_' ∷ b'i' ∷ b'd' ∷ []

abbrev pub secret_access_key : Bytes
secret_access_key =
    b's' ∷ b'e' ∷ b'c' ∷ b'r' ∷ b'e' ∷ b't' ∷ b'_' ∷ b'a' ∷ b'c' ∷ b'c' ∷ b'e' ∷ b's' ∷ b's' ∷ b'_'
    ∷ b'k' ∷ b'e' ∷ b'y' ∷ []

abbrev pub session_token : Bytes
session_token =
    b's' ∷ b'e' ∷ b's' ∷ b's' ∷ b'i' ∷ b'o' ∷ b'n' ∷ b'_' ∷ b't' ∷ b'o' ∷ b'k' ∷ b'e' ∷ b'n' ∷ []

abbrev pub region : Bytes
region = b'r' ∷ b'e' ∷ b'g' ∷ b'i' ∷ b'o' ∷ b'n' ∷ []

abbrev pub endpoint : Bytes
endpoint = b'e' ∷ b'n' ∷ b'd' ∷ b'p' ∷ b'o' ∷ b'i' ∷ b'n' ∷ b't' ∷ []

abbrev pub virtual_hosted_style_request : Bytes
virtual_hosted_style_request =
    b'v' ∷ b'i' ∷ b'r' ∷ b't' ∷ b'u' ∷ b'a' ∷ b'l' ∷ b'_' ∷ b'h' ∷ b'o' ∷ b's' ∷ b't' ∷ b'e' ∷ b'd'
    ∷ b'_' ∷ b's' ∷ b't' ∷ b'y' ∷ b'l' ∷ b'e' ∷ b'_' ∷ b'r' ∷ b'e' ∷ b'q' ∷ b'u' ∷ b'e' ∷ b's'
    ∷ b't' ∷ []

abbrev pub Options : Type 0
Options = List (Bytes × Bytes)

-- StringUtil::CIEquals is a parameter.
module _ (ci_equals : Bytes → Bytes → Bool) where
  unfoldable pub is_s3_alias : Bytes → Bool
  is_s3_alias key =
      ci_equals key access_key_id
      || (ci_equals key secret_access_key
          || (ci_equals key session_token
              || (ci_equals key region
                  || (ci_equals key endpoint || ci_equals key virtual_hosted_style_request))))

  abbrev pub names_option : (key name : Bytes) → Bool
  names_option key name = ci_equals key name || ci_equals key (aws_prefix ++ name)

  unfoldable pub canonical_key : Bytes → Bytes
  canonical_key key =
      if names_option key access_key_id
      then aws_prefix ++ access_key_id
      else if names_option key secret_access_key
      then aws_prefix ++ secret_access_key
      else if names_option key session_token
      then aws_prefix ++ session_token
      else if names_option key region
      then aws_prefix ++ region
      else if names_option key endpoint
      then aws_prefix ++ endpoint
      else if names_option key virtual_hosted_style_request
      then aws_prefix ++ virtual_hosted_style_request
      else key

  unfoldable pub has_explicit_canonical : Options → Bytes → Bool
  has_explicit_canonical [] key = false
  has_explicit_canonical ((candidate, _) ∷ options) key =
      (not (is_s3_alias candidate) && ci_equals candidate key) || has_explicit_canonical options key

  abbrev pub is_overridden : Options → Bytes → Bool
  is_overridden all key = is_s3_alias key && has_explicit_canonical all (canonical_key key)

  unfoldable pub canonicalize_from : (all : Options) → Options → Options
  canonicalize_from all [] = []
  canonicalize_from all ((key, value) ∷ options) =
      if is_overridden all key
      then canonicalize_from all options
      else (canonical_key key, value) ∷ canonicalize_from all options

  unfoldable pub canonicalize_options : Options → Options
  canonicalize_options options = canonicalize_from options options
