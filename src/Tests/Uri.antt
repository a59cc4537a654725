-- ===== src/Tests/Uri.antt =====
-- The URI S3A://b and the path /d/, and the options of a secret.
use lance_duckdb.Common.{◌≡◌, refl, Bytes, true, false, [], ◌∷◌, ◌++◌, some, ◌⊎◌, bytes_eq, ok}
use mathlib.Core.List.{Memᴰ}
use lance_duckdb.Uri.{
  split_scheme, is_scheme_first, is_scheme_char, are_scheme_chars, is_scheme, to_lower, s3_alias,
  normalize_uri_scheme, drop_slashes, strip_slashes, has_nul, Library, is_remote, normalize_local,
  normalize_dataset_path,
}
use lance_duckdb.Uri.Laws.{
  IsRemoteResult, StripsTo, normalize_uri_scheme-normalize_uri_scheme,
  normalize_dataset_path-StripsTo,
}
use lance_duckdb.Options.{aws_prefix, region, endpoint, Options, canonicalize_options}
use lance_duckdb.Options.Laws.{
  IsKept, canonicalize_options-canonicalize_options, canonicalize_options-IsKept,
}

abbrev bucket : Bytes
bucket = b'S' ∷ b'3' ∷ b'A' ∷ b':' ∷ b'/' ∷ b'/' ∷ b'b' ∷ []

abbrev normal_bucket : Bytes
normal_bucket = b's' ∷ b'3' ∷ b':' ∷ b'/' ∷ b'/' ∷ b'b' ∷ []

bucket_is_normalized : normalize_uri_scheme bucket ≡ normal_bucket
unfolding normalize_uri_scheme split_scheme is_scheme are_scheme_chars is_scheme_char
    is_scheme_first to_lower s3_alias bytes_eq
bucket_is_normalized = refl

normalize_uri_scheme-normalize_uri_scheme_example :
    normalize_uri_scheme (normalize_uri_scheme bucket) ≡ normalize_uri_scheme bucket
normalize_uri_scheme-normalize_uri_scheme_example = normalize_uri_scheme-normalize_uri_scheme bucket

-- A library that changes nothing.
abbrev plain_library : Library
plain_library = record { lower = λ s. s; blob_normalize_uri = λ s local. some s }

abbrev directory : Bytes
directory = b'/' ∷ b'd' ∷ b'/' ∷ []

directory_is_stripped : normalize_dataset_path plain_library directory ≡ ok (b'/' ∷ b'd' ∷ [])
unfolding normalize_dataset_path normalize_local normalize_uri_scheme split_scheme is_remote
    strip_slashes drop_slashes has_nul
directory_is_stripped = refl

normalize_dataset_path-StripsTo_example :
    (has_nul directory ≡ false)
    × (((is_remote plain_library (normalize_uri_scheme directory) ≡ true)
          × IsRemoteResult
              (plain_library.blob_normalize_uri (normalize_uri_scheme directory) false)
              (normalize_uri_scheme directory)
              (b'/' ∷ b'd' ∷ []))
        ⊎ ((is_remote plain_library (normalize_uri_scheme directory) ≡ false)
            × (local : Bytes) × (plain_library.blob_normalize_uri
                  (normalize_uri_scheme directory)
                  true
                ≡ some local)
            × StripsTo local (b'/' ∷ b'd' ∷ [])))
normalize_dataset_path-StripsTo_example =
    normalize_dataset_path-StripsTo plain_library directory directory_is_stripped

-- A region twice, under its alias and under its name, and an endpoint.
abbrev options : Options
options = (region, b'1' ∷ []) ∷ (aws_prefix ++ region, b'2' ∷ []) ∷ (endpoint, b'3' ∷ []) ∷ []

canonicalize_options-canonicalize_options_example :
    canonicalize_options bytes_eq (canonicalize_options bytes_eq options)
    ≡ canonicalize_options bytes_eq options
canonicalize_options-canonicalize_options_example =
    canonicalize_options-canonicalize_options bytes_eq (λ a b la lb. refl) options

canonicalize_options-IsKept_example :
    IsKept bytes_eq options (canonicalize_options bytes_eq options) (region, b'1' ∷ [])
canonicalize_options-IsKept_example =
    canonicalize_options-IsKept bytes_eq options (region, b'1' ∷ []) (Memᴰ.head refl)
