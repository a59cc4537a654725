-- ===== src/Uri.antt =====
-- src/lance_common.cpp, LanceNormalizeUriScheme and LanceNormalizeDatasetPath: the names of datasets.
-- Normalizing a URI behind the FFI is a parameter, and so is StringUtil::Lower.
pub mod Laws
use lance_duckdb.Common.{
  ℕ, zero, suc, ◌+◌, Bytes, Bool, true, false, List, [], ◌∷◌, ◌++◌, map, Option, none, some, length,
  take, drop, bytes_eq, leb, ◌==◌, ◌||◌, ◌&&◌, not, if◌then◌else◌, Result, ok, err, ◌>>=◌, ◌>>◌,
  throw_if, or_throw, Exception, invalid_input,
}

abbrev pub at_delimiter : Bytes → Bool
at_delimiter (a ∷ b ∷ c ∷ rest) = a == b':' && (b == b'/' && c == b'/')
at_delimiter _ = false

-- `find("://")`: what stands before, and the rest from there on.
unfoldable pub split_scheme : Bytes → Option (Bytes × Bytes)
split_scheme [] = none
split_scheme (c ∷ s) =
    if at_delimiter (c ∷ s)
    then some ([], c ∷ s)
    else elim (split_scheme s) [ none ↦ none | some (scheme, rest) ↦ some (c ∷ scheme, rest) ]

abbrev pub is_upper : ℕ → Bool
is_upper c = leb b'A' c && leb c b'Z'

unfoldable pub is_scheme_first : ℕ → Bool
is_scheme_first c = is_upper c || (leb b'a' c && leb c b'z')

unfoldable pub is_scheme_char : ℕ → Bool
is_scheme_char c =
    is_scheme_first c || ((leb b'0' c && leb c b'9') || (c == b'+' || (c == b'-' || c == b'.')))

unfoldable pub are_scheme_chars : Bytes → Bool
are_scheme_chars [] = true
are_scheme_chars (c ∷ s) = is_scheme_char c && are_scheme_chars s

unfoldable pub is_scheme : Bytes → Bool
is_scheme [] = false
is_scheme (c ∷ s) = is_scheme_first c && are_scheme_chars s

unfoldable pub to_lower : ℕ → ℕ
to_lower c = if is_upper c then c + 32 else c

abbrev pub s3 : Bytes
s3 = b's' ∷ b'3' ∷ []

abbrev pub s3a : Bytes
s3a = b's' ∷ b'3' ∷ b'a' ∷ []

abbrev pub s3n : Bytes
s3n = b's' ∷ b'3' ∷ b'n' ∷ []

unfoldable pub s3_alias : Bytes → Bytes
s3_alias scheme = if bytes_eq scheme s3a || bytes_eq scheme s3n then s3 else scheme

unfoldable pub normalize_uri_scheme : Bytes → Bytes
normalize_uri_scheme scope = elim (split_scheme scope) [
  | none ↦ scope
  | some (scheme, rest) ↦ if is_scheme scheme then s3_alias (map to_lower scheme) ++ rest else scope
]

-- `while (local.size() > 1 && local.back() == '/') local.pop_back();`: what is left of the bytes after the
-- first one.
unfoldable pub drop_slashes : Bytes → Bytes
drop_slashes [] = []
drop_slashes (c ∷ s) = elim (drop_slashes s) [
  | [] ↦ if c == b'/' then [] else c ∷ []
  | d ∷ t ↦ c ∷ d ∷ t
]

unfoldable pub strip_slashes : Bytes → Bytes
strip_slashes [] = []
strip_slashes (c ∷ s) = c ∷ drop_slashes s

unfoldable pub has_nul : Bytes → Bool
has_nul [] = false
has_nul (c ∷ s) = c == 0 || has_nul s

abbrev pub file : Bytes
file = b'f' ∷ b'i' ∷ b'l' ∷ b'e' ∷ []

abbrev pub file_object_store : Bytes
file_object_store =
    file
    ++ (b'-' ∷ b'o' ∷ b'b' ∷ b'j' ∷ b'e' ∷ b'c' ∷ b't' ∷ b'-' ∷ b's' ∷ b't' ∷ b'o' ∷ b'r' ∷ b'e'
        ∷ [])

abbrev pub file_uring : Bytes
file_uring = file ++ (b'+' ∷ b'u' ∷ b'r' ∷ b'i' ∷ b'n' ∷ b'g' ∷ [])

-- StringUtil::Lower and lance_blob_normalize_uri, where `local` says whether paths are accepted.
pub record Library : Type 0 where
  pub lower : Bytes → Bytes
  pub blob_normalize_uri : Bytes → (local : Bool) → Option Bytes

abbrev pub is_file_scheme : Bytes → Bool
is_file_scheme scheme =
    bytes_eq scheme file || (bytes_eq scheme file_object_store || bytes_eq scheme file_uring)

module _ (library : Library) where
  unfoldable pub is_remote : Bytes → Bool
  is_remote normalized = elim (split_scheme normalized) [
    | none ↦ false
    | some (scheme, rest) ↦ not (is_file_scheme (library.lower scheme))
  ]

  abbrev pub or_itself : Option Bytes → Bytes → Bytes
  or_itself none s = s
  or_itself (some t) s = t

  unfoldable pub normalize_local : Bytes → Result Exception Bytes
  normalize_local normalized = do
    local ← or_throw (library.blob_normalize_uri normalized true) invalid_input
    ok (strip_slashes local)

  unfoldable pub normalize_dataset_path : Bytes → Result Exception Bytes
  normalize_dataset_path path = do
    throw_if (has_nul path) invalid_input
    let normalized = normalize_uri_scheme path
    let local = normalize_local normalized
    if is_remote normalized
        then ok (or_itself (library.blob_normalize_uri normalized false) normalized)
        else local
