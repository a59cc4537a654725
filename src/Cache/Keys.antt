-- ===== src/Cache/Keys.antt =====
-- src/lance_dataset_cache.cpp: the keys of the cache, which are put together from length-prefixed
-- parts.
pub mod Distinct
use lance_duckdb.Common.{
  ℕ, zero, suc, ◌+◌, ◌/◌, ◌%◌, Bytes, List, [], ◌∷◌, ◌++◌, length, ltb, ◌==◌, not, if◌then◌else◌,
  Result, ok, ◌>>=◌, ◌>>◌, throw_if, Exception, internal,
}

-- std::to_string of an unsigned number, by the rounds of a division by 10.
unfoldable pub decimal_from : ℕ → ℕ → Bytes → Bytes
decimal_from zero n tail = (b'0' + n % 10) ∷ tail
decimal_from (suc rounds) n tail =
    let longer = decimal_from rounds (n / 10) ((b'0' + n % 10) ∷ tail) in
    if ltb n 10 then (b'0' + n) ∷ tail else longer

unfoldable pub to_string : ℕ → Bytes
to_string n = decimal_from n n []

unfoldable pub append_key_part : Bytes → Bytes → Bytes
append_key_part key value = key ++ (to_string (length value) ++ (b':' ∷ (value ++ b';' ∷ [])))

unfoldable pub append_key_number : Bytes → ℕ → Bytes
append_key_number key value = append_key_part key (to_string value)

-- DuckDB's Hash is a parameter.
unfoldable pub fingerprint_key_part : (Bytes → ℕ) → Bytes → Bytes
fingerprint_key_part hash value = to_string (hash value)

abbrev pub path_prefix : Bytes
path_prefix = b'p' ∷ b'a' ∷ b't' ∷ b'h' ∷ b'|' ∷ []

abbrev pub namespace_prefix : Bytes
namespace_prefix = b'n' ∷ b'a' ∷ b'm' ∷ b'e' ∷ b's' ∷ b'p' ∷ b'a' ∷ b'c' ∷ b'e' ∷ b'|' ∷ []

-- The loop over the option keys and values, which are equally many.
unfoldable pub append_options : Bytes → List Bytes → List Bytes → Bytes
append_options key [] values = key
append_options key (k ∷ ks) [] = key
append_options key (k ∷ ks) (v ∷ vs) =
    append_options (append_key_part (append_key_part key k) v) ks vs

-- `normalize` is LanceNormalizeDatasetPath.
unfoldable pub resolved_path_key :
    (Bytes → Result Exception Bytes) → Bytes → List Bytes → List Bytes → Result Exception Bytes
resolved_path_key normalize open_path option_keys option_values = do
  throw_if (not (length option_keys == length option_values)) internal
  path ← normalize open_path
  let key = append_key_number (append_key_part path_prefix path) (length option_keys)
  ok (append_options key option_keys option_values)

unfoldable pub namespace_key :
    (Bytes → ℕ) → (endpoint table_id bearer_token api_key delimiter headers_tsv : Bytes) → Bytes
namespace_key hash endpoint table_id bearer_token api_key delimiter headers_tsv =
    let located = append_key_part (append_key_part namespace_prefix endpoint) table_id in
    let bearer = append_key_part located (fingerprint_key_part hash bearer_token) in
    let authorised = append_key_part bearer (fingerprint_key_part hash api_key) in
    append_key_part (append_key_part authorised delimiter) (fingerprint_key_part hash headers_tsv)
