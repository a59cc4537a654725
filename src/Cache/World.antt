-- ===== src/Cache/World.antt =====
-- What src/lance_dataset_cache.cpp is given: tables, and the functions of other parts that it calls.
use lance_duckdb.Common.{ℕ, Bytes, Bool, List, Option, Result, Exception}

-- What LanceTableEntry says of a namespace.
pub record NamespaceConfig : Type 0 where
  pub is_directory : Bool
  pub root : Bytes
  pub endpoint : Bytes
  pub table_id : Bytes
  pub option_keys : List Bytes
  pub option_values : List Bytes
  pub bearer_token_override : Bytes
  pub api_key_override : Bytes
  pub delimiter : Bytes
  pub headers_tsv : Bytes

-- A table with no configuration is not backed by a namespace.
pub record Table : Type 0 where
  pub dataset_uri : Bytes
  pub namespace_config : Option NamespaceConfig

-- A storage path, and the keys and values of its options.
pub record Resolved : Type 0 where
  pub open_path : Bytes
  pub option_keys : List Bytes
  pub option_values : List Bytes

-- What this file calls: the Rust library, DuckDB's hash, the session, and the resolution of paths,
-- storage options, names and credentials, which are parts of their own. A null pointer is `none`.
pub record Env : Type 0 where
  pub hash : Bytes → ℕ
  pub session : Result Exception (Unit {0})
  pub normalize_path : Bytes → Result Exception Bytes
  pub normalize_s3_scheme : Bytes → Bytes
  pub directory_dataset_uri : NamespaceConfig → Bytes
  pub resolve_storage_options : Bytes → Result Exception Resolved
  pub resolve_auth : Bytes → List (Bytes × Bytes) → Result Exception (Bytes × Bytes)
  pub open_with_session : Bytes → Option ℕ
  pub open_with_options : Bytes → List Bytes → List Bytes → Option ℕ
  pub open_binding : Bytes → ℕ → Option ℕ
  pub open_in_namespace :
      Bytes
      → Bytes
      → Option Bytes
      → Option Bytes
      → Option Bytes
      → Option Bytes
      → Option ℕ × Option Bytes
  pub open_in_directory : Bytes → Bytes → List Bytes → List Bytes → Option ℕ × Option Bytes
