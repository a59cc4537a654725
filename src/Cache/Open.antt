-- ===== src/Cache/Open.antt =====
-- src/lance_dataset_cache.cpp: opening a dataset through the cache, by path, in a REST or directory
-- namespace, or for a table, and invalidation.
pub mod Laws
use lance_duckdb.Common.{
  ℕ, Bytes, Bool, true, false, not, List, [], ◌∷◌, ◌++◌, Option, none, some, length, ◌==◌, ◌&&◌,
  if◌then◌else◌, Result, ok, err, ◌>>=◌, ◌>>◌, throw_if, Exception, internal,
}
use lance_duckdb.ExprIr.Nodes.{is_empty}
use lance_duckdb.Cache.State.{Entry, CacheState, empty_cache, get, invalidate, expire_after_query}
use lance_duckdb.Cache.Keys.{resolved_path_key, namespace_key}
use lance_duckdb.Cache.World.{Env, NamespaceConfig, Resolved, Table}
use lance_duckdb.Cache.Lookup.{Lookup, after, get_or_open_entry}

abbrev pub or_null : Bytes → Option Bytes
or_null [] = none
or_null (c ∷ s) = some (c ∷ s)

abbrev pub or_empty : Option Bytes → Bytes
or_empty none = []
or_empty (some s) = s

unfoldable pub auth_override_options : Bytes → Bytes → List (Bytes × Bytes)
auth_override_options bearer api_key =
    let keyed =
      if is_empty api_key
      then []
      else (b'a' ∷ b'p' ∷ b'i' ∷ b'_' ∷ b'k' ∷ b'e' ∷ b'y' ∷ [], api_key) ∷ [] in
    if is_empty bearer
    then keyed
    else (
      b'b' ∷ b'e' ∷ b'a' ∷ b'r' ∷ b'e' ∷ b'r' ∷ b'_' ∷ b't' ∷ b'o' ∷ b'k' ∷ b'e' ∷ b'n' ∷ [],
      bearer,
    )
      ∷ keyed

-- make_shared_ptr<LanceDatasetCacheEntry>, unless the dataset is null.
unfoldable pub make_entry : Option ℕ → Bytes → Option Entry
make_entry none display_uri = none
make_entry (some handle) display_uri = some (record { dataset = handle; display_uri = display_uri })

-- The entry, *out_cache_hit and out_display_uri.
pub record Opened : Type 0 where
  pub entry : Option Entry
  pub cache_hit : Option Bool
  pub display_uri : Bytes

unfoldable pub displayed : (Option Entry → Bytes) → Lookup → Result Exception Opened × CacheState
displayed display (ok (entry, hit), s) =
    (ok (record { entry = entry; cache_hit = hit; display_uri = display entry }), s)
displayed display (err x, s) = (err x, s)

abbrev pub uri_or : Bytes → Option Entry → Bytes
uri_or fallback none = fallback
uri_or fallback (some e) = e.display_uri

module _ (env : Env) where
  unfoldable pub path_key : Bytes → Result Exception Bytes
  path_key path = do
    r ← env.resolve_storage_options path
    resolved_path_key env.normalize_path r.open_path r.option_keys r.option_values

  unfoldable pub directory_key : NamespaceConfig → Result Exception Bytes
  directory_key cfg =
      resolved_path_key env.normalize_path (env.directory_dataset_uri cfg) cfg.option_keys
        cfg.option_values

  unfoldable pub open_resolved_path : Bytes → List Bytes → List Bytes → Result Exception (Option ℕ)
  open_resolved_path open_path keys values = do
    env.session
    throw_if (not (length keys == 0) && not (length keys == length values)) internal
    ok (
        if length keys == 0
        then env.open_with_session open_path
        else env.open_with_options open_path keys values)

  unfoldable pub open_namespace_dataset :
      Bytes → Bytes → Bytes → Bytes → Bytes → Bytes → Result Exception (Option ℕ × Bytes)
  open_namespace_dataset endpoint table_id bearer_token api_key delimiter headers_tsv = do
    env.session
    let (handle, uri) =
        env.open_in_namespace endpoint table_id (or_null bearer_token) (or_null api_key)
          (or_null delimiter) (or_null headers_tsv)
    ok (handle, or_empty uri)

  unfoldable pub open_directory_dataset : NamespaceConfig → Result Exception (Option ℕ × Bytes)
  open_directory_dataset cfg = do
    env.session
    throw_if (not (length cfg.option_keys == length cfg.option_values)) internal
    let (handle, uri) =
        env.open_in_directory cfg.root cfg.table_id cfg.option_keys cfg.option_values
    ok (handle, or_empty uri)

  -- The dataset of a path, for a Blob binding or not.
  unfoldable pub open_path_entry : Bytes → Option ℕ → Resolved → Result Exception (Option Entry)
  unfolding open_resolved_path make_entry
  open_path_entry path (some access) r = ok (make_entry (env.open_binding r.open_path access) path)
  open_path_entry path none r = do
    handle ← open_resolved_path r.open_path r.option_keys r.option_values
    ok (make_entry handle path)

  -- LanceGetOrOpenDatasetEntry.
  unfoldable pub get_or_open : CacheState → Bytes → Option ℕ → Lookup
  unfolding after
  get_or_open s path blob_access = after s (env.resolve_storage_options path) λ r.
      after s (resolved_path_key env.normalize_path r.open_path r.option_keys r.option_values)
        λ key. get_or_open_entry s key (open_path_entry path blob_access r)

  unfoldable pub open_namespace_entry :
      Bytes → Bytes → Bytes → Bytes → Bytes → Bytes → Result Exception (Option Entry)
  unfolding open_namespace_dataset make_entry
  open_namespace_entry endpoint table_id bearer_token api_key delimiter headers_tsv = do
    (handle, uri) ←
        open_namespace_dataset endpoint table_id bearer_token api_key delimiter headers_tsv
    ok (make_entry handle (if is_empty uri then endpoint ++ (b'/' ∷ table_id) else uri))

  -- LanceGetOrOpenDatasetEntryInNamespace.
  unfoldable pub get_or_open_in_namespace :
      CacheState
      → Bytes
      → Bytes
      → Bytes
      → Bytes
      → Bytes
      → Bytes
      → Result Exception Opened × CacheState
  get_or_open_in_namespace s endpoint table_id bearer_token api_key delimiter headers_tsv =
      displayed (uri_or []) (
        get_or_open_entry s
          (namespace_key env.hash endpoint table_id bearer_token api_key delimiter headers_tsv)
          (open_namespace_entry endpoint table_id bearer_token api_key delimiter headers_tsv))

  unfoldable pub open_directory_entry : NamespaceConfig → Result Exception (Option Entry)
  unfolding open_directory_dataset make_entry
  open_directory_entry cfg = do
    (handle, uri) ← open_directory_dataset cfg
    ok (
        make_entry handle
          (if is_empty uri then env.directory_dataset_uri cfg else env.normalize_s3_scheme uri))

  unfoldable pub resolve_namespace_auth : NamespaceConfig → Result Exception (Bytes × Bytes)
  unfolding auth_override_options
  resolve_namespace_auth cfg =
      env.resolve_auth cfg.endpoint
        (auth_override_options cfg.bearer_token_override cfg.api_key_override)

  -- The table of a directory namespace, and that of a REST namespace.
  unfoldable pub get_or_open_config :
      CacheState → NamespaceConfig → (is_directory : Bool) → Result Exception Opened × CacheState
  get_or_open_config s cfg true =
      after s (directory_key cfg)
        λ key. displayed (uri_or []) (get_or_open_entry s key (open_directory_entry cfg))
  get_or_open_config s cfg false = after s (resolve_namespace_auth cfg) λ (bearer_token, api_key).
      get_or_open_in_namespace s cfg.endpoint cfg.table_id bearer_token api_key cfg.delimiter
        cfg.headers_tsv

  unfoldable pub get_or_open_table :
      CacheState → Bytes → Option NamespaceConfig → Result Exception Opened × CacheState
  unfolding get_or_open get_or_open_config
  get_or_open_table s uri none = displayed (uri_or uri) (get_or_open s uri none)
  get_or_open_table s uri (some cfg) = get_or_open_config s cfg cfg.is_directory

  -- LanceGetOrOpenDatasetEntryForTable. There is no Blob access, which is the default of the
  -- declaration.
  unfoldable pub get_or_open_for_table : CacheState → Table → Result Exception Opened × CacheState
  unfolding get_or_open_table
  get_or_open_for_table s table = get_or_open_table s table.dataset_uri table.namespace_config

  unfoldable pub key_for_config : NamespaceConfig → (is_directory : Bool) → Result Exception Bytes
  unfolding directory_key
  key_for_config cfg true = directory_key cfg
  key_for_config cfg false = resolve_namespace_auth cfg >>= λ (bearer_token, api_key). ok (
      namespace_key env.hash cfg.endpoint cfg.table_id bearer_token api_key cfg.delimiter
        cfg.headers_tsv)

  unfoldable pub key_of_table : Bytes → Option NamespaceConfig → Result Exception Bytes
  unfolding path_key key_for_config
  key_of_table uri none = path_key uri
  key_of_table uri (some cfg) = key_for_config cfg cfg.is_directory

  -- LanceBuildDatasetCacheKeyForTable.
  unfoldable pub key_for_table : Table → Result Exception Bytes
  unfolding key_of_table
  key_for_table table = key_of_table table.dataset_uri table.namespace_config

  -- LanceInvalidateDatasetCache: there is nothing to do while the context has no cache.
  unfoldable pub invalidate_cache : Option CacheState → Bytes → Option CacheState
  invalidate_cache none key = none
  invalidate_cache (some s) key = some (invalidate s key)

  unfoldable pub invalidate_for_path :
      Option CacheState → Bytes → Result Exception (Option CacheState)
  unfolding path_key invalidate_cache
  invalidate_for_path s path = do key ← path_key path; ok (invalidate_cache s key)

  unfoldable pub invalidate_for_table :
      Option CacheState → Table → Result Exception (Option CacheState)
  unfolding key_for_table invalidate_cache
  invalidate_for_table s table = do key ← key_for_table table; ok (invalidate_cache s key)

  -- GetOrCreateLanceDatasetCacheState.
  abbrev pub get_or_create : Option CacheState → CacheState
  get_or_create none = empty_cache
  get_or_create (some s) = s

  unfoldable pub expire_path_after_query :
      Option CacheState → Bytes → Result Exception (Option CacheState)
  unfolding path_key
  expire_path_after_query s path = do
    key ← path_key path
    ok (some (expire_after_query (get_or_create s) key))
