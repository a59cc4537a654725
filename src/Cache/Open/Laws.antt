-- ===== src/Cache/Open/Laws.antt =====
-- Opening a table goes through the entry of the table's key, so that invalidation reaches it.
use lance_duckdb.Common.{
  ◌≡◌, ◌≢◌, refl, sym, ap, ◌∙◌, Bytes, [], Bool, true, false, Option, none, some, Result, ok, err,
  >>=-eq-ok, ok-injective, Exception, bytes_eq_refl, Option-cases, inl, inr, suc,
}
use mathlib.Core.Option.{some-injective}
use lance_duckdb.Cache.State.{Entry, CacheState, find, invalidate}
use lance_duckdb.Cache.State.Laws.{find-erase, find-put, get_found, get_missed}
use lance_duckdb.Cache.Open.{
  Opened, displayed, uri_or, path_key, open_path_entry, get_or_open, open_namespace_entry,
  get_or_open_in_namespace, open_directory_entry, resolve_namespace_auth, get_or_open_for_table,
  key_for_table, get_or_open_config, get_or_open_table, key_for_config, key_of_table,
  invalidate_cache, invalidate_for_table,
}
use lance_duckdb.Cache.Lookup.{Lookup, put_opened, found_or_opened, get_or_open_entry, after}
use lance_duckdb.Cache.World.{NamespaceConfig, Table, Env}

module _ (env : Env) (s : CacheState) where
  -- An opening of the entry of a key, with the URI that is shown for it.
  abbrev Through : Bytes → Result Exception Opened × CacheState → Type 0
  Through key r =
      (display : Option Entry → Bytes) × (opening : Result Exception (Option Entry)) × (r
        ≡ displayed display (get_or_open_entry s key opening))

  config-Through :
      (cfg : NamespaceConfig) (is_directory : Bool) {key : Bytes}
      → key_for_config env cfg is_directory ≡ ok key
      → Through key (get_or_open_config env s cfg is_directory)
  unfolding key_for_config get_or_open_config get_or_open_in_namespace after
  config-Through cfg true h = (uri_or [], open_directory_entry env cfg, rw h)
  config-Through cfg false h =
      let ((bearer_token, api_key), authorised, e) =
        >>=-eq-ok (resolve_namespace_auth env cfg) _ h in
      (
        uri_or [],
        open_namespace_entry env cfg.endpoint cfg.table_id bearer_token api_key cfg.delimiter
            cfg.headers_tsv,
        rw (authorised, ← ok-injective e),
      )

  table-Through :
      (uri : Bytes) (config : Option NamespaceConfig) {key : Bytes}
      → key_of_table env uri config ≡ ok key
      → Through key (get_or_open_table env s uri config)
  unfolding key_of_table path_key get_or_open_table get_or_open after
  table-Through uri none h =
      let (r, resolved, keyed) = >>=-eq-ok (env.resolve_storage_options uri) _ h in
      (uri_or uri, open_path_entry env uri none r, rw (resolved, keyed))
  table-Through uri (some cfg) h = config-Through cfg cfg.is_directory h

entry_missed :
    (s : CacheState) (key : Bytes) (o : Result Exception (Option Entry))
    → find s.entries key ≡ none
    → get_or_open_entry s key o ≡ put_opened (record s { query_misses = suc s.query_misses }) key o
unfolding get_or_open_entry found_or_opened
entry_missed s key o e = ap (found_or_opened key o) (get_missed s key e)

entry_found :
    (s : CacheState) (key : Bytes) (o : Result Exception (Option Entry)) {x : Entry}
    → find s.entries key ≡ some x
    → get_or_open_entry s key o
      ≡ (ok (some x, some true), record s { query_hits = suc s.query_hits })
unfolding get_or_open_entry found_or_opened
entry_found s key o e = ap (found_or_opened key o) (get_found s key e)

-- Whether an opening that came through was a hit.
unfoldable pub hit_of : Result Exception Opened × CacheState → Option Bool
hit_of (ok o, s) = o.cache_hit
hit_of (err x, s) = none

put_opened-hit :
    (s : CacheState) (key : Bytes) (display : Option Entry → Bytes)
    (o : Result Exception (Option Entry))
    → hit_of (displayed display (put_opened s key o)) ≢ some true
unfolding hit_of displayed put_opened
put_opened-hit s key display (err x) h = cc
put_opened-hit s key display (ok none) h = cc
put_opened-hit s key display (ok (some e)) h = cc

-- After the cache has been invalidated for a table, opening the table is no hit: what it answers was
-- opened afresh, or it throws.
pub get_or_open_for_table-invalidate_for_table :
    (env : Env) (s s' : CacheState) (table : Table)
    → invalidate_for_table env (some s) table ≡ ok (some s')
    → hit_of (get_or_open_for_table env s' table) ≢ some true
unfolding invalidate_for_table invalidate_cache key_for_table get_or_open_for_table invalidate
get_or_open_for_table-invalidate_for_table env s s' table h hit =
    let (key, keyed, e) = >>=-eq-ok (key_for_table env table) _ h in
    let same : invalidate s key ≡ s' = some-injective _ _ (ok-injective e) in
    let gone : find s'.entries key ≡ none =
      rw (← same) (find-erase key key s.entries ∙ rw (bytes_eq_refl key)) in
    let (display, opening, through) =
      table-Through env s' table.dataset_uri table.namespace_config keyed in
    put_opened-hit (record s' { query_misses = suc s'.query_misses }) key display opening
      (ap (λ r. hit_of (displayed display r)) (sym (entry_missed s' key opening gone))
        ∙ ap hit_of (sym through)
        ∙ hit)

-- What a lookup answers stands in the cache.
kept_entry :
    (s : CacheState) (key : Bytes) (o : Result Exception (Option Entry)) {x : Entry}
    {hit : Option Bool}
    → (get_or_open_entry s key o).0 ≡ ok (some x, hit)
    → find (get_or_open_entry s key o).1.entries key ≡ some x
unfolding put_opened
kept_entry s key o {x} {hit} h = elim (Option-cases (find s.entries key)) [
  | inl e ↦ rw (entry_missed s key o e) (kept_opening o (rw (entry_missed s key o e) at h))
  | inr (y, e) ↦
      let first : ok (some y, some true) ≡ ok (some x, hit) = rw (entry_found s key o e) at h in
      rw (entry_found s key o e)
        (e ∙ ap (λ (r : Option Entry × Option Bool). r.0) (ok-injective first))
]
  where
    after_miss : CacheState
    after_miss = record s { query_misses = suc s.query_misses }

    kept_opening :
        (o : Result Exception (Option Entry))
        → (put_opened after_miss key o).0 ≡ ok (some x, hit)
        → find (put_opened after_miss key o).1.entries key ≡ some x
    kept_opening (err y) h = cc
    kept_opening (ok none) h = cc
    kept_opening (ok (some y)) h =
        find-put after_miss key y ∙ ap (λ (r : Option Entry × Option Bool). r.0) (ok-injective h)

displayed_state : (d : Option Entry → Bytes) (l : Lookup) → (displayed d l).1 ≡ l.1
unfolding displayed
displayed_state d (ok (e, hit), s) = refl
displayed_state d (err y, s) = refl

displayed_entry :
    (d : Option Entry → Bytes) (l : Lookup) {o : Opened} {x : Entry}
    → (displayed d l).0 ≡ ok o
    → o.entry ≡ some x
    → (hit : Option Bool) × (l.0 ≡ ok (some x, hit))
unfolding displayed
displayed_entry d (ok (e, hit), s) h there = (
  hit,
  ap (λ (t : Option Entry). ok (t, hit)) (ap (λ (r : Opened). r.entry) (ok-injective h) ∙ there),
)
displayed_entry d (err y, s) h there = cc

-- A table that was opened is in the cache: opening it again, whatever it would be opened to by then,
-- is a hit, and answers the same entry.
pub get_or_open_for_table-again :
    (env : Env) (s : CacheState) (table : Table) {key : Bytes} {x : Entry} {o : Opened}
    → key_for_table env table ≡ ok key
    → (get_or_open_for_table env s table).0 ≡ ok o
    → o.entry ≡ some x
    → (again : Opened) × ((get_or_open_for_table env (get_or_open_for_table env s table).1 table).0
        ≡ ok again)
      × (again.entry ≡ some x)
      × (again.cache_hit ≡ some true)
unfolding key_for_table get_or_open_for_table displayed
get_or_open_for_table-again env s table {key} {x} keyed opened there =
    let s₁ = (get_or_open_for_table env s table).1 in
    let (display, opening, through) =
      table-Through env s table.dataset_uri table.namespace_config keyed in
    let (display', opening', through') =
      table-Through env s₁ table.dataset_uri table.namespace_config keyed in
    let l = get_or_open_entry s key opening in
    let first = ap (λ (r : Result Exception Opened × CacheState). r.0) (sym through) ∙ opened in
    let (hit, looked) = displayed_entry display l first there in
    let same_state : s₁ ≡ l.1 =
      ap (λ (r : Result Exception Opened × CacheState). r.1) through ∙ displayed_state display l in
    let stands : find s₁.entries key ≡ some x =
      ap (λ (t : CacheState). find t.entries key) same_state ∙ kept_entry s key opening looked in
    let found = through' ∙ ap (displayed display') (entry_found s₁ key opening' stands) in
    (
      record { entry = some x; cache_hit = some true; display_uri = display' (some x) },
      ap (λ (r : Result Exception Opened × CacheState). r.0) found,
      refl,
      refl,
    )
