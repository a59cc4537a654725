-- ===== src/Cache/Lookup.antt =====
-- src/lance_dataset_cache.cpp, GetOrOpenDatasetCacheEntry: the cache is asked first. The model runs it
-- by itself: no other thread of the client context comes between its Get and its Put (State.Laws is
-- about that).
use lance_duckdb.Common.{Bytes, Bool, true, false, Option, none, some, Result, ok, err, Exception}
use lance_duckdb.Cache.State.{Entry, CacheState, get, put_or_get_existing}

-- What *out_cache_hit is set to, if it is set.
abbrev pub Lookup : Type 0
Lookup = Result Exception (Option Entry × Option Bool) × CacheState

-- GetOrOpenDatasetCacheEntry, from the call of open_dataset on.
unfoldable pub put_opened : CacheState → Bytes → Result Exception (Option Entry) → Lookup
put_opened s key (err x) = (err x, s)
put_opened s key (ok none) = (ok (none, none), s)
put_opened s key (ok (some opened)) =
    let kept = put_or_get_existing s key opened in (ok (some kept.0, some false), kept.1)

unfoldable pub found_or_opened :
    Bytes → Result Exception (Option Entry) → Option Entry × CacheState → Lookup
unfolding put_opened
found_or_opened key open_dataset (some e, s) = (ok (some e, some true), s)
found_or_opened key open_dataset (none, s) = put_opened s key open_dataset

-- GetOrOpenDatasetCacheEntry.
unfoldable pub get_or_open_entry : CacheState → Bytes → Result Exception (Option Entry) → Lookup
unfolding found_or_opened
get_or_open_entry s key open_dataset = found_or_opened key open_dataset (get s key)

-- An exception thrown before the cache is asked.
unfoldable pub after {ℓ} :
    {A : Type ℓ} {B : Type 0}
    → CacheState
    → Result Exception A
    → (A → Result Exception B × CacheState)
    → Result Exception B × CacheState
after s (ok a) f = f a
after s (err x) f = (err x, s)
