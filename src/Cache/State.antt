-- ===== src/Cache/State.antt =====
-- src/lance_dataset_cache.cpp, LanceDatasetCacheState: one of it for each client context, behind a
-- lock, so that each operation is one step on the state. The hash map is a list of its entries, with
-- the new ones in front, and the hash set of keys is a list.
pub mod Laws
use lance_duckdb.Common.{
  ℕ, suc, Bytes, Bool, true, false, List, [], ◌∷◌, Option, none, some, bytes_eq, if◌then◌else◌,
  length,
}

-- LanceDatasetCacheEntry: the handle of the dataset, and what it is called where it is shown.
pub record Entry : Type 0 where
  pub dataset : ℕ
  pub display_uri : Bytes

pub record CacheState : Type 0 where
  pub entries : List (Bytes × Entry)
  pub expire_after : List Bytes
  pub query_hits : ℕ
  pub query_misses : ℕ

abbrev pub empty_cache : CacheState
empty_cache = record { entries = []; expire_after = []; query_hits = 0; query_misses = 0 }

unfoldable pub find : List (Bytes × Entry) → Bytes → Option Entry
find [] key = none
find ((k, e) ∷ es) key = if bytes_eq k key then some e else find es key

unfoldable pub erase : Bytes → List (Bytes × Entry) → List (Bytes × Entry)
erase key [] = []
erase key ((k, e) ∷ es) = let rest = erase key es in if bytes_eq k key then rest else (k, e) ∷ rest

-- Get: the entry, and the count of hits or of misses.
unfoldable pub get : CacheState → Bytes → Option Entry × CacheState
get s key = elim (find s.entries key) [
  | none ↦ (none, record s { query_misses = suc s.query_misses })
  | some e ↦ (some e, record s { query_hits = suc s.query_hits })
]

unfoldable pub put_or_get_existing : CacheState → Bytes → Entry → Entry × CacheState
put_or_get_existing s key entry = elim (find s.entries key) [
  | some existing ↦ (existing, s)
  | none ↦ (entry, record s { entries = (key, entry) ∷ s.entries })
]

unfoldable pub invalidate : CacheState → Bytes → CacheState
invalidate s key = record s { entries = erase key s.entries }

unfoldable pub member : Bytes → List Bytes → Bool
member key [] = false
member key (k ∷ ks) = if bytes_eq k key then true else member key ks

unfoldable pub expire_after_query : CacheState → Bytes → CacheState
expire_after_query s key =
    if member key s.expire_after then s else record s { expire_after = key ∷ s.expire_after }

-- `for (const auto &key : expire_after_query) entries.erase(key);`
unfoldable pub erase_all : List Bytes → List (Bytes × Entry) → List (Bytes × Entry)
erase_all [] es = es
erase_all (k ∷ ks) es = erase_all ks (erase k es)

unfoldable pub query_end : CacheState → CacheState
query_end s = record s { entries = erase_all s.expire_after s.entries; expire_after = [] }

unfoldable pub query_begin : CacheState → CacheState
query_begin s = record s { query_hits = 0; query_misses = 0 }

-- The three numbers of WriteProfilingInformation.
unfoldable pub profiling_information : CacheState → ℕ × ℕ × ℕ
profiling_information s = (length s.entries, s.query_hits, s.query_misses)
