-- ===== src/Tests/Cache.antt =====
-- The dataset cache, with a world in which every path opens to the same handle.
use lance_duckdb.Common.{
  ◌≡◌, ◌≢◌, refl, Bytes, true, false, [], ◌∷◌, none, some, Result, Exception, ok, length, bytes_eq,
  if◌then◌else◌,
}
use lance_duckdb.Cache.State.{
  Entry, CacheState, empty_cache, find, erase, get, put_or_get_existing, invalidate, member,
  query_end,
}
use lance_duckdb.Cache.State.Laws.{find-query_end, put-put}
use lance_duckdb.Cache.Keys.{
  decimal_from, to_string, append_key_part, append_key_number, append_options, fingerprint_key_part,
  resolved_path_key, namespace_key,
}
use lance_duckdb.Cache.Keys.Distinct.{
  resolved_path_key-injective, namespace_key-injective, resolved_path_key-namespace_key,
}
use lance_duckdb.Cache.Open.{
  Opened, make_entry, displayed, path_key, open_resolved_path, open_path_entry, get_or_open,
  get_or_open_table, get_or_open_for_table, key_of_table, key_for_table, invalidate_cache,
  invalidate_for_table,
}
use lance_duckdb.Cache.Lookup.{put_opened, found_or_opened, get_or_open_entry, after}
use lance_duckdb.Cache.World.{Table, Env}
use lance_duckdb.Cache.Open.Laws.{
  hit_of, get_or_open_for_table-invalidate_for_table, get_or_open_for_table-again,
}

abbrev a : Bytes
a = b'a' ∷ []

abbrev b : Bytes
b = b'b' ∷ []

abbrev first : Entry
first = record { dataset = 1; display_uri = a }

abbrev second : Entry
second = record { dataset = 2; display_uri = b }

abbrev both : CacheState
both = record {
  entries = (a, first) ∷ (b, second) ∷ [];
  expire_after = b ∷ [];
  query_hits = 3;
  query_misses = 4;
}

find-query_end_example :
    (find (query_end both).entries b
      ≡ (if member b both.expire_after then none else find both.entries b))
    × ((query_end both).expire_after ≡ [])
find-query_end_example = find-query_end both b

put-put_example :
    (put_or_get_existing (put_or_get_existing empty_cache a first).1 a second
      ≡ put_or_get_existing empty_cache a first)
    × ((get (put_or_get_existing empty_cache a first).1 a).0
        ≡ some (put_or_get_existing empty_cache a first).0)
put-put_example = put-put empty_cache a first second

-- path|1:a;1:1;1:b;1:a;
abbrev a_key : Bytes
a_key =
    b'p' ∷ b'a' ∷ b't' ∷ b'h' ∷ b'|' ∷ b'1' ∷ b':' ∷ b'a' ∷ b';' ∷ b'1' ∷ b':' ∷ b'1' ∷ b';' ∷ b'1'
    ∷ b':' ∷ b'b' ∷ b';' ∷ b'1' ∷ b':' ∷ b'a' ∷ b';' ∷ []

-- A path that is normal as it is.
abbrev accept : Bytes → Result Exception Bytes
accept p = ok p

a_key_built : resolved_path_key accept a (b ∷ []) (a ∷ []) ≡ ok a_key
unfolding resolved_path_key append_key_part append_key_number append_options to_string decimal_from
a_key_built = refl

resolved_path_key-injective_example : (accept a ≡ accept a) × (b ∷ [] ≡ b ∷ []) × (a ∷ [] ≡ a ∷ [])
resolved_path_key-injective_example =
    resolved_path_key-injective accept a a (b ∷ []) (a ∷ []) (b ∷ []) (a ∷ []) a_key_built
      a_key_built

namespace_key-injective_example :
    (a ≡ a)
    × (b ≡ b)
    × (length a ≡ length b)
    × (length b ≡ length a)
    × (a ≡ a)
    × (length a ≡ length a)
unfolding namespace_key fingerprint_key_part
namespace_key-injective_example =
    namespace_key-injective (λ s. length s) a b a b a a a b b a a a refl

resolved_path_key-namespace_key_example :
    resolved_path_key accept a [] [] ≢ ok (namespace_key (λ s. length s) a b a b [] a)
resolved_path_key-namespace_key_example =
    resolved_path_key-namespace_key accept (λ s. length s) a [] [] a b a b [] a

abbrev world : Env
world = record {
  hash = λ s. length s;
  session = ok tt;
  normalize_path = λ p. ok p;
  normalize_s3_scheme = λ s. s;
  directory_dataset_uri = λ c. c.root;
  resolve_storage_options =
      λ p. ok (record { open_path = p; option_keys = []; option_values = [] });
  resolve_auth = λ e os. ok ([], []);
  open_with_session = λ p. some 7;
  open_with_options = λ p ks vs. some 8;
  open_binding = λ p x. none;
  open_in_namespace = λ e t x y z w. (none, none);
  open_in_directory = λ r t ks vs. (none, none);
}

abbrev table : Table
table = record { dataset_uri = a; namespace_config = none }

abbrev table_key : Bytes
table_key =
    b'p' ∷ b'a' ∷ b't' ∷ b'h' ∷ b'|' ∷ b'1' ∷ b':' ∷ b'a' ∷ b';' ∷ b'1' ∷ b':' ∷ b'0' ∷ b';' ∷ []

keyed : key_for_table world table ≡ ok table_key
unfolding key_for_table key_of_table path_key resolved_path_key append_key_part append_key_number
    append_options to_string decimal_from
keyed = refl

abbrev held : CacheState
held = record {
  entries = (table_key, first) ∷ [];
  expire_after = [];
  query_hits = 0;
  query_misses = 0;
}

invalidated : invalidate_for_table world (some held) table ≡ ok (some empty_cache)
unfolding invalidate_for_table invalidate_cache invalidate erase bytes_eq key_for_table key_of_table
    path_key resolved_path_key append_key_part append_key_number append_options to_string
    decimal_from
invalidated = refl

get_or_open_for_table-invalidate_for_table_example :
    hit_of (get_or_open_for_table world empty_cache table) ≢ some true
get_or_open_for_table-invalidate_for_table_example =
    get_or_open_for_table-invalidate_for_table world held empty_cache table invalidated

abbrev seven : Entry
seven = record { dataset = 7; display_uri = a }

opened_once :
    (get_or_open_for_table world empty_cache table).0
    ≡ ok (record { entry = some seven; cache_hit = some false; display_uri = a })
unfolding get_or_open_for_table get_or_open_table get_or_open after displayed get_or_open_entry
    found_or_opened put_opened get put_or_get_existing find open_path_entry open_resolved_path
    make_entry resolved_path_key append_key_part append_key_number append_options to_string
    decimal_from
opened_once = refl

get_or_open_for_table-again_example :
    (again : Opened) × ((get_or_open_for_table world
        (get_or_open_for_table world empty_cache table).1
        table).0
      ≡ ok again)
    × (again.entry ≡ some seven)
    × (again.cache_hit ≡ some true)
get_or_open_for_table-again_example =
    get_or_open_for_table-again world empty_cache table keyed opened_once refl
