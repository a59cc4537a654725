-- ===== src/Cache/State/Laws.antt =====
-- The cache as a map from keys to entries.
use lance_duckdb.Common.{
  ◌≡◌, refl, ap, ◌∙◌, inl, inr, Bytes, Bool, true, false, List, [], ◌∷◌, Option, none, some,
  bytes_eq, bytes_eq_refl, bytes_eq_eq, if◌then◌else◌, Bool-cases, Option-cases, suc,
}
use lance_duckdb.Cache.State.{
  Entry, CacheState, find, erase, get, put_or_get_existing, member, erase_all, query_end,
}

differ : (a b : Bytes) → bytes_eq a b ≡ false → bytes_eq b a ≡ false
differ a b h = elim (Bool-cases (bytes_eq b a)) [
  | inl e ↦ cc (h, bytes_eq_eq b a e, bytes_eq_refl a)
  | inr e ↦ e
]

either_none : (b : Bool) → ◌≡◌ {A = Option Entry} (if b then none else none) none
either_none true = refl
either_none false = refl

pub find-erase :
    (key j : Bytes) (es : List (Bytes × Entry))
    → find (erase key es) j ≡ (if bytes_eq key j then none else find es j)
unfolding find erase
find-erase key j [] = elim (Bool-cases (bytes_eq key j)) [ inl e ↦ rw e | inr e ↦ rw e ]
find-erase key j ((k, x) ∷ es) = elim (Bool-cases (bytes_eq k key)) [
  | inl here ↦ elim (Bool-cases (bytes_eq key j)) [
    | inl e ↦ rw (here, e) (find-erase key j es ∙ rw e)
    | inr e ↦
        let other : bytes_eq k j ≡ false = rw (bytes_eq_eq k key here) e in
        rw (here, e, other) (find-erase key j es ∙ rw e)
  ]
  | inr away ↦ elim (Bool-cases (bytes_eq k j)) [
    | inl e ↦
        let other : bytes_eq key j ≡ false = differ j key (rw (bytes_eq_eq k j e) at away) in
        rw (away, e, other)
    | inr e ↦ rw (away, e) (find-erase key j es)
  ]
]

find-erase_all :
    (ks : List Bytes) (es : List (Bytes × Entry)) (j : Bytes)
    → find (erase_all ks es) j ≡ (if member j ks then none else find es j)
unfolding erase_all member
find-erase_all [] es j = refl
find-erase_all (k ∷ ks) es j = elim (Bool-cases (bytes_eq k j)) [
  | inl e ↦
      rw e
        (find-erase_all ks (erase k es) j ∙ rw (find-erase k j es, e) (either_none (member j ks)))
  | inr e ↦ rw e (find-erase_all ks (erase k es) j ∙ rw (find-erase k j es, e))
]

-- At the end of a query, the keys that were to expire are gone, every other key has the entry that it
-- had, and no key is left to expire.
pub find-query_end :
    (s : CacheState) (key : Bytes)
    → (find (query_end s).entries key
        ≡ (if member key s.expire_after then none else find s.entries key))
      × ((query_end s).expire_after ≡ [])
unfolding query_end
find-query_end s key = (find-erase_all s.expire_after s.entries key, refl)

pub put_found :
    (s : CacheState) (key : Bytes) (entry : Entry) {x : Entry}
    → find s.entries key ≡ some x
    → put_or_get_existing s key entry ≡ (x, s)
unfolding put_or_get_existing
put_found s key entry e = rw (e, put_or_get_existing)

pub put_new :
    (s : CacheState) (key : Bytes) (entry : Entry)
    → find s.entries key ≡ none
    → put_or_get_existing s key entry ≡ (entry, record s { entries = (key, entry) ∷ s.entries })
unfolding put_or_get_existing
put_new s key entry e = rw (e, put_or_get_existing)

pub find-put :
    (s : CacheState) (key : Bytes) (entry : Entry)
    → find (put_or_get_existing s key entry).1.entries key
      ≡ some (put_or_get_existing s key entry).0
unfolding find
find-put s key entry = elim (Option-cases (find s.entries key)) [
  | inl e ↦ rw (put_new s key entry e) (rw (bytes_eq_refl key))
  | inr (x, e) ↦ rw (put_found s key entry e) e
]

pub get_found :
    (s : CacheState) (key : Bytes) {x : Entry}
    → find s.entries key ≡ some x
    → get s key ≡ (some x, record s { query_hits = suc s.query_hits })
unfolding get
get_found s key e = rw (e, get)

pub get_missed :
    (s : CacheState) (key : Bytes)
    → find s.entries key ≡ none
    → get s key ≡ (none, record s { query_misses = suc s.query_misses })
unfolding get
get_missed s key e = rw (e, get)

-- Of two threads that opened a dataset for the same key, the second to put its entry gets that of the
-- first, and leaves the cache as the first did; and this is what a lookup then finds and counts as a
-- hit.
pub put-put :
    (s : CacheState) (key : Bytes) (a b : Entry)
    → (put_or_get_existing (put_or_get_existing s key a).1 key b ≡ put_or_get_existing s key a)
      × ((get (put_or_get_existing s key a).1 key).0 ≡ some (put_or_get_existing s key a).0)
put-put s key a b = (
  put_found (put_or_get_existing s key a).1 key b (find-put s key a),
  ap (λ (r : Option Entry × CacheState). r.0)
      (get_found (put_or_get_existing s key a).1 key (find-put s key a)),
)
