-- ===== src/Resources/Cache/Eviction.antt =====
-- The eviction of internal/services/resources/cache.go: which entries make room for a new one.
pub mod Room
use kubepeep.Base.{
  ℕ, ◌+◌, ◌-◌, String, str_eq, Bool, true, false, not, ◌&&◌, ◌||◌, Option, none, some, List, [],
  ◌∷◌, leb, ltb, ◌==◌, if◌then◌else◌, length, Dict, lookup, size_or_zero,
}
use kubepeep.Resources.Cache.{ResourceCache, ResourceCacheEntry, read, is_some, remove_entry_locked}

-- What `evictForLocked` may evict, in the order in which the loops take it.
pub record Candidate : Type 0 where
  pub identity : String
  pub expired : Bool
  pub last_used : ℕ

comes_before : Candidate → Candidate → Bool
comes_before x y =
    if x.expired
    then (if y.expired then ltb x.last_used y.last_used else true)
    else if y.expired
    then false
    else ltb x.last_used y.last_used

-- `sort.Slice`. Ties keep the order of the map, which is arbitrary.
insert_sorted : Candidate → List Candidate → List Candidate
unfolding comes_before
insert_sorted x [] = x ∷ []
insert_sorted x (y ∷ ys) = if comes_before y x then y ∷ insert_sorted x ys else x ∷ y ∷ ys

pub sort_candidates : List Candidate → List Candidate
unfolding insert_sorted
sort_candidates [] = []
sort_candidates (x ∷ xs) = insert_sorted x (sort_candidates xs)

module _ {ℓ} {S : Type ℓ} where
  pub candidates : ℕ → String → Dict ℕ → Dict (ResourceCacheEntry S) → List Candidate
  candidates now exclude refs [] = []
  candidates now exclude refs ((identity, entry) ∷ m) =
      let rest = candidates now exclude refs m in
      if str_eq identity exclude || ltb 0 (read identity refs)
      then rest
      else record {
        identity = identity;
        expired = leb entry.expires_at now;
        last_used = entry.last_used;
      }
        ∷ rest

  -- The size of the entry under a key, 0 if there is none.
  abbrev pub entry_bytes : Option (ResourceCacheEntry S) → ℕ
  entry_bytes = size_or_zero (λ e. e.bytes)

  abbrev pub fits : ResourceCache S → ℕ → ℕ → Bool
  fits cache bytes entries = leb bytes cache.max_bytes && leb entries cache.max_entries

  -- The dry run: what would be left after evicting candidates until the rest fits. The truncated
  -- differences compare with the limits as the signed ones do.
  available : ResourceCache S → List Candidate → ℕ → ℕ → ℕ × ℕ
  available cache [] bytes entries = (bytes, entries)
  available cache (x ∷ xs) bytes entries =
      let bytes' = bytes - entry_bytes (lookup x.identity cache.entries) in
      let entries' = entries - 1 in
      let rest = available cache xs bytes' entries' in
      if fits cache bytes' entries' then (bytes', entries') else rest

  unfoldable pub evict_until : ResourceCache S → List Candidate → ℕ → ℕ → ResourceCache S × Bool
  evict_until cache [] bytes entries = (cache, false)
  evict_until cache (x ∷ xs) bytes entries =
      let bytes' = bytes - entry_bytes (lookup x.identity cache.entries) in
      let entries' = entries - 1 in
      let cache' = remove_entry_locked x.identity true cache in
      let rest = evict_until cache' xs bytes' entries' in
      if fits cache bytes' entries' then (cache', true) else rest

  evict_candidates : ResourceCache S → List Candidate → ℕ → ℕ → ResourceCache S × Bool
  unfolding available evict_until
  evict_candidates cache cs bytes entries =
      let left = available cache cs bytes entries in
      if fits cache left.0 left.1 then evict_until cache cs bytes entries else (cache, false)

  -- `additionalBytes` is `size - previous`, which may be negative; `previous` is part of
  -- `cache.bytes`, so the sum is exact.
  unfoldable pub evict_for_locked :
      ℕ → String → ℕ → ℕ → Bool → ResourceCache S → ResourceCache S × Bool
  unfolding evict_candidates sort_candidates candidates
  evict_for_locked now exclude size previous additional_entry cache =
      let bytes = cache.bytes + size - previous in
      let entries = length cache.entries + (if additional_entry then 1 else 0) in
      if fits cache bytes entries
      then (cache, true)
      else evict_candidates cache
          (sort_candidates (candidates now exclude cache.refs cache.entries)) bytes entries

  -- The sizes of the entry that a key has, and of one more entry if it has none.
  abbrev pub previous_bytes : String → ResourceCache S → ℕ
  previous_bytes identity cache = entry_bytes (lookup identity cache.entries)

  abbrev pub added_entries : String → ResourceCache S → ℕ
  added_entries identity cache = if is_some (lookup identity cache.entries) then 0 else 1

  -- The call that `Commit` makes.
  abbrev pub make_room : ℕ → String → ℕ → ResourceCache S → ResourceCache S × Bool
  make_room now identity size cache =
      evict_for_locked now identity size (previous_bytes identity cache)
        (not (is_some (lookup identity cache.entries))) cache
