-- ===== src/Resources/Cache/Subscription/Tests.antt =====
-- Runs of the cache, and the theorems about it at concrete inputs.
use kubepeep.Base.{
  ℕ, ◌+◌, ◌≤◌, ◌<◌, ◌≡◌, refl, false, not, ◌&&◌, some, none, List, [], ◌∷◌, String, arith, leb,
  length, eq_iff, lookup, insert, delete, total,
}
use kubepeep.Resources.Cache.{
  ResourceCache, ResourceCacheConfig, ResourceCacheKey, ResourceCacheEntry, new_resource_cache,
  read, remove_entry_locked,
}
use kubepeep.Resources.Cache.Accounting.{IsAccounted}
use kubepeep.Resources.Cache.Eviction.{evict_for_locked, make_room, previous_bytes, added_entries}
use kubepeep.Resources.Cache.Eviction.Room.{evict_for_room, evict_for_spares}
use kubepeep.Resources.Cache.Subscription.{
  Codec, WatchSnapshot, CacheSubscription, CacheRefreshToken, err, cache_write_fenced,
  generation_changed, subscribe, close, begin_refresh, update_entry, commit_validated, load,
  invalidate_generation, clone_watch_snapshot,
}
use kubepeep.Resources.Cache.Subscription.Calls.{
  Call, subscribes, commits, closes, begins_refresh, evicts_inactive, perform, run,
}
use kubepeep.Resources.Cache.Subscription.Limits.{run_limits}
use kubepeep.Resources.Cache.Subscription.Tokens.{begin_refresh_supersedes}
use kubepeep.Resources.Cache.Subscription.Fencing.{invalidate_generation_fences}
use kubepeep.Resources.Cache.Subscription.Reads.{aged, commit-load}

abbrev numbers : Codec ℕ
numbers = record {
  resource_topic = λ _. "pods";
  encoded_length = λ items. some (length items);
  clone_topic_object = some;
}

abbrev small : ResourceCacheConfig
small = record { max_bytes = 10; max_entries = 2; fresh_for = 5; max_stale = 9 }

abbrev pods_key : ResourceCacheKey
pods_key = record { identity = "a/pods"; generation = "a"; topic = "pods" }

abbrev reader : CacheSubscription
reader = record { key = pods_key; generation_epoch = 0; closed = false }

abbrev token : CacheRefreshToken
token = record { identity = "a/pods"; generation = "a"; generation_epoch = 0; key_epoch = 1 }

abbrev pods : WatchSnapshot ℕ
pods = record { resource_version = "7"; items = 1 ∷ 2 ∷ [] }

abbrev entry : ResourceCacheEntry (WatchSnapshot ℕ)
entry = record {
  key = pods_key;
  snapshot = pods;
  stored_at = 1;
  last_used = 1;
  fresh_until = 6;
  expires_at = 10;
  bytes = 8;
  partial = false;
  refreshing = false;
}

-- One entry that nobody refers to, and a subscription that is about to commit under another key.
abbrev crowded : ResourceCache (WatchSnapshot ℕ)
crowded = record {
  entries = ("a/nodes", entry) ∷ [];
  refs = ("a/pods", 1) ∷ [];
  keys = ("a/pods", pods_key) ∷ [];
  key_epoch = ("a/pods", 1) ∷ [];
  generation_epoch = [];
  invalidated_generation = [];
  bytes = 8;
  evictions = 0;
  invalidations = 0;
  max_bytes = 10;
  max_entries = 2;
  fresh_for = 5;
  max_stale = 9;
}

abbrev calls : List (Call ℕ)
calls = subscribes (some pods_key) ∷ commits 1 reader token pods false ∷ evicts_inactive 20 5 ∷ []

run_limits_example :
    let c = run numbers (new_resource_cache small) calls in
    (c.bytes ≡ total (λ e. e.bytes) c.entries)
    × (c.bytes ≤ c.max_bytes)
    × (length c.entries ≤ c.max_entries)
run_limits_example = run_limits numbers small calls

crowded-IsAccounted : IsAccounted crowded
unfolding lookup
crowded-IsAccounted = record { distinct = (refl, tt); counted = refl }

evicts_the_idle : (make_room 2 "a/pods" 3 crowded).0.entries ≡ []
unfolding evict_for_locked remove_entry_locked lookup delete
evicts_the_idle = refl

evict_for_room_example :
    let c' = (make_room 2 "a/pods" 3 crowded).0 in
    (c'.bytes + 3 ≤ crowded.max_bytes + previous_bytes "a/pods" crowded)
    × (length c'.entries + added_entries "a/pods" crowded ≤ crowded.max_entries)
unfolding evict_for_locked remove_entry_locked lookup delete
evict_for_room_example = evict_for_room 2 "a/pods" 3 crowded crowded-IsAccounted refl

evict_for_spares_example :
    let (c', done) = make_room 2 "a/pods" 3 crowded in
    ((k : String) → 0 < read k crowded.refs → lookup k c'.entries ≡ lookup k crowded.entries)
    × (lookup "a/pods" c'.entries ≡ lookup "a/pods" crowded.entries)
    × (done ≡ false → c' ≡ crowded)
evict_for_spares_example = evict_for_spares 2 "a/pods" 3 crowded crowded-IsAccounted

abbrev second : CacheRefreshToken
second = record { identity = "a/pods"; generation = "a"; generation_epoch = 0; key_epoch = 3 }

abbrev first : CacheRefreshToken
first = record { identity = "a/pods"; generation = "a"; generation_epoch = 0; key_epoch = 2 }

-- Another subscription to the key comes and goes between the two refreshes.
abbrev comes_and_goes : List (Call ℕ)
comes_and_goes = subscribes (some pods_key) ∷ closes reader ∷ []

begin_refresh_supersedes_example :
    let c₁ = (begin_refresh 2 reader crowded).0 in
    let e =
      run numbers
        (run numbers c₁ comes_and_goes)
        (begins_refresh 3 reader ∷ subscribes (some pods_key) ∷ []) in
    commit_validated 4 reader first pods 3 false e ≡ (e, err cache_write_fenced)
unfolding begin_refresh update_entry lookup insert run perform subscribe close
begin_refresh_supersedes_example =
    begin_refresh_supersedes numbers 2 3 4 reader reader reader crowded comes_and_goes
      (subscribes (some pods_key) ∷ []) first second pods 3 false refl (omega arith)
      (tt, omega arith, ((λ a b. omega arith), omega arith, tt)) refl refl
      (tt, omega arith, (tt, omega arith, tt))

invalidate_generation_fences_example :
    let d = run numbers (invalidate_generation "a" crowded) calls in
    (subscribe (some pods_key) d ≡ (d, err generation_changed))
    × (load numbers 3 reader d ≡ (d, none))
    × (begin_refresh 3 reader d ≡ (d, err cache_write_fenced))
    × (commit_validated 3 reader token pods 3 false d ≡ (d, err cache_write_fenced))
invalidate_generation_fences_example =
    invalidate_generation_fences numbers "a" crowded calls 3 pods_key reader token pods 3 false
      (λ e. ground (arith, eq_iff "a" "")) refl refl

commit-load_example :
    let d = (commit_validated 2 reader token pods 3 false crowded).0 in
    (load numbers 4 reader d).1
    ≡ some (record {
      snapshot = pods;
      cache_state = aged d.fresh_for d.max_stale 2 4 false;
      stored_at = 2;
      last_used = 4;
      bytes = 3;
      ref_count = read "a/pods" d.refs;
      complete = not false && not (leb (2 + d.max_stale) 4);
    })
unfolding commit_validated evict_for_locked remove_entry_locked lookup delete clone_watch_snapshot
commit-load_example =
    commit-load numbers 2 4 reader reader token pods pods 3 false crowded refl refl refl refl refl
