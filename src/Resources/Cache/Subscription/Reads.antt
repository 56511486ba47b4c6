-- ===== src/Resources/Cache/Subscription/Reads.antt =====
-- What a load of internal/services/resources/cache.go finds after a commit, and how it ages.
use kubepeep.Base.{
  ℕ, ◌+◌, ◌≡◌, Bool, true, false, not, ◌&&◌, some, arith, lookup, lookup-insert_self, if◌then◌else◌,
  leb,
}
use kubepeep.Resources.Cache.{
  ResourceCache, ResourceCacheEntry, CacheState, cache_state_fresh, cache_state_stale,
  cache_state_partial, cache_state_expired, read, state,
}
use kubepeep.Resources.Cache.Eviction.{make_room}
use kubepeep.Resources.Cache.Subscription.{
  Codec, WatchSnapshot, CacheSubscription, CacheRefreshToken, ok, store, commit_validated,
  clone_watch_snapshot, current_locked, load,
}

-- The state that a snapshot committed at `now` has at a later time, until it is refreshed or marked.
abbrev pub aged : ℕ → ℕ → ℕ → ℕ → Bool → CacheState
aged fresh_for max_stale now later partial =
    if leb (now + max_stale) later
    then cache_state_expired
    else if partial
    then cache_state_partial
    else if leb (now + fresh_for) later
    then cache_state_stale
    else cache_state_fresh

module _ {ℓ} {S : Type ℓ} where
  committed_entry : ℕ → CacheSubscription → S → ℕ → Bool → ResourceCache S → ResourceCacheEntry S
  committed_entry now s snapshot size partial c = record {
    key = s.key;
    snapshot = snapshot;
    stored_at = now;
    last_used = now;
    fresh_until = now + c.fresh_for;
    expires_at = now + c.max_stale;
    bytes = size;
    partial = partial;
    refreshing = false;
  }

  store-lookup :
      (now : ℕ) (s : CacheSubscription) (snapshot : S) (size : ℕ) (partial : Bool)
      (c : ResourceCache S) (done : Bool)
      → let (d, r) = store now s snapshot size partial (c, done) in
        r ≡ ok tt
        → (lookup s.key.identity d.entries ≡ some (committed_entry now s snapshot size partial d))
  unfolding store committed_entry
  store-lookup now s snapshot size partial c false h = cc
  store-lookup now s snapshot size partial c true h =
      lookup-insert_self s.key.identity (committed_entry now s snapshot size partial c) c.entries

  commit-lookup :
      (now : ℕ) (s : CacheSubscription) (t : CacheRefreshToken) (snapshot : S) (size : ℕ)
      (partial : Bool) (c : ResourceCache S)
      → (commit_validated now s t snapshot size partial c).1 ≡ ok tt
      → let d = (commit_validated now s t snapshot size partial c).0 in
        lookup s.key.identity d.entries ≡ some (committed_entry now s snapshot size partial d)
  unfolding commit_validated
  commit-lookup now s t snapshot size partial c h =
      let roomy = make_room now s.key.identity size c in
      ground (
        arith,
        store-lookup now s snapshot size partial c false,
        store-lookup now s snapshot size partial roomy.0 roomy.1,
      )

module _ {ℓ} {Item : Type ℓ} (codec : Codec Item) where
  -- Right after a successful commit, any open subscription of the current generation to the same key
  -- loads what the codec makes of the committed snapshot on its way through JSON, where that succeeds.
  -- It is expired from its maximum age on; before, it is partial if it was committed so, and otherwise
  -- stale from its fresh time on. It is complete while it is neither partial nor expired.
  pub commit-load :
      (now later : ℕ) (s reader : CacheSubscription) (t : CacheRefreshToken)
      (snapshot copy : WatchSnapshot Item) (size : ℕ) (partial : Bool)
      (c : ResourceCache (WatchSnapshot Item))
      → (commit_validated now s t snapshot size partial c).1 ≡ ok tt
      → let d = (commit_validated now s t snapshot size partial c).0 in
        reader.key.identity ≡ s.key.identity
        → reader.closed ≡ false
        → current_locked reader d ≡ true
        → clone_watch_snapshot codec snapshot ≡ some copy
        → (load codec later reader d).1
          ≡ some (record {
            snapshot = copy;
            cache_state = aged d.fresh_for d.max_stale now later partial;
            stored_at = now;
            last_used = later;
            bytes = size;
            ref_count = read s.key.identity d.refs;
            complete = not partial && not (leb (now + d.max_stale) later);
          })
  unfolding load state committed_entry
  commit-load now later s reader t snapshot copy size partial c h same o g k =
      let found = commit-lookup now s t snapshot size partial c h in ground (arith, found, same)
