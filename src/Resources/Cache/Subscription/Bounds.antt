-- ===== src/Resources/Cache/Subscription/Bounds.antt =====
-- The memory limits of internal/services/resources/cache.go, one lemma for each operation.
use kubepeep.Base.{
  ℕ, ◌+◌, ◌≤◌, ◌≡◌, refl, String, Bool, true, false, Option, none, some, [], ◌∷◌, length, arith,
  Option-cases, inl, inr, Dict, lookup, insert, total-insert, length-total, insert-IsDistinct,
}
use kubepeep.Resources.Cache.{
  ResourceCache, ResourceCacheKey, ResourceCacheConfig, ResourceCacheEntry, new_resource_cache,
  read, u64_next, remove_entry_locked,
}
use kubepeep.Resources.Cache.Accounting.{IsBounded, remove-IsBounded}
use kubepeep.Resources.Cache.Eviction.{previous_bytes, added_entries, make_room}
use kubepeep.Resources.Cache.Eviction.Room.{
  evict_for_room, evict_for_spares, make_room_limits, make_room-IsAccounted,
}
use kubepeep.Resources.Cache.Subscription.{
  CacheSubscription, CacheRefreshToken, subscribe, update_entry, begin_refresh, store,
  commit_validated, abort_refresh, mark_stale, close, invalidate, invalidate_key, invalidate_keys,
  invalidate_generation, evict_idle,
}

module _ {ℓ} {S : Type ℓ} where
  -- A change that keeps an entry's size keeps the accounts.
  pub update-IsBounded :
      (k : String) (f : ResourceCacheEntry S → ResourceCacheEntry S) (c : ResourceCache S)
      → ((e : ResourceCacheEntry S) → (f e).bytes ≡ e.bytes)
      → IsBounded c
      → IsBounded (update_entry k f c)
  unfolding update_entry
  update-IsBounded k f c same v = elim (Option-cases (lookup k c.entries)) [
    | inl h ↦ ground (arith, v)
    | inr (e, h) ↦ ground (
      arith,
      v,
      same e,
      total-insert (λ (e : ResourceCacheEntry S). e.bytes) k (f e) c.entries,
      total-insert (λ (_ : ResourceCacheEntry S). 1) k (f e) c.entries,
      length-total c.entries,
      length-total (insert k (f e) c.entries),
      insert-IsDistinct k (f e) c.entries v.accounted.distinct,
    )
  ]

  -- The other fields do not count.
  same_entries :
      (c d : ResourceCache S)
      → d.entries ≡ c.entries
      → d.bytes ≡ c.bytes
      → d.max_bytes ≡ c.max_bytes
      → d.max_entries ≡ c.max_entries
      → IsBounded c
      → IsBounded d
  same_entries c d e b mb me v = record {
    accounted = record {
      distinct = rw e v.accounted.distinct;
      counted = rw (b, e) v.accounted.counted;
    };
    within_bytes = rw (b, mb) v.within_bytes;
    within_entries = rw (e, me) v.within_entries;
  }

  pub subscribe-IsBounded :
      (key : Option ResourceCacheKey) (c : ResourceCache S)
      → IsBounded c
      → IsBounded (subscribe key c).0
  unfolding subscribe
  subscribe-IsBounded none c v = v
  subscribe-IsBounded (some key) c v = ground arith

  pub begin_refresh-IsBounded :
      (now : ℕ) (s : CacheSubscription) (c : ResourceCache S)
      → IsBounded c
      → IsBounded (begin_refresh now s c).0
  unfolding begin_refresh
  begin_refresh-IsBounded now s c v =
      let epoch = u64_next (read s.key.identity c.key_epoch) in
      let bumped = record c { key_epoch = insert s.key.identity epoch c.key_epoch } in
      ground (
        arith,
        update-IsBounded s.key.identity
            (λ entry. record entry { refreshing = true; last_used = now }) bumped (λ e. refl)
            (same_entries c bumped refl refl refl refl v),
        v,
      )

  -- A commit stores within both limits, or stores nothing.
  store-IsBounded :
      (now : ℕ) (s : CacheSubscription) (snapshot : S) (size : ℕ) (partial : Bool)
      (c : ResourceCache S) (done : Bool)
      → IsBounded c
      → (done ≡ true
          → (c.bytes + size ≤ c.max_bytes + previous_bytes s.key.identity c)
            × (length c.entries + added_entries s.key.identity c ≤ c.max_entries))
      → IsBounded (store now s snapshot size partial (c, done)).0
  unfolding store
  store-IsBounded now s snapshot size partial c false v room =
      update-IsBounded s.key.identity (λ entry. record entry { refreshing = false }) c (λ e. refl) v
  store-IsBounded now s snapshot size partial c true v room =
      let entry : ResourceCacheEntry S = record {
        key = s.key;
        snapshot = snapshot;
        stored_at = now;
        last_used = now;
        fresh_until = now + c.fresh_for;
        expires_at = now + c.max_stale;
        bytes = size;
        partial = partial;
        refreshing = false;
      } in
      let sizes =
        total-insert (λ (e : ResourceCacheEntry S). e.bytes) s.key.identity entry c.entries in
      let counts = total-insert (λ (_ : ResourceCacheEntry S). 1) s.key.identity entry c.entries in
      record {
        accounted = record {
          distinct = insert-IsDistinct s.key.identity entry c.entries v.accounted.distinct;
          counted = omega (arith, sizes, v.accounted.counted);
        };
        within_bytes = omega (arith, room refl);
        within_entries = ground (
          arith,
          counts,
          room refl,
          length-total c.entries,
          length-total (insert s.key.identity entry c.entries),
        );
      }

  make_room-IsBounded :
      (now : ℕ) (k : String) (size : ℕ) (c : ResourceCache S)
      → IsBounded c
      → IsBounded (make_room now k size c).0
  make_room-IsBounded now k size c v =
      let limits = make_room_limits now k size c in
      record {
        accounted = make_room-IsAccounted now k size c v.accounted;
        within_bytes = omega (arith, limits, v.within_bytes);
        within_entries = omega (arith, limits, v.within_entries);
      }

  made_room :
      (now : ℕ) (k : String) (size : ℕ) (c : ResourceCache S)
      → IsBounded c
      → (make_room now k size c).1 ≡ true
      → let c' = (make_room now k size c).0 in
        (c'.bytes + size ≤ c'.max_bytes + previous_bytes k c')
        × (length c'.entries + added_entries k c' ≤ c'.max_entries)
  made_room now k size c v h =
      let limits = make_room_limits now k size c in
      let kept = (evict_for_spares now k size c v.accounted).1 in
      rw kept (omega (arith, limits, evict_for_room now k size c v.accounted h))

  pub commit_validated-IsBounded :
      (now : ℕ) (s : CacheSubscription) (t : CacheRefreshToken) (snapshot : S) (size : ℕ)
      (partial : Bool) (c : ResourceCache S)
      → IsBounded c
      → IsBounded (commit_validated now s t snapshot size partial c).0
  unfolding commit_validated
  commit_validated-IsBounded now s t snapshot size partial c v = ground (
    arith,
    v,
    store-IsBounded now s snapshot size partial c false v (λ (h : false ≡ true). cc),
    store-IsBounded now s snapshot size partial (make_room now s.key.identity size c).0
        (make_room now s.key.identity size c).1 (make_room-IsBounded now s.key.identity size c v)
        (made_room now s.key.identity size c v),
  )

  pub abort_refresh-IsBounded :
      (t : CacheRefreshToken) (s : CacheSubscription) (c : ResourceCache S)
      → IsBounded c
      → IsBounded (abort_refresh t s c)
  unfolding abort_refresh
  abort_refresh-IsBounded t s c v =
      let kept =
        update-IsBounded s.key.identity (λ entry. record entry { refreshing = false }) c (λ e. refl)
          v in
      ground (arith, v, kept)

  pub mark_stale-IsBounded :
      (now : ℕ) (s : CacheSubscription) (c : ResourceCache S)
      → IsBounded c
      → IsBounded (mark_stale now s c)
  unfolding mark_stale
  mark_stale-IsBounded now s c v =
      let kept =
        update-IsBounded s.key.identity
          (λ entry. record entry { fresh_until = now; refreshing = false }) c (λ e. refl) v in
      ground (arith, v, kept)

  pub close-IsBounded :
      (s : CacheSubscription) (c : ResourceCache S) → IsBounded c → IsBounded (close s c).0
  unfolding close
  close-IsBounded s c v = ground (arith, v)

  pub invalidate-IsBounded :
      (key : Option ResourceCacheKey) (c : ResourceCache S)
      → IsBounded c
      → IsBounded (invalidate key c).0
  unfolding invalidate
  invalidate-IsBounded none c v = v
  invalidate-IsBounded (some key) c v =
      let epoch = u64_next (read key.identity c.key_epoch) in
      let bumped = record c { key_epoch = insert key.identity epoch c.key_epoch } in
      let removed =
        remove-IsBounded key.identity false bumped (same_entries c bumped refl refl refl refl v) in
      same_entries (remove_entry_locked key.identity false bumped) (invalidate (some key) c).0 refl
        refl refl refl removed

  invalidate_key-IsBounded :
      (generation : String) (k : String × ResourceCacheKey) (c : ResourceCache S)
      → IsBounded c
      → IsBounded (invalidate_key generation k c)
  unfolding invalidate_key
  invalidate_key-IsBounded generation (identity, key) c v =
      ground (arith, v, remove-IsBounded identity false c v)

  invalidate_keys-IsBounded :
      (generation : String) (ks : Dict ResourceCacheKey) (c : ResourceCache S)
      → IsBounded c
      → IsBounded (invalidate_keys generation ks c)
  unfolding invalidate_keys
  invalidate_keys-IsBounded generation [] c v = v
  invalidate_keys-IsBounded generation (k ∷ ks) c v =
      invalidate_keys-IsBounded generation ks (invalidate_key generation k c)
        (invalidate_key-IsBounded generation k c v)

  pub invalidate_generation-IsBounded :
      (generation : String) (c : ResourceCache S)
      → IsBounded c
      → IsBounded (invalidate_generation generation c)
  unfolding invalidate_generation
  invalidate_generation-IsBounded generation c v =
      let marked = record c {
        generation_epoch =
            insert generation (u64_next (read generation c.generation_epoch)) c.generation_epoch;
        invalidated_generation = insert generation tt c.invalidated_generation;
      } in
      ground (
        arith,
        v,
        invalidate_keys-IsBounded generation c.keys marked
            (same_entries c marked refl refl refl refl v),
      )

  pub evict_idle-IsBounded :
      (now idle_for : ℕ) (m : Dict (ResourceCacheEntry S)) (c : ResourceCache S)
      → IsBounded c
      → IsBounded (evict_idle now idle_for m c).0
  unfolding evict_idle
  evict_idle-IsBounded now idle_for [] c v = v
  evict_idle-IsBounded now idle_for ((k, e) ∷ m) c v =
      let removed = remove-IsBounded k true c v in
      ground (
        arith,
        evict_idle-IsBounded now idle_for m c v,
        evict_idle-IsBounded now idle_for m (remove_entry_locked k true c) removed,
      )

  pub new-IsBounded : (config : ResourceCacheConfig) → IsBounded (new_resource_cache {S = S} config)
  unfolding new_resource_cache
  new-IsBounded config = ground arith
