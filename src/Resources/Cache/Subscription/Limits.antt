-- ===== src/Resources/Cache/Subscription/Limits.antt =====
-- The memory limits of internal/services/resources/cache.go over every sequence of calls.
use kubepeep.Base.{ℕ, ◌≤◌, ◌≡◌, refl, Bool, List, [], ◌∷◌, length, arith, inl, inr, total}
use kubepeep.Resources.Cache.{ResourceCache, ResourceCacheConfig, new_resource_cache}
use kubepeep.Resources.Cache.Accounting.{IsBounded}
use kubepeep.Resources.Cache.Subscription.{
  Codec, WatchSnapshot, CacheSubscription, CacheRefreshToken, Result-cases, commit, evict_inactive,
  validated_cache_snapshot, load,
}
use kubepeep.Resources.Cache.Subscription.Bounds.{
  update-IsBounded, subscribe-IsBounded, begin_refresh-IsBounded, commit_validated-IsBounded,
  abort_refresh-IsBounded, mark_stale-IsBounded, close-IsBounded, invalidate-IsBounded,
  invalidate_generation-IsBounded, evict_idle-IsBounded, new-IsBounded,
}
use kubepeep.Resources.Cache.Subscription.Calls.{
  Call, subscribes, loads, begins_refresh, commits, aborts_refresh, marks_stale, closes,
  invalidates, invalidates_generation, evicts_inactive, perform, run,
}

module _ {ℓ} {Item : Type ℓ} (codec : Codec Item) where
  commit-IsBounded :
      (now : ℕ) (s : CacheSubscription) (t : CacheRefreshToken) (snapshot : WatchSnapshot Item)
      (partial : Bool) (c : ResourceCache (WatchSnapshot Item))
      → IsBounded c
      → IsBounded (commit codec now s t snapshot partial c).0
  unfolding commit
  commit-IsBounded now s t snapshot partial c v =
      elim (Result-cases (validated_cache_snapshot codec s.key.topic snapshot)) [
        | inl (e, h) ↦ ground (arith, v, h)
        | inr ((cloned, size), h) ↦
            ground (arith, v, h, commit_validated-IsBounded now s t cloned size partial c v)
      ]

  load-IsBounded :
      (now : ℕ) (s : CacheSubscription) (c : ResourceCache (WatchSnapshot Item))
      → IsBounded c
      → IsBounded (load codec now s c).0
  unfolding load
  load-IsBounded now s c v =
      let kept =
        update-IsBounded s.key.identity (λ entry. record entry { last_used = now }) c (λ e. refl)
          v in
      ground (arith, v, kept)

  perform-IsBounded :
      (c : ResourceCache (WatchSnapshot Item)) (x : Call Item)
      → IsBounded c
      → IsBounded (perform codec c x)
  unfolding perform evict_inactive
  perform-IsBounded c (subscribes key) v = subscribe-IsBounded key c v
  perform-IsBounded c (loads now s) v = load-IsBounded now s c v
  perform-IsBounded c (begins_refresh now s) v = begin_refresh-IsBounded now s c v
  perform-IsBounded c (commits now s t snapshot partial) v =
      commit-IsBounded now s t snapshot partial c v
  perform-IsBounded c (aborts_refresh t s) v = abort_refresh-IsBounded t s c v
  perform-IsBounded c (marks_stale now s) v = mark_stale-IsBounded now s c v
  perform-IsBounded c (closes s) v = close-IsBounded s c v
  perform-IsBounded c (invalidates key) v = invalidate-IsBounded key c v
  perform-IsBounded c (invalidates_generation g) v = invalidate_generation-IsBounded g c v
  perform-IsBounded c (evicts_inactive now idle_for) v =
      evict_idle-IsBounded now idle_for c.entries c v

  run-IsBounded :
      (c : ResourceCache (WatchSnapshot Item)) (xs : List (Call Item))
      → IsBounded c
      → IsBounded (run codec c xs)
  unfolding run
  run-IsBounded c [] v = v
  run-IsBounded c (x ∷ xs) v = run-IsBounded (perform codec c x) xs (perform-IsBounded c x v)

  -- After any calls whatever, stale subscriptions and tokens included, the byte count of the cache is
  -- the sum of its entries' sizes, and neither the memory budget nor the entry limit is exceeded.
  pub run_limits :
      (config : ResourceCacheConfig) (xs : List (Call Item))
      → let c = run codec (new_resource_cache config) xs in
        (c.bytes ≡ total (λ e. e.bytes) c.entries)
        × (c.bytes ≤ c.max_bytes)
        × (length c.entries ≤ c.max_entries)
  run_limits config xs =
      let v = run-IsBounded (new_resource_cache config) xs (new-IsBounded config) in
      (v.accounted.counted, v.within_bytes, v.within_entries)
