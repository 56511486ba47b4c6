-- ===== src/Resources/Cache/Subscription/Calls.antt =====
-- The calls of internal/services/resources/cache.go in sequence. Each critical section is one step, so
-- a sequence of calls stands for any interleaving of the cache's users.
use kubepeep.Base.{ℕ, String, Bool, Option, List, [], ◌∷◌}
use kubepeep.Resources.Cache.{ResourceCache, ResourceCacheKey}
use kubepeep.Resources.Cache.Subscription.{
  Codec, WatchSnapshot, CacheSubscription, CacheRefreshToken, subscribe, begin_refresh, commit,
  abort_refresh, mark_stale, close, invalidate, invalidate_generation, evict_inactive, load,
}

-- A call of the cache, with the subscription, token and time that it is given. Any of them may be
-- stale: nothing ties a call to those before it.
pub data Call {ℓ} (Item : Type ℓ) : Type ℓ where
  subscribes : Option ResourceCacheKey → Call Item
  loads : ℕ → CacheSubscription → Call Item
  begins_refresh : ℕ → CacheSubscription → Call Item
  commits : ℕ → CacheSubscription → CacheRefreshToken → WatchSnapshot Item → Bool → Call Item
  aborts_refresh : CacheRefreshToken → CacheSubscription → Call Item
  marks_stale : ℕ → CacheSubscription → Call Item
  closes : CacheSubscription → Call Item
  invalidates : Option ResourceCacheKey → Call Item
  invalidates_generation : String → Call Item
  evicts_inactive : ℕ → ℕ → Call Item

module _ {ℓ} {Item : Type ℓ} (codec : Codec Item) where
  unfoldable pub perform :
      ResourceCache (WatchSnapshot Item) → Call Item → ResourceCache (WatchSnapshot Item)
  perform c (subscribes key) = (subscribe key c).0
  perform c (loads now s) = (load codec now s c).0
  perform c (begins_refresh now s) = (begin_refresh now s c).0
  perform c (commits now s t snapshot partial) = (commit codec now s t snapshot partial c).0
  perform c (aborts_refresh t s) = abort_refresh t s c
  perform c (marks_stale now s) = mark_stale now s c
  perform c (closes s) = (close s c).0
  perform c (invalidates key) = (invalidate key c).0
  perform c (invalidates_generation generation) = invalidate_generation generation c
  perform c (evicts_inactive now idle_for) = (evict_inactive now idle_for c).0

  unfoldable pub run :
      ResourceCache (WatchSnapshot Item) → List (Call Item) → ResourceCache (WatchSnapshot Item)
  unfolding perform
  run c [] = c
  run c (x ∷ xs) = run (perform c x) xs
