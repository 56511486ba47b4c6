-- ===== src/Resources/Cache/Subscription.antt =====
-- The subscriptions of internal/services/resources/cache.go: reading, refreshing and committing
-- snapshots, and the invalidations that fence them off. JSON encoding enters through `Codec`. A
-- subscription is passed on by the calls that change it; metrics and spans are left out.
pub mod Bounds
pub mod Calls
pub mod Limits
pub mod Epochs
pub mod Tokens
pub mod Reads
pub mod Fencing
mod Tests
use Prim.Native.String.{len}
use kubepeep.Base.{
  ℕ, ◌+◌, ◌-◌, ◌≡◌, ◌⊎◌, inl, inr, refl, String, str_eq, Bool, true, false, not, ◌&&◌, ◌||◌, Option,
  none, some, List, [], ◌∷◌, leb, ltb, ◌==◌, if◌then◌else◌, length, Dict, lookup, insert, delete,
}
use kubepeep.Resources.Cache.{
  ResourceCacheKey, ResourceCacheEntry, ResourceCache, CacheState, cache_state_expired, read,
  is_some, u64_next, state, remove_entry_locked,
}
use kubepeep.Resources.Cache.Eviction.{previous_bytes, make_room}

pub data CacheError : Type 0 where
  cache_write_fenced generation_changed limit_exceeded validation_failed : CacheError

pub data Result {ℓ} (A : Type ℓ) : Type ℓ where
  ok : A → Result A
  err : CacheError → Result A

pub Result-cases {ℓ} :
    {A : Type ℓ} (r : Result A) → ((e : CacheError) × (r ≡ err e)) ⊎ ((a : A) × (r ≡ ok a))
Result-cases (ok a) = inr (a, refl)
Result-cases (err e) = inl (e, refl)

-- A list item: its topic, the length of a list's JSON text, and an item after a trip through JSON.
pub record Codec {ℓ} (Item : Type ℓ) : Type ℓ where
  pub resource_topic : Item → String
  pub encoded_length : List Item → Option ℕ
  pub clone_topic_object : Item → Option Item

pub record WatchSnapshot {ℓ} (Item : Type ℓ) : Type ℓ where
  pub resource_version : String
  pub items : List Item

pub record CacheRefreshToken : Type 0 where
  pub identity : String
  pub generation : String
  pub generation_epoch : ℕ
  pub key_epoch : ℕ

pub record CacheSubscription : Type 0 where
  pub key : ResourceCacheKey
  pub generation_epoch : ℕ
  pub closed : Bool

pub record CachedSnapshot {ℓ} (S : Type ℓ) : Type ℓ where
  pub snapshot : S
  pub cache_state : CacheState
  pub stored_at : ℕ
  pub last_used : ℕ
  pub bytes : ℕ
  pub ref_count : ℕ
  pub complete : Bool

pub record ResourceCacheStats : Type 0 where
  pub entries : ℕ
  pub bytes : ℕ
  pub subscriptions : ℕ
  pub evictions : ℕ
  pub invalidations : ℕ

abbrev pub maximum_snapshot_items : ℕ
maximum_snapshot_items = 10000

abbrev is_expired_state : CacheState → Bool
is_expired_state cache_state_expired = true
is_expired_state _ = false

abbrev pub sum_refs : Dict ℕ → ℕ
sum_refs [] = 0
sum_refs ((k, n) ∷ m) = n + sum_refs m

module _ {ℓ} {S : Type ℓ} where
  -- `canonical` is what `canonicalResourceCacheKey` made of the key, `none` its refusal.
  pub subscribe :
      Option ResourceCacheKey → ResourceCache S → ResourceCache S × Result CacheSubscription
  subscribe none cache = (cache, err validation_failed)
  subscribe (some key) cache =
      if is_some (lookup key.generation cache.invalidated_generation)
      then (cache, err generation_changed)
      else (
        record cache {
          refs = insert key.identity (read key.identity cache.refs + 1) cache.refs;
          keys = insert key.identity key cache.keys;
        },
        ok (record {
          key = key;
          generation_epoch = read key.generation cache.generation_epoch;
          closed = false;
        }),
      )

  abbrev pub current_locked : CacheSubscription → ResourceCache S → Bool
  current_locked subscription cache =
      not (is_some (lookup subscription.key.generation cache.invalidated_generation))
      && subscription.generation_epoch == read subscription.key.generation cache.generation_epoch

  -- A change of the entry under a key, if there is one.
  update_found :
      String
      → (ResourceCacheEntry S → ResourceCacheEntry S)
      → Option (ResourceCacheEntry S)
      → ResourceCache S
      → ResourceCache S
  update_found identity f none cache = cache
  update_found identity f (some entry) cache = record cache {
    entries = insert identity (f entry) cache.entries;
  }

  pub update_entry :
      String → (ResourceCacheEntry S → ResourceCacheEntry S) → ResourceCache S → ResourceCache S
  unfolding update_found
  update_entry identity f cache = update_found identity f (lookup identity cache.entries) cache

  pub begin_refresh :
      ℕ → CacheSubscription → ResourceCache S → ResourceCache S × Result CacheRefreshToken
  begin_refresh now subscription cache =
      let identity = subscription.key.identity in
      let epoch = u64_next (read identity cache.key_epoch) in
      if subscription.closed || not (current_locked subscription cache)
      then (cache, err cache_write_fenced)
      else (
        update_entry identity (λ entry. record entry { refreshing = true; last_used = now })
            (record cache { key_epoch = insert identity epoch cache.key_epoch }),
        ok (record {
          identity = identity;
          generation = subscription.key.generation;
          generation_epoch = subscription.generation_epoch;
          key_epoch = epoch;
        }),
      )

  -- The token stands for the latest refresh of this key, in the current epoch of its generation.
  abbrev pub is_token_current : CacheRefreshToken → CacheSubscription → ResourceCache S → Bool
  is_token_current token subscription cache =
      str_eq token.identity subscription.key.identity
      && token.generation_epoch == read subscription.key.generation cache.generation_epoch
      && token.key_epoch == read subscription.key.identity cache.key_epoch

  store :
      ℕ
      → CacheSubscription
      → S
      → ℕ
      → Bool
      → ResourceCache S × Bool
      → ResourceCache S × Result (Unit {0})
  store now subscription snapshot size partial (cache, false) = (
    update_entry subscription.key.identity (λ entry. record entry { refreshing = false }) cache,
    err limit_exceeded,
  )
  store now subscription snapshot size partial (cache, true) = (
    record cache {
      bytes = cache.bytes + size - previous_bytes subscription.key.identity cache;
      entries =
          insert subscription.key.identity
            (record {
              key = subscription.key;
              snapshot = snapshot;
              stored_at = now;
              last_used = now;
              fresh_until = now + cache.fresh_for;
              expires_at = now + cache.max_stale;
              bytes = size;
              partial = partial;
              refreshing = false;
            })
            cache.entries;
    },
    ok tt,
  )

  -- `Commit` of a snapshot that has been validated, with its size.
  pub commit_validated :
      ℕ
      → CacheSubscription
      → CacheRefreshToken
      → S
      → ℕ
      → Bool
      → ResourceCache S
      → ResourceCache S × Result (Unit {0})
  unfolding store
  commit_validated now subscription token snapshot size partial cache =
      let identity = subscription.key.identity in
      let refused = not (
        current_locked subscription cache
        && str_eq token.generation subscription.key.generation
        && is_token_current token subscription cache) in
      if subscription.closed || refused
      then (cache, err cache_write_fenced)
      else store now subscription snapshot size partial
          (if ltb cache.max_bytes size then (cache, false) else make_room now identity size cache)

  pub abort_refresh : CacheRefreshToken → CacheSubscription → ResourceCache S → ResourceCache S
  abort_refresh token subscription cache =
      if is_token_current token subscription cache
      then update_entry subscription.key.identity (λ entry. record entry { refreshing = false })
          cache
      else cache

  pub mark_stale : ℕ → CacheSubscription → ResourceCache S → ResourceCache S
  mark_stale now subscription cache =
      if subscription.closed || not (current_locked subscription cache)
      then cache
      else update_entry subscription.key.identity
          (λ entry. record entry { fresh_until = now; refreshing = false }) cache

  forget : String → ResourceCache S → ResourceCache S
  forget identity cache =
      let known = is_some (lookup identity cache.entries) in
      record cache {
        refs = delete identity cache.refs;
        keys = if known then cache.keys else delete identity cache.keys;
        key_epoch = if known then cache.key_epoch else delete identity cache.key_epoch;
      }

  pub close : CacheSubscription → ResourceCache S → ResourceCache S × CacheSubscription
  unfolding forget
  close subscription cache =
      let identity = subscription.key.identity in
      let count = read identity cache.refs in
      (
        if subscription.closed
            then cache
            else if ltb 1 count
            then record cache { refs = insert identity (count - 1) cache.refs }
            else forget identity cache,
        record subscription { closed = true },
      )

  pub invalidate : Option ResourceCacheKey → ResourceCache S → ResourceCache S × Result (Unit {0})
  invalidate none cache = (cache, err validation_failed)
  invalidate (some key) cache =
      let epoch = u64_next (read key.identity cache.key_epoch) in
      let removed =
        remove_entry_locked key.identity false
          (record cache { key_epoch = insert key.identity epoch cache.key_epoch }) in
      (record removed { invalidations = u64_next removed.invalidations }, ok tt)

  -- One round of the loop over `cache.keys`, and how many entries went.
  invalidate_key : String → String × ResourceCacheKey → ResourceCache S → ResourceCache S
  invalidate_key generation (identity, key) cache =
      let removed = remove_entry_locked identity false cache in
      let epoch = u64_next (read identity removed.key_epoch) in
      let counted = is_some (lookup identity cache.entries) in
      if str_eq key.generation generation
      then record removed {
        key_epoch = insert identity epoch removed.key_epoch;
        invalidations = if counted then u64_next cache.invalidations else cache.invalidations;
      }
      else cache

  invalidate_keys : String → Dict ResourceCacheKey → ResourceCache S → ResourceCache S
  unfolding invalidate_key
  invalidate_keys generation [] cache = cache
  invalidate_keys generation (k ∷ ks) cache =
      invalidate_keys generation ks (invalidate_key generation k cache)

  pub invalidate_generation : String → ResourceCache S → ResourceCache S
  unfolding invalidate_keys
  invalidate_generation generation cache =
      let epoch = u64_next (read generation cache.generation_epoch) in
      if str_eq generation ""
      then cache
      else invalidate_keys generation cache.keys (record cache {
        generation_epoch = insert generation epoch cache.generation_epoch;
        invalidated_generation = insert generation tt cache.invalidated_generation;
      })

  -- The loop over `cache.entries`; the cutoff is `now - idle_for`.
  pub evict_idle : ℕ → ℕ → Dict (ResourceCacheEntry S) → ResourceCache S → ResourceCache S × ℕ
  evict_idle now idle_for [] cache = (cache, 0)
  evict_idle now idle_for ((identity, entry) ∷ m) cache =
      let idle = read identity cache.refs == 0 && leb (entry.last_used + idle_for) now in
      let cache' = if idle then remove_entry_locked identity true cache else cache in
      let rest = evict_idle now idle_for m cache' in (rest.0, if idle then rest.1 + 1 else rest.1)

  pub evict_inactive : ℕ → ℕ → ResourceCache S → ResourceCache S × ℕ
  unfolding evict_idle
  evict_inactive now idle_for cache = evict_idle now idle_for cache.entries cache

  pub stats : ResourceCache S → ResourceCacheStats
  stats cache = record {
    entries = length cache.entries;
    bytes = cache.bytes;
    subscriptions = sum_refs cache.refs;
    evictions = cache.evictions;
    invalidations = cache.invalidations;
  }

module _ {ℓ} {Item : Type ℓ} (codec : Codec Item) where
  clone_items : List Item → Option (List Item)
  clone_items [] = some []
  clone_items (x ∷ xs) = elim (codec.clone_topic_object x) [
    | none ↦ none
    | some y ↦ elim (clone_items xs) [ none ↦ none | some ys ↦ some (y ∷ ys) ]
  ]

  pub clone_watch_snapshot : WatchSnapshot Item → Option (WatchSnapshot Item)
  unfolding clone_items
  clone_watch_snapshot snapshot = elim (clone_items snapshot.items) [
    | none ↦ none
    | some items ↦ some (record { resource_version = snapshot.resource_version; items = items })
  ]

  has_topic : String → List Item → Bool
  has_topic topic [] = true
  has_topic topic (x ∷ xs) = str_eq (codec.resource_topic x) topic && has_topic topic xs

  pub validated_cache_snapshot : String → WatchSnapshot Item → Result (WatchSnapshot Item × ℕ)
  unfolding has_topic
  validated_cache_snapshot topic snapshot =
      if ltb maximum_snapshot_items (length snapshot.items)
      then err limit_exceeded
      else if not (has_topic topic snapshot.items)
      then err validation_failed
      else elim (codec.encoded_length snapshot.items) [
        | none ↦ err validation_failed
        | some n ↦ elim (clone_watch_snapshot snapshot) [
          | none ↦ err validation_failed
          | some cloned ↦ ok (cloned, n + len snapshot.resource_version)
        ]
      ]

  abbrev Snapshots : Type ℓ
  Snapshots = ResourceCache (WatchSnapshot Item)

  commit_checked :
      ℕ
      → CacheSubscription
      → CacheRefreshToken
      → Bool
      → Snapshots
      → Result (WatchSnapshot Item × ℕ)
      → Snapshots × Result (Unit {0})
  commit_checked now subscription token partial cache (err e) = (cache, err e)
  commit_checked now subscription token partial cache (ok (cloned, size)) =
      commit_validated now subscription token cloned size partial cache

  pub commit :
      ℕ
      → CacheSubscription
      → CacheRefreshToken
      → WatchSnapshot Item
      → Bool
      → Snapshots
      → Snapshots × Result (Unit {0})
  unfolding commit_checked
  commit now subscription token snapshot partial cache =
      if subscription.closed
      then (cache, err cache_write_fenced)
      else commit_checked now subscription token partial cache
          (validated_cache_snapshot subscription.key.topic snapshot)

  load_found :
      ℕ
      → CacheSubscription
      → Snapshots
      → Option (ResourceCacheEntry (WatchSnapshot Item))
      → Snapshots × Option (CachedSnapshot (WatchSnapshot Item))
  load_found now subscription cache none = (cache, none)
  load_found now subscription cache (some entry) =
      let identity = subscription.key.identity in
      let s = state now entry in
      if not (current_locked subscription cache) then (cache, none) else (
        update_entry identity (λ entry. record entry { last_used = now }) cache,
        elim (clone_watch_snapshot entry.snapshot) [
          | none ↦ none
          | some snapshot ↦ some (record {
            snapshot = snapshot;
            cache_state = s;
            stored_at = entry.stored_at;
            last_used = now;
            bytes = entry.bytes;
            ref_count = read identity cache.refs;
            complete = not entry.partial && not (is_expired_state s);
          })
        ],
      )

  pub load :
      ℕ → CacheSubscription → Snapshots → Snapshots × Option (CachedSnapshot (WatchSnapshot Item))
  unfolding load_found
  load now subscription cache =
      if subscription.closed
      then (cache, none)
      else load_found now subscription cache (lookup subscription.key.identity cache.entries)
