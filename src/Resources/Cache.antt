-- ===== src/Resources/Cache.antt =====
-- internal/services/resources/cache.go: the snapshot cache shared by the watch workers. Its entries,
-- reference counts, epochs and memory accounting; subscriptions and refresh tokens are in
-- Cache/Subscription. A key is the canonical one, with the identity that `canonicalResourceCacheKey`
-- joins from its fields. Times are nanoseconds, and the uint64 counters wrap.
pub mod Accounting
pub mod Eviction
pub mod Subscription
use kubepeep.Base.{
  ℕ, ◌+◌, ◌-◌, ◌%◌, ◌^◌, String, str_eq, Bool, true, false, not, ◌&&◌, ◌||◌, Option, none, some,
  List, [], ◌∷◌, leb, ltb, ◌==◌, if◌then◌else◌, length, Dict, lookup, insert, delete,
}

pub data CacheState : Type 0 where
  cache_state_fresh cache_state_stale cache_state_refreshing cache_state_partial : CacheState
  cache_state_expired : CacheState

pub record ResourceCacheKey : Type 0 where
  pub identity : String
  pub generation : String
  pub topic : String

pub record ResourceCacheConfig : Type 0 where
  pub max_bytes : ℕ
  pub max_entries : ℕ
  pub fresh_for : ℕ
  pub max_stale : ℕ

pub record ResourceCacheEntry {ℓ} (S : Type ℓ) : Type ℓ where
  pub key : ResourceCacheKey
  pub snapshot : S
  pub stored_at : ℕ
  pub last_used : ℕ
  pub fresh_until : ℕ
  pub expires_at : ℕ
  pub bytes : ℕ
  pub partial : Bool
  pub refreshing : Bool

pub record ResourceCache {ℓ} (S : Type ℓ) : Type ℓ where
  pub entries : Dict (ResourceCacheEntry S)
  pub refs : Dict ℕ
  pub keys : Dict ResourceCacheKey
  pub key_epoch : Dict ℕ
  pub generation_epoch : Dict ℕ
  pub invalidated_generation : Dict (Unit {0})
  pub bytes : ℕ
  pub evictions : ℕ
  pub invalidations : ℕ
  pub max_bytes : ℕ
  pub max_entries : ℕ
  pub fresh_for : ℕ
  pub max_stale : ℕ

-- A map with integer values reads 0 where the key is missing.
abbrev pub value_or_zero : Option ℕ → ℕ
value_or_zero none = 0
value_or_zero (some n) = n

abbrev pub read : String → Dict ℕ → ℕ
read k m = value_or_zero (lookup k m)

abbrev pub is_some {ℓ} : {A : Type ℓ} → Option A → Bool
is_some none = false
is_some (some a) = true

abbrev pub u64_next : ℕ → ℕ
u64_next n = (n + 1) % 2 ^ 64

module _ {ℓ} {S : Type ℓ} where
  unfoldable pub new_resource_cache : ResourceCacheConfig → ResourceCache S
  new_resource_cache config =
      let fresh_for = if config.fresh_for == 0 then 30000000000 else config.fresh_for in
      record {
        entries = [];
        refs = [];
        keys = [];
        key_epoch = [];
        generation_epoch = [];
        invalidated_generation = [];
        bytes = 0;
        evictions = 0;
        invalidations = 0;
        max_bytes = if config.max_bytes == 0 then 201326592 else config.max_bytes;
        max_entries = if config.max_entries == 0 then 2048 else config.max_entries;
        fresh_for = fresh_for;
        max_stale = if ltb config.max_stale fresh_for then 300000000000 else config.max_stale;
      }

  pub state : ℕ → ResourceCacheEntry S → CacheState
  state now entry =
      if leb entry.expires_at now
      then cache_state_expired
      else if entry.refreshing
      then cache_state_refreshing
      else if entry.partial
      then cache_state_partial
      else if leb entry.fresh_until now
      then cache_state_stale
      else cache_state_fresh

  remove_found : String → Bool → Option (ResourceCacheEntry S) → ResourceCache S → ResourceCache S
  remove_found identity eviction none cache = cache
  remove_found identity eviction (some entry) cache =
      let unreferenced = read identity cache.refs == 0 in
      record cache {
        bytes = cache.bytes - entry.bytes;
        entries = delete identity cache.entries;
        keys = if unreferenced then delete identity cache.keys else cache.keys;
        key_epoch = if unreferenced then delete identity cache.key_epoch else cache.key_epoch;
        evictions = if eviction then u64_next cache.evictions else cache.evictions;
      }

  unfoldable pub remove_entry_locked : String → Bool → ResourceCache S → ResourceCache S
  unfolding remove_found
  remove_entry_locked identity eviction cache =
      remove_found identity eviction (lookup identity cache.entries) cache
