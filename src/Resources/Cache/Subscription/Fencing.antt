-- ===== src/Resources/Cache/Subscription/Fencing.antt =====
-- An invalidated generation of internal/services/resources/cache.go stays fenced off for ever.
use kubepeep.Base.{
  ℕ, ◌≡◌, ◌≢◌, ◌∙◌, refl, String, eq_iff, Bool, true, false, none, some, List, [], ◌∷◌, arith, inl,
  inr, Dict, lookup, insert, lookup-insert_self, lookup-insert_ne,
}
use kubepeep.Resources.Cache.{
  ResourceCache, ResourceCacheKey, ResourceCacheEntry, read, u64_next, remove_entry_locked,
}
use kubepeep.Resources.Cache.Accounting.{remove_same}
use kubepeep.Resources.Cache.Eviction.{make_room}
use kubepeep.Resources.Cache.Eviction.Room.{make_room_same}
use kubepeep.Resources.Cache.Subscription.{
  Codec, WatchSnapshot, CacheSubscription, CacheRefreshToken, cache_write_fenced,
  generation_changed, Result-cases, err, subscribe, update_entry, begin_refresh, store,
  commit_validated, commit, abort_refresh, mark_stale, close, invalidate, invalidate_key,
  invalidate_keys, invalidate_generation, evict_idle, evict_inactive, validated_cache_snapshot,
  load,
}
use kubepeep.Resources.Cache.Subscription.Calls.{
  Call, subscribes, loads, begins_refresh, commits, aborts_refresh, marks_stale, closes,
  invalidates, invalidates_generation, evicts_inactive, perform, run,
}

module _ {ℓ} {S : Type ℓ} where
  abbrev pub IsInvalidated : String → ResourceCache S → Type 0
  IsInvalidated g c = lookup g c.invalidated_generation ≡ some tt

  update_same :
      (k : String) (f : ResourceCacheEntry S → ResourceCacheEntry S) (c : ResourceCache S)
      → (update_entry k f c).invalidated_generation ≡ c.invalidated_generation
  unfolding update_entry
  update_same k f c = ground arith

  invalidate_key_same :
      (g : String) (k : String × ResourceCacheKey) (c : ResourceCache S)
      → (invalidate_key g k c).invalidated_generation ≡ c.invalidated_generation
  unfolding invalidate_key
  invalidate_key_same g (i, key) c = ground (arith, remove_same i false c)

  invalidate_keys_same :
      (g : String) (ks : Dict ResourceCacheKey) (c : ResourceCache S)
      → (invalidate_keys g ks c).invalidated_generation ≡ c.invalidated_generation
  unfolding invalidate_keys
  invalidate_keys_same g [] c = refl
  invalidate_keys_same g (k ∷ ks) c =
      invalidate_keys_same g ks (invalidate_key g k c) ∙ invalidate_key_same g k c

  invalidate_generation-IsInvalidated :
      (g : String) (c : ResourceCache S) → g ≢ "" → IsInvalidated g (invalidate_generation g c)
  unfolding invalidate_generation
  invalidate_generation-IsInvalidated g c h =
      let marked = record c {
        generation_epoch = insert g (u64_next (read g c.generation_epoch)) c.generation_epoch;
        invalidated_generation = insert g tt c.invalidated_generation;
      } in
      ground (
        arith,
        eq_iff g "",
        invalidate_keys_same g c.keys marked,
        lookup-insert_self g (tt {0}) c.invalidated_generation,
      )

  invalidate_generation_keeps :
      (g i : String) (c : ResourceCache S)
      → IsInvalidated g c
      → IsInvalidated g (invalidate_generation i c)
  unfolding invalidate_generation
  invalidate_generation_keeps g i c h =
      let marked = record c {
        generation_epoch = insert i (u64_next (read i c.generation_epoch)) c.generation_epoch;
        invalidated_generation = insert i tt c.invalidated_generation;
      } in
      ground (
        arith,
        eq_iff i g,
        invalidate_keys_same i c.keys marked,
        lookup-insert_self i (tt {0}) c.invalidated_generation,
        lookup-insert_ne i g (tt {0}) c.invalidated_generation,
      )

  evict_idle_same :
      (now idle_for : ℕ) (m : Dict (ResourceCacheEntry S)) (c : ResourceCache S)
      → (evict_idle now idle_for m c).0.invalidated_generation ≡ c.invalidated_generation
  unfolding evict_idle
  evict_idle_same now idle_for [] c = refl
  evict_idle_same now idle_for ((k, e) ∷ m) c = ground (
    arith,
    remove_same k true c,
    evict_idle_same now idle_for m c,
    evict_idle_same now idle_for m (remove_entry_locked k true c),
  )

  store_same :
      (now : ℕ) (s : CacheSubscription) (snapshot : S) (size : ℕ) (partial : Bool)
      (c : ResourceCache S) (done : Bool)
      → (store now s snapshot size partial (c, done)).0.invalidated_generation
        ≡ c.invalidated_generation
  unfolding store
  store_same now s snapshot size partial c false =
      update_same s.key.identity (λ entry. record entry { refreshing = false }) c
  store_same now s snapshot size partial c true = refl

  commit_validated_same :
      (now : ℕ) (s : CacheSubscription) (t : CacheRefreshToken) (snapshot : S) (size : ℕ)
      (partial : Bool) (c : ResourceCache S)
      → (commit_validated now s t snapshot size partial c).0.invalidated_generation
        ≡ c.invalidated_generation
  unfolding commit_validated
  commit_validated_same now s t snapshot size partial c =
      let roomy = make_room now s.key.identity size c in
      ground (
        arith,
        store_same now s snapshot size partial c false,
        store_same now s snapshot size partial roomy.0 roomy.1,
        make_room_same now s.key.identity size c,
      )

module _ {ℓ} {Item : Type ℓ} (codec : Codec Item) where
  perform_keeps :
      (g : String) (c : ResourceCache (WatchSnapshot Item)) (x : Call Item)
      → IsInvalidated g c
      → IsInvalidated g (perform codec c x)
  unfolding perform subscribe begin_refresh commit load abort_refresh mark_stale close invalidate
      evict_inactive
  perform_keeps g c (subscribes none) h = h
  perform_keeps g c (subscribes (some key)) h = ground arith
  perform_keeps g c (loads now s) h =
      ground (arith, h, update_same s.key.identity (λ entry. record entry { last_used = now }) c)
  perform_keeps g c (begins_refresh now s) h =
      let epoch = u64_next (read s.key.identity c.key_epoch) in
      ground (
        arith,
        h,
        update_same s.key.identity (λ entry. record entry { refreshing = true; last_used = now })
            (record c { key_epoch = insert s.key.identity epoch c.key_epoch }),
      )
  perform_keeps g c (commits now s t snapshot partial) h =
      elim (Result-cases (validated_cache_snapshot codec s.key.topic snapshot)) [
        | inl (e, r) ↦ ground (arith, h, r)
        | inr ((cloned, size), r) ↦
            ground (arith, h, r, commit_validated_same now s t cloned size partial c)
      ]
  perform_keeps g c (aborts_refresh t s) h =
      ground (arith, h, update_same s.key.identity (λ entry. record entry { refreshing = false }) c)
  perform_keeps g c (marks_stale now s) h = ground (
    arith,
    h,
    update_same s.key.identity (λ entry. record entry { fresh_until = now; refreshing = false }) c,
  )
  perform_keeps g c (closes s) h = ground (arith, h)
  perform_keeps g c (invalidates none) h = h
  perform_keeps g c (invalidates (some key)) h =
      let epoch = u64_next (read key.identity c.key_epoch) in
      ground (
        arith,
        h,
        remove_same key.identity false
            (record c { key_epoch = insert key.identity epoch c.key_epoch }),
      )
  perform_keeps g c (invalidates_generation i) h = invalidate_generation_keeps g i c h
  perform_keeps g c (evicts_inactive now idle_for) h =
      ground (arith, h, evict_idle_same now idle_for c.entries c)

  run_keeps :
      (g : String) (c : ResourceCache (WatchSnapshot Item)) (xs : List (Call Item))
      → IsInvalidated g c
      → IsInvalidated g (run codec c xs)
  unfolding run
  run_keeps g c [] h = h
  run_keeps g c (x ∷ xs) h = run_keeps g (perform codec c x) xs (perform_keeps g c x h)

  -- Once a generation is invalidated, no later call opens a subscription in it, and none that is open
  -- reads a snapshot, starts a refresh or commits one, whatever other calls come in between.
  pub invalidate_generation_fences :
      (g : String) (c : ResourceCache (WatchSnapshot Item)) (xs : List (Call Item)) (now : ℕ)
      (key : ResourceCacheKey) (s : CacheSubscription) (t : CacheRefreshToken)
      (snapshot : WatchSnapshot Item) (size : ℕ) (partial : Bool)
      → g ≢ ""
      → key.generation ≡ g
      → s.key.generation ≡ g
      → let d = run codec (invalidate_generation g c) xs in
        (subscribe (some key) d ≡ (d, err generation_changed))
        × (load codec now s d ≡ (d, none))
        × (begin_refresh now s d ≡ (d, err cache_write_fenced))
        × (commit_validated now s t snapshot size partial d ≡ (d, err cache_write_fenced))
  unfolding subscribe load begin_refresh commit_validated
  invalidate_generation_fences g c xs now key s t snapshot size partial h ek es =
      let d = run codec (invalidate_generation g c) xs in
      let fenced : IsInvalidated g d =
        run_keeps g (invalidate_generation g c) xs (invalidate_generation-IsInvalidated g c h) in
      let own_key : lookup key.generation d.invalidated_generation ≡ some tt = rw ek fenced in
      let own : lookup s.key.generation d.invalidated_generation ≡ some tt = rw es fenced in
      (rw own_key refl, ground (arith, own), ground (arith, own), ground (arith, own))
