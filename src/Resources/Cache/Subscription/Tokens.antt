-- ===== src/Resources/Cache/Subscription/Tokens.antt =====
-- A refresh of internal/services/resources/cache.go that a later one on the same key has replaced
-- commits nothing.
use kubepeep.Base.{
  ℕ, ◌≡◌, ◌≢◌, String, eq_iff, Bool, true, arith, insert, lookup-insert_self, List, ◌∷◌, ◌≤◌,
}
use kubepeep.Resources.Cache.{ResourceCache, ResourceCacheEntry, read, u64_next}
use kubepeep.Resources.Cache.Subscription.{
  Codec, WatchSnapshot, CacheSubscription, CacheRefreshToken, cache_write_fenced, ok, err,
  update_entry, begin_refresh, commit_validated,
}
use kubepeep.Resources.Cache.Subscription.Calls.{Call, begins_refresh, perform, run}
use kubepeep.Resources.Cache.Subscription.Epochs.{IsHeldRun, begin_refresh-IsLater, run-IsLater}

module _ {ℓ} {S : Type ℓ} where
  update_epochs :
      (k : String) (f : ResourceCacheEntry S → ResourceCacheEntry S) (c : ResourceCache S)
      → (update_entry k f c).key_epoch ≡ c.key_epoch
  unfolding update_entry
  update_epochs k f c = ground arith

  -- The token of a refresh carries the epoch that the refresh writes, one more than the one before.
  begin_refresh_token :
      (n : ℕ) (s : CacheSubscription) (c : ResourceCache S) {t : CacheRefreshToken}
      → (begin_refresh n s c).1 ≡ ok t
      → (t.identity ≡ s.key.identity)
        × (t.key_epoch ≡ u64_next (read s.key.identity c.key_epoch))
        × (read s.key.identity (begin_refresh n s c).0.key_epoch ≡ t.key_epoch)
  unfolding begin_refresh
  begin_refresh_token n s c h =
      let epoch = u64_next (read s.key.identity c.key_epoch) in
      ground (
        arith,
        update_epochs s.key.identity (λ entry. record entry { refreshing = true; last_used = n })
            (record c { key_epoch = insert s.key.identity epoch c.key_epoch }),
        lookup-insert_self s.key.identity epoch c.key_epoch,
      )

  commit_stale_token :
      (now : ℕ) (s : CacheSubscription) (t : CacheRefreshToken) (snapshot : S) (size : ℕ)
      (partial : Bool) (c : ResourceCache S)
      → t.key_epoch ≢ read t.identity c.key_epoch
      → commit_validated now s t snapshot size partial c ≡ (c, err cache_write_fenced)
  unfolding commit_validated
  commit_stale_token now s t snapshot size partial c h =
      ground (arith, eq_iff t.identity s.key.identity)

module _ {ℓ} {Item : Type ℓ} (codec : Codec Item) where
  -- A refresh token that a later refresh of the same key has replaced commits nothing and changes
  -- nothing, whichever subscription presents it, and whatever calls come between the two refreshes and
  -- before the commit, as long as none of them closes the last subscription to the key. (The key is
  -- subscribed to, and its epoch has not wrapped.)
  pub begin_refresh_supersedes :
      (n₁ n₂ now : ℕ) (s₁ s₂ s : CacheSubscription) (c : ResourceCache (WatchSnapshot Item))
      (xs ys : List (Call Item)) (t₁ t₂ : CacheRefreshToken) (snapshot : WatchSnapshot Item)
      (size : ℕ) (partial : Bool)
      → (begin_refresh n₁ s₁ c).1 ≡ ok t₁
      → let k = s₁.key.identity in
        let c₁ = (begin_refresh n₁ s₁ c).0 in
        let d = run codec c₁ xs in
        let e = run codec d (begins_refresh n₂ s₂ ∷ ys) in
        1 ≤ read k c₁.refs
        → IsHeldRun codec k c₁ xs
        → s₂.key.identity ≡ k
        → (begin_refresh n₂ s₂ d).1 ≡ ok t₂
        → IsHeldRun codec k d (begins_refresh n₂ s₂ ∷ ys)
        → commit_validated now s t₁ snapshot size partial e ≡ (e, err cache_write_fenced)
  unfolding run perform
  begin_refresh_supersedes n₁ n₂ now s₁ s₂ s c xs ys t₁ t₂ snapshot size partial h₁ held kept₁ same
        h₂ (_, small, kept₂) =
      let k = s₁.key.identity in
      let c₁ = (begin_refresh n₁ s₁ c).0 in
      let d = run codec c₁ xs in
      let d₂ = (begin_refresh n₂ s₂ d).0 in
      let first = begin_refresh_token n₁ s₁ c h₁ in
      let second = begin_refresh_token n₂ s₂ d h₂ in
      let before = run-IsLater codec k c₁ xs held kept₁ in
      let between = begin_refresh-IsLater k n₂ s₂ d before.0 (omega (arith, small)) in
      let after = run-IsLater codec k d₂ ys between.0 kept₂ in
      commit_stale_token now s t₁ snapshot size partial (run codec d₂ ys)
        (ground (arith, first, second, before, after, same, small))
