-- ===== src/Resources/Cache/Subscription/Epochs.antt =====
-- The epoch of a key of internal/services/resources/cache.go only grows while the key is referenced.
use kubepeep.Base.{
  ℕ, ◌+◌, ◌-◌, ◌^◌, ◌≤◌, ◌<◌, ◌≡◌, ◌≢◌, refl, String, str_eq, eq_iff, Bool, true, false, Option,
  none, some, List, [], ◌∷◌, arith, inl, inr, Dict, length, lookup, insert, lookup-insert,
  lookup-insert_self, lookup-insert_ne, lookup-delete_ne, Bool-cases,
}
use kubepeep.Resources.Cache.{
  ResourceCache, ResourceCacheKey, ResourceCacheEntry, read, u64_next, remove_entry_locked,
}
use kubepeep.Resources.Cache.Eviction.{
  Candidate, evict_until, evict_for_locked, make_room, entry_bytes, sort_candidates, candidates,
  previous_bytes, added_entries,
}
use kubepeep.Resources.Cache.Subscription.{
  Codec, WatchSnapshot, CacheSubscription, CacheRefreshToken, Result-cases, subscribe, update_entry,
  begin_refresh, store, commit_validated, commit, abort_refresh, mark_stale, close, invalidate,
  invalidate_key, invalidate_keys, invalidate_generation, evict_idle, evict_inactive,
  validated_cache_snapshot, load,
}
use kubepeep.Resources.Cache.Subscription.Calls.{
  Call, subscribes, loads, begins_refresh, commits, aborts_refresh, marks_stale, closes,
  invalidates, invalidates_generation, evicts_inactive, perform, run,
}

module _ {ℓ} {S : Type ℓ} (k : String) where
  -- The key's references and its epoch are as they were.
  abbrev IsSame : ResourceCache S → ResourceCache S → Type 0
  IsSame c d = (read k d.refs ≡ read k c.refs) × (read k d.key_epoch ≡ read k c.key_epoch)

  -- It is still referenced, and its epoch has grown by at most `n`.
  abbrev IsGrown : ℕ → ResourceCache S → ResourceCache S → Type 0
  IsGrown n c d =
      (read k d.refs ≡ read k c.refs)
      × (read k c.key_epoch ≤ read k d.key_epoch)
      × (read k d.key_epoch ≤ read k c.key_epoch + n)

  remove-IsSame :
      (i : String) (eviction : Bool) (c : ResourceCache S)
      → 1 ≤ read k c.refs
      → IsSame c (remove_entry_locked i eviction c)
  unfolding remove_entry_locked
  remove-IsSame i eviction c held = elim (Bool-cases (str_eq i k)) [
    | inl q ↦ let here : i ≡ k = (eq_iff i k).0 q in ground (arith, held, here)
    | inr q ↦ ground (arith, held, q, eq_iff i k, lookup-delete_ne i k c.key_epoch)
  ]

  update-IsSame :
      (i : String) (f : ResourceCacheEntry S → ResourceCacheEntry S) (c : ResourceCache S)
      → IsSame c (update_entry i f c)
  unfolding update_entry
  update-IsSame i f c = ground arith

  evict_until-IsSame :
      (c : ResourceCache S) (cs : List Candidate) (b n : ℕ)
      → 1 ≤ read k c.refs
      → IsSame c (evict_until c cs b n).0
  unfolding evict_until
  evict_until-IsSame c [] b n held = (refl, refl)
  evict_until-IsSame c (x ∷ xs) b n held =
      let one = remove-IsSame x.identity true c held in
      let rest =
        evict_until-IsSame (remove_entry_locked x.identity true c) xs
          (b - entry_bytes (lookup x.identity c.entries)) (n - 1) (omega (arith, one, held)) in
      ground (arith, one, rest)

  evict_idle-IsSame :
      (now idle_for : ℕ) (m : Dict (ResourceCacheEntry S)) (c : ResourceCache S)
      → 1 ≤ read k c.refs
      → IsSame c (evict_idle now idle_for m c).0
  unfolding evict_idle
  evict_idle-IsSame now idle_for [] c held = (refl, refl)
  evict_idle-IsSame now idle_for ((i, e) ∷ m) c held =
      let one = remove-IsSame i true c held in
      let kept = evict_idle-IsSame now idle_for m c held in
      let rest =
        evict_idle-IsSame now idle_for m (remove_entry_locked i true c)
          (omega (arith, one, held)) in
      ground (arith, one, kept, rest)

  invalidate_key-IsGrown :
      (g : String) (p : String × ResourceCacheKey) (c : ResourceCache S)
      → 1 ≤ read k c.refs
      → read k c.key_epoch + 1 < 2 ^ 64
      → IsGrown 1 c (invalidate_key g p c)
  unfolding invalidate_key
  invalidate_key-IsGrown g (i, key) c held small =
      let one = remove-IsSame i false c held in
      let removed = remove_entry_locked i false c in
      let epoch = u64_next (read i removed.key_epoch) in
      let put = lookup-insert i k epoch removed.key_epoch in
      ground (arith, one, put, eq_iff i k, small)

  invalidate_keys-IsGrown :
      (g : String) (ps : Dict ResourceCacheKey) (c : ResourceCache S)
      → 1 ≤ read k c.refs
      → read k c.key_epoch + length ps < 2 ^ 64
      → IsGrown (length ps) c (invalidate_keys g ps c)
  unfolding invalidate_keys
  invalidate_keys-IsGrown g [] c held small = (refl, omega arith, omega arith)
  invalidate_keys-IsGrown g (p ∷ ps) c held small =
      let one = invalidate_key-IsGrown g p c held (omega (arith, small)) in
      let rest =
        invalidate_keys-IsGrown g ps (invalidate_key g p c) (omega (arith, one, held))
          (omega (arith, one, small)) in
      omega (arith, one, rest)

  store-IsSame :
      (now : ℕ) (s : CacheSubscription) (snapshot : S) (size : ℕ) (partial : Bool)
      (c : ResourceCache S) (done : Bool)
      → IsSame c (store now s snapshot size partial (c, done)).0
  unfolding store
  store-IsSame now s snapshot size partial c false =
      update-IsSame s.key.identity (λ entry. record entry { refreshing = false }) c
  store-IsSame now s snapshot size partial c true = (refl, refl)

  make_room-IsSame :
      (now : ℕ) (exclude : String) (size : ℕ) (c : ResourceCache S)
      → 1 ≤ read k c.refs
      → IsSame c (make_room now exclude size c).0
  unfolding evict_for_locked
  make_room-IsSame now exclude size c held = ground (
    arith,
    evict_until-IsSame c (sort_candidates (candidates now exclude c.refs c.entries))
        (c.bytes + size - previous_bytes exclude c) (length c.entries + added_entries exclude c)
        held,
  )

  commit_validated-IsSame :
      (now : ℕ) (s : CacheSubscription) (t : CacheRefreshToken) (snapshot : S) (size : ℕ)
      (partial : Bool) (c : ResourceCache S)
      → 1 ≤ read k c.refs
      → IsSame c (commit_validated now s t snapshot size partial c).0
  unfolding commit_validated
  commit_validated-IsSame now s t snapshot size partial c held =
      let roomy = make_room now s.key.identity size c in
      ground (
        arith,
        store-IsSame now s snapshot size partial c false,
        store-IsSame now s snapshot size partial roomy.0 roomy.1,
        make_room-IsSame now s.key.identity size c held,
      )

  -- Still referenced, with an epoch that is no less.
  abbrev pub IsLater : ResourceCache S → ResourceCache S → Type 0
  IsLater c d = (1 ≤ read k d.refs) × (read k c.key_epoch ≤ read k d.key_epoch)

  pub begin_refresh-IsLater :
      (now : ℕ) (s : CacheSubscription) (c : ResourceCache S)
      → 1 ≤ read k c.refs
      → read k c.key_epoch + 1 < 2 ^ 64
      → IsLater c (begin_refresh now s c).0
  unfolding begin_refresh
  begin_refresh-IsLater now s c held small =
      let i = s.key.identity in
      let epoch = u64_next (read i c.key_epoch) in
      ground (
        arith,
        held,
        small,
        eq_iff i k,
        lookup-insert i k epoch c.key_epoch,
        update-IsSame i (λ entry. record entry { refreshing = true; last_used = now })
            (record c { key_epoch = insert i epoch c.key_epoch }),
      )

  subscribe-IsLater :
      (key : Option ResourceCacheKey) (c : ResourceCache S)
      → 1 ≤ read k c.refs
      → IsLater c (subscribe key c).0
  unfolding subscribe
  subscribe-IsLater none c held = (held, omega arith)
  subscribe-IsLater (some key) c held = ground (
    arith,
    held,
    eq_iff key.identity k,
    lookup-insert key.identity k (read key.identity c.refs + 1) c.refs,
  )

  invalidate-IsLater :
      (key : Option ResourceCacheKey) (c : ResourceCache S)
      → 1 ≤ read k c.refs
      → read k c.key_epoch + 1 < 2 ^ 64
      → IsLater c (invalidate key c).0
  unfolding invalidate
  invalidate-IsLater none c held small = (held, omega arith)
  invalidate-IsLater (some key) c held small =
      let i = key.identity in
      let epoch = u64_next (read i c.key_epoch) in
      ground (
        arith,
        held,
        small,
        eq_iff i k,
        lookup-insert i k epoch c.key_epoch,
        remove-IsSame i false (record c { key_epoch = insert i epoch c.key_epoch }) held,
      )

  invalidate_generation-IsLater :
      (g : String) (c : ResourceCache S)
      → 1 ≤ read k c.refs
      → read k c.key_epoch + length c.keys < 2 ^ 64
      → IsLater c (invalidate_generation g c)
  unfolding invalidate_generation
  invalidate_generation-IsLater g c held small =
      let marked = record c {
        generation_epoch = insert g (u64_next (read g c.generation_epoch)) c.generation_epoch;
        invalidated_generation = insert g tt c.invalidated_generation;
      } in
      ground (arith, held, invalidate_keys-IsGrown g c.keys marked held small)

  -- A close of the key leaves a reference.
  abbrev pub LeavesReference : CacheSubscription → ResourceCache S → Type 0
  LeavesReference s c = s.closed ≡ false → s.key.identity ≡ k → 2 ≤ read k c.refs

  close-IsLater :
      (s : CacheSubscription) (c : ResourceCache S)
      → 1 ≤ read k c.refs
      → LeavesReference s c
      → IsLater c (close s c).0
  unfolding close
  close-IsLater s c held leaves = elim (Bool-cases s.closed) [
    | inl q ↦ rw q (held, omega arith)
    | inr q ↦ elim (Bool-cases (str_eq s.key.identity k)) [
      | inl p ↦
          let here : s.key.identity ≡ k = (eq_iff s.key.identity k).0 p in
          let two = leaves q here in
          ground (arith, q, here, two, lookup-insert_self k (read k c.refs - 1) c.refs)
      | inr p ↦
          let other : s.key.identity ≢ k = λ e. ground (arith, p, e, eq_iff s.key.identity k) in
          ground (
            arith,
            q,
            held,
            lookup-insert_ne s.key.identity k (read s.key.identity c.refs - 1) c.refs other,
            lookup-delete_ne s.key.identity k c.refs other,
            lookup-delete_ne s.key.identity k c.key_epoch other,
          )
    ]
  ]

module _ {ℓ} {Item : Type ℓ} (codec : Codec Item) (k : String) where
  -- A call that keeps the key referenced and its epoch from wrapping.
  abbrev pub KeepsReference : Call Item → ResourceCache (WatchSnapshot Item) → Type 0
  KeepsReference (closes s) c = LeavesReference k s c
  KeepsReference _ c = Unit {0}

  abbrev pub IsHeldRun : ResourceCache (WatchSnapshot Item) → List (Call Item) → Type 0
  IsHeldRun c [] = Unit
  IsHeldRun c (x ∷ xs) =
      KeepsReference x c
      × (read k c.key_epoch + length c.keys + 1 < 2 ^ 64)
      × IsHeldRun (perform codec c x) xs

  commit-IsSame :
      (now : ℕ) (s : CacheSubscription) (t : CacheRefreshToken) (snapshot : WatchSnapshot Item)
      (partial : Bool) (c : ResourceCache (WatchSnapshot Item))
      → 1 ≤ read k c.refs
      → IsSame k c (commit codec now s t snapshot partial c).0
  unfolding commit
  commit-IsSame now s t snapshot partial c held =
      elim (Result-cases (validated_cache_snapshot codec s.key.topic snapshot)) [
        | inl (e, r) ↦ ground (arith, r)
        | inr ((cloned, size), r) ↦
            ground (arith, r, commit_validated-IsSame k now s t cloned size partial c held)
      ]

  perform-IsLater :
      (c : ResourceCache (WatchSnapshot Item)) (x : Call Item)
      → 1 ≤ read k c.refs
      → KeepsReference x c
      → read k c.key_epoch + length c.keys + 1 < 2 ^ 64
      → IsLater k c (perform codec c x)
  unfolding perform load abort_refresh mark_stale evict_inactive
  perform-IsLater c (subscribes key) held keeps small = subscribe-IsLater k key c held
  perform-IsLater c (loads now s) held keeps small =
      ground
        (arith, held, update-IsSame k s.key.identity (λ entry. record entry { last_used = now }) c)
  perform-IsLater c (begins_refresh now s) held keeps small =
      begin_refresh-IsLater k now s c held (omega (arith, small))
  perform-IsLater c (commits now s t snapshot partial) held keeps small =
      ground (arith, held, commit-IsSame now s t snapshot partial c held)
  perform-IsLater c (aborts_refresh t s) held keeps small =
      ground (
        arith,
        held,
        update-IsSame k s.key.identity (λ entry. record entry { refreshing = false }) c,
      )
  perform-IsLater c (marks_stale now s) held keeps small = ground (
    arith,
    held,
    update-IsSame k s.key.identity (λ entry. record entry { fresh_until = now; refreshing = false })
        c,
  )
  perform-IsLater c (closes s) held keeps small = close-IsLater k s c held keeps
  perform-IsLater c (invalidates key) held keeps small =
      invalidate-IsLater k key c held (omega (arith, small))
  perform-IsLater c (invalidates_generation g) held keeps small =
      invalidate_generation-IsLater k g c held (omega (arith, small))
  perform-IsLater c (evicts_inactive now idle_for) held keeps small =
      ground (arith, held, evict_idle-IsSame k now idle_for c.entries c held)

  pub run-IsLater :
      (c : ResourceCache (WatchSnapshot Item)) (xs : List (Call Item))
      → 1 ≤ read k c.refs
      → IsHeldRun c xs
      → IsLater k c (run codec c xs)
  unfolding run
  run-IsLater c [] held h = (held, omega arith)
  run-IsLater c (x ∷ xs) held (keeps, small, h) =
      let one = perform-IsLater c x held keeps small in
      let rest = run-IsLater (perform codec c x) xs one.0 h in omega (arith, one, rest)
