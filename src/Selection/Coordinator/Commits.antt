-- ===== src/Selection/Coordinator/Commits.antt =====
-- What a commit of internal/services/selection/coordinator.go publishes.
use kubepeep.Base.{
  ◌+◌, ◌≤◌, ◌<◌, ◌≡◌, ◌≢◌, refl, String, str_eq, Bool, true, false, Option, none, some, ◌∷◌, ap,
  arith, ◌⊎◌, inl, inr, Bool-cases, Option-cases, ◌^◌,
}
use kubepeep.Api.Session.{SessionStore, rotate}
use kubepeep.Selection.Coordinator.{
  SelectionError, superseded, published_csrf, Result, ok, err, Coordinator, Intent, Surroundings,
  begin, cancel, publish, validate, contains, publish_commit, run_transaction, commit_checked,
  commit_conditional,
}

-- Nothing was published: the generation, the session, the work context and the announcements stay.
abbrev pub IsKept : Coordinator → Coordinator → Result String → Type 0
IsKept c d r =
    (d.generation ≡ c.generation)
    × (d.work ≡ c.work)
    × (d.sessions ≡ c.sessions)
    × (d.announced ≡ c.announced)
    × ((g : String) → r ≢ err (published_csrf g))

-- The store holds a nonce for a generation that was drawn in this commit, with its full time to live.
abbrev pub IsRotated : Surroundings → String → SessionStore → SessionStore → Type 0
IsRotated e g before after =
    (e.nonce ≡ some after.token) × (after.generation ≡ g) × (after.expires_at ≡ e.now + before.ttl)

-- The generation was published: the old work context is stopped and the hooks have been called. The
-- result is the generation where the nonce was rotated for it, and otherwise an error of its own with
-- the session as it was.
abbrev pub IsPublished : Surroundings → Coordinator → Coordinator → Result String → Type 0
IsPublished e c d r =
    (g : String) × (e.next_generation ≡ some g)
    × (d.generation ≡ g)
    × (d.work ≡ c.work + 1)
    × (contains c.work d.stopped_work ≡ true)
    × (d.announced ≡ g ∷ c.announced)
    × (((r ≡ ok g) × IsRotated e g c.sessions d.sessions)
        ⊎ ((r ≡ err (published_csrf g)) × (d.sessions ≡ c.sessions)))

validate-begin :
    (p : Bool) (i : Intent) (expected : String) (c : Coordinator)
    → i.sequence ≤ c.sequence
    → c.sequence + 1 < 2 ^ 64
    → validate p i expected (begin c).0 ≡ some superseded
unfolding begin validate
validate-begin p i expected c h w = ground arith

rotate-cases :
    (e : Surroundings) (g : String) (s : SessionStore)
    → (((rotate e.nonce g e.now s).1 ≡ true) × IsRotated e g s (rotate e.nonce g e.now s).0)
      ⊎ (((rotate e.nonce g e.now s).1 ≡ false) × ((rotate e.nonce g e.now s).0 ≡ s))
unfolding rotate
rotate-cases e g s = elim (Option-cases e.nonce) [
  | inl q ↦ inr (rw q (ground arith))
  | inr (n, q) ↦ elim (Bool-cases (str_eq g "")) [
    | inl p ↦ inr (rw (q, p) (refl, refl))
    | inr p ↦ inl (rw (q, p) (refl, (refl, refl, refl)))
  ]
]

validate_plain :
    (p : Bool) (i : Intent) (expected : String) (c : Coordinator) (g : String)
    → validate p i expected c ≢ some (published_csrf g)
unfolding validate
validate_plain p i expected c g = λ q. ground arith

module _ {ℓ κ} {S : Type ℓ} {M : Type κ} where
  -- An intent commits nothing once a newer one has begun, whatever generation it expects: the result
  -- is an error, and the state, the generation, the session and the work context stay. (The sequence
  -- number has not wrapped.)
  pub begin-commit_superseded :
      (e : Surroundings) (i : Intent) (expected : String) (transaction : S → Result M)
      (publishes : M → Bool) (after : String → M → S → S) (c : Coordinator) (s : S)
      → i.sequence ≤ c.sequence
      → c.sequence + 1 < 2 ^ 64
      → let c' = (begin c).0 in
        commit_conditional e i expected transaction publishes after c' s
        ≡ (cancel i c', s, err superseded)
  unfolding commit_conditional
  begin-commit_superseded e i expected transaction publishes after c s h w =
      ap (commit_checked e i transaction publishes after (begin c).0 s)
        (validate-begin e.parent_canceled i expected c h w)

  publish_commit-outcome :
      (e : Surroundings) (after : String → M → S → S) (m : M) (c : Coordinator) (s : S)
      (o : Option String) (i : Intent)
      → e.next_generation ≡ o
      → let (d, t, r) = publish_commit e after m c s o in
        IsKept c (cancel i d) r ⊎ IsPublished e c (cancel i d) r
  unfolding publish_commit publish cancel
  publish_commit-outcome e after m c s none i h = inl (refl, refl, refl, refl, λ g. λ q. cc)
  publish_commit-outcome e after m c s (some next) i h = elim (rotate-cases e next c.sessions) [
    | inl (q, rotated) ↦ inr (next, h, refl, refl, ground arith, refl, inl (rw q refl, rotated))
    | inr (q, same) ↦ inr (next, h, refl, refl, ground arith, refl, inr (rw q refl, same))
  ]

  run_transaction-outcome :
      (e : Surroundings) (publishes : M → Bool) (after : String → M → S → S) (c : Coordinator)
      (s : S) (r : Result M) (i : Intent)
      → ((g : String) → r ≢ err (published_csrf g))
      → let (d, t, r') = run_transaction e publishes after c s r in
        IsKept c (cancel i d) r' ⊎ IsPublished e c (cancel i d) r'
  unfolding run_transaction cancel
  run_transaction-outcome e publishes after c s (err x) i own =
      inl (refl, refl, refl, refl, λ g. λ q. own g (ground arith))
  run_transaction-outcome e publishes after c s (ok m) i own = elim (Bool-cases (publishes m)) [
    | inl q ↦ rw q (publish_commit-outcome e after m c s e.next_generation i refl)
    | inr q ↦ rw q (inl (refl, refl, refl, refl, λ g. λ q. cc))
  ]

  commit_checked-outcome :
      (e : Surroundings) (i : Intent) (transaction : S → Result M) (publishes : M → Bool)
      (after : String → M → S → S) (c : Coordinator) (s : S) (o : Option SelectionError)
      → ((g : String) → transaction s ≢ err (published_csrf g))
      → ((g : String) → o ≢ some (published_csrf g))
      → let (d, t, r) = commit_checked e i transaction publishes after c s o in
        IsKept c d r ⊎ IsPublished e c d r
  unfolding commit_checked cancel
  commit_checked-outcome e i transaction publishes after c s (some x) own other =
      inl (refl, refl, refl, refl, λ g. λ q. other g (ground arith))
  commit_checked-outcome e i transaction publishes after c s none own other =
      run_transaction-outcome e publishes after c s (transaction s) i own

  -- A commit either leaves the generation, the session, the work context and the announcements as they
  -- were, or it publishes the new generation together with a new work context and the call of the
  -- hooks, and then it either returns that generation, and the session holds a fresh nonce for it with
  -- its full time to live, or it returns the error that the nonce is missing and the session is as it
  -- was. A transaction has no publication error of its own.
  pub commit_outcome :
      (e : Surroundings) (i : Intent) (expected : String) (transaction : S → Result M)
      (publishes : M → Bool) (after : String → M → S → S) (c : Coordinator) (s : S)
      → ((g : String) → transaction s ≢ err (published_csrf g))
      → let (d, t, r) = commit_conditional e i expected transaction publishes after c s in
        IsKept c d r ⊎ IsPublished e c d r
  unfolding commit_conditional
  commit_outcome e i expected transaction publishes after c s own =
      commit_checked-outcome e i transaction publishes after c s
        (validate e.parent_canceled i expected c) own
        (λ g. validate_plain e.parent_canceled i expected c g)
