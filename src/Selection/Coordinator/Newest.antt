-- ===== src/Selection/Coordinator/Newest.antt =====
-- A commit of internal/services/selection/coordinator.go acts for the newest intent only.
use kubepeep.Base.{
  ◌≡◌, refl, String, Bool, Option, none, some, ◌∷◌, ◌⊎◌, inl, inr, arith, Bool-cases,
}
use kubepeep.Selection.Coordinator.{
  SelectionError, Result, ok, err, Coordinator, Intent, Surroundings, cancel, publish, validate,
  publish_commit, run_transaction, commit_checked, commit_conditional,
}

-- A commit cancels its intent, and changes the state only if that intent is the newest one.
abbrev pub Commits {ℓ} :
    {S : Type ℓ} → Intent → Coordinator → S → Coordinator × S × Result String → Type ℓ
Commits i c s (d, t, r) =
    (d.sequence ≡ c.sequence)
    × (d.canceled ≡ i.sequence ∷ c.canceled)
    × ((t ≡ s) ⊎ (i.sequence ≡ c.sequence))

pub validate_newest :
    (p : Bool) (i : Intent) (expected : String) (c : Coordinator)
    → validate p i expected c ≡ none
    → i.sequence ≡ c.sequence
unfolding validate
validate_newest p i expected c h = ground arith

module _ {ℓ κ} {S : Type ℓ} {M : Type κ} where
  publish_commit-Commits :
      (e : Surroundings) (after : String → M → S → S) (m : M) (c : Coordinator) (s : S)
      (o : Option String) (i : Intent)
      → i.sequence ≡ c.sequence
      → let (d, t, r) = publish_commit e after m c s o in Commits i c s (cancel i d, t, r)
  unfolding publish_commit publish cancel
  publish_commit-Commits e after m c s none i h = (refl, refl, inr h)
  publish_commit-Commits e after m c s (some next) i h = (refl, refl, inr h)

  run_transaction-Commits :
      (e : Surroundings) (publishes : M → Bool) (after : String → M → S → S) (c : Coordinator)
      (s : S) (r : Result M) (i : Intent)
      → i.sequence ≡ c.sequence
      → let (d, t, r') = run_transaction e publishes after c s r in
        Commits i c s (cancel i d, t, r')
  unfolding run_transaction cancel
  run_transaction-Commits e publishes after c s (err x) i h = (refl, refl, inr h)
  run_transaction-Commits e publishes after c s (ok m) i h = elim (Bool-cases (publishes m)) [
    | inl q ↦ rw q (publish_commit-Commits e after m c s e.next_generation i h)
    | inr q ↦ rw q (refl, refl, inr h)
  ]

  commit_checked-Commits :
      (e : Surroundings) (i : Intent) (transaction : S → Result M) (publishes : M → Bool)
      (after : String → M → S → S) (c : Coordinator) (s : S) (o : Option SelectionError)
      → (o ≡ none → i.sequence ≡ c.sequence)
      → Commits i c s (commit_checked e i transaction publishes after c s o)
  unfolding commit_checked cancel
  commit_checked-Commits e i transaction publishes after c s (some x) h = (refl, refl, inl refl)
  commit_checked-Commits e i transaction publishes after c s none h =
      run_transaction-Commits e publishes after c s (transaction s) i (h refl)

  -- A commit cancels its intent, and changes the state only if that intent is the newest one.
  pub commit_conditional-Commits :
      (e : Surroundings) (i : Intent) (expected : String) (transaction : S → Result M)
      (publishes : M → Bool) (after : String → M → S → S) (c : Coordinator) (s : S)
      → Commits i c s (commit_conditional e i expected transaction publishes after c s)
  unfolding commit_conditional
  commit_conditional-Commits e i expected transaction publishes after c s =
      commit_checked-Commits e i transaction publishes after c s
        (validate e.parent_canceled i expected c) (validate_newest e.parent_canceled i expected c)
