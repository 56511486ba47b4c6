-- ===== src/Selection/Coordinator.antt =====
-- internal/services/selection/coordinator.go: intents, and the commit that publishes a generation.
-- Contexts are numbers: an intent's is its sequence number, and `canceled` holds those whose cancel
-- function has been called; work contexts are numbered in the order in which they are made. The hooks
-- are seen through the generations that they are called with.
pub mod Commits
pub mod Newest
use kubepeep.Base.{
  ℕ, ◌+◌, ◌%◌, ◌^◌, String, str_eq, Bool, true, false, not, ◌&&◌, ◌||◌, Option, none, some, List,
  [], ◌∷◌, ◌==◌, if◌then◌else◌,
}
use kubepeep.Api.Session.{SessionStore, rotate}

pub data SelectionError : Type 0 where
  superseded generation_changed invalid published_generation : SelectionError
  published_csrf : String → SelectionError
  upstream : ℕ → SelectionError

pub data Result {ℓ} (A : Type ℓ) : Type ℓ where
  ok : A → Result A
  err : SelectionError → Result A

pub record Coordinator : Type 0 where
  pub generation : String
  pub sessions : SessionStore
  pub sequence : ℕ
  pub canceled : List ℕ
  pub work : ℕ
  pub stopped_work : List ℕ
  pub announced : List String

pub record Intent : Type 0 where
  pub sequence : ℕ

-- A mutator's view of its intent's parent context, and what the random sources and the clock give it.
pub record Surroundings : Type 0 where
  pub parent_canceled : Bool
  pub next_generation : Option String
  pub nonce : Option String
  pub now : ℕ

unfoldable pub new_coordinator : String → SessionStore → Option Coordinator
new_coordinator generation sessions =
    if str_eq generation ""
    then none
    else some (record {
      generation = generation;
      sessions = sessions;
      sequence = 0;
      canceled = [];
      work = 0;
      stopped_work = [];
      announced = [];
    })

abbrev pub contains : ℕ → List ℕ → Bool
contains n [] = false
contains n (x ∷ xs) = x == n || contains n xs

-- `intentStop` cancels the intent of the current sequence number; before the first intent there is
-- none, and number 0 is never used.
unfoldable pub begin : Coordinator → Coordinator × Intent
begin c =
    let next = (c.sequence + 1) % 2 ^ 64 in
    (record c { canceled = c.sequence ∷ c.canceled; sequence = next }, record { sequence = next })

unfoldable pub cancel : Intent → Coordinator → Coordinator
cancel i c = record c { canceled = i.sequence ∷ c.canceled }

unfoldable pub close : Coordinator → Coordinator
close c = record c { canceled = c.sequence ∷ c.canceled; stopped_work = c.work ∷ c.stopped_work }

unfoldable pub validate : Bool → Intent → String → Coordinator → Option SelectionError
validate parent_canceled i expected c =
    if not (i.sequence == c.sequence) || parent_canceled || contains i.sequence c.canceled
    then some superseded
    else if str_eq expected "" || not (str_eq expected c.generation)
    then some generation_changed
    else none

-- The publication: generation, work context and hooks. The state's own update and the nonce follow.
unfoldable pub publish : String → Coordinator → Coordinator
publish next c = record c {
  generation = next;
  stopped_work = c.work ∷ c.stopped_work;
  work = c.work + 1;
  announced = next ∷ c.announced;
}

module _ {ℓ κ} {S : Type ℓ} {M : Type κ} where
  -- What a transaction has decided is applied, and then the nonce rotates.
  publish_commit :
      Surroundings
      → (String → M → S → S)
      → M
      → Coordinator
      → S
      → Option String
      → Coordinator × S × Result String
  publish_commit e after m c s none = (c, s, err published_generation)
  publish_commit e after m c s (some next) =
      let d = publish next c in
      let (sessions, rotated) = rotate e.nonce next e.now d.sessions in
      (
        record d { sessions = sessions },
        after next m s,
        if rotated then ok next else err (published_csrf next),
      )

  run_transaction :
      Surroundings
      → (M → Bool)
      → (String → M → S → S)
      → Coordinator
      → S
      → Result M
      → Coordinator × S × Result String
  unfolding publish_commit
  run_transaction e publishes after c s (err x) = (c, s, err x)
  run_transaction e publishes after c s (ok m) =
      if publishes m
      then publish_commit e after m c s e.next_generation
      else (c, after c.generation m s, ok c.generation)

  commit_checked :
      Surroundings
      → Intent
      → (S → Result M)
      → (M → Bool)
      → (String → M → S → S)
      → Coordinator
      → S
      → Option SelectionError
      → Coordinator × S × Result String
  unfolding run_transaction
  commit_checked e i transaction publishes after c s (some x) = (cancel i c, s, err x)
  commit_checked e i transaction publishes after c s none =
      let (d, t, r) = run_transaction e publishes after c s (transaction s) in (cancel i d, t, r)

  -- `CommitConditional`. The transaction reads the state under the lock; `after` is `afterPublish`.
  unfoldable pub commit_conditional :
      Surroundings
      → Intent
      → String
      → (S → Result M)
      → (M → Bool)
      → (String → M → S → S)
      → Coordinator
      → S
      → Coordinator × S × Result String
  unfolding commit_checked
  commit_conditional e i expected transaction publishes after c s =
      commit_checked e i transaction publishes after c s (validate e.parent_canceled i expected c)

module _ {ℓ} {S : Type ℓ} where
  -- `Commit` runs a transaction that decides nothing: it publishes unless it fails.
  pub commit :
      Surroundings
      → Intent
      → String
      → (S → Option SelectionError)
      → Coordinator
      → S
      → Coordinator × S × Result String
  unfolding commit_conditional
  commit e i expected transaction c s =
      commit_conditional e i expected
        (λ t. elim (transaction t) [ none ↦ ok true | some x ↦ err x ]) (λ m. m) (λ g. λ m. λ t. t)
        c s
