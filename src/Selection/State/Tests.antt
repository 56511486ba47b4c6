-- ===== src/Selection/State/Tests.antt =====
-- Concrete runs of the selection and of the nonce: two requests from the start-up selection of
-- internal/services/selection/state.go.
use kubepeep.Base.{
  ℕ, ◌≡◌, ◌≢◌, ◌↔◌, refl, ◌<◌, String, Bool, true, false, some, List, [], ◌∷◌, map, arith, ◌⊎◌,
  eq_iff,
}
use kubepeep.Api.Session.{SessionStore, SessionData, current, validate as validate_nonce}
use kubepeep.Api.Session.Nonces.{current-validate}
use kubepeep.Selection.Coordinator.{
  Result, ok, err, superseded, Coordinator, Intent, Surroundings, begin, cancel, validate,
  commit_conditional,
}
use kubepeep.Selection.Coordinator.Commits.{
  IsKept, IsPublished, begin-commit_superseded, commit_outcome,
}
use kubepeep.Selection.Coordinator.Newest.{Commits, commit_conditional-Commits}
use kubepeep.Selection.State.{
  SelectionBinding, scope_mode_single, ScopeResolution, SelectionMutation, mutates, Finds, System,
  starting, check, run,
}
use kubepeep.Selection.State.Serial.{run_serial}

abbrev store : SessionStore
store = record { ttl = 60; token = "n0"; generation = "g0"; expires_at = 50 }

abbrev opened : Coordinator
opened = record {
  generation = "g0";
  sessions = store;
  sequence = 0;
  canceled = [];
  work = 0;
  stopped_work = [];
  announced = [];
}

abbrev chosen : SelectionBinding
chosen = record {
  cluster_profile_id = 1;
  context = "dev";
  cluster = "kind";
  active_scope_id = 2;
  generation = "g0";
}

abbrev scope : ScopeResolution
scope = record {
  scope_id = 3;
  scope_name = "payments";
  scope_mode = scope_mode_single;
  scope_source = "saved";
  default_namespace = some "payments";
  namespaces = "payments" ∷ [];
  prefer_global = false;
}

abbrev system : System
system = record { coordinator = opened; state = record { binding = chosen; resolution = scope } }

abbrev activation : SelectionBinding → Result SelectionMutation
activation b = ok (record { publish_generation = true; activation = some scope })

abbrev around : Surroundings
around = record {
  parent_canceled = false;
  next_generation = some "g1";
  nonce = some "n1";
  now = 10;
}

abbrev finds : Finds
finds = record { surroundings = around; preparation = ok (mutates activation) }

-- The first request begins, and then the second one runs up to its commit.
abbrev schedule : List (ℕ × Finds)
schedule =
    (0, finds) ∷ (1, finds) ∷ (1, finds) ∷ (1, finds) ∷ (1, finds) ∷ (1, finds) ∷ (1, finds) ∷ []

abbrev reached : System
reached = (run system (map starting ("g0" ∷ "g0" ∷ [])) schedule).0

run_serial_example : reached.state.binding ≡ chosen
unfolding run check begin validate
run_serial_example =
    run_serial system ("g0" ∷ "g0" ∷ []) schedule 1 (record { sequence = 2 }) "g0" chosen
      (mutates activation) false (omega arith) refl refl

abbrev first : Intent
first = (begin opened).1

abbrev publish_all : Bool → Bool
publish_all b = b

abbrev store_length : String → Bool → ℕ → ℕ
store_length g m s = 1

begin-commit_superseded_example :
    let c = (begin opened).0 in
    commit_conditional around
      (record { sequence = 0 })
      "g0"
      (λ s. ok true)
      publish_all
      store_length
      c
      0
    ≡ (cancel (record { sequence = 0 }) c, 0, err superseded)
begin-commit_superseded_example =
    begin-commit_superseded around (record { sequence = 0 }) "g0" (λ s. ok true) publish_all
      store_length opened 0 (omega arith) (omega arith)

abbrev outcome : Coordinator × ℕ × Result String
outcome =
    commit_conditional around first "g0" (λ s. ok true) publish_all store_length (begin opened).0 0

commit_outcome_example :
    let (d, s, r) = outcome in IsKept (begin opened).0 d r ⊎ IsPublished around (begin opened).0 d r
commit_outcome_example =
    commit_outcome around first "g0" (λ s. ok true) publish_all store_length (begin opened).0 0
      (λ g. λ q. cc)

abbrev handed_out : SessionData
handed_out = record {
  csrf_token = "n1";
  origin = "http://127.0.0.1";
  generation = "g0";
  expires_at = 160;
}

abbrev given_nonce : String
given_nonce = "n1"

empty_ne : given_nonce ≢ ""
empty_ne = λ e. ground (arith, eq_iff given_nonce "", e)

current-validate_example :
    (validate_nonce "n1" handed_out.generation 159
        (current "http://127.0.0.1" "g0" (some "n1") 100 store).0
      ≡ true)
    ↔ (("n1" ≡ handed_out.csrf_token)
        × (handed_out.generation ≡ "g0")
        × (159 < handed_out.expires_at))
unfolding current
current-validate_example =
    current-validate "http://127.0.0.1" "g0" "n1" "g0" "n1" 100 159 store handed_out empty_ne refl

commit_conditional-Commits_example : Commits first (begin opened).0 0 outcome
commit_conditional-Commits_example =
    commit_conditional-Commits around first "g0" (λ s. ok true) publish_all store_length
      (begin opened).0 0
