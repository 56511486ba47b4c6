-- ===== src/Selection/State.antt =====
-- internal/services/selection/state.go: the active selection, and the requests that change it. A
-- request runs `Mutate` or `ReplaceContextPrepared`, which share their steps; each critical section is
-- one move, so a schedule interleaves the requests in every way. Remote preparation is an input of a
-- move. An ID at or below 0 is 0 here.
pub mod Serial
mod Tests
use kubepeep.Base.{
  ℕ, zero, suc, ◌+◌, String, str_eq, Bool, true, false, not, ◌&&◌, ◌||◌, Option, none, some, List,
  [], ◌∷◌, ◌==◌, if◌then◌else◌,
}
use kubepeep.Selection.Coordinator.{
  SelectionError, superseded, generation_changed, invalid, Result, ok, err, Coordinator, Intent,
  Surroundings, begin, cancel, validate, commit_conditional,
}

pub record SelectionBinding : Type 0 where
  pub cluster_profile_id : ℕ
  pub context : String
  pub cluster : String
  pub active_scope_id : ℕ
  pub generation : String

pub data ScopeMode : Type 0 where
  scope_mode_single scope_mode_list scope_mode_all : ScopeMode

pub record ScopeResolution : Type 0 where
  pub scope_id : ℕ
  pub scope_name : String
  pub scope_mode : ScopeMode
  pub scope_source : String
  pub default_namespace : Option String
  pub namespaces : List String
  pub prefer_global : Bool

pub record SelectionMutation : Type 0 where
  pub publish_generation : Bool
  pub activation : Option ScopeResolution

pub record SelectionResult : Type 0 where
  pub generation : String
  pub binding : SelectionBinding
  pub resolution : ScopeResolution
  pub changed : Bool

pub record State : Type 0 where
  pub binding : SelectionBinding
  pub resolution : ScopeResolution

-- An empty generation stands for the current one; any other than that is refused.
unfoldable pub new_state : Coordinator → SelectionBinding → ScopeResolution → Result State
new_state c binding resolution =
    let used =
      if str_eq binding.generation ""
      then record binding { generation = c.generation }
      else binding in
    if str_eq used.generation c.generation
    then ok (record { binding = used; resolution = resolution })
    else err generation_changed

-- The start-up selection, once.
unfoldable pub initialize : Coordinator → SelectionBinding → ScopeResolution → State → State × Bool
initialize c binding resolution s =
    if binding.cluster_profile_id == 0 || str_eq binding.context ""
    then (s, false)
    else if not (s.binding.cluster_profile_id == 0) || not (str_eq s.binding.context "")
    then (s, false)
    else (
      record {
        binding = record binding {
          generation = c.generation;
          active_scope_id = resolution.scope_id;
        };
        resolution = resolution;
      },
      true,
    )

-- Whether `IfCurrent` runs its function.
unfoldable pub is_current : SelectionBinding → State → Bool
is_current b s =
    s.binding.cluster_profile_id == b.cluster_profile_id
    && str_eq s.binding.context b.context
    && str_eq s.binding.generation b.generation
    && s.binding.active_scope_id == b.active_scope_id

-- What a preparation hands over: the local commit of `Mutate`, or the new selection of
-- `ReplaceContextPrepared` with what its database transaction returns.
pub data Plan : Type 0 where
  mutates : (SelectionBinding → Result SelectionMutation) → Plan
  replaces : SelectionBinding → ScopeResolution → Option SelectionError → Plan

check_mutation : Result SelectionMutation → Result SelectionMutation
check_mutation (err x) = err x
check_mutation (ok m) = elim m.activation [
  | none ↦ if m.publish_generation then err invalid else ok m
  | some _ ↦ if m.publish_generation then ok m else err invalid
]

-- The transaction under the coordinator's lock.
transaction : String → Plan → State → Result SelectionMutation
unfolding check_mutation
transaction expected (mutates commit) s =
    if str_eq s.binding.generation expected
    then check_mutation (commit s.binding)
    else err generation_changed
transaction expected (replaces binding resolution failure) s =
    if str_eq s.binding.generation expected
    then elim failure [
      | some x ↦ err x
      | none ↦ ok (record { publish_generation = true; activation = some resolution })
    ]
    else err generation_changed

activate : String → Plan → ScopeResolution → State → State
activate generation (mutates commit) resolution s = record {
  binding = record s.binding { active_scope_id = resolution.scope_id; generation = generation };
  resolution = resolution;
}
activate generation (replaces binding _ failure) resolution s = record {
  binding = record binding { active_scope_id = resolution.scope_id; generation = generation };
  resolution = resolution;
}

-- `afterPublish`.
after_publish : Plan → String → SelectionMutation → State → State
unfolding activate
after_publish plan generation m s = elim m.activation [
  | none ↦ s
  | some resolution ↦ if m.publish_generation then activate generation plan resolution s else s
]

abbrev is_plan_valid : Plan → Bool
is_plan_valid (mutates commit) = true
is_plan_valid (replaces binding resolution failure) =
    not (binding.cluster_profile_id == 0 || str_eq binding.context "")

abbrev pub map_mutation_error : SelectionError → SelectionError
map_mutation_error superseded = generation_changed
map_mutation_error x = x

-- Where a request stands. From `checking` on it carries the binding that it has read.
pub data Phase : Type 0 where
  starting : String → Phase
  begun reading : Intent → String → Phase
  checking preparing : Intent → String → SelectionBinding → Phase
  failed : Intent → String → SelectionError → Phase
  prepared committing : Intent → String → SelectionBinding → Plan → Phase
  ending : Intent → Result SelectionResult → Phase
  ended : Result SelectionResult → Phase

-- What a request finds when it moves: its surroundings, and what its preparation returns.
pub record Finds : Type 0 where
  pub surroundings : Surroundings
  pub preparation : Result Plan

pub record System : Type 0 where
  pub coordinator : Coordinator
  pub state : State

abbrev checked : Intent → Phase → Option SelectionError → Phase
checked i next none = next
checked i next (some x) = ending i (err (map_mutation_error x))

-- `intent.Validate`, and where the request goes if it passes.
unfoldable pub check : Finds → Intent → String → Phase → System → System × Phase
check f i expected next y =
    (y, checked i next (validate f.surroundings.parent_canceled i expected y.coordinator))

is_published : Result SelectionMutation → Bool
is_published (err x) = false
is_published (ok m) = m.publish_generation

-- Only `Mutate` refuses a result without a generation.
result_of : Plan → SelectionResult → Result SelectionResult
result_of (mutates commit) r = if str_eq r.generation "" then err invalid else ok r
result_of (replaces binding resolution failure) r = ok r

finish : Plan → Bool → Coordinator × State × Result String → System × Result SelectionResult
unfolding result_of
finish plan published (c, s, err x) =
    (record { coordinator = c; state = s }, err (map_mutation_error x))
finish plan published (c, s, ok next) = (
  record { coordinator = c; state = s },
  result_of plan (record {
    generation = next;
    binding = s.binding;
    resolution = s.resolution;
    changed = published;
  }),
)

-- The commit at the end of `Mutate` and `ReplaceContextPrepared`.
unfoldable pub commit :
    Surroundings → Intent → String → Plan → System → Coordinator × State × Result String
unfolding transaction after_publish
commit e i expected plan y =
    commit_conditional e i expected (transaction expected plan) (λ m. m.publish_generation)
      (after_publish plan) y.coordinator y.state

unfoldable pub advance : Finds → System → Phase → System × Phase
unfolding finish is_published transaction
advance f y (starting expected) =
    let (c, i) = begin y.coordinator in (record y { coordinator = c }, begun i expected)
advance f y (begun i expected) = check f i expected (reading i expected) y
advance f y (reading i expected) =
    if str_eq y.state.binding.generation expected
    then (y, checking i expected y.state.binding)
    else (y, ending i (err generation_changed))
advance f y (checking i expected b) = check f i expected (preparing i expected b) y
advance f y (preparing i expected b) = elim f.preparation [
  | err x ↦ (y, failed i expected x)
  | ok plan ↦ (y, prepared i expected b plan)
]
advance f y (failed i expected x) = check f i expected (ending i (err x)) y
advance f y (prepared i expected b plan) =
    check f i expected
      (if is_plan_valid plan then committing i expected b plan else ending i (err invalid)) y
advance f y (committing i expected b plan) =
    let (z, r) =
      finish plan (is_published (transaction expected plan y.state))
        (commit f.surroundings i expected plan y) in
    (z, ending i r)
-- The deferred `intent.Cancel()`.
advance f y (ending i r) = (record y { coordinator = cancel i y.coordinator }, ended r)
advance f y (ended r) = (y, ended r)

unfoldable pub advance_at : ℕ → Finds → System → List Phase → System × List Phase
advance_at n f y [] = (y, [])
advance_at zero f y (p ∷ ps) = let (z, q) = advance f y p in (z, q ∷ ps)
advance_at (suc n) f y (p ∷ ps) = let (z, qs) = advance_at n f y ps in (z, p ∷ qs)

unfoldable pub run : System → List Phase → List (ℕ × Finds) → System × List Phase
unfolding advance_at advance
run y ps [] = (y, ps)
run y ps ((n, f) ∷ es) = let (z, qs) = advance_at n f y ps in run z qs es

-- The plain `ReplaceContext`, with no other request between its critical sections.
pub replace_context :
    Surroundings
    → String
    → SelectionBinding
    → ScopeResolution
    → Option SelectionError
    → System
    → System × Result String
unfolding activate
replace_context e expected binding resolution failure y =
    let (c, i) = begin y.coordinator in
    let (d, s, r) =
      commit_conditional e i expected (λ s. elim failure [ none ↦ ok true | some x ↦ err x ])
        (λ m. m) (λ g. λ m. λ s. activate g (replaces binding resolution failure) resolution s) c
        y.state in
    (record { coordinator = cancel i d; state = s }, r)
