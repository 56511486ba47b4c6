-- ===== src/Resources/Health.antt =====
-- internal/services/podhealth/podhealth.go: the fast test for a pod that has a problem. An owner
-- reference keeps what the code reads of it, and a container status its state.
use kubepeep.Base.{
  ℕ, String, str_eq, Bool, false, not, ◌&&◌, ◌||◌, Option, none, some, List, [], ◌∷◌, leb, ◌==◌,
  if◌then◌else◌,
}

pub record OwnerReference : Type 0 where
  pub name : String
  pub controller : Option Bool

abbrev is_controller : Option Bool → Bool
is_controller none = false
is_controller (some b) = b

pub controlling_owner : List OwnerReference → Option OwnerReference
controlling_owner [] = none
controlling_owner (r ∷ rs) =
    let rest = controlling_owner rs in if is_controller r.controller then some r else rest

-- `terminated` is the exit code, as its bit pattern.
pub record ContainerStatus : Type 0 where
  pub waiting : Bool
  pub terminated : Option ℕ

abbrev is_failed : Option ℕ → Bool
is_failed none = false
is_failed (some code) = not (code == 0)

any_problem : List ContainerStatus → Bool
any_problem [] = false
any_problem (s ∷ ss) = s.waiting || is_failed s.terminated || any_problem ss

any_group : List (List ContainerStatus) → Bool
unfolding any_problem
any_group [] = false
any_group (g ∷ gs) = any_problem g || any_group gs

pub problematic : String → ℕ → ℕ → ℕ → List (List ContainerStatus) → Bool
unfolding any_group
problematic phase ready_current ready_desired restarts groups =
    str_eq phase "Pending"
    || str_eq phase "Failed"
    || str_eq phase "Unknown"
    || (str_eq phase "Running" && not (ready_current == ready_desired))
    || leb 3 restarts
    || any_group groups
