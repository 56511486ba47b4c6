-- ===== src/Actions/Validation/Tests.antt =====
-- Concrete requests for the validation of internal/services/actions/validation.go.
use kubepeep.Base.{
  pos, ◌≤ℤ◌, ◌≤◌, ◌≡◌, ◌↔◌, ◌⊎◌, refl, String, true, none, List, [], ◌∷◌, All, length,
}
use kubepeep.Selection.State.{SelectionBinding}
use kubepeep.Actions.Requests.{
  ActionTarget, RouteTarget, Confirmation, ScaleRequest, action_scale,
  consequence_change_replica_count, maximum_exec_arguments, maximum_exec_command_bytes,
}
use kubepeep.Actions.Validation.{
  Libraries, violations, refuse, validate_binding, validate_confirmation,
  validate_opaque_precondition, validate_scale, command_checks, validate_idempotency_key,
  validate_session_id,
}
use kubepeep.Actions.Validation.Accepts.{
  IsActive, IsConfirmed, scalable_kind, validate_confirmation-accepts, validate_scale-accepts,
}
use kubepeep.Actions.Validation.Commands.{
  total_length, IsArgument, StartsWithName, command_checks-accepts,
}

abbrev permissive : Libraries
permissive = record {
  is_dns1123_label = λ s. true;
  is_dns1123_subdomain = λ s. true;
  is_valid_utf8 = λ s. true;
}

abbrev selected : SelectionBinding
selected = record {
  cluster_profile_id = 1;
  context = "dev";
  cluster = "kind";
  active_scope_id = 2;
  generation = "g1";
}

abbrev target : ActionTarget
target = record {
  cluster_profile_id = 1;
  context = "dev";
  namespace = "payments";
  kind = "StatefulSet";
  name = "db";
}

abbrev route : RouteTarget
route = record { kind = "statefulsets"; namespace = "payments"; name = "db" }

abbrev confirmation : Confirmation
confirmation = record {
  confirmed = true;
  action = action_scale;
  consequence_code = consequence_change_replica_count;
  target = target;
  expected_generation = "g1";
}

abbrev request : ScaleRequest
request = record { replicas = pos 3; confirmation = confirmation; expected_resource_version = "41" }

scale_passes : validate_scale permissive selected route request ≡ none
unfolding validate_scale validate_binding
scale_passes = refl

key_passes : validate_idempotency_key "0123456789abcdef" ≡ none
unfolding validate_idempotency_key
key_passes = refl

session_passes : validate_session_id "exec_0123-abcd" "exec_" ≡ none
unfolding validate_session_id
session_passes = refl

validate_confirmation-accepts_example :
    (validate_confirmation permissive selected route confirmation action_scale
        consequence_change_replica_count "statefulsets" "StatefulSet"
      ≡ none)
    ↔ (IsActive selected
        × IsConfirmed permissive selected route confirmation action_scale
            consequence_change_replica_count "statefulsets" "StatefulSet")
validate_confirmation-accepts_example =
    validate_confirmation-accepts permissive selected route confirmation action_scale
      consequence_change_replica_count "statefulsets" "StatefulSet"

validate_scale-accepts_example : (validate_scale permissive selected route request ≡ none) ↔ (
    ((route.kind ≡ "deployments") ⊎ (route.kind ≡ "statefulsets"))
    × (validate_binding selected ≡ none)
    × IsConfirmed permissive selected route confirmation action_scale
        consequence_change_replica_count route.kind
        (scalable_kind permissive route.kind)
    × (pos 0 ≤ℤ request.replicas)
    × (request.replicas ≤ℤ pos 2147483647)
    × (validate_opaque_precondition permissive "expectedResourceVersion" "41" ≡ none))
validate_scale-accepts_example = validate_scale-accepts permissive selected route request

abbrev command : List String
command = "sh" ∷ "-c" ∷ "ls" ∷ []

command_checks-accepts_example :
    (refuse (violations (command_checks permissive command)) ≡ none) ↔ (
      (1 ≤ length command)
      × (length command ≤ maximum_exec_arguments)
      × StartsWithName command
      × All (IsArgument permissive) command
      × (total_length command ≤ maximum_exec_command_bytes))
command_checks-accepts_example = command_checks-accepts permissive command
