-- ===== src/Actions/Validation.antt =====
-- internal/services/actions/validation.go: what a request has to say before anything is done. A
-- validation error is its list of violations; code, status and message are those of
-- `CodeValidationFailed` in all of them. The tests of the Kubernetes and UTF-8 libraries are a record.
pub mod Accepts
pub mod Commands
mod Tests
use kubepeep.Base.{
  ℕ, ℤ, pos, ltb_ℤ, ◌+◌, String, str_eq, Bool, true, false, not, ◌&&◌, ◌||◌, Option, none, some,
  List, [], ◌∷◌, ◌++◌, leb, ltb, ◌==◌, if◌then◌else◌, length, Dict, lookup, len, codes, any_of,
  all_of, strip, is_between,
}
use kubepeep.Selection.State.{SelectionBinding}
use kubepeep.Actions.Requests.{
  Action, action_restart, action_scale, action_delete_pod, action_port_forward, action_exec,
  action_delete_workload, action_update_cron_job_suspend, action_trigger_cron_job, ConsequenceCode,
  consequence_recreate_workload_pods, consequence_change_replica_count, consequence_delete_pod,
  consequence_expose_pod_port_locally, consequence_expose_service_port_locally,
  consequence_open_interactive_process, consequence_delete_resource, consequence_suspend_cronjob,
  consequence_resume_cronjob, consequence_create_job_from_cronjob, maximum_exec_arguments,
  maximum_exec_argument_bytes, maximum_exec_command_bytes, ActionTarget, MutationTarget,
  RouteTarget, Confirmation, RestartRequest, ScaleRequest, DeleteRequest, CronJobSuspendRequest,
  CronJobTriggerRequest, PortForwardCreateRequest, ExecInit,
}

pub record Libraries : Type 0 where
  pub is_dns1123_label : String → Bool
  pub is_dns1123_subdomain : String → Bool
  pub is_valid_utf8 : String → Bool

pub record FieldViolation : Type 0 where
  pub field : String
  pub rule : String

abbrev pub ValidationError : Type 0
ValidationError = Option (List FieldViolation)

-- A test that fails where it is true, and the violations that several tests append.
abbrev pub Check : Type 0
Check = Bool × FieldViolation

abbrev pub violations : List Check → List FieldViolation
violations [] = []
violations ((bad, v) ∷ checks) = if bad then v ∷ violations checks else violations checks

-- `if len(violations) > 0 { return validationError(violations...) }`
abbrev pub refuse : List FieldViolation → ValidationError
refuse [] = none
refuse (v ∷ vs) = some (v ∷ vs)

-- `if err := …; err != nil { return err }`
abbrev pub then_check : ValidationError → ValidationError → ValidationError
then_check (some vs) rest = some vs
then_check none rest = rest

abbrev pub details : ValidationError → List FieldViolation
details none = []
details (some vs) = vs

abbrev check : Bool → String → String → Check
check bad field rule = (bad, record { field = field; rule = rule })

pub has_control : String → Bool
has_control s = any_of (λ c. ltb c 0x20 || c == 0x7f) (codes s)

unfoldable pub validate_binding : SelectionBinding → ValidationError
validate_binding b = refuse (
    violations (
      check (b.cluster_profile_id == 0) "target.clusterProfileId" "positive"
      ∷ check (str_eq b.context "" || ltb 253 (len b.context) || has_control b.context)
          "target.context" "active_context"
      ∷ check (str_eq b.generation "" || ltb 256 (len b.generation) || has_control b.generation)
          "expectedGeneration" "active_generation"
      ∷ []))

-- `restartableWorkloadKinds` and `deletableWorkloadKinds`.
abbrev pub restartable_workload_kinds : Dict String
restartable_workload_kinds =
    ("deployments", "Deployment")
    ∷ ("statefulsets", "StatefulSet")
    ∷ ("daemonsets", "DaemonSet")
    ∷ []

abbrev pub deletable_workload_kinds : Dict String
deletable_workload_kinds =
    ("deployments", "Deployment")
    ∷ ("statefulsets", "StatefulSet")
    ∷ ("daemonsets", "DaemonSet")
    ∷ ("jobs", "Job")
    ∷ ("cronjobs", "CronJob")
    ∷ ("replicasets", "ReplicaSet")
    ∷ []

abbrev is_outside : ℕ → ℕ → ℤ → Bool
is_outside low high port = ltb_ℤ port (pos low) || ltb_ℤ (pos high) port

abbrev local_outside : Option ℤ → Bool
local_outside none = false
local_outside (some port) = is_outside 1024 65535 port

port_checks : PortForwardCreateRequest → List Check
port_checks request =
    check (is_outside 1 65535 request.remote_port) "remotePort" "range_1_65535"
    ∷ check (local_outside request.local_port) "localPort" "null_or_range_1024_65535"
    ∷ []

-- `^[A-Za-z0-9._~-]{16,128}$`
abbrev is_alphanumeric : ℕ → Bool
is_alphanumeric c = is_between b'A' b'Z' c || is_between b'a' b'z' c || is_between b'0' b'9' c

is_key_character : ℕ → Bool
is_key_character c = is_alphanumeric c || c == b'.' || c == b'_' || c == b'~' || c == b'-'

unfoldable pub validate_idempotency_key : String → ValidationError
unfolding is_key_character
validate_idempotency_key value = refuse (
    violations (
      check
        (not (is_between 16 128 (length (codes value)) && all_of is_key_character (codes value)))
        "Idempotency-Key" "16_128_unreserved_characters"
      ∷ []))

is_session_character : ℕ → Bool
is_session_character c = is_alphanumeric c || c == b'_' || c == b'-'

abbrev is_missing : Option (List ℕ) → Bool
is_missing none = true
is_missing (some cs) = false

is_session_rest : Option (List ℕ) → Bool
unfolding is_session_character
is_session_rest none = false
is_session_rest (some cs) = is_between 8 128 (length cs) && all_of is_session_character cs

-- `^(pf|exec)_[A-Za-z0-9_-]{8,128}$`; the prefix that is asked for is tested besides.
unfoldable pub validate_session_id : String → String → ValidationError
unfolding is_session_rest
validate_session_id value prefix = refuse (
    violations (
      check
        (not (
            is_session_rest (strip (codes "pf_") (codes value))
            || is_session_rest (strip (codes "exec_") (codes value)))
          || is_missing (strip (codes prefix) (codes value)))
        "sessionId" "valid_identifier"
      ∷ []))

pub mutation_target : SelectionBinding → ActionTarget → MutationTarget
mutation_target binding target = record {
  cluster_profile_id = binding.cluster_profile_id;
  context = binding.context;
  generation = binding.generation;
  namespace = target.namespace;
  kind = target.kind;
  name = target.name;
}

module _ (libraries : Libraries) where
  open libraries use {is_dns1123_label, is_dns1123_subdomain, is_valid_utf8}

  -- The tests of `validateConfirmation` after the binding's.
  pub confirmation_checks :
      SelectionBinding
      → RouteTarget
      → Confirmation
      → Action
      → ConsequenceCode
      → String
      → String
      → List Check
  confirmation_checks binding route c action consequence route_kind target_kind =
      check (not (str_eq route.kind route_kind)) "path.kind" route_kind
      ∷ check (not (is_dns1123_label route.namespace)) "path.namespace" "kubernetes_dns_label"
      ∷ check (not (is_dns1123_subdomain route.name)) "path.name" "kubernetes_dns_subdomain"
      ∷ check (not c.confirmed) "confirmed" "must_be_true"
      ∷ check (not (str_eq c.action action)) "action" action
      ∷ check (not (str_eq c.consequence_code consequence)) "consequenceCode" consequence
      ∷ check (not (str_eq c.expected_generation binding.generation)) "expectedGeneration"
          "matches_active_generation"
      ∷ check (not (c.target.cluster_profile_id == binding.cluster_profile_id))
          "target.clusterProfileId" "matches_active_selection"
      ∷ check (not (str_eq c.target.context binding.context)) "target.context"
          "matches_active_selection"
      ∷ check (not (str_eq c.target.namespace route.namespace)) "target.namespace" "matches_path"
      ∷ check (not (str_eq c.target.kind target_kind)) "target.kind" target_kind
      ∷ check (not (str_eq c.target.name route.name)) "target.name" "matches_path"
      ∷ []

  unfoldable pub validate_confirmation :
      SelectionBinding
      → RouteTarget
      → Confirmation
      → Action
      → ConsequenceCode
      → String
      → String
      → ValidationError
  unfolding confirmation_checks
  validate_confirmation binding route c action consequence route_kind target_kind =
      then_check (validate_binding binding) (
        refuse (
          violations
            (confirmation_checks binding route c action consequence route_kind target_kind)))

  unfoldable pub validate_opaque_precondition : String → String → ValidationError
  unfolding has_control
  validate_opaque_precondition field value = refuse (
      violations (
        check
          (str_eq value "" || ltb 256 (len value) || has_control value || not (is_valid_utf8 value))
          field "non_empty_opaque_max_256"
        ∷ []))

  restart_kind : SelectionBinding → RouteTarget → RestartRequest → Option String → ValidationError
  unfolding validate_confirmation validate_opaque_precondition
  restart_kind binding route request none =
      refuse (violations (check true "path.kind" "deployments_statefulsets_or_daemonsets" ∷ []))
  restart_kind binding route request (some target_kind) =
      then_check
        (validate_confirmation binding route request.confirmation action_restart
          consequence_recreate_workload_pods route.kind target_kind)
        (validate_opaque_precondition "expectedResourceVersion" request.expected_resource_version)

  unfoldable pub validate_restart :
      SelectionBinding → RouteTarget → RestartRequest → ValidationError
  unfolding restart_kind
  validate_restart binding route request =
      restart_kind binding route request (lookup route.kind restartable_workload_kinds)

  pub scale_details : ScaleRequest → List FieldViolation
  unfolding validate_opaque_precondition
  scale_details request =
      violations (
        check (ltb_ℤ request.replicas (pos 0)) "replicas" "minimum_0"
        ∷ check (ltb_ℤ (pos 2147483647) request.replicas) "replicas" "maximum_2147483647"
        ∷ [])
      ++ details
          (validate_opaque_precondition "expectedResourceVersion" request.expected_resource_version)

  unfoldable pub validate_scale : SelectionBinding → RouteTarget → ScaleRequest → ValidationError
  unfolding validate_confirmation scale_details
  validate_scale binding route request =
      if not (str_eq route.kind "deployments") && not (str_eq route.kind "statefulsets")
      then refuse (violations (check true "path.kind" "deployments_or_statefulsets" ∷ []))
      else then_check
          (validate_confirmation binding route request.confirmation action_scale
            consequence_change_replica_count route.kind
            (if str_eq route.kind "statefulsets" then "StatefulSet" else "Deployment"))
          (refuse (scale_details request))

  delete_preconditions : DeleteRequest → ValidationError
  unfolding validate_opaque_precondition
  delete_preconditions request = refuse (
      details (validate_opaque_precondition "expectedUid" request.expected_uid)
      ++ details (
          validate_opaque_precondition "expectedResourceVersion" request.expected_resource_version))

  unfoldable pub validate_delete_pod :
      SelectionBinding → RouteTarget → DeleteRequest → ValidationError
  unfolding validate_confirmation delete_preconditions
  validate_delete_pod binding route request =
      then_check
        (validate_confirmation binding route request.confirmation action_delete_pod
          consequence_delete_pod "pods" "Pod")
        (delete_preconditions request)

  delete_kind : SelectionBinding → RouteTarget → DeleteRequest → Option String → ValidationError
  unfolding validate_confirmation delete_preconditions
  delete_kind binding route request none = refuse (
      violations (
        check true "path.kind" "deployments_statefulsets_daemonsets_jobs_cronjobs_or_replicasets"
        ∷ []))
  delete_kind binding route request (some target_kind) =
      then_check
        (validate_confirmation binding route request.confirmation action_delete_workload
          consequence_delete_resource route.kind target_kind)
        (delete_preconditions request)

  unfoldable pub validate_delete_workload :
      SelectionBinding → RouteTarget → DeleteRequest → ValidationError
  unfolding delete_kind
  validate_delete_workload binding route request =
      delete_kind binding route request (lookup route.kind deletable_workload_kinds)

  unfoldable pub validate_cron_job_suspend :
      SelectionBinding → RouteTarget → CronJobSuspendRequest → ValidationError
  unfolding validate_confirmation validate_opaque_precondition
  validate_cron_job_suspend binding route request =
      then_check
        (validate_confirmation binding route request.confirmation action_update_cron_job_suspend
          (if request.suspend then consequence_suspend_cronjob else consequence_resume_cronjob)
          "cronjobs" "CronJob")
        (validate_opaque_precondition "expectedResourceVersion" request.expected_resource_version)

  unfoldable pub validate_cron_job_trigger :
      SelectionBinding → RouteTarget → CronJobTriggerRequest → ValidationError
  unfolding validate_confirmation
  validate_cron_job_trigger binding route request =
      validate_confirmation binding route request.confirmation action_trigger_cron_job
        consequence_create_job_from_cronjob "cronjobs" "CronJob"

  unfoldable pub validate_port_forward :
      SelectionBinding → RouteTarget → PortForwardCreateRequest → ValidationError
  unfolding validate_confirmation port_checks
  validate_port_forward binding route request =
      then_check
        (validate_confirmation binding route request.confirmation action_port_forward
          consequence_expose_pod_port_locally "pods" "Pod")
        (refuse (violations (port_checks request)))

  unfoldable pub validate_service_port_forward :
      SelectionBinding → RouteTarget → PortForwardCreateRequest → ValidationError
  unfolding validate_confirmation port_checks
  validate_service_port_forward binding route request =
      then_check
        (validate_confirmation binding route request.confirmation action_port_forward
          consequence_expose_service_port_locally "services" "Service")
        (refuse (violations (port_checks request)))

  bad_argument : Bool → String → Bool
  bad_argument first argument =
      not (is_valid_utf8 argument)
      || any_of (λ c. c == 0) (codes argument)
      || ltb maximum_exec_argument_bytes (len argument)
      || (first && str_eq argument "")

  -- The loop over the arguments: the total so far, and whether it stopped at a bad one.
  command_loop : Bool → ℕ → List String → ℕ × Bool
  unfolding bad_argument
  command_loop first total [] = (total, false)
  command_loop first total (argument ∷ rest) =
      let total' = total + len argument in
      let later = command_loop false total' rest in
      if bad_argument first argument then (total', true) else later

  pub command_checks : List String → List Check
  unfolding command_loop
  command_checks command =
      let (total, stopped) = command_loop true 0 command in
      check (ltb (length command) 1 || ltb maximum_exec_arguments (length command)) "command"
        "argv_1_64"
      ∷ check stopped "command" "utf8_no_nul_item_max_4096"
      ∷ check (ltb maximum_exec_command_bytes total) "command" "total_max_32768"
      ∷ []

  unfoldable pub validate_exec : SelectionBinding → RouteTarget → ExecInit → ValidationError
  unfolding validate_confirmation command_checks
  validate_exec binding route request =
      then_check
        (validate_confirmation binding route request.confirmation action_exec
          consequence_open_interactive_process "pods" "Pod")
        (refuse (
          violations (
            check (not (is_dns1123_label request.container)) "container" "kubernetes_dns_label"
            ∷ command_checks request.command)))
