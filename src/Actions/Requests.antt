-- ===== src/Actions/Requests.antt =====
-- internal/services/actions/types.go: the requests that change a cluster, and the target that each of
-- them repeats. An embedded `Confirmation` is a field.
use kubepeep.Base.{ℕ, ℤ, String, Bool, Option, List}

-- `Action` and `ConsequenceCode` are texts, since a request may hold any.
abbrev pub Action : Type 0
Action = String

abbrev pub action_restart : Action
action_restart = "restart"

abbrev pub action_scale : Action
action_scale = "scale"

abbrev pub action_delete_pod : Action
action_delete_pod = "deletePod"

abbrev pub action_port_forward : Action
action_port_forward = "portForward"

abbrev pub action_exec : Action
action_exec = "exec"

abbrev pub action_delete_workload : Action
action_delete_workload = "deleteWorkload"

abbrev pub action_update_cron_job_suspend : Action
action_update_cron_job_suspend = "updateCronJobSuspend"

abbrev pub action_trigger_cron_job : Action
action_trigger_cron_job = "triggerCronJob"

abbrev pub ConsequenceCode : Type 0
ConsequenceCode = String

abbrev pub consequence_recreate_workload_pods : ConsequenceCode
consequence_recreate_workload_pods = "RECREATE_WORKLOAD_PODS"

abbrev pub consequence_change_replica_count : ConsequenceCode
consequence_change_replica_count = "CHANGE_REPLICA_COUNT"

abbrev pub consequence_delete_pod : ConsequenceCode
consequence_delete_pod = "DELETE_POD"

abbrev pub consequence_expose_pod_port_locally : ConsequenceCode
consequence_expose_pod_port_locally = "EXPOSE_POD_PORT_LOCALLY"

abbrev pub consequence_expose_service_port_locally : ConsequenceCode
consequence_expose_service_port_locally = "EXPOSE_SERVICE_PORT_LOCALLY"

abbrev pub consequence_open_interactive_process : ConsequenceCode
consequence_open_interactive_process = "OPEN_INTERACTIVE_PROCESS"

abbrev pub consequence_delete_resource : ConsequenceCode
consequence_delete_resource = "DELETE_RESOURCE"

abbrev pub consequence_suspend_cronjob : ConsequenceCode
consequence_suspend_cronjob = "SUSPEND_CRONJOB"

abbrev pub consequence_resume_cronjob : ConsequenceCode
consequence_resume_cronjob = "RESUME_CRONJOB"

abbrev pub consequence_create_job_from_cronjob : ConsequenceCode
consequence_create_job_from_cronjob = "CREATE_JOB_FROM_CRONJOB"

abbrev pub maximum_exec_arguments : ℕ
maximum_exec_arguments = 64

abbrev pub maximum_exec_argument_bytes : ℕ
maximum_exec_argument_bytes = 4096

abbrev pub maximum_exec_command_bytes : ℕ
maximum_exec_command_bytes = 32768

pub record ActionTarget : Type 0 where
  pub cluster_profile_id : ℕ
  pub context : String
  pub namespace : String
  pub kind : String
  pub name : String

pub record RouteTarget : Type 0 where
  pub kind : String
  pub namespace : String
  pub name : String

pub record Confirmation : Type 0 where
  pub confirmed : Bool
  pub action : Action
  pub consequence_code : ConsequenceCode
  pub target : ActionTarget
  pub expected_generation : String

pub record RestartRequest : Type 0 where
  pub confirmation : Confirmation
  pub expected_resource_version : String

pub record ScaleRequest : Type 0 where
  pub replicas : ℤ
  pub confirmation : Confirmation
  pub expected_resource_version : String

-- `PodDeleteRequest` and `WorkloadDeleteRequest`, which have the same fields.
pub record DeleteRequest : Type 0 where
  pub confirmation : Confirmation
  pub expected_uid : String
  pub expected_resource_version : String

pub record CronJobSuspendRequest : Type 0 where
  pub suspend : Bool
  pub confirmation : Confirmation
  pub expected_resource_version : String

pub record CronJobTriggerRequest : Type 0 where
  pub confirmation : Confirmation

pub record PortForwardCreateRequest : Type 0 where
  pub remote_port : ℤ
  pub local_port : Option ℤ
  pub confirmation : Confirmation

pub record ExecInit : Type 0 where
  pub container : String
  pub command : List String
  pub tty : Bool
  pub stdin : Bool
  pub confirmation : Confirmation

pub record MutationTarget : Type 0 where
  pub cluster_profile_id : ℕ
  pub context : String
  pub generation : String
  pub namespace : String
  pub kind : String
  pub name : String
