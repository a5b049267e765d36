-- ===== src/Signal.antt =====
-- packages/types/src/enums.ts and signal.ts: the sources, types, severities and statuses of signals,
-- and what a signal is ingested from.
use auto_ops.Prelude.{ℕ, String, Option}
use auto_ops.Json.{Fields}

pub data SignalSource : Type 0 where
  autoops jenkins docker kubernetes aws github_actions system : SignalSource

pub data SignalSeverity : Type 0 where
  info warning error critical : SignalSeverity

pub data SignalStatus : Type 0 where
  active acknowledged resolved suppressed expired archived : SignalStatus

pub data SignalType : Type 0 where
  deployment_created deployment_status_changed operation_created operation_status_changed
        approval_required approval_approved approval_rejected provider_connected
        provider_unreachable provider_auth_failed resource_discovered resource_changed
        resource_stale resource_archived kubernetes_pod_phase_changed
        kubernetes_restart_count_changed docker_container_state_changed jenkins_build_started
        jenkins_build_succeeded jenkins_build_failed aws_guardrail_blocked aws_plan_ready
        aws_apply_blocked security_policy_blocked system_health_changed :
      SignalType

pub data DedupeMode : Type 0 where
  dedupe event : DedupeMode

pub record SignalIngestInput : Type 0 where
  pub source : SignalSource
  pub type : SignalType
  pub severity : SignalSeverity
  pub title : String
  pub message : String
  pub observed_at : Option ℕ
  pub resource_node_id : Option String
  pub operation_id : Option String
  pub deployment_id : Option String
  pub project_id : Option String
  pub environment_id : Option String
  pub metadata : Fields
  pub labels : Option Fields
  pub dedupe_mode : Option DedupeMode

-- The text that stands for a member in keys, messages and the database.
abbrev pub source_name : SignalSource → String
source_name autoops = "AUTOOPS"
source_name jenkins = "JENKINS"
source_name docker = "DOCKER"
source_name kubernetes = "KUBERNETES"
source_name aws = "AWS"
source_name github_actions = "GITHUB_ACTIONS"
source_name system = "SYSTEM"

abbrev pub type_name : SignalType → String
type_name deployment_created = "DEPLOYMENT_CREATED"
type_name deployment_status_changed = "DEPLOYMENT_STATUS_CHANGED"
type_name operation_created = "OPERATION_CREATED"
type_name operation_status_changed = "OPERATION_STATUS_CHANGED"
type_name approval_required = "APPROVAL_REQUIRED"
type_name approval_approved = "APPROVAL_APPROVED"
type_name approval_rejected = "APPROVAL_REJECTED"
type_name provider_connected = "PROVIDER_CONNECTED"
type_name provider_unreachable = "PROVIDER_UNREACHABLE"
type_name provider_auth_failed = "PROVIDER_AUTH_FAILED"
type_name resource_discovered = "RESOURCE_DISCOVERED"
type_name resource_changed = "RESOURCE_CHANGED"
type_name resource_stale = "RESOURCE_STALE"
type_name resource_archived = "RESOURCE_ARCHIVED"
type_name kubernetes_pod_phase_changed = "KUBERNETES_POD_PHASE_CHANGED"
type_name kubernetes_restart_count_changed = "KUBERNETES_RESTART_COUNT_CHANGED"
type_name docker_container_state_changed = "DOCKER_CONTAINER_STATE_CHANGED"
type_name jenkins_build_started = "JENKINS_BUILD_STARTED"
type_name jenkins_build_succeeded = "JENKINS_BUILD_SUCCEEDED"
type_name jenkins_build_failed = "JENKINS_BUILD_FAILED"
type_name aws_guardrail_blocked = "AWS_GUARDRAIL_BLOCKED"
type_name aws_plan_ready = "AWS_PLAN_READY"
type_name aws_apply_blocked = "AWS_APPLY_BLOCKED"
type_name security_policy_blocked = "SECURITY_POLICY_BLOCKED"
type_name system_health_changed = "SYSTEM_HEALTH_CHANGED"

abbrev pub severity_name : SignalSeverity → String
severity_name info = "INFO"
severity_name warning = "WARNING"
severity_name error = "ERROR"
severity_name critical = "CRITICAL"
