-- ===== src/Operation/World.antt =====
-- What the operation service and the worker read and write: the tables of
-- packages/database/prisma/schema.prisma that they touch, the jobs that the queue keeps, and
-- what was handed to the signal service and the resource graph. A table is a list of rows; its
-- unique constraints are those of the schema, and an insert that would break one throws.
use auto_ops.Prelude.{
  ℕ, Bool, false, ◌&&◌, ◌||◌, String, Option, none, some, List, ◌∷◌, ◌==◌, if◌then◌else◌, any,
  update_where, holds_text,
}
use auto_ops.Errors.{plain}
use auto_ops.Json.{Fields}
use auto_ops.Exec.{Exec, ok, err}
use auto_ops.Organization.{Membership, Project, Environment}
use auto_ops.Incident.{IncidentRow}
use auto_ops.Signal.{SignalIngestInput}
use auto_ops.Operation.{OperationProvider, OperationType, OperationStatus, OperationRiskLevel}
use auto_ops.Opa.{OpaEnforcementMode, OperationPolicyDecision}

pub record OperationRow : Type 0 where
  pub id : String
  pub organization_id : String
  pub project_id : Option String
  pub environment_id : Option String
  pub provider : OperationProvider
  pub operation_type : OperationType
  pub status : OperationStatus
  pub requested_by : Option String
  pub approved_by : Option String
  pub approved_at : Option ℕ
  pub rejected_by : Option String
  pub rejected_at : Option ℕ
  pub idempotency_key : Option String
  pub input : Fields
  pub result : Option Fields
  pub error : Option Fields
  pub created_at : ℕ
  pub updated_at : ℕ

pub data AuditAction : Type 0 where
  update kubernetes_deployment_scale_requested kubernetes_deployment_restart_requested
        kubernetes_manifest_dry_run_requested kubernetes_manifest_apply_requested
        jenkins_build_trigger_requested docker_container_start_requested
        docker_container_stop_requested docker_container_restart_requested
        terraform_validate_requested terraform_plan_requested terraform_apply_requested
        ansible_syntax_check_requested ansible_check_requested ansible_run_requested
        aws_ecr_image_build_requested aws_ecr_image_push_requested aws_terraform_ecs_plan_requested
        aws_terraform_ecs_apply_requested :
      AuditAction

-- The `metadata` of the audit rows that the service writes.
pub data AuditMetadata : Type 0 where
  policy_denied : OperationType → OpaEnforcementMode → OperationPolicyDecision → AuditMetadata
  requested :
      OperationStatus
      → (approval_required : Bool) → (approval_reason : Option String) → OperationRiskLevel
      → (policy_name : String) → OpaEnforcementMode
      → (decision enforced_decision : OperationPolicyDecision) → AuditMetadata
  decided : (decision : String) (reason : Option String) → AuditMetadata

pub record AuditLog : Type 0 where
  pub organization_id : String
  pub actor_id : String
  pub action : AuditAction
  pub provider : OperationProvider
  pub project_id : Option String
  pub environment_id : Option String
  pub operation_id : Option String
  pub resource_type : String
  pub resource_id : String
  pub ip_address : Option String
  pub user_agent : Option String
  pub metadata : AuditMetadata

-- `OperationJobData` of the queue's jobs.
pub record OperationJobData : Type 0 where
  pub operation_id : String
  pub organization_id : String
  pub requested_by : String

pub record World : Type 0 where
  pub memberships : List Membership
  pub projects : List Project
  pub environments : List Environment
  pub operations : List OperationRow
  pub audit_logs : List AuditLog
  -- The jobs that the queue keeps.
  pub jobs : List OperationJobData
  pub signals : List SignalIngestInput
  pub nodes : List String
  pub incidents : List IncidentRow
  -- Whether the queue's server answers.
  pub queue_available : Bool

-- `where: { id, organizationId }`
abbrev pub is_operation : (id organization : String) → OperationRow → Bool
is_operation id organization r = r.id == id && r.organization_id == organization

abbrev pub has_id : String → OperationRow → Bool
has_id id r = r.id == id

abbrev pub same_text : Option String → Option String → Bool
same_text none o = false
same_text (some s) o = holds_text o s

-- `organizationId_idempotencyKey`
abbrev pub has_key : (organization : String) → Option String → OperationRow → Bool
has_key organization key r = r.organization_id == organization && same_text key r.idempotency_key

-- An insert that the primary key or the unique (organization, idempotency key) may refuse.
unfoldable pub insert_operation : OperationRow → Exec World (Unit {0})
unfolding any
insert_operation row w =
    if any (has_id row.id) w.operations
      || any (has_key row.organization_id row.idempotency_key) w.operations
    then (err (plain "Unique constraint failed"), w)
    else (ok tt, record w { operations = row ∷ w.operations })

abbrev pub add_audit_log : AuditLog → World → World
add_audit_log log w = record w { audit_logs = log ∷ w.audit_logs }

abbrev pub add_signal : SignalIngestInput → World → World
add_signal s w = record w { signals = s ∷ w.signals }

abbrev pub add_node : String → World → World
add_node id w = record w { nodes = id ∷ w.nodes }

abbrev pub update_operations : (OperationRow → Bool) → (OperationRow → OperationRow) → World → World
update_operations p f w = record w { operations = update_where p f w.operations }

abbrev pub is_job_for : (operation : String) → OperationJobData → Bool
is_job_for operation j = j.operation_id == operation

-- A job's identifier is its operation's: adding one that the queue still keeps is ignored.
abbrev pub add_job : OperationJobData → List OperationJobData → List OperationJobData
add_job job jobs = if any (is_job_for job.operation_id) jobs then jobs else job ∷ jobs

-- `enqueueOperationJob`, which throws when the queue's server does not answer.
unfoldable pub enqueue_operation_job : OperationJobData → Exec World (Unit {0})
enqueue_operation_job job w =
    if w.queue_available
    then (ok tt, record w { jobs = add_job job w.jobs })
    else (err (plain "Queue unavailable"), w)
