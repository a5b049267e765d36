-- ===== src/Operation/Service.antt =====
-- apps/api/src/modules/operations/operation.service.ts: creating an operation.
-- Times, the fresh identifier of a new row and the answer of the policy engine are arguments. A row is
-- returned as it is stored; `_toOperation` only renames it for JSON.
pub mod Governed
pub mod Laws
pub mod Engine
pub mod Retry
pub mod Failures
mod Tests
use auto_ops.Prelude.{
  ℕ, Bool, not, ◌&&◌, ◌||◌, String, Option, none, some, List, [], ◌∷◌, ◌<>◌, if◌then◌else◌,
  find_first, get_or, is_truthy, holds_text,
}
use auto_ops.Errors.{bad_request_error, unauthorized_error}
use auto_ops.Json.{Fields, end}
use auto_ops.Exec.{Exec, pure, throw, gets, modify, require, ◌>>=◌, ◌>>◌}
use auto_ops.Organization.{get_organization_role}
use auto_ops.Signal.{SignalIngestInput, SignalSource, SignalType, SignalSeverity, event}
use auto_ops.Opa.{OpaEnforcementMode, OpaResponse, EvaluatedOperationPolicy}
use auto_ops.Opa
use auto_ops.Opa.Request.{
  PolicyEnv, EnvironmentScope, OperationPolicyInput, build_operation_policy_input,
}
use auto_ops.Operation.{
  OperationProvider, OperationType, OperationStatus, provider_name, type_name, pending_approval,
  queued,
}
use auto_ops.Operation.Policy.{OperationPolicyDecision, evaluate_operation_policy}
use auto_ops.Operation.Authorization.{can_trigger_with_role}
use auto_ops.Operation.Scope.{validate_operation_scope}
use auto_ops.Operation.Records.{audit_action, input_with_policy}
use auto_ops.Operation.World.{
  World, OperationRow, AuditLog, AuditAction, AuditMetadata, policy_denied, requested, has_key,
  insert_operation, add_audit_log, add_signal, add_node, enqueue_operation_job,
}

pub record CreateOperationInput : Type 0 where
  pub organization_id : String
  pub user_id : String
  pub role : Option String
  pub provider : OperationProvider
  pub operation_type : OperationType
  pub input : Fields
  pub project_id : Option String
  pub environment_id : Option String
  pub idempotency_key : Option String
  pub confirmation_token : Option String

pub record AuditRequestContext : Type 0 where
  pub ip_address : Option String
  pub user_agent : Option String

-- The configuration that the service reads.
pub record ServiceEnv : Type 0 where
  pub push_flag : Option String
  pub opa_mode : OpaEnforcementMode
  pub policy_env : PolicyEnv

-- `policy.confirmationRequired && label && token !== label`, the label being no empty text.
abbrev wrong_token : OperationPolicyDecision → Option String → Bool
wrong_token policy token =
    policy.confirmation_required
    && is_truthy policy.confirmation_token_label
    && not (holds_text token (get_or policy.confirmation_token_label ""))

abbrev label_of : OperationPolicyDecision → String
label_of policy = get_or policy.confirmation_token_label ""

abbrev initial_status : (approval_required : Bool) → OperationStatus
initial_status approval_required = if approval_required then pending_approval else queued

abbrev pub new_row :
    (now : ℕ) (id : String) → Bool → OperationPolicyDecision → CreateOperationInput → OperationRow
new_row now id approval_required policy input = record {
  id = id;
  organization_id = input.organization_id;
  project_id = input.project_id;
  environment_id = input.environment_id;
  provider = input.provider;
  operation_type = input.operation_type;
  status = initial_status approval_required;
  requested_by = some input.user_id;
  approved_by = none;
  approved_at = none;
  rejected_by = none;
  rejected_at = none;
  idempotency_key = input.idempotency_key;
  input = input_with_policy input.input (record policy { approval_required = approval_required });
  result = none;
  error = none;
  created_at = now;
  updated_at = now;
}

abbrev request_log :
    CreateOperationInput
    → AuditRequestContext
    → AuditAction
    → Option String
    → (resource_type resource_id : String) → AuditMetadata
    → AuditLog
request_log input context action operation resource_type resource_id metadata = record {
  organization_id = input.organization_id;
  actor_id = input.user_id;
  action = action;
  provider = input.provider;
  project_id = input.project_id;
  environment_id = input.environment_id;
  operation_id = operation;
  resource_type = resource_type;
  resource_id = resource_id;
  ip_address = context.ip_address;
  user_agent = context.user_agent;
  metadata = metadata;
}

abbrev created_signal : CreateOperationInput → OperationRow → SignalIngestInput
created_signal input row = record {
  source = SignalSource.autoops;
  type = SignalType.operation_created;
  severity = SignalSeverity.info;
  title = "Operation Created: " <> type_name input.operation_type;
  message =
      "Operation "
      <> row.id
      <> " of type "
      <> type_name input.operation_type
      <> " created by user "
      <> input.user_id
      <> ".";
  observed_at = none;
  resource_node_id = none;
  operation_id = some row.id;
  deployment_id = none;
  project_id = row.project_id;
  environment_id = row.environment_id;
  metadata = end;
  labels = none;
  dedupe_mode = some event;
}

abbrev first_reason : List String → String
first_reason [] = "Denied by policy."
first_reason (reason ∷ _) = reason

abbrev denial_log : CreateOperationInput → AuditRequestContext → EvaluatedOperationPolicy → AuditLog
denial_log input context evaluation =
    request_log input context AuditAction.update none "operation_policy"
      (provider_name input.provider <> ":" <> type_name input.operation_type)
      (policy_denied input.operation_type evaluation.mode evaluation.enforced_decision)

-- The request was denied: the denial is logged before the throw.
pub deny_request :
    CreateOperationInput → AuditRequestContext → EvaluatedOperationPolicy → Exec World OperationRow
deny_request input context evaluation = do
  modify (add_audit_log (denial_log input context evaluation))
  throw (bad_request_error (first_reason evaluation.enforced_decision.reasons))

-- The transaction, the signal, the job, and the node of the resource graph, whose failures are
-- swallowed.
unfoldable pub store_request :
    (now : ℕ) (id : String)
    → CreateOperationInput
    → AuditRequestContext
    → OperationPolicyDecision
    → EvaluatedOperationPolicy
    → Exec World OperationRow
store_request now id input context policy evaluation =
    let approval_required =
      policy.approval_required || evaluation.enforced_decision.approval_required in
    let row = new_row now id approval_required policy input in
    do
      insert_operation row
      modify (
          add_audit_log (
            request_log input context (audit_action input.operation_type) (some id) "operation" id (
              requested row.status approval_required policy.approval_reason policy.risk_level
                policy.policy_name evaluation.mode evaluation.decision
                evaluation.enforced_decision)))
      modify (add_signal (created_signal input row))
      if approval_required
          then pure tt
          else enqueue_operation_job (record {
            operation_id = id;
            organization_id = input.organization_id;
            requested_by = input.user_id;
          })
      modify (add_node id)
      pure row

-- What follows when the idempotency key is new. `ask` is the policy engine.
unfoldable pub decide_request :
    ServiceEnv
    → (now : ℕ) (id : String) → (OperationPolicyInput → OpaResponse)
    → CreateOperationInput
    → AuditRequestContext
    → Option EnvironmentScope
    → Exec World OperationRow
decide_request env now id ask input context scope =
    let policy =
      evaluate_operation_policy env.push_flag input.provider input.operation_type input.input in
    let evaluation = Opa.evaluate_operation_policy env.opa_mode (
      ask (
        build_operation_policy_input env.policy_env input.organization_id input.user_id input.role
          input.provider input.operation_type input.project_id input.environment_id scope
          input.input)) in
    do
      require (not (wrong_token policy input.confirmation_token))
          (bad_request_error ("confirmationToken must be " <> label_of policy))
      if evaluation.enforced_decision.allow
          then store_request now id input context policy evaluation
          else deny_request input context evaluation

-- `if (idempotencyKey)` the row that has the key already.
abbrev pub existing_operation : CreateOperationInput → World → Option OperationRow
existing_operation input w =
    if is_truthy input.idempotency_key
    then find_first (has_key input.organization_id input.idempotency_key) w.operations
    else none

unfoldable pub create_unless :
    ServiceEnv
    → (now : ℕ) (id : String) → (OperationPolicyInput → OpaResponse)
    → CreateOperationInput
    → AuditRequestContext
    → Option EnvironmentScope
    → (existing : Option OperationRow) → Exec World OperationRow
create_unless env now id ask input context scope (some row) = pure row
create_unless env now id ask input context scope none =
    decide_request env now id ask input context scope

unfoldable pub create_queued_operation :
    ServiceEnv
    → (now : ℕ) (id : String) → (OperationPolicyInput → OpaResponse)
    → CreateOperationInput
    → AuditRequestContext
    → Exec World OperationRow
create_queued_operation env now id ask input context = do
  role ← gets (λ w. get_organization_role w.memberships input.organization_id input.user_id)
  let decision = can_trigger_with_role role
  require decision.allowed (
      unauthorized_error
        (get_or decision.reason "You do not have permission to trigger this operation."))
  require (is_truthy input.confirmation_token)
      (bad_request_error "A confirmation token is required for real operations")
  scope ← validate_operation_scope input.organization_id input.project_id input.environment_id
  existing ← gets (existing_operation input)
  create_unless env now id ask input context scope existing
