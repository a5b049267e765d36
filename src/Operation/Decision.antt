-- ===== src/Operation/Decision.antt =====
-- operation.service.ts: `approveOperation` and `rejectOperation`. Each reads the operation and checks
-- it, and then writes by its identifier alone; other calls may come between the two halves, so they
-- are functions of their own.
pub mod Governed
pub mod Laws
pub mod Races
mod Tests
use auto_ops.Prelude.{ℕ, String, Option, none, some, ◌<>◌, find_first, get_or}
use auto_ops.Errors.{plain, unauthorized_error, not_found_error, conflict_error}
use auto_ops.Json.{str, end, field}
use auto_ops.Exec.{Exec, pure, gets, or_throw, modify, require, ◌>>=◌, ◌>>◌}
use auto_ops.Organization.{get_organization_role}
use auto_ops.Signal.{SignalIngestInput, SignalSource, SignalType, SignalSeverity, event}
use auto_ops.Operation.{OperationStatus, is_pending_approval}
use auto_ops.Operation.Authorization.{can_approve_with_role, can_reject_with_role}
use auto_ops.Operation.World.{
  World, OperationRow, AuditLog, AuditAction, decided, is_operation, has_id, add_audit_log,
  add_signal, update_operations, enqueue_operation_job,
}
use auto_ops.Operation.Service.{AuditRequestContext}

abbrev pub find_operation : (id organization : String) → World → Option OperationRow
find_operation id organization w = find_first (is_operation id organization) w.operations

-- The checks of `approveOperation`.
unfoldable pub check_approval : (id organization user : String) → Exec World OperationRow
check_approval id organization user = do
  found ← gets (find_operation id organization)
  operation ← or_throw found (not_found_error "Operation")
  require (is_pending_approval operation.status)
      (conflict_error "Only pending approval operations can be approved")
  role ← gets (λ w. get_organization_role w.memberships organization user)
  let decision = can_approve_with_role role user operation.status operation.requested_by
  require decision.allowed (
      unauthorized_error
        (get_or decision.reason "You do not have permission to approve this operation."))
  pure operation

-- The checks of `rejectOperation`.
unfoldable pub check_rejection : (id organization user : String) → Exec World OperationRow
check_rejection id organization user = do
  found ← gets (find_operation id organization)
  operation ← or_throw found (not_found_error "Operation")
  require (is_pending_approval operation.status)
      (conflict_error "Only pending approval operations can be rejected")
  role ← gets (λ w. get_organization_role w.memberships organization user)
  let decision = can_reject_with_role role user operation.status operation.requested_by
  require decision.allowed (
      unauthorized_error
        (get_or decision.reason "You do not have permission to reject this operation."))
  pure operation

abbrev pub approve_row : (now : ℕ) (user : String) → OperationRow → OperationRow
approve_row now user r = record r {
  status = OperationStatus.queued;
  approved_by = some user;
  approved_at = some now;
  updated_at = now;
}

abbrev pub reject_row :
    (now : ℕ) (user : String) (reason : Option String) → OperationRow → OperationRow
reject_row now user reason r = record r {
  status = OperationStatus.rejected;
  rejected_by = some user;
  rejected_at = some now;
  error = some (field "reason" (str (get_or reason "Rejected by approver")) end);
  updated_at = now;
}

abbrev decision_log :
    (organization user decision : String) (reason : Option String)
    → AuditRequestContext
    → OperationRow
    → AuditLog
decision_log organization user decision reason context operation = record {
  organization_id = organization;
  actor_id = user;
  action = AuditAction.update;
  provider = operation.provider;
  project_id = operation.project_id;
  environment_id = operation.environment_id;
  operation_id = some operation.id;
  resource_type = "operation";
  resource_id = operation.id;
  ip_address = context.ip_address;
  user_agent = context.user_agent;
  metadata = decided decision reason;
}

abbrev decision_signal :
    SignalType → SignalSeverity → (title message : String) → OperationRow → SignalIngestInput
decision_signal type severity title message row = record {
  source = SignalSource.autoops;
  type = type;
  severity = severity;
  title = title;
  message = message;
  observed_at = none;
  resource_node_id = none;
  operation_id = some row.id;
  deployment_id = none;
  project_id = row.project_id;
  environment_id = row.environment_id;
  metadata = end;
  labels = none;
  dedupe_mode = some event;
}

-- The writes of `approveOperation` for the operation that was checked.
unfoldable pub commit_approval :
    (now : ℕ) (organization user : String) (reason : Option String)
    → AuditRequestContext
    → OperationRow
    → Exec World OperationRow
commit_approval now organization user reason context operation = do
  found ← gets (λ w. find_first (has_id operation.id) w.operations)
  stored ← or_throw found (plain "No record was found for an update.")
  let updated = approve_row now user stored
  modify (update_operations (has_id operation.id) (approve_row now user))
  modify (add_audit_log (decision_log organization user "approved" reason context operation))
  modify (
      add_signal (
        decision_signal SignalType.approval_approved SignalSeverity.info "Operation Approved"
          ("Operation " <> updated.id <> " was approved by user " <> user <> ".") updated))
  enqueue_operation_job (record {
    operation_id = updated.id;
    organization_id = organization;
    requested_by = get_or operation.requested_by user;
  })
  pure updated

-- The writes of `rejectOperation` for the operation that was checked.
unfoldable pub commit_rejection :
    (now : ℕ) (organization user : String) (reason : Option String)
    → AuditRequestContext
    → OperationRow
    → Exec World OperationRow
commit_rejection now organization user reason context operation = do
  found ← gets (λ w. find_first (has_id operation.id) w.operations)
  stored ← or_throw found (plain "No record was found for an update.")
  let updated = reject_row now user reason stored
  modify (update_operations (has_id operation.id) (reject_row now user reason))
  modify (add_audit_log (decision_log organization user "rejected" reason context operation))
  modify (
      add_signal (
        decision_signal SignalType.approval_rejected SignalSeverity.warning "Operation Rejected"
          ("Operation "
            <> updated.id
            <> " was rejected by user "
            <> user
            <> ". Reason: "
            <> get_or reason "No reason provided"
            <> ".")
          updated))
  pure updated

pub approve_operation :
    (now : ℕ) (id organization user : String) (reason : Option String)
    → AuditRequestContext
    → Exec World OperationRow
approve_operation now id organization user reason context = do
  operation ← check_approval id organization user
  commit_approval now organization user reason context operation

pub reject_operation :
    (now : ℕ) (id organization user : String) (reason : Option String)
    → AuditRequestContext
    → Exec World OperationRow
reject_operation now id organization user reason context = do
  operation ← check_rejection id organization user
  commit_rejection now organization user reason context operation
