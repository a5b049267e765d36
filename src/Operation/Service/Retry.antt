-- ===== src/Operation/Service/Retry.antt =====
-- operation.service.ts: a request that is sent again with the same idempotency key.
use auto_ops.Prelude.{
  ℕ, ◌≡◌, refl, ap, ◌∙◌, Bool, true, String, Option, none, some, find_first, is_truthy, arith,
  eq_iff, ◌==◌, ◌&&◌,
}
use auto_ops.Exec.{◌>>=◌, ok}
use auto_ops.Opa.{OpaResponse}
use auto_ops.Opa.Request.{OperationPolicyInput, EnvironmentScope}
use auto_ops.Organization.{get_organization_role}
use auto_ops.Operation.Authorization.{may_trigger, can_trigger_with_role}
use auto_ops.Operation.Policy.{OperationPolicyDecision}
use auto_ops.Operation.Scope.{validate-reads}
use auto_ops.Operation.World.{World, OperationRow, has_key, same_text}
use auto_ops.Operation.Service.{
  ServiceEnv, CreateOperationInput, AuditRequestContext, new_row, create_unless,
  create_queued_operation, existing_operation,
}
use auto_ops.Operation.Service.Laws.{
  create-ok, decide-ok, store-ok, IsFramed, local_answer, opa_answer, needs_approval_of,
}

pub own_key :
    (now : ℕ) (id : String) (approval : Bool) (policy : OperationPolicyDecision)
    (input : CreateOperationInput)
    → is_truthy input.idempotency_key ≡ true
    → has_key input.organization_id input.idempotency_key (new_row now id approval policy input)
      ≡ true
own_key now id approval policy input h = at input.idempotency_key h
  where
    at :
        (key : Option String)
        → is_truthy key ≡ true
        → (input.organization_id == input.organization_id && same_text key key) ≡ true
    at none h = cc
    at (some k) h = ground (arith, eq_iff k k, eq_iff input.organization_id input.organization_id)

-- After a request that returned, its key finds the row that it returned.
unless-keyed :
    (env : ServiceEnv) (now : ℕ) (id : String) (ask : OperationPolicyInput → OpaResponse)
    (input : CreateOperationInput) (context : AuditRequestContext) (scope : Option EnvironmentScope)
    (existing : Option OperationRow) (w v : World) (row : OperationRow)
    → is_truthy input.idempotency_key ≡ true
    → existing_operation input w ≡ existing
    → create_unless env now id ask input context scope existing w ≡ (ok row, v)
    → (existing_operation input v ≡ some row) × IsFramed w v
unfolding create_unless find_first ◌>>=◌
unless-keyed env now id ask input context scope (some found) w v row key e h =
    let same : w ≡ v = ap (λ r. r.1) h in
    let returned : found ≡ row = ground arith in
    (
      rw (← same) (e ∙ ap some returned),
      record {
        memberships = rw same refl;
        projects = rw same refl;
        environments = rw same refl;
        incidents = rw same refl;
      },
    )
unless-keyed env now id ask input context scope none w v row key e h =
    let (_, stored) = decide-ok env now id ask input context scope w v row h in
    let (is_new, inserted, _, framed) =
      store-ok now id input context (local_answer env input) (opa_answer env ask input scope) w v
        row stored in
    (
      rw key (
          rw inserted (
            rw is_new (
              rw
                (own_key now id
                  (needs_approval_of (local_answer env input) (opa_answer env ask input scope))
                  (local_answer env input) input key)
                refl))),
      framed,
    )

-- A request that returned an operation and carries an idempotency key can be sent again, at any time
-- and with any fresh identifier, even if the policy engine would answer otherwise by then: it returns
-- the same operation and changes nothing.
pub create_queued_operation-again :
    (env env_later : ServiceEnv) (now later : ℕ) (id another : String)
    (ask ask_later : OperationPolicyInput → OpaResponse) (input : CreateOperationInput)
    (context : AuditRequestContext) (w v : World) (row : OperationRow)
    → is_truthy input.idempotency_key ≡ true
    → create_queued_operation env now id ask input context w ≡ (ok row, v)
    → create_queued_operation env_later later another ask_later input context v ≡ (ok row, v)
unfolding create_queued_operation create_unless can_trigger_with_role ◌>>=◌
create_queued_operation-again env env_later now later id another ask ask_later input context w v row
      key h =
    let ((allowed, token), (scope, valid, made)) =
      create-ok env now id ask input context w v row h in
    let (found, framed) =
      unless-keyed env now id ask input context scope (existing_operation input w) w v row key refl
        made in
    let valid_later =
      validate-reads input.organization_id input.project_id input.environment_id w v scope
        framed.projects framed.environments valid in
    let allowed_later : may_trigger
          (get_organization_role v.memberships input.organization_id input.user_id)
        ≡ true =
      rw framed.memberships allowed in
    rw (allowed_later, token, valid_later, found) refl
