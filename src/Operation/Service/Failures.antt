-- ===== src/Operation/Service/Failures.antt =====
-- operation.service.ts: requests that are denied, and requests whose job cannot be handed over.
use auto_ops.Prelude.{
  ℕ, ◌≡◌, refl, true, false, String, Option, some, ◌∷◌, find_first, any, is_truthy,
}
use auto_ops.Errors.{Thrown, plain, bad_request_error}
use auto_ops.Exec.{◌>>=◌, err}
use auto_ops.Opa.{OpaResponse, EvaluatedOperationPolicy}
use auto_ops.Opa.Request.{OperationPolicyInput, EnvironmentScope}
use auto_ops.Operation.{queued}
use auto_ops.Operation.Policy.{OperationPolicyDecision}
use auto_ops.Operation.World.{
  World, OperationRow, AuditLog, policy_denied, has_id, has_key, insert_operation,
  enqueue_operation_job,
}
use auto_ops.Operation.Service.{
  ServiceEnv, CreateOperationInput, AuditRequestContext, new_row, store_request, decide_request,
  deny_request, first_reason, denial_log, existing_operation, wrong_token,
}
use auto_ops.Operation.Service.Laws.{local_answer, opa_answer, needs_approval_of}
use auto_ops.Operation.Service.Retry.{own_key}

-- A request that the policy engine denies throws. It adds one row to the audit log, which has the
-- denial, and adds neither an operation nor a job.
pub decide_request-denied :
    (env : ServiceEnv) (now : ℕ) (id : String) (ask : OperationPolicyInput → OpaResponse)
    (input : CreateOperationInput) (context : AuditRequestContext) (scope : Option EnvironmentScope)
    (w : World)
    → wrong_token (local_answer env input) input.confirmation_token ≡ false
    → (opa_answer env ask input scope).enforced_decision.allow ≡ false
    → let answer = opa_answer env ask input scope in
      (e : Thrown) × (log : AuditLog) × (decide_request env now id ask input context scope w
        ≡ (err e, record w { audit_logs = log ∷ w.audit_logs }))
      × (log.organization_id ≡ input.organization_id)
      × (log.actor_id ≡ input.user_id)
      × (log.metadata ≡ policy_denied input.operation_type answer.mode answer.enforced_decision)
unfolding decide_request deny_request ◌>>=◌
decide_request-denied env now id ask input context scope w token denied = (
  bad_request_error (first_reason (opa_answer env ask input scope).enforced_decision.reasons),
  denial_log input context (opa_answer env ask input scope),
  rw (token, denied) refl,
  refl,
  refl,
  refl,
)

-- When the queue's server does not answer, a request that needs no approval throws after its row was
-- stored: the row is queued, no job is added, and a request with the same idempotency key finds it.
pub store_request-stuck :
    (now : ℕ) (id : String) (input : CreateOperationInput) (context : AuditRequestContext)
    (policy : OperationPolicyDecision) (evaluation : EvaluatedOperationPolicy) (w : World)
    → needs_approval_of policy evaluation ≡ false
    → any (has_id id) w.operations ≡ false
    → any (has_key input.organization_id input.idempotency_key) w.operations ≡ false
    → w.queue_available ≡ false
    → is_truthy input.idempotency_key ≡ true
    → let done = store_request now id input context policy evaluation w in
      (e : Thrown) × (row : OperationRow) × (done.0 ≡ err e)
      × (row.status ≡ queued)
      × (done.1.operations ≡ row ∷ w.operations)
      × (done.1.jobs ≡ w.jobs)
      × (existing_operation input done.1 ≡ some row)
unfolding store_request insert_operation enqueue_operation_job find_first ◌>>=◌
store_request-stuck now id input context policy evaluation w approval fresh new_key down key = (
  plain "Queue unavailable",
  new_row now id false policy input,
  rw (approval, fresh, new_key, down) refl,
  refl,
  rw (approval, fresh, new_key, down) refl,
  rw (approval, fresh, new_key, down) refl,
  rw (approval, fresh, new_key, down) (rw (key, own_key now id false policy input key) refl),
)
