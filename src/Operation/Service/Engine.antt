-- ===== src/Operation/Service/Engine.antt =====
-- operation.service.ts: what a request leaves behind, by the mode and the decision of the policy engine.
use auto_ops.Prelude.{
  ℕ, ◌≡◌, refl, Bool, true, false, not, ◌&&◌, ◌||◌, ◌==◌, any, get_or, String, Option, none, some,
  ◌∷◌, if◌then◌else◌,
}
use auto_ops.Exec.{ok}
use auto_ops.Opa.{
  OpaResponse, EvaluatedOperationPolicy, OpaEnforcementMode, shadow, enforce, is_enforce,
  fail_closed, evaluate_operation,
}
use auto_ops.Opa
use auto_ops.Opa.Request.{build_operation_policy_input, OperationPolicyInput, EnvironmentScope}
use auto_ops.Operation.{pending_approval, queued}
use auto_ops.Operation.Scope.{validate_operation_scope}
use auto_ops.Operation.World.{World, OperationRow, add_job}
use auto_ops.Operation.Service.{
  ServiceEnv, CreateOperationInput, AuditRequestContext, create_queued_operation,
  existing_operation,
}
use auto_ops.Operation.Service.Laws.{local_answer, job_of, create_queued_operation-enforced}

-- What the policy engine decides, if it decides.
abbrev pub engine_decision :
    ServiceEnv
    → (OperationPolicyInput → OpaResponse)
    → CreateOperationInput
    → Option EnvironmentScope
    → Option Opa.OperationPolicyDecision
engine_decision env ask input scope = evaluate_operation (
    ask (
      build_operation_policy_input env.policy_env input.organization_id input.user_id input.role
        input.provider input.operation_type input.project_id input.environment_id scope
        input.input))

abbrev pub fails_closed : Opa.OperationPolicyDecision → Bool
fails_closed decision = any (λ c. c == "fail_closed") decision.controls

-- Whether the engine lets a request pass: never without a decision, in shadow mode unless the decision
-- fails closed and denies, in enforce mode as it decides.
abbrev pub engine_allows : OpaEnforcementMode → Option Opa.OperationPolicyDecision → Bool
engine_allows mode none = false
engine_allows enforce (some decision) = decision.allow
engine_allows shadow (some decision) = not (fails_closed decision) || decision.allow

-- Whether the engine asks for an approval: in shadow mode only if its decision fails closed.
abbrev pub engine_asks : OpaEnforcementMode → Option Opa.OperationPolicyDecision → Bool
engine_asks mode none = false
engine_asks enforce (some decision) = decision.approval_required
engine_asks shadow (some decision) = fails_closed decision && decision.approval_required

enforced_by_mode :
    (mode : OpaEnforcementMode) (answer : OpaResponse)
    → let enforced = (Opa.evaluate_operation_policy mode answer).enforced_decision in
      (enforced.allow ≡ engine_allows mode (evaluate_operation answer))
      × (enforced.approval_required ≡ engine_asks mode (evaluate_operation answer))
unfolding Opa.evaluate_operation_policy any
enforced_by_mode mode answer = at mode (evaluate_operation answer)
  where
    chosen :
        (fails : Bool) (decision : Opa.OperationPolicyDecision)
        → let enforced = if fails || false then decision else Opa.shadow_allow in
          (enforced.allow ≡ (not fails || decision.allow))
          × (enforced.approval_required ≡ (fails && decision.approval_required))
    chosen true decision = (refl, refl)
    chosen false decision = (refl, refl)

    always :
        (fails : Bool) (decision : Opa.OperationPolicyDecision)
        → let enforced = if fails || true then decision else Opa.shadow_allow in
          (enforced.allow ≡ decision.allow)
          × (enforced.approval_required ≡ decision.approval_required)
    always true decision = (refl, refl)
    always false decision = (refl, refl)

    at :
        (mode : OpaEnforcementMode) (found : Option Opa.OperationPolicyDecision)
        → let decision = get_or found fail_closed in
          let enforced =
            if fails_closed decision || is_enforce mode then decision else Opa.shadow_allow in
          (enforced.allow ≡ engine_allows mode found)
          × (enforced.approval_required ≡ engine_asks mode found)
    at enforce none = (refl, refl)
    at shadow none = (refl, refl)
    at enforce (some decision) = always (fails_closed decision) decision
    at shadow (some decision) = chosen (fails_closed decision) decision

-- A request whose idempotency key is new, when it returns, returns the row that it inserted, in the
-- caller's name. The policy engine has decided; in enforce mode it has allowed the request, and in shadow
-- mode its decision counts only if it has the control `fail_closed`, and has then allowed the request too.
-- If the local policy or a decision that counts asks for an approval, the row is pending and no job is
-- added; otherwise the row is queued and a job for it is added.
pub create_queued_operation-inserts :
    (env : ServiceEnv) (now : ℕ) (id : String) (ask : OperationPolicyInput → OpaResponse)
    (input : CreateOperationInput) (context : AuditRequestContext) (w v : World)
    (row : OperationRow)
    → existing_operation input w ≡ none
    → create_queued_operation env now id ask input context w ≡ (ok row, v)
    → (scope : Option EnvironmentScope) × (validate_operation_scope input.organization_id
          input.project_id input.environment_id w
        ≡ (ok scope, w))
      × (engine_allows env.opa_mode (engine_decision env ask input scope) ≡ true)
      × (v.operations ≡ row ∷ w.operations)
      × (row.requested_by ≡ some input.user_id)
      × (if (local_answer env input).approval_required
            || engine_asks env.opa_mode (engine_decision env ask input scope)
          then (row.status ≡ pending_approval) × (v.jobs ≡ w.jobs)
          else (row.status ≡ queued) × (v.jobs ≡ add_job (job_of id input) w.jobs))
create_queued_operation-inserts env now id ask input context w v row fresh h =
    let (scope, valid, allowed, inserted, requester, outcome) =
      create_queued_operation-enforced env now id ask input context w v row fresh h in
    let (allows, asks) = enforced_by_mode env.opa_mode (
      ask (
        build_operation_policy_input env.policy_env input.organization_id input.user_id input.role
          input.provider input.operation_type input.project_id input.environment_id scope
          input.input)) in
    (scope, valid, rw (← allows) allowed, inserted, requester, rw (← asks) outcome)
