-- ===== src/Operation/Service/Laws.antt =====
-- operation.service.ts: what a request leaves behind.
use auto_ops.Prelude.{
  ℕ, ◌≡◌, refl, subst, Bool, true, false, ◌||◌, String, Option, none, some, ◌∷◌, is_truthy, arith,
  if◌then◌else◌,
}
use auto_ops.Exec.{◌>>=◌, Result, ok, err}
use auto_ops.Exec.Triple.{Post}
use auto_ops.Organization.{get_organization_role}
use auto_ops.Opa.{
  OpaResponse, EvaluatedOperationPolicy, OpaEnforcementMode, shadow, enforce, is_enforce,
  fail_closed, evaluate_operation,
}
use auto_ops.Opa
use auto_ops.Opa.Request.{build_operation_policy_input, OperationPolicyInput, EnvironmentScope}
use auto_ops.Operation.{pending_approval, queued}
use auto_ops.Operation.Authorization.{may_trigger, can_trigger_with_role}
use auto_ops.Operation.Policy.{OperationPolicyDecision, evaluate_operation_policy}
use auto_ops.Operation.Scope.{validate_operation_scope, scope-Keeps}
use auto_ops.Operation.World.{
  World, OperationRow, OperationJobData, insert_operation, enqueue_operation_job, add_job,
}
use auto_ops.Operation.Service.{
  ServiceEnv, CreateOperationInput, AuditRequestContext, new_row, deny_request, store_request,
  decide_request, wrong_token, create_unless, create_queued_operation, existing_operation,
}

-- The caller may ask for the operation.
abbrev pub MayTrigger : CreateOperationInput → World → Type 0
MayTrigger input w =
    (may_trigger (get_organization_role w.memberships input.organization_id input.user_id) ≡ true)
    × (is_truthy input.confirmation_token ≡ true)

-- Every request that returns an operation came from an owner, administrator or member of the
-- organization, with a confirmation token, and names a project and an environment that passed.
pub create-ok :
    (env : ServiceEnv) (now : ℕ) (id : String) (ask : OperationPolicyInput → OpaResponse)
    (input : CreateOperationInput) (context : AuditRequestContext) (w v : World)
    (row : OperationRow)
    → create_queued_operation env now id ask input context w ≡ (ok row, v)
    → MayTrigger input w
      × ((scope : Option EnvironmentScope) × (validate_operation_scope input.organization_id
              input.project_id input.environment_id w
            ≡ (ok scope, w))
          × (create_unless env now id ask input context scope (existing_operation input w) w
              ≡ (ok row, v)))
unfolding create_queued_operation ◌>>=◌ can_trigger_with_role
create-ok env now id ask input context w v row h =
    at (validate_operation_scope input.organization_id input.project_id input.environment_id w) refl
      ((scope-Keeps (λ u. u ≡ w) input.organization_id input.project_id input.environment_id).at w
        refl)
  where
    at :
        (r : Result (Option EnvironmentScope) × World)
        → validate_operation_scope input.organization_id input.project_id input.environment_id w ≡ r
        → Post (λ _ u. u ≡ w) (λ u. u ≡ w) r
        → MayTrigger input w
          × ((scope : Option EnvironmentScope) × (validate_operation_scope input.organization_id
                  input.project_id input.environment_id w
                ≡ (ok scope, w))
              × (create_unless env now id ask input context scope (existing_operation input w) w
                  ≡ (ok row, v)))
    at (ok scope, u) ran same = (ground arith, (scope, rw ran (rw same refl), ground arith))
    at (err e, u) ran same = absurd (ground arith)

-- What every step of a request leaves alone.
pub record IsFramed (w v : World) : Type 0 where
  pub memberships : v.memberships ≡ w.memberships
  pub projects : v.projects ≡ w.projects
  pub environments : v.environments ≡ w.environments
  pub incidents : v.incidents ≡ w.incidents

abbrev pub needs_approval_of : OperationPolicyDecision → EvaluatedOperationPolicy → Bool
needs_approval_of policy evaluation =
    policy.approval_required || evaluation.enforced_decision.approval_required

abbrev pub job_of : (id : String) → CreateOperationInput → OperationJobData
job_of id input = record {
  operation_id = id;
  organization_id = input.organization_id;
  requested_by = input.user_id;
}

pub store-ok :
    (now : ℕ) (id : String) (input : CreateOperationInput) (context : AuditRequestContext)
    (policy : OperationPolicyDecision) (evaluation : EvaluatedOperationPolicy) (w v : World)
    (row : OperationRow)
    → store_request now id input context policy evaluation w ≡ (ok row, v)
    → (row ≡ new_row now id (needs_approval_of policy evaluation) policy input)
      × (v.operations ≡ row ∷ w.operations)
      × (v.jobs ≡ (
          if needs_approval_of policy evaluation then w.jobs else add_job (job_of id input) w.jobs))
      × IsFramed w v
unfolding store_request insert_operation enqueue_operation_job ◌>>=◌
store-ok now id input context policy evaluation w v row h = (
  ground arith,
  ground arith,
  ground arith,
  record {
    memberships = ground arith;
    projects = ground arith;
    environments = ground arith;
    incidents = ground arith;
  },
)

-- The two policies' answers to a request.
abbrev pub local_answer : ServiceEnv → CreateOperationInput → OperationPolicyDecision
local_answer env input =
    evaluate_operation_policy env.push_flag input.provider input.operation_type input.input

abbrev pub opa_answer :
    ServiceEnv
    → (OperationPolicyInput → OpaResponse)
    → CreateOperationInput
    → Option EnvironmentScope
    → EvaluatedOperationPolicy
opa_answer env ask input scope = Opa.evaluate_operation_policy env.opa_mode (
    ask (
      build_operation_policy_input env.policy_env input.organization_id input.user_id input.role
        input.provider input.operation_type input.project_id input.environment_id scope
        input.input))

pub decide-ok :
    (env : ServiceEnv) (now : ℕ) (id : String) (ask : OperationPolicyInput → OpaResponse)
    (input : CreateOperationInput) (context : AuditRequestContext) (scope : Option EnvironmentScope)
    (w v : World) (row : OperationRow)
    → decide_request env now id ask input context scope w ≡ (ok row, v)
    → ((opa_answer env ask input scope).enforced_decision.allow ≡ true)
      × (store_request now id input context
            (local_answer env input)
            (opa_answer env ask input scope)
            w
          ≡ (ok row, v))
unfolding decide_request deny_request ◌>>=◌
decide-ok env now id ask input context scope w v row h =
    at (wrong_token (local_answer env input) input.confirmation_token)
      ((opa_answer env ask input scope).enforced_decision.allow) refl refl
  where
    at :
        (b c : Bool)
        → wrong_token (local_answer env input) input.confirmation_token ≡ b
        → (opa_answer env ask input scope).enforced_decision.allow ≡ c
        → ((opa_answer env ask input scope).enforced_decision.allow ≡ true)
          × (store_request now id input context
                (local_answer env input)
                (opa_answer env ask input scope)
                w
              ≡ (ok row, v))
    at b c e f = (ground arith, ground arith)

-- What a request leaves, by the decision that is enforced.
pub create_queued_operation-enforced :
    (env : ServiceEnv) (now : ℕ) (id : String) (ask : OperationPolicyInput → OpaResponse)
    (input : CreateOperationInput) (context : AuditRequestContext) (w v : World)
    (row : OperationRow)
    → existing_operation input w ≡ none
    → create_queued_operation env now id ask input context w ≡ (ok row, v)
    → (scope : Option EnvironmentScope) × (validate_operation_scope input.organization_id
          input.project_id input.environment_id w
        ≡ (ok scope, w))
      × ((opa_answer env ask input scope).enforced_decision.allow ≡ true)
      × (v.operations ≡ row ∷ w.operations)
      × (row.requested_by ≡ some input.user_id)
      × (if needs_approval_of (local_answer env input) (opa_answer env ask input scope)
          then (row.status ≡ pending_approval) × (v.jobs ≡ w.jobs)
          else (row.status ≡ queued) × (v.jobs ≡ add_job (job_of id input) w.jobs))
unfolding create_unless
create_queued_operation-enforced env now id ask input context w v row fresh h =
    let (_, (scope, valid, made)) = create-ok env now id ask input context w v row h in
    let (allowed, stored) = decide-ok env now id ask input context scope w v row (
      subst (λ e. create_unless env now id ask input context scope e w ≡ (ok row, v)) fresh made) in
    let (is_new, inserted, jobs, _) =
      store-ok now id input context (local_answer env input) (opa_answer env ask input scope) w v
        row stored in
    (
      scope,
      valid,
      allowed,
      inserted,
      rw is_new refl,
      at (needs_approval_of (local_answer env input) (opa_answer env ask input scope)) is_new jobs,
    )
  where
    at :
        (b : Bool)
        → row ≡ new_row now id b (local_answer env input) input
        → v.jobs ≡ (if b then w.jobs else add_job (job_of id input) w.jobs)
        → (if b
            then (row.status ≡ pending_approval) × (v.jobs ≡ w.jobs)
            else (row.status ≡ queued) × (v.jobs ≡ add_job (job_of id input) w.jobs))
    at true is_new jobs = (rw is_new refl, jobs)
    at false is_new jobs = (rw is_new refl, jobs)
