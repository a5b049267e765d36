-- ===== src/Operation/Service/Tests.antt =====
-- Requests, one by one.
use auto_ops.Prelude.{
  ◌≡◌, refl, true, false, Option, none, some, [], ◌∷◌, any, find_first, if◌then◌else◌, ◌||◌,
}
use auto_ops.Json.{get_field}
use auto_ops.Errors.{Thrown}
use auto_ops.Exec.{◌>>=◌, Result, ok, err}
use auto_ops.Organization.{get_organization_role}
use auto_ops.Opa
use auto_ops.Opa.{normalize_decision}
use auto_ops.Opa.Request.{EnvironmentScope}
use auto_ops.Operation.{queued, pending_approval}
use auto_ops.Operation.Authorization.{can_trigger_with_role}
use auto_ops.Operation.Policy.{evaluate_operation_policy}
use auto_ops.Operation.Scope.{validate_operation_scope}
use auto_ops.Operation.World.{World, OperationRow, insert_operation, add_job, enqueue_operation_job}
use auto_ops.Operation.Service.{
  create_queued_operation, create_unless, decide_request, store_request, new_row,
  existing_operation,
}
use auto_ops.Operation.Service.Laws.{local_answer, opa_answer, needs_approval_of, job_of}
use auto_ops.Operation.Service.Engine.{
  create_queued_operation-inserts, engine_allows, engine_asks, engine_decision,
}
use auto_ops.Operation.Service.Retry.{create_queued_operation-again}
use auto_ops.Operation.Service.Failures.{store_request-stuck}
use auto_ops.Samples.{open_world, world_with, service_env, answer_with, start_request, no_context}

abbrev started_row : OperationRow
started_row = new_row 10 "op-1" false (local_answer service_env start_request) start_request

abbrev started_world : World
started_world =
    (create_queued_operation service_env 10 "op-1" (answer_with true) start_request no_context
      open_world).1

started :
    create_queued_operation service_env 10 "op-1"
      (answer_with true)
      start_request
      no_context
      open_world
    ≡ (ok started_row, started_world)
unfolding create_queued_operation ◌>>=◌ can_trigger_with_role get_organization_role
    validate_operation_scope create_unless decide_request evaluate_operation_policy
    Opa.evaluate_operation_policy normalize_decision get_field store_request insert_operation
    enqueue_operation_job
started = refl

create_queued_operation-inserts_example :
    (scope : Option EnvironmentScope) × (validate_operation_scope "acme" none none open_world
      ≡ (ok scope, open_world))
    × (engine_allows service_env.opa_mode
          (engine_decision service_env (answer_with true) start_request scope)
        ≡ true)
    × (started_world.operations ≡ started_row ∷ open_world.operations)
    × (started_row.requested_by ≡ some "alice")
    × (if (local_answer service_env start_request).approval_required
          || engine_asks service_env.opa_mode
              (engine_decision service_env (answer_with true) start_request scope)
        then (started_row.status ≡ pending_approval) × (started_world.jobs ≡ open_world.jobs)
        else (started_row.status ≡ queued)
          × (started_world.jobs ≡ add_job (job_of "op-1" start_request) open_world.jobs))
unfolding find_first
create_queued_operation-inserts_example =
    create_queued_operation-inserts service_env 10 "op-1" (answer_with true) start_request
      no_context open_world started_world started_row refl started

-- Sent again when the policy engine denies everything.
create_queued_operation-again_example :
    create_queued_operation service_env 50 "op-2"
      (answer_with false)
      start_request
      no_context
      started_world
    ≡ (ok started_row, started_world)
create_queued_operation-again_example =
    create_queued_operation-again service_env service_env 10 50 "op-1" "op-2" (answer_with true)
      (answer_with false) start_request no_context open_world started_world started_row refl started

denied :
    (opa_answer service_env (answer_with false) start_request none).enforced_decision.allow ≡ false
unfolding Opa.evaluate_operation_policy normalize_decision get_field
denied = refl

no_approval :
    needs_approval_of
      (local_answer service_env start_request)
      (opa_answer service_env (answer_with true) start_request none)
    ≡ false
unfolding evaluate_operation_policy Opa.evaluate_operation_policy normalize_decision get_field
no_approval = refl

abbrev stuck : Result OperationRow × World
stuck =
    store_request 10 "op-1" start_request no_context (local_answer service_env start_request)
      (opa_answer service_env (answer_with true) start_request none) (world_with false)

store_request-stuck_example :
    (e : Thrown) × (row : OperationRow) × (stuck.0 ≡ err e)
    × (row.status ≡ queued)
    × (stuck.1.operations ≡ row ∷ [])
    × (stuck.1.jobs ≡ [])
    × (existing_operation start_request stuck.1 ≡ some row)
unfolding any
store_request-stuck_example =
    store_request-stuck 10 "op-1" start_request no_context (local_answer service_env start_request)
      (opa_answer service_env (answer_with true) start_request none) (world_with false) no_approval
      refl refl refl refl
