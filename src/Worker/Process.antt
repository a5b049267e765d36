-- ===== src/Worker/Process.antt =====
-- apps/worker/src/queues/operations.queue.ts: `processOperation`. A job is looked up, claimed by an
-- update that asks for the status QUEUED again, executed, and its outcome is stored. Other workers
-- and the API may act between these steps, so they are functions of their own.
pub mod Governed
pub mod Laws
mod Tests
use auto_ops.Prelude.{
  ℕ, Bool, true, false, ◌&&◌, String, Option, none, some, ◌==◌, ◌<>◌, if◌then◌else◌, any,
  find_first,
}
use auto_ops.Errors.{Thrown, app, plain}
use auto_ops.Json.{Fields, end, field, str}
use auto_ops.Exec.{
  Result, ok, err, Exec, pure, throw, gets, or_throw, modify, require, catch, ◌>>=◌, ◌>>◌,
}
use auto_ops.Operation.{OperationProvider, OperationType, OperationStatus, is_queued, type_name}
use auto_ops.Operation.{kubernetes, aws, jenkins, docker, infrastructure}
use auto_ops.Operation.{
  kubernetes_deployment_scale, kubernetes_deployment_restart, jenkins_build_trigger,
  docker_container_start, docker_container_stop, docker_container_restart, terraform_validate,
  terraform_plan, terraform_apply, ansible_syntax_check, ansible_check, ansible_run,
  aws_ecr_image_build, aws_ecr_image_push, aws_terraform_ecs_plan, aws_terraform_ecs_apply,
  aws_ecs_release_promote, aws_ecs_release_rollback,
}
use auto_ops.Operation.World.{
  World, OperationRow, OperationJobData, is_operation, has_id, update_operations,
}
use auto_ops.Worker.Incidents.{create_incident_for_failed_operation}

-- The branch of `executeOperation` that runs. Three of them call one function, with other arguments.
pub data Executor : Type 0 where
  scale_deployment restart_deployment trigger_jenkins_build execute_docker_container_action
        execute_terraform_operation execute_aws_ecr_operation execute_aws_terraform_ecs_plan
        execute_aws_terraform_ecs_apply execute_aws_release_promote execute_aws_release_rollback
        execute_ansible_operation :
      Executor

unfoldable pub executor_of : OperationProvider → OperationType → Option Executor
executor_of kubernetes kubernetes_deployment_scale = some scale_deployment
executor_of kubernetes kubernetes_deployment_restart = some restart_deployment
executor_of jenkins jenkins_build_trigger = some trigger_jenkins_build
executor_of docker docker_container_start = some execute_docker_container_action
executor_of docker docker_container_stop = some execute_docker_container_action
executor_of docker docker_container_restart = some execute_docker_container_action
executor_of infrastructure terraform_validate = some execute_terraform_operation
executor_of infrastructure terraform_plan = some execute_terraform_operation
executor_of infrastructure terraform_apply = some execute_terraform_operation
executor_of aws terraform_validate = some execute_terraform_operation
executor_of aws terraform_plan = some execute_terraform_operation
executor_of aws terraform_apply = some execute_terraform_operation
executor_of aws aws_ecr_image_build = some execute_aws_ecr_operation
executor_of aws aws_ecr_image_push = some execute_aws_ecr_operation
executor_of aws aws_terraform_ecs_plan = some execute_aws_terraform_ecs_plan
executor_of aws aws_terraform_ecs_apply = some execute_aws_terraform_ecs_apply
executor_of aws aws_ecs_release_promote = some execute_aws_release_promote
executor_of aws aws_ecs_release_rollback = some execute_aws_release_rollback
executor_of infrastructure ansible_syntax_check = some execute_ansible_operation
executor_of infrastructure ansible_check = some execute_ansible_operation
executor_of infrastructure ansible_run = some execute_ansible_operation
executor_of _ _ = none

abbrev run_with :
    (Executor → OperationRow → Result Fields) → OperationRow → Option Executor → Result Fields
run_with run operation none =
    err (plain ("Unsupported operation type: " <> type_name operation.operation_type))
run_with run operation (some executor) = run executor operation

-- `executeOperation`; `run` stands for the executors.
unfoldable pub execute_operation :
    (Executor → OperationRow → Result Fields) → OperationRow → Result Fields
unfolding executor_of
execute_operation run operation =
    run_with run operation (executor_of operation.provider operation.operation_type)

abbrev pub is_claimable : (id organization : String) → OperationRow → Bool
is_claimable id organization r = is_operation id organization r && is_queued r.status

abbrev pub claim_row : (now : ℕ) → OperationRow → OperationRow
claim_row now r = record r { status = OperationStatus.running; updated_at = now }

-- `updateMany` to RUNNING where the status is QUEUED; whether a row was updated. The identifier is the
-- table's primary key, so that the count is 1 if some row passes.
unfoldable pub claim : (now : ℕ) (id organization : String) → Exec World Bool
claim now id organization = do
  claimed ← gets (λ w. any (is_claimable id organization) w.operations)
  modify (update_operations (is_claimable id organization) (claim_row now))
  pure claimed

-- The row that the job names, if it is to be executed.
unfoldable pub look_up : OperationJobData → Exec World (Option OperationRow)
look_up job = do
  found ← gets (λ w. find_first (is_operation job.operation_id job.organization_id) w.operations)
  operation ← or_throw found (plain ("Operation not found: " <> job.operation_id))
  pure (if is_queued operation.status then some operation else none)

abbrev pub succeed_row : (now : ℕ) (result : Fields) → OperationRow → OperationRow
succeed_row now result r = record r {
  status = OperationStatus.succeeded;
  result = some result;
  updated_at = now;
}

abbrev pub fail_row : (now : ℕ) (message : String) → OperationRow → OperationRow
fail_row now message r = record r {
  status = OperationStatus.failed;
  updated_at = now;
  error = some (field "message" (str message) end);
}

abbrev pub message_of : Thrown → String
message_of (app e) = e.message
message_of (plain message) = message

-- The update of the row with this identifier, which must exist; the row as it is stored then.
update_operation : (id : String) → (OperationRow → OperationRow) → Exec World OperationRow
update_operation id f = do
  found ← gets (λ w. find_first (has_id id) w.operations)
  stored ← or_throw found (plain "No record was found for an update.")
  modify (update_operations (has_id id) f)
  pure (f stored)

-- The outcome of an execution is stored; a failure opens an incident, whose own failure is
-- swallowed, and is thrown again. A failure to store a result would be stored as a failure, by an
-- update that fails too.
pub finish : (now : ℕ) (incident : String) → OperationRow → Result Fields → Exec World (Unit {0})
finish now incident operation (ok result) = do
  update_operation operation.id (succeed_row now result)
  pure tt
finish now incident operation (err e) = do
  failed ← update_operation operation.id (fail_row now (message_of e))
  catch (create_incident_for_failed_operation now incident failed) (λ _. pure tt)
  throw e

abbrev process_claimed :
    (now : ℕ) (incident : String)
    → (Executor → OperationRow → Result Fields)
    → OperationRow
    → Bool
    → Exec World (Unit {0})
process_claimed now incident run operation true =
    finish now incident operation (execute_operation run operation)
process_claimed now incident run operation false = pure tt

abbrev process_found :
    (now : ℕ) (incident : String)
    → (Executor → OperationRow → Result Fields)
    → OperationJobData
    → Option OperationRow
    → Exec World (Unit {0})
process_found now incident run job none = pure tt
process_found now incident run job (some operation) = do
  claimed ← claim now operation.id job.organization_id
  process_claimed now incident run operation claimed

pub process_operation :
    (now : ℕ) (incident : String)
    → (Executor → OperationRow → Result Fields)
    → OperationJobData
    → Exec World (Unit {0})
process_operation now incident run job = do
  found ← look_up job
  process_found now incident run job found
