-- ===== src/Worker/Process/Tests.antt =====
-- Jobs, one by one.
use auto_ops.Prelude.{◌≡◌, refl, true, false, none, some, [], ◌∷◌, find_first, is_some, ◌||◌}
use auto_ops.Json.{end, Fields}
use auto_ops.Errors.{plain}
use auto_ops.Exec.{Result, ok, err}
use auto_ops.Operation.{docker, docker_container_stop}
use auto_ops.Operation.Policy.{evaluate_operation_policy}
use auto_ops.Operation.World.{World, OperationRow, is_operation}
use auto_ops.Operation.Service.{new_row}
use auto_ops.Operation.Service.Laws.{local_answer}
use auto_ops.Worker.Process.{Executor, executor_of, process_operation, execute_operation}
use auto_ops.Worker.Process.Laws.{
  confirmation_required-executor_of, process_operation-settles, process_operation-twice, report_of,
  HasEnded, SameRequest,
}
use auto_ops.Samples.{open_world, service_env, start_request, stop_request, job, run_ok}

confirmation_required-executor_of_example :
    let policy = evaluate_operation_policy none docker docker_container_stop end in
    (policy.confirmation_required ≡ is_some (executor_of docker docker_container_stop))
    × (is_some policy.confirmation_token_label ≡ is_some (executor_of docker docker_container_stop))
    × ((is_some (executor_of docker docker_container_stop) || policy.approval_required) ≡ true)
confirmation_required-executor_of_example =
    confirmation_required-executor_of none docker docker_container_stop end

abbrev queued_row : OperationRow
queued_row = new_row 10 "op-1" false (local_answer service_env start_request) start_request

abbrev pending_row : OperationRow
pending_row = new_row 10 "op-1" true (local_answer service_env stop_request) stop_request

abbrev holding : OperationRow → World
holding row = record open_world { operations = row ∷ [] }

-- An executor that fails.
abbrev run_fails : Executor → OperationRow → Result Fields
run_fails executor operation = err (plain "No such container")

abbrev failed_run : Result (Unit {0}) × World
failed_run = process_operation 30 "inc-1" run_fails job (holding queued_row)

process_operation-settles_example :
    (row : OperationRow) × (failed_run.0 ≡ report_of (execute_operation run_fails queued_row))
    × (find_first (is_operation "op-1" "acme") failed_run.1.operations ≡ some row)
    × HasEnded 30 (execute_operation run_fails queued_row) queued_row row
    × SameRequest queued_row row
unfolding find_first
process_operation-settles_example =
    process_operation-settles 30 "inc-1" run_fails job (holding queued_row) queued_row refl refl

process_operation-twice_example :
    process_operation 60 "inc-2" run_ok job failed_run.1 ≡ (ok tt, failed_run.1)
unfolding find_first
process_operation-twice_example =
    process_operation-twice 30 60 "inc-1" "inc-2" run_fails run_ok job (holding queued_row)
      queued_row refl refl
