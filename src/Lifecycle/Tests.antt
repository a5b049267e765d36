-- ===== src/Lifecycle/Tests.antt =====
-- A request with its approval and execution, and one with its rejection, step by step.
use auto_ops.Prelude.{
  ◌≡◌, ◌⊎◌, refl, true, false, none, some, [], ◌∷◌, any, find_first, update_where,
}
use auto_ops.Json.{get_field, set_field}
use auto_ops.Exec.{◌>>=◌}
use auto_ops.Organization.{get_organization_role}
use auto_ops.Opa
use auto_ops.Opa.{normalize_decision}
use auto_ops.Operation.Policy.{evaluate_operation_policy}
use auto_ops.Operation.Authorization.{
  can_trigger_with_role, can_approve_with_role, can_reject_with_role,
}
use auto_ops.Operation.Records.{input_with_policy}
use auto_ops.Operation.Scope.{validate_operation_scope}
use auto_ops.Operation.Governed.{requires_approval}
use auto_ops.Operation.World.{has_id, OperationRow, insert_operation, enqueue_operation_job}
use auto_ops.Operation.Service.{
  create_queued_operation, create_unless, decide_request, store_request, new_row,
}
use auto_ops.Operation.Decision.{
  check_approval, commit_approval, check_rejection, commit_rejection, approve_row, reject_row,
  find_operation,
}
use auto_ops.Worker.Process.{look_up, claim}
use auto_ops.Lifecycle.{
  System, Reach, create, approval_check, approval_commit, rejection_check, rejection_commit,
  job_look_up, job_claim, start, next, start_of, with_world, approval_of, rejection_of, look_up_of,
  execution_of, ticket,
}
use auto_ops.Lifecycle.Safety.{
  released-IsApprovedByOther, rejected-IsRejectedByOther, executed-IsApprovedByOther,
  IsApprovedByOther, IsRejectedByOther,
}
use auto_ops.Samples.{open_world, service_env, answer_with, stop_request, no_context, job}

abbrev requested_system : System
requested_system =
    with_world
      (create_queued_operation service_env 10 "op-1" (answer_with true) stop_request no_context
        open_world).1
      (start_of open_world)

abbrev pending_row : OperationRow
pending_row =
    new_row 10 "op-1" true
      (evaluate_operation_policy none stop_request.provider stop_request.operation_type
        stop_request.input)
      stop_request

requested-Reach : Reach requested_system
requested-Reach =
    next (start open_world refl)
      (create service_env 10 "op-1" (answer_with true) stop_request no_context)

abbrev checked_system : System
checked_system =
    approval_of "acme" "bob" (check_approval "op-1" "acme" "bob" requested_system.world)
      requested_system

checked-Reach : Reach checked_system
checked-Reach = next requested-Reach (approval_check "op-1" "acme" "bob")

abbrev approved_system : System
approved_system = record checked_system {
  world = (commit_approval 20 "acme" "bob" none no_context pending_row checked_system.world).1;
  approvals = [];
}

has_ticket : checked_system.approvals ≡ ticket "acme" "bob" pending_row ∷ []
unfolding create_queued_operation check_approval ◌>>=◌ find_first can_trigger_with_role
    get_organization_role validate_operation_scope create_unless decide_request
    evaluate_operation_policy Opa.evaluate_operation_policy normalize_decision get_field
    store_request insert_operation can_approve_with_role
has_ticket = refl

approved-Reach : Reach approved_system
approved-Reach =
    next checked-Reach
      (approval_commit [] (ticket "acme" "bob" pending_row) [] 20 none no_context has_ticket)

approved_found :
    find_operation "op-1" "acme" approved_system.world ≡ some (approve_row 20 "bob" pending_row)
unfolding create_queued_operation check_approval ◌>>=◌ find_first can_trigger_with_role
    get_organization_role validate_operation_scope create_unless decide_request
    evaluate_operation_policy Opa.evaluate_operation_policy normalize_decision get_field
    store_request insert_operation can_approve_with_role commit_approval enqueue_operation_job
    update_where input_with_policy
approved_found = refl

approved_needed : requires_approval (approve_row 20 "bob" pending_row) ≡ true
unfolding evaluate_operation_policy input_with_policy get_field set_field
approved_needed = refl

released-IsApprovedByOther_example : IsApprovedByOther (approve_row 20 "bob" pending_row)
released-IsApprovedByOther_example =
    released-IsApprovedByOther {s = approved_system} "op-1" "acme"
      {r = approve_row 20 "bob" pending_row} approved-Reach approved_found approved_needed refl

abbrev refusing_system : System
refusing_system =
    rejection_of "acme" "bob" (check_rejection "op-1" "acme" "bob" requested_system.world)
      requested_system

refusing-Reach : Reach refusing_system
refusing-Reach = next requested-Reach (rejection_check "op-1" "acme" "bob")

abbrev refused_system : System
refused_system = record refusing_system {
  world = (commit_rejection 20 "acme" "bob" none no_context pending_row refusing_system.world).1;
  rejections = [];
}

has_refusal : refusing_system.rejections ≡ ticket "acme" "bob" pending_row ∷ []
unfolding create_queued_operation check_rejection ◌>>=◌ find_first can_trigger_with_role
    get_organization_role validate_operation_scope create_unless decide_request
    evaluate_operation_policy Opa.evaluate_operation_policy normalize_decision get_field
    store_request insert_operation can_reject_with_role
has_refusal = refl

refused-Reach : Reach refused_system
refused-Reach =
    next refusing-Reach
      (rejection_commit [] (ticket "acme" "bob" pending_row) [] 20 none no_context has_refusal)

refused_found :
    find_operation "op-1" "acme" refused_system.world ≡ some (reject_row 20 "bob" none pending_row)
unfolding create_queued_operation check_rejection ◌>>=◌ find_first can_trigger_with_role
    get_organization_role validate_operation_scope create_unless decide_request
    evaluate_operation_policy Opa.evaluate_operation_policy normalize_decision get_field
    store_request insert_operation can_reject_with_role commit_rejection update_where
    input_with_policy
refused_found = refl

rejected-IsRejectedByOther_example : IsRejectedByOther (reject_row 20 "bob" none pending_row)
rejected-IsRejectedByOther_example =
    rejected-IsRejectedByOther {s = refused_system} "op-1" "acme"
      {r = reject_row 20 "bob" none pending_row} refused-Reach refused_found refl

-- A worker takes the job of the approved operation.
abbrev seen_system : System
seen_system = look_up_of "acme" (look_up job approved_system.world) approved_system

abbrev running_system : System
running_system =
    execution_of (approve_row 20 "bob" pending_row) (claim 30 "op-1" "acme" seen_system.world)
      (record seen_system { look_ups = [] })

seen-Reach : Reach seen_system
seen-Reach = next approved-Reach (job_look_up job)

has_look_up :
    seen_system.look_ups
    ≡ record { organization = "acme"; operation = approve_row 20 "bob" pending_row } ∷ []
unfolding create_queued_operation check_approval ◌>>=◌ find_first can_trigger_with_role
    get_organization_role validate_operation_scope create_unless decide_request
    evaluate_operation_policy Opa.evaluate_operation_policy normalize_decision get_field
    store_request insert_operation can_approve_with_role commit_approval enqueue_operation_job
    update_where input_with_policy look_up
has_look_up = refl

running-Reach : Reach running_system
running-Reach = next seen-Reach (
    job_claim [] (record { organization = "acme"; operation = approve_row 20 "bob" pending_row }) []
      30 has_look_up)

is_running : running_system.executions ≡ approve_row 20 "bob" pending_row ∷ []
unfolding create_queued_operation check_approval ◌>>=◌ find_first can_trigger_with_role
    get_organization_role validate_operation_scope create_unless decide_request
    evaluate_operation_policy Opa.evaluate_operation_policy normalize_decision get_field
    store_request insert_operation can_approve_with_role commit_approval enqueue_operation_job
    update_where input_with_policy look_up claim any
is_running = refl

executed-IsApprovedByOther_example :
    (r : OperationRow) × (find_first (has_id "op-1") running_system.world.operations ≡ some r)
    × ((requires_approval r ≡ false) ⊎ IsApprovedByOther r)
executed-IsApprovedByOther_example =
    executed-IsApprovedByOther {s = running_system} [] (approve_row 20 "bob" pending_row) []
      running-Reach is_running
