-- ===== src/Operation/Decision/Tests.antt =====
-- Decisions, one by one.
use auto_ops.Prelude.{◌≡◌, ◌↔◌, inr, refl, true, none, some, [], ◌∷◌, find_first, arith}
use auto_ops.Exec.{Result, ok}
use auto_ops.Operation.{rejected}
use auto_ops.Organization.{get_organization_role, admin}
use auto_ops.Operation.World.{World, OperationRow, has_id, add_job}
use auto_ops.Operation.Service.{new_row}
use auto_ops.Operation.Service.Laws.{local_answer}
use auto_ops.Operation.Decision.{
  check_approval, commit_approval, approve_operation, reject_operation,
}
use auto_ops.Operation.Decision.Laws.{
  MayDecide, check_approval-ok_iff, approve_operation-queues, IsApproved, approved_job,
}
use auto_ops.Operation.Decision.Races.{commit_approval-revives}
use auto_ops.Samples.{open_world, service_env, stop_request, no_context}

abbrev pending_row : OperationRow
pending_row = new_row 10 "op-1" true (local_answer service_env stop_request) stop_request

abbrev holding : OperationRow → World
holding row = record open_world {
  memberships =
      (record { user_id = "dora"; organization_id = "acme"; role = admin })
      ∷ open_world.memberships;
  operations = row ∷ [];
}

abbrev pending_world : World
pending_world = holding pending_row

check_approval-ok_iff_example :
    (check_approval "op-1" "acme" "bob" pending_world ≡ (ok pending_row, pending_world))
    ↔ MayDecide "op-1" "acme" "bob" pending_world pending_row
check_approval-ok_iff_example = check_approval-ok_iff "op-1" "acme" "bob" pending_world pending_row

bob_may : MayDecide "op-1" "acme" "bob" pending_world pending_row
unfolding get_organization_role find_first
bob_may = (refl, refl, inr refl, λ e. cc)

abbrev approval : Result OperationRow × World
approval = approve_operation 20 "op-1" "acme" "bob" none no_context pending_world

approve_operation-queues_example :
    (row : OperationRow) × (approval.0 ≡ ok row)
    × (find_first (has_id "op-1") approval.1.operations ≡ some row)
    × IsApproved 20 "bob" pending_row row
    × (approval.1.jobs ≡ add_job (approved_job "acme" "bob" pending_row) [])
approve_operation-queues_example =
    approve_operation-queues 20 "op-1" "acme" "bob" none no_context pending_row pending_world
      (tt, tt) refl bob_may

-- Nobody may decide where there is no operation.
nobody_may : (operation : OperationRow) → ¬ MayDecide "op-1" "acme" "bob" open_world operation
unfolding find_first
nobody_may operation = λ h. ground (arith, h.0)

-- The administrator Dora rejects the operation after Bob's checks.
dora_may : MayDecide "op-1" "acme" "dora" pending_world pending_row
unfolding get_organization_role find_first
dora_may = (refl, refl, inr refl, λ e. cc)

abbrev checked : Result OperationRow × World
checked = check_approval "op-1" "acme" "bob" pending_world

abbrev between : Result OperationRow × World
between = reject_operation 15 "op-1" "acme" "dora" none no_context checked.1

abbrev revived : Result OperationRow × World
revived = commit_approval 20 "acme" "bob" none no_context pending_row between.1

commit_approval-revives_example :
    (no : OperationRow) × (row : OperationRow) × (checked.0 ≡ ok pending_row)
    × (between.0 ≡ ok no)
    × (find_first (has_id "op-1") between.1.operations ≡ some no)
    × (no.status ≡ rejected)
    × (revived.0 ≡ ok row)
    × (find_first (has_id "op-1") revived.1.operations ≡ some row)
    × IsApproved 20 "bob" pending_row row
    × (row.rejected_by ≡ some "dora")
    × (revived.1.jobs ≡ add_job (approved_job "acme" "bob" pending_row) [])
commit_approval-revives_example =
    commit_approval-revives 15 20 "op-1" "acme" "bob" "dora" none none no_context pending_row
      pending_world (tt, tt) refl bob_may dora_may
