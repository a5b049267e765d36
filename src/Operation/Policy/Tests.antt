-- ===== src/Operation/Policy/Tests.antt =====
-- Decisions of the local policy.
use auto_ops.Prelude.{◌≡◌, ◌≢◌, refl, true, none}
use auto_ops.Json.{end}
use auto_ops.Operation.{high, docker, docker_container_start}
use auto_ops.Operation.Policy.{evaluate_operation_policy}
use auto_ops.Operation.Policy.Laws.{evaluate_operation_policy-unapproved}

evaluate_operation_policy-unapproved_example :
    ((evaluate_operation_policy none docker docker_container_start end).risk_level ≢ high)
    × ((evaluate_operation_policy none docker docker_container_start end).confirmation_required
        ≡ true)
unfolding evaluate_operation_policy
evaluate_operation_policy-unapproved_example =
    evaluate_operation_policy-unapproved none docker docker_container_start end refl
