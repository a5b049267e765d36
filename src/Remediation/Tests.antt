-- ===== src/Remediation/Tests.antt =====
-- A container that exited, and a recommendation that only asks for a review.
use auto_ops.Prelude.{◌≡◌, refl, trim, none, some, [], ◌∷◌}
use auto_ops.Json.{str, end, field}
use auto_ops.Operation.{docker}
use auto_ops.Operation.{docker_container_restart}
use auto_ops.Remediation.{
  RemediationRecommendation, of_provider, policy, of_type, review_policy, can_prepare,
  cannot_prepare, build_remediation_preparation_plan,
}
use auto_ops.Remediation.Laws.{IsReady, build_remediation_preparation_plan-IsReady}

abbrev restart : RemediationRecommendation
restart = record {
  id = "inc1:docker-restart-review";
  incident_id = "inc1";
  provider = of_provider docker;
  action_type = of_type docker_container_restart;
  evidence =
      record { source_id = "s1"; label = "Container exited"; details = none }
      ∷ record {
        source_id = "t1";
        label = "web";
        details = some (
            field "containerId" (str "  ")
              (field "id" (str " c0ffee ") (field "name" (str "web") end)));
      }
      ∷ [];
  blocked_reason = none;
}

prepares :
    build_remediation_preparation_plan restart
    ≡ can_prepare docker docker_container_restart "RESTART" (
        field "action" (str "restart") (
          field "containerId" (str "c0ffee") (
            field "containerName" (str "web") (
              field "confirmationLabel" (str "RESTART") (
                field "preparedFromIncidentId"
                  (str "inc1")
                  (field "remediationRecommendationId" (str "inc1:docker-restart-review") end))))))
unfolding build_remediation_preparation_plan trim
prepares = refl

reviews_only :
    build_remediation_preparation_plan
      (record restart { provider = policy; action_type = review_policy })
    ≡ cannot_prepare "No governed operation is attached to this recommendation."
unfolding build_remediation_preparation_plan
reviews_only = refl

build_remediation_preparation_plan-IsReady_example :
    IsReady none (build_remediation_preparation_plan restart)
build_remediation_preparation_plan-IsReady_example =
    build_remediation_preparation_plan-IsReady none restart
