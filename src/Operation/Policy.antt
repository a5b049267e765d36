-- ===== src/Operation/Policy.antt =====
-- apps/api/src/modules/operations/operation-policy.service.ts: the local policy, which says for each
-- operation its risk, its confirmation token and whether it needs an approval.
pub mod Laws
mod Tests
use auto_ops.Prelude.{
  ℕ, Bool, true, false, not, ◌&&◌, ◌||◌, String, Option, none, some, if◌then◌else◌, is_some,
  holds_text, codes, codes_eq, lower_codes,
}
use auto_ops.Json.{JsNumber, Fields, exceeds, get_field, number_value, trimmed_value}
use auto_ops.Operation.{OperationProvider, OperationType, OperationRiskLevel, low, medium, high}
use auto_ops.Operation.{kubernetes, aws, jenkins, docker, infrastructure}
use auto_ops.Operation.{
  kubernetes_deployment_scale, kubernetes_deployment_restart, jenkins_build_trigger,
  docker_container_start, docker_container_stop, docker_container_restart, terraform_validate,
  terraform_plan, terraform_apply, ansible_syntax_check, ansible_check, ansible_run,
  aws_ecr_image_build, aws_ecr_image_push, aws_terraform_ecs_plan, aws_terraform_ecs_apply,
  aws_ecs_release_promote, aws_ecs_release_rollback,
}

pub record OperationPolicyDecision : Type 0 where
  pub risk_level : OperationRiskLevel
  pub confirmation_required : Bool
  pub confirmation_token_label : Option String
  pub approval_required : Bool
  pub approval_reason : Option String
  pub policy_name : String

abbrev pub local_policy_name : String
local_policy_name = "local-pilot-operation-policy-v1"

abbrev pub confirmation_only : OperationRiskLevel → Option String → OperationPolicyDecision
confirmation_only risk label = record {
  risk_level = risk;
  confirmation_required = is_some label;
  confirmation_token_label = label;
  approval_required = false;
  approval_reason = none;
  policy_name = local_policy_name;
}

abbrev pub needs_approval : OperationRiskLevel → Option String → String → OperationPolicyDecision
needs_approval risk label reason = record {
  risk_level = risk;
  confirmation_required = is_some label;
  confirmation_token_label = label;
  approval_required = true;
  approval_reason = some reason;
  policy_name = local_policy_name;
}

-- `replicas !== null && replicas > k`
abbrev pub above : Option JsNumber → ℕ → Bool
above none k = false
above (some n) k = exceeds n k

-- `slug === 'production' || slug === 'prod'` after `?.toLowerCase()`.
abbrev pub is_production : Option String → Bool
is_production none = false
is_production (some slug) =
    codes_eq (lower_codes slug) (codes "production") || codes_eq (lower_codes slug) (codes "prod")

-- `push_flag` is the variable AWS_ECR_PRODUCTION_PUSH_REQUIRES_APPROVAL of the process.
unfoldable pub evaluate_operation_policy :
    (push_flag : Option String)
    → OperationProvider
    → OperationType
    → Fields
    → OperationPolicyDecision
evaluate_operation_policy flag jenkins jenkins_build_trigger input =
    confirmation_only low (some "BUILD")
evaluate_operation_policy flag docker docker_container_start input =
    confirmation_only medium (some "START")
evaluate_operation_policy flag docker docker_container_stop input =
    needs_approval medium (some "STOP") "Stopping a running container may interrupt a service."
evaluate_operation_policy flag docker docker_container_restart input =
    needs_approval medium (some "RESTART") "Restarting a container may interrupt a service."
evaluate_operation_policy flag kubernetes kubernetes_deployment_restart input =
    confirmation_only medium (some "ROLLOUT")
evaluate_operation_policy flag kubernetes kubernetes_deployment_scale input =
    if above (number_value (get_field "replicas" input)) 2
    then needs_approval medium (some "SCALE")
        "Scaling above 2 replicas requires approval in the local policy."
    else confirmation_only medium (some "SCALE")
evaluate_operation_policy flag infrastructure terraform_validate input =
    confirmation_only low (some "VALIDATE")
evaluate_operation_policy flag aws terraform_validate input =
    confirmation_only low (some "VALIDATE")
evaluate_operation_policy flag infrastructure terraform_plan input =
    confirmation_only low (some "PLAN")
evaluate_operation_policy flag aws terraform_plan input = confirmation_only low (some "PLAN")
evaluate_operation_policy flag infrastructure terraform_apply input =
    needs_approval high (some "APPLY")
      "Terraform/OpenTofu apply changes infrastructure and requires approval."
evaluate_operation_policy flag aws terraform_apply input =
    needs_approval high (some "APPLY")
      "Terraform/OpenTofu apply changes infrastructure and requires approval."
evaluate_operation_policy flag aws aws_ecr_image_build input =
    confirmation_only medium (some "BUILD")
evaluate_operation_policy flag aws aws_ecr_image_push input =
    if not (holds_text flag "false")
      && is_production (trimmed_value (get_field "environmentSlug" input))
    then needs_approval high (some "PUSH") "Pushing a production image to ECR requires approval."
    else confirmation_only medium (some "PUSH")
evaluate_operation_policy flag aws aws_terraform_ecs_plan input =
    confirmation_only medium (some "PLAN")
evaluate_operation_policy flag aws aws_terraform_ecs_apply input =
    needs_approval high (some "APPLY") "AWS ECS apply changes infrastructure and requires approval."
evaluate_operation_policy flag aws aws_ecs_release_promote input =
    if is_production (trimmed_value (get_field "environmentSlug" input))
    then needs_approval high (some "PROMOTE") "AWS ECS promotion to production requires approval."
    else confirmation_only medium (some "PROMOTE")
evaluate_operation_policy flag aws aws_ecs_release_rollback input =
    needs_approval high (some "ROLLBACK") "AWS ECS rollback always requires approval."
evaluate_operation_policy flag infrastructure ansible_syntax_check input =
    confirmation_only low (some "SYNTAX")
evaluate_operation_policy flag infrastructure ansible_check input =
    confirmation_only low (some "CHECK")
evaluate_operation_policy flag infrastructure ansible_run input =
    needs_approval high (some "RUN") "Ansible run can change managed systems and requires approval."
evaluate_operation_policy flag _ _ input =
    needs_approval high none "Unknown operation type requires approval."
