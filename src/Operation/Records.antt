-- ===== src/Operation/Records.antt =====
-- operation.service.ts: what the service stores of an operation: the audit action of a request
-- (`_auditAction`), and the input with the policy's decision in it (`_inputWithPolicy`).
use auto_ops.Prelude.{String, Option, none, some}
use auto_ops.Json.{Json, null, bool, str, obj, Fields, end, field, set_field}
use auto_ops.Operation.{OperationType, OperationRiskLevel}
use auto_ops.Operation.Policy.{OperationPolicyDecision}
use auto_ops.Operation.World.{AuditAction}

unfoldable pub audit_action : OperationType → AuditAction
audit_action OperationType.kubernetes_deployment_scale =
    AuditAction.kubernetes_deployment_scale_requested
audit_action OperationType.kubernetes_deployment_restart =
    AuditAction.kubernetes_deployment_restart_requested
audit_action OperationType.kubernetes_manifest_apply =
    AuditAction.kubernetes_manifest_apply_requested
audit_action OperationType.jenkins_build_trigger = AuditAction.jenkins_build_trigger_requested
audit_action OperationType.docker_container_start = AuditAction.docker_container_start_requested
audit_action OperationType.docker_container_stop = AuditAction.docker_container_stop_requested
audit_action OperationType.docker_container_restart = AuditAction.docker_container_restart_requested
audit_action OperationType.terraform_validate = AuditAction.terraform_validate_requested
audit_action OperationType.terraform_plan = AuditAction.terraform_plan_requested
audit_action OperationType.terraform_apply = AuditAction.terraform_apply_requested
audit_action OperationType.ansible_syntax_check = AuditAction.ansible_syntax_check_requested
audit_action OperationType.ansible_check = AuditAction.ansible_check_requested
audit_action OperationType.ansible_run = AuditAction.ansible_run_requested
audit_action OperationType.kubernetes_manifest_dry_run =
    AuditAction.kubernetes_manifest_dry_run_requested
audit_action OperationType.aws_ecr_image_build = AuditAction.aws_ecr_image_build_requested
audit_action OperationType.aws_ecr_image_push = AuditAction.aws_ecr_image_push_requested
audit_action OperationType.aws_terraform_ecs_plan = AuditAction.aws_terraform_ecs_plan_requested
audit_action OperationType.aws_terraform_ecs_apply = AuditAction.aws_terraform_ecs_apply_requested
audit_action _ = AuditAction.update

abbrev risk_name : OperationRiskLevel → String
risk_name OperationRiskLevel.low = "LOW"
risk_name OperationRiskLevel.medium = "MEDIUM"
risk_name OperationRiskLevel.high = "HIGH"

abbrev nullable : Option String → Json
nullable none = null
nullable (some s) = str s

abbrev pub policy_fields : OperationPolicyDecision → Fields
policy_fields p = field "riskLevel" (str (risk_name p.risk_level)) (
    field "confirmationRequired" (bool p.confirmation_required) (
      field "confirmationTokenLabel" (nullable p.confirmation_token_label) (
        field "approvalRequired" (bool p.approval_required) (
          field "approvalReason" (nullable p.approval_reason)
            (field "policyName" (str p.policy_name) end)))))

unfoldable pub input_with_policy : Fields → OperationPolicyDecision → Fields
input_with_policy input policy = set_field "policy" (obj (policy_fields policy)) input
