-- ===== src/Worker/Incidents.antt =====
-- apps/worker/src/runtime/operation-incidents.ts: the incident of a failed operation.
pub mod Laws
mod Tests
use auto_ops.Prelude.{
  ℕ, Bool, true, false, ◌&&◌, String, Option, none, some, List, ◌∷◌, ◌<>◌, if◌then◌else◌, any,
  get_or, or_else, holds_text, is_truthy, collapse_white, take_units,
}
use auto_ops.Errors.{plain}
use auto_ops.Json.{
  Json, JsNumber, num, null, str, Fields, end, field, get_field, trimmed_value, exceeds,
}
use auto_ops.Exec.{Exec, ok, err, pure, gets, ◌>>=◌}
use auto_ops.Incident.{IncidentRow, IncidentSeverity, IncidentStatus, IncidentSource}
use auto_ops.Operation.{OperationType, provider_name}
use auto_ops.Operation.{
  kubernetes_deployment_scale, kubernetes_deployment_restart, jenkins_build_trigger,
  docker_container_start, docker_container_stop, docker_container_restart, terraform_validate,
  terraform_plan, terraform_apply, ansible_syntax_check, ansible_check, ansible_run,
  aws_ecr_image_build, aws_ecr_image_push, aws_terraform_ecs_plan, aws_terraform_ecs_apply,
}
use auto_ops.Operation.World.{World, OperationRow}

-- `typeof input.replicas === 'number' ? input.replicas : 0` compared with 2.
abbrev replicas_above_two : Option Json → Bool
replicas_above_two (some (num n)) = exceeds n 2
replicas_above_two _ = false

unfoldable pub severity_for_operation : OperationType → Fields → IncidentSeverity
severity_for_operation docker_container_restart input = IncidentSeverity.error
severity_for_operation kubernetes_deployment_restart input = IncidentSeverity.error
severity_for_operation kubernetes_deployment_scale input =
    if replicas_above_two (get_field "replicas" input)
    then IncidentSeverity.error
    else IncidentSeverity.warning
severity_for_operation terraform_apply input = IncidentSeverity.error
severity_for_operation aws_terraform_ecs_apply input = IncidentSeverity.error
severity_for_operation ansible_run input = IncidentSeverity.error
severity_for_operation _ input = IncidentSeverity.warning

unfoldable pub runbook_key : OperationType → String
runbook_key jenkins_build_trigger = "jenkins-build-failure"
runbook_key docker_container_restart = "docker-restart-failure"
runbook_key docker_container_start = "docker-container-action-failure"
runbook_key docker_container_stop = "docker-container-action-failure"
runbook_key kubernetes_deployment_scale = "kubernetes-scale-failure"
runbook_key kubernetes_deployment_restart = "kubernetes-rollout-failure"
runbook_key terraform_validate = "terraform-operation-failure"
runbook_key terraform_plan = "terraform-operation-failure"
runbook_key terraform_apply = "terraform-operation-failure"
runbook_key aws_terraform_ecs_plan = "terraform-operation-failure"
runbook_key aws_terraform_ecs_apply = "terraform-operation-failure"
runbook_key ansible_syntax_check = "ansible-operation-failure"
runbook_key ansible_check = "ansible-operation-failure"
runbook_key ansible_run = "ansible-operation-failure"
runbook_key aws_ecr_image_build = "aws-ecr-image-operation-failure"
runbook_key aws_ecr_image_push = "aws-ecr-image-operation-failure"
runbook_key _ = "operation-failure"

abbrev failed_what : OperationType → String
failed_what jenkins_build_trigger = "Jenkins build failed"
failed_what docker_container_start = "Docker container start failed"
failed_what docker_container_stop = "Docker container stop failed"
failed_what docker_container_restart = "Docker container restart failed"
failed_what kubernetes_deployment_scale = "Kubernetes deployment scale failed"
failed_what kubernetes_deployment_restart = "Kubernetes rollout restart failed"
failed_what terraform_validate = "Terraform/OpenTofu validate failed"
failed_what terraform_plan = "Terraform/OpenTofu plan failed"
failed_what terraform_apply = "Terraform/OpenTofu apply failed"
failed_what aws_terraform_ecs_plan = "AWS Terraform ECS plan failed"
failed_what aws_terraform_ecs_apply = "AWS Terraform ECS apply failed"
failed_what ansible_syntax_check = "Ansible syntax check failed"
failed_what ansible_check = "Ansible check mode failed"
failed_what ansible_run = "Ansible run failed"
failed_what aws_ecr_image_build = "AWS ECR image build failed"
failed_what aws_ecr_image_push = "AWS ECR image push failed"
failed_what _ = "Operation failed"

-- `target ? `: ${target}` : ''`
abbrev label_suffix : Option String → String
label_suffix target = if is_truthy target then ": " <> get_or target "" else ""

abbrev title_for_operation : OperationType → Option String → String
title_for_operation type target = failed_what type <> label_suffix target

abbrev text_field : String → Fields → Option String
text_field key input = trimmed_value (get_field key input)

-- Both texts with a separator, or the fallback if either is missing.
abbrev joined : Option String → String → Option String → Option String → Option String
joined (some a) separator (some b) fallback = some (a <> separator <> b)
joined _ separator _ fallback = fallback

abbrev docker_target : Fields → Option String × Option String
docker_target input = (
  some "Docker container",
  or_else (text_field "containerName" input) (text_field "containerId" input),
)

abbrev deployment_target : Fields → Option String × Option String
deployment_target input = (
  some "Kubernetes deployment",
  joined (text_field "namespace" input) "/" (text_field "name" input) (text_field "name" input),
)

abbrev workspace_target : Fields → Option String × Option String
workspace_target input = (some "Terraform/OpenTofu workspace", text_field "workspaceSlug" input)

abbrev playbook_target : Fields → Option String × Option String
playbook_target input = (some "Ansible playbook", text_field "playbookSlug" input)

abbrev image_target : Fields → Option String × Option String
image_target input = (
  some "AWS ECR image",
  joined (text_field "repositoryName" input) ":" (text_field "imageTag" input)
      (text_field "repositoryName" input),
)

-- The kind and the label of what the operation was about.
unfoldable pub target_for_operation : OperationType → Fields → Option String × Option String
target_for_operation jenkins_build_trigger input = (some "Jenkins job", text_field "jobName" input)
target_for_operation docker_container_start input = docker_target input
target_for_operation docker_container_stop input = docker_target input
target_for_operation docker_container_restart input = docker_target input
target_for_operation kubernetes_deployment_scale input = deployment_target input
target_for_operation kubernetes_deployment_restart input = deployment_target input
target_for_operation terraform_validate input = workspace_target input
target_for_operation terraform_plan input = workspace_target input
target_for_operation terraform_apply input = workspace_target input
target_for_operation aws_terraform_ecs_plan input = workspace_target input
target_for_operation aws_terraform_ecs_apply input = workspace_target input
target_for_operation ansible_syntax_check input = playbook_target input
target_for_operation ansible_check input = playbook_target input
target_for_operation ansible_run input = playbook_target input
target_for_operation aws_ecr_image_build input = image_target input
target_for_operation aws_ecr_image_push input = image_target input
target_for_operation _ input = (none, none)

-- `safeError` on the fields of the stored error.
unfoldable pub safe_error : Fields → String
safe_error error =
    take_units 500 (collapse_white (get_or (text_field "message" error) "Operation failed."))

abbrev nullable : Option String → Json
nullable none = null
nullable (some s) = str s

abbrev fields_of : Option Fields → Fields
fields_of none = end
fields_of (some fs) = fs

pub incident_of : (now : ℕ) (id : String) → OperationRow → IncidentRow
incident_of now id operation =
    let (kind, label) = target_for_operation operation.operation_type operation.input in
    record {
      id = id;
      organization_id = operation.organization_id;
      title = title_for_operation operation.operation_type label;
      summary = "AutoOps created this incident from failed operation " <> operation.id <> ".";
      severity = severity_for_operation operation.operation_type operation.input;
      status = IncidentStatus.opened;
      source = IncidentSource.system;
      correlation_key = "operation:" <> operation.id;
      primary_resource_node_id = none;
      project_id = operation.project_id;
      environment_id = none;
      deployment_id = none;
      operation_id = some operation.id;
      signal_count = 0;
      first_observed_at = now;
      last_observed_at = now;
      opened_at = now;
      acknowledged_by = none;
      acknowledged_at = none;
      resolved_by = none;
      resolved_at = none;
      archived_at = none;
      metadata = field "provider" (str (provider_name operation.provider)) (
          field "targetKind" (nullable kind) (
            field "targetName" (nullable label) (
              field "safeErrorMessage" (str (safe_error (fields_of operation.error)))
                (field "runbookKey" (str (runbook_key operation.operation_type)) end))));
    }

abbrev pub is_incident_of : String → IncidentRow → Bool
is_incident_of operation i = holds_text i.operation_id operation

-- `createIncidentForFailedOperation`: nothing if the operation has an incident already.
pub create_incident_for_failed_operation :
    (now : ℕ) (id : String) → OperationRow → Exec World (Unit {0})
create_incident_for_failed_operation now id operation w =
    if any (is_incident_of operation.id) w.incidents
    then (ok tt, w)
    else (ok tt, record w { incidents = incident_of now id operation ∷ w.incidents })
