-- ===== src/Operation.antt =====
-- packages/types/src/operation.ts: providers, types and statuses of operations.
pub mod Policy
pub mod Authorization
pub mod World
pub mod Records
pub mod Governed
pub mod Scope
pub mod Service
pub mod Decision
use auto_ops.Prelude.{Bool, true, false, String}

pub data OperationProvider : Type 0 where
  kubernetes aws jenkins github docker infrastructure : OperationProvider

pub data OperationType : Type 0 where
  kubernetes_deployment_scale kubernetes_deployment_restart kubernetes_manifest_dry_run
        kubernetes_manifest_apply jenkins_build_trigger docker_container_start docker_container_stop
        docker_container_restart terraform_validate terraform_plan terraform_apply
        ansible_syntax_check ansible_check ansible_run github_workflow_dispatch aws_deployment
        aws_ecr_image_build aws_ecr_image_push aws_terraform_ecs_plan aws_terraform_ecs_apply
        aws_ecs_release_promote aws_ecs_release_rollback deployment_rollback :
      OperationType

pub data OperationStatus : Type 0 where
  pending_approval queued running succeeded failed rejected cancelled : OperationStatus

-- packages/types/src/ops.ts.
pub data OperationRiskLevel : Type 0 where
  low medium high : OperationRiskLevel

-- The text that stands for a member in messages, keys and the database.
abbrev pub provider_name : OperationProvider → String
provider_name kubernetes = "KUBERNETES"
provider_name aws = "AWS"
provider_name jenkins = "JENKINS"
provider_name github = "GITHUB"
provider_name docker = "DOCKER"
provider_name infrastructure = "INFRASTRUCTURE"

abbrev pub type_name : OperationType → String
type_name kubernetes_deployment_scale = "KUBERNETES_DEPLOYMENT_SCALE"
type_name kubernetes_deployment_restart = "KUBERNETES_DEPLOYMENT_RESTART"
type_name kubernetes_manifest_dry_run = "KUBERNETES_MANIFEST_DRY_RUN"
type_name kubernetes_manifest_apply = "KUBERNETES_MANIFEST_APPLY"
type_name jenkins_build_trigger = "JENKINS_BUILD_TRIGGER"
type_name docker_container_start = "DOCKER_CONTAINER_START"
type_name docker_container_stop = "DOCKER_CONTAINER_STOP"
type_name docker_container_restart = "DOCKER_CONTAINER_RESTART"
type_name terraform_validate = "TERRAFORM_VALIDATE"
type_name terraform_plan = "TERRAFORM_PLAN"
type_name terraform_apply = "TERRAFORM_APPLY"
type_name ansible_syntax_check = "ANSIBLE_SYNTAX_CHECK"
type_name ansible_check = "ANSIBLE_CHECK"
type_name ansible_run = "ANSIBLE_RUN"
type_name github_workflow_dispatch = "GITHUB_WORKFLOW_DISPATCH"
type_name aws_deployment = "AWS_DEPLOYMENT"
type_name aws_ecr_image_build = "AWS_ECR_IMAGE_BUILD"
type_name aws_ecr_image_push = "AWS_ECR_IMAGE_PUSH"
type_name aws_terraform_ecs_plan = "AWS_TERRAFORM_ECS_PLAN"
type_name aws_terraform_ecs_apply = "AWS_TERRAFORM_ECS_APPLY"
type_name aws_ecs_release_promote = "AWS_ECS_RELEASE_PROMOTE"
type_name aws_ecs_release_rollback = "AWS_ECS_RELEASE_ROLLBACK"
type_name deployment_rollback = "DEPLOYMENT_ROLLBACK"

abbrev pub is_pending_approval : OperationStatus → Bool
is_pending_approval pending_approval = true
is_pending_approval _ = false

abbrev pub is_queued : OperationStatus → Bool
is_queued queued = true
is_queued _ = false
