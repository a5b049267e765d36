-- ===== src/Opa/Request.antt =====
-- apps/api/src/modules/policy/operation-policy.service.ts: what the policy engine is asked.
use auto_ops.Prelude.{ℕ, suc, String, Option, none, some, List, or_else}
use auto_ops.Json.{
  JsNumber, Fields, end, field, get_field, record_value, string_value, number_value,
}
use auto_ops.Operation.{
  OperationProvider, OperationType, kubernetes, docker, jenkins, kubernetes_deployment_restart,
  kubernetes_manifest_apply, kubernetes_manifest_dry_run, docker_container_start,
  docker_container_stop, docker_container_restart,
}
use auto_ops.Opa.{optional_field}

pub record EnvironmentScope : Type 0 where
  pub kind : String
  pub name : String
  pub slug : String

-- `Record<string, unknown>`, a constructor for each shape; `none` is `undefined`.
pub data Target : Type 0 where
  jenkins_target : (job_name : Option String) (parameter_count : ℕ) → Target
  kubernetes_target :
      (namespace name action kind api_version : Option String) (replicas : Option JsNumber) → Target
  docker_target : (container_name action : Option String) → Target
  no_target : Target

pub record OperationPolicyInput : Type 0 where
  pub organization_id : String
  pub user_id : String
  pub role : Option String
  pub provider : OperationProvider
  pub operation_type : OperationType
  pub project_id : Option String
  pub environment_id : Option String
  pub environment : Option EnvironmentScope
  pub target : Target
  pub allowed_jobs : List String
  pub protected_namespaces : List String
  pub scale_approval_threshold : ℕ

pub record PolicyEnv : Type 0 where
  pub jenkins_allowed_jobs : List String
  pub protected_namespaces : List String
  pub scale_approval_threshold : ℕ

abbrev count_fields : Fields → ℕ
count_fields end = 0
count_fields (field k v fs) = suc (count_fields fs)

-- `objectKeys(value).length`
abbrev count_keys : Option Fields → ℕ
count_keys none = 0
count_keys (some fs) = count_fields fs

abbrev kubernetes_action : OperationType → Option String
kubernetes_action kubernetes_deployment_restart = some "rollout_restart"
kubernetes_action kubernetes_manifest_apply = some "apply"
kubernetes_action kubernetes_manifest_dry_run = some "dry_run"
kubernetes_action _ = none

abbrev docker_action : OperationType → Option String
docker_action docker_container_start = some "start"
docker_action docker_container_stop = some "stop"
docker_action docker_container_restart = some "restart"
docker_action _ = none

abbrev default_namespace : OperationType → Option String
default_namespace kubernetes_manifest_apply = some "default"
default_namespace _ = none

abbrev kubernetes_target_of : OperationType → Fields → Target
kubernetes_target_of type input =
    let manifest = record_value (get_field "manifest" input) in
    let metadata = record_value (optional_field "metadata" manifest) in
    let spec = record_value (optional_field "spec" manifest) in
    kubernetes_target
      (or_else
        (or_else (string_value (get_field "namespace" input))
          (string_value (optional_field "namespace" metadata)))
        (default_namespace type))
      (or_else (string_value (get_field "name" input))
        (string_value (optional_field "name" metadata)))
      (or_else (string_value (get_field "action" input)) (kubernetes_action type))
      (string_value (optional_field "kind" manifest))
      (string_value (optional_field "apiVersion" manifest))
      (or_else (number_value (get_field "replicas" input))
        (number_value (optional_field "replicas" spec)))

unfoldable pub build_target : OperationProvider → OperationType → Fields → Target
build_target jenkins type input =
    jenkins_target (string_value (get_field "jobName" input))
      (count_keys (record_value (get_field "parameters" input)))
build_target kubernetes type input = kubernetes_target_of type input
build_target docker type input =
    docker_target (string_value (get_field "containerName" input))
      (or_else (string_value (get_field "action" input)) (docker_action type))
build_target _ type input = no_target

unfoldable pub build_operation_policy_input :
    PolicyEnv
    → (organization_id user_id : String) (role : Option String) → OperationProvider
    → OperationType
    → (project_id environment_id : Option String) → Option EnvironmentScope
    → Fields
    → OperationPolicyInput
unfolding build_target
build_operation_policy_input env org user role provider type project environment scope input =
    record {
      organization_id = org;
      user_id = user;
      role = role;
      provider = provider;
      operation_type = type;
      project_id = project;
      environment_id = environment;
      environment = scope;
      target = build_target provider type input;
      allowed_jobs = env.jenkins_allowed_jobs;
      protected_namespaces = env.protected_namespaces;
      scale_approval_threshold = env.scale_approval_threshold;
    }
