-- ===== src/Remediation.antt =====
-- apps/api/src/modules/incidents/remediation-rules.service.ts: `buildRemediationPreparationPlan`, the
-- operation that a recommendation prepares. The types are those of packages/types/src/incident.ts.
pub mod Laws
mod Tests
use auto_ops.Prelude.{
  Bool, true, false, String, Option, none, some, List, [], ◌∷◌, if◌then◌else◌, or_else, get_or,
  is_empty,
}
use auto_ops.Json.{Json, null, str, obj, Fields, end, field, get_field, trimmed_value}
use auto_ops.Operation.{OperationProvider, OperationType}
use auto_ops.Operation.{kubernetes, jenkins, docker}
use auto_ops.Operation.{
  kubernetes_deployment_restart, jenkins_build_trigger, docker_container_restart,
}

-- What a piece of evidence says; the plan reads nothing else of it.
pub record RemediationEvidence : Type 0 where
  pub source_id : String
  pub label : String
  pub details : Option Fields

pub data RecommendedProvider : Type 0 where
  of_provider : OperationProvider → RecommendedProvider
  auto_ops_provider policy git_ops : RecommendedProvider

pub data ActionType : Type 0 where
  of_type : OperationType → ActionType
  investigate review_policy review_git_ops : ActionType

pub record RemediationRecommendation : Type 0 where
  pub id : String
  pub incident_id : String
  pub provider : RecommendedProvider
  pub action_type : ActionType
  pub evidence : List RemediationEvidence
  pub blocked_reason : Option String

pub data RemediationPreparationPlan : Type 0 where
  can_prepare :
      (provider : OperationProvider) (operation_type : OperationType) (confirmation_token : String)
      (input : Fields)
      → RemediationPreparationPlan
  cannot_prepare : (blocked_reason : String) → RemediationPreparationPlan

-- `evidence.details?.[key]`, if it is a text that is not blank.
abbrev pub detail : RemediationEvidence → (key : String) → Option String
detail evidence key = in_fields evidence.details
  where
    in_fields : Option Fields → Option String
    in_fields none = none
    in_fields (some fields) = trimmed_value (get_field key fields)

unfoldable pub first_detail : RemediationEvidence → (keys : List String) → Option String
unfolding get_field
first_detail evidence [] = none
first_detail evidence (key ∷ keys) = or_else (detail evidence key) (first_detail evidence keys)

-- `firstEvidenceString`: the first piece that has one of the keys, in the order of the keys.
unfoldable pub first_evidence_string :
    List RemediationEvidence → (keys : List String) → Option String
unfolding first_detail
first_evidence_string [] keys = none
first_evidence_string (evidence ∷ rest) keys =
    or_else (first_detail evidence keys) (first_evidence_string rest keys)

-- `value ?? null` in a record.
abbrev pub nullable : Option String → Json
nullable none = null
nullable (some s) = str s

abbrev is_absent : Json → Bool
is_absent null = true
is_absent (str s) = is_empty s
is_absent _ = false

unfoldable pub compact_record : Fields → Fields
compact_record end = end
compact_record (field key value rest) =
    let others = compact_record rest in if is_absent value then others else field key value others

abbrev pub docker_input : RemediationRecommendation → (container_id : String) → Fields
docker_input r container_id = compact_record (
    field "action" (str "restart") (
      field "containerId" (str container_id) (
        field "containerName"
          (nullable (first_evidence_string r.evidence ("containerName" ∷ "name" ∷ [])))
          (field "image" (nullable (first_evidence_string r.evidence ("image" ∷ []))) (
            field "confirmationLabel" (str "RESTART") (
              field "preparedFromIncidentId" (str r.incident_id)
                (field "remediationRecommendationId" (str r.id) end)))))))

abbrev pub kubernetes_input : RemediationRecommendation → (namespace name : String) → Fields
kubernetes_input r namespace name = field "action" (str "rolloutRestart") (
    field "namespace" (str namespace) (
      field "name" (str name) (
        field "preparedFromIncidentId" (str r.incident_id)
          (field "remediationRecommendationId" (str r.id) end))))

abbrev pub jenkins_input : RemediationRecommendation → (job_name : String) → Fields
jenkins_input r job_name = field "jobName" (str job_name) (
    field "parameters" (obj end) (
      field "preparedFromIncidentId" (str r.incident_id)
        (field "remediationRecommendationId" (str r.id) end)))

abbrev pub plan_docker : RemediationRecommendation → Option String → RemediationPreparationPlan
plan_docker r none =
    cannot_prepare
      "Preparation is disabled until the incident evidence contains a verified Docker container identifier."
plan_docker r (some container_id) =
    can_prepare docker docker_container_restart "RESTART" (docker_input r container_id)

abbrev pub plan_kubernetes :
    RemediationRecommendation → (namespace name : Option String) → RemediationPreparationPlan
plan_kubernetes r (some namespace) (some name) =
    can_prepare kubernetes kubernetes_deployment_restart "ROLLOUT"
      (kubernetes_input r namespace name)
plan_kubernetes r _ _ =
    cannot_prepare
      "Preparation is disabled until the incident evidence contains both verified Kubernetes namespace and deployment target fields."

abbrev pub plan_jenkins : RemediationRecommendation → Option String → RemediationPreparationPlan
plan_jenkins r none =
    cannot_prepare
      "A Jenkins operation requires a verified allowlisted job name, which is not safely derivable from incident evidence alone."
plan_jenkins r (some job_name) =
    can_prepare jenkins jenkins_build_trigger "BUILD" (jenkins_input r job_name)

abbrev pub is_docker_restart : RecommendedProvider → ActionType → Bool
is_docker_restart (of_provider docker) (of_type docker_container_restart) = true
is_docker_restart _ _ = false

abbrev pub is_kubernetes_restart : RecommendedProvider → ActionType → Bool
is_kubernetes_restart (of_provider kubernetes) (of_type kubernetes_deployment_restart) = true
is_kubernetes_restart _ _ = false

abbrev pub is_jenkins_build : RecommendedProvider → ActionType → Bool
is_jenkins_build (of_provider jenkins) (of_type jenkins_build_trigger) = true
is_jenkins_build _ _ = false

-- `buildRemediationPreparationPlan`
unfoldable pub build_remediation_preparation_plan :
    RemediationRecommendation → RemediationPreparationPlan
unfolding first_evidence_string compact_record
build_remediation_preparation_plan r =
    if is_docker_restart r.provider r.action_type
    then plan_docker r (first_evidence_string r.evidence ("containerId" ∷ "id" ∷ []))
    else if is_kubernetes_restart r.provider r.action_type
    then plan_kubernetes r (first_evidence_string r.evidence ("namespace" ∷ []))
        (first_evidence_string r.evidence ("deploymentName" ∷ "workloadName" ∷ []))
    else if is_jenkins_build r.provider r.action_type
    then plan_jenkins r (first_evidence_string r.evidence ("jobName" ∷ "job" ∷ "fullName" ∷ []))
    else cannot_prepare
        (get_or r.blocked_reason "No governed operation is attached to this recommendation.")
