-- ===== src/Remediation/Laws.antt =====
-- remediation-rules.service.ts: what is prepared can be asked for, and can be executed.
use auto_ops.Prelude.{
  ◌≡◌, refl, false, String, Option, none, some, List, [], ◌∷◌, or_else, is_empty, trim, Bool-cases,
  inl, inr,
}
use auto_ops.Json.{Json, str, Fields, get_field, trimmed, trimmed_value}
use auto_ops.Operation.{OperationType}
use auto_ops.Operation.{
  kubernetes_deployment_restart, jenkins_build_trigger, docker_container_restart,
}
use auto_ops.Operation.Policy.{evaluate_operation_policy}
use auto_ops.Worker.Process.{Executor, executor_of}
use auto_ops.Remediation.{
  RemediationEvidence, RemediationRecommendation, RemediationPreparationPlan, can_prepare,
  cannot_prepare, detail, first_detail, first_evidence_string, plan_docker, plan_kubernetes,
  plan_jenkins, is_docker_restart, is_kubernetes_restart, is_jenkins_build, compact_record,
  build_remediation_preparation_plan,
}

-- A text that is not empty stands under the key, which is what the worker asks for.
abbrev pub HasText : (key : String) → Fields → Type 0
HasText key input = (s : String) × (get_field key input ≡ some (str s)) × (is_empty s ≡ false)

-- The keys that name what an operation is about.
abbrev pub HasTarget : OperationType → Fields → Type 0
HasTarget docker_container_restart input = HasText "containerId" input
HasTarget kubernetes_deployment_restart input = HasText "namespace" input × HasText "name" input
HasTarget jenkins_build_trigger input = HasText "jobName" input
HasTarget _ input = ⊥

-- The token is the one that the local policy asks for, the target is named, and a worker has an executor.
abbrev pub IsReady : (flag : Option String) → RemediationPreparationPlan → Type 0
IsReady flag (cannot_prepare reason) = Unit
IsReady flag (can_prepare provider type token input) =
    ((evaluate_operation_policy flag provider type input).confirmation_token_label ≡ some token)
    × HasTarget type input
    × ((e : Executor) × (executor_of provider type ≡ some e))

abbrev Nonempty : Option String → Type 0
Nonempty none = Unit
Nonempty (some s) = is_empty s ≡ false

trimmed-Nonempty : (s : String) → Nonempty (trimmed s)
trimmed-Nonempty s = elim (Bool-cases (is_empty (trim s))) [ inl e ↦ rw e tt | inr e ↦ rw e e ]

trimmed_value-Nonempty : (value : Option Json) → Nonempty (trimmed_value value)
trimmed_value-Nonempty (some (str s)) = trimmed-Nonempty s
trimmed_value-Nonempty none = tt
trimmed_value-Nonempty (some Json.null) = tt
trimmed_value-Nonempty (some (Json.bool b)) = tt
trimmed_value-Nonempty (some (Json.num n)) = tt
trimmed_value-Nonempty (some (Json.arr vs)) = tt
trimmed_value-Nonempty (some (Json.obj fs)) = tt

detail-Nonempty : (evidence : RemediationEvidence) (key : String) → Nonempty (detail evidence key)
detail-Nonempty evidence key = go evidence.details
  where
    go : (details : Option Fields) → Nonempty (detail (record evidence { details = details }) key)
    go none = tt
    go (some fields) = trimmed_value-Nonempty (get_field key fields)

or_else-Nonempty : (x y : Option String) → Nonempty x → Nonempty y → Nonempty (or_else x y)
or_else-Nonempty none y h k = k
or_else-Nonempty (some s) y h k = h

first_detail-Nonempty :
    (evidence : RemediationEvidence) (keys : List String) → Nonempty (first_detail evidence keys)
unfolding first_detail
first_detail-Nonempty evidence [] = tt
first_detail-Nonempty evidence (key ∷ keys) =
    or_else-Nonempty (detail evidence key) (first_detail evidence keys)
      (detail-Nonempty evidence key) (first_detail-Nonempty evidence keys)

first_evidence_string-Nonempty :
    (evidence : List RemediationEvidence) (keys : List String)
    → Nonempty (first_evidence_string evidence keys)
unfolding first_evidence_string
first_evidence_string-Nonempty [] keys = tt
first_evidence_string-Nonempty (e ∷ rest) keys =
    or_else-Nonempty (first_detail e keys) (first_evidence_string rest keys)
      (first_detail-Nonempty e keys) (first_evidence_string-Nonempty rest keys)

docker-IsReady :
    (flag : Option String) (r : RemediationRecommendation) (found : Option String)
    → Nonempty found
    → IsReady flag (plan_docker r found)
unfolding evaluate_operation_policy executor_of compact_record get_field
docker-IsReady flag r none h = tt
docker-IsReady flag r (some s) h = (refl, (s, rw h refl, h), (_, refl))

kubernetes-IsReady :
    (flag : Option String) (r : RemediationRecommendation) (namespace name : Option String)
    → Nonempty namespace
    → Nonempty name
    → IsReady flag (plan_kubernetes r namespace name)
unfolding evaluate_operation_policy executor_of get_field
kubernetes-IsReady flag r none name h k = tt
kubernetes-IsReady flag r (some s) none h k = tt
kubernetes-IsReady flag r (some s) (some t) h k = (refl, ((s, refl, h), (t, refl, k)), (_, refl))

jenkins-IsReady :
    (flag : Option String) (r : RemediationRecommendation) (found : Option String)
    → Nonempty found
    → IsReady flag (plan_jenkins r found)
unfolding evaluate_operation_policy executor_of get_field
jenkins-IsReady flag r none h = tt
jenkins-IsReady flag r (some s) h = (refl, (s, refl, h), (_, refl))

-- A recommendation prepares nothing, or an operation with the confirmation token that the local policy asks
-- for, with texts that are not empty under the keys that name its target, and for which a worker has an
-- executor.
pub build_remediation_preparation_plan-IsReady :
    (flag : Option String) (r : RemediationRecommendation)
    → IsReady flag (build_remediation_preparation_plan r)
unfolding build_remediation_preparation_plan
build_remediation_preparation_plan-IsReady flag r =
    elim (Bool-cases (is_docker_restart r.provider r.action_type)) [
      | inl e ↦ rw e (
          docker-IsReady flag r _
            (first_evidence_string-Nonempty r.evidence ("containerId" ∷ "id" ∷ [])))
      | inr e ↦ elim (Bool-cases (is_kubernetes_restart r.provider r.action_type)) [
        | inl f ↦
            rw (e, f)
              (kubernetes-IsReady flag r _ _
                (first_evidence_string-Nonempty r.evidence ("namespace" ∷ []))
                (first_evidence_string-Nonempty r.evidence
                  ("deploymentName" ∷ "workloadName" ∷ [])))
        | inr f ↦ elim (Bool-cases (is_jenkins_build r.provider r.action_type)) [
          | inl g ↦
              rw (e, f, g)
                (jenkins-IsReady flag r _
                  (first_evidence_string-Nonempty r.evidence ("jobName" ∷ "job" ∷ "fullName" ∷ [])))
          | inr g ↦ rw (e, f, g) tt
        ]
      ]
    ]
