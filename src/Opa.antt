-- ===== src/Opa.antt =====
-- apps/api/src/modules/policy: the external policy engine. opa.client.ts reads its answer,
-- operation-policy.middleware.ts enforces it by the mode, and operation-policy.service.ts builds what
-- it is asked. The HTTP call itself is an argument: what came back, or that nothing did.
pub mod Request
pub mod Laws
mod Tests
use auto_ops.Prelude.{
  ℕ, Bool, true, false, ◌||◌, String, Option, none, some, List, [], ◌∷◌, ◌==◌, if◌then◌else◌, any,
  get_or,
}
use auto_ops.Json.{
  Json, null, obj, Fields, get_field, record_value, string_value, is_true, to_string_array,
}

pub data OpaEnforcementMode : Type 0 where
  shadow enforce : OpaEnforcementMode

pub data PolicyRisk : Type 0 where
  low medium high critical : PolicyRisk

pub record OperationPolicyDecision : Type 0 where
  pub allow : Bool
  pub approval_required : Bool
  pub risk : PolicyRisk
  pub reasons : List String
  pub controls : List String

pub record EvaluatedOperationPolicy : Type 0 where
  pub mode : OpaEnforcementMode
  pub decision : OperationPolicyDecision
  pub enforced_decision : OperationPolicyDecision

-- `fetch` rejects, or it is aborted by the timeout; or a response comes, with `response.ok` and
-- its body, which may be no JSON.
pub data OpaResponse : Type 0 where
  no_response : OpaResponse
  response : (is_ok : Bool) (body : Option Json) → OpaResponse

-- `RISKS.has(value) ? value : 'critical'`
abbrev pub risk_of_text : String → PolicyRisk
risk_of_text s =
    if s == "low"
    then low
    else if s == "medium"
    then medium
    else if s == "high"
    then high
    else critical

abbrev pub normalize_risk : Option String → PolicyRisk
normalize_risk none = critical
normalize_risk (some s) = risk_of_text s

-- `value?.key`
abbrev pub optional_field : String → Option Fields → Option Json
optional_field k none = none
optional_field k (some fs) = get_field k fs

-- `normalizeDecision` on the fields of the value, if it is an object.
unfoldable pub normalize_decision : Option Fields → OperationPolicyDecision
normalize_decision value = record {
  allow = is_true (optional_field "allow" value);
  approval_required = is_true (optional_field "approvalRequired" value);
  risk = normalize_risk (string_value (optional_field "risk" value));
  reasons = to_string_array (optional_field "reasons" value);
  controls = to_string_array (optional_field "controls" value);
}

-- `data.result`, which throws on `null`; `none` is the throw.
abbrev pub result_of_body : Json → Option (Option Fields)
result_of_body null = none
result_of_body (obj fs) = some (record_value (get_field "result" fs))
result_of_body _ = some none

abbrev pub normalize_result : Option (Option Fields) → Option OperationPolicyDecision
normalize_result none = none
normalize_result (some value) = some (normalize_decision value)

-- `OpaClient.evaluateOperation`; `none` is a throw.
unfoldable pub evaluate_operation : OpaResponse → Option OperationPolicyDecision
evaluate_operation no_response = none
evaluate_operation (response false body) = none
evaluate_operation (response true none) = none
evaluate_operation (response true (some body)) = normalize_result (result_of_body body)

abbrev pub shadow_allow : OperationPolicyDecision
shadow_allow = record {
  allow = true;
  approval_required = false;
  risk = low;
  reasons = "OPA decision observed in shadow mode." ∷ [];
  controls = "shadow_mode_observation" ∷ [];
}

abbrev pub fail_closed : OperationPolicyDecision
fail_closed = record {
  allow = false;
  approval_required = false;
  risk = critical;
  reasons = "OPA policy evaluation was unavailable." ∷ [];
  controls = "fail_closed" ∷ [];
}

abbrev pub is_enforce : OpaEnforcementMode → Bool
is_enforce enforce = true
is_enforce shadow = false

-- `evaluateOperationPolicy` of the middleware.
unfoldable pub evaluate_operation_policy :
    OpaEnforcementMode → OpaResponse → EvaluatedOperationPolicy
unfolding evaluate_operation any
evaluate_operation_policy mode answer =
    let decision = get_or (evaluate_operation answer) fail_closed in
    record {
      mode = mode;
      decision = decision;
      enforced_decision =
          if any (λ c. c == "fail_closed") decision.controls || is_enforce mode
          then decision
          else shadow_allow;
    }
