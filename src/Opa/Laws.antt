-- ===== src/Opa/Laws.antt =====
-- opa.client.ts and operation-policy.middleware.ts: when an operation is allowed.
use auto_ops.Prelude.{get_or, ◌≡◌, ◌↔◌, refl, true, some, none, arith, Option}
use auto_ops.Json.{is_true, record_value, Json, obj, Fields, bool, get_field}
use auto_ops.Opa.{
  OpaEnforcementMode, OpaResponse, response, enforce, evaluate_operation, evaluate_operation_policy,
  normalize_decision, fail_closed,
}

-- Without a decision of the policy engine nothing is allowed, in either mode: the decision that is
-- enforced is the one that fails closed.
pub unavailable-denied :
    (mode : OpaEnforcementMode) (answer : OpaResponse)
    → evaluate_operation answer ≡ none
    → (evaluate_operation_policy mode answer).enforced_decision ≡ fail_closed
unfolding evaluate_operation_policy
unavailable-denied mode answer h = ground arith

true_literal : (v : Option Json) → is_true v ≡ true → v ≡ some (bool true)
true_literal v h = ground arith

result-allows :
    (r : Option Json)
    → (normalize_decision (record_value r)).allow ≡ true
    → (result : Fields) × (r ≡ some (obj result)) × (get_field "allow" result ≡ some (bool true))
unfolding normalize_decision
result-allows (some (obj fs)) h = (fs, refl, true_literal (get_field "allow" fs) h)
result-allows none h = cc
result-allows (some _) h = cc

answer-allows :
    (answer : OpaResponse)
    → (get_or (evaluate_operation answer) fail_closed).allow ≡ true
    → (body : Fields) × (result : Fields) × (answer ≡ response true (some (obj body)))
      × (get_field "result" body ≡ some (obj result))
      × (get_field "allow" result ≡ some (bool true))
unfolding evaluate_operation normalize_decision
answer-allows (response true (some (obj fs))) h =
    let (result, found, literal) = result-allows (get_field "result" fs) h in
    (fs, result, refl, found, literal)
answer-allows (response true (some _)) h = cc
answer-allows _ h = cc

-- In enforce mode an operation is allowed exactly when the answer's body is an object whose `result`
-- is an object whose `allow` is the literal true.
pub enforced-allow_iff :
    (answer : OpaResponse)
    → ((evaluate_operation_policy enforce answer).enforced_decision.allow ≡ true) ↔ (
        (body : Fields) × (result : Fields) × (answer ≡ response true (some (obj body)))
        × (get_field "result" body ≡ some (obj result))
        × (get_field "allow" result ≡ some (bool true)))
unfolding evaluate_operation_policy normalize_decision
enforced-allow_iff answer =
    (λ h. answer-allows answer (ground arith), λ (_, _, e, f, g). ground arith)
