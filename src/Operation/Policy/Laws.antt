-- ===== src/Operation/Policy/Laws.antt =====
-- operation-policy.service.ts: what the local policy decides, over all operations and inputs.
use auto_ops.Prelude.{ℕ, ◌<◌, ◌≡◌, ◌↔◌, ◌≢◌, true, false, String, Option, arith}
use auto_ops.Json.{Fields, set_field, num, integer}
use auto_ops.Json.FieldLaws.{get_field-set_field_self}
use auto_ops.Operation.{
  OperationProvider, OperationType, high, kubernetes, kubernetes_deployment_scale,
}
use auto_ops.Operation.Policy.{evaluate_operation_policy}

-- A decision of the local policy that needs no approval is not of high risk, and asks for a token.
pub evaluate_operation_policy-unapproved :
    (flag : Option String) (provider : OperationProvider) (type : OperationType) (input : Fields)
    → (evaluate_operation_policy flag provider type input).approval_required ≡ false
    → ((evaluate_operation_policy flag provider type input).risk_level ≢ high)
      × ((evaluate_operation_policy flag provider type input).confirmation_required ≡ true)
unfolding evaluate_operation_policy
evaluate_operation_policy-unapproved flag p t input h = ground arith

-- Scaling a deployment to a whole number of replicas needs an approval exactly above two.
pub scale_needs_approval :
    (flag : Option String) (input : Fields) (n : ℕ)
    → ((evaluate_operation_policy flag kubernetes kubernetes_deployment_scale
          (set_field "replicas" (num (integer n)) input)).approval_required
        ≡ true)
      ↔ (2 < n)
unfolding evaluate_operation_policy
scale_needs_approval flag input n = rw (get_field-set_field_self) (ground arith)
