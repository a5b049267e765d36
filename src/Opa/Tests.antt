-- ===== src/Opa/Tests.antt =====
-- Answers of the policy engine.
use auto_ops.Prelude.{◌≡◌, ◌↔◌, true, some}
use auto_ops.Json.{bool, obj, Fields, end, field, get_field}
use auto_ops.Opa.{OpaResponse, response, enforce, evaluate_operation_policy}
use auto_ops.Opa.Laws.{enforced-allow_iff}

abbrev allowing : OpaResponse
allowing = response true (some (obj (field "result" (obj (field "allow" (bool true) end)) end)))

enforced-allow_iff_example :
    ((evaluate_operation_policy enforce allowing).enforced_decision.allow ≡ true) ↔ (
      (body : Fields) × (result : Fields) × (allowing ≡ response true (some (obj body)))
      × (get_field "result" body ≡ some (obj result))
      × (get_field "allow" result ≡ some (bool true)))
enforced-allow_iff_example = enforced-allow_iff allowing
