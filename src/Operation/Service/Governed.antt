-- ===== src/Operation/Service/Governed.antt =====
-- operation.service.ts, `createQueuedOperation`, against the invariant of the table of operations.
use auto_ops.Prelude.{List, ℕ, ◌≡◌, Bool, ◌||◌, String, Option, none, some, arith}
use auto_ops.Json.{get_field}
use auto_ops.Json.FieldLaws.{get_field-set_field_self}
use auto_ops.Exec.Triple.{
  Keeps, Keeps-bind, Keeps-modify, Keeps-throw, Keeps-pure, Keeps-if, Keeps-gets, Keeps-require,
}
use auto_ops.Opa.{OpaResponse, EvaluatedOperationPolicy}
use auto_ops.Opa.Request.{OperationPolicyInput, EnvironmentScope}
use auto_ops.Operation.Policy.{OperationPolicyDecision}
use auto_ops.Operation.Records.{input_with_policy}
use auto_ops.Operation.Scope.{scope-Keeps}
use auto_ops.Operation.World.{OperationRow}
use auto_ops.Operation.Service.{
  ServiceEnv, CreateOperationInput, AuditRequestContext, new_row, deny_request, store_request,
  decide_request, create_unless, create_queued_operation,
}
use auto_ops.Operation.Governed.{
  requires_approval, IsGoverned, Grows, enqueue-Keeps, insert_operation-Keeps,
}

requires_approval-new_row :
    (now : ℕ) (id : String) (approval : Bool) (policy : OperationPolicyDecision)
    (input : CreateOperationInput)
    → requires_approval (new_row now id approval policy input) ≡ approval
unfolding input_with_policy get_field
requires_approval-new_row now id approval policy input = rw (get_field-set_field_self)

new_row-IsGoverned :
    (now : ℕ) (id : String) (approval : Bool) (policy : OperationPolicyDecision)
    (input : CreateOperationInput)
    → IsGoverned (new_row now id approval policy input)
new_row-IsGoverned now id approval policy input =
    ground (arith, requires_approval-new_row now id approval policy input)

module _ (T : List OperationRow → Type 0) (grow : Grows T) where
  deny-Keeps :
      (input : CreateOperationInput) (context : AuditRequestContext)
      (evaluation : EvaluatedOperationPolicy)
      → Keeps (λ w. T w.operations) (deny_request input context evaluation)
  unfolding deny_request
  deny-Keeps input context evaluation = Keeps-bind (Keeps-modify _ (λ w h. h)) (λ _. Keeps-throw _)

  store-Keeps :
      (now : ℕ) (id : String) (input : CreateOperationInput) (context : AuditRequestContext)
      (policy : OperationPolicyDecision) (evaluation : EvaluatedOperationPolicy)
      → Keeps (λ w. T w.operations) (store_request now id input context policy evaluation)
  unfolding store_request
  store-Keeps now id input context policy evaluation =
      let approval = policy.approval_required || evaluation.enforced_decision.approval_required in
      Keeps-bind (insert_operation-Keeps T grow _ (new_row-IsGoverned now id approval policy input))
        λ _. Keeps-bind (Keeps-modify _ (λ w h. h)) λ _. Keeps-bind (Keeps-modify _ (λ w h. h)) λ _.
          Keeps-bind (Keeps-if approval (Keeps-pure tt) (enqueue-Keeps T _))
            λ _. Keeps-bind (Keeps-modify _ (λ w h. h)) λ _. Keeps-pure _

  decide-Keeps :
      (env : ServiceEnv) (now : ℕ) (id : String) (ask : OperationPolicyInput → OpaResponse)
      (input : CreateOperationInput) (context : AuditRequestContext)
      (scope : Option EnvironmentScope)
      → Keeps (λ w. T w.operations) (decide_request env now id ask input context scope)
  unfolding decide_request
  decide-Keeps env now id ask input context scope =
      Keeps-bind (Keeps-require _ _)
        λ _. Keeps-if _ (store-Keeps now id input context _ _) (deny-Keeps input context _)

  found_or_decide :
      (env : ServiceEnv) (now : ℕ) (id : String) (ask : OperationPolicyInput → OpaResponse)
      (input : CreateOperationInput) (context : AuditRequestContext)
      (scope : Option EnvironmentScope) (existing : Option OperationRow)
      → Keeps (λ w. T w.operations) (create_unless env now id ask input context scope existing)
  unfolding create_unless
  found_or_decide env now id ask input context scope none =
      decide-Keeps env now id ask input context scope
  found_or_decide env now id ask input context scope (some row) = Keeps-pure row

  -- Whatever is asked for, whoever asks and whatever the policy engine answers.
  pub create_queued_operation-Keeps :
      (env : ServiceEnv) (now : ℕ) (id : String) (ask : OperationPolicyInput → OpaResponse)
      (input : CreateOperationInput) (context : AuditRequestContext)
      → Keeps (λ w. T w.operations) (create_queued_operation env now id ask input context)
  unfolding create_queued_operation
  create_queued_operation-Keeps env now id ask input context = Keeps-bind (Keeps-gets _) λ _.
      Keeps-bind (Keeps-require _ _) λ _. Keeps-bind (Keeps-require _ _) λ _.
        Keeps-bind (scope-Keeps (λ w. T w.operations) _ _ _) λ scope.
          Keeps-bind (Keeps-gets _)
            λ existing. found_or_decide env now id ask input context scope existing
