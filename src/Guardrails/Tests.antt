-- ===== src/Guardrails/Tests.antt =====
-- Plans for a small service.
use auto_ops.Prelude.{◌≡◌, refl, true, false, ◌↔◌, none, some, [], ◌∷◌, codes}
use auto_ops.Guardrails.{
  AwsGuardrailStatusValue, AwsGuardrailRiskLevelValue, AwsGuardrailConfig, AwsGuardrailPlanInput,
  AwsGuardrailEvaluation,
}
use auto_ops.Guardrails.Evaluation.{evaluate_aws_guardrails}
use auto_ops.Guardrails.Laws.{
  MayApply, found_radius, found_cost, evaluate_aws_guardrails-eligible_iff,
}

abbrev limits : AwsGuardrailConfig
limits = record {
  cost_guardrails_enabled = true;
  blast_radius_guardrails_enabled = true;
  allowed_account_ids = codes "123456789012" ∷ [];
  allowed_regions = codes "us-east-1" ∷ [];
  max_plan_add_count = 10;
  max_plan_change_count = 20;
  max_monthly_cost_delta = 10000;
  max_fargate_cpu = 1024;
  max_fargate_memory_mb = 2048;
  max_desired_count = 2;
  block_public_load_balancer_by_default = true;
  allow_public_load_balancer = false;
}

abbrev service : AwsGuardrailPlanInput
service = record {
  operation_id = none;
  target_slug = codes "api";
  environment_slug = codes "dev";
  account_id = some (codes "123456789012");
  region = some (codes "us-east-1");
  add_count = 1;
  change_count = 0;
  destroy_count = 0;
  plan_output = some (codes "+ Desired_Count = 1, cpu: \"256\"");
  resource_changes = none;
}

abbrev evaluated : AwsGuardrailEvaluation
evaluated = evaluate_aws_guardrails 7 service limits

passes :
    (evaluated.status ≡ AwsGuardrailStatusValue.passed)
    × (evaluated.risk_level ≡ AwsGuardrailRiskLevelValue.medium)
    × (evaluated.apply_eligible ≡ true)
    × (evaluated.account_id_masked ≡ some (codes "********9012"))
    × (evaluated.blast_radius.fargate_cpu ≡ some 256)
    × (evaluated.cost_estimate.estimated_monthly_delta ≡ 1059)
unfolding evaluate_aws_guardrails
passes = (refl, refl, refl, refl, refl, refl)

-- The two switches are read nowhere in the evaluation.
abbrev switched_off : AwsGuardrailConfig
switched_off = record limits {
  cost_guardrails_enabled = false;
  blast_radius_guardrails_enabled = false;
}

abbrev many_tasks : AwsGuardrailPlanInput
many_tasks = record service { plan_output = some (codes "desired_count = 3") }

blocks_when_off :
    (evaluate_aws_guardrails 7 many_tasks switched_off).blocked_reasons
    ≡ record {
      code = "DESIRED_COUNT_LIMIT";
      message = "ECS desired count exceeds the configured maximum.";
    }
      ∷ []
unfolding evaluate_aws_guardrails
blocks_when_off = refl

evaluate_aws_guardrails-eligible_iff_example :
    ((evaluated.apply_eligible ≡ true)
      ↔ MayApply service limits (found_radius service) (found_cost service))
    × ((evaluated.apply_eligible ≡ false) ↔ (evaluated.status ≡ AwsGuardrailStatusValue.blocked))
evaluate_aws_guardrails-eligible_iff_example = evaluate_aws_guardrails-eligible_iff 7 service limits
