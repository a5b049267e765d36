-- ===== src/Guardrails/Evaluation.antt =====
-- aws-guardrails.ts: `evaluateAwsGuardrails`.
use auto_ops.Prelude.{
  ℕ, ◌*◌, Bool, true, false, not, ◌&&◌, ◌||◌, String, Option, none, some, List, [], ◌∷◌, ◌++◌,
  if◌then◌else◌, ltb, nat_eq, codes, codes_eq, get_or, ◌<>◌,
}
use auto_ops.Prelude.Search.{includes_any}
use auto_ops.Urn.{Text, is_nil, is_space, strip, to_lower_case}
use auto_ops.CommandOutput.{join_lines}
use auto_ops.Guardrails.{
  AwsGuardrailReason, AwsGuardrailStatusValue, AwsGuardrailRiskLevelValue, AwsGuardrailConfig,
  AwsGuardrailPlanInput, AwsGuardrailEvaluation, BlastRadius, allowed_in, when, list_reasons,
}
use auto_ops.Guardrails.Reading.{
  count_matches, number_from_text, high_impact_resources, round_quotient,
  estimate_monthly_cost_delta, mask_account_id,
}

-- The text that is searched.
unfoldable pub plan_text : AwsGuardrailPlanInput → Text
unfolding to_lower_case join_lines
plan_text input =
    to_lower_case
      (get_or input.plan_output [] ++ b'\n' ∷ join_lines (get_or input.resource_changes []))

unfoldable pub is_production : AwsGuardrailPlanInput → Bool
unfolding strip to_lower_case
is_production input =
    let slug = to_lower_case (strip is_space input.environment_slug) in
    codes_eq slug (codes "production") || codes_eq slug (codes "prod")

unfoldable pub blast_radius_of : AwsGuardrailPlanInput → (text : Text) → BlastRadius
unfolding count_matches includes_any number_from_text high_impact_resources
blast_radius_of input text = record {
  add_count = input.add_count;
  change_count = input.change_count;
  destroy_count = input.destroy_count;
  replacement_count =
      count_matches text ("delete_before_replace" ∷ "\"replace\"" ∷ "must be replaced" ∷ []);
  public_load_balancer_detected =
      includes_any
        ("aws_lb" ∷ "load_balancer_type" ∷ "internet-facing" ∷ "public_load_balancer" ∷ []) text;
  iam_change_detected = includes_any ("aws_iam_" ∷ "iam_role" ∷ "iam_policy" ∷ []) text;
  security_group_change_detected = includes_any ("aws_security_group" ∷ "security_group" ∷ []) text;
  network_change_detected =
      includes_any
        ("aws_vpc" ∷ "aws_subnet" ∷ "aws_route" ∷ "aws_nat_gateway" ∷ "aws_internet_gateway" ∷ [])
        text;
  desired_count = number_from_text text ("desired_count" ∷ "desiredcount" ∷ []);
  fargate_cpu = number_from_text text ("cpu" ∷ []);
  fargate_memory_mb = number_from_text text ("memory" ∷ "memory_mb" ∷ "memorymb" ∷ []);
  unknown_high_impact_resources = high_impact_resources text;
}

unfoldable pub cost_delta_of : BlastRadius → (text : Text) → ℕ
unfolding estimate_monthly_cost_delta
cost_delta_of radius text =
    estimate_monthly_cost_delta radius.desired_count radius.fargate_cpu radius.fargate_memory_mb
      radius.public_load_balancer_detected radius.network_change_detected text

-- `found !== null && found > limit`
abbrev pub exceeds : Option ℕ → (limit : ℕ) → Bool
exceeds none limit = false
exceeds (some n) limit = ltb limit n

unfoldable pub blocked_reasons_of :
    AwsGuardrailPlanInput
    → AwsGuardrailConfig
    → BlastRadius
    → (cost_delta : ℕ) → List AwsGuardrailReason
unfolding list_reasons
blocked_reasons_of input config radius cost_delta =
    list_reasons input.account_id config.allowed_account_ids
      (record {
        code = "MISSING_ACCOUNT_ALLOWLIST";
        message = "AWS_ALLOWED_ACCOUNT_IDS is required before AWS mutations.";
      })
      (record {
        code = "MISSING_ACCOUNT_ID";
        message = "AWS account identity is required before AWS mutations.";
      })
      (record {
        code = "DISALLOWED_ACCOUNT";
        message = "AWS account is not in the configured allowlist.";
      })
    ++ (list_reasons input.region config.allowed_regions
          (record {
            code = "MISSING_REGION_ALLOWLIST";
            message = "AWS_ALLOWED_REGIONS is required before AWS mutations.";
          })
          (record {
            code = "MISSING_REGION";
            message = "AWS region is required before AWS mutations.";
          })
          (record {
            code = "DISALLOWED_REGION";
            message = "AWS region is not in the configured allowlist.";
          })
        ++ (when (ltb 0 input.destroy_count) "DESTROY_DETECTED"
              "Terraform plan includes destroy actions."
            ++ (when (ltb config.max_plan_add_count input.add_count) "ADD_COUNT_LIMIT"
                  "Terraform plan add count exceeds the configured maximum."
                ++ (when (ltb config.max_plan_change_count input.change_count) "CHANGE_COUNT_LIMIT"
                      "Terraform plan change count exceeds the configured maximum."
                    ++ (when
                          (radius.public_load_balancer_detected
                            && config.block_public_load_balancer_by_default
                            && not config.allow_public_load_balancer)
                          "PUBLIC_LOAD_BALANCER_BLOCKED"
                          "Public load balancer changes are denied by default."
                        ++ (when (exceeds radius.desired_count config.max_desired_count)
                              "DESIRED_COUNT_LIMIT"
                              "ECS desired count exceeds the configured maximum."
                            ++ (when (exceeds radius.fargate_cpu config.max_fargate_cpu)
                                  "FARGATE_CPU_LIMIT" "Fargate CPU exceeds the configured maximum."
                                ++ (when
                                      (exceeds radius.fargate_memory_mb
                                        config.max_fargate_memory_mb)
                                      "FARGATE_MEMORY_LIMIT"
                                      "Fargate memory exceeds the configured maximum."
                                    ++ when (ltb config.max_monthly_cost_delta cost_delta)
                                        "MONTHLY_COST_LIMIT"
                                        "Estimated monthly cost delta exceeds the configured maximum."))))))))

unfoldable pub high_impact_warnings : List String → List AwsGuardrailReason
high_impact_warnings [] = []
high_impact_warnings (resource ∷ rest) =
    record {
      code = "HIGH_IMPACT_RESOURCE";
      message = "High-impact resource detected: " <> resource <> ".";
    }
    ∷ high_impact_warnings rest

unfoldable pub warnings_of : BlastRadius → (production : Bool) → List AwsGuardrailReason
unfolding high_impact_warnings
warnings_of radius production =
    when (ltb 0 radius.replacement_count) "REPLACEMENT_DETECTED"
      "Terraform plan includes replacement actions."
    ++ (when radius.iam_change_detected "IAM_CHANGE_DETECTED" "IAM changes require careful review."
        ++ (when radius.security_group_change_detected "SECURITY_GROUP_CHANGE_DETECTED"
              "Security group changes affect network exposure."
            ++ (when radius.network_change_detected "NETWORK_CHANGE_DETECTED"
                  "Network changes affect blast radius."
                ++ (high_impact_warnings radius.unknown_high_impact_resources
                    ++ when production "PRODUCTION_ENVIRONMENT"
                        "Production environment increases deployment risk."))))

abbrev pub some_reason : List AwsGuardrailReason → Bool
some_reason [] = false
some_reason (r ∷ reasons) = true

unfoldable pub evaluate_aws_guardrails :
    (now : ℕ) → AwsGuardrailPlanInput → AwsGuardrailConfig → AwsGuardrailEvaluation
unfolding plan_text is_production blast_radius_of cost_delta_of blocked_reasons_of warnings_of
    allowed_in mask_account_id
evaluate_aws_guardrails now input config =
    let text = plan_text input in
    let radius = blast_radius_of input text in
    let delta = cost_delta_of radius text in
    let reasons = blocked_reasons_of input config radius delta in
    let warned = warnings_of radius (is_production input) in
    record {
      operation_id = input.operation_id;
      target_slug = input.target_slug;
      environment_slug = input.environment_slug;
      status =
          if some_reason reasons
          then AwsGuardrailStatusValue.blocked
          else if some_reason warned
          then AwsGuardrailStatusValue.warned
          else AwsGuardrailStatusValue.passed;
      risk_level =
          if some_reason reasons
          then AwsGuardrailRiskLevelValue.blocked_risk
          else if some_reason warned || ltb 0 input.change_count || is_production input
          then AwsGuardrailRiskLevelValue.high
          else if ltb 0 input.add_count
          then AwsGuardrailRiskLevelValue.medium
          else AwsGuardrailRiskLevelValue.low;
      account_allowed = allowed_in input.account_id config.allowed_account_ids;
      region_allowed = allowed_in input.region config.allowed_regions;
      account_id_masked = masked input.account_id;
      region = input.region;
      cost_estimate = record {
        estimated_monthly_min = round_quotient (delta * 8) 10;
        estimated_monthly_max = round_quotient (delta * 12) 10;
        estimated_monthly_delta = delta;
      };
      blast_radius = radius;
      blocked_reasons = reasons;
      warnings = warned;
      apply_eligible = not (some_reason reasons) && nat_eq input.destroy_count 0;
      evaluated_at = now;
    }
  where
    masked : Option Text → Option Text
    masked none = none
    masked (some s) = if is_nil s then none else some (mask_account_id s)
