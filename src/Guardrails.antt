-- ===== src/Guardrails.antt =====
-- packages/utils/src/aws-guardrails.ts: what a plan for AWS may change. A text is the list of its UTF-16
-- units; a change of a resource is the text that `JSON.stringify` makes of it. Amounts of money are
-- cents, computed exactly; the program computes them in floating point.
pub mod Reading
pub mod Evaluation
pub mod Laws
mod Tests
use auto_ops.Prelude.{
  ℕ, zero, suc, ◌+◌, ◌-◌, ◌*◌, ◌/◌, Bool, true, false, not, ◌&&◌, ◌||◌, String, Option, none, some,
  List, [], ◌∷◌, ◌++◌, if◌then◌else◌, any, leb, ltb, nat_eq, codes, codes_eq, length, get_or,
  or_else, filter_where, ◌<>◌,
}
use auto_ops.Prelude.Search.{starts_with, includes, includes_any}
use auto_ops.Paging.{drop}
use auto_ops.Urn.{Text, is_nil, is_space, drop_start, strip, to_lower_case}

pub record AwsGuardrailReason : Type 0 where
  pub code : String
  pub message : String

pub data AwsGuardrailStatusValue : Type 0 where
  passed : AwsGuardrailStatusValue
  warned : AwsGuardrailStatusValue
  blocked : AwsGuardrailStatusValue
  not_configured : AwsGuardrailStatusValue

pub data AwsGuardrailRiskLevelValue : Type 0 where
  low : AwsGuardrailRiskLevelValue
  medium : AwsGuardrailRiskLevelValue
  high : AwsGuardrailRiskLevelValue
  blocked_risk : AwsGuardrailRiskLevelValue

pub record AwsGuardrailConfig : Type 0 where
  pub cost_guardrails_enabled : Bool
  pub blast_radius_guardrails_enabled : Bool
  pub allowed_account_ids : List Text
  pub allowed_regions : List Text
  pub max_plan_add_count : ℕ
  pub max_plan_change_count : ℕ
  pub max_monthly_cost_delta : ℕ
  pub max_fargate_cpu : ℕ
  pub max_fargate_memory_mb : ℕ
  pub max_desired_count : ℕ
  pub block_public_load_balancer_by_default : Bool
  pub allow_public_load_balancer : Bool

pub record AwsGuardrailPlanInput : Type 0 where
  pub operation_id : Option String
  pub target_slug : Text
  pub environment_slug : Text
  pub account_id : Option Text
  pub region : Option Text
  pub add_count : ℕ
  pub change_count : ℕ
  pub destroy_count : ℕ
  pub plan_output : Option Text
  pub resource_changes : Option (List Text)

pub record CostEstimate : Type 0 where
  pub estimated_monthly_min : ℕ
  pub estimated_monthly_max : ℕ
  pub estimated_monthly_delta : ℕ

pub record BlastRadius : Type 0 where
  pub add_count : ℕ
  pub change_count : ℕ
  pub destroy_count : ℕ
  pub replacement_count : ℕ
  pub public_load_balancer_detected : Bool
  pub iam_change_detected : Bool
  pub security_group_change_detected : Bool
  pub network_change_detected : Bool
  pub desired_count : Option ℕ
  pub fargate_cpu : Option ℕ
  pub fargate_memory_mb : Option ℕ
  pub unknown_high_impact_resources : List String

pub record AwsGuardrailEvaluation : Type 0 where
  pub operation_id : Option String
  pub target_slug : Text
  pub environment_slug : Text
  pub status : AwsGuardrailStatusValue
  pub risk_level : AwsGuardrailRiskLevelValue
  pub account_allowed : Option Bool
  pub region_allowed : Option Bool
  pub account_id_masked : Option Text
  pub region : Option Text
  pub cost_estimate : CostEstimate
  pub blast_radius : BlastRadius
  pub blocked_reasons : List AwsGuardrailReason
  pub warnings : List AwsGuardrailReason
  pub apply_eligible : Bool
  pub evaluated_at : ℕ

-- `list.includes(text)`
unfoldable pub is_in : Text → List Text → Bool
unfolding any
is_in text list = any (codes_eq text) list

-- A nullable text that is neither null nor empty.
abbrev pub present : Option Text → Bool
present none = false
present (some s) = not (is_nil s)

-- `input && list.length > 0 ? list.includes(input) : null`
unfoldable pub allowed_in : Option Text → List Text → Option Bool
unfolding is_in
allowed_in none list = none
allowed_in (some s) [] = none
allowed_in (some s) (t ∷ list) = if is_nil s then none else some (is_in s (t ∷ list))

-- A push under a condition.
abbrev pub when : Bool → (code message : String) → List AwsGuardrailReason
when test code message = if test then record { code = code; message = message } ∷ [] else []

-- The reasons of an allow-list: it is empty, nothing was given, or it does not hold what was given.
unfoldable pub list_reasons :
    Option Text
    → List Text
    → (no_list no_value other : AwsGuardrailReason) → List AwsGuardrailReason
unfolding allowed_in is_in
list_reasons given [] no_list no_value other = no_list ∷ []
list_reasons given (t ∷ list) no_list no_value other =
    if not (present given)
    then no_value ∷ []
    else if get_or (allowed_in given (t ∷ list)) false
    then []
    else other ∷ []
