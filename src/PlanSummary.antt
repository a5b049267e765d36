-- ===== src/PlanSummary.antt =====
-- packages/utils/src/terraform-plan-summary.ts: what the last line of a plan says, and whether the plan may
-- be applied.
pub mod Matching
pub mod Laws
pub mod Imports
mod Tests
use auto_ops.Prelude.{
  ℕ, Bool, true, false, not, ◌&&◌, ◌||◌, String, Option, none, some, List, [], ◌∷◌, if◌then◌else◌,
  ltb, nat_eq, codes, lower_code, length, or_else,
}
use auto_ops.Prelude.Search.{starts_with, includes}
use auto_ops.Paging.{drop}
use auto_ops.Urn.{Text, is_space, drop_start, map_codes}
use auto_ops.CommandOutput.{summarize_command_output}
use auto_ops.Guardrails.Reading.{is_digit, head_passes, leading_number}

pub record TerraformPlanCounts : Type 0 where
  pub add_count : ℕ
  pub change_count : ℕ
  pub destroy_count : ℕ

pub data RiskLevel : Type 0 where
  low : RiskLevel
  high : RiskLevel

pub record TerraformPlanSafetySummary : Type 0 where
  pub counts : TerraformPlanCounts
  pub risk_level : RiskLevel
  pub apply_eligible : Bool
  pub blocked_reasons : List String
  pub safe_output_summary : Text

-- A part of the regular expression: a literal, `\s*` or `\s+`, or `(\d+)`.
pub data Part : Type 0 where
  word : String → Part
  blanks : (needed : Bool) → Part
  number : Part

abbrev pub plan_parts : List Part
plan_parts =
    word "plan:"
    ∷ blanks false
    ∷ number
    ∷ blanks true
    ∷ word "to add,"
    ∷ blanks false
    ∷ number
    ∷ blanks true
    ∷ word "to change,"
    ∷ blanks false
    ∷ number
    ∷ blanks true
    ∷ word "to destroy."
    ∷ []

abbrev pub with_number : ℕ → Option (List ℕ) → Option (List ℕ)
with_number n none = none
with_number n (some ns) = some (n ∷ ns)

-- The numbers of a match at the start of a text in small letters. No part can begin with what the part
-- before it repeats, so that a match never has to give back what was repeated.
unfoldable pub match_plan : List Part → Text → Option (List ℕ)
unfolding starts_with drop drop_start leading_number
match_plan [] s = some []
match_plan (word w ∷ parts) s =
    let rest = match_plan parts (drop (length (codes w)) s) in
    if starts_with s (codes w) then rest else none
match_plan (blanks needed ∷ parts) s =
    let rest = match_plan parts (drop_start is_space s) in
    if needed && not (head_passes is_space s) then none else rest
match_plan (number ∷ parts) s =
    let rest = match_plan parts (drop_start is_digit s) in
    if head_passes is_digit s then with_number (leading_number 0 s) rest else none

-- `output.match(...)`: the first match.
unfoldable pub find_plan : Text → Option (List ℕ)
unfolding match_plan
find_plan [] = match_plan plan_parts []
find_plan (c ∷ s) = or_else (match_plan plan_parts (c ∷ s)) (find_plan s)

abbrev pub no_counts : TerraformPlanCounts
no_counts = record { add_count = 0; change_count = 0; destroy_count = 0 }

unfoldable pub counts_of : Option (List ℕ) → (output : Text) → TerraformPlanCounts
unfolding includes
counts_of (some (added ∷ changed ∷ destroyed ∷ [])) output = record {
  add_count = added;
  change_count = changed;
  destroy_count = destroyed;
}
counts_of found output =
    if includes output (codes "no changes.")
      || includes output (codes "your infrastructure matches the configuration")
    then no_counts
    else no_counts

-- `parseTerraformPlanCounts`: the expressions ignore case.
unfoldable pub parse_terraform_plan_counts : (output : Text) → TerraformPlanCounts
unfolding counts_of find_plan map_codes
parse_terraform_plan_counts output =
    let lowered = map_codes lower_code output in counts_of (find_plan lowered) lowered

-- `summarizeTerraformPlanSafety`
unfoldable pub summarize_terraform_plan_safety :
    (output_limit : ℕ) → (output : Text) → TerraformPlanSafetySummary
unfolding parse_terraform_plan_counts summarize_command_output
summarize_terraform_plan_safety output_limit output =
    let counts = parse_terraform_plan_counts output in
    record {
      counts = counts;
      risk_level = if ltb 0 counts.destroy_count then RiskLevel.high else RiskLevel.low;
      apply_eligible = nat_eq counts.destroy_count 0;
      blocked_reasons =
          if ltb 0 counts.destroy_count
          then "Terraform plan includes destroy actions. Apply eligibility is blocked." ∷ []
          else [];
      safe_output_summary = summarize_command_output output output_limit;
    }
