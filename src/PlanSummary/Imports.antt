-- ===== src/PlanSummary/Imports.antt =====
-- terraform-plan-summary.ts: the line of a plan that imports resources is not read.
use auto_ops.Prelude.{
  ℕ, ◌≡◌, refl, ap, ◌∙◌, Bool, true, false, ◌||◌, [], ◌∷◌, ◌++◌, nat_eq, codes, lower_code, arith,
  All, none, if◌then◌else◌,
}
use auto_ops.Prelude.Search.{starts_with, includes}
use auto_ops.Paging.{drop}
use auto_ops.Urn.{Text, map_codes, map_codes-append, drop_start}
use auto_ops.Guardrails.Reading.{is_digit}
use auto_ops.PlanSummary.{
  word, blanks, number, plan_parts, match_plan, find_plan, no_counts, counts_of,
  parse_terraform_plan_counts, summarize_terraform_plan_safety,
}
use auto_ops.PlanSummary.Matching.{
  IsNumeral, changed_parts, match_plan-number, match_plan-blank, lower-digits,
}
use auto_ops.PlanSummary.Laws.{no_match, find_plan-later, find_plan-append}

find_plan-none : (s : Text) → includes s (codes "plan:") ≡ false → find_plan s ≡ none
unfolding includes find_plan match_plan
find_plan-none [] h = refl
find_plan-none (c ∷ s) h =
    find_plan-later c s (no_match (c ∷ s) (ground (arith, h)))
    ∙ find_plan-none s (ground (arith, h))

-- Digits hold no beginning of the word.
includes-digits :
    (s rest : Text)
    → All (λ c. is_digit c ≡ true) s
    → includes (s ++ rest) (codes "plan:") ≡ includes rest (codes "plan:")
unfolding includes starts_with
includes-digits [] rest h = refl
includes-digits (c ∷ s) rest (e, h) =
    let other : nat_eq c b'p' ≡ false = ground (arith, e) in rw other (includes-digits s rest h)

-- The line, in small letters, does not match.
import_line :
    (imported rest : Text)
    → IsNumeral imported
    → match_plan plan_parts (codes "plan: " ++ (imported ++ (codes " to import, " ++ rest))) ≡ none
unfolding match_plan starts_with drop drop_start
import_line imported rest i =
    let behind : Text = codes " to import, " ++ rest in
    match_plan-blank (number ∷ blanks true ∷ word "to add," ∷ blanks false ∷ changed_parts) imported
      behind i
    ∙ match_plan-number (blanks true ∷ word "to add," ∷ blanks false ∷ changed_parts) imported
        behind i refl

find_plan-import :
    (imported rest : Text)
    → IsNumeral imported
    → includes rest (codes "plan:") ≡ false
    → find_plan (codes "plan: " ++ (imported ++ (codes " to import, " ++ rest))) ≡ none
unfolding includes starts_with
find_plan-import imported rest i new =
    find_plan-later b'p' _ (import_line imported rest i)
    ∙ find_plan-none _ (includes-digits imported (codes " to import, " ++ rest) i.digits ∙ new)

same_counts : (b : Bool) → (if b then no_counts else no_counts) ≡ no_counts
same_counts true = refl
same_counts false = refl

uncounted : (output : Text) → counts_of none output ≡ no_counts
unfolding counts_of
uncounted output = same_counts (
    includes output (codes "no changes.")
    || includes output (codes "your infrastructure matches the configuration"))

-- Where the line of a plan begins with what is imported, `Plan: ... to import, `, nothing is read from the
-- output: whatever the line goes on to say, destructions included, all counts are 0 and the plan may be
-- applied. No other part of the output holds `plan:` in any case.
pub summarize_terraform_plan_safety-misses :
    (limit : ℕ) (before imported rest : Text)
    → includes (map_codes lower_code before) (codes "plan:") ≡ false
    → IsNumeral imported
    → includes (map_codes lower_code rest) (codes "plan:") ≡ false
    → ((summarize_terraform_plan_safety limit
          (before ++ (codes "Plan: " ++ (imported ++ (codes " to import, " ++ rest))))).counts
        ≡ no_counts)
      × ((summarize_terraform_plan_safety limit (
            before
            ++ (codes "Plan: " ++ (imported ++ (codes " to import, " ++ rest))))).apply_eligible
          ≡ true)
unfolding summarize_terraform_plan_safety parse_terraform_plan_counts map_codes
summarize_terraform_plan_safety-misses limit before imported rest new i other =
    let behind : Text = codes " to import, " ++ rest in
    let line : Text = codes "Plan: " ++ (imported ++ behind) in
    let lowered =
      map_codes-append lower_code before line
      ∙ ap (λ r. map_codes lower_code before ++ (codes "plan: " ++ r))
          (map_codes-append lower_code imported behind
            ∙ ap (λ x. x ++ map_codes lower_code behind) (lower-digits imported i.digits)) in
    let found =
      ap find_plan lowered
      ∙ find_plan-append (map_codes lower_code before) _ new
      ∙ find_plan-import imported (map_codes lower_code rest) i other in
    let zeros = uncounted (map_codes lower_code (before ++ line)) in
    rw (found, zeros) ((refl, refl))
