-- ===== src/PlanSummary/Tests.antt =====
-- The last lines of a few plans.
use auto_ops.Prelude.{◌≡◌, ◌↔◌, refl, true, ◌++◌, codes}
use auto_ops.Urn.{Text}
use auto_ops.PlanSummary.{no_counts, parse_terraform_plan_counts, summarize_terraform_plan_safety}
use auto_ops.PlanSummary.Matching.{value}
use auto_ops.PlanSummary.Laws.{printed, summarize_terraform_plan_safety-reads}
use auto_ops.PlanSummary.Imports.{summarize_terraform_plan_safety-misses}

reads_any_case :
    parse_terraform_plan_counts (codes "ok\nPLAN:12 to add,3  to change, 40 to destroy.\n")
    ≡ record { add_count = 12; change_count = 3; destroy_count = 40 }
unfolding parse_terraform_plan_counts
reads_any_case = refl

no_changes : parse_terraform_plan_counts (codes "No changes.") ≡ no_counts
unfolding parse_terraform_plan_counts
no_changes = refl

abbrev refreshed : Text
refreshed = codes "Refreshing state...\n"

abbrev notes : Text
notes = codes "\nSaved to autoops.tfplan"

summarize_terraform_plan_safety-reads_example :
    ((summarize_terraform_plan_safety 8000
        (refreshed ++ printed (codes "2") (codes "0") (codes "13") notes)).counts
      ≡ record { add_count = 2; change_count = 0; destroy_count = 13 })
    × (((summarize_terraform_plan_safety 8000
            (refreshed ++ printed (codes "2") (codes "0") (codes "13") notes)).apply_eligible
          ≡ true)
        ↔ (value (codes "13") ≡ 0))
unfolding summarize_terraform_plan_safety
summarize_terraform_plan_safety-reads_example =
    summarize_terraform_plan_safety-reads 8000 refreshed (codes "2") (codes "0") (codes "13") notes
      refl (record { present = refl; digits = (refl, tt) })
      (record { present = refl; digits = (refl, tt) })
      (record { present = refl; digits = (refl, (refl, tt)) })

summarize_terraform_plan_safety-misses_example :
    ((summarize_terraform_plan_safety 8000 (
        refreshed
        ++ (codes "Plan: "
            ++ (codes "1"
                ++ (codes " to import, " ++ codes "0 to add, 0 to change, 3 to destroy."))))).counts
      ≡ no_counts)
    × ((summarize_terraform_plan_safety 8000 (
          refreshed
          ++ (codes "Plan: "
              ++ (codes "1"
                  ++ (codes " to import, "
                      ++ codes "0 to add, 0 to change, 3 to destroy."))))).apply_eligible
        ≡ true)
unfolding summarize_terraform_plan_safety
summarize_terraform_plan_safety-misses_example =
    summarize_terraform_plan_safety-misses 8000 refreshed (codes "1")
      (codes "0 to add, 0 to change, 3 to destroy.") refl
      (record { present = refl; digits = (refl, tt) }) refl
