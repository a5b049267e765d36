-- ===== src/PlanSummary/Laws.antt =====
-- terraform-plan-summary.ts: the counts that a plan prints are read, and decide whether it may be applied.
use auto_ops.Prelude.{
  ℕ, ◌≡◌, ◌↔◌, refl, ap, ◌∙◌, true, false, none, some, List, [], ◌∷◌, ◌++◌, nat_eq, codes,
  lower_code, arith,
}
use auto_ops.Prelude.Search.{starts_with, includes}
use auto_ops.Urn.{Text, is_nil, map_codes, map_codes-append}
use auto_ops.PlanSummary.{
  plan_parts, match_plan, find_plan, counts_of, parse_terraform_plan_counts,
  summarize_terraform_plan_safety,
}
use auto_ops.PlanSummary.Matching.{IsNumeral, value, lower-digits, line_of, match_plan-line}

-- Before the word that begins the line, what does not hold the word matches nowhere.
no_early :
    (s t : Text)
    → is_nil s ≡ false
    → starts_with s (codes "plan:") ≡ false
    → starts_with (s ++ (codes "plan:" ++ t)) (codes "plan:") ≡ false
unfolding starts_with
no_early [] t h e = absurd (cc)
no_early (a ∷ []) t h e = ground arith
no_early (a ∷ b ∷ []) t h e = ground arith
no_early (a ∷ b ∷ c ∷ []) t h e = ground arith
no_early (a ∷ b ∷ c ∷ d ∷ []) t h e = ground arith
no_early (a ∷ b ∷ c ∷ d ∷ f ∷ s) t h e = e

find_plan-here :
    (s : Text) (ns : List ℕ) → match_plan plan_parts s ≡ some ns → find_plan s ≡ some ns
unfolding find_plan
find_plan-here [] ns h = h
find_plan-here (c ∷ s) ns h = rw h refl

pub no_match : (s : Text) → starts_with s (codes "plan:") ≡ false → match_plan plan_parts s ≡ none
unfolding match_plan
no_match s h = rw h refl

pub find_plan-later :
    (c : ℕ) (s : Text) → match_plan plan_parts (c ∷ s) ≡ none → find_plan (c ∷ s) ≡ find_plan s
unfolding find_plan
find_plan-later c s h = rw h refl

pub find_plan-append :
    (before t : Text)
    → includes before (codes "plan:") ≡ false
    → find_plan (before ++ (codes "plan:" ++ t)) ≡ find_plan (codes "plan:" ++ t)
unfolding includes
find_plan-append [] t h = refl
find_plan-append (c ∷ before) t h =
    let early = no_early (c ∷ before) t refl (ground (arith, h)) in
    find_plan-later c (before ++ (codes "plan:" ++ t)) (no_match _ early)
    ∙ find_plan-append before t (ground (arith, h))

-- The line as Terraform prints it.
abbrev pub printed : (added changed destroyed after : Text) → Text
printed added changed destroyed after =
    codes "Plan: "
    ++ (added
        ++ (codes " to add, "
            ++ (changed
                ++ (codes " to change, " ++ (destroyed ++ (codes " to destroy." ++ after))))))

lower-printed :
    (added changed destroyed after : Text)
    → IsNumeral added
    → IsNumeral changed
    → IsNumeral destroyed
    → map_codes lower_code (printed added changed destroyed after)
      ≡ line_of added changed destroyed (map_codes lower_code after)
unfolding map_codes
lower-printed added changed destroyed after a c d =
    let last : Text = codes " to destroy." ++ after in
    let middle : Text = codes " to change, " ++ (destroyed ++ last) in
    let first : Text = codes " to add, " ++ (changed ++ middle) in
    ap (λ r. codes "plan: " ++ r)
      (map_codes-append lower_code added first
        ∙ ap (λ x. x ++ map_codes lower_code first) (lower-digits added a.digits)
        ∙ ap (λ r. added ++ (codes " to add, " ++ r))
            (map_codes-append lower_code changed middle
              ∙ ap (λ x. x ++ map_codes lower_code middle) (lower-digits changed c.digits)
              ∙ ap (λ r. changed ++ (codes " to change, " ++ r))
                  (map_codes-append lower_code destroyed last
                    ∙ ap (λ x. x ++ map_codes lower_code last) (lower-digits destroyed d.digits))))

eq_zero_iff : (n : ℕ) → (nat_eq n 0 ≡ true) ↔ (n ≡ 0)
eq_zero_iff n = (λ h. ground (arith, h), λ h. ground (arith, h))

-- Where an output holds the line `Plan: ... to add, ... to change, ... to destroy.`, and no `plan:` in any
-- case before it, the counts that are read are the numbers of the line; and the plan may be applied exactly
-- if the line says that nothing is destroyed.
pub summarize_terraform_plan_safety-reads :
    (limit : ℕ) (before added changed destroyed after : Text)
    → includes (map_codes lower_code before) (codes "plan:") ≡ false
    → IsNumeral added
    → IsNumeral changed
    → IsNumeral destroyed
    → ((summarize_terraform_plan_safety limit
          (before ++ printed added changed destroyed after)).counts
        ≡ record {
          add_count = value added;
          change_count = value changed;
          destroy_count = value destroyed;
        })
      × (((summarize_terraform_plan_safety limit
              (before ++ printed added changed destroyed after)).apply_eligible
            ≡ true)
          ↔ (value destroyed ≡ 0))
unfolding summarize_terraform_plan_safety parse_terraform_plan_counts counts_of
summarize_terraform_plan_safety-reads limit before added changed destroyed after new a c d =
    let lowered =
      map_codes-append lower_code before (printed added changed destroyed after)
      ∙ ap (λ r. map_codes lower_code before ++ r)
          (lower-printed added changed destroyed after a c d) in
    let found =
      ap find_plan lowered
      ∙ find_plan-append (map_codes lower_code before) _ new
      ∙ find_plan-here (line_of added changed destroyed (map_codes lower_code after)) _
          (match_plan-line added changed destroyed (map_codes lower_code after) a c d) in
    rw found ((refl, eq_zero_iff (value destroyed)))
