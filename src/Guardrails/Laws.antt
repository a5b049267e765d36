-- ===== src/Guardrails/Laws.antt =====
-- aws-guardrails.ts: which plans may be applied.
use auto_ops.Prelude.{
  ℕ, ◌≤◌, ◌≡◌, ◌↔◌, ◌⊎◌, inl, inr, refl, Bool, true, false, not, ◌&&◌, String, Option, none, some,
  List, [], ◌∷◌, ◌++◌, if◌then◌else◌, any, arith, ltb, nat_eq, codes_eq, Bool-cases,
}
use auto_ops.Urn.{Text, is_nil}
use auto_ops.Guardrails.{
  AwsGuardrailReason, AwsGuardrailStatusValue, AwsGuardrailConfig, AwsGuardrailPlanInput,
  BlastRadius, is_in, allowed_in, when, list_reasons,
}
use auto_ops.Guardrails.Evaluation.{
  plan_text, blast_radius_of, cost_delta_of, exceeds, blocked_reasons_of, warnings_of,
  is_production, some_reason, evaluate_aws_guardrails,
}

abbrev pub In : Text → List Text → Type 0
In s [] = ⊥
In s (t ∷ list) = (s ≡ t) ⊎ In s list

codes_eq_iff : (s t : Text) → (codes_eq s t ≡ true) ↔ (s ≡ t)
codes_eq_iff [] [] = (λ _. refl, λ _. refl)
codes_eq_iff [] (b ∷ t) = (λ h. absurd (cc), λ h. absurd (cc))
codes_eq_iff (a ∷ s) [] = (λ h. absurd (cc), λ h. absurd (cc))
codes_eq_iff (a ∷ s) (b ∷ t) =
    let (there, back) = codes_eq_iff s t in
    (
      λ h.
          let heads : a ≡ b = ground (arith, h) in
          let tails : s ≡ t = there (ground (arith, h)) in rw (heads, tails) refl,
      λ h. let heads : a ≡ b = cc in let tails : s ≡ t = cc in ground (arith, heads, back tails),
    )

is_in_iff : (s : Text) (list : List Text) → (is_in s list ≡ true) ↔ In s list
unfolding is_in any
is_in_iff s [] = (λ h. absurd (cc), λ h. absurd h)
is_in_iff s (t ∷ list) =
    let (there, back) = is_in_iff s list in
    let (equal, same) = codes_eq_iff s t in
    (
      λ h. elim (Bool-cases (codes_eq s t)) [
        | inl e ↦ inl (equal e)
        | inr e ↦ inr (there (ground (arith, e, h)))
      ],
      λ h. elim h [ inl e ↦ rw (same e) refl | inr k ↦ ground (arith, back k) ],
    )

-- What was given is there and in the list.
abbrev pub IsListed : Option Text → List Text → Type 0
IsListed none list = ⊥
IsListed (some s) list = (is_nil s ≡ false) × In s list

list_reasons_iff :
    (given : Option Text) (list : List Text) (x y z : AwsGuardrailReason)
    → (some_reason (list_reasons given list x y z) ≡ false) ↔ IsListed given list
unfolding list_reasons allowed_in
list_reasons_iff none [] x y z = (λ h. absurd (cc), λ h. absurd h)
list_reasons_iff (some s) [] x y z = (λ h. absurd (cc), λ h. absurd (h.1))
list_reasons_iff none (t ∷ list) x y z = (λ h. absurd (cc), λ h. absurd h)
list_reasons_iff (some s) (t ∷ list) x y z =
    let (there, back) = is_in_iff s (t ∷ list) in
    elim (Bool-cases (is_nil s)) [
      | inl e ↦ rw e ((λ h. absurd (cc), λ h. absurd (let bad = h.0 in cc)))
      | inr e ↦ elim (Bool-cases (is_in s (t ∷ list))) [
        | inl f ↦ rw (e, f) ((λ h. (refl, there f), λ h. refl))
        | inr f ↦ rw (e, f) ((λ h. absurd (cc), λ h. absurd (let bad = back (h.1) in cc)))
      ]
    ]

-- A number that was found is at most the limit.
abbrev pub Within : Option ℕ → (limit : ℕ) → Type 0
Within none limit = Unit
Within (some n) limit = n ≤ limit

exceeds_iff : (found : Option ℕ) (limit : ℕ) → (exceeds found limit ≡ false) ↔ Within found limit
exceeds_iff none limit = (λ h. tt, λ h. refl)
exceeds_iff (some n) limit = (λ h. ground (arith, h), λ h. ground (arith, h))

append_iff :
    {P Q : Type 0} (xs ys : List AwsGuardrailReason)
    → (some_reason xs ≡ false) ↔ P
    → (some_reason ys ≡ false) ↔ Q
    → (some_reason (xs ++ ys) ≡ false) ↔ (P × Q)
append_iff [] ys (p, q) (r, t) = (λ h. (p refl, r h), λ h. t (h.1))
append_iff (x ∷ xs) ys (p, q) (r, t) = (λ h. absurd (cc), λ h. absurd (let bad = q (h.0) in cc))

when_iff :
    {P : Type 0} (test : Bool) (code message : String)
    → (test ≡ false) ↔ P
    → (some_reason (when test code message) ≡ false) ↔ P
when_iff true code message h = h
when_iff false code message h = h

-- The account and the region are listed, nothing is destroyed, and every limit is kept.
pub record MayApply (input : AwsGuardrailPlanInput) (config : AwsGuardrailConfig)
    (radius : BlastRadius) (cost_delta : ℕ) : Type 0 where
  pub account : IsListed input.account_id config.allowed_account_ids
  pub region : IsListed input.region config.allowed_regions
  pub destroys : input.destroy_count ≡ 0
  pub adds : input.add_count ≤ config.max_plan_add_count
  pub changes : input.change_count ≤ config.max_plan_change_count
  pub balancer :
      (radius.public_load_balancer_detected ≡ false)
      ⊎ (config.block_public_load_balancer_by_default ≡ false)
      ⊎ (config.allow_public_load_balancer ≡ true)
  pub desired : Within radius.desired_count config.max_desired_count
  pub cpu : Within radius.fargate_cpu config.max_fargate_cpu
  pub memory : Within radius.fargate_memory_mb config.max_fargate_memory_mb
  pub cost : cost_delta ≤ config.max_monthly_cost_delta

balancer_iff :
    (found block allow : Bool)
    → ((found && block && not allow) ≡ false) ↔ ((found ≡ false) ⊎ (block ≡ false) ⊎ (allow ≡ true))
balancer_iff false block allow = (λ h. inl refl, λ h. refl)
balancer_iff true false allow = (λ h. inr (inl refl), λ h. refl)
balancer_iff true true true = (λ h. inr (inr refl), λ h. refl)
balancer_iff true true false = (
  λ h. absurd (cc),
  λ h. elim h [
    | inl e ↦ absurd (cc)
    | inr k ↦ elim k [ inl e ↦ absurd (cc) | inr e ↦ absurd (cc) ]
  ],
)

limit_iff : (n limit : ℕ) → (ltb limit n ≡ false) ↔ (n ≤ limit)
limit_iff n limit = (λ h. ground (arith, h), λ h. ground (arith, h))

zero_iff : (n : ℕ) → (ltb 0 n ≡ false) ↔ (n ≡ 0)
zero_iff n = (λ h. ground (arith, h), λ h. ground (arith, h))

blocked_reasons_of_iff :
    (input : AwsGuardrailPlanInput) (config : AwsGuardrailConfig) (radius : BlastRadius)
    (cost_delta : ℕ)
    → (some_reason (blocked_reasons_of input config radius cost_delta) ≡ false)
      ↔ MayApply input config radius cost_delta
unfolding blocked_reasons_of
blocked_reasons_of_iff input config radius cost_delta =
    let (there, back) =
      append_iff _ _ (list_reasons_iff input.account_id config.allowed_account_ids _ _ _) (
        append_iff _ _ (list_reasons_iff input.region config.allowed_regions _ _ _) (
          append_iff _ _ (when_iff _ _ _ (zero_iff input.destroy_count)) (
            append_iff _ _ (when_iff _ _ _ (limit_iff input.add_count config.max_plan_add_count)) (
              append_iff _ _
                (when_iff _ _ _ (limit_iff input.change_count config.max_plan_change_count))
                (append_iff _ _
                  (when_iff _ _ _ (
                    balancer_iff radius.public_load_balancer_detected
                      config.block_public_load_balancer_by_default
                      config.allow_public_load_balancer))
                  (append_iff _ _
                    (when_iff _ _ _ (exceeds_iff radius.desired_count config.max_desired_count))
                    (append_iff _ _
                      (when_iff _ _ _ (exceeds_iff radius.fargate_cpu config.max_fargate_cpu))
                      (append_iff _ _
                        (when_iff _ _ _
                          (exceeds_iff radius.fargate_memory_mb config.max_fargate_memory_mb))
                        (when_iff _ _ _
                          (limit_iff cost_delta config.max_monthly_cost_delta)))))))))) in
    (
      λ h.
          let (a, (r, (d, (n, (c, (b, (t, (u, (m, p))))))))) = there h in
          record {
            account = a;
            region = r;
            destroys = d;
            adds = n;
            changes = c;
            balancer = b;
            desired = t;
            cpu = u;
            memory = m;
            cost = p;
          },
      λ k. back (
        k.account,
        (
          k.region,
          (
            k.destroys,
            (k.adds, (k.changes, (k.balancer, (k.desired, (k.cpu, (k.memory, k.cost)))))),
          ),
        ),
      ),
    )

-- The radius and the cost that the evaluation finds.
abbrev pub found_radius : AwsGuardrailPlanInput → BlastRadius
found_radius input = blast_radius_of input (plan_text input)

abbrev pub found_cost : AwsGuardrailPlanInput → ℕ
found_cost input = cost_delta_of (found_radius input) (plan_text input)

-- The answer by whether there is a reason, a warning and no destruction.
eligible_or_blocked :
    {P : Type 0} (reasoned warned nothing_destroyed : Bool)
    → (reasoned ≡ false) ↔ P
    → (P → nothing_destroyed ≡ true)
    → (((not reasoned && nothing_destroyed) ≡ true) ↔ P)
      × (((not reasoned && nothing_destroyed) ≡ false) ↔ (
          (if reasoned
            then AwsGuardrailStatusValue.blocked
            else if warned
            then AwsGuardrailStatusValue.warned
            else AwsGuardrailStatusValue.passed)
          ≡ AwsGuardrailStatusValue.blocked))
eligible_or_blocked true warned z (p, q) keeps =
    ((λ h. absurd (cc), λ k. absurd (let bad = q k in cc)), (λ h. refl, λ h. refl))
eligible_or_blocked false warned z (p, q) keeps =
    let holds = keeps (p refl) in
    rw holds ((λ h. p refl, λ k. refl), (λ h. absurd (cc), λ h. absurd (neither warned h)))
  where
    neither :
        (w : Bool)
        → (if w then AwsGuardrailStatusValue.warned else AwsGuardrailStatusValue.passed)
          ≡ AwsGuardrailStatusValue.blocked
        → ⊥
    neither true h = cc
    neither false h = cc

nat_eq_zero : (n : ℕ) → n ≡ 0 → nat_eq n 0 ≡ true
nat_eq_zero n h = ground (arith, h)

-- A plan may be applied exactly if the account and the region are given and listed, nothing is destroyed,
-- the numbers of additions and changes, the desired count, the processor, the memory and the cost are
-- within the limits as far as they were found, and no public load balancer was found that is denied. A
-- plan that may not be applied is exactly one with the status BLOCKED.
pub evaluate_aws_guardrails-eligible_iff :
    (now : ℕ) (input : AwsGuardrailPlanInput) (config : AwsGuardrailConfig)
    → (((evaluate_aws_guardrails now input config).apply_eligible ≡ true)
        ↔ MayApply input config (found_radius input) (found_cost input))
      × (((evaluate_aws_guardrails now input config).apply_eligible ≡ false)
          ↔ ((evaluate_aws_guardrails now input config).status ≡ AwsGuardrailStatusValue.blocked))
unfolding evaluate_aws_guardrails
evaluate_aws_guardrails-eligible_iff now input config =
    let radius = found_radius input in
    let cost = found_cost input in
    eligible_or_blocked (some_reason (blocked_reasons_of input config radius cost))
      (some_reason (warnings_of radius (is_production input))) (nat_eq input.destroy_count 0)
      (blocked_reasons_of_iff input config radius cost)
      (λ k. nat_eq_zero input.destroy_count k.destroys)
