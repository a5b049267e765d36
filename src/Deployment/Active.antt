-- ===== src/Deployment/Active.antt =====
-- deployment.service.ts, `triggerDeployment`: the active deployments of an environment.
use auto_ops.Prelude.{
  ℕ, ◌+◌, ◌≤◌, ◌≡◌, ◌≢◌, refl, ap, subst, Bool, true, false, String, List, [], ◌∷◌, ◌==◌,
  if◌then◌else◌, any, update_where, count_where, count_of_none, arith, eq_iff, Bool-cases, inl, inr,
}
use auto_ops.Errors.{Thrown, plain}
use auto_ops.Exec.{◌>>=◌, ok, err}
use auto_ops.Exec.Triple.{outcome-cases}
use auto_ops.Deployment.{
  Yard, DeploymentRow, TriggerDeploymentInput, DeploymentJobData, is_active, is_active_in,
  has_deployment_id, check_trigger, store_trigger, trigger_deployment, hand_over, insert_deployment,
  enqueue_deployment_job, new_deployment, enqueue_failed_row, is_environment, job_of,
}

-- The number of active deployments of an environment.
abbrev pub active_count : (environment : String) → Yard → ℕ
active_count environment y = count_where (is_active_in environment) y.deployments

count-update :
    (q p : DeploymentRow → Bool) (f : DeploymentRow → DeploymentRow) (xs : List DeploymentRow)
    → ((r : DeploymentRow) → q (f r) ≡ false)
    → count_where q (update_where p f xs) ≤ count_where q xs
unfolding count_where update_where
count-update q p f [] off = omega arith
count-update q p f (x ∷ xs) off = elim (Bool-cases (p x)) [
  | inl e ↦ rw (e, off x) (omega (arith, count-update q p f xs off))
  | inr e ↦ rw e (omega (arith, count-update q p f xs off))
]

head-update :
    (q p : DeploymentRow → Bool) (f : DeploymentRow → DeploymentRow) (x : DeploymentRow)
    (xs : List DeploymentRow)
    → ((r : DeploymentRow) → q (f r) ≡ false)
    → p x ≡ true
    → count_where q (update_where p f (x ∷ xs)) ≤ count_where q xs
unfolding count_where update_where
head-update q p f x xs off e = rw (e, off x) (omega (arith, count-update q p f xs off))

failed-inactive :
    (environment : String) (r : DeploymentRow)
    → is_active_in environment (enqueue_failed_row r) ≡ false
unfolding is_active
failed-inactive environment r = ground arith

hand_over-open :
    (job : DeploymentJobData) (y : Yard)
    → y.queue_available ≡ true
    → ((hand_over job y).0 ≡ ok tt)
      × ((hand_over job y).1.deployments ≡ y.deployments)
      × ((hand_over job y).1.queue_available ≡ true)
unfolding hand_over enqueue_deployment_job ◌>>=◌
hand_over-open job y up = (rw up refl, rw up refl, rw up refl)

hand_over-down :
    (job : DeploymentJobData) (y : Yard)
    → y.queue_available ≡ false
    → ((hand_over job y).0 ≡ err (plain "Queue unavailable"))
      × ((hand_over job y).1.deployments
          ≡ update_where (has_deployment_id job.deployment_id) enqueue_failed_row y.deployments)
unfolding hand_over enqueue_deployment_job ◌>>=◌
hand_over-down job y down = (rw down refl, rw down refl)

-- Handing the job over makes no deployment active.
hand_over-count :
    (environment : String) (job : DeploymentJobData) (y : Yard)
    → active_count environment (hand_over job y).1 ≤ active_count environment y
hand_over-count environment job y = elim (Bool-cases y.queue_available) [
  | inl up ↦ let (_, same, _) = hand_over-open job y up in rw same (omega arith)
  | inr down ↦
      let (_, updated) = hand_over-down job y down in
      rw updated (
        count-update (is_active_in environment) (has_deployment_id job.deployment_id)
          enqueue_failed_row y.deployments (failed-inactive environment))
]

abbrev new_in : (environment other : String) → ℕ
new_in environment other = if environment == other then 1 else 0

insert-count :
    (id project environment user other : String) (input : TriggerDeploymentInput) (y : Yard)
    → active_count other (insert_deployment (new_deployment id project environment user input) y).1
      ≤ new_in environment other + active_count other y
unfolding insert_deployment count_where is_active
insert-count id project environment user other input y =
    elim (Bool-cases (any (has_deployment_id id) y.deployments)) [
      | inl e ↦ rw e (omega arith)
      | inr e ↦ rw e (ground arith)
    ]

store-count :
    (id project environment organization user other : String) (input : TriggerDeploymentInput)
    (y : Yard)
    → active_count other (store_trigger id project environment organization user input y).1
      ≤ new_in environment other + active_count other y
unfolding store_trigger ◌>>=◌
store-count id project environment organization user other input y =
    let row = new_deployment id project environment user input in
    let added = insert-count id project environment user other input y in
    elim (outcome-cases (insert_deployment row y)) [
      | inl q ↦
          let job = job_of id project environment organization user in
          let handed = hand_over-count other job q.1 in
          let added_here = rw q.2 at added in
          elim (outcome-cases (hand_over job q.1)) [
            | inl p ↦ let here = rw p.2 at handed in rw (q.2, p.2) (omega (arith, added_here, here))
            | inr p ↦ let here = rw p.2 at handed in rw (q.2, p.2) (omega (arith, added_here, here))
          ]
      | inr q ↦ let added_here = rw q.2 at added in rw q.2 added_here
    ]

pub check-ok :
    (project environment organization : String) (y v : Yard) (a : Unit {0})
    → check_trigger project environment organization y ≡ (ok a, v)
    → (any (is_active_in environment) y.deployments ≡ false) × (y ≡ v)
unfolding check_trigger ◌>>=◌
check-ok project environment organization y v a h =
    elim (Bool-cases
      (any (is_environment environment project organization y.projects) y.environments)) [
        | inl k ↦ elim (Bool-cases (any (is_active_in environment) y.deployments)) [
          | inl b ↦ let bad = rw (k, b) at h in absurd (ground (arith, bad))
          | inr b ↦ let ran = rw (k, b) at h in (b, ap (λ r. r.1) ran)
        ]
        | inr k ↦ let bad = rw k at h in absurd (ground (arith, bad))
      ]

check-err :
    (project environment organization : String) (y v : Yard) (e : Thrown)
    → check_trigger project environment organization y ≡ (err e, v)
    → y ≡ v
unfolding check_trigger ◌>>=◌
check-err project environment organization y v e h =
    elim (Bool-cases
      (any (is_environment environment project organization y.projects) y.environments)) [
        | inl k ↦ elim (Bool-cases (any (is_active_in environment) y.deployments)) [
          | inl b ↦ let ran = rw (k, b) at h in ap (λ r. r.1) ran
          | inr b ↦ let bad = rw (k, b) at h in absurd (ground (arith, bad))
        ]
        | inr k ↦ let ran = rw k at h in ap (λ r. r.1) ran
      ]

-- A request that runs without another in between leaves at most one active deployment in an
-- environment that had at most one, whichever environment it is about and however it ends.
pub trigger_deployment-active_count :
    (id project environment organization user other : String) (input : TriggerDeploymentInput)
    (y : Yard)
    → active_count other y ≤ 1
    → active_count other (trigger_deployment id project environment organization user input y).1 ≤ 1
unfolding trigger_deployment ◌>>=◌
trigger_deployment-active_count id project environment organization user other input y h =
    elim (outcome-cases (check_trigger project environment organization y)) [
      | inl q ↦
          let (idle, same) = check-ok project environment organization y q.1 q.0 q.2 in
          rw q.2 (
            subst
              (λ v.
                active_count other
                  (store_trigger id project environment organization user input v).1
                ≤ 1)
              same (bounded idle))
      | inr q ↦ rw q.2 (
          subst (λ v. active_count other v ≤ 1)
            (check-err project environment organization y q.1 q.0 q.2) h)
    ]
  where
    bounded :
        any (is_active_in environment) y.deployments ≡ false
        → active_count other (store_trigger id project environment organization user input y).1 ≤ 1
    bounded idle = elim (Bool-cases (environment == other)) [
      | inl e ↦
          let one : environment ≡ other = (eq_iff environment other).0 e in
          let none_active : active_count other y ≡ 0 =
            subst (λ o. active_count o y ≡ 0) one
              (count_of_none (is_active_in environment) y.deployments idle) in
          let counted =
            rw e at (store-count id project environment organization user other input y) in
          omega (arith, counted, none_active)
      | inr e ↦
          let counted =
            rw e at (store-count id project environment organization user other input y) in
          omega (arith, counted, h)
    ]

pub store-open :
    (id project environment organization user : String) (input : TriggerDeploymentInput) (y : Yard)
    → y.queue_available ≡ true
    → any (has_deployment_id id) y.deployments ≡ false
    → let done = store_trigger id project environment organization user input y in
      (done.1.deployments ≡ new_deployment id project environment user input ∷ y.deployments)
      × (done.1.queue_available ≡ true)
      × (done.1.projects ≡ y.projects)
      × (done.1.environments ≡ y.environments)
unfolding store_trigger insert_deployment hand_over enqueue_deployment_job ◌>>=◌
store-open id project environment organization user input y up fresh =
    rw (fresh, up) (refl, refl, refl, refl)

-- Two requests that have both passed their checks before either writes leave two active deployments in
-- the environment.
pub store_trigger-races :
    (id another project environment organization user other : String)
    (input : TriggerDeploymentInput) (y : Yard)
    → check_trigger project environment organization y ≡ (ok tt, y)
    → y.queue_available ≡ true
    → any (has_deployment_id id) y.deployments ≡ false
    → any (has_deployment_id another) y.deployments ≡ false
    → id ≢ another
    → let first = store_trigger id project environment organization user input y in
      let second = store_trigger another project environment organization other input first.1 in
      active_count environment second.1 ≡ 2
unfolding any count_where is_active
store_trigger-races id another project environment organization user other input y passed up fresh
      fresh_too apart =
    let (stored, still, _, _) =
      store-open id project environment organization user input y up fresh in
    let first = (store_trigger id project environment organization user input y).1 in
    let unlike : (id == another) ≡ false = ground (arith, eq_iff id another) in
    let fresh_yet : any (has_deployment_id another) first.deployments ≡ false =
      rw stored (rw unlike fresh_too) in
    let (both, _, _, _) =
      store-open another project environment organization other input first still fresh_yet in
    let (idle, _) = check-ok project environment organization y y tt passed in
    rw both (
      rw stored (
        ground (
          arith,
          eq_iff environment environment,
          count_of_none (is_active_in environment) y.deployments idle,
        )))

-- When the queue's server does not answer, a request that passes its checks throws, and no deployment
-- of its environment is active: a later request may be made.
pub trigger_deployment-down :
    (id project environment organization user : String) (input : TriggerDeploymentInput) (y : Yard)
    → check_trigger project environment organization y ≡ (ok tt, y)
    → y.queue_available ≡ false
    → any (has_deployment_id id) y.deployments ≡ false
    → let done = trigger_deployment id project environment organization user input y in
      (done.0 ≡ err (plain "Queue unavailable")) × (active_count environment done.1 ≡ 0)
unfolding trigger_deployment store_trigger insert_deployment hand_over enqueue_deployment_job ◌>>=◌
trigger_deployment-down id project environment organization user input y passed down fresh =
    let (idle, _) = check-ok project environment organization y y tt passed in
    let own : has_deployment_id id (new_deployment id project environment user input) ≡ true =
      (eq_iff id id).1 refl in
    (
      rw (passed, fresh, down) refl,
      rw (passed, fresh, down)
          (omega (
            arith,
            head-update (is_active_in environment) (has_deployment_id id) enqueue_failed_row
                (new_deployment id project environment user input) y.deployments
                (failed-inactive environment) own,
            count_of_none (is_active_in environment) y.deployments idle,
          )),
    )
