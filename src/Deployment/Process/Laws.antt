-- ===== src/Deployment/Process/Laws.antt =====
-- deployments.queue.ts, `processDeployment`: how a job ends, and what a repeated job does.
use auto_ops.Prelude.{
  ℕ, ◌+◌, ◌≡◌, refl, ap, Bool, true, false, String, Option, none, some, List, [], ◌∷◌, any,
  find_first, update_where, arith, found_by, find_first_passes, any_of_found, and-eq-true, length,
}
use auto_ops.Errors.{Thrown}
use auto_ops.Exec.{Result, ok, err, Exec, ◌>>=◌}
use auto_ops.Deployment.{
  Yard, DeploymentRow, DeploymentStatus, DeploymentJobData, has_deployment_id,
}
use auto_ops.Deployment.Simulation.{update_progress, run_phases, run_simulation_deployment}
use auto_ops.Deployment.Process.{
  look_up, claim, claim_in, process_deployment, process_status, is_deployment, is_claimable,
  is_waiting, start_row, succeed_row, fail_row, message_of, update_deployment, store_outcome,
  started_in,
}

-- The first error among these reports.
abbrev first_error : (ℕ → Option Thrown) → List ℕ → Option Thrown
first_error broken [] = none
first_error broken (n ∷ ns) = elim (broken n) [ none ↦ first_error broken ns | some e ↦ some e ]

-- The reports of a simulation, in order.
abbrev pub reports : List ℕ
reports = 10 ∷ 20 ∷ 40 ∷ 60 ∷ 80 ∷ 95 ∷ 100 ∷ []

-- What the simulation throws, if it does.
abbrev pub simulation_error : (ℕ → Option Thrown) → Option Thrown
simulation_error broken = first_error broken reports

abbrev pub to_result : Option Thrown → Result (Unit {0})
to_result none = ok tt
to_result (some e) = err e

-- A simulation ends with the first error of its reports, and leaves the tables but the events alone.
pub simulation_lem :
    (broken : ℕ → Option Thrown) (deployment : String) (y : Yard)
    → let done = run_simulation_deployment broken deployment y in
      (done.0 ≡ to_result (simulation_error broken))
      × (done.1.deployments ≡ y.deployments)
      × (done.1.projects ≡ y.projects)
      × (done.1.environments ≡ y.environments)
unfolding run_simulation_deployment run_phases update_progress ◌>>=◌
simulation_lem broken deployment y = ground arith

-- The row of the job's deployment.
abbrev pub job_row : DeploymentJobData → Yard → Option DeploymentRow
job_row job y =
    find_first (is_deployment job.deployment_id job.organization_id y.projects) y.deployments

-- How the outcome is stored in a row.
abbrev pub outcome_row : (started completed : ℕ) → Option Thrown → DeploymentRow → DeploymentRow
outcome_row started completed none = succeed_row started completed
outcome_row started completed (some e) = fail_row started completed (message_of e)

-- How a job ended whose simulation throws that error, or none.
abbrev pub Settled :
    (started completed : ℕ)
    → Option Thrown
    → DeploymentJobData
    → DeploymentRow
    → Result (Unit {0}) × Yard
    → Type 0
Settled started completed o job r (result, y) =
    (result ≡ to_result o)
    × (job_row job y ≡ some (outcome_row started completed o (start_row started r)))

outcome_row-id :
    (started completed : ℕ) (o : Option Thrown) (r : DeploymentRow)
    → ((outcome_row started completed o r).id ≡ r.id)
      × ((outcome_row started completed o r).project_id ≡ r.project_id)
outcome_row-id started completed none r = (refl, refl)
outcome_row-id started completed (some e) r = (refl, refl)

module _ (started completed : ℕ) (broken : ℕ → Option Thrown) (job : DeploymentJobData) where
  abbrev own : Yard → DeploymentRow → Bool
  own y = is_deployment job.deployment_id job.organization_id y.projects

  -- The update by the job's identifier reaches the row that the job's look-up finds.
  stored_by :
      (v : Yard) (r : DeploymentRow) (f : DeploymentRow → DeploymentRow)
      → ((x : DeploymentRow) → (f x).id ≡ x.id)
      → ((x : DeploymentRow) → (f x).project_id ≡ x.project_id)
      → job_row job v ≡ some r
      → (any (has_deployment_id job.deployment_id) v.deployments ≡ true)
        × (find_first (own v) (update_where (has_deployment_id job.deployment_id) f v.deployments)
            ≡ some (f r))
  stored_by v r f same same_project found =
      let named = (and-eq-true _ _ (find_first_passes (own v) v.deployments found)).0 in
      (
        any_of_found (own v) (has_deployment_id job.deployment_id) v.deployments found named,
        found_by (own v) (has_deployment_id job.deployment_id) f v.deployments
            (λ x. rw (same x, same_project x) refl) found named,
      )

  -- What a run leaves whose simulation ended so, where the row is there.
  pub outcome_lem :
      (o : Option Thrown) (simulation : Exec Yard (Unit {0})) (y v : Yard)
      → simulation y ≡ (to_result o, v)
      → any (has_deployment_id job.deployment_id) v.deployments ≡ true
      → let done = store_outcome started completed job.deployment_id simulation y in
        (done.0 ≡ to_result o)
        × (done.1.deployments
            ≡ update_where
                (has_deployment_id job.deployment_id)
                (outcome_row started completed o)
                v.deployments)
        × (done.1.projects ≡ v.projects)
        × (done.1.environments ≡ v.environments)
  unfolding store_outcome update_deployment ◌>>=◌
  outcome_lem none simulation y v ran there = rw (ran, there) (refl, refl, refl, refl)
  outcome_lem (some e) simulation y v ran there = rw (ran, there) (refl, refl, refl, refl)

  pub claim_lem :
      (y : Yard) (r : DeploymentRow)
      → job_row job y ≡ some r
      → r.status ≡ DeploymentStatus.queued
      → (claim started job y ≡ (ok true, claim_in started job y))
        × (job_row job (claim_in started job y) ≡ some (start_row started r))
  unfolding claim ◌>>=◌
  claim_lem y r found waiting =
      let passes : is_claimable job y.projects r ≡ true =
        rw (find_first_passes (own y) y.deployments found) (rw waiting refl) in
      (
        rw (any_of_found (own y) (is_claimable job y.projects) y.deployments found passes) refl,
        found_by (own y) (is_claimable job y.projects) (start_row started) y.deployments (λ _. refl)
            found passes,
      )

  pub look_up_lem :
      (y : Yard) (r : DeploymentRow)
      → job_row job y ≡ some r
      → r.status ≡ DeploymentStatus.queued
      → look_up job y ≡ (ok DeploymentStatus.queued, y)
  unfolding look_up ◌>>=◌
  look_up_lem y r found waiting = rw found (ap (λ s. (ok s, y)) waiting)

  run_lem :
      (y : Yard) (r : DeploymentRow)
      → job_row job y ≡ some (start_row started r)
      → Settled started completed (simulation_error broken) job r (
          store_outcome started completed job.deployment_id
            (run_simulation_deployment broken job.deployment_id)
            y)
  run_lem y r found =
      let o = simulation_error broken in
      let simulation = run_simulation_deployment broken job.deployment_id in
      let (result, rows, projects, _) = simulation_lem broken job.deployment_id y in
      let v = (simulation y).1 in
      let found_v : job_row job v ≡ some (start_row started r) = rw (rows, projects) found in
      let (there, stored) =
        stored_by v (start_row started r) (outcome_row started completed o)
          (λ x. (outcome_row-id started completed o x).0)
          (λ x. (outcome_row-id started completed o x).1) found_v in
      let (ended, kept, same, _) =
        outcome_lem o simulation y v (ap (λ (a : Result (Unit {0})). (a, v)) result) there in
      (ended, rw (kept, same) stored)

  -- A queued deployment is claimed and run.
  pub process_claimed_lem :
      (y : Yard) (r : DeploymentRow)
      → job_row job y ≡ some r
      → r.status ≡ DeploymentStatus.queued
      → process_deployment started completed broken job y
        ≡ store_outcome started completed job.deployment_id
            (run_simulation_deployment broken job.deployment_id)
            (started_in job.deployment_id (claim_in started job y))
  unfolding process_deployment ◌>>=◌
  process_claimed_lem y r found waiting =
      rw (look_up_lem y r found waiting, (claim_lem y r found waiting).0) refl

  pub process_deployment-stores :
      (y : Yard) (r : DeploymentRow)
      → job_row job y ≡ some r
      → r.status ≡ DeploymentStatus.queued
      → Settled started completed
          (simulation_error broken)
          job
          r
          (process_deployment started completed broken job y)
  process_deployment-stores y r found waiting =
      rw (process_claimed_lem y r found waiting) (run_lem _ r (claim_lem y r found waiting).1)

  -- A job whose deployment is not queued returns, and adds one event and changes no deployment.
  pub process_deployment-skips :
      (y : Yard) (r : DeploymentRow)
      → job_row job y ≡ some r
      → is_waiting r.status ≡ false
      → let done = process_deployment started completed broken job y in
        (done.0 ≡ ok tt)
        × (done.1.deployments ≡ y.deployments)
        × (length done.1.events ≡ length y.events + 1)
  unfolding process_deployment look_up ◌>>=◌
  process_deployment-skips y r found other = rw found (by_status r.status other)
    where
      by_status :
          (s : DeploymentStatus)
          → is_waiting s ≡ false
          → let done = process_status started completed broken job s y in
            (done.0 ≡ ok tt)
            × (done.1.deployments ≡ y.deployments)
            × (length done.1.events ≡ length y.events + 1)
      by_status s h = ground arith
