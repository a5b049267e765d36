-- ===== src/Deployment/Process/Ends.antt =====
-- deployments.queue.ts and deployment.service.ts: whether an environment is free for another deployment
-- after a job.
use auto_ops.Prelude.{
  ℕ, ◌≡◌, ◌≢◌, refl, ap, subst, true, false, String, Option, none, some, List, [], ◌∷◌, ◌==◌, any,
  find_first, update_where, arith, find_first_passes, any_of_found, eq_iff, ==_self, Bool-cases,
  inl, inr, All, All-any, All-update_to, any-All, All-map, All-update_where,
}
use auto_ops.Errors.{Thrown}
use auto_ops.Exec.{Result, ok, ◌>>=◌}
use auto_ops.Organization.{Project, Environment, is_open_project}
use auto_ops.Deployment.{
  Yard, DeploymentRow, DeploymentStatus, DeploymentJobData, TriggerDeploymentInput,
  has_deployment_id, is_active_in, is_active, check_trigger, trigger_deployment, store_trigger,
  new_deployment, job_of, is_environment,
}
use auto_ops.Deployment.Active.{check-ok, store-open}
use auto_ops.Deployment.Simulation.{run_simulation_deployment}
use auto_ops.Deployment.Process.{
  is_deployment, process_deployment, is_project_of, claim_in, start_row, started_in, is_claimable,
}
use auto_ops.Deployment.Process.Laws.{
  job_row, process_deployment-skips, outcome_row, outcome_lem, simulation_lem, claim_lem,
  process_claimed_lem, simulation_error,
}

-- While a row says that it runs, its environment is refused.
refused_while_active :
    (project environment organization : String) (y : Yard)
    → any (is_active_in environment) y.deployments ≡ true
    → ((a : Unit {0}) (v : Yard) → check_trigger project environment organization y ≢ (ok a, v))
refused_while_active project environment organization y busy a v passed =
    let (idle, _) = check-ok project environment organization y v a passed in cc

-- A deployment whose worker stopped while it ran is never finished: each further job for it returns and
-- leaves its row running, and every later request for its environment is refused.
pub process_deployment-stuck :
    (started completed : ℕ) (broken : ℕ → Option Thrown) (job : DeploymentJobData) (y : Yard)
    (r : DeploymentRow) (project organization : String)
    → job_row job y ≡ some r
    → r.status ≡ DeploymentStatus.running
    → let done = process_deployment started completed broken job y in
      (done.0 ≡ ok tt)
      × (done.1.deployments ≡ y.deployments)
      × ((a : Unit {0}) (v : Yard)
          → check_trigger project r.environment_id organization done.1 ≢ (ok a, v))
unfolding is_active
process_deployment-stuck started completed broken job y r project organization found runs =
    let (returned, same, _) =
      process_deployment-skips started completed broken job y r found (rw runs refl) in
    let active : is_active_in r.environment_id r ≡ true =
      rw (==_self r.environment_id, runs) refl in
    let busy = any_of_found _ (is_active_in r.environment_id) y.deployments found active in
    let done = (process_deployment started completed broken job y).1 in
    (returned, same, refused_while_active project r.environment_id organization done (rw same busy))

-- Every active row of the environment is the deployment's.
abbrev Only : (environment id : String) → List DeploymentRow → Type 0
Only environment id = All (λ r. is_active_in environment r ≡ true → r.id ≡ id)

outcome_row-inactive :
    (environment : String) (started completed : ℕ) (o : Option Thrown) (r : DeploymentRow)
    → is_active_in environment (outcome_row started completed o r) ≡ false
unfolding is_active
outcome_row-inactive environment started completed none r = ground arith
outcome_row-inactive environment started completed (some e) r = ground arith

-- Once the outcome is stored, nothing in the environment is active.
idle_lem :
    (environment id : String) (started completed : ℕ) (o : Option Thrown) (xs : List DeploymentRow)
    → Only environment id xs
    → any
        (is_active_in environment)
        (update_where (has_deployment_id id) (outcome_row started completed o) xs)
      ≡ false
idle_lem environment id started completed o xs only = All-any (is_active_in environment) _ (
    All-update_to {Q = λ r. is_active_in environment r ≡ false} (has_deployment_id id)
      (outcome_row started completed o) xs
      (λ r _ _. outcome_row-inactive environment started completed o r)
      (λ r other own. other_inactive r other own) only)
  where
    other_inactive :
        (r : DeploymentRow)
        → has_deployment_id id r ≡ false
        → (is_active_in environment r ≡ true → r.id ≡ id)
        → is_active_in environment r ≡ false
    other_inactive r other own = elim (Bool-cases (is_active_in environment r)) [
      | inl active ↦ let bad = (eq_iff r.id id).1 (own active) in cc
      | inr idle ↦ idle
    ]

-- A project that is in use is the organization's.
open_is_own :
    (project organization : String) (projects : List Project)
    → any (is_open_project project organization) projects ≡ true
    → any (is_project_of project organization) projects ≡ true
unfolding any
open_is_own project organization [] h = cc
open_is_own project organization (p ∷ ps) h = ground (arith, open_is_own project organization ps)

environment_lem :
    (project environment organization : String) (projects : List Project) (e : Environment)
    → is_environment environment project organization projects e ≡ true
    → (e.project_id ≡ project) × (any (is_open_project e.project_id organization) projects ≡ true)
environment_lem project environment organization projects e h =
    let same : (e.project_id == project) ≡ true = ground arith in
    ((eq_iff e.project_id project).0 same, ground arith)

known_project :
    (project environment organization : String) (projects : List Project)
    (environments : List Environment)
    → any (is_environment environment project organization projects) environments ≡ true
    → any (is_open_project project organization) projects ≡ true
unfolding any
known_project project environment organization projects [] h = cc
known_project project environment organization projects (e ∷ es) h =
    elim (Bool-cases (is_environment environment project organization projects e)) [
      | inl here ↦
          let (same, of_it) = environment_lem project environment organization projects e here in
          subst (λ p. any (is_open_project p organization) projects ≡ true) same of_it
      | inr there ↦ known_project project environment organization projects es (rw there at h)
    ]

-- The checks pass exactly when the environment is known and idle.
check-known :
    (project environment organization : String) (y : Yard)
    → check_trigger project environment organization y ≡ (ok tt, y)
    → any (is_environment environment project organization y.projects) y.environments ≡ true
unfolding check_trigger ◌>>=◌
check-known project environment organization y passed =
    elim (Bool-cases
      (any (is_environment environment project organization y.projects) y.environments)) [
        | inl known ↦ known
        | inr unknown ↦ let bad = rw unknown at passed in absurd (ground (arith, bad))
      ]

check_passes :
    (project environment organization : String) (y : Yard)
    → any (is_environment environment project organization y.projects) y.environments ≡ true
    → any (is_active_in environment) y.deployments ≡ false
    → check_trigger project environment organization y ≡ (ok tt, y)
unfolding check_trigger ◌>>=◌
check_passes project environment organization y known idle = rw (known, idle) refl

-- The deployments of an idle environment and a new one: only the new one is active in it.
new-Only :
    (environment id : String) (row : DeploymentRow) (xs : List DeploymentRow)
    → row.id ≡ id
    → any (is_active_in environment) xs ≡ false
    → Only environment id (row ∷ xs)
new-Only environment id row xs own idle = (
  λ _. own,
  All-map xs (λ r off active. absurd (let bad = off in cc))
      (any-All (is_active_in environment) xs idle),
)

named :
    (job : DeploymentJobData) (y : Yard) (r : DeploymentRow)
    → job_row job y ≡ some r
    → any (has_deployment_id job.deployment_id) y.deployments ≡ true
named job y r found =
    let own = is_deployment job.deployment_id job.organization_id y.projects in
    let passes : own r ≡ true = find_first_passes own y.deployments found in
    any_of_found own (has_deployment_id job.deployment_id) y.deployments found (ground arith)

claimable_id :
    (job : DeploymentJobData) (projects : List Project) (r : DeploymentRow)
    → is_claimable job projects r ≡ true
    → r.id ≡ job.deployment_id
claimable_id job projects r h =
    let same : (r.id == job.deployment_id) ≡ true = ground arith in
    (eq_iff r.id job.deployment_id).0 same

-- A queued deployment that is the only active one leaves its environment free.
process_free :
    (started completed : ℕ) (broken : ℕ → Option Thrown) (job : DeploymentJobData)
    (project environment organization : String) (y : Yard) (r : DeploymentRow)
    → job_row job y ≡ some r
    → r.status ≡ DeploymentStatus.queued
    → Only environment job.deployment_id y.deployments
    → any (is_environment environment project organization y.projects) y.environments ≡ true
    → let done = (process_deployment started completed broken job y).1 in
      check_trigger project environment organization done ≡ (ok tt, done)
process_free started completed broken job project environment organization y r found waiting only
      known =
    let id = job.deployment_id in
    let w = started_in id (claim_in started job y) in
    let o = simulation_error broken in
    let simulation = run_simulation_deployment broken id in
    let (_, found_w) = claim_lem started completed broken job y r found waiting in
    let (result, rows, projects, environments) = simulation_lem broken id w in
    let v = (simulation w).1 in
    let there : any (has_deployment_id id) v.deployments ≡ true =
      rw rows (named job w (start_row started r) found_w) in
    let (_, kept, same_projects, same_environments) =
      outcome_lem started completed broken job o simulation w v
        (ap (λ (a : Result (Unit {0})). (a, v)) result) there in
    let only_w : Only environment id w.deployments =
      All-update_where (λ x. is_active_in environment x ≡ true → x.id ≡ id)
        (is_claimable job y.projects) (start_row started) y.deployments
        (λ x claimable _ _. claimable_id job y.projects x claimable) only in
    rw (process_claimed_lem started completed broken job y r found waiting) (
      check_passes project environment organization _
        (rw (same_projects, same_environments, projects, environments) known)
        (rw (kept, rows) (idle_lem environment id started completed o w.deployments only_w)))

-- A request that passes its checks and whose job is taken by a worker keeps its environment busy only
-- until that job ends: whatever the simulation does, the checks of a next request pass after it.
pub trigger-process-free :
    (id project environment organization user : String) (input : TriggerDeploymentInput) (y : Yard)
    (started completed : ℕ) (broken : ℕ → Option Thrown)
    → check_trigger project environment organization y ≡ (ok tt, y)
    → y.queue_available ≡ true
    → any (has_deployment_id id) y.deployments ≡ false
    → let first = (trigger_deployment id project environment organization user input y).1 in
      let job = job_of id project environment organization user in
      let done = (process_deployment started completed broken job first).1 in
      check_trigger project environment organization done ≡ (ok tt, done)
unfolding trigger_deployment find_first ◌>>=◌
trigger-process-free id project environment organization user input y started completed broken
      passed up fresh =
    let first = (store_trigger id project environment organization user input y).1 in
    let job = job_of id project environment organization user in
    let (rows, _, projects, environments) =
      store-open id project environment organization user input y up fresh in
    let (idle, _) = check-ok project environment organization y y tt passed in
    let known = check-known project environment organization y passed in
    let own : DeploymentRow = new_deployment id project environment user input in
    let found : job_row job first ≡ some own =
      rw (rows, projects)
        (rw
          (
            ==_self id,
            open_is_own project organization y.projects
                (known_project project environment organization y.projects y.environments known),
          )
          refl) in
    rw passed (
      process_free started completed broken job project environment organization first own found
        refl (rw rows (new-Only environment id own y.deployments refl idle))
        (rw (projects, environments) known))
