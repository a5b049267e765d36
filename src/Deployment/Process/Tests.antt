-- ===== src/Deployment/Process/Tests.antt =====
-- Jobs of the deployment queue.
use auto_ops.Prelude.{update_where}
use auto_ops.Deployment.Process.{update_deployment}
use auto_ops.Deployment.Simulation.{run_phases}
use auto_ops.Deployment.Simulation.{update_progress}
use auto_ops.Deployment.Simulation.{run_simulation_deployment}
use auto_ops.Deployment.Process.{store_outcome}
use auto_ops.Deployment.Process.{claim}
use auto_ops.Deployment.Process.{look_up}
use auto_ops.Prelude.{
  ℕ, ◌≡◌, ◌≢◌, refl, true, Option, some, none, [], ◌∷◌, any, find_first, nat_eq, if◌then◌else◌,
}
use auto_ops.Errors.{Thrown, plain}
use auto_ops.Exec.{ok, err, ◌>>=◌}
use auto_ops.Deployment.{
  Yard, DeploymentRow, DeploymentStatus, DeploymentJobData, check_trigger, trigger_deployment,
  manual, job_of,
}
use auto_ops.Deployment.Tests.{yard, input, passes}
use auto_ops.Deployment.Process.{process_deployment}
use auto_ops.Deployment.Process.Laws.{job_row, to_result, simulation_error}
use auto_ops.Deployment.Process.Settles.{HasEnded, process_deployment-settles}
use auto_ops.Deployment.Process.Ends.{process_deployment-stuck, trigger-process-free}

abbrev row : DeploymentStatus → DeploymentRow
row status = record {
  id = "dep-1";
  project_id = "web";
  environment_id = "prod";
  status = status;
  trigger = manual;
  commit_sha = none;
  branch = some "main";
  triggered_by = some "alice";
  error_message = none;
  started_at = none;
  completed_at = none;
  duration_ms = none;
}

abbrev job : DeploymentJobData
job = job_of "dep-1" "web" "prod" "acme" "alice"

abbrev yard_with : DeploymentStatus → Yard
yard_with status = record (yard true) { deployments = row status ∷ [] }

-- The report of 60 percent is not taken.
abbrev breaks_at_60 : ℕ → Option Thrown
breaks_at_60 n = if nat_eq n 60 then some (plain "Connection is closed.") else none

abbrev never_breaks : ℕ → Option Thrown
never_breaks _ = none

found : (status : DeploymentStatus) → job_row job (yard_with status) ≡ some (row status)
unfolding find_first any
found status = refl

process_deployment-settles_example :
    let done = process_deployment 100 350 breaks_at_60 job (yard_with DeploymentStatus.queued) in
    (done.0 ≡ to_result (simulation_error breaks_at_60))
    × (s : DeploymentRow) × (job_row job done.1 ≡ some s)
    × HasEnded 100 350 (simulation_error breaks_at_60) (row DeploymentStatus.queued) s
process_deployment-settles_example =
    process_deployment-settles 100 350 breaks_at_60 job (yard_with DeploymentStatus.queued)
      (row DeploymentStatus.queued) (found DeploymentStatus.queued) refl

breaks :
    (process_deployment 100 350 breaks_at_60 job (yard_with DeploymentStatus.queued)).0
    ≡ err (plain "Connection is closed.")
unfolding process_deployment ◌>>=◌ look_up find_first any claim store_outcome
    run_simulation_deployment update_progress run_phases update_deployment update_where
breaks = refl

reports_of_a_run :
    (process_deployment 100 350 never_breaks job (yard_with DeploymentStatus.queued)).1.progress
    ≡ 100 ∷ 95 ∷ 80 ∷ 60 ∷ 40 ∷ 20 ∷ 10 ∷ []
unfolding process_deployment ◌>>=◌ look_up find_first any claim store_outcome
    run_simulation_deployment update_progress run_phases update_deployment update_where
reports_of_a_run = refl

process_deployment-stuck_example :
    let y = yard_with DeploymentStatus.running in
    let done = process_deployment 100 350 never_breaks job y in
    (done.0 ≡ ok tt)
    × (done.1.deployments ≡ y.deployments)
    × ((a : Unit {0}) (v : Yard) → check_trigger "web" "prod" "acme" done.1 ≢ (ok a, v))
process_deployment-stuck_example =
    process_deployment-stuck 100 350 never_breaks job (yard_with DeploymentStatus.running)
      (row DeploymentStatus.running) "web" "acme" (found DeploymentStatus.running) refl

trigger-process-free_example :
    let first = (trigger_deployment "dep-1" "web" "prod" "acme" "alice" input (yard true)).1 in
    let done = (process_deployment 100 350 breaks_at_60 job first).1 in
    check_trigger "web" "prod" "acme" done ≡ (ok tt, done)
unfolding any
trigger-process-free_example =
    trigger-process-free "dep-1" "web" "prod" "acme" "alice" input (yard true) 100 350 breaks_at_60
      (passes true) refl refl
