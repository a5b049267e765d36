-- ===== src/Deployment/Process.antt =====
-- apps/worker/src/queues/deployments.queue.ts: `processDeployment`. A job looks its deployment up,
-- claims it by an update that asks for the status QUEUED again, runs the simulation and stores the
-- outcome. Other requests and workers may act between these steps, so they are functions of their own.
pub mod Laws
pub mod Settles
pub mod Ends
mod Tests
use auto_ops.Prelude.{
  ℕ, Bool, true, false, ◌&&◌, String, Option, none, some, List, ◌==◌, ◌<>◌, if◌then◌else◌, any,
  find_first, update_where,
}
use auto_ops.Prelude.Int.{sub_ℕ}
use auto_ops.Errors.{Thrown, app, plain}
use auto_ops.Exec.{Exec, ok, err, pure, throw, gets, or_throw, modify, catch, ◌>>=◌, ◌>>◌}
use auto_ops.Organization.{Project}
use auto_ops.Deployment.{
  Yard, DeploymentRow, DeploymentStatus, DeploymentJobData, LogLevel, has_deployment_id, add_event,
  event_of, info, warn,
}
use auto_ops.Deployment.Simulation.{run_simulation_deployment}

abbrev pub is_project_of : (id organization : String) → Project → Bool
is_project_of id organization p = p.id == id && p.organization_id == organization

-- The deployment with this identifier, in a project of the organization.
abbrev pub is_deployment : (id organization : String) → List Project → DeploymentRow → Bool
is_deployment id organization projects r =
    r.id == id && any (is_project_of r.project_id organization) projects

abbrev pub is_waiting : DeploymentStatus → Bool
is_waiting DeploymentStatus.queued = true
is_waiting _ = false

abbrev skip : (deployment message : String) → LogLevel → Exec Yard (Unit {0})
skip deployment message level =
    modify (add_event (event_of deployment "deployment.skipped" message level))

-- The event of a job whose deployment is not queued.
abbrev pub skip_event : (deployment : String) → DeploymentStatus → Exec Yard (Unit {0})
skip_event deployment DeploymentStatus.succeeded =
    skip deployment "Deployment already completed; skipping duplicate job." info
skip_event deployment DeploymentStatus.failed =
    skip deployment "Deployment already failed; skipping worker retry." warn
skip_event deployment DeploymentStatus.running =
    skip deployment "Deployment already running; skipping duplicate job." warn
skip_event deployment _ = skip deployment "Deployment is not eligible for worker processing." warn

-- The status of the job's deployment.
pub look_up : DeploymentJobData → Exec Yard DeploymentStatus
look_up job = do
  found ← gets (λ y.
      find_first (is_deployment job.deployment_id job.organization_id y.projects) y.deployments)
  deployment ← or_throw found (plain ("Deployment not found: " <> job.deployment_id))
  pure deployment.status

abbrev pub is_claimable : DeploymentJobData → List Project → DeploymentRow → Bool
is_claimable job projects r =
    is_deployment job.deployment_id job.organization_id projects r && is_waiting r.status

abbrev pub start_row : (started : ℕ) → DeploymentRow → DeploymentRow
start_row started r = record r {
  status = DeploymentStatus.running;
  started_at = some started;
  error_message = none;
}

abbrev pub claim_in : (started : ℕ) → DeploymentJobData → Yard → Yard
claim_in started job y = record y {
  deployments = update_where (is_claimable job y.projects) (start_row started) y.deployments;
}

-- The claim, and whether its count is 1: the identifier is the table's primary key.
pub claim : (started : ℕ) → DeploymentJobData → Exec Yard Bool
claim started job = do
  claimed ← gets (λ y. any (is_claimable job y.projects) y.deployments)
  modify (claim_in started job)
  pure claimed

abbrev pub succeed_row : (started completed : ℕ) → DeploymentRow → DeploymentRow
succeed_row started completed r = record r {
  status = DeploymentStatus.succeeded;
  completed_at = some completed;
  duration_ms = some (sub_ℕ completed started);
  error_message = none;
}

abbrev pub fail_row : (started completed : ℕ) (message : String) → DeploymentRow → DeploymentRow
fail_row started completed message r = record r {
  status = DeploymentStatus.failed;
  completed_at = some completed;
  duration_ms = some (sub_ℕ completed started);
  error_message = some message;
}

abbrev pub message_of : Thrown → String
message_of (app e) = e.message
message_of (plain message) = message

-- `deployment.update`, which throws when no row has the identifier.
update_deployment : (id : String) → (DeploymentRow → DeploymentRow) → Exec Yard (Unit {0})
update_deployment id f y =
    if any (has_deployment_id id) y.deployments
    then (ok tt, record y { deployments = update_where (has_deployment_id id) f y.deployments })
    else (err (plain "No record was found for an update."), y)

-- The `try` body, whose first step is the simulation, and its handler, which stores the failure and
-- throws again.
pub store_outcome :
    (started completed : ℕ) (deployment : String) → Exec Yard (Unit {0}) → Exec Yard (Unit {0})
store_outcome started completed deployment simulation =
    catch
      (simulation
        >> update_deployment deployment (succeed_row started completed)
        >> modify (
            add_event (
              event_of deployment "deployment.succeeded" "Deployment completed successfully."
                info)))
      (λ e.
        update_deployment deployment (fail_row started completed (message_of e))
        >> modify (
            add_event (
              event_of deployment "deployment.failed" "Deployment failed during worker processing."
                LogLevel.error))
        >> throw e)

abbrev pub started_in : (deployment : String) → Yard → Yard
started_in deployment =
    add_event
      (event_of deployment "deployment.started" "Deployment worker started processing." info)

abbrev pub process_claimed :
    (started completed : ℕ)
    → (ℕ → Option Thrown)
    → (deployment : String) → Bool
    → Exec Yard (Unit {0})
process_claimed started completed broken deployment true =
    modify (started_in deployment)
    >> store_outcome started completed deployment (run_simulation_deployment broken deployment)
process_claimed started completed broken deployment false =
    skip deployment "Deployment was already claimed by another worker." warn

abbrev pub process_status :
    (started completed : ℕ)
    → (ℕ → Option Thrown)
    → DeploymentJobData
    → DeploymentStatus
    → Exec Yard (Unit {0})
process_status started completed broken job DeploymentStatus.queued = do
  claimed ← claim started job
  process_claimed started completed broken job.deployment_id claimed
process_status started completed broken job status = skip_event job.deployment_id status

pub process_deployment :
    (started completed : ℕ) → (ℕ → Option Thrown) → DeploymentJobData → Exec Yard (Unit {0})
process_deployment started completed broken job = do
  status ← look_up job
  process_status started completed broken job status
