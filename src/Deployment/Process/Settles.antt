-- ===== src/Deployment/Process/Settles.antt =====
-- deployments.queue.ts, `processDeployment`: what a deployment's row says after its job.
use auto_ops.Prelude.{ℕ, ◌≡◌, refl, String, Option, none, some}
use auto_ops.Prelude.Int.{sub_ℕ}
use auto_ops.Errors.{Thrown, app, plain}
use auto_ops.Deployment.{Yard, DeploymentRow, DeploymentStatus, DeploymentJobData}
use auto_ops.Deployment.Process.{process_deployment, start_row}
use auto_ops.Deployment.Process.Laws.{
  to_result, simulation_error, job_row, outcome_row, process_deployment-stores,
}

-- The message that is stored for an error.
abbrev pub stored_message : Option Thrown → Option String
stored_message none = none
stored_message (some (app e)) = some e.message
stored_message (some (plain message)) = some message

-- The status that a deployment ends with.
abbrev pub final_status : Option Thrown → DeploymentStatus
final_status none = DeploymentStatus.succeeded
final_status (some e) = DeploymentStatus.failed

-- What the row s of an ended deployment says, which the row r was before the job: its identity and its
-- request, how it ended, when it started and ended, how long it took, and the error.
pub record HasEnded (started completed : ℕ) (o : Option Thrown) (r s : DeploymentRow) : Type 0 where
  pub same_id : s.id ≡ r.id
  pub same_project : s.project_id ≡ r.project_id
  pub same_environment : s.environment_id ≡ r.environment_id
  pub same_trigger : s.triggered_by ≡ r.triggered_by
  pub status : s.status ≡ final_status o
  pub started_at : s.started_at ≡ some started
  pub completed_at : s.completed_at ≡ some completed
  pub duration : s.duration_ms ≡ some (sub_ℕ completed started)
  pub error_message : s.error_message ≡ stored_message o

outcome_row-HasEnded :
    (started completed : ℕ) (o : Option Thrown) (r : DeploymentRow)
    → HasEnded started completed o r (outcome_row started completed o (start_row started r))
outcome_row-HasEnded started completed none r = record {
  same_id = refl;
  same_project = refl;
  same_environment = refl;
  same_trigger = refl;
  status = refl;
  started_at = refl;
  completed_at = refl;
  duration = refl;
  error_message = refl;
}
outcome_row-HasEnded started completed (some (app e)) r = record {
  same_id = refl;
  same_project = refl;
  same_environment = refl;
  same_trigger = refl;
  status = refl;
  started_at = refl;
  completed_at = refl;
  duration = refl;
  error_message = refl;
}
outcome_row-HasEnded started completed (some (plain message)) r = record {
  same_id = refl;
  same_project = refl;
  same_environment = refl;
  same_trigger = refl;
  status = refl;
  started_at = refl;
  completed_at = refl;
  duration = refl;
  error_message = refl;
}

module _ (started completed : ℕ) (broken : ℕ → Option Thrown) (job : DeploymentJobData) where
  -- The job of a queued deployment. When every report of the simulation is taken, the job returns, and
  -- the deployment's row ends as SUCCEEDED without an error message. Otherwise the job throws the first
  -- report's error, and the row ends as FAILED with the message of that error. Either way the row keeps
  -- its identifier, project, environment and requester, and says when the job started, when it ended, and
  -- the difference as the duration.
  pub process_deployment-settles :
      (y : Yard) (r : DeploymentRow)
      → job_row job y ≡ some r
      → r.status ≡ DeploymentStatus.queued
      → let done = process_deployment started completed broken job y in
        (done.0 ≡ to_result (simulation_error broken))
        × (s : DeploymentRow) × (job_row job done.1 ≡ some s)
        × HasEnded started completed (simulation_error broken) r s
  process_deployment-settles y r found waiting =
      let (ended, stored) =
        process_deployment-stores started completed broken job y r found waiting in
      (ended, _, stored, outcome_row-HasEnded started completed (simulation_error broken) r)
