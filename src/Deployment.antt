-- ===== src/Deployment.antt =====
-- apps/api/src/modules/deployments/deployment.service.ts: `triggerDeployment`. Its checks and its
-- writes are functions of their own: other requests may come between them.
pub mod Active
pub mod Simulation
pub mod Process
mod Tests
use auto_ops.Prelude.{
  ℕ, Bool, true, false, not, ◌&&◌, String, Option, none, some, List, ◌∷◌, ◌==◌, if◌then◌else◌, any,
  update_where, get_or,
}
use auto_ops.Prelude.Int.{ℤ}
use auto_ops.Errors.{plain, not_found_error, conflict_error}
use auto_ops.Exec.{Exec, ok, err, pure, throw, gets, modify, require, catch, ◌>>=◌, ◌>>◌}
use auto_ops.Organization.{Project, Environment, is_open_environment}

pub data DeploymentStatus : Type 0 where
  queued building deploying running succeeded failed cancelled rolled_back : DeploymentStatus

pub data DeploymentTrigger : Type 0 where
  manual git_push schedule api : DeploymentTrigger

pub data LogLevel : Type 0 where
  trace debug info warn error fatal : LogLevel

-- `model Deployment`, without the columns that no modelled code reads or writes.
pub record DeploymentRow : Type 0 where
  pub id : String
  pub project_id : String
  pub environment_id : String
  pub status : DeploymentStatus
  pub trigger : DeploymentTrigger
  pub commit_sha : Option String
  pub branch : Option String
  pub triggered_by : Option String
  pub error_message : Option String
  pub started_at : Option ℕ
  pub completed_at : Option ℕ
  pub duration_ms : Option ℤ

pub record DeploymentEventRow : Type 0 where
  pub deployment_id : String
  pub type : String
  pub message : String
  pub level : LogLevel

pub record DeploymentJobData : Type 0 where
  pub deployment_id : String
  pub project_id : String
  pub environment_id : String
  pub organization_id : String
  pub triggered_by_id : String

pub record TriggerDeploymentInput : Type 0 where
  pub trigger : Option DeploymentTrigger
  pub commit_sha : Option String
  pub branch : Option String

-- The tables and the queue that a request reads and writes.
pub record Yard : Type 0 where
  pub projects : List Project
  pub environments : List Environment
  pub deployments : List DeploymentRow
  pub events : List DeploymentEventRow
  pub jobs : List DeploymentJobData
  -- The deployments that the signal service and the resource graph were told of.
  pub announced : List String
  -- What the running jobs reported to the queue, the latest first.
  pub progress : List ℕ
  pub queue_available : Bool

-- `ACTIVE_DEPLOYMENT_STATUSES`
unfoldable pub is_active : DeploymentStatus → Bool
is_active queued = true
is_active building = true
is_active deploying = true
is_active running = true
is_active _ = false

abbrev pub is_active_in : (environment : String) → DeploymentRow → Bool
is_active_in environment r = r.environment_id == environment && is_active r.status

abbrev pub has_deployment_id : String → DeploymentRow → Bool
has_deployment_id id r = r.id == id

abbrev pub is_environment : (id project organization : String) → List Project → Environment → Bool
is_environment id project organization projects e =
    is_open_environment id organization projects e && e.project_id == project

abbrev pub add_event : DeploymentEventRow → Yard → Yard
add_event e y = record y { events = e ∷ y.events }

abbrev pub event_of : (deployment type message : String) → LogLevel → DeploymentEventRow
event_of deployment type message level = record {
  deployment_id = deployment;
  type = type;
  message = message;
  level = level;
}

abbrev is_job_for : String → DeploymentJobData → Bool
is_job_for id j = j.deployment_id == id

-- A job whose identifier the queue still keeps is ignored.
abbrev add_job : DeploymentJobData → List DeploymentJobData → List DeploymentJobData
add_job job jobs = if any (is_job_for job.deployment_id) jobs then jobs else job ∷ jobs

-- `enqueueDeploymentJob`, which throws when the queue's server does not answer.
enqueue_deployment_job : DeploymentJobData → Exec Yard (Unit {0})
enqueue_deployment_job job y =
    if y.queue_available
    then (ok tt, record y { jobs = add_job job y.jobs })
    else (err (plain "Queue unavailable"), y)

-- `_requireEnvironment`, and that no deployment of the environment is active.
pub check_trigger : (project environment organization : String) → Exec Yard (Unit {0})
check_trigger project environment organization = do
  known ←
      gets (λ y. any (is_environment environment project organization y.projects) y.environments)
  require known (not_found_error "Environment")
  active ← gets (λ y. any (is_active_in environment) y.deployments)
  require (not active) (conflict_error "An active deployment already exists for this environment")

abbrev pub new_deployment :
    (id project environment user : String) → TriggerDeploymentInput → DeploymentRow
new_deployment id project environment user input = record {
  id = id;
  project_id = project;
  environment_id = environment;
  status = DeploymentStatus.queued;
  trigger = get_or input.trigger manual;
  commit_sha = input.commit_sha;
  branch = input.branch;
  triggered_by = some user;
  error_message = none;
  started_at = none;
  completed_at = none;
  duration_ms = none;
}

abbrev pub enqueue_failed_row : DeploymentRow → DeploymentRow
enqueue_failed_row r = record r {
  status = DeploymentStatus.failed;
  error_message = some "Failed to enqueue deployment job.";
}

-- An insert that the primary key may refuse, with its event.
insert_deployment : DeploymentRow → Exec Yard (Unit {0})
insert_deployment row y =
    if any (has_deployment_id row.id) y.deployments
    then (err (plain "Unique constraint failed"), y)
    else (
      ok tt,
      add_event
          (event_of row.id "deployment.queued"
            "Deployment queued. Worker execution is not enabled yet." info)
          (record y { deployments = row ∷ y.deployments }),
    )

-- The `try` body, and its handler, which marks the row as failed and throws again.
hand_over : DeploymentJobData → Exec Yard (Unit {0})
hand_over job =
    catch
      (enqueue_deployment_job job
        >> modify (
            add_event (
              event_of job.deployment_id "deployment.enqueued"
                "Deployment job enqueued for worker processing." info)))
      (λ e.
        modify (λ y.
          add_event
            (event_of job.deployment_id "deployment.enqueue_failed"
              "Failed to enqueue deployment job." LogLevel.error)
            (record y {
              deployments =
                  update_where (has_deployment_id job.deployment_id) enqueue_failed_row
                    y.deployments;
            }))
        >> throw e)

abbrev pub job_of : (id project environment organization user : String) → DeploymentJobData
job_of id project environment organization user = record {
  deployment_id = id;
  project_id = project;
  environment_id = environment;
  organization_id = organization;
  triggered_by_id = user;
}

-- The writes of `triggerDeployment`.
pub store_trigger :
    (id project environment organization user : String)
    → TriggerDeploymentInput
    → Exec Yard DeploymentRow
store_trigger id project environment organization user input =
    let row = new_deployment id project environment user input in
    do
      insert_deployment row
      hand_over (job_of id project environment organization user)
      modify (λ y. record y { announced = id ∷ y.announced })
      pure row

pub trigger_deployment :
    (id project environment organization user : String)
    → TriggerDeploymentInput
    → Exec Yard DeploymentRow
trigger_deployment id project environment organization user input = do
  check_trigger project environment organization
  store_trigger id project environment organization user input
