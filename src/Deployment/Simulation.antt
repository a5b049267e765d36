-- ===== src/Deployment/Simulation.antt =====
-- apps/worker/src/executors/simulation.executor.ts: `runSimulationDeployment`. The queue's
-- `updateProgress` may throw at any report: which error it throws at which report is an argument.
use auto_ops.Prelude.{ℕ, String, Option, none, some, List, [], ◌∷◌}
use auto_ops.Errors.{Thrown}
use auto_ops.Exec.{Exec, ok, err, pure, modify, ◌>>◌}
use auto_ops.Deployment.{Yard, add_event, event_of, info}

pub record Phase : Type 0 where
  pub progress : ℕ
  pub name : String
  pub event_type : String
  pub message : String

abbrev pub simulation_phases : List Phase
simulation_phases =
    record {
      progress = 20;
      name = "resolve_artifact";
      event_type = "deployment.simulation.artifact_resolved";
      message = "Simulation resolved the deployment artifact.";
    }
    ∷ record {
      progress = 40;
      name = "prepare_runtime";
      event_type = "deployment.simulation.runtime_prepared";
      message = "Simulation prepared the target runtime.";
    }
    ∷ record {
      progress = 60;
      name = "apply_deployment";
      event_type = "deployment.simulation.applied";
      message = "Simulation applied the deployment plan.";
    }
    ∷ record {
      progress = 80;
      name = "health_check";
      event_type = "deployment.simulation.health_checked";
      message = "Simulation completed health checks.";
    }
    ∷ record {
      progress = 95;
      name = "finalize";
      event_type = "deployment.simulation.finalized";
      message = "Simulation finalized the deployment.";
    }
    ∷ []

abbrev pub report_with : Option Thrown → ℕ → Exec Yard (Unit {0})
report_with none n y = (ok tt, record y { progress = n ∷ y.progress })
report_with (some e) n y = (err e, y)

-- `updateProgress`
unfoldable pub update_progress : (ℕ → Option Thrown) → ℕ → Exec Yard (Unit {0})
update_progress broken n = report_with (broken n) n

unfoldable pub run_phases :
    (ℕ → Option Thrown) → (deployment : String) → List Phase → Exec Yard (Unit {0})
run_phases broken deployment [] = pure tt
run_phases broken deployment (phase ∷ phases) =
    update_progress broken phase.progress
    >> modify (add_event (event_of deployment phase.event_type phase.message info))
    >> run_phases broken deployment phases

-- `runSimulationDeployment`
unfoldable pub run_simulation_deployment :
    (ℕ → Option Thrown) → (deployment : String) → Exec Yard (Unit {0})
run_simulation_deployment broken deployment = do
  update_progress broken 10
  modify (
      add_event
        (event_of deployment "deployment.simulation.started" "Simulation executor started." info))
  run_phases broken deployment simulation_phases
  update_progress broken 100
  modify (
      add_event (
        event_of deployment "deployment.simulation.completed"
          "Simulation executor completed successfully." info))
