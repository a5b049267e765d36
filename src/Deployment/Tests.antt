-- ===== src/Deployment/Tests.antt =====
-- Requests for deployments of one environment.
use auto_ops.Prelude.{
  ◌≤◌, ◌≡◌, ◌≢◌, refl, Bool, true, String, some, none, [], ◌∷◌, any, count_where, arith, eq_iff,
  ◌==◌,
}
use auto_ops.Exec.{◌>>=◌, ok}
use auto_ops.Deployment.{
  Yard, TriggerDeploymentInput, check_trigger, store_trigger, trigger_deployment,
}
use auto_ops.Deployment.Active.{active_count, trigger_deployment-active_count, store_trigger-races}

abbrev pub yard : (queue_available : Bool) → Yard
yard available = record {
  projects = record { id = "web"; organization_id = "acme"; archived_at = none } ∷ [];
  environments =
      record {
        id = "prod";
        project_id = "web";
        kind = "PRODUCTION";
        name = "Production";
        slug = "prod";
        archived_at = none;
      }
      ∷ [];
  deployments = [];
  events = [];
  jobs = [];
  announced = [];
  progress = [];
  queue_available = available;
}

abbrev pub input : TriggerDeploymentInput
input = record { trigger = none; commit_sha = none; branch = some "main" }

none_active : active_count "prod" (yard true) ≤ 1
unfolding count_where
none_active = omega arith

trigger_deployment-active_count_example :
    active_count "prod" (trigger_deployment "dep-1" "web" "prod" "acme" "alice" input (yard true)).1
    ≤ 1
trigger_deployment-active_count_example =
    trigger_deployment-active_count "dep-1" "web" "prod" "acme" "alice" "prod" input (yard true)
      none_active

pub passes :
    (available : Bool)
    → check_trigger "web" "prod" "acme" (yard available) ≡ (ok tt, yard available)
unfolding check_trigger any ◌>>=◌
passes available = refl

abbrev first_id : String
first_id = "dep-1"

two_names : first_id ≢ "dep-2"
two_names e =
    let equal : ("dep-1" == "dep-2") ≡ true = (eq_iff "dep-1" "dep-2").1 e in
    absurd (ground (arith, equal))

store_trigger-races_example :
    active_count "prod"
      (store_trigger "dep-2" "web" "prod" "acme" "bob" input
        (store_trigger "dep-1" "web" "prod" "acme" "alice" input (yard true)).1).1
    ≡ 2
unfolding any
store_trigger-races_example =
    store_trigger-races "dep-1" "dep-2" "web" "prod" "acme" "alice" "bob" input (yard true)
      (passes true) refl refl refl two_names
