-- ===== src/Signals/Tests.antt =====
-- Signals of one container that stays unhealthy.
use auto_ops.Prelude.Search.{starts_with}
use auto_ops.Prelude.{filter_where}
use auto_ops.Prelude.{trim}
use auto_ops.Json.{get_field}
use auto_ops.Signals.{dedupe_parts}
use auto_ops.Signals.{build_signal_fingerprint}
use auto_ops.Signals.{upsert_signal}
use auto_ops.Signals.{ingest_signal}
use auto_ops.Exec.{◌>>=◌}
use auto_ops.Prelude.{find_first}
use auto_ops.Prelude.{
  ℕ, ◌≡◌, refl, Bool, true, false, String, Option, some, none, List, [], ◌∷◌, ◌++◌, take, Distinct,
  ne-of_test, arith, count_where, update_where, any,
}
use auto_ops.Errors.{Thrown, plain}
use auto_ops.Exec.{ok}
use auto_ops.Json.{Json, str, end, field}
use auto_ops.Signal.{
  SignalIngestInput, SignalStatus, docker, docker_container_state_changed, SignalSeverity,
}
use auto_ops.Signals.{SignalStore, ResourceSignal, Arrival, ingest_signals}
use auto_ops.Signals.Table.{view, IsKeyed}
use auto_ops.Signals.Ingestion.{ingest_all, absorb_all, count_of, ingest_signals-refines}
use auto_ops.Signals.Resolution.{
  resolve_signals_by_fingerprints, resolve_signals_by_resource_condition_family,
  ResourceConditionResolutionInput,
}
use auto_ops.Signals.Resolution.Laws.{Resolves}
use auto_ops.Signals.Resolution.Families.{
  is_due, resolve_signals_by_resource_condition_family-Resolves,
}
use auto_ops.Signals.Reconciliation.{
  HistoricalSignalReconciliationInput, reconcile_historical_signals, completed_result,
}
use auto_ops.Signals.Listing.{SignalFilter, active_only, listing, list_signals}
use auto_ops.Signals.Listing.Laws.{list_signals-loses}

-- A hash that keeps texts apart.
abbrev keep : String → String
keep s = s

abbrev no_text : Json → String
no_text v = "[object Object]"

abbrev unhealthy : SignalIngestInput
unhealthy = record {
  source = docker;
  type = docker_container_state_changed;
  severity = SignalSeverity.warning;
  title = "Container is unhealthy";
  message = "web";
  observed_at = none;
  resource_node_id = some "node-of-another-organization";
  operation_id = none;
  deployment_id = none;
  project_id = none;
  environment_id = none;
  metadata = field "resourceIdentity" (str "web") (field "condition" (str "unhealthy") end);
  labels = none;
  dedupe_mode = none;
}

abbrev arrival : (id : String) (now : ℕ) → Option Thrown → Arrival
arrival id now broken = record {
  input = unhealthy;
  now = now;
  clock = now;
  id = id;
  broken = broken;
}

abbrev arrivals : List Arrival
arrivals =
    arrival "sig-1" 10 none
    ∷ arrival "sig-2" 20 (some (plain "Connection refused"))
    ∷ arrival "sig-3" 30 none
    ∷ []

abbrev empty_store : SignalStore
empty_store = record { nodes = []; signals = [] }

abbrev key : String
key = "acme|DOCKER|DOCKER_CONTAINER_STATE_CHANGED|none|WARNING|web|unhealthy"

empty-IsKeyed : IsKeyed empty_store
empty-IsKeyed o f = unfold count_where in omega arith

ingest_signals-refines_example :
    let v = ingest_all keep no_text "acme" arrivals empty_store in
    (view v ≡ absorb_all keep no_text "acme" [] arrivals (view empty_store))
    × (v.nodes ≡ [])
    × IsKeyed v
ingest_signals-refines_example =
    ingest_signals-refines keep no_text "acme" arrivals empty_store empty-IsKeyed

seen_twice : count_of (view (ingest_all keep no_text "acme" arrivals empty_store) "acme" key) ≡ 2
unfolding find_first ingest_signals ◌>>=◌ ingest_signal upsert_signal build_signal_fingerprint any
    dedupe_parts get_field trim update_where
seen_twice = refl

abbrev row : (id fingerprint : String) (seen : ℕ) → ResourceSignal
row id fingerprint seen = record {
  id = id;
  organization_id = "acme";
  resource_node_id = none;
  operation_id = none;
  deployment_id = none;
  project_id = none;
  environment_id = none;
  source = docker;
  type = docker_container_state_changed;
  severity = SignalSeverity.warning;
  status = SignalStatus.active;
  title = "Container is unhealthy";
  message = "web";
  fingerprint = fingerprint;
  metadata = field "resourceIdentity" (str "web") (field "condition" (str "unhealthy") end);
  labels = none;
  observed_at = seen;
  first_seen_at = seen;
  last_seen_at = seen;
  count = 1;
  archived_at = none;
}

abbrev store : SignalStore
store = record {
  nodes = [];
  signals = row "sig-1" "a" 10 ∷ row "sig-2" "b" 20 ∷ row "sig-3" "c" 30 ∷ [];
}

resolves_one : (resolve_signals_by_fingerprints "acme" ("a" ∷ "a" ∷ "" ∷ []) store).0 ≡ ok 1
unfolding resolve_signals_by_fingerprints filter_where ◌>>=◌ count_where any
resolves_one = refl

abbrev family : ResourceConditionResolutionInput
family = record {
  source = docker;
  type = docker_container_state_changed;
  resource_identity = "web";
  conditions = [];
  condition_prefixes = "unhealth" ∷ [];
  titles = [];
}

ids_differ : Distinct (λ s. s.id) store.signals
ids_differ = (
  (ne-of_test "sig-2" "sig-1" refl, (ne-of_test "sig-3" "sig-1" refl, tt)),
  ((ne-of_test "sig-3" "sig-2" refl, tt), (tt, tt)),
)

resolve_signals_by_resource_condition_family-Resolves_example :
    Resolves
      (is_due "acme" family)
      store
      (resolve_signals_by_resource_condition_family "acme" family store)
resolve_signals_by_resource_condition_family-Resolves_example =
    resolve_signals_by_resource_condition_family-Resolves "acme" family store ids_differ

resolves_three : (resolve_signals_by_resource_condition_family "acme" family store).0 ≡ ok 3
unfolding resolve_signals_by_resource_condition_family filter_where ◌>>=◌ get_field any starts_with
    count_where
resolves_three = refl

abbrev scan : (completed : Bool) → List (String × Option Json) → HistoricalSignalReconciliationInput
scan completed metadata = record {
  source = docker;
  type = docker_container_state_changed;
  observed_fingerprints = " b " ∷ "" ∷ [];
  scope = record {
    resource_node_id = none;
    operation_id = none;
    deployment_id = none;
    project_id = none;
    environment_id = none;
    metadata = metadata;
  };
  scan_completed = completed;
  observed_at = 25;
}

abbrev whole_host : List (String × Option Json)
whole_host = ("condition", some (str "unhealthy")) ∷ ("monitoringScope", none) ∷ []

scans_two :
    (reconcile_historical_signals "acme" (scan true whole_host) store).0
    ≡ ok (completed_result (scan true whole_host) 2 1)
unfolding reconcile_historical_signals ◌>>=◌ any count_where get_field filter_where
scans_two = refl

abbrev filters : SignalFilter
filters = record {
  source = none;
  type = none;
  severity = none;
  status = none;
  resource_node_id = none;
  operation_id = none;
  deployment_id = none;
  project_id = none;
  environment_id = none;
  archived = active_only;
  search = none;
  limit = some 1;
  cursor = none;
  from = none;
  to = none;
}

abbrev never : String → String → Bool
never s t = false

in_order :
    listing never "acme" filters store
    ≡ (row "sig-3" "c" 30 ∷ []) ++ row "sig-2" "b" 20 ∷ row "sig-1" "a" 10 ∷ []
unfolding listing filter_where
in_order = refl

ordered_ids_differ :
    Distinct (λ s. s.id) (row "sig-3" "c" 30 ∷ row "sig-2" "b" 20 ∷ row "sig-1" "a" 10 ∷ [])
ordered_ids_differ = (
  (ne-of_test "sig-2" "sig-3" refl, (ne-of_test "sig-1" "sig-3" refl, tt)),
  ((ne-of_test "sig-1" "sig-2" refl, tt), (tt, tt)),
)

list_signals-loses_example :
    let first = list_signals never "acme" filters store in
    let second = list_signals never "acme" (record filters { cursor = first.next_cursor }) store in
    (first.items ≡ row "sig-3" "c" 30 ∷ [])
    × (first.next_cursor ≡ some "sig-2")
    × (second.items ≡ take 1 (row "sig-1" "a" 10 ∷ []))
list_signals-loses_example =
    list_signals-loses never "acme" filters store (row "sig-3" "c" 30 ∷ []) (row "sig-2" "b" 20)
      (row "sig-1" "a" 10 ∷ []) refl refl in_order ordered_ids_differ refl
