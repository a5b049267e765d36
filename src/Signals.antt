-- ===== src/Signals.antt =====
-- apps/api/src/modules/signals/signal.service.ts: `ingestSignal`, `ingestSignals` and
-- `buildSignalFingerprint`. SHA-256 is an argument, and so is the text of a metadata value that is no
-- text, Boolean or natural number.
pub mod Table
pub mod Ingestion
pub mod Resolution
pub mod Reconciliation
pub mod Listing
mod Tests
use auto_ops.Prelude.{
  ℕ, ◌+◌, ◌/◌, Bool, true, false, not, ◌&&◌, ◌||◌, String, Option, none, some, List, [], ◌∷◌, ◌++◌,
  ◌==◌, ◌<>◌, if◌then◌else◌, any, find_first, update_where, is_truthy, is_empty, is_some, get_or,
  trim, join, take_units, nat_eq, zero,
}
use auto_ops.Prelude.Decimal.{decimal}
use auto_ops.Errors.{Thrown}
use auto_ops.Exec.{Exec, ok, err, pure, throw, gets, or_throw, modify, catch, ◌>>=◌, ◌>>◌}
use auto_ops.Json.{Json, null, bool, num, str, arr, obj, Fields, get_field, JsNumber, finite}
use auto_ops.Metadata.{sanitize_metadata}
use auto_ops.Signal.{
  SignalIngestInput, SignalSource, SignalType, SignalSeverity, SignalStatus, DedupeMode, dedupe,
  event, source_name, type_name, severity_name, active,
}

-- A row of `model ResourceSignal`. `labels` is absent where the column holds null.
pub record ResourceSignal : Type 0 where
  pub id : String
  pub organization_id : String
  pub resource_node_id : Option String
  pub operation_id : Option String
  pub deployment_id : Option String
  pub project_id : Option String
  pub environment_id : Option String
  pub source : SignalSource
  pub type : SignalType
  pub severity : SignalSeverity
  pub status : SignalStatus
  pub title : String
  pub message : String
  pub fingerprint : String
  pub metadata : Fields
  pub labels : Option Fields
  pub observed_at : ℕ
  pub first_seen_at : ℕ
  pub last_seen_at : ℕ
  pub count : ℕ
  pub archived_at : Option ℕ

-- The columns of a resource node that the service asks for.
pub record NodeRow : Type 0 where
  pub id : String
  pub organization_id : String

pub record SignalStore : Type 0 where
  pub nodes : List NodeRow
  pub signals : List ResourceSignal

abbrev pub is_node : (id organization : String) → NodeRow → Bool
is_node id organization n = n.id == id && n.organization_id == organization

-- The unique key of the table.
abbrev pub has_fingerprint : (organization fingerprint : String) → ResourceSignal → Bool
has_fingerprint organization fingerprint s =
    s.organization_id == organization && s.fingerprint == fingerprint

-- Whether a value counts as true in a test.
abbrev truthy : Option Json → Bool
truthy none = false
truthy (some null) = false
truthy (some (bool b)) = b
truthy (some (num (finite negative m e))) = not (nat_eq m 0)
truthy (some (num JsNumber.nan)) = false
truthy (some (str s)) = not (is_empty s)
truthy (some _) = true

abbrev string_of_bool : Bool → String
string_of_bool true = "true"
string_of_bool false = "false"

-- `String(value)`
abbrev string_of : (Json → String) → Json → String
string_of other (str s) = s
string_of other (bool b) = string_of_bool b
string_of other (num (finite false n zero)) = decimal n
string_of other v = other v

-- `input.metadata?.[key] ? String(input.metadata[key]) : absent`
abbrev string_or : (Json → String) → Option Json → String → String
string_or other none absent = absent
string_or other (some v) absent = if truthy (some v) then string_of other v else absent

-- `_metadataString`
abbrev metadata_string : Option Json → Option String
metadata_string (some (str s)) = if is_empty (trim s) then none else some s
metadata_string _ = none

-- Nothing tells one occurrence of an event from another.
abbrev is_anonymous : SignalIngestInput → Bool
is_anonymous input =
    not (is_truthy input.operation_id)
    && not (is_truthy input.deployment_id)
    && not (truthy (get_field "buildNumber" input.metadata))
    && not (truthy (get_field "eventId" input.metadata))

-- The parts of an occurrence, with a bucket of one second where nothing else tells it.
event_parts : (Json → String) → (clock : ℕ) → SignalIngestInput → List String
event_parts other clock input =
    get_or input.operation_id "no-op"
    ∷ get_or input.deployment_id "no-deploy"
    ∷ string_or other (get_field "buildNumber" input.metadata) "no-build"
    ∷ string_or other (get_field "eventId" input.metadata) "no-event"
    ∷ (if is_anonymous input then decimal (get_or input.observed_at clock / 1000) ∷ [] else [])

-- The parts of a continuing condition.
dedupe_parts : SignalIngestInput → List String
dedupe_parts input =
    severity_name input.severity
    ∷ get_or (metadata_string (get_field "resourceIdentity" input.metadata)) "no-resource-identity"
    ∷ get_or (metadata_string (get_field "condition" input.metadata)) (take_units 100 input.title)
    ∷ []

abbrev mode_parts : (Json → String) → (clock : ℕ) → SignalIngestInput → DedupeMode → List String
mode_parts other clock input event = event_parts other clock input
mode_parts other clock input dedupe = dedupe_parts input

pub build_signal_fingerprint :
    (sha256 : String → String)
    → (Json → String)
    → (clock : ℕ) (organization : String) → SignalIngestInput
    → DedupeMode
    → String
build_signal_fingerprint sha256 other clock organization input mode = sha256 (
    join "|" (
      organization
      ∷ source_name input.source
      ∷ type_name input.type
      ∷ get_or input.resource_node_id "none"
      ∷ mode_parts other clock input mode))

abbrev pub drops : (organization : String) → List NodeRow → SignalIngestInput → Bool
drops organization nodes input =
    is_truthy input.resource_node_id
    && not (any (is_node (get_or input.resource_node_id "") organization) nodes)

-- The link to a resource node of another organization, or of none, is dropped.
abbrev pub checked_input :
    (organization : String) → List NodeRow → SignalIngestInput → SignalIngestInput
checked_input organization nodes input =
    if drops organization nodes input then record input { resource_node_id = none } else input

abbrev sanitized_labels : Option Fields → Option Fields
sanitized_labels none = none
sanitized_labels (some fs) = some (sanitize_metadata (obj fs))

-- `create`
abbrev pub new_signal :
    (id : String) (now : ℕ) (organization fingerprint : String) → SignalIngestInput → ResourceSignal
new_signal id now organization fingerprint input = record {
  id = id;
  organization_id = organization;
  resource_node_id = input.resource_node_id;
  operation_id = input.operation_id;
  deployment_id = input.deployment_id;
  project_id = input.project_id;
  environment_id = input.environment_id;
  source = input.source;
  type = input.type;
  severity = input.severity;
  status = active;
  title = input.title;
  message = input.message;
  fingerprint = fingerprint;
  metadata = sanitize_metadata (obj input.metadata);
  labels = sanitized_labels input.labels;
  observed_at = get_or input.observed_at now;
  first_seen_at = now;
  last_seen_at = now;
  count = 1;
  archived_at = none;
}

abbrev pub raised : DedupeMode → ℕ → ℕ
raised dedupe n = n + 1
raised event n = n

abbrev kept_labels : Option Fields → Option Fields → Option Fields
kept_labels none old = old
kept_labels (some fs) old = some (sanitize_metadata (obj fs))

-- `update`
abbrev pub seen_again : (now : ℕ) → DedupeMode → SignalIngestInput → ResourceSignal → ResourceSignal
seen_again now mode input s = record s {
  last_seen_at = now;
  observed_at = get_or input.observed_at now;
  count = raised mode s.count;
  metadata = sanitize_metadata (obj input.metadata);
  labels = kept_labels input.labels s.labels;
  status = active;
  archived_at = none;
}

abbrev upsert_found :
    (organization fingerprint : String)
    → ResourceSignal
    → (ResourceSignal → ResourceSignal)
    → Option ResourceSignal
    → Exec SignalStore ResourceSignal
upsert_found organization fingerprint row update none =
    modify (λ w. record w { signals = row ∷ w.signals }) >> pure row
upsert_found organization fingerprint row update (some s) =
    modify (λ w. record w {
      signals = update_where (has_fingerprint organization fingerprint) update w.signals;
    })
    >> pure (update s)

-- `upsert` by the unique key; the row that is stored. It is one statement of the database.
pub upsert_signal :
    (organization fingerprint : String)
    → ResourceSignal
    → (ResourceSignal → ResourceSignal)
    → Exec SignalStore ResourceSignal
upsert_signal organization fingerprint row update = do
  found ← gets (λ w. find_first (has_fingerprint organization fingerprint) w.signals)
  upsert_found organization fingerprint row update found

-- A signal as it comes in: its input, the times at which it is handled, the identifier that the database
-- would give it, and what the database throws, if it does.
pub record Arrival : Type 0 where
  pub input : SignalIngestInput
  pub now : ℕ
  pub clock : ℕ
  pub id : String
  pub broken : Option Thrown

abbrev pub unless_broken :
    Option Thrown → Exec SignalStore ResourceSignal → Exec SignalStore ResourceSignal
unless_broken none m = m
unless_broken (some e) m = throw e

abbrev pub mode_of : SignalIngestInput → DedupeMode
mode_of input = get_or input.dedupe_mode dedupe

module _ (sha256 : String → String) (other : Json → String) (organization : String) where
  -- The key under which an arrival is stored.
  abbrev pub fingerprint_of : List NodeRow → Arrival → String
  fingerprint_of nodes a =
      let input = checked_input organization nodes a.input in
      build_signal_fingerprint sha256 other a.clock organization input (mode_of input)

  abbrev pub upsert_arrival :
      (fingerprint : String) → Arrival → SignalIngestInput → Exec SignalStore ResourceSignal
  upsert_arrival fingerprint a input =
      upsert_signal organization fingerprint (new_signal a.id a.now organization fingerprint input)
        (seen_again a.now (mode_of input) input)

  -- `ingestSignal`
  pub ingest_signal : Arrival → Exec SignalStore ResourceSignal
  ingest_signal a = do
    nodes ← gets (λ w. w.nodes)
    unless_broken a.broken
        (upsert_arrival (fingerprint_of nodes a) a (checked_input organization nodes a.input))

  -- `ingestSignals`: an arrival that throws is left out, and the loop goes on.
  pub ingest_signals : List Arrival → Exec SignalStore (List ResourceSignal)
  ingest_signals [] = pure []
  ingest_signals (a ∷ arrivals) = do
    stored ← catch (ingest_signal a >>= λ s. pure (s ∷ [])) (λ _. pure [])
    rest ← ingest_signals arrivals
    pure (stored ++ rest)
