-- ===== src/Signals/Reconciliation.antt =====
-- signal.service.ts: `reconcileHistoricalSignals` and its `_historicalReconciliationWhere`.
pub mod Laws
use auto_ops.Prelude.{
  ℕ, ◌*◌, ◌^◌, Bool, true, false, not, ◌&&◌, ◌||◌, String, Option, none, some, List, [], ◌∷◌, map,
  ◌==◌, ◌<>◌, if◌then◌else◌, leb, nat_eq, any, count_where, is_empty, is_some, length, trim,
}
use auto_ops.Errors.{bad_request_error}
use auto_ops.Exec.{Exec, pure, throw, gets, require, ◌>>=◌, ◌>>◌}
use auto_ops.Json.{Json, null, bool, num, str, JsNumber, finite, get_field}
use auto_ops.Signal.{SignalSource, SignalType, source_name, type_name}
use auto_ops.Signals.{SignalStore, ResourceSignal}
use auto_ops.Signals.Resolution.{is_in, distinct, non_empty, update_many, is_open, resolve_row}

-- A property that may be undefined, null or a text.
abbrev pub Scoped : Type 0
Scoped = Option (Option String)

-- `scope`; the entries of its metadata are in order, and one that is undefined has no value.
pub record SignalReconciliationScope : Type 0 where
  pub resource_node_id : Scoped
  pub operation_id : Scoped
  pub deployment_id : Scoped
  pub project_id : Scoped
  pub environment_id : Scoped
  pub metadata : List (String × Option Json)

pub record HistoricalSignalReconciliationInput : Type 0 where
  pub source : SignalSource
  pub type : SignalType
  pub observed_fingerprints : List String
  pub scope : SignalReconciliationScope
  pub scan_completed : Bool
  pub observed_at : ℕ

pub record HistoricalSignalReconciliationResult : Type 0 where
  pub scanned : ℕ
  pub observed : ℕ
  pub resolved : ℕ
  pub skipped : Bool
  pub reason : Option String

-- `SIGNAL_RECONCILIATION_METADATA_SCOPE_KEYS`
abbrev pub scope_keys : List String
scope_keys = "condition" ∷ "monitoringScope" ∷ "resourceIdentity" ∷ []

abbrev same_text : Option String → Option String → Bool
same_text none none = true
same_text (some s) (some t) = s == t
same_text _ _ = false

-- A filter that is left out where the property is undefined.
abbrev in_scope : Scoped → Option String → Bool
in_scope none column = true
in_scope (some wanted) column = same_text wanted column

abbrev same_sign : Bool → Bool → Bool
same_sign true b = b
same_sign false b = not b

-- Equal numbers: the same sign and size, or zero.
abbrev same_number : JsNumber → JsNumber → Bool
same_number (finite a m e) (finite b n d) =
    nat_eq (m * 2 ^ d) (n * 2 ^ e) && (same_sign a b || nat_eq m 0)
same_number _ _ = false

-- `equals` between a column's value at a path and a text, number, Boolean or null.
abbrev same_value : Option Json → Json → Bool
same_value (some null) null = true
same_value (some (bool true)) (bool b) = b
same_value (some (bool false)) (bool b) = not b
same_value (some (num m)) (num n) = same_number m n
same_value (some (str s)) (str t) = s == t
same_value _ _ = false

abbrev pub has_value : ResourceSignal → String × Option Json → Bool
has_value s (key, none) = true
has_value s (key, some v) = same_value (get_field key s.metadata) v

-- `where.AND`
abbrev all_hold : List (String × Option Json) → ResourceSignal → Bool
all_hold [] s = true
all_hold (entry ∷ entries) s = has_value s entry && all_hold entries s

-- The open signals that a scan was to see.
abbrev pub is_scanned :
    (organization : String) → HistoricalSignalReconciliationInput → ResourceSignal → Bool
is_scanned organization input s =
    s.organization_id == organization
    && source_name s.source == source_name input.source
    && type_name s.type == type_name input.type
    && is_open s.status
    && not (is_some s.archived_at)
    && leb s.last_seen_at input.observed_at
    && in_scope input.scope.resource_node_id s.resource_node_id
    && in_scope input.scope.operation_id s.operation_id
    && in_scope input.scope.deployment_id s.deployment_id
    && in_scope input.scope.project_id s.project_id
    && in_scope input.scope.environment_id s.environment_id
    && all_hold input.scope.metadata s

-- The first key of the metadata's scope that is not supported.
unfoldable pub unsupported_key : List (String × Option Json) → Option String
unfolding is_in
unsupported_key [] = none
unsupported_key ((key, value) ∷ entries) =
    if is_in scope_keys key then unsupported_key entries else some key

-- The fingerprints that the scan observed, trimmed, each once, without the blank ones.
unfoldable pub observed_of : HistoricalSignalReconciliationInput → List String
unfolding distinct trim
observed_of input = distinct (non_empty (map trim input.observed_fingerprints))

abbrev require_supported : Option String → Exec SignalStore (Unit {0})
require_supported none = pure tt
require_supported (some key) =
    throw (bad_request_error ("Unsupported signal reconciliation metadata scope: " <> key))

-- The signals that the scan did not see again.
abbrev pub is_stale :
    (organization : String) → HistoricalSignalReconciliationInput → ResourceSignal → Bool
is_stale organization input s =
    is_scanned organization input s && not (is_in (observed_of input) s.fingerprint)

abbrev pub skipped_result :
    HistoricalSignalReconciliationInput → HistoricalSignalReconciliationResult
skipped_result input = record {
  scanned = 0;
  observed = length (observed_of input);
  resolved = 0;
  skipped = true;
  reason = some "scan_not_completed";
}

abbrev pub completed_result :
    HistoricalSignalReconciliationInput
    → (scanned resolved : ℕ) → HistoricalSignalReconciliationResult
completed_result input scanned resolved = record {
  scanned = scanned;
  observed = length (observed_of input);
  resolved = resolved;
  skipped = false;
  reason = none;
}

-- The count and the update are one transaction.
unfoldable pub reconcile_historical_signals :
    (organization : String)
    → HistoricalSignalReconciliationInput
    → Exec SignalStore HistoricalSignalReconciliationResult
unfolding update_many unsupported_key observed_of is_in
reconcile_historical_signals organization input =
    if not input.scan_completed then pure (skipped_result input) else do
      require_supported (unsupported_key input.scope.metadata)
      scanned ← gets (λ w. count_where (is_scanned organization input) w.signals)
      resolved ← update_many (is_stale organization input) resolve_row
      pure (completed_result input scanned resolved)
