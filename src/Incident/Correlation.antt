-- ===== src/Incident/Correlation.antt =====
-- incident.service.ts: `correlateSignal`, which links a signal to the open incident of its correlation
-- key, or opens one.
pub mod Laws
pub mod Counted
pub mod Blocked
mod Tests
use auto_ops.Prelude.{
  ℕ, ◌+◌, Bool, true, false, not, ◌&&◌, ◌||◌, String, Option, none, some, ◌==◌, ◌<>◌, if◌then◌else◌,
  ltb, any, find_first, is_some, is_truthy, get_or,
}
use auto_ops.Errors.{plain}
use auto_ops.Json.{Fields, end, field, str}
use auto_ops.Exec.{Exec, pure, gets, or_throw, modify, ◌>>=◌, ◌>>◌}
use auto_ops.Signal.{SignalType, SignalSeverity, source_name, type_name, severity_name}
use auto_ops.Signal.{
  kubernetes_pod_phase_changed, kubernetes_restart_count_changed, docker_container_state_changed,
  jenkins_build_started, jenkins_build_succeeded, jenkins_build_failed, provider_unreachable,
  provider_auth_failed, info, warning, error, critical,
}
use auto_ops.Incident.{
  IncidentRow, IncidentSignalRow, IncidentEventRow, IncidentSeverity, IncidentStatus,
  IncidentSource, IncidentSignalRole, IncidentEventType, opened, acknowledged,
}
use auto_ops.Incident.Desk.{
  Desk, SignalRow, ResourceNode, has_incident_id, is_link, add_event, add_link, update_incidents,
  insert_incident,
}

-- `_groupType`: the types whose name starts with a provider's are grouped.
unfoldable pub group_type : SignalType → String
group_type kubernetes_pod_phase_changed = "kubernetes-context"
group_type kubernetes_restart_count_changed = "kubernetes-context"
group_type docker_container_state_changed = "docker-context"
group_type jenkins_build_started = "jenkins-context"
group_type jenkins_build_succeeded = "jenkins-context"
group_type jenkins_build_failed = "jenkins-context"
group_type type = type_name type

abbrev pub is_connectivity : SignalType → Bool
is_connectivity provider_unreachable = true
is_connectivity provider_auth_failed = true
is_connectivity _ = false

abbrev urn_of : Option ResourceNode → Option String
urn_of none = none
urn_of (some node) = some node.urn

-- `resourceNodeId || resourceNode?.urn || 'no-resource'`
abbrev resource_part : SignalRow → String
resource_part s =
    if is_truthy s.resource_node_id
    then get_or s.resource_node_id ""
    else if is_truthy (urn_of s.resource_node)
    then get_or (urn_of s.resource_node) ""
    else "no-resource"

unfoldable pub build_correlation_key : SignalRow → String
unfolding group_type
build_correlation_key s =
    if is_connectivity s.type
    then "provider-connectivity:" <> source_name s.source
    else if is_truthy s.operation_id
    then "operation:" <> get_or s.operation_id ""
    else if is_truthy s.deployment_id
    then "deployment:" <> get_or s.deployment_id ""
    else source_name s.source <> ":" <> group_type s.type <> ":" <> resource_part s

-- `_deriveTitle`
abbrev title_with : Option ResourceNode → String → String
title_with none title = title
title_with (some node) title = node.display_name <> ": " <> title

-- `_mapSeverity`
unfoldable pub map_severity : SignalSeverity → IncidentSeverity
map_severity critical = IncidentSeverity.critical
map_severity error = IncidentSeverity.error
map_severity warning = IncidentSeverity.warning
map_severity info = IncidentSeverity.info

abbrev pub rank : IncidentSeverity → ℕ
rank IncidentSeverity.info = 0
rank IncidentSeverity.warning = 1
rank IncidentSeverity.error = 2
rank IncidentSeverity.critical = 3

-- `_escalateSeverity`
unfoldable pub escalate_severity : IncidentSeverity → SignalSeverity → IncidentSeverity
unfolding map_severity
escalate_severity current incoming =
    let mapped = map_severity incoming in
    if ltb (rank current) (rank mapped) then mapped else current

pub data CorrelationAction : Type 0 where
  created updated skipped : CorrelationAction

abbrev is_active : IncidentStatus → Bool
is_active opened = true
is_active acknowledged = true
is_active _ = false

-- The open incident of a key.
abbrev pub is_open_for : (organization key : String) → IncidentRow → Bool
is_open_for organization key i =
    i.organization_id == organization
    && i.correlation_key == key
    && is_active i.status
    && not (is_some i.archived_at)

abbrev pub is_signal : (id organization : String) → SignalRow → Bool
is_signal id organization s = s.id == id && s.organization_id == organization

abbrev correlation_event :
    IncidentEventType
    → (now : ℕ) (organization incident title message : String) → Fields
    → IncidentEventRow
correlation_event type now organization incident title message metadata = record {
  organization_id = organization;
  incident_id = incident;
  type = type;
  actor_user_id = none;
  actor_user_email = none;
  title = title;
  message = message;
  metadata = metadata;
  occurred_at = now;
}

abbrev incident_severity_name : IncidentSeverity → String
incident_severity_name IncidentSeverity.info = "INFO"
incident_severity_name IncidentSeverity.warning = "WARNING"
incident_severity_name IncidentSeverity.error = "ERROR"
incident_severity_name IncidentSeverity.critical = "CRITICAL"

abbrev same_severity : IncidentSeverity → IncidentSeverity → Bool
same_severity a b = incident_severity_name a == incident_severity_name b

abbrev pub link_row :
    (organization incident : String) → SignalRow → IncidentSignalRole → IncidentSignalRow
link_row organization incident s role = record {
  organization_id = organization;
  incident_id = incident;
  signal_id = s.id;
  role = role;
}

-- One more signal: the count grows by one.
abbrev pub extend_row :
    SignalRow → (existing : IncidentRow) → (severity : IncidentSeverity) → IncidentRow → IncidentRow
extend_row s existing severity i = record i {
  signal_count = i.signal_count + 1;
  last_observed_at =
      if ltb existing.last_observed_at s.observed_at then s.observed_at else i.last_observed_at;
  severity = severity;
}

abbrev pub new_incident : (now : ℕ) (id organization : String) → SignalRow → IncidentRow
new_incident now id organization s = record {
  id = id;
  organization_id = organization;
  title = title_with s.resource_node s.title;
  summary = "Correlated from signal: " <> s.title <> ". " <> s.message;
  severity = map_severity s.severity;
  status = IncidentStatus.opened;
  source = IncidentSource.signal_correlation;
  correlation_key = build_correlation_key s;
  primary_resource_node_id = s.resource_node_id;
  project_id = s.project_id;
  environment_id = s.environment_id;
  deployment_id = s.deployment_id;
  operation_id = s.operation_id;
  signal_count = 1;
  first_observed_at = s.observed_at;
  last_observed_at = s.observed_at;
  opened_at = now;
  acknowledged_by = none;
  acknowledged_at = none;
  resolved_by = none;
  resolved_at = none;
  archived_at = none;
  metadata =
      field "source" (str (source_name s.source))
        (field "type" (str (type_name s.type)) (field "rule" (str "DETERMINISTIC_V1") end));
}

abbrev signal_metadata : SignalRow → Fields
signal_metadata s = field "signalId" (str s.id) (
    field "signalType" (str (type_name s.type))
      (field "signalSource" (str (source_name s.source)) end))

abbrev linked_metadata : SignalRow → Fields → Fields
linked_metadata s rest = field "signalId" (str s.id) (
    field "signalType" (str (type_name s.type))
      (field "signalSeverity" (str (severity_name s.severity)) rest))

abbrev severity_event :
    (now : ℕ) (organization incident : String) (previous new : IncidentSeverity) → IncidentEventRow
severity_event now organization incident previous new =
    correlation_event IncidentEventType.severity_changed now organization incident
      ("Severity escalated to " <> incident_severity_name new)
      ("Severity changed from "
        <> incident_severity_name previous
        <> " to "
        <> incident_severity_name new
        <> " due to incoming signal")
      (field "previousSeverity" (str (incident_severity_name previous))
        (field "newSeverity" (str (incident_severity_name new)) end))

-- The transaction that links a signal to an incident that exists.
unfoldable pub link_signal :
    (now : ℕ) (organization : String)
    → SignalRow
    → (existing : IncidentRow) → Exec Desk CorrelationAction
link_signal now organization s existing =
    let severity = escalate_severity existing.severity s.severity in
    do
      modify (add_link (link_row organization existing.id s IncidentSignalRole.related))
      modify (update_incidents (has_incident_id existing.id) (extend_row s existing severity))
      modify (
          add_event (
            correlation_event IncidentEventType.incident_updated now organization existing.id
              "Incident updated by correlation" ("New signal linked: " <> s.title)
              (signal_metadata s)))
      modify (
          add_event (
            correlation_event IncidentEventType.signal_linked now organization existing.id
              ("Signal linked: " <> s.title)
              ("Signal " <> s.id <> " (" <> type_name s.type <> ") linked as RELATED evidence")
              (linked_metadata s end)))
      if same_severity existing.severity severity
          then pure tt
          else modify
              (add_event (severity_event now organization existing.id existing.severity severity))
      pure updated

-- The transaction that opens an incident for a signal.
unfoldable pub open_incident :
    (now : ℕ) (id organization : String) → SignalRow → Exec Desk CorrelationAction
open_incident now id organization s = do
  insert_incident (new_incident now id organization s)
  modify (add_link (link_row organization id s IncidentSignalRole.trigger))
  modify (
      add_event (
        correlation_event IncidentEventType.incident_opened now organization id "Incident opened"
          ("Incident created by deterministic signal correlation from: " <> s.title)
          (field "correlationKey" (str (build_correlation_key s)) (
            field "signalId" (str s.id) (
              field "signalType" (str (type_name s.type)) (
                field "signalSource" (str (source_name s.source))
                  (field "rule" (str "DETERMINISTIC_V1") end)))))))
  modify (
      add_event (
        correlation_event IncidentEventType.signal_linked now organization id
          ("Trigger signal linked: " <> s.title)
          ("Signal " <> s.id <> " (" <> type_name s.type <> ") linked as TRIGGER evidence")
          (linked_metadata s (field "role" (str "TRIGGER") end))))
  pure created

unfoldable pub correlate_with :
    (now : ℕ) (id organization : String)
    → SignalRow
    → (existing : Option IncidentRow) → Exec Desk CorrelationAction
correlate_with now id organization s (some existing) = do
  linked ← gets (λ d. any (is_link existing.id s.id) d.links)
  if linked then pure skipped else link_signal now organization s existing
correlate_with now id organization s none = open_incident now id organization s

unfoldable pub correlate_found :
    (now : ℕ) (id organization : String) → Option SignalRow → Exec Desk CorrelationAction
correlate_found now id organization none = pure skipped
correlate_found now id organization (some s) = do
  existing ← gets (λ d. find_first (is_open_for organization (build_correlation_key s)) d.incidents)
  correlate_with now id organization s existing

-- `correlateSignal`; `id` is the fresh identifier of an incident that it may open.
unfoldable pub correlate_signal :
    (now : ℕ) (id organization signal : String) → Exec Desk CorrelationAction
correlate_signal now id organization signal = do
  found ← gets (λ d. find_first (is_signal signal organization) d.signals)
  correlate_found now id organization found
