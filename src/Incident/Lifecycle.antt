-- ===== src/Incident/Lifecycle.antt =====
-- incident.service.ts: `acknowledgeIncident`, `resolveIncident`, `archiveIncident` and
-- `addIncidentNote`. A row is returned as it is stored; `IncidentMapper.toDetail` only renames it.
pub mod Laws
mod Tests
use auto_ops.Prelude.{
  ℕ, Bool, true, false, not, ◌&&◌, String, Option, none, some, find_first, is_some, ◌<>◌,
}
use auto_ops.Errors.{plain, not_found_error, bad_request_error}
use auto_ops.Json.{Fields, end, field, str}
use auto_ops.Exec.{Exec, pure, gets, or_throw, modify, require, ◌>>=◌, ◌>>◌}
use auto_ops.Incident.{
  IncidentRow, IncidentStatus, IncidentEventRow, IncidentEventType, opened, acknowledged, resolved,
  archived,
}
use auto_ops.Incident.Desk.{
  Desk, IncidentAction, acknowledge_action, resolve_action, archive_action, add_note_action,
  require_permission, is_incident, has_incident_id, update_incidents, add_event, user_email,
}

abbrev pub status_name : IncidentStatus → String
status_name opened = "OPEN"
status_name acknowledged = "ACKNOWLEDGED"
status_name resolved = "RESOLVED"
status_name archived = "ARCHIVED"

abbrev is_opened : IncidentStatus → Bool
is_opened opened = true
is_opened _ = false

abbrev is_resolved : IncidentStatus → Bool
is_resolved resolved = true
is_resolved _ = false

abbrev is_archived : IncidentStatus → Bool
is_archived archived = true
is_archived _ = false

abbrev actor_event :
    IncidentEventType
    → (now : ℕ) (organization incident user email title message : String) → Fields
    → IncidentEventRow
actor_event type now organization incident user email title message metadata = record {
  organization_id = organization;
  incident_id = incident;
  type = type;
  actor_user_id = some user;
  actor_user_email = some email;
  title = title;
  message = message;
  metadata = metadata;
  occurred_at = now;
}

-- The event that tells a change of status.
abbrev status_event :
    (previous new : IncidentStatus) (now : ℕ) (organization incident user email : String)
    → IncidentEventRow
status_event previous new now organization incident user email =
    actor_event IncidentEventType.status_changed now organization incident user email
      ("Status changed to " <> status_name new)
      ("Status transitioned from "
        <> status_name previous
        <> " to "
        <> status_name new
        <> " by "
        <> email)
      (field "previousStatus" (str (status_name previous))
        (field "newStatus" (str (status_name new)) end))

-- The transaction that the three handlers share: the update and its two events.
transition :
    (id : String)
    → (IncidentRow → IncidentRow)
    → (told changed : IncidentEventRow) → Exec Desk IncidentRow
transition id f told changed = do
  found ← gets (λ d. find_first (has_incident_id id) d.incidents)
  stored ← or_throw found (plain "No record was found for an update.")
  modify (update_incidents (has_incident_id id) f)
  modify (add_event told)
  modify (add_event changed)
  pure (f stored)

abbrev pub acknowledge_row : (now : ℕ) (user : String) → IncidentRow → IncidentRow
acknowledge_row now user i = record i {
  status = IncidentStatus.acknowledged;
  acknowledged_by = some user;
  acknowledged_at = some now;
}

abbrev pub resolve_row : (now : ℕ) (user : String) → IncidentRow → IncidentRow
resolve_row now user i = record i {
  status = IncidentStatus.resolved;
  resolved_by = some user;
  resolved_at = some now;
}

-- The status stays what it was.
abbrev pub archive_row : (now : ℕ) → IncidentRow → IncidentRow
archive_row now i = record i { archived_at = some now }

abbrev told_acknowledged : (now : ℕ) (organization user incident email : String) → IncidentEventRow
told_acknowledged now organization user incident email =
    actor_event IncidentEventType.acknowledged now organization incident user email
      "Incident acknowledged" ("Acknowledged by " <> email) end

pub acknowledge_incident : (now : ℕ) (organization user id : String) → Exec Desk IncidentRow
acknowledge_incident now organization user id = do
  require_permission organization user acknowledge_action
  found ← gets (λ d. find_first (is_incident id organization) d.incidents)
  incident ← or_throw found (not_found_error "Incident")
  require (is_opened incident.status) (bad_request_error "Only open incidents can be acknowledged.")
  email ← gets (user_email user)
  transition id (acknowledge_row now user) (told_acknowledged now organization user id email) (
      status_event IncidentStatus.opened IncidentStatus.acknowledged now organization id user email)

abbrev told_resolved : (now : ℕ) (organization user incident email : String) → IncidentEventRow
told_resolved now organization user incident email =
    actor_event IncidentEventType.resolved now organization incident user email "Incident resolved"
      ("Resolved by " <> email) end

pub resolve_incident : (now : ℕ) (organization user id : String) → Exec Desk IncidentRow
resolve_incident now organization user id = do
  require_permission organization user resolve_action
  found ← gets (λ d. find_first (is_incident id organization) d.incidents)
  incident ← or_throw found (not_found_error "Incident")
  require (not (is_resolved incident.status)) (bad_request_error "Incident is already resolved.")
  require (not (is_archived incident.status))
      (bad_request_error "Archived incidents cannot be resolved.")
  email ← gets (user_email user)
  transition id (resolve_row now user) (told_resolved now organization user id email)
      (status_event incident.status IncidentStatus.resolved now organization id user email)

abbrev told_archived : (now : ℕ) (organization user incident email : String) → IncidentEventRow
told_archived now organization user incident email =
    actor_event IncidentEventType.archived now organization incident user email "Incident archived"
      ("Archived by " <> email) end

pub archive_incident : (now : ℕ) (organization user id : String) → Exec Desk IncidentRow
archive_incident now organization user id = do
  require_permission organization user archive_action
  found ← gets (λ d. find_first (is_incident id organization) d.incidents)
  incident ← or_throw found (not_found_error "Incident")
  require (not (is_some incident.archived_at)) (bad_request_error "Incident is already archived.")
  email ← gets (user_email user)
  transition id (archive_row now) (told_archived now organization user id email)
      (status_event incident.status IncidentStatus.archived now organization id user email)

-- `addIncidentNote` up to the timeline that it returns.
pub add_incident_note : (now : ℕ) (organization user id message : String) → Exec Desk (Unit {0})
add_incident_note now organization user id message = do
  require_permission organization user add_note_action
  found ← gets (λ d. find_first (is_incident id organization) d.incidents)
  or_throw found (not_found_error "Incident")
  email ← gets (user_email user)
  modify (
      add_event (
        actor_event IncidentEventType.note_added now organization id user email
          "Operator note added" message end))
