-- ===== src/Incident/Desk.antt =====
-- What apps/api/src/modules/incidents/incident.service.ts reads and writes: the tables of
-- packages/database/prisma/schema.prisma for incidents, their signals and their events.
use auto_ops.Prelude.{
  ℕ, Bool, true, false, ◌&&◌, ◌||◌, String, Option, none, some, List, ◌∷◌, ◌==◌, if◌then◌else◌, any,
  find_first, update_where, holds_text, ◌<>◌,
}
use auto_ops.Errors.{plain, unauthorized_error}
use auto_ops.Exec.{Exec, ok, err, gets, require, ◌>>=◌}
use auto_ops.Organization.{Membership, OrgRole, owner, admin, member, get_organization_role}
use auto_ops.Signal.{SignalSource, SignalType, SignalSeverity, SignalStatus}
use auto_ops.Incident.{IncidentRow, IncidentSignalRow, IncidentEventRow}

pub record User : Type 0 where
  pub id : String
  pub email : String

-- The fields of a resource node that the service reads.
pub record ResourceNode : Type 0 where
  pub urn : String
  pub display_name : String

-- A signal with its resource node, if it has one.
pub record SignalRow : Type 0 where
  pub id : String
  pub organization_id : String
  pub source : SignalSource
  pub type : SignalType
  pub severity : SignalSeverity
  pub status : SignalStatus
  pub title : String
  pub message : String
  pub observed_at : ℕ
  pub archived_at : Option ℕ
  pub resource_node_id : Option String
  pub resource_node : Option ResourceNode
  pub operation_id : Option String
  pub deployment_id : Option String
  pub project_id : Option String
  pub environment_id : Option String

pub record Desk : Type 0 where
  pub memberships : List Membership
  pub users : List User
  pub signals : List SignalRow
  pub incidents : List IncidentRow
  pub links : List IncidentSignalRow
  pub events : List IncidentEventRow

abbrev pub is_incident : (id organization : String) → IncidentRow → Bool
is_incident id organization i = i.id == id && i.organization_id == organization

abbrev pub has_incident_id : String → IncidentRow → Bool
has_incident_id id i = i.id == id

abbrev pub is_link : (incident signal : String) → IncidentSignalRow → Bool
is_link incident signal l = l.incident_id == incident && l.signal_id == signal

abbrev pub update_incidents : (IncidentRow → Bool) → (IncidentRow → IncidentRow) → Desk → Desk
update_incidents p f d = record d { incidents = update_where p f d.incidents }

abbrev pub add_event : IncidentEventRow → Desk → Desk
add_event e d = record d { events = e ∷ d.events }

abbrev pub add_link : IncidentSignalRow → Desk → Desk
add_link l d = record d { links = l ∷ d.links }

abbrev pub same_operation : Option String → IncidentRow → Bool
same_operation none i = false
same_operation (some operation) i = holds_text i.operation_id operation

-- An insert that the primary key or the unique `operationId` may refuse.
unfoldable pub insert_incident : IncidentRow → Exec Desk (Unit {0})
insert_incident row d =
    if any (has_incident_id row.id) d.incidents || any (same_operation row.operation_id) d.incidents
    then (err (plain "Unique constraint failed"), d)
    else (ok tt, record d { incidents = row ∷ d.incidents })

-- `_getUserInfo`'s email.
abbrev email_of : Option User → String
email_of none = "unknown"
email_of (some u) = u.email

abbrev pub user_email : String → Desk → String
user_email user d = email_of (find_first (λ u. u.id == user) d.users)

-- The actions that `_requirePermission` knows.
pub data IncidentAction : Type 0 where
  acknowledge_action resolve_action archive_action add_note_action : IncidentAction

abbrev pub action_name : IncidentAction → String
action_name acknowledge_action = "acknowledge"
action_name resolve_action = "resolve"
action_name archive_action = "archive"
action_name add_note_action = "add_note"

unfoldable pub is_permitted : IncidentAction → Option OrgRole → Bool
is_permitted archive_action (some owner) = true
is_permitted archive_action (some admin) = true
is_permitted archive_action _ = false
is_permitted action (some owner) = true
is_permitted action (some admin) = true
is_permitted action (some member) = true
is_permitted action _ = false

-- `_requirePermission`
unfoldable pub require_permission :
    (organization user : String) → IncidentAction → Exec Desk (Unit {0})
unfolding get_organization_role
require_permission organization user action = do
  role ← gets (λ d. get_organization_role d.memberships organization user)
  require (is_permitted action role)
      (unauthorized_error ("You do not have permission to " <> action_name action <> " incidents."))
