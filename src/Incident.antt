-- ===== src/Incident.antt =====
-- packages/types/src/enums.ts and packages/database/prisma/schema.prisma: incidents, the signals that
-- are linked to them and the events of their history.
pub mod Desk
pub mod Lifecycle
pub mod Correlation
pub mod Sweep
pub mod Listing
use auto_ops.Prelude.{ℕ, String, Option}
use auto_ops.Json.{Fields}

pub data IncidentSeverity : Type 0 where
  info warning error critical : IncidentSeverity

pub data IncidentStatus : Type 0 where
  opened acknowledged resolved archived : IncidentStatus

pub data IncidentSource : Type 0 where
  signal_correlation manual system : IncidentSource

pub data IncidentSignalRole : Type 0 where
  trigger related evidence : IncidentSignalRole

pub data IncidentEventType : Type 0 where
  incident_opened incident_updated signal_linked severity_changed status_changed acknowledged
        resolved archived note_added correlation_ran evidence_added :
      IncidentEventType

pub record IncidentRow : Type 0 where
  pub id : String
  pub organization_id : String
  pub title : String
  pub summary : String
  pub severity : IncidentSeverity
  pub status : IncidentStatus
  pub source : IncidentSource
  pub correlation_key : String
  pub primary_resource_node_id : Option String
  pub project_id : Option String
  pub environment_id : Option String
  pub deployment_id : Option String
  pub operation_id : Option String
  pub signal_count : ℕ
  pub first_observed_at : ℕ
  pub last_observed_at : ℕ
  pub opened_at : ℕ
  pub acknowledged_by : Option String
  pub acknowledged_at : Option ℕ
  pub resolved_by : Option String
  pub resolved_at : Option ℕ
  pub archived_at : Option ℕ
  pub metadata : Fields

pub record IncidentSignalRow : Type 0 where
  pub organization_id : String
  pub incident_id : String
  pub signal_id : String
  pub role : IncidentSignalRole

-- The metadata is what was handed to `sanitizeMetadata`.
pub record IncidentEventRow : Type 0 where
  pub organization_id : String
  pub incident_id : String
  pub type : IncidentEventType
  pub actor_user_id : Option String
  pub actor_user_email : Option String
  pub title : String
  pub message : String
  pub metadata : Fields
  pub occurred_at : ℕ
