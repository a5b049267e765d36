-- ===== src/Samples.antt =====
-- An organization, its requests and what the policy engine answers, for the tests of the modules.
use auto_ops.Prelude.{Bool, true, String, none, some, [], ◌∷◌}
use auto_ops.Json.{bool, obj, str, Fields, end, field}
use auto_ops.Exec.{Result, ok}
use auto_ops.Organization.{Membership, admin, member}
use auto_ops.Signal.{SignalSeverity, SignalStatus, autoops, approval_rejected}
use auto_ops.Incident.{
  IncidentRow, IncidentStatus, IncidentSeverity, IncidentSource, IncidentSignalRole,
}
use auto_ops.Incident.Desk.{Desk, SignalRow}
use auto_ops.Opa.{OpaResponse, response, enforce}
use auto_ops.Opa.Request.{OperationPolicyInput}
use auto_ops.Operation.{docker, docker_container_start, docker_container_stop, OperationType}
use auto_ops.Operation.World.{World, OperationJobData, OperationRow}
use auto_ops.Operation.Service.{ServiceEnv, CreateOperationInput, AuditRequestContext}

abbrev pub member_of : (user : String) → Membership
member_of user = record { user_id = user; organization_id = "acme"; role = member }

-- Alice and Carl are members, Bob is an administrator.
abbrev pub world_with : (queue_available : Bool) → World
world_with available = record {
  memberships =
      member_of "alice"
      ∷ (record { user_id = "bob"; organization_id = "acme"; role = admin }
          ∷ (member_of "carl" ∷ []));
  projects = [];
  environments = [];
  operations = [];
  audit_logs = [];
  jobs = [];
  signals = [];
  nodes = [];
  incidents = [];
  queue_available = available;
}

abbrev pub open_world : World
open_world = world_with true

abbrev pub service_env : ServiceEnv
service_env = record {
  push_flag = none;
  opa_mode = enforce;
  policy_env = record {
    jenkins_allowed_jobs = [];
    protected_namespaces = [];
    scale_approval_threshold = 3;
  };
}

abbrev pub no_context : AuditRequestContext
no_context = record { ip_address = none; user_agent = none }

abbrev pub answer_with : (allow : Bool) → OperationPolicyInput → OpaResponse
answer_with allow input =
    response true (some (obj (field "result" (obj (field "allow" (bool allow) end)) end)))

abbrev pub request : OperationType → (token : String) → CreateOperationInput
request type token = record {
  organization_id = "acme";
  user_id = "alice";
  role = some "MEMBER";
  provider = docker;
  operation_type = type;
  input = field "containerName" (str "web") end;
  project_id = none;
  environment_id = none;
  idempotency_key = some "key-1";
  confirmation_token = some token;
}

-- The local policy asks for an approval of the first, and for none of the second.
abbrev pub stop_request : CreateOperationInput
stop_request = request docker_container_stop "STOP"

abbrev pub start_request : CreateOperationInput
start_request = request docker_container_start "START"

abbrev pub job : OperationJobData
job = record { operation_id = "op-1"; organization_id = "acme"; requested_by = "alice" }

abbrev pub run_ok : {A : Type 0} → A → OperationRow → Result Fields
run_ok executor operation = ok (field "done" (bool true) end)

-- An open incident of a signal of the operation op-1.
abbrev pub incident : IncidentRow
incident = record {
  id = "inc-1";
  organization_id = "acme";
  title = "Operation Rejected";
  summary = "";
  severity = IncidentSeverity.warning;
  status = IncidentStatus.opened;
  source = IncidentSource.signal_correlation;
  correlation_key = "operation:op-1";
  primary_resource_node_id = none;
  project_id = none;
  environment_id = none;
  deployment_id = none;
  operation_id = some "op-1";
  signal_count = 1;
  first_observed_at = 5;
  last_observed_at = 5;
  opened_at = 6;
  acknowledged_by = none;
  acknowledged_at = none;
  resolved_by = none;
  resolved_at = none;
  archived_at = none;
  metadata = end;
}

abbrev pub rejection_signal : SignalRow
rejection_signal = record {
  id = "sig-1";
  organization_id = "acme";
  source = autoops;
  type = approval_rejected;
  severity = SignalSeverity.error;
  status = SignalStatus.active;
  title = "Operation Rejected";
  message = "";
  observed_at = 9;
  archived_at = none;
  resource_node_id = none;
  resource_node = none;
  operation_id = some "op-1";
  deployment_id = none;
  project_id = none;
  environment_id = none;
}

abbrev pub desk_with : IncidentRow → Desk
desk_with i = record {
  memberships = open_world.memberships;
  users = [];
  signals = rejection_signal ∷ [];
  incidents = i ∷ [];
  links =
      record {
        organization_id = "acme";
        incident_id = "inc-1";
        signal_id = "sig-0";
        role = IncidentSignalRole.trigger;
      }
      ∷ [];
  events = [];
}
