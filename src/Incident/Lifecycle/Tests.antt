-- ===== src/Incident/Lifecycle/Tests.antt =====
-- One incident through its handlers.
use auto_ops.Prelude.{◌≡◌, refl, find_first}
use auto_ops.Exec.{◌>>=◌, ok}
use auto_ops.Organization.{get_organization_role}
use auto_ops.Incident.{IncidentRow}
use auto_ops.Incident.Desk.{Desk, is_permitted, resolve_action, require_permission}
use auto_ops.Incident.Lifecycle.{
  acknowledge_incident, resolve_incident, archive_incident, acknowledge_row, resolve_row,
  archive_row, transition,
}
use auto_ops.Incident.Lifecycle.Laws.{IsPermitted, archive_incident-resolvable}
use auto_ops.Samples.{incident, desk_with}

abbrev desk : Desk
desk = desk_with incident

abbrev acknowledged_desk : Desk
acknowledged_desk = (acknowledge_incident 20 "acme" "alice" "inc-1" desk).1

acknowledges :
    acknowledge_incident 20 "acme" "alice" "inc-1" desk
    ≡ (ok (acknowledge_row 20 "alice" incident), acknowledged_desk)
unfolding acknowledge_incident ◌>>=◌ require_permission is_permitted transition
acknowledges = refl

abbrev resolved_desk : Desk
resolved_desk = (resolve_incident 30 "acme" "bob" "inc-1" desk).1

resolves :
    resolve_incident 30 "acme" "bob" "inc-1" desk
    ≡ (ok (resolve_row 30 "bob" incident), resolved_desk)
unfolding resolve_incident ◌>>=◌ require_permission is_permitted transition
resolves = refl

abbrev archived_desk : Desk
archived_desk = (archive_incident 40 "acme" "bob" "inc-1" desk).1

archives :
    archive_incident 40 "acme" "bob" "inc-1" desk ≡ (ok (archive_row 40 incident), archived_desk)
unfolding archive_incident ◌>>=◌ require_permission is_permitted transition
archives = refl

alice_may : IsPermitted "acme" "alice" resolve_action desk
unfolding get_organization_role is_permitted
alice_may = refl

archive_incident-resolvable_example :
    (again : IncidentRow) × ((resolve_incident 50 "acme" "alice" "inc-1" archived_desk).0
      ≡ ok again)
unfolding find_first
archive_incident-resolvable_example =
    archive_incident-resolvable 40 50 "acme" "bob" "alice" "inc-1" desk archived_desk incident
      (archive_row 40 incident) archives refl refl alice_may
