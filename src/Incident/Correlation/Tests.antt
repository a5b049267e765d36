-- ===== src/Incident/Correlation/Tests.antt =====
-- A signal and its incident.
use auto_ops.Prelude.{◌≡◌, refl, ap, find_first, any, count_where, some, []}
use auto_ops.Errors.{plain}
use auto_ops.Exec.{◌>>=◌, ok, err}
use auto_ops.Incident.{IncidentRow, resolved}
use auto_ops.Organization.{get_organization_role}
use auto_ops.Incident.Desk.{Desk, insert_incident, is_permitted}
use auto_ops.Incident.Correlation.{
  created, updated, skipped, open_incident, new_incident, correlate_signal, correlate_found,
  correlate_with, link_signal, escalate_severity, build_correlation_key,
}
use auto_ops.Incident.Correlation.Laws.{correlate_signal-again}
use auto_ops.Incident.Correlation.Blocked.{correlate_signal-blocked}
use auto_ops.Incident.Lifecycle.{resolve_incident}
use auto_ops.Incident.Lifecycle.Laws.{find_incident, resolve_incident-returns}
use auto_ops.Incident.Correlation.Counted.{Counted, correlate_signal-Counted}
use auto_ops.Samples.{incident, rejection_signal, desk_with}

abbrev desk : Desk
desk = desk_with incident

abbrev linked_desk : Desk
linked_desk = (correlate_signal 10 "inc-2" "acme" "sig-1" desk).1

links_signal : correlate_signal 10 "inc-2" "acme" "sig-1" desk ≡ (ok updated, linked_desk)
unfolding correlate_signal ◌>>=◌ correlate_found find_first correlate_with build_correlation_key any
    link_signal escalate_severity
links_signal = refl

correlate_signal-again_example :
    correlate_signal 20 "inc-3" "acme" "sig-1" linked_desk ≡ (ok skipped, linked_desk)
correlate_signal-again_example =
    correlate_signal-again 10 20 "inc-2" "inc-3" "acme" "sig-1" desk linked_desk updated
      links_signal

desk-Counted : Counted desk
unfolding any count_where
desk-Counted = record { counts = (refl, tt); anchors = (refl, tt) }

correlate_signal-Counted_example : Counted linked_desk
correlate_signal-Counted_example =
    correlate_signal-Counted 10 "inc-2" "acme" "sig-1" desk desk-Counted

-- A desk without incidents, where the signal opens one that Bob resolves.
abbrev empty_desk : Desk
empty_desk = record desk { incidents = []; links = [] }

abbrev opened_desk : Desk
opened_desk = (correlate_signal 10 "inc-2" "acme" "sig-1" empty_desk).1

abbrev resolved_desk : Desk
resolved_desk = (resolve_incident 20 "acme" "bob" "inc-2" opened_desk).1

opens : correlate_signal 10 "inc-2" "acme" "sig-1" empty_desk ≡ (ok created, opened_desk)
unfolding correlate_signal ◌>>=◌ correlate_found find_first correlate_with any open_incident
    insert_incident
opens = refl

abbrev opened_row : IncidentRow
opened_row = new_incident 10 "inc-2" "acme" rejection_signal

resolves :
    (row : IncidentRow) × (resolve_incident 20 "acme" "bob" "inc-2" opened_desk
      ≡ (ok row, resolved_desk))
unfolding correlate_signal ◌>>=◌ correlate_found find_first correlate_with any open_incident
    insert_incident get_organization_role is_permitted
resolves =
    let (row, ran) =
      resolve_incident-returns 20 "acme" "bob" "inc-2" opened_desk opened_row refl refl refl in
    (row, ap (λ r. (r, resolved_desk)) ran)

correlate_signal-blocked_example :
    (correlate_signal 30 "inc-3" "acme" "sig-1" resolved_desk
      ≡ (err (plain "Unique constraint failed"), resolved_desk))
    × (i : IncidentRow) × (find_incident "inc-2" "acme" resolved_desk ≡ some i)
    × (i.status ≡ resolved)
    × (i.operation_id ≡ some "op-1")
unfolding find_first
correlate_signal-blocked_example =
    correlate_signal-blocked 10 20 30 "inc-2" "inc-3" "acme" "bob" "sig-1" "sig-1" "op-1"
      rejection_signal rejection_signal resolves.0 empty_desk opened_desk resolved_desk refl refl
      refl refl refl opens resolves.1
