-- ===== src/Incident/Sweep/Tests.antt =====
-- One run over one due signal.
use auto_ops.Incident.Desk.{insert_incident}
use auto_ops.Incident.Correlation.{open_incident}
use auto_ops.Incident.Sweep.{tally}
use auto_ops.Incident.Correlation.{escalate_severity}
use auto_ops.Incident.Correlation.{link_signal}
use auto_ops.Incident.Correlation.{build_correlation_key}
use auto_ops.Incident.Correlation.{correlate_with}
use auto_ops.Prelude.{find_first}
use auto_ops.Incident.Correlation.{correlate_found}
use auto_ops.Incident.Sweep.{insert_by_time}
use auto_ops.Incident.Sweep.{correlate_each}
use auto_ops.Prelude.{◌≡◌, refl, String, [], ◌∷◌, any, count_where}
use auto_ops.Errors.{plain}
use auto_ops.Incident.{IncidentStatus}
use auto_ops.Exec.{◌>>=◌, ok, err}
use auto_ops.Incident.Desk.{Desk}
use auto_ops.Incident.Correlation.{correlate_signal}
use auto_ops.Incident.Correlation.Counted.{Counted}
use auto_ops.Incident.Sweep.{CorrelationCounts, correlate_signals_for_org, due_signals}
use auto_ops.Samples.{rejection_signal, incident, desk_with}

abbrev desk : Desk
desk = desk_with incident

abbrev fresh : String → String
fresh signal = signal

abbrev counts : CorrelationCounts
counts = record {
  created_count = 0;
  updated_count = 1;
  linked_signal_count = 1;
  skipped_signal_count = 0;
}

runs :
    correlate_signals_for_org 10 fresh "acme" desk
    ≡ (ok counts, (correlate_signals_for_org 10 fresh "acme" desk).1)
unfolding correlate_signals_for_org ◌>>=◌ correlate_each due_signals insert_by_time correlate_signal
    correlate_found find_first correlate_with build_correlation_key any link_signal
    escalate_severity tally
runs = refl

desk-Counted_before : Counted desk
unfolding any count_where
desk-Counted_before = record { counts = (refl, tt); anchors = (refl, tt) }

-- The incident of the signal's operation has been resolved.
abbrev closed_desk : Desk
closed_desk = desk_with (record incident { status = IncidentStatus.resolved })

one_due : due_signals "acme" closed_desk ≡ rejection_signal ∷ []
unfolding due_signals insert_by_time
one_due = refl

throws :
    correlate_signal 10 "sig-1" "acme" "sig-1" closed_desk
    ≡ (err (plain "Unique constraint failed"), closed_desk)
unfolding correlate_signal ◌>>=◌ correlate_found find_first correlate_with build_correlation_key
    open_incident insert_incident any
throws = refl
