-- ===== src/Incident/Sweep.antt =====
-- incident.service.ts: `correlateSignalsForOrg`, which correlates every active signal of an
-- organization that is a warning or worse, the oldest first.
pub mod Laws
mod Tests
use auto_ops.Prelude.{
  ℕ, ◌+◌, Bool, true, false, not, ◌&&◌, String, List, [], ◌∷◌, ◌==◌, if◌then◌else◌, ltb, is_some,
  filter_where,
}
use auto_ops.Exec.{Exec, pure, gets, ◌>>=◌}
use auto_ops.Signal.{SignalSeverity, SignalStatus}
use auto_ops.Incident.Desk.{Desk, SignalRow}
use auto_ops.Incident.Correlation.{CorrelationAction, created, updated, skipped, correlate_signal}

abbrev is_active_status : SignalStatus → Bool
is_active_status SignalStatus.active = true
is_active_status _ = false

abbrev is_notable : SignalSeverity → Bool
is_notable SignalSeverity.info = false
is_notable _ = true

-- `where: { organizationId, status: ACTIVE, severity: { in: … }, archivedAt: null }`
abbrev pub is_due : (organization : String) → SignalRow → Bool
is_due organization s =
    s.organization_id == organization
    && is_active_status s.status
    && is_notable s.severity
    && not (is_some s.archived_at)

-- `orderBy: { observedAt: 'asc' }`, which keeps the order of signals of the same time.
unfoldable pub insert_by_time : SignalRow → List SignalRow → List SignalRow
insert_by_time s [] = s ∷ []
insert_by_time s (t ∷ ts) =
    let rest = insert_by_time s ts in
    if ltb t.observed_at s.observed_at then t ∷ rest else s ∷ (t ∷ ts)

unfoldable pub sort_by_time : List SignalRow → List SignalRow
sort_by_time [] = []
sort_by_time (s ∷ ss) = insert_by_time s (sort_by_time ss)

unfoldable pub due_signals : (organization : String) → Desk → List SignalRow
unfolding sort_by_time filter_where
due_signals organization d = sort_by_time (filter_where (is_due organization) d.signals)

-- `IncidentCorrelationResponse`
pub record CorrelationCounts : Type 0 where
  pub created_count : ℕ
  pub updated_count : ℕ
  pub linked_signal_count : ℕ
  pub skipped_signal_count : ℕ

abbrev no_counts : CorrelationCounts
no_counts = record {
  created_count = 0;
  updated_count = 0;
  linked_signal_count = 0;
  skipped_signal_count = 0;
}

unfoldable pub tally : CorrelationAction → CorrelationCounts → CorrelationCounts
tally created c = record c {
  created_count = c.created_count + 1;
  linked_signal_count = c.linked_signal_count + 1;
}
tally updated c = record c {
  updated_count = c.updated_count + 1;
  linked_signal_count = c.linked_signal_count + 1;
}
tally skipped c = record c { skipped_signal_count = c.skipped_signal_count + 1 }

-- The loop. `fresh` gives the identifier of an incident that a signal may open.
correlate_each :
    (now : ℕ) (fresh : String → String) (organization : String)
    → List SignalRow
    → CorrelationCounts
    → Exec Desk CorrelationCounts
correlate_each now fresh organization [] c = pure c
correlate_each now fresh organization (s ∷ ss) c = do
  action ← correlate_signal now (fresh s.id) organization s.id
  correlate_each now fresh organization ss (tally action c)

pub correlate_signals_for_org :
    (now : ℕ) (fresh : String → String) (organization : String) → Exec Desk CorrelationCounts
correlate_signals_for_org now fresh organization = do
  signals ← gets (due_signals organization)
  correlate_each now fresh organization signals no_counts
