-- ===== src/Incident/Correlation/Laws.antt =====
-- incident.service.ts: what a correlation does.
use auto_ops.Prelude.{
  ℕ, ◌≤◌, ◌≡◌, ◌⊎◌, refl, ap, true, String, Option, none, some, ◌∷◌, find_first, any, arith, eq_iff,
  update_where, Bool-cases, inl, inr, found_by,
}
use auto_ops.Exec.{◌>>=◌, ok}
use auto_ops.Signal.{SignalSeverity}
use auto_ops.Incident.{IncidentRow, IncidentSeverity, IncidentSignalRole}
use auto_ops.Incident.Desk.{Desk, SignalRow, has_incident_id, is_link, insert_incident}
use auto_ops.Incident.Correlation.{
  CorrelationAction, updated, skipped, correlate_signal, correlate_found, correlate_with,
  link_signal, open_incident, build_correlation_key, is_open_for, is_signal, escalate_severity,
  map_severity, rank, new_incident, extend_row, link_row, same_severity,
}

-- The severity of an incident after a signal is the greater of the two.
pub escalate_severity-rank :
    (current : IncidentSeverity) (incoming : SignalSeverity)
    → (rank current ≤ rank (escalate_severity current incoming))
      × (rank (map_severity incoming) ≤ rank (escalate_severity current incoming))
      × ((escalate_severity current incoming ≡ current)
          ⊎ (escalate_severity current incoming ≡ map_severity incoming))
unfolding escalate_severity map_severity
escalate_severity-rank current incoming = ground arith

pub link_signal-returns :
    (now : ℕ) (organization : String) (s : SignalRow) (existing : IncidentRow) (d : Desk)
    → let done = link_signal now organization s existing d in
      (done.0 ≡ ok updated)
      × (done.1.signals ≡ d.signals)
      × (done.1.links ≡ link_row organization existing.id s IncidentSignalRole.related ∷ d.links)
      × (done.1.incidents
          ≡ update_where
              (has_incident_id existing.id)
              (extend_row s existing (escalate_severity existing.severity s.severity))
              d.incidents)
unfolding link_signal ◌>>=◌
link_signal-returns now organization s existing d =
    elim (Bool-cases
      (same_severity existing.severity (escalate_severity existing.severity s.severity))) [
        | inl e ↦ (rw e refl, rw e refl, rw e refl, rw e refl)
        | inr e ↦ (rw e refl, rw e refl, rw e refl, rw e refl)
      ]

-- The signal is linked to the open incident of its key.
abbrev IsLinked : (organization : String) → SignalRow → Desk → Type 0
IsLinked organization s d =
    (i : IncidentRow) × (find_first (is_open_for organization (build_correlation_key s)) d.incidents
      ≡ some i)
    × (any (is_link i.id s.id) d.links ≡ true)

skips :
    (now : ℕ) (id organization signal : String) (s : SignalRow) (d : Desk)
    → find_first (is_signal signal organization) d.signals ≡ some s
    → IsLinked organization s d
    → correlate_signal now id organization signal d ≡ (ok skipped, d)
unfolding correlate_signal correlate_found correlate_with ◌>>=◌
skips now id organization signal s d found (i, open_one, linked) = rw (found, open_one, linked) refl

-- Linking a signal to an incident, or opening one for it, links it to the open incident of its key.
links :
    (now : ℕ) (id organization : String) (s : SignalRow) (existing : Option IncidentRow)
    (d v : Desk) (a : CorrelationAction)
    → find_first (is_open_for organization (build_correlation_key s)) d.incidents ≡ existing
    → correlate_with now id organization s existing d ≡ (ok a, v)
    → IsLinked organization s v × (v.signals ≡ d.signals)
unfolding correlate_with open_incident insert_incident find_first any ◌>>=◌
links now id organization s none d v a e h =
    let opened_now : v.incidents ≡ new_incident now id organization s ∷ d.incidents =
      ground arith in
    let linked_now : v.links ≡ link_row organization id s IncidentSignalRole.trigger ∷ d.links =
      ground arith in
    let own : is_open_for organization (build_correlation_key s)
          (new_incident now id organization s)
        ≡ true =
      ground (
        arith,
        eq_iff organization organization,
        eq_iff (build_correlation_key s) (build_correlation_key s),
      ) in
    let own_link : is_link id s.id (link_row organization id s IncidentSignalRole.trigger) ≡ true =
      ground (arith, eq_iff id id, eq_iff s.id s.id) in
    (
      (
        new_incident now id organization s,
        rw opened_now (rw own refl),
        rw linked_now (rw own_link refl),
      ),
      ground arith,
    )
links now id organization s (some i) d v a e h =
    elim (Bool-cases (any (is_link i.id s.id) d.links)) [
      | inl linked ↦
          let same : d ≡ v = ap (λ r. r.1) (rw linked at h) in
          ((i, rw (← same) e, rw (← same) linked), rw (← same) refl)
      | inr fresh ↦
          let (_, signals, new_links, incidents) = link_signal-returns now organization s i d in
          let same : (link_signal now organization s i d).1 ≡ v = ap (λ r. r.1) (rw fresh at h) in
          let own : has_incident_id i.id i ≡ true = (eq_iff i.id i.id).1 refl in
          let own_link : is_link i.id s.id (link_row organization i.id s IncidentSignalRole.related)
              ≡ true =
            ground (arith, eq_iff i.id i.id, eq_iff s.id s.id) in
          let f = extend_row s i (escalate_severity i.severity s.severity) in
          (
            (
              f i,
              rw (← same) (
                  rw incidents (
                    found_by (is_open_for organization (build_correlation_key s))
                      (has_incident_id i.id) f d.incidents {x = i} (λ r. refl) e own)),
              rw (← same) (rw new_links (rw own_link refl)),
            ),
            rw (← same) signals,
          )
    ]

-- Correlating a signal a second time does nothing: it is skipped, whatever the first time did, unless
-- that threw.
pub correlate_signal-again :
    (now later : ℕ) (id another organization signal : String) (d v : Desk) (a : CorrelationAction)
    → correlate_signal now id organization signal d ≡ (ok a, v)
    → correlate_signal later another organization signal v ≡ (ok skipped, v)
unfolding correlate_signal correlate_found ◌>>=◌
correlate_signal-again now later id another organization signal d v a h =
    at (find_first (is_signal signal organization) d.signals) refl
  where
    at :
        (found : Option SignalRow)
        → find_first (is_signal signal organization) d.signals ≡ found
        → correlate_signal later another organization signal v ≡ (ok skipped, v)
    at none e = let same : d ≡ v = ap (λ r. r.1) (rw e at h) in rw (← same) (rw e refl)
    at (some s) e =
        let ran = rw e at h in
        let (linked, signals) =
          links now id organization s
            (find_first (is_open_for organization (build_correlation_key s)) d.incidents) d v a refl
            ran in
        skips later another organization signal s v (rw signals e) linked
