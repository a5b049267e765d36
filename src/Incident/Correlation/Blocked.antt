-- ===== src/Incident/Correlation/Blocked.antt =====
-- incident.service.ts: `correlateSignal` after the incident of an operation has been resolved.
use auto_ops.Prelude.{
  ℕ, ◌≡◌, refl, ap, sym, subst, ◌∙◌, true, false, ◌||◌, String, Option, none, some, List, ◌∷◌, [],
  find_first, any, arith, eq_iff, update_where, Bool-cases, inl, inr,
}
use auto_ops.Errors.{plain}
use auto_ops.Exec.{◌>>=◌, ok, err}
use auto_ops.Incident.{IncidentRow, resolved}
use auto_ops.Incident.Desk.{
  Desk, SignalRow, has_incident_id, is_incident, is_link, same_operation, insert_incident,
}
use auto_ops.Incident.Lifecycle.{resolve_incident, resolve_row}
use auto_ops.Incident.Lifecycle.Laws.{find_incident, resolve_incident-ok}
use auto_ops.Incident.Correlation.{
  created, correlate_signal, correlate_found, correlate_with, open_incident, build_correlation_key,
  is_open_for, is_signal, new_incident, link_signal,
}
use auto_ops.Incident.Correlation.Laws.{link_signal-returns}

-- What a correlation has done that opened an incident for the signal s.
record Opens (now : ℕ) (id organization : String) (s : SignalRow) (d v : Desk) : Type 0 where
  none_open : find_first (is_open_for organization (build_correlation_key s)) d.incidents ≡ none
  fresh : any (has_incident_id id) d.incidents ≡ false
  incidents : v.incidents ≡ new_incident now id organization s ∷ d.incidents
  signals : v.signals ≡ d.signals

created-Opens :
    (now : ℕ) (id organization : String) (s : SignalRow) (existing : Option IncidentRow)
    (d v : Desk)
    → find_first (is_open_for organization (build_correlation_key s)) d.incidents ≡ existing
    → correlate_with now id organization s existing d ≡ (ok created, v)
    → Opens now id organization s d v
unfolding correlate_with open_incident insert_incident ◌>>=◌
created-Opens now id organization s none d v e h = record {
  none_open = e;
  fresh = ground (arith, h);
  incidents = ground (arith, h);
  signals = ground (arith, h);
}
created-Opens now id organization s (some i) d v e h =
    elim (Bool-cases (any (is_link i.id s.id) d.links)) [
      | inl linked ↦ let bad = rw linked at h in absurd (ground (arith, bad))
      | inr unlinked ↦
          let returned = (link_signal-returns now organization s i d).0 in
          let ran = rw unlinked at h in
          let bad : (link_signal now organization s i d).0 ≡ ok created = ap (λ r. r.0) ran in
          absurd (ground (arith, sym returned ∙ bad))
    ]

-- An update that reaches no row changes none.
update_where_no_row :
    (id : String) (f : IncidentRow → IncidentRow) (rows : List IncidentRow)
    → any (has_incident_id id) rows ≡ false
    → update_where (has_incident_id id) f rows ≡ rows
unfolding update_where any
update_where_no_row id f [] h = refl
update_where_no_row id f (r ∷ rows) h =
    let other : has_incident_id id r ≡ false = ground (arith, h) in
    rw other (ap (λ rs. r ∷ rs) (update_where_no_row id f rows (ground (arith, h))))

-- A signal of an operation opens an incident, which is then resolved. Correlating that signal again, or
-- another one of the same operation and correlation key, throws that a unique constraint failed, and
-- changes nothing, whatever identifier the new incident is given: the incident that holds the operation's
-- identifier is still there, and is resolved.
pub correlate_signal-blocked :
    (now between later : ℕ) (id another organization user signal other operation : String)
    (s t : SignalRow) (row : IncidentRow) (d v w : Desk)
    → find_first (is_signal signal organization) d.signals ≡ some s
    → find_first (is_signal other organization) d.signals ≡ some t
    → s.operation_id ≡ some operation
    → t.operation_id ≡ some operation
    → build_correlation_key t ≡ build_correlation_key s
    → correlate_signal now id organization signal d ≡ (ok created, v)
    → resolve_incident between organization user id v ≡ (ok row, w)
    → (correlate_signal later another organization other w
        ≡ (err (plain "Unique constraint failed"), w))
      × (i : IncidentRow) × (find_incident id organization w ≡ some i)
      × (i.status ≡ resolved)
      × (i.operation_id ≡ some operation)
unfolding correlate_signal correlate_found correlate_with open_incident insert_incident find_first
    any update_where ◌>>=◌
correlate_signal-blocked now between later id another organization user signal other operation s t
      row d v w found found_other of_s of_t keys opens resolves =
    let open_now =
      created-Opens now id organization s
        (find_first (is_open_for organization (build_correlation_key s)) d.incidents) d v refl
        (rw found at opens) in
    let (_, _, _, _, t_done) = resolve_incident-ok between organization user id v w row resolves in
    let closed = resolve_row between user (new_incident now id organization s) in
    let own : has_incident_id id (new_incident now id organization s) ≡ true =
      (eq_iff id id).1 refl in
    let rest = update_where_no_row id (resolve_row between user) d.incidents open_now.fresh in
    let rows : w.incidents ≡ closed ∷ d.incidents =
      rw (t_done.rows, open_now.incidents, own, rest) refl in
    let signals : w.signals ≡ d.signals = t_done.signals ∙ open_now.signals in
    let shut : is_open_for organization (build_correlation_key s) closed ≡ false = ground arith in
    let closed_now : find_first (is_open_for organization (build_correlation_key t)) w.incidents
        ≡ none =
      subst (λ k. find_first (is_open_for organization k) w.incidents ≡ none) (sym keys)
        (rw (rows, shut) open_now.none_open) in
    let holds : same_operation (some operation) closed ≡ true =
      rw of_s ((eq_iff operation operation).1 refl) in
    let taken : any (same_operation t.operation_id) w.incidents ≡ true =
      rw (rows, of_t, holds) refl in
    let refused : (any (has_incident_id another) w.incidents
          || any (same_operation t.operation_id) w.incidents)
        ≡ true =
      ground (arith, taken) in
    let found_now : find_first (is_signal other organization) w.signals ≡ some t =
      rw signals found_other in
    let row_found : is_incident id organization closed ≡ true =
      ground (arith, eq_iff id id, eq_iff organization organization) in
    (rw (found_now, closed_now, refused) refl, closed, rw (rows, row_found) refl, refl, of_s)
