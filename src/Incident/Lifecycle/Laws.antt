-- ===== src/Incident/Lifecycle/Laws.antt =====
-- incident.service.ts: what the handlers make of an incident.
use auto_ops.Prelude.{
  ℕ, ◌+◌, ◌≡◌, ◌⊎◌, refl, ap, sym, subst, ◌∙◌, true, not, String, Option, none, some, ◌∷◌,
  find_first, find_first_of_any, any_of_found, found_by, find_first_passes, arith, length,
  update_where,
}
use auto_ops.Exec.{◌>>=◌, ok}
use auto_ops.Organization.{get_organization_role}
use auto_ops.Incident.{IncidentRow, IncidentEventRow, opened, resolved, archived, acknowledged}
use auto_ops.Incident.Desk.{
  Desk, IncidentAction, is_permitted, require_permission, resolve_action, acknowledge_action,
  archive_action, is_incident, has_incident_id, user_email,
}
use auto_ops.Incident.Lifecycle.{
  is_resolved, is_archived, transition, told_acknowledged, told_resolved, told_archived,
  status_event, acknowledge_row, resolve_row, archive_row, acknowledge_incident, resolve_incident,
  archive_incident,
}

abbrev pub find_incident : (id organization : String) → Desk → Option IncidentRow
find_incident id organization d = find_first (is_incident id organization) d.incidents

abbrev pub IsPermitted : (organization user : String) → IncidentAction → Desk → Type 0
IsPermitted organization user action d =
    is_permitted action (get_organization_role d.memberships organization user) ≡ true

-- What a handler that returned has done: the row that was found is `f` of it now, the history has
-- two more events, and the update is by the identifier alone.
pub record Transitioned (id organization : String) (f : IncidentRow → IncidentRow) (i : IncidentRow)
    (d v : Desk) : Type 0 where
  pub stored : find_incident id organization v ≡ some (f i)
  pub told : length v.events ≡ 2 + length d.events
  pub members : v.memberships ≡ d.memberships
  pub rows : v.incidents ≡ update_where (has_incident_id id) f d.incidents
  pub signals : v.signals ≡ d.signals

transition-ok :
    (id organization : String) (f : IncidentRow → IncidentRow) (told changed : IncidentEventRow)
    (d : Desk) (i : IncidentRow)
    → ((r : IncidentRow) → is_incident id organization (f r) ≡ is_incident id organization r)
    → find_incident id organization d ≡ some i
    → (stored : IncidentRow) × (v : Desk) × (transition id f told changed d ≡ (ok (f stored), v))
      × Transitioned id organization f i d v
unfolding transition ◌>>=◌
transition-ok id organization f told changed d i same found =
    let passes = find_first_passes (is_incident id organization) d.incidents {x = i} found in
    let own : has_incident_id id i ≡ true = ground arith in
    let (stored, there) = find_first_of_any (has_incident_id id) d.incidents (
      any_of_found (is_incident id organization) (has_incident_id id) d.incidents {x = i} found
        own) in
    (
      stored,
      record d {
        incidents = update_where (has_incident_id id) f d.incidents;
        events = changed ∷ (told ∷ d.events);
      },
      rw there refl,
      record {
        stored =
            found_by (is_incident id organization) (has_incident_id id) f d.incidents {x = i} same
              found own;
        told = omega arith;
        members = refl;
        rows = refl;
        signals = refl;
      },
    )

transition-inverts :
    (id organization : String) (f : IncidentRow → IncidentRow) (told changed : IncidentEventRow)
    (d v : Desk) (i row : IncidentRow)
    → ((r : IncidentRow) → is_incident id organization (f r) ≡ is_incident id organization r)
    → find_incident id organization d ≡ some i
    → transition id f told changed d ≡ (ok row, v)
    → Transitioned id organization f i d v
transition-inverts id organization f told changed d v i row same found h =
    let (stored, w, ran, t) = transition-ok id organization f told changed d i same found in
    let done : w ≡ v = ap (λ r. r.1) (sym ran ∙ h) in
    subst (Transitioned id organization f i d) done t

-- An acknowledgement that returns came from an owner, administrator or member; the incident was open,
-- is acknowledged by the caller now, and its history has two more events.
pub acknowledge_incident-ok :
    (now : ℕ) (organization user id : String) (d v : Desk) (row : IncidentRow)
    → acknowledge_incident now organization user id d ≡ (ok row, v)
    → (i : IncidentRow) × (find_incident id organization d ≡ some i)
      × IsPermitted organization user acknowledge_action d
      × (i.status ≡ opened)
      × Transitioned id organization (acknowledge_row now user) i d v
unfolding acknowledge_incident require_permission ◌>>=◌
acknowledge_incident-ok now organization user id d v row h =
    at (find_incident id organization d) refl
  where
    at :
        (found : Option IncidentRow)
        → find_incident id organization d ≡ found
        → (i : IncidentRow) × (find_incident id organization d ≡ some i)
          × IsPermitted organization user acknowledge_action d
          × (i.status ≡ opened)
          × Transitioned id organization (acknowledge_row now user) i d v
    at none e = absurd (ground arith)
    at (some i) e = (
      i,
      e,
      ground arith,
      ground arith,
      transition-inverts id organization (acknowledge_row now user)
          (told_acknowledged now organization user id (user_email user d))
          (status_event opened acknowledged now organization id user (user_email user d)) d v i row
          (λ r. refl) e (ground arith),
    )

-- A resolution that returns came from an owner, administrator or member; the incident's status was
-- open or acknowledged, is resolved by the caller now, and its history has two more events.
pub resolve_incident-ok :
    (now : ℕ) (organization user id : String) (d v : Desk) (row : IncidentRow)
    → resolve_incident now organization user id d ≡ (ok row, v)
    → (i : IncidentRow) × (find_incident id organization d ≡ some i)
      × IsPermitted organization user resolve_action d
      × ((i.status ≡ opened) ⊎ (i.status ≡ acknowledged))
      × Transitioned id organization (resolve_row now user) i d v
unfolding resolve_incident require_permission ◌>>=◌
resolve_incident-ok now organization user id d v row h = at (find_incident id organization d) refl
  where
    at :
        (found : Option IncidentRow)
        → find_incident id organization d ≡ found
        → (i : IncidentRow) × (find_incident id organization d ≡ some i)
          × IsPermitted organization user resolve_action d
          × ((i.status ≡ opened) ⊎ (i.status ≡ acknowledged))
          × Transitioned id organization (resolve_row now user) i d v
    at none e = absurd (ground arith)
    at (some i) e = (
      i,
      e,
      ground arith,
      ground arith,
      transition-inverts id organization (resolve_row now user)
          (told_resolved now organization user id (user_email user d))
          (status_event i.status resolved now organization id user (user_email user d)) d v i row
          (λ r. refl) e (ground arith),
    )

-- An archival that returns came from an owner or administrator; the incident was not archived, and
-- its row has the time of the archival now. Its status is what it was.
pub archive_incident-ok :
    (now : ℕ) (organization user id : String) (d v : Desk) (row : IncidentRow)
    → archive_incident now organization user id d ≡ (ok row, v)
    → (i : IncidentRow) × (find_incident id organization d ≡ some i)
      × IsPermitted organization user archive_action d
      × (i.archived_at ≡ none)
      × Transitioned id organization (archive_row now) i d v
unfolding archive_incident require_permission ◌>>=◌
archive_incident-ok now organization user id d v row h = at (find_incident id organization d) refl
  where
    at :
        (found : Option IncidentRow)
        → find_incident id organization d ≡ found
        → (i : IncidentRow) × (find_incident id organization d ≡ some i)
          × IsPermitted organization user archive_action d
          × (i.archived_at ≡ none)
          × Transitioned id organization (archive_row now) i d v
    at none e = absurd (ground arith)
    at (some i) e = (
      i,
      e,
      ground arith,
      ground arith,
      transition-inverts id organization (archive_row now)
          (told_archived now organization user id (user_email user d))
          (status_event i.status archived now organization id user (user_email user d)) d v i row
          (λ r. refl) e (ground arith),
    )

pub resolve_incident-returns :
    (now : ℕ) (organization user id : String) (d : Desk) (i : IncidentRow)
    → IsPermitted organization user resolve_action d
    → find_incident id organization d ≡ some i
    → i.status ≡ opened
    → (row : IncidentRow) × ((resolve_incident now organization user id d).0 ≡ ok row)
unfolding resolve_incident require_permission ◌>>=◌
resolve_incident-returns now organization user id d i permitted found status =
    let (stored, w, ran, _) =
      transition-ok id organization (resolve_row now user)
        (told_resolved now organization user id (user_email user d))
        (status_event i.status resolved now organization id user (user_email user d)) d i
        (λ r. refl) found in
    let open_yet : not (is_resolved i.status) ≡ true = rw status refl in
    let not_archived : not (is_archived i.status) ≡ true = rw status refl in
    (resolve_row now user stored, rw (permitted, found, open_yet, not_archived, ran) refl)

-- An open incident that has been archived can still be resolved, by whoever may resolve incidents.
pub archive_incident-resolvable :
    (now later : ℕ) (organization user other id : String) (d v : Desk) (i row : IncidentRow)
    → archive_incident now organization user id d ≡ (ok row, v)
    → find_incident id organization d ≡ some i
    → i.status ≡ opened
    → IsPermitted organization other resolve_action d
    → (again : IncidentRow) × ((resolve_incident later organization other id v).0 ≡ ok again)
archive_incident-resolvable now later organization user other id d v i row h found status
      permitted =
    let (i', found', _, _, t) = archive_incident-ok now organization user id d v row h in
    let same : i ≡ i' = some-inj (sym found ∙ found') in
    resolve_incident-returns later organization other id v (archive_row now i')
      (subst
        (λ ms. is_permitted resolve_action (get_organization_role ms organization other) ≡ true)
        (sym t.members) permitted)
      t.stored (ap (λ r. r.status) (sym same) ∙ status)
  where
    some-inj : {x y : IncidentRow} → some x ≡ some y → x ≡ y
    some-inj e = cc
