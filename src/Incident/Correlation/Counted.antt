-- ===== src/Incident/Correlation/Counted.antt =====
-- incident.service.ts, `correlateSignal`: an incident's `signalCount` and its links.
use auto_ops.Prelude.{
  ℕ, ◌+◌, ◌≡◌, refl, ◌∙◌, ap, sym, subst, Bool, true, false, ◌||◌, String, Option, none, some, List,
  [], ◌∷◌, find_first, any, arith, eq_iff, ◌==◌, update_where, count_where, Bool-cases, inl, inr,
  All, All-map, All-update_to, any-All, any_of_found,
}
use auto_ops.Exec.{◌>>=◌}
use auto_ops.Incident.{IncidentRow, IncidentSignalRow, IncidentSignalRole}
use auto_ops.Incident.Desk.{
  Desk, SignalRow, has_incident_id, is_link, same_operation, insert_incident,
}
use auto_ops.Incident.Correlation.{
  correlate_signal, correlate_found, correlate_with, open_incident, is_signal, is_open_for,
  build_correlation_key, escalate_severity, new_incident, extend_row, link_row,
}
use auto_ops.Incident.Correlation.Laws.{link_signal-returns}

abbrev pub is_linked_to : (incident : String) → IncidentSignalRow → Bool
is_linked_to incident l = l.incident_id == incident

abbrev IsCounted : List IncidentSignalRow → IncidentRow → Type 0
IsCounted ls i = i.signal_count ≡ count_where (is_linked_to i.id) ls

abbrev IsAnchored : List IncidentRow → IncidentSignalRow → Type 0
IsAnchored is l = any (has_incident_id l.incident_id) is ≡ true

-- Every incident counts its links, and every link has its incident.
pub record Counted (d : Desk) : Type 0 where
  pub counts : All (IsCounted d.links) d.incidents
  pub anchors : All (IsAnchored d.incidents) d.links

any-update :
    (q p : IncidentRow → Bool) (f : IncidentRow → IncidentRow) (xs : List IncidentRow)
    → ((r : IncidentRow) → q (f r) ≡ q r)
    → any q xs ≡ true
    → any q (update_where p f xs) ≡ true
unfolding any update_where
any-update q p f [] same h = cc
any-update q p f (x ∷ xs) same h =
    let rest = any-update q p f xs same in
    elim (Bool-cases (p x)) [ inl e ↦ rw e (ground (arith, same x)) | inr e ↦ rw e (ground arith) ]

module _ (organization x : String) (s : SignalRow) (role : IncidentSignalRole)
    (ls : List IncidentSignalRow) where
  counted_own :
      (id : String) (n : ℕ)
      → (id == x) ≡ true
      → n ≡ count_where (is_linked_to id) ls
      → n + 1 ≡ count_where (is_linked_to id) (link_row organization x s role ∷ ls)
  unfolding count_where
  counted_own id n e h =
      let same : (x == id) ≡ true = ground (arith, eq_iff id x, eq_iff x id) in
      rw same (omega (arith, h))

  counted_other :
      (id : String) (n : ℕ)
      → (id == x) ≡ false
      → n ≡ count_where (is_linked_to id) ls
      → n ≡ count_where (is_linked_to id) (link_row organization x s role ∷ ls)
  unfolding count_where
  counted_other id n e h =
      let other : (x == id) ≡ false = ground (arith, eq_iff id x, eq_iff x id) in
      rw other (omega (arith, h))

-- No link names an incident that there is not.
unlinked :
    (id : String) (is : List IncidentRow) (ls : List IncidentSignalRow)
    → any (has_incident_id id) is ≡ false
    → All (IsAnchored is) ls
    → count_where (is_linked_to id) ls ≡ 0
unfolding count_where
unlinked id is [] fresh h = refl
unlinked id is (l ∷ ls) fresh (a, h) = elim (Bool-cases (l.incident_id == id)) [
  | inl e ↦
      let same : l.incident_id ≡ id = (eq_iff l.incident_id id).0 e in
      let there : any (has_incident_id id) is ≡ true =
        subst (λ k. any (has_incident_id k) is ≡ true) same a in
      absurd (ground arith)
  | inr e ↦ rw e (omega (arith, unlinked id is ls fresh h))
]

zip_counts :
    (organization x : String) (s : SignalRow) (role : IncidentSignalRole)
    (ls : List IncidentSignalRow) (is : List IncidentRow)
    → All (λ i. has_incident_id x i ≡ false) is
    → All (IsCounted ls) is
    → All (IsCounted (link_row organization x s role ∷ ls)) is
zip_counts organization x s role ls [] a c = tt
zip_counts organization x s role ls (i ∷ is) (e, a) (n, c) = (
  counted_other organization x s role ls i.id i.signal_count e n,
  zip_counts organization x s role ls is a c,
)

link-Counted :
    (organization : String) (s : SignalRow) (existing : IncidentRow) (role : IncidentSignalRole)
    (f : IncidentRow → IncidentRow) (d : Desk)
    → ((i : IncidentRow) → (f i).id ≡ i.id)
    → ((i : IncidentRow) → (f i).signal_count ≡ i.signal_count + 1)
    → any (has_incident_id existing.id) d.incidents ≡ true
    → Counted d
    → Counted (record d {
      links = link_row organization existing.id s role ∷ d.links;
      incidents = update_where (has_incident_id existing.id) f d.incidents;
    })
link-Counted organization s existing role f d same grows there h = record {
  counts =
      All-update_to (has_incident_id existing.id) f d.incidents
        (λ i e c.
          subst
            (λ k.
              (f i).signal_count
              ≡ count_where (is_linked_to k) (link_row organization existing.id s role ∷ d.links))
            (sym (same i))
            (grows i ∙ counted_own organization existing.id s role d.links i.id i.signal_count e c))
        (λ i e c. counted_other organization existing.id s role d.links i.id i.signal_count e c)
        h.counts;
  anchors = (
    any-update (has_incident_id existing.id) (has_incident_id existing.id) f d.incidents
        (λ i. ap (λ k. k == existing.id) (same i)) there,
    All-map d.links
        (λ l a.
          any-update (has_incident_id l.incident_id) (has_incident_id existing.id) f d.incidents
            (λ i. ap (λ k. k == l.incident_id) (same i)) a)
        h.anchors,
  );
}

open-Counted :
    (organization : String) (s : SignalRow) (role : IncidentSignalRole) (row : IncidentRow)
    (d : Desk)
    → row.signal_count ≡ 1
    → any (has_incident_id row.id) d.incidents ≡ false
    → Counted d
    → Counted (record d {
      links = link_row organization row.id s role ∷ d.links;
      incidents = row ∷ d.incidents;
    })
unfolding any
open-Counted organization s role row d one fresh h = record {
  counts = (
    one
        ∙ counted_own organization row.id s role d.links row.id 0 ((eq_iff row.id row.id).1 refl)
            (sym (unlinked row.id d.incidents d.links fresh h.anchors)),
    zip_counts organization row.id s role d.links d.incidents
        (any-All (has_incident_id row.id) d.incidents fresh) h.counts,
  );
  anchors = (ground (arith, eq_iff row.id row.id), All-map d.links (λ l a. ground arith) h.anchors);
}

Counted-same : {d v : Desk} → v.links ≡ d.links → v.incidents ≡ d.incidents → Counted d → Counted v
Counted-same {d} {v} l i h = record {
  counts = rw l (rw i h.counts);
  anchors = rw l (rw i h.anchors);
}

with-Counted :
    (now : ℕ) (id organization : String) (s : SignalRow) (existing : Option IncidentRow) (d : Desk)
    → find_first (is_open_for organization (build_correlation_key s)) d.incidents ≡ existing
    → Counted d
    → Counted (correlate_with now id organization s existing d).1
unfolding correlate_with open_incident insert_incident ◌>>=◌
with-Counted now id organization s (some i) d e h =
    elim (Bool-cases (any (is_link i.id s.id) d.links)) [
      | inl linked ↦ rw linked h
      | inr fresh ↦
          let (_, _, links, incidents) = link_signal-returns now organization s i d in
          rw fresh (
            Counted-same links incidents (
              link-Counted organization s i IncidentSignalRole.related
                (extend_row s i (escalate_severity i.severity s.severity)) d (λ r. refl) (λ r. refl)
                (any_of_found (is_open_for organization (build_correlation_key s))
                  (has_incident_id i.id) d.incidents {x = i} e ((eq_iff i.id i.id).1 refl))
                h))
    ]
with-Counted now id organization s none d e h =
    elim (Bool-cases
      (any (has_incident_id id) d.incidents || any (same_operation s.operation_id) d.incidents)) [
        | inl refused ↦ rw refused h
        | inr accepted ↦ rw accepted (
            Counted-same refl refl (
              open-Counted organization s IncidentSignalRole.trigger
                (new_incident now id organization s) d refl (ground arith) h))
      ]

-- Correlating keeps an incident's `signalCount` equal to the number of its links, and every link at
-- an incident, whether it links, opens, skips or throws.
pub correlate_signal-Counted :
    (now : ℕ) (id organization signal : String) (d : Desk)
    → Counted d
    → Counted (correlate_signal now id organization signal d).1
unfolding correlate_signal correlate_found ◌>>=◌
correlate_signal-Counted now id organization signal d h =
    at (find_first (is_signal signal organization) d.signals) refl
  where
    at :
        (found : Option SignalRow)
        → find_first (is_signal signal organization) d.signals ≡ found
        → Counted (correlate_signal now id organization signal d).1
    at none e = rw e h
    at (some s) e = rw e (
        with-Counted now id organization s
          (find_first (is_open_for organization (build_correlation_key s)) d.incidents) d refl h)
