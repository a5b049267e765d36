-- ===== src/Worker/Incidents/Laws.antt =====
-- operation-incidents.ts: how many incidents an operation has.
use auto_ops.Prelude.{
  ℕ, ◌≡◌, ◌≤◌, refl, Bool, true, false, String, List, ◌∷◌, if◌then◌else◌, any, count_where,
  count_of_none, count_of_any, arith, eq_iff, inl, inr, Bool-cases,
}
use auto_ops.Exec.{ok}
use auto_ops.Exec.Triple.{Post, Keeps}
use auto_ops.Operation.World.{World, OperationRow}
use auto_ops.Worker.Incidents.{incident_of, is_incident_of, create_incident_for_failed_operation}

-- An incident leaves the operations alone.
pub incident-Keeps :
    (T : List OperationRow → Type 0) (now : ℕ) (id : String) (operation : OperationRow)
    → Keeps (λ w. T w.operations) (create_incident_for_failed_operation now id operation)
unfolding create_incident_for_failed_operation
incident-Keeps T now id operation = record {
  at = λ w h. at w h (any (is_incident_of operation.id) w.incidents);
}
  where
    at :
        (w : World)
        → T w.operations
        → (b : Bool)
        → Post {A = Unit {0}}
            (λ _ v. T v.operations)
            (λ v. T v.operations)
            (if b
              then (ok tt, w)
              else (ok tt, record w { incidents = incident_of now id operation ∷ w.incidents }))
    at w h true = h
    at w h false = h

incident_opens :
    (now : ℕ) (id : String) (operation : OperationRow)
    → is_incident_of operation.id (incident_of now id operation) ≡ true
unfolding incident_of
incident_opens now id operation = ground (arith, eq_iff operation.id operation.id)

abbrev pub incidents_of : (operation : String) → World → ℕ
incidents_of operation w = count_where (is_incident_of operation) w.incidents

-- An operation with at most one incident has exactly one once an incident was asked for it, however
-- often that happened before.
pub create_incident-once :
    (now : ℕ) (id : String) (operation : OperationRow) (w : World)
    → incidents_of operation.id w ≤ 1
    → incidents_of operation.id (create_incident_for_failed_operation now id operation w).1 ≡ 1
unfolding create_incident_for_failed_operation count_where
create_incident-once now id operation w h =
    elim (Bool-cases (any (is_incident_of operation.id) w.incidents)) [
      | inl e ↦ rw e (omega (arith, h, count_of_any (is_incident_of operation.id) w.incidents e))
      | inr e ↦
          rw (e, incident_opens now id operation)
            (omega (arith, count_of_none (is_incident_of operation.id) w.incidents e))
    ]

pub create_incident-returns :
    (now : ℕ) (id : String) (operation : OperationRow) (w : World)
    → (v : World) × (create_incident_for_failed_operation now id operation w ≡ (ok tt, v))
      × (v.operations ≡ w.operations)
unfolding create_incident_for_failed_operation
create_incident-returns now id operation w = at (any (is_incident_of operation.id) w.incidents) refl
  where
    at :
        (b : Bool)
        → any (is_incident_of operation.id) w.incidents ≡ b
        → (v : World) × (create_incident_for_failed_operation now id operation w ≡ (ok tt, v))
          × (v.operations ≡ w.operations)
    at true e = (w, rw e refl, refl)
    at false e =
        (record w { incidents = incident_of now id operation ∷ w.incidents }, rw e refl, refl)
