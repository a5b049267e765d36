-- ===== src/Operation/Governed.antt =====
-- The invariant of the table of operations: separation of duties between requesters and approvers.
use auto_ops.Prelude.{
  ◌≡◌, ◌≢◌, refl, Bool, true, false, ◌||◌, String, Option, some, List, ◌∷◌, is_some, if◌then◌else◌,
  All, All-map, any, any-All, find_first, any_of_find_first, inl, inr, update_where,
  find_first-update_where_other, Distinct, Bool-cases, eq_iff, arith,
}
use auto_ops.Errors.{Thrown, plain}
use auto_ops.Json.{get_field, record_value, is_true}
use auto_ops.Exec.{ok, err}
use auto_ops.Exec.Triple.{Post, Keeps}
use auto_ops.Opa.{optional_field}
use auto_ops.Operation.{OperationStatus, queued, running, succeeded, failed, rejected}
use auto_ops.Operation.World.{
  World, OperationJobData, enqueue_operation_job, add_job, OperationRow, has_id, insert_operation,
}

-- Whether the policy that was stored with the operation asks for an approval.
abbrev pub requires_approval : OperationRow → Bool
requires_approval r =
    is_true (optional_field "approvalRequired" (record_value (get_field "policy" r.input)))

-- The worker may run the operation, runs it or has run it.
abbrev pub is_released : OperationStatus → Bool
is_released queued = true
is_released running = true
is_released succeeded = true
is_released failed = true
is_released _ = false

-- An operation that needs an approval is released only after one, and whoever approved or rejected an
-- operation did not request it.
pub record IsGoverned (r : OperationRow) : Type 0 where
  pub approved :
      requires_approval r ≡ true → is_released r.status ≡ true → is_some r.approved_by ≡ true
  pub refused : r.status ≡ rejected → is_some r.rejected_by ≡ true
  pub approver_other : is_some r.approved_by ≡ true → r.approved_by ≢ r.requested_by
  pub refuser_other : is_some r.rejected_by ≡ true → r.rejected_by ≢ r.requested_by

abbrev pub row_id : OperationRow → String
row_id r = r.id

pub record Governed (rows : List OperationRow) : Type 0 where
  pub distinct : Distinct row_id rows
  pub each : All IsGoverned rows

abbrev pub GovernedWorld : World → Type 0
GovernedWorld w = Governed w.operations

has_id-ne : (id : String) (r : OperationRow) → has_id id r ≡ false → row_id r ≢ id
has_id-ne id r h = ground (arith, eq_iff r.id id)

-- A property of the table that a governed row with a fresh identifier does not disturb.
abbrev pub Grows : (List OperationRow → Type 0) → Type 0
Grows T =
    (row : OperationRow) (rows : List OperationRow)
    → IsGoverned row
    → any (has_id row.id) rows ≡ false
    → T rows
    → T (row ∷ rows)

pub Governed-grows : Grows Governed
Governed-grows row rows g fresh h = record {
  distinct = (
    All-map rows (λ r ne. has_id-ne row.id r ne) (any-All (has_id row.id) rows fresh),
    h.distinct,
  );
  each = (g, h.each);
}

module _ (T : List OperationRow → Type 0) (grow : Grows T) where
  insert-Post :
      (row : OperationRow) (w : World) (e : Thrown) (b c : Bool)
      → IsGoverned row
      → T w.operations
      → any (has_id row.id) w.operations ≡ b
      → Post {A = Unit {0}}
          (λ _ v. T v.operations)
          (λ v. T v.operations)
          (if b || c then (err e, w) else (ok tt, record w { operations = row ∷ w.operations }))
  insert-Post row w e true c g h known = h
  insert-Post row w e false true g h known = h
  insert-Post row w e false false g h known = grow row w.operations g known h

  pub insert_operation-Keeps :
      (row : OperationRow) → IsGoverned row → Keeps (λ w. T w.operations) (insert_operation row)
  unfolding insert_operation
  insert_operation-Keeps row g = record {
    at = λ w h. insert-Post row w _ (any (has_id row.id) w.operations) _ g h refl;
  }

-- An action that leaves the table of operations alone.
pub enqueue-Keeps :
    (T : List OperationRow → Type 0) (job : OperationJobData)
    → Keeps (λ w. T w.operations) (enqueue_operation_job job)
unfolding enqueue_operation_job
enqueue-Keeps T job = record { at = λ w h. at w.queue_available w h }
  where
    at :
        (b : Bool) (w : World)
        → T w.operations
        → Post {A = Unit {0}}
            (λ _. (λ w. T w.operations))
            (λ w. T w.operations)
            (if b
              then (ok tt, record w { jobs = add_job job w.jobs })
              else (err (plain "Queue unavailable"), w))
    at true w h = h
    at false w h = h

-- The operation exists, and `Q` holds of it.
pub record Holding (id : String) (Q : OperationRow → Type 0) (rows : List OperationRow)
    : Type 0 where
  pub row : OperationRow
  pub found : find_first (has_id id) rows ≡ some row
  pub holds : Q row

abbrev pub Requested : String → Option String → List OperationRow → Type 0
Requested id who = Holding id (λ r. r.requested_by ≡ who)

pub Holding-grows : (id : String) (Q : OperationRow → Type 0) → Grows (Holding id Q)
unfolding find_first
Holding-grows id Q row rows g fresh h = elim (Bool-cases (has_id id row)) [
  | inl taken ↦
      let same : row.id ≡ id = (eq_iff row.id id).0 taken in
      let there : any (has_id row.id) rows ≡ true =
        rw same (any_of_find_first (has_id id) rows {x = h.row} h.found) in
      cc
  | inr other ↦ record { row = h.row; found = rw other h.found; holds = h.holds }
]

-- An update that keeps identifiers and `Q`.
pub Holding-update :
    (id : String) (Q : OperationRow → Type 0) (p : OperationRow → Bool)
    (f : OperationRow → OperationRow) (rows : List OperationRow)
    → ((r : OperationRow) → (f r).id ≡ r.id)
    → ((r : OperationRow) → p r ≡ true → Q r → Q (f r))
    → Holding id Q rows
    → Holding id Q (update_where p f rows)
Holding-update id Q p f rows same keep h = record {
  row = if p h.row then f h.row else h.row;
  found = find_first-update_where_other (has_id id) p f rows {x = h.row} (λ r. rw (same r)) h.found;
  holds = at (p h.row) refl;
}
  where
    at : (b : Bool) → p h.row ≡ b → Q (if b then f h.row else h.row)
    at true e = keep h.row e h.holds
    at false e = h.holds
