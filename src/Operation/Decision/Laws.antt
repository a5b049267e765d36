-- ===== src/Operation/Decision/Laws.antt =====
-- operation.service.ts: when an approval passes its checks, and what its writes do.
use auto_ops.Prelude.{
  Distinct, find_first_by_key, ℕ, ◌≡◌, ◌≢◌, ◌↔◌, ◌⊎◌, refl, true, String, Option, none, some,
  find_first, get_or, arith, find_first-update_where,
}
use auto_ops.Errors.{Thrown}
use auto_ops.Exec.{◌>>=◌, Result, ok, err}
use auto_ops.Exec.Triple.{Post, Keeps, keeps}
use auto_ops.Organization.{owner, admin, get_organization_role}
use auto_ops.Operation.{pending_approval, queued}
use auto_ops.Operation.Authorization.{approve-allowed_iff, reject-allowed_iff}
use auto_ops.Operation.World.{
  enqueue_operation_job, add_job, World, OperationRow, OperationJobData, has_id, is_operation,
}
use auto_ops.Operation.Service.{AuditRequestContext}
use auto_ops.Operation.Governed.{row_id}
use auto_ops.Operation.Decision.{
  check_approval, check_rejection, commit_approval, approve_operation, approve_row, find_operation,
}

-- The caller may decide on the operation.
abbrev pub MayDecide : (id organization user : String) → World → OperationRow → Type 0
MayDecide id organization user w operation =
    (find_operation id organization w ≡ some operation)
    × (operation.status ≡ pending_approval)
    × ((get_organization_role w.memberships organization user ≡ some owner)
        ⊎ (get_organization_role w.memberships organization user ≡ some admin))
    × (operation.requested_by ≢ some user)

-- The checks of an approval pass, and change nothing, exactly for an owner or administrator of the
-- organization who is not the requester, of an operation of the organization that is pending.
pub check_approval-ok_iff :
    (id organization user : String) (w : World) (operation : OperationRow)
    → (check_approval id organization user w ≡ (ok operation, w))
      ↔ MayDecide id organization user w operation
unfolding check_approval ◌>>=◌
check_approval-ok_iff id organization user w operation = at (find_operation id organization w) refl
  where
    at :
        (found : Option OperationRow)
        → find_operation id organization w ≡ found
        → (check_approval id organization user w ≡ (ok operation, w))
          ↔ MayDecide id organization user w operation
    at none e = ground arith
    at (some o) e = ground (
      arith,
      approve-allowed_iff (get_organization_role w.memberships organization user) user o.status
          o.requested_by,
    )

-- The checks of a rejection pass, and change nothing, for the same callers as those of an approval.
pub check_rejection-ok_iff :
    (id organization user : String) (w : World) (operation : OperationRow)
    → (check_rejection id organization user w ≡ (ok operation, w))
      ↔ MayDecide id organization user w operation
unfolding check_rejection ◌>>=◌
check_rejection-ok_iff id organization user w operation = at (find_operation id organization w) refl
  where
    at :
        (found : Option OperationRow)
        → find_operation id organization w ≡ found
        → (check_rejection id organization user w ≡ (ok operation, w))
          ↔ MayDecide id organization user w operation
    at none e = ground arith
    at (some o) e = ground (
      arith,
      reject-allowed_iff (get_organization_role w.memberships organization user) user o.status
          o.requested_by,
    )

-- What the writes of an approval leave, whatever the row's status has become since its checks.
pub commit_approval-stores :
    (now : ℕ) (organization user : String) (reason : Option String) (context : AuditRequestContext)
    (operation stored : OperationRow) (w : World)
    → find_first (has_id operation.id) w.operations ≡ some stored
    → w.queue_available ≡ true
    → let done = commit_approval now organization user reason context operation w in
      (done.0 ≡ ok (approve_row now user stored))
      × (find_first (has_id operation.id) done.1.operations ≡ some (approve_row now user stored))
      × (done.1.jobs
          ≡ add_job
              (record {
                operation_id = stored.id;
                organization_id = organization;
                requested_by = get_or operation.requested_by user;
              })
              w.jobs)
unfolding commit_approval ◌>>=◌ enqueue_operation_job
commit_approval-stores now organization user reason context operation stored w found available =
    rw (found, available)
      (
        refl,
        rw
            (find_first-update_where (has_id operation.id) (approve_row now user) w.operations
              (λ r h. h))
            (rw found refl),
        refl,
      )

-- The job for an operation, in its requester's name.
abbrev pub approved_job : (organization user : String) → OperationRow → OperationJobData
approved_job organization user operation = record {
  operation_id = operation.id;
  organization_id = organization;
  requested_by = get_or operation.requested_by user;
}

-- A row that an approval has queued under the approver's name, of the operation that was asked for.
pub record IsApproved (now : ℕ) (user : String) (before after : OperationRow) : Type 0 where
  pub status : after.status ≡ queued
  pub approver : after.approved_by ≡ some user
  pub approval_time : after.approved_at ≡ some now
  pub same_id : after.id ≡ before.id
  pub same_organization : after.organization_id ≡ before.organization_id
  pub same_provider : after.provider ≡ before.provider
  pub same_type : after.operation_type ≡ before.operation_type
  pub same_input : after.input ≡ before.input
  pub same_requester : after.requested_by ≡ before.requested_by

pub approve_row-IsApproved :
    (now : ℕ) (user : String) (r : OperationRow) → IsApproved now user r (approve_row now user r)
approve_row-IsApproved now user r = record {
  status = refl;
  approver = refl;
  approval_time = refl;
  same_id = refl;
  same_organization = refl;
  same_provider = refl;
  same_type = refl;
  same_input = refl;
  same_requester = refl;
}

approve_operation-stores :
    (now : ℕ) (id organization user : String) (reason : Option String)
    (context : AuditRequestContext) (operation : OperationRow) (w : World)
    → Distinct row_id w.operations
    → w.queue_available ≡ true
    → MayDecide id organization user w operation
    → let done = approve_operation now id organization user reason context w in
      (done.0 ≡ ok (approve_row now user operation))
      × (find_first (has_id operation.id) done.1.operations ≡ some (approve_row now user operation))
      × (done.1.jobs ≡ add_job (approved_job organization user operation) w.jobs)
unfolding approve_operation ◌>>=◌
approve_operation-stores now id organization user reason context operation w distinct available
      may =
    rw ((check_approval-ok_iff id organization user w operation).1 may) (
      commit_approval-stores now organization user reason context operation operation w
        (find_first_by_key row_id (is_operation id organization) w.operations {x = operation}
          distinct may.0)
        available)

-- While the queue is available, an owner or administrator who is not the requester approves a pending
-- operation: the row that is stored and returned has the status QUEUED, the approver and the time of the
-- approval, and asks for what it asked for before; and a job for it, in its requester's name, is added.
-- No two rows have one identifier.
pub approve_operation-queues :
    (now : ℕ) (id organization user : String) (reason : Option String)
    (context : AuditRequestContext) (operation : OperationRow) (w : World)
    → Distinct row_id w.operations
    → w.queue_available ≡ true
    → MayDecide id organization user w operation
    → let done = approve_operation now id organization user reason context w in
      (row : OperationRow) × (done.0 ≡ ok row)
      × (find_first (has_id operation.id) done.1.operations ≡ some row)
      × IsApproved now user operation row
      × (done.1.jobs ≡ add_job (approved_job organization user operation) w.jobs)
approve_operation-queues now id organization user reason context operation w distinct available
      may =
    let (returned, stored, jobs) =
      approve_operation-stores now id organization user reason context operation w distinct
        available may in
    (
      approve_row now user operation,
      returned,
      stored,
      approve_row-IsApproved now user operation,
      jobs,
    )

check_approval-same :
    (id organization user : String) (w : World)
    → Keeps (λ v. v ≡ w) (check_approval id organization user)
unfolding check_approval
check_approval-same id organization user w = search keeps depth 12

-- Where no operation is the caller's to decide, an approval throws and changes nothing.
pub approve_operation-refused :
    (now : ℕ) (id organization user : String) (reason : Option String)
    (context : AuditRequestContext) (w : World)
    → ((operation : OperationRow) → ¬ MayDecide id organization user w operation)
    → (e : Thrown) × (approve_operation now id organization user reason context w ≡ (err e, w))
unfolding approve_operation ◌>>=◌
approve_operation-refused now id organization user reason context w none_may =
    at (check_approval id organization user w) refl
      ((check_approval-same id organization user w).at w refl)
  where
    at :
        (r : Result OperationRow × World)
        → check_approval id organization user w ≡ r
        → Post (λ (_ : OperationRow) v. v ≡ w) (λ v. v ≡ w) r
        → (e : Thrown) × (approve_operation now id organization user reason context w ≡ (err e, w))
    at (ok operation, v) ran same = absurd (
        none_may operation
          ((check_approval-ok_iff id organization user w operation).0 (rw ran (rw same refl))))
    at (err e, v) ran same = (e, rw ran (rw same refl))
