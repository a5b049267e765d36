-- ===== src/Operation/Decision/Races.antt =====
-- operation.service.ts: an approval whose checks and writes have a rejection between them.
use auto_ops.Prelude.{
  Distinct, find_first_by_key, ℕ, ◌≡◌, ◌∙◌, ap, refl, true, String, Option, some, find_first,
  find_first-update_where,
}
use auto_ops.Exec.{◌>>=◌, ok}
use auto_ops.Operation.{rejected}
use auto_ops.Operation.World.{add_job, World, OperationRow, has_id, is_operation}
use auto_ops.Operation.Service.{AuditRequestContext}
use auto_ops.Operation.Governed.{row_id}
use auto_ops.Operation.Decision.{
  check_approval, commit_approval, approve_row, commit_rejection, reject_operation, reject_row,
}
use auto_ops.Operation.Decision.Laws.{
  MayDecide, check_approval-ok_iff, check_rejection-ok_iff, commit_approval-stores, approved_job,
  IsApproved,
}

-- What a rejection leaves.
reject_operation-stores :
    (now : ℕ) (id organization user : String) (reason : Option String)
    (context : AuditRequestContext) (operation : OperationRow) (w : World)
    → Distinct row_id w.operations
    → MayDecide id organization user w operation
    → let done = reject_operation now id organization user reason context w in
      (done.0 ≡ ok (reject_row now user reason operation))
      × (find_first (has_id operation.id) done.1.operations
          ≡ some (reject_row now user reason operation))
      × (done.1.jobs ≡ w.jobs)
      × (done.1.queue_available ≡ w.queue_available)
unfolding reject_operation commit_rejection ◌>>=◌
reject_operation-stores now id organization user reason context operation w distinct may =
    let found =
      find_first_by_key row_id (is_operation id organization) w.operations {x = operation} distinct
        may.0 in
    rw ((check_rejection-ok_iff id organization user w operation).1 may, found)
      (
        refl,
        find_first-update_where (has_id operation.id) (reject_row now user reason) w.operations
              (λ r h. h)
            ∙ rw found refl,
        refl,
        refl,
      )

-- Two who may decide meet: one checks an approval, the other rejects the operation, and the first then
-- writes. Both return. The rejection had stored the status REJECTED, but in the end the row is QUEUED,
-- with its approver and its rejecter, and a job for it is added. The queue is available, and no two rows
-- have one identifier.
pub commit_approval-revives :
    (earlier now : ℕ) (id organization user other : String) (why reason : Option String)
    (context : AuditRequestContext) (operation : OperationRow) (w : World)
    → Distinct row_id w.operations
    → w.queue_available ≡ true
    → MayDecide id organization user w operation
    → MayDecide id organization other w operation
    → let checked = check_approval id organization user w in
      let between = reject_operation earlier id organization other why context checked.1 in
      let done = commit_approval now organization user reason context operation between.1 in
      (no : OperationRow) × (row : OperationRow) × (checked.0 ≡ ok operation)
      × (between.0 ≡ ok no)
      × (find_first (has_id operation.id) between.1.operations ≡ some no)
      × (no.status ≡ rejected)
      × (done.0 ≡ ok row)
      × (find_first (has_id operation.id) done.1.operations ≡ some row)
      × IsApproved now user operation row
      × (row.rejected_by ≡ some other)
      × (done.1.jobs ≡ add_job (approved_job organization user operation) w.jobs)
commit_approval-revives earlier now id organization user other why reason context operation w
      distinct available may other_may =
    let passed = (check_approval-ok_iff id organization user w operation).1 may in
    let no = reject_row earlier other why operation in
    let v = (reject_operation earlier id organization other why context w).1 in
    let (refused, stored, jobs, open_yet) =
      reject_operation-stores earlier id organization other why context operation w distinct
        other_may in
    let (returned, kept, added) =
      commit_approval-stores now organization user reason context operation no v stored
        (open_yet ∙ available) in
    rw passed (
      no,
      approve_row now user no,
      refl,
      refused,
      stored,
      refl,
      returned,
      kept,
      record {
        status = refl;
        approver = refl;
        approval_time = refl;
        same_id = refl;
        same_organization = refl;
        same_provider = refl;
        same_type = refl;
        same_input = refl;
        same_requester = refl;
      },
      refl,
      added ∙ ap (λ q. add_job (approved_job organization user operation) q) jobs,
    )
