-- ===== src/Worker/Process/Laws.antt =====
-- operations.queue.ts: what becomes of a job.
use auto_ops.Prelude.{
  ℕ, ◌≡◌, ◌≢◌, refl, true, false, String, Option, some, find_first, arith, find_first_passes,
  any-update_where, eq_iff, ◌||◌, is_some, any_of_found, found_by, find_first_of_any,
}
use auto_ops.Errors.{Thrown, app, plain}
use auto_ops.Json.{Fields, str, field, end}
use auto_ops.Exec.{◌>>=◌, Result, ok, err}
use auto_ops.Operation.{OperationProvider, OperationType, queued, succeeded, failed, is_queued}
use auto_ops.Operation.World.{World, OperationRow, OperationJobData, has_id, is_operation}
use auto_ops.Operation.Policy.{evaluate_operation_policy}
use auto_ops.Worker.Incidents.Laws.{create_incident-returns}
use auto_ops.Worker.Process.{
  Executor, executor_of, claim, look_up, finish, process_operation, is_claimable, claim_row,
  execute_operation, succeed_row, fail_row, message_of, update_operation,
}

-- The policy asks for a confirmation, and names a token for it, for exactly the operations that a worker
-- has an executor for. Every operation with no executor needs an approval.
pub confirmation_required-executor_of :
    (flag : Option String) (provider : OperationProvider) (type : OperationType) (input : Fields)
    → let policy = evaluate_operation_policy flag provider type input in
      (policy.confirmation_required ≡ is_some (executor_of provider type))
      × (is_some policy.confirmation_token_label ≡ is_some (executor_of provider type))
      × ((is_some (executor_of provider type) || policy.approval_required) ≡ true)
unfolding evaluate_operation_policy executor_of
confirmation_required-executor_of flag p t input = (ground arith, ground arith, ground arith)

-- A claim is exclusive: once an operation has been asked for, whoever asks again does not get it, and
-- changes nothing.
pub claim-once :
    (now later : ℕ) (id organization : String) (w : World)
    → (claim later id organization (claim now id organization w).1).0 ≡ ok false
unfolding claim ◌>>=◌
claim-once now later id organization w =
    rw
      (any-update_where (is_claimable id organization) (claim_row now) w.operations
        (λ r h. ground arith))
      refl

-- A job whose operation is not queued is skipped without any effect.
pub process_operation-skips :
    (now : ℕ) (incident : String) (run : Executor → OperationRow → Result Fields)
    (job : OperationJobData) (w : World) (operation : OperationRow)
    → find_first (is_operation job.operation_id job.organization_id) w.operations ≡ some operation
    → operation.status ≢ queued
    → process_operation now incident run job w ≡ (ok tt, w)
unfolding process_operation look_up ◌>>=◌
process_operation-skips now incident run job w operation found status = ground arith

-- The row of an operation that ran, and what the job then reports.
abbrev settled_row : (now : ℕ) → Result Fields → OperationRow → OperationRow
settled_row now (ok result) r = succeed_row now result r
settled_row now (err e) r = fail_row now (message_of e) r

abbrev pub report_of : Result Fields → Result (Unit {0})
report_of (ok result) = ok tt
report_of (err e) = err e

module _ (id organization : String) where
  own_claim :
      (operation : OperationRow) (w : World)
      → find_first (is_operation id organization) w.operations ≡ some operation
      → operation.status ≡ queued
      → is_claimable operation.id organization operation ≡ true
  own_claim operation w found status =
      let passes =
        find_first_passes (is_operation id organization) w.operations {x = operation} found in
      ground (arith, eq_iff operation.id operation.id)

  claim-wins :
      (now : ℕ) (operation : OperationRow) (w : World)
      → find_first (is_operation id organization) w.operations ≡ some operation
      → operation.status ≡ queued
      → let done = claim now operation.id organization w in
        (done.0 ≡ ok true)
        × (find_first (is_operation id organization) done.1.operations
            ≡ some (claim_row now operation))
  unfolding claim ◌>>=◌
  claim-wins now operation w found status =
      let own = own_claim operation w found status in
      (
        rw
            (any_of_found (is_operation id organization) (is_claimable operation.id organization)
              w.operations {x = operation} found own)
            refl,
        found_by (is_operation id organization) (is_claimable operation.id organization)
            (claim_row now) w.operations {x = operation} (λ r. refl) found own,
      )

  update-stores :
      (f : OperationRow → OperationRow) (row : OperationRow) (w : World)
      → ((r : OperationRow) → is_operation id organization (f r) ≡ is_operation id organization r)
      → find_first (is_operation id organization) w.operations ≡ some row
      → let done = update_operation row.id f w in
        (stored : OperationRow) × (done.0 ≡ ok (f stored))
        × (find_first (is_operation id organization) done.1.operations ≡ some (f row))
        × (done.1.incidents ≡ w.incidents)
  unfolding update_operation ◌>>=◌
  update-stores f row w same found =
      let own : has_id row.id row ≡ true = (eq_iff row.id row.id).1 refl in
      let (stored, there) = find_first_of_any (has_id row.id) w.operations (
        any_of_found (is_operation id organization) (has_id row.id) w.operations {x = row} found
          own) in
      (
        stored,
        rw there refl,
        rw there (
            found_by (is_operation id organization) (has_id row.id) f w.operations {x = row} same
              found own),
        rw there refl,
      )

  finish-settles :
      (now : ℕ) (incident : String) (operation row : OperationRow) (outcome : Result Fields)
      (w : World)
      → row.id ≡ operation.id
      → find_first (is_operation id organization) w.operations ≡ some row
      → let done = finish now incident operation outcome w in
        (done.0 ≡ report_of outcome)
        × (find_first (is_operation id organization) done.1.operations
            ≡ some (settled_row now outcome row))
  unfolding finish ◌>>=◌
  finish-settles now incident operation row (ok result) w same found =
      let (stored, returned, there, _) =
        update-stores (succeed_row now result) row w (λ r. refl) found in
      rw (← same) (rw returned refl, rw returned there)
  finish-settles now incident operation row (err e) w same found =
      let (stored, returned, there, _) =
        update-stores (fail_row now (message_of e)) row w (λ r. refl) found in
      let (v, ran, kept) =
        create_incident-returns now incident (fail_row now (message_of e) stored)
          (update_operation row.id (fail_row now (message_of e)) w).1 in
      rw (← same) (rw returned (rw ran refl), rw returned (rw ran (rw kept there)))

-- The row that a job finds at its end.
process_operation-stores :
    (now : ℕ) (incident : String) (run : Executor → OperationRow → Result Fields)
    (job : OperationJobData) (w : World) (operation : OperationRow)
    → find_first (is_operation job.operation_id job.organization_id) w.operations ≡ some operation
    → operation.status ≡ queued
    → let done = process_operation now incident run job w in
      let outcome = execute_operation run operation in
      (done.0 ≡ report_of outcome)
      × (find_first (is_operation job.operation_id job.organization_id) done.1.operations
          ≡ some (settled_row now outcome (claim_row now operation)))
unfolding process_operation look_up ◌>>=◌
process_operation-stores now incident run job w operation found status =
    let (won, held) =
      claim-wins job.operation_id job.organization_id now operation w found status in
    let waiting : is_queued operation.status ≡ true = rw status refl in
    rw (found, waiting, won)
      (finish-settles job.operation_id job.organization_id now incident operation
        (claim_row now operation) (execute_operation run operation)
        (claim now operation.id job.organization_id w).1 refl held)

abbrev pub thrown_text : Thrown → String
thrown_text (app e) = e.message
thrown_text (plain message) = message

-- The row of an operation after its execution: succeeded with the result, or failed with the error's
-- message.
abbrev pub HasEnded : (now : ℕ) → Result Fields → (before after : OperationRow) → Type 0
HasEnded now (ok result) before after =
    (after.status ≡ succeeded)
    × (after.result ≡ some result)
    × (after.error ≡ before.error)
    × (after.updated_at ≡ now)
HasEnded now (err e) before after =
    (after.status ≡ failed)
    × (after.result ≡ before.result)
    × (after.error ≡ some (field "message" (str (thrown_text e)) end))
    × (after.updated_at ≡ now)

-- What was asked for, by whom, and who approved it.
abbrev pub SameRequest : (before after : OperationRow) → Type 0
SameRequest before after =
    (after.id ≡ before.id)
    × (after.organization_id ≡ before.organization_id)
    × (after.provider ≡ before.provider)
    × (after.operation_type ≡ before.operation_type)
    × (after.input ≡ before.input)
    × (after.requested_by ≡ before.requested_by)
    × (after.approved_by ≡ before.approved_by)

settled_row-HasEnded :
    (now : ℕ) (outcome : Result Fields) (operation : OperationRow)
    → HasEnded now outcome operation (settled_row now outcome (claim_row now operation))
      × SameRequest operation (settled_row now outcome (claim_row now operation))
settled_row-HasEnded now (ok result) operation =
    ((refl, refl, refl, refl), (refl, refl, refl, refl, refl, refl, refl))
settled_row-HasEnded now (err (app e)) operation =
    ((refl, refl, refl, refl), (refl, refl, refl, refl, refl, refl, refl))
settled_row-HasEnded now (err (plain message)) operation =
    ((refl, refl, refl, refl), (refl, refl, refl, refl, refl, refl, refl))

-- A queued operation is executed. Its row ends as SUCCEEDED with the executor's result, and the job
-- returns; or it ends as FAILED with the message of the executor's error, which the job throws. What was
-- asked for, by whom, and who approved it stay as they were.
pub process_operation-settles :
    (now : ℕ) (incident : String) (run : Executor → OperationRow → Result Fields)
    (job : OperationJobData) (w : World) (operation : OperationRow)
    → find_first (is_operation job.operation_id job.organization_id) w.operations ≡ some operation
    → operation.status ≡ queued
    → let done = process_operation now incident run job w in
      let outcome = execute_operation run operation in
      (row : OperationRow) × (done.0 ≡ report_of outcome)
      × (find_first (is_operation job.operation_id job.organization_id) done.1.operations
          ≡ some row)
      × HasEnded now outcome operation row
      × SameRequest operation row
process_operation-settles now incident run job w operation found status =
    let outcome = execute_operation run operation in
    let (reported, there) =
      process_operation-stores now incident run job w operation found status in
    let (ended, same) = settled_row-HasEnded now outcome operation in
    (settled_row now outcome (claim_row now operation), reported, there, ended, same)

-- A job that is delivered again after its operation ran does nothing, whatever the outcome was: the
-- queue's second attempt at a failed operation is skipped.
pub process_operation-twice :
    (now later : ℕ) (incident another : String)
    (run again : Executor → OperationRow → Result Fields) (job : OperationJobData) (w : World)
    (operation : OperationRow)
    → find_first (is_operation job.operation_id job.organization_id) w.operations ≡ some operation
    → operation.status ≡ queued
    → let done = (process_operation now incident run job w).1 in
      process_operation later another again job done ≡ (ok tt, done)
process_operation-twice now later incident another run again job w operation found status =
    let (_, there) = process_operation-stores now incident run job w operation found status in
    process_operation-skips later another again job (process_operation now incident run job w).1 _
      there (settled_status (execute_operation run operation))
  where
    settled_status :
        (outcome : Result Fields)
        → (settled_row now outcome (claim_row now operation)).status ≢ queued
    settled_status (ok r) = λ e. cc
    settled_status (err e) = λ h. cc
