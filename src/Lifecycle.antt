-- ===== src/Lifecycle.antt =====
-- The whole life of operations: requests, approvals, rejections and workers act on one table, each in
-- several steps between which all others may act. A handler that has checked its caller is a ticket
-- until it writes; a worker that has looked a job up, or has claimed it, is one too.
pub mod Sound
pub mod Requests
pub mod Jobs
pub mod Safety
mod Tests
use auto_ops.Prelude.{ℕ, ◌≡◌, String, Option, none, some, List, [], ◌∷◌, ◌++◌, Bool, true, false}
use auto_ops.Json.{Fields}
use auto_ops.Exec.{Result, ok, err}
use auto_ops.Opa.{OpaResponse}
use auto_ops.Opa.Request.{OperationPolicyInput}
use auto_ops.Operation.World.{World, OperationRow, OperationJobData}
use auto_ops.Operation.Service.{
  ServiceEnv, CreateOperationInput, AuditRequestContext, create_queued_operation,
}
use auto_ops.Operation.Decision.{check_approval, check_rejection, commit_approval, commit_rejection}
use auto_ops.Worker.Process.{look_up, claim, finish}

-- A checked decision that is not yet written.
pub record Ticket : Type 0 where
  pub organization : String
  pub user : String
  pub operation : OperationRow

-- A row that a worker has read for a job, and has not yet claimed.
pub record LookUp : Type 0 where
  pub organization : String
  pub operation : OperationRow

pub record System : Type 0 where
  pub world : World
  pub approvals : List Ticket
  pub rejections : List Ticket
  pub look_ups : List LookUp
  -- What workers have claimed and run.
  pub executions : List OperationRow

abbrev pub with_world : World → System → System
with_world w s = record s { world = w }

abbrev pub ticket : (organization user : String) → OperationRow → Ticket
ticket organization user operation = record {
  organization = organization;
  user = user;
  operation = operation;
}

abbrev pub approval_of :
    (organization user : String) → Result OperationRow × World → System → System
approval_of organization user (ok operation, w) s = record s {
  world = w;
  approvals = ticket organization user operation ∷ s.approvals;
}
approval_of organization user (err e, w) s = with_world w s

abbrev pub rejection_of :
    (organization user : String) → Result OperationRow × World → System → System
rejection_of organization user (ok operation, w) s = record s {
  world = w;
  rejections = ticket organization user operation ∷ s.rejections;
}
rejection_of organization user (err e, w) s = with_world w s

abbrev pub look_up_of :
    (organization : String) → Result (Option OperationRow) × World → System → System
look_up_of organization (ok (some operation), w) s = record s {
  world = w;
  look_ups = record { organization = organization; operation = operation } ∷ s.look_ups;
}
look_up_of organization (ok none, w) s = with_world w s
look_up_of organization (err e, w) s = with_world w s

abbrev pub execution_of : OperationRow → Result Bool × World → System → System
execution_of operation (ok true, w) s = record s {
  world = w;
  executions = operation ∷ s.executions;
}
execution_of operation (ok false, w) s = with_world w s
execution_of operation (err e, w) s = with_world w s

pub data Step (s : System) : System → Type 0 where
  -- Any other part of the program, which leaves the table of operations alone.
  elsewhere : (w : World) → w.operations ≡ s.world.operations → Step s (with_world w s)
  create :
      (env : ServiceEnv) (now : ℕ) (id : String) (ask : OperationPolicyInput → OpaResponse)
      (input : CreateOperationInput) (context : AuditRequestContext)
      → Step s (with_world (create_queued_operation env now id ask input context s.world).1 s)
  approval_check :
      (id organization user : String)
      → Step s (approval_of organization user (check_approval id organization user s.world) s)
  approval_commit :
      (before : List Ticket) (t : Ticket) (after : List Ticket) (now : ℕ) (reason : Option String)
      (context : AuditRequestContext)
      → s.approvals ≡ before ++ (t ∷ after)
      → Step s (record s {
        world = (commit_approval now t.organization t.user reason context t.operation s.world).1;
        approvals = before ++ after;
      })
  rejection_check :
      (id organization user : String)
      → Step s (rejection_of organization user (check_rejection id organization user s.world) s)
  rejection_commit :
      (before : List Ticket) (t : Ticket) (after : List Ticket) (now : ℕ) (reason : Option String)
      (context : AuditRequestContext)
      → s.rejections ≡ before ++ (t ∷ after)
      → Step s (record s {
        world = (commit_rejection now t.organization t.user reason context t.operation s.world).1;
        rejections = before ++ after;
      })
  job_look_up :
      (job : OperationJobData) → Step s (look_up_of job.organization_id (look_up job s.world) s)
  job_claim :
      (before : List LookUp) (l : LookUp) (after : List LookUp) (now : ℕ)
      → s.look_ups ≡ before ++ (l ∷ after)
      → Step s (
          execution_of l.operation
            (claim now l.operation.id l.organization s.world)
            (record s { look_ups = before ++ after }))
  job_finish :
      (before : List OperationRow) (operation : OperationRow) (after : List OperationRow) (now : ℕ)
      (incident : String) (outcome : Result Fields)
      → s.executions ≡ before ++ (operation ∷ after)
      → Step s (record s {
        world = (finish now incident operation outcome s.world).1;
        executions = before ++ after;
      })

abbrev pub start_of : World → System
start_of w = record { world = w; approvals = []; rejections = []; look_ups = []; executions = [] }

-- What can happen from a world without operations.
pub data Reach : System → Type 0 where
  start : (w : World) → w.operations ≡ [] → Reach (start_of w)
  next : {s t : System} → Reach s → Step s t → Reach t
