-- ===== src/Lifecycle/Requests.antt =====
-- Requests, approvals and rejections against the invariant of all parts.
use auto_ops.Prelude.{ℕ, ◌≡◌, String, Option, List, ◌∷◌, ◌++◌, arith}
use auto_ops.Exec.{Result, ok, err}
use auto_ops.Exec.Triple.{Post}
use auto_ops.Operation.World.{World, OperationRow}
use auto_ops.Opa.{OpaResponse}
use auto_ops.Opa.Request.{OperationPolicyInput}
use auto_ops.Operation.Service.{
  ServiceEnv, CreateOperationInput, AuditRequestContext, create_queued_operation,
}
use auto_ops.Operation.Governed.{
  Governed, GovernedWorld, Governed-grows, Holding, Holding-grows, Requested,
}
use auto_ops.Operation.Service.Governed.{create_queued_operation-Keeps}
use auto_ops.Operation.Decision.Governed.{
  Pending, check_approval-Pending, check_rejection-Pending, commit_approval-Governed,
  commit_rejection-Governed, commit_approval-Holding, commit_rejection-Holding,
  check_approval-Holding, check_rejection-Holding,
}
use auto_ops.Operation.Decision.{commit_approval, commit_rejection, check_approval, check_rejection}
use auto_ops.Worker.Process.Governed.{IsCleared}
use auto_ops.Lifecycle.{System, Ticket, approval_of, rejection_of, with_world}
use auto_ops.Lifecycle.Sound.{
  Sound, IsWaiting, Carries, waiting, runnable, carry, All-take, settle, after, carries,
}

pub create-Sound :
    {s : System} (env : ServiceEnv) (now : ℕ) (id : String)
    (ask : OperationPolicyInput → OpaResponse) (input : CreateOperationInput)
    (context : AuditRequestContext)
    → Sound s
    → Sound (with_world (create_queued_operation env now id ask input context s.world).1 s)
create-Sound {s} env now id ask input context h =
    let m = create_queued_operation env now id ask input context in
    carry (m s.world).1
      (carries m
        (λ id who.
          create_queued_operation-Keeps (Requested id who) (Holding-grows id _) env now _ ask input
            context)
        (λ id.
          create_queued_operation-Keeps (Holding id IsCleared) (Holding-grows id _) env now _ ask
            input context)
        s.world)
      (after GovernedWorld {m = m}
        (create_queued_operation-Keeps Governed Governed-grows env now id ask input context) s.world
        h.governed)
      h

pub approval_check-Sound :
    {s : System} (id organization user : String)
    → Sound s
    → Sound (approval_of organization user (check_approval id organization user s.world) s)
approval_check-Sound {s} id organization user h =
    at (check_approval id organization user s.world)
      ((check_approval-Pending id organization user).at s.world h.governed)
      (carries (check_approval id organization user)
        (λ id' who. check_approval-Holding id' (λ r. r.requested_by ≡ who) id organization user)
        (λ id'. check_approval-Holding id' IsCleared id organization user) s.world)
  where
    at :
        (r : Result OperationRow × World)
        → Post (λ o w. GovernedWorld w × Pending user o w) GovernedWorld r
        → Carries s.world r.1
        → Sound (approval_of organization user r s)
    at (ok o, w) (g, p) c = record {
      governed = g;
      approvals = (p, waiting c s.approvals h.approvals);
      rejections = waiting c s.rejections h.rejections;
      executions = runnable c s.executions h.executions;
    }
    at (err e, w) g c = carry w c g h

pub rejection_check-Sound :
    {s : System} (id organization user : String)
    → Sound s
    → Sound (rejection_of organization user (check_rejection id organization user s.world) s)
rejection_check-Sound {s} id organization user h =
    at (check_rejection id organization user s.world)
      ((check_rejection-Pending id organization user).at s.world h.governed)
      (carries (check_rejection id organization user)
        (λ id' who. check_rejection-Holding id' (λ r. r.requested_by ≡ who) id organization user)
        (λ id'. check_rejection-Holding id' IsCleared id organization user) s.world)
  where
    at :
        (r : Result OperationRow × World)
        → Post (λ o w. GovernedWorld w × Pending user o w) GovernedWorld r
        → Carries s.world r.1
        → Sound (rejection_of organization user r s)
    at (ok o, w) (g, p) c = record {
      governed = g;
      approvals = waiting c s.approvals h.approvals;
      rejections = (p, waiting c s.rejections h.rejections);
      executions = runnable c s.executions h.executions;
    }
    at (err e, w) g c = carry w c g h

pub approval_commit-Sound :
    {s : System} (before : List Ticket) (t : Ticket) (rest : List Ticket) (now : ℕ)
    (reason : Option String) (context : AuditRequestContext)
    → s.approvals ≡ before ++ (t ∷ rest)
    → Sound s
    → Sound (record s {
      world = (commit_approval now t.organization t.user reason context t.operation s.world).1;
      approvals = before ++ rest;
    })
approval_commit-Sound {s} before t rest now reason context e h =
    let m = commit_approval now t.organization t.user reason context t.operation in
    let c =
      carries m
        (λ id who.
          commit_approval-Holding id (λ r. r.requested_by ≡ who) now t.organization t.user reason
            context t.operation (λ r q. q))
        (λ id.
          commit_approval-Holding id IsCleared now t.organization t.user reason context t.operation
            (λ r q. ground arith))
        s.world in
    let (p, others) = All-take (IsWaiting s.world) before t rest (rw (← e) h.approvals) in
    record {
      governed = settle GovernedWorld (m s.world) (
          (commit_approval-Governed now t.organization t.user reason context t.operation).at s.world
            (h.governed, p));
      approvals = waiting c (before ++ rest) others;
      rejections = waiting c s.rejections h.rejections;
      executions = runnable c s.executions h.executions;
    }

pub rejection_commit-Sound :
    {s : System} (before : List Ticket) (t : Ticket) (rest : List Ticket) (now : ℕ)
    (reason : Option String) (context : AuditRequestContext)
    → s.rejections ≡ before ++ (t ∷ rest)
    → Sound s
    → Sound (record s {
      world = (commit_rejection now t.organization t.user reason context t.operation s.world).1;
      rejections = before ++ rest;
    })
rejection_commit-Sound {s} before t rest now reason context e h =
    let m = commit_rejection now t.organization t.user reason context t.operation in
    let c =
      carries m
        (λ id who.
          commit_rejection-Holding id (λ r. r.requested_by ≡ who) now t.organization t.user reason
            context t.operation (λ r q. q))
        (λ id.
          commit_rejection-Holding id IsCleared now t.organization t.user reason context t.operation
            (λ r q. q))
        s.world in
    let (p, others) = All-take (IsWaiting s.world) before t rest (rw (← e) h.rejections) in
    record {
      governed = settle GovernedWorld (m s.world) (
          (commit_rejection-Governed now t.organization t.user reason context t.operation).at
            s.world (h.governed, p));
      rejections = waiting c (before ++ rest) others;
      approvals = waiting c s.approvals h.approvals;
      executions = runnable c s.executions h.executions;
    }
