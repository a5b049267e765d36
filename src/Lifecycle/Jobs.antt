-- ===== src/Lifecycle/Jobs.antt =====
-- The worker's steps against the invariant of all parts.
use auto_ops.Prelude.{ℕ, ◌≡◌, refl, String, Option, none, some, List, ◌∷◌, ◌++◌, Bool, true, false}
use auto_ops.Json.{Fields}
use auto_ops.Exec.{Result, ok, err}
use auto_ops.Exec.Triple.{Post}
use auto_ops.Operation.World.{World, OperationRow, OperationJobData}
use auto_ops.Operation.Governed.{GovernedWorld, Holding, Requested}
use auto_ops.Worker.Process.{look_up, claim, finish}
use auto_ops.Worker.Process.Governed.{
  IsCleared, claim-Governed, claim-Holding, finish-Governed, finish-Holding, look_up-Keeps,
}
use auto_ops.Lifecycle.{System, LookUp, look_up_of, execution_of}
use auto_ops.Lifecycle.Sound.{
  Sound, IsRunnable, Carries, waiting, runnable, carry, All-take, settle, carries,
}

pub look_up-Sound :
    {s : System} (job : OperationJobData)
    → Sound s
    → Sound (look_up_of job.organization_id (look_up job s.world) s)
look_up-Sound {s} job h =
    at (look_up job s.world) ((look_up-Keeps GovernedWorld job).at s.world h.governed) (
      carries (look_up job) (λ id who. look_up-Keeps (λ w. Requested id who w.operations) job)
        (λ id. look_up-Keeps (λ w. Holding id IsCleared w.operations) job) s.world)
  where
    at :
        (r : Result (Option OperationRow) × World)
        → Post (λ (_ : Option OperationRow). GovernedWorld) GovernedWorld r
        → Carries s.world r.1
        → Sound (look_up_of job.organization_id r s)
    at (ok (some o), w) g c = record {
      governed = g;
      approvals = waiting c s.approvals h.approvals;
      rejections = waiting c s.rejections h.rejections;
      executions = runnable c s.executions h.executions;
    }
    at (ok none, w) g c = carry w c g h
    at (err e, w) g c = carry w c g h

pub claim-Sound :
    {s : System} (operation : OperationRow) (organization : String) (now : ℕ) (rest : List LookUp)
    → Sound s
    → Sound (
        execution_of operation
          (claim now operation.id organization s.world)
          (record s { look_ups = rest }))
claim-Sound {s} operation organization now rest h =
    at (claim now operation.id organization s.world)
      ((claim-Governed operation.id organization now).at s.world h.governed)
      (carries (claim now operation.id organization)
        (λ id who.
          claim-Holding operation.id organization id (λ r. r.requested_by ≡ who) now (λ r q. q))
        (λ id. claim-Holding operation.id organization id IsCleared now (λ r q. q)) s.world)
  where
    at :
        (r : Result Bool × World)
        → Post
            (λ claimed w.
              GovernedWorld w × (claimed ≡ true → Holding operation.id IsCleared w.operations))
            GovernedWorld
            r
        → Carries s.world r.1
        → Sound (execution_of operation r (record s { look_ups = rest }))
    at (ok true, w) (g, q) c = record {
      governed = g;
      approvals = waiting c s.approvals h.approvals;
      rejections = waiting c s.rejections h.rejections;
      executions = (q refl, runnable c s.executions h.executions);
    }
    at (ok false, w) (g, q) c = record {
      governed = g;
      approvals = waiting c s.approvals h.approvals;
      rejections = waiting c s.rejections h.rejections;
      executions = runnable c s.executions h.executions;
    }
    at (err e, w) g c = record {
      governed = g;
      approvals = waiting c s.approvals h.approvals;
      rejections = waiting c s.rejections h.rejections;
      executions = runnable c s.executions h.executions;
    }

pub finish-Sound :
    {s : System} (before : List OperationRow) (operation : OperationRow) (rest : List OperationRow)
    (now : ℕ) (incident : String) (outcome : Result Fields)
    → s.executions ≡ before ++ (operation ∷ rest)
    → Sound s
    → Sound (record s {
      world = (finish now incident operation outcome s.world).1;
      executions = before ++ rest;
    })
finish-Sound {s} before operation rest now incident outcome e h =
    let m = finish now incident operation outcome in
    let c =
      carries m
        (λ id who.
          finish-Holding id (λ r. r.requested_by ≡ who) now incident operation outcome
            (λ result r q. q) (λ message r q. q))
        (λ id.
          finish-Holding id IsCleared now incident operation outcome (λ result r q. q)
            (λ message r q. q))
        s.world in
    let (p, others) = All-take (IsRunnable s.world) before operation rest (rw (← e) h.executions) in
    record {
      governed =
          settle GovernedWorld (m s.world)
            ((finish-Governed now incident operation outcome).at s.world (h.governed, p));
      approvals = waiting c s.approvals h.approvals;
      rejections = waiting c s.rejections h.rejections;
      executions = runnable c (before ++ rest) others;
    }
