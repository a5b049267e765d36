-- ===== src/Lifecycle/Sound.antt =====
-- The invariant of all parts together, and how a change of the world carries it over.
use auto_ops.Prelude.{◌≡◌, String, Option, List, [], ◌∷◌, ◌++◌, All, All-map}
use auto_ops.Exec.{Exec, Result, ok, err}
use auto_ops.Exec.Triple.{Post, Keeps}
use auto_ops.Operation.World.{World, OperationRow}
use auto_ops.Operation.Governed.{GovernedWorld, Holding, Requested}
use auto_ops.Operation.Decision.Governed.{Pending}
use auto_ops.Worker.Process.Governed.{IsCleared}
use auto_ops.Lifecycle.{System, Ticket, with_world}

abbrev pub IsWaiting : World → Ticket → Type 0
IsWaiting w t = Pending t.user t.operation w

abbrev pub IsRunnable : World → OperationRow → Type 0
IsRunnable w operation = Holding operation.id IsCleared w.operations

pub record Sound (s : System) : Type 0 where
  pub governed : GovernedWorld s.world
  pub approvals : All (IsWaiting s.world) s.approvals
  pub rejections : All (IsWaiting s.world) s.rejections
  pub executions : All (IsRunnable s.world) s.executions

-- What a step leaves of the facts that tickets and executions stand on.
pub record Carries (w v : World) : Type 0 where
  pub requested :
      (id : String) (who : Option String)
      → Requested id who w.operations
      → Requested id who v.operations
  pub cleared :
      (id : String) → Holding id IsCleared w.operations → Holding id IsCleared v.operations

module _ {w v : World} (c : Carries w v) where
  pub waiting : (ts : List Ticket) → All (IsWaiting w) ts → All (IsWaiting v) ts
  waiting ts h =
      All-map ts (λ t (q, ne). (c.requested t.operation.id t.operation.requested_by q, ne)) h

  pub runnable : (os : List OperationRow) → All (IsRunnable w) os → All (IsRunnable v) os
  runnable os h = All-map os (λ o q. c.cleared o.id q) h

pub Carries-same : {w v : World} → v.operations ≡ w.operations → Carries w v
Carries-same e = record { requested = λ id who h. rw e h; cleared = λ id h. rw e h }

pub carry :
    {s : System} (v : World)
    → Carries s.world v
    → GovernedWorld v
    → Sound s
    → Sound (with_world v s)
carry {s} v c g h = record {
  governed = g;
  approvals = waiting c s.approvals h.approvals;
  rejections = waiting c s.rejections h.rejections;
  executions = runnable c s.executions h.executions;
}

module _ {ℓ} {A : Type ℓ} (P : A → Type 0) where
  -- One member of a list, and the others.
  pub All-take :
      (xs : List A) (x : A) (ys : List A) → All P (xs ++ (x ∷ ys)) → P x × All P (xs ++ ys)
  All-take [] x ys (p, h) = (p, h)
  All-take (y ∷ xs) x ys (p, h) = let (q, rest) = All-take xs x ys h in (q, (p, rest))

-- What holds after a return and after a throw holds.
module _ {A : Type 0} (P : World → Type 0) where
  pub settle : (r : Result A × World) → Post (λ (_ : A). P) P r → P r.1
  settle (ok a, w) h = h
  settle (err e, w) h = h

  pub after : {m : Exec World A} → Keeps P m → (w : World) → P w → P (m w).1
  after {m} k w h = settle (m w) (k.at w h)

module _ {A : Type 0} (m : Exec World A) where
  pub carries :
      ((id : String) (who : Option String) → Keeps (λ w. Requested id who w.operations) m)
      → ((id : String) → Keeps (λ w. Holding id IsCleared w.operations) m)
      → (w : World) → Carries w (m w).1
  carries k l w = record {
    requested = λ id who h. after (λ v. Requested id who v.operations) {m = m} (k id who) w h;
    cleared = λ id h. after (λ v. Holding id IsCleared v.operations) {m = m} (l id) w h;
  }
