-- ===== src/Lifecycle/Safety.antt =====
-- What holds in every state that can be reached.
use auto_ops.Prelude.{
  ◌≡◌, ◌≢◌, ◌∙◌, sym, refl, String, Option, none, some, List, [], All-find_first, find_first,
  Bool-cases, ◌⊎◌, inl, inr, ◌++◌, ◌∷◌, true, false, is_some,
}
use auto_ops.Operation.{rejected}
use auto_ops.Operation.World.{World, OperationRow, is_operation, has_id}
use auto_ops.Operation.Governed.{IsGoverned, requires_approval, is_released}
use auto_ops.Operation.Decision.{find_operation}
use auto_ops.Lifecycle.{
  System, Step, Reach, elsewhere, create, approval_check, approval_commit, rejection_check,
  rejection_commit, job_look_up, job_claim, job_finish, start, next, start_of,
}
use auto_ops.Lifecycle.Sound.{Sound, carry, Carries-same, All-take, IsRunnable}
use auto_ops.Lifecycle.Requests.{
  create-Sound, approval_check-Sound, approval_commit-Sound, rejection_check-Sound,
  rejection_commit-Sound,
}
use auto_ops.Lifecycle.Jobs.{look_up-Sound, claim-Sound, finish-Sound}

start-Sound : (w : World) → w.operations ≡ [] → Sound (start_of w)
start-Sound w e = record {
  governed = rw e (record { distinct = tt; each = tt });
  approvals = tt;
  rejections = tt;
  executions = tt;
}

Step-Sound : {s t : System} → Step s t → Sound s → Sound t
Step-Sound {s} (elsewhere w e) h = carry w (Carries-same e) (rw e h.governed) h
Step-Sound {s} (create env now id ask input context) h =
    create-Sound {s = s} env now id ask input context h
Step-Sound {s} (approval_check id organization user) h =
    approval_check-Sound {s = s} id organization user h
Step-Sound {s} (approval_commit before t after now reason context e) h =
    approval_commit-Sound {s = s} before t after now reason context e h
Step-Sound {s} (rejection_check id organization user) h =
    rejection_check-Sound {s = s} id organization user h
Step-Sound {s} (rejection_commit before t after now reason context e) h =
    rejection_commit-Sound {s = s} before t after now reason context e h
Step-Sound {s} (job_look_up job) h = look_up-Sound {s = s} job h
Step-Sound {s} (job_claim before l after now e) h =
    claim-Sound {s = s} l.operation l.organization now _ h
Step-Sound {s} (job_finish before operation after now incident outcome e) h =
    finish-Sound {s = s} before operation after now incident outcome e h

pub Reach-Sound : {s : System} → Reach s → Sound s
Reach-Sound (start w e) = start-Sound w e
Reach-Sound (next {s} {t} r step) = Step-Sound {s = s} {t = t} step (Reach-Sound {s = s} r)

-- The approver of an operation, who is not its requester.
abbrev pub IsApprovedByOther : OperationRow → Type 0
IsApprovedByOther r =
    (approver : String) × (r.approved_by ≡ some approver) × (r.requested_by ≢ some approver)

abbrev pub IsRejectedByOther : OperationRow → Type 0
IsRejectedByOther r =
    (refuser : String) × (r.rejected_by ≡ some refuser) × (r.requested_by ≢ some refuser)

approver_of : (r : OperationRow) → IsGoverned r → is_some r.approved_by ≡ true → IsApprovedByOther r
approver_of r g e = at r.approved_by refl (g.approver_other e) e
  where
    at :
        (o : Option String)
        → r.approved_by ≡ o
        → r.approved_by ≢ r.requested_by
        → is_some r.approved_by ≡ true
        → IsApprovedByOther r
    at (some a) known ne there = (a, known, λ requester. ne (known ∙ sym requester))
    at none known ne there = cc

refuser_of : (r : OperationRow) → IsGoverned r → is_some r.rejected_by ≡ true → IsRejectedByOther r
refuser_of r g e = at r.rejected_by refl (g.refuser_other e) e
  where
    at :
        (o : Option String)
        → r.rejected_by ≡ o
        → r.rejected_by ≢ r.requested_by
        → is_some r.rejected_by ≡ true
        → IsRejectedByOther r
    at (some a) known ne there = (a, known, λ requester. ne (known ∙ sym requester))
    at none known ne there = cc

found-IsGoverned :
    {s : System} (id organization : String) {r : OperationRow}
    → Reach s
    → find_operation id organization s.world ≡ some r
    → IsGoverned r
found-IsGoverned {s} id organization {r} reach found =
    All-find_first IsGoverned (is_operation id organization) s.world.operations {x = r} found
      (Reach-Sound {s = s} reach).governed.each

-- In every reachable state, an operation whose stored policy requires an approval is queued, running,
-- succeeded or failed only if somebody other than its requester has approved it.
pub released-IsApprovedByOther :
    {s : System} (id organization : String) {r : OperationRow}
    → Reach s
    → find_operation id organization s.world ≡ some r
    → requires_approval r ≡ true
    → is_released r.status ≡ true
    → IsApprovedByOther r
released-IsApprovedByOther {s} id organization {r} reach found needed released =
    let g = found-IsGoverned {s = s} id organization {r = r} reach found in
    approver_of r g (g.approved needed released)

-- In every reachable state, a rejected operation was rejected by somebody other than its requester.
pub rejected-IsRejectedByOther :
    {s : System} (id organization : String) {r : OperationRow}
    → Reach s
    → find_operation id organization s.world ≡ some r
    → r.status ≡ rejected
    → IsRejectedByOther r
rejected-IsRejectedByOther {s} id organization {r} reach found refused =
    let g = found-IsGoverned {s = s} id organization {r = r} reach found in
    refuser_of r g (g.refused refused)

-- In every reachable state, what a worker executes is an operation that the table still has under its
-- identifier, and either its stored policy requires no approval or somebody other than its requester
-- has approved it.
pub executed-IsApprovedByOther :
    {s : System} (before : List OperationRow) (operation : OperationRow) (after : List OperationRow)
    → Reach s
    → s.executions ≡ before ++ (operation ∷ after)
    → (r : OperationRow) × (find_first (has_id operation.id) s.world.operations ≡ some r)
      × ((requires_approval r ≡ false) ⊎ IsApprovedByOther r)
executed-IsApprovedByOther {s} before operation after reach e =
    let h = Reach-Sound {s = s} reach in
    let (q, _) = All-take (IsRunnable s.world) before operation after (rw (← e) h.executions) in
    let g =
      All-find_first IsGoverned (has_id operation.id) s.world.operations {x = q.row} q.found
        h.governed.each in
    (
      q.row,
      q.found,
      elim (Bool-cases (requires_approval q.row)) [
        | inl needed ↦ inr (approver_of q.row g (q.holds needed))
        | inr free ↦ inl free
      ],
    )
