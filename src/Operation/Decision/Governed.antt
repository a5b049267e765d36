-- ===== src/Operation/Decision/Governed.antt =====
-- operation.service.ts, `approveOperation` and `rejectOperation`: their checks and their writes, each
-- against the invariant of the table of operations.
use auto_ops.Prelude.{
  ℕ, ◌≡◌, ◌≢◌, refl, sym, ◌∙◌, String, Option, some, List, update_where, subst, All-update_found,
  Distinct-update_where, find_first_passes, find_first_by_key, arith, All, ◌==◌, eq_iff,
}
use auto_ops.Exec.Triple.{
  Triple, Keeps, keeps, Triple-bind, Triple-gets, Triple-or_throw, Triple-require, Triple-pure,
  Triple-modify, Keeps-bind, Keeps-gets, Keeps-or_throw, Keeps-pure, Keeps-modify,
}
use auto_ops.Operation.Authorization.{approve-allowed_iff, reject-allowed_iff}
use auto_ops.Operation.World.{World, OperationRow, has_id, is_operation}
use auto_ops.Operation.Service.{AuditRequestContext}
use auto_ops.Operation.Decision.{
  check_approval, check_rejection, commit_approval, commit_rejection, approve_row, reject_row,
  find_operation,
}
use auto_ops.Operation.Governed.{
  IsGoverned, Governed, GovernedWorld, Requested, Holding, Holding-update, row_id, enqueue-Keeps,
}

-- What an approver's update makes of a governed row of somebody else.
approve_row-IsGoverned :
    (now : ℕ) (user : String) (r : OperationRow)
    → r.requested_by ≢ some user
    → IsGoverned r
    → IsGoverned (approve_row now user r)
approve_row-IsGoverned now user r ne g = ground arith

reject_row-IsGoverned :
    (now : ℕ) (user : String) (reason : Option String) (r : OperationRow)
    → r.requested_by ≢ some user
    → IsGoverned r
    → IsGoverned (reject_row now user reason r)
reject_row-IsGoverned now user reason r ne g = ground arith

-- An update of one row, by a user that did not request it.
decide-Governed :
    (id user : String) (f : OperationRow → OperationRow) (who : Option String)
    (rows : List OperationRow)
    → who ≢ some user
    → ((r : OperationRow) → (f r).id ≡ r.id)
    → ((r : OperationRow) → r.requested_by ≢ some user → IsGoverned r → IsGoverned (f r))
    → Requested id who rows
    → Governed rows
    → Governed (update_where (has_id id) f rows)
decide-Governed id user f who rows ne same step q g = record {
  distinct = Distinct-update_where row_id (has_id id) f rows same g.distinct;
  each =
      subst (λ i. All IsGoverned (update_where (λ r. r.id == i) f rows)) known
        (All-update_found row_id IsGoverned (has_id id) f rows {x = q.row} g.distinct q.found
          (step q.row (λ e. ne (sym q.holds ∙ e))) g.each);
}
  where
    known : q.row.id ≡ id
    known = (eq_iff q.row.id id).0 (find_first_passes (has_id id) rows {x = q.row} q.found)

-- Between the checks and the writes of a decision: the operation was requested by somebody else.
abbrev pub Pending : (user : String) → OperationRow → World → Type 0
Pending user operation w =
    Requested operation.id operation.requested_by w.operations
    × (operation.requested_by ≢ some user)

found-Requested :
    (id organization : String) (w : World) {r : OperationRow}
    → Governed w.operations
    → find_operation id organization w ≡ some r
    → Requested r.id r.requested_by w.operations
found-Requested id organization w {r} g h = record {
  row = r;
  found = find_first_by_key row_id (is_operation id organization) w.operations {x = r} g.distinct h;
  holds = refl;
}

pub check_approval-Pending :
    (id organization user : String)
    → Triple GovernedWorld
        (check_approval id organization user)
        (λ operation w. GovernedWorld w × Pending user operation w)
        GovernedWorld
unfolding check_approval
check_approval-Pending id organization user = Triple-bind (Triple-gets _) λ found.
    Triple-bind (Triple-or_throw found _ (λ w h. h.0)) λ operation.
      Triple-bind (Triple-require _ _ (λ w h. h.0.0)) λ _. Triple-bind (Triple-gets _) λ role.
        Triple-bind (Triple-require _ _ (λ w h. h.0.0.0.0)) λ _.
          Triple-pure operation (λ w (((((g, read), here), _), _), allowed). (
            g,
            (
              found-Requested id organization w {r = operation} g (read ∙ here),
              ((approve-allowed_iff role user operation.status operation.requested_by).0 allowed).2,
            ),
          ))

pub check_rejection-Pending :
    (id organization user : String)
    → Triple GovernedWorld
        (check_rejection id organization user)
        (λ operation w. GovernedWorld w × Pending user operation w)
        GovernedWorld
unfolding check_rejection
check_rejection-Pending id organization user = Triple-bind (Triple-gets _) λ found.
    Triple-bind (Triple-or_throw found _ (λ w h. h.0)) λ operation.
      Triple-bind (Triple-require _ _ (λ w h. h.0.0)) λ _. Triple-bind (Triple-gets _) λ role.
        Triple-bind (Triple-require _ _ (λ w h. h.0.0.0.0)) λ _.
          Triple-pure operation (λ w (((((g, read), here), _), _), allowed). (
            g,
            (
              found-Requested id organization w {r = operation} g (read ∙ here),
              ((reject-allowed_iff role user operation.status operation.requested_by).0 allowed).2,
            ),
          ))

-- The writes keep the invariant in any world where the operation is still the requester's.
pub commit_approval-Governed :
    (now : ℕ) (organization user : String) (reason : Option String) (context : AuditRequestContext)
    (operation : OperationRow)
    → Triple
        (λ w. GovernedWorld w × Pending user operation w)
        (commit_approval now organization user reason context operation)
        (λ _. GovernedWorld)
        GovernedWorld
unfolding commit_approval
commit_approval-Governed now organization user reason context operation =
    Triple-bind (Triple-gets _) λ found.
      Triple-bind (Triple-or_throw found _ (λ w h. h.0.0)) λ stored.
        Triple-bind
          (Triple-modify _ {Q = GovernedWorld} (λ w (((g, (q, ne)), _), _).
            decide-Governed operation.id user (approve_row now user) operation.requested_by
              w.operations ne (λ r. refl) (λ r. approve_row-IsGoverned now user r) q g))
          λ _. Keeps-bind (Keeps-modify _ (λ w h. h)) λ _.
            Keeps-bind (Keeps-modify _ (λ w h. h))
              λ _. Keeps-bind (enqueue-Keeps Governed _) λ _. Keeps-pure _

pub commit_rejection-Governed :
    (now : ℕ) (organization user : String) (reason : Option String) (context : AuditRequestContext)
    (operation : OperationRow)
    → Triple
        (λ w. GovernedWorld w × Pending user operation w)
        (commit_rejection now organization user reason context operation)
        (λ _. GovernedWorld)
        GovernedWorld
unfolding commit_rejection
commit_rejection-Governed now organization user reason context operation =
    Triple-bind (Triple-gets _) λ found.
      Triple-bind (Triple-or_throw found _ (λ w h. h.0.0)) λ stored.
        Triple-bind
          (Triple-modify _ {Q = GovernedWorld} (λ w (((g, (q, ne)), _), _).
            decide-Governed operation.id user (reject_row now user reason) operation.requested_by
              w.operations ne (λ r. refl) (λ r. reject_row-IsGoverned now user reason r) q g))
          λ _.
            Keeps-bind (Keeps-modify _ (λ w h. h))
              λ _. Keeps-bind (Keeps-modify _ (λ w h. h)) λ _. Keeps-pure _

-- Neither disturbs what the writes themselves keep.
module _ (id : String) (Q : OperationRow → Type 0) where
  pub commit_approval-Holding :
      (now : ℕ) (organization user : String) (reason : Option String)
      (context : AuditRequestContext) (operation : OperationRow)
      → ((r : OperationRow) → Q r → Q (approve_row now user r))
      → Keeps
          (λ w. Holding id Q w.operations)
          (commit_approval now organization user reason context operation)
  unfolding commit_approval
  commit_approval-Holding now organization user reason context operation keep =
      Keeps-bind (Keeps-gets _) λ _. Keeps-bind (Keeps-or_throw _ _) λ _.
        Keeps-bind
          (Keeps-modify _ (λ w h.
            Holding-update id Q _ (approve_row now user) w.operations (λ r. refl) (λ r _. keep r)
              h))
          λ _. Keeps-bind (Keeps-modify _ (λ w h. h)) λ _.
            Keeps-bind (Keeps-modify _ (λ w h. h))
              λ _. Keeps-bind (enqueue-Keeps (Holding id Q) _) λ _. Keeps-pure _

  pub commit_rejection-Holding :
      (now : ℕ) (organization user : String) (reason : Option String)
      (context : AuditRequestContext) (operation : OperationRow)
      → ((r : OperationRow) → Q r → Q (reject_row now user reason r))
      → Keeps
          (λ w. Holding id Q w.operations)
          (commit_rejection now organization user reason context operation)
  unfolding commit_rejection
  commit_rejection-Holding now organization user reason context operation keep =
      Keeps-bind (Keeps-gets _) λ _. Keeps-bind (Keeps-or_throw _ _) λ _.
        Keeps-bind
          (Keeps-modify _ (λ w h.
            Holding-update id Q _ (reject_row now user reason) w.operations (λ r. refl)
              (λ r _. keep r) h))
          λ _.
            Keeps-bind (Keeps-modify _ (λ w h. h))
              λ _. Keeps-bind (Keeps-modify _ (λ w h. h)) λ _. Keeps-pure _

  -- The checks read only.
  pub check_approval-Holding :
      (op organization user : String)
      → Keeps (λ w. Holding id Q w.operations) (check_approval op organization user)
  unfolding check_approval
  check_approval-Holding op organization user = search keeps depth 12

  pub check_rejection-Holding :
      (op organization user : String)
      → Keeps (λ w. Holding id Q w.operations) (check_rejection op organization user)
  unfolding check_rejection
  check_rejection-Holding op organization user = search keeps depth 12
