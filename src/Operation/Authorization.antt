-- ===== src/Operation/Authorization.antt =====
-- apps/api/src/modules/operations/operation-authorization.service.ts: who may trigger, approve and
-- reject an operation, given the caller's role in the organization.
use auto_ops.Prelude.{
  Bool, true, false, not, ◌≡◌, ◌≢◌, ◌↔◌, ◌⊎◌, String, Option, none, some, if◌then◌else◌, holds_text,
  arith, eq_iff,
}
use auto_ops.Organization.{OrgRole, owner, admin, member}
use auto_ops.Operation.{OperationStatus, pending_approval, is_pending_approval}

pub record OperationAuthorizationDecision : Type 0 where
  pub allowed : Bool
  pub reason : Option String
  pub role : Option OrgRole

abbrev allow : Option OrgRole → OperationAuthorizationDecision
allow role = record { allowed = true; reason = none; role = role }

abbrev deny : String → Option OrgRole → OperationAuthorizationDecision
deny reason role = record { allowed = false; reason = some reason; role = role }

-- `role && TRIGGER_ROLES.has(role)`
abbrev pub may_trigger : Option OrgRole → Bool
may_trigger (some owner) = true
may_trigger (some admin) = true
may_trigger (some member) = true
may_trigger _ = false

-- `role && APPROVAL_ROLES.has(role)`
abbrev pub may_approve : Option OrgRole → Bool
may_approve (some owner) = true
may_approve (some admin) = true
may_approve _ = false

unfoldable pub can_trigger_with_role : Option OrgRole → OperationAuthorizationDecision
can_trigger_with_role role =
    if not (may_trigger role)
    then deny "You do not have permission to trigger this operation." role
    else allow role

-- The operation is given by its status and the user that requested it.
unfoldable pub can_approve_with_role :
    Option OrgRole
    → (user : String) → OperationStatus
    → (requested_by : Option String) → OperationAuthorizationDecision
can_approve_with_role role user status requested_by =
    if not (is_pending_approval status)
    then deny "Only pending approval operations can be approved." role
    else if not (may_approve role)
    then deny "You do not have permission to approve this operation." role
    else if holds_text requested_by user
    then deny "Requester and approver must be different users for approval-required operations."
        role
    else allow role

unfoldable pub can_reject_with_role :
    Option OrgRole
    → (user : String) → OperationStatus
    → (requested_by : Option String) → OperationAuthorizationDecision
can_reject_with_role role user status requested_by =
    if not (is_pending_approval status)
    then deny "Only pending approval operations can be rejected." role
    else if not (may_approve role)
    then deny "You do not have permission to reject this operation." role
    else if holds_text requested_by user
    then deny "Requester and approver must be different users for approval-required operations."
        role
    else allow role

holds_text_iff : (o : Option String) (t : String) → (holds_text o t ≡ true) ↔ (o ≡ some t)
holds_text_iff none t = ground arith
holds_text_iff (some s) t = ground (arith, eq_iff s t)

-- An approval is allowed exactly to an owner or administrator other than the requester, of an
-- operation that is pending.
pub approve-allowed_iff :
    (role : Option OrgRole) (user : String) (status : OperationStatus)
    (requested_by : Option String)
    → ((can_approve_with_role role user status requested_by).allowed ≡ true) ↔ (
        (status ≡ pending_approval)
        × ((role ≡ some owner) ⊎ (role ≡ some admin))
        × (requested_by ≢ some user))
unfolding can_approve_with_role
approve-allowed_iff role user status requested_by = ground (arith, holds_text_iff requested_by user)

-- The same users may reject as may approve.
pub reject-allowed_iff :
    (role : Option OrgRole) (user : String) (status : OperationStatus)
    (requested_by : Option String)
    → ((can_reject_with_role role user status requested_by).allowed ≡ true) ↔ (
        (status ≡ pending_approval)
        × ((role ≡ some owner) ⊎ (role ≡ some admin))
        × (requested_by ≢ some user))
unfolding can_reject_with_role
reject-allowed_iff role user status requested_by = ground (arith, holds_text_iff requested_by user)
