-- ===== src/Organization.antt =====
-- The organization's members, projects and environments, as the services read them
-- (packages/database/prisma/schema.prisma), and the queries for a member's role, a project and an
-- environment in use.
use auto_ops.Prelude.{
  ℕ, Bool, ◌&&◌, String, Option, none, some, List, ◌==◌, not, is_some, find_first, any,
}

-- `OrgRole` of packages/types/src/enums.ts.
pub data OrgRole : Type 0 where
  owner admin member viewer : OrgRole

pub record Membership : Type 0 where
  pub user_id : String
  pub organization_id : String
  pub role : OrgRole

pub record Project : Type 0 where
  pub id : String
  pub organization_id : String
  pub archived_at : Option ℕ

pub record Environment : Type 0 where
  pub id : String
  pub project_id : String
  pub kind : String
  pub name : String
  pub slug : String
  pub archived_at : Option ℕ

-- `userId_organizationId` names one membership at most.
abbrev pub is_membership : (user organization : String) → Membership → Bool
is_membership user organization m = m.user_id == user && m.organization_id == organization

abbrev role_of : Option Membership → Option OrgRole
role_of none = none
role_of (some m) = some m.role

-- `OperationAuthorizationService.getOrganizationRole`
unfoldable pub get_organization_role :
    List Membership → (organization user : String) → Option OrgRole
unfolding find_first
get_organization_role members organization user =
    role_of (find_first (is_membership user organization) members)

-- A project of the organization that is not archived.
abbrev pub is_open_project : (id organization : String) → Project → Bool
is_open_project id organization p =
    p.id == id && p.organization_id == organization && not (is_some p.archived_at)

-- An environment that is not archived, of such a project.
abbrev pub is_open_environment : (id organization : String) → List Project → Environment → Bool
is_open_environment id organization projects e =
    e.id == id
    && not (is_some e.archived_at)
    && any (is_open_project e.project_id organization) projects
