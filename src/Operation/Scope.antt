-- ===== src/Operation/Scope.antt =====
-- operation.service.ts, `_validateOperationScope`: the project and the environment of a request must
-- be the organization's and not archived. An empty identifier counts as none.
use auto_ops.Prelude.{
  ◌≡◌, arith, Bool, true, ◌||◌, String, Option, none, some, ◌==◌, if◌then◌else◌, find_first, any,
}
use auto_ops.Errors.{not_found_error}
use auto_ops.Exec.{ok, Exec, pure, gets, or_throw, require, ◌>>=◌, ◌>>◌}
use auto_ops.Exec.Triple.{Keeps, keeps}
use auto_ops.Organization.{Environment, is_open_project, is_open_environment}
use auto_ops.Opa.Request.{EnvironmentScope}
use auto_ops.Operation.World.{World}

abbrev scope_of : Environment → EnvironmentScope
scope_of e = record { kind = e.kind; name = e.name; slug = e.slug }

abbrev found_project : (project : Option String) (organization : String) → World → Bool
found_project none organization w = true
found_project (some id) organization w =
    id == "" || any (is_open_project id organization) w.projects

abbrev belongs_to : Option String → Environment → Bool
belongs_to none e = true
belongs_to (some project) e = project == "" || e.project_id == project

-- `_validateOperationScope`; an empty identifier counts as none.
unfoldable pub validate_operation_scope :
    (organization : String) (project environment : Option String)
    → Exec World (Option EnvironmentScope)
validate_operation_scope organization project none = do
  known ← gets (found_project project organization)
  require known (not_found_error "Project")
  pure none
validate_operation_scope organization project (some environment) = do
  known ← gets (found_project project organization)
  require known (not_found_error "Project")
  if environment == "" then pure none else do
    row ←
        gets
          (λ w. find_first (is_open_environment environment organization w.projects) w.environments)
    found ← or_throw row (not_found_error "Environment")
    require (belongs_to project found) (not_found_error "Environment")
    pure (some (scope_of found))

-- The checks read only: they keep whatever holds.
pub scope-Keeps :
    (P : World → Type 0) (organization : String) (project environment : Option String)
    → Keeps P (validate_operation_scope organization project environment)
unfolding validate_operation_scope
scope-Keeps P organization project none = search keeps
scope-Keeps P organization project (some environment) = search keeps depth 12

-- The checks depend on the projects and the environments only.
pub validate-reads :
    (organization : String) (project environment : Option String) (w v : World)
    (scope : Option EnvironmentScope)
    → v.projects ≡ w.projects
    → v.environments ≡ w.environments
    → validate_operation_scope organization project environment w ≡ (ok scope, w)
    → validate_operation_scope organization project environment v ≡ (ok scope, v)
unfolding validate_operation_scope ◌>>=◌
validate-reads organization project none w v scope e f h = ground arith
validate-reads organization project (some environment) w v scope e f h = ground arith
