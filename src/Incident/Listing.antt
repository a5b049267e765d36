-- ===== src/Incident/Listing.antt =====
-- incident.service.ts: `listIncidents`, with `_requireOrganizationMember`. How the database compares
-- texts in a search, in any case, is an argument, and so is the order of incidents opened at one time.
pub mod Laws
mod Tests
use auto_ops.Prelude.{
  ℕ, ◌+◌, Bool, true, false, not, ◌&&◌, ◌||◌, String, Option, none, some, List, [], ◌∷◌, ◌==◌,
  if◌then◌else◌, ltb, leb, nat_eq, is_some, is_truthy, get_or, holds_text, count_where,
  filter_where, take, length,
}
use auto_ops.Errors.{unauthorized_error}
use auto_ops.Exec.{Exec, pure, gets, require, ◌>>=◌, ◌>>◌}
use auto_ops.Organization.{get_organization_role}
use auto_ops.Paging.{sort_by, serve, last_elem?}
use auto_ops.Incident.{IncidentRow, IncidentStatus, IncidentSeverity, IncidentSource}
use auto_ops.Incident.Desk.{Desk}

pub record IncidentFilter : Type 0 where
  pub status : Option IncidentStatus
  pub severity : Option IncidentSeverity
  pub source : Option IncidentSource
  pub primary_resource_node_id : Option String
  pub project_id : Option String
  pub environment_id : Option String
  pub deployment_id : Option String
  pub operation_id : Option String
  pub search : Option String
  pub from : Option ℕ
  pub to : Option ℕ
  pub limit : ℕ
  pub cursor : Option String

abbrev same_status : IncidentStatus → IncidentStatus → Bool
same_status IncidentStatus.opened IncidentStatus.opened = true
same_status IncidentStatus.acknowledged IncidentStatus.acknowledged = true
same_status IncidentStatus.resolved IncidentStatus.resolved = true
same_status IncidentStatus.archived IncidentStatus.archived = true
same_status _ _ = false

abbrev same_severity : IncidentSeverity → IncidentSeverity → Bool
same_severity IncidentSeverity.info IncidentSeverity.info = true
same_severity IncidentSeverity.warning IncidentSeverity.warning = true
same_severity IncidentSeverity.error IncidentSeverity.error = true
same_severity IncidentSeverity.critical IncidentSeverity.critical = true
same_severity _ _ = false

abbrev same_source : IncidentSource → IncidentSource → Bool
same_source IncidentSource.signal_correlation IncidentSource.signal_correlation = true
same_source IncidentSource.manual IncidentSource.manual = true
same_source IncidentSource.system IncidentSource.system = true
same_source _ _ = false

-- The archived incidents are asked for by their status, and are found by the time of their archival.
abbrev has_wanted_status : Option IncidentStatus → IncidentRow → Bool
has_wanted_status none i = not (is_some i.archived_at)
has_wanted_status (some IncidentStatus.archived) i = is_some i.archived_at
has_wanted_status (some status) i = not (is_some i.archived_at) && same_status i.status status

abbrev unless_absent {ℓ} : {A : Type ℓ} → Option A → (A → Bool) → Bool
unless_absent none test = true
unless_absent (some a) test = test a

abbrev unless_blank : Option String → (String → Bool) → Bool
unless_blank wanted test = if is_truthy wanted then test (get_or wanted "") else true

-- The query's `where`.
abbrev pub is_listed :
    (contains : String → String → Bool) (organization : String)
    → IncidentFilter
    → IncidentRow
    → Bool
is_listed contains organization filter i =
    i.organization_id == organization
    && has_wanted_status filter.status i
    && unless_absent filter.severity (same_severity i.severity)
    && unless_absent filter.source (same_source i.source)
    && unless_blank filter.primary_resource_node_id (holds_text i.primary_resource_node_id)
    && unless_blank filter.project_id (holds_text i.project_id)
    && unless_blank filter.environment_id (holds_text i.environment_id)
    && unless_blank filter.deployment_id (holds_text i.deployment_id)
    && unless_blank filter.operation_id (holds_text i.operation_id)
    && unless_blank filter.search (λ t. contains i.title t || contains i.summary t)
    && unless_absent filter.from (λ t. leb t i.opened_at)
    && unless_absent filter.to (λ t. leb i.opened_at t)

pub record IncidentListResponse : Type 0 where
  pub incidents : List IncidentRow
  pub total : ℕ
  pub limit : ℕ
  pub has_more : Bool
  pub next_cursor : Option String

abbrev id_of : Option IncidentRow → Option String
id_of none = none
id_of (some i) = some i.id

abbrev pub cursor_of : Option String → Option String
cursor_of cursor = if is_truthy cursor then cursor else none

-- What is made of the rows that the query returned, of which one more than a page was asked for.
abbrev pub page_of : (limit total : ℕ) → List IncidentRow → IncidentListResponse
page_of limit total items =
    let has_more = ltb limit (length items) in
    let page = if has_more then take limit items else items in
    record {
      incidents = page;
      total = total;
      limit = limit;
      has_more = has_more;
      next_cursor = if has_more then id_of (last_elem? page) else none;
    }

module _ (contains : String → String → Bool) (ties : IncidentRow → IncidentRow → Bool)
    (organization : String) where
  -- The latest opened first.
  abbrev is_before : IncidentRow → IncidentRow → Bool
  is_before i j = ltb j.opened_at i.opened_at || nat_eq j.opened_at i.opened_at && ties i j

  -- The rows of a listing, in order.
  unfoldable pub listing : IncidentFilter → Desk → List IncidentRow
  unfolding sort_by
  listing filter d =
      sort_by is_before (filter_where (is_listed contains organization filter) d.incidents)

  -- The response to somebody who may see it.
  unfoldable pub page : IncidentFilter → Desk → IncidentListResponse
  unfolding listing serve last_elem?
  page filter d =
      page_of filter.limit (count_where (is_listed contains organization filter) d.incidents)
        (serve (λ i. i.id) (cursor_of filter.cursor) 0 (filter.limit + 1) (listing filter d))

  unfoldable pub list_incidents : (user : String) → IncidentFilter → Exec Desk IncidentListResponse
  unfolding page
  list_incidents user filter = do
    role ← gets (λ d. get_organization_role d.memberships organization user)
    require (is_some role) (unauthorized_error "You do not have permission to view incidents.")
    gets (page filter)
