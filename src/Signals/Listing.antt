-- ===== src/Signals/Listing.antt =====
-- signal.service.ts: `listSignals` and its `_filterWhere`. How the database compares texts in a search,
-- in any case, is an argument.
pub mod Laws
use auto_ops.Prelude.{
  ℕ, ◌+◌, Bool, true, false, not, ◌&&◌, ◌||◌, String, Option, none, some, List, [], ◌∷◌, ◌==◌,
  if◌then◌else◌, ltb, leb, nat_eq, is_some, is_empty, is_truthy, get_or, holds_text, count_where,
  filter_where, take, codes, length,
}
use auto_ops.Paging.{sort_by, serve, get_elem?}
use auto_ops.Signal.{
  SignalSource, SignalType, SignalSeverity, SignalStatus, source_name, type_name, severity_name,
}
use auto_ops.Signals.{SignalStore, ResourceSignal}

pub data Archived : Type 0 where
  active_only archived_only all : Archived

pub record SignalFilter : Type 0 where
  pub source : Option SignalSource
  pub type : Option SignalType
  pub severity : Option SignalSeverity
  pub status : Option SignalStatus
  pub resource_node_id : Option String
  pub operation_id : Option String
  pub deployment_id : Option String
  pub project_id : Option String
  pub environment_id : Option String
  pub archived : Archived
  pub search : Option String
  pub limit : Option ℕ
  pub cursor : Option String
  pub from : Option ℕ
  pub to : Option ℕ

abbrev status_name : SignalStatus → String
status_name SignalStatus.active = "ACTIVE"
status_name SignalStatus.acknowledged = "ACKNOWLEDGED"
status_name SignalStatus.resolved = "RESOLVED"
status_name SignalStatus.suppressed = "SUPPRESSED"
status_name SignalStatus.expired = "EXPIRED"
status_name SignalStatus.archived = "ARCHIVED"

-- A condition that is left out where the filter has no value.
abbrev unless_absent {ℓ} : {A : Type ℓ} → Option A → (A → Bool) → Bool
unless_absent none test = true
unless_absent (some a) test = test a

-- A text of the filter is left out where it is empty too.
abbrev unless_blank : Option String → (String → Bool) → Bool
unless_blank wanted test = if is_truthy wanted then test (get_or wanted "") else true

abbrev in_archive : Archived → Option ℕ → Bool
in_archive active_only archived_at = not (is_some archived_at)
in_archive archived_only archived_at = is_some archived_at
in_archive all archived_at = true

-- `_filterWhere`
abbrev pub is_listed :
    (contains : String → String → Bool) (organization : String)
    → SignalFilter
    → ResourceSignal
    → Bool
is_listed contains organization filters s =
    s.organization_id == organization
    && unless_absent filters.source (λ x. source_name s.source == source_name x)
    && unless_absent filters.type (λ x. type_name s.type == type_name x)
    && unless_absent filters.severity (λ x. severity_name s.severity == severity_name x)
    && unless_absent filters.status (λ x. status_name s.status == status_name x)
    && unless_blank filters.resource_node_id (holds_text s.resource_node_id)
    && unless_blank filters.operation_id (holds_text s.operation_id)
    && unless_blank filters.deployment_id (holds_text s.deployment_id)
    && unless_blank filters.project_id (holds_text s.project_id)
    && unless_blank filters.environment_id (holds_text s.environment_id)
    && in_archive filters.archived s.archived_at
    && unless_blank filters.search (λ t. contains s.title t || contains s.message t)
    && unless_absent filters.from (λ t. leb t s.observed_at)
    && unless_absent filters.to (λ t. leb s.observed_at t)

abbrev codes_before : List ℕ → List ℕ → Bool
codes_before [] [] = false
codes_before [] (b ∷ t) = true
codes_before (a ∷ s) [] = false
codes_before (a ∷ s) (b ∷ t) = ltb a b || nat_eq a b && codes_before s t

-- `orderBy`: the latest first, and those of one time by their identifiers.
abbrev is_before : ResourceSignal → ResourceSignal → Bool
is_before s t =
    ltb t.observed_at s.observed_at
    || nat_eq t.observed_at s.observed_at && codes_before (codes s.id) (codes t.id)

-- A cursor that is empty is none.
abbrev pub cursor_of : Option String → Option String
cursor_of cursor = if is_truthy cursor then cursor else none

pub record SignalListResponse : Type 0 where
  pub items : List ResourceSignal
  pub next_cursor : Option String
  pub total : ℕ

abbrev pub id_of : Option ResourceSignal → Option String
id_of none = none
id_of (some s) = some s.id

-- What is made of the rows that the query returned, of which one more than a page was asked for.
abbrev pub page_of : (limit total : ℕ) → List ResourceSignal → SignalListResponse
page_of limit total items = record {
  items = take limit items;
  next_cursor = if ltb limit (length items) then id_of (get_elem? items limit) else none;
  total = total;
}

module _ (contains : String → String → Bool) (organization : String) where
  -- The rows of a listing, in order.
  unfoldable pub listing : SignalFilter → SignalStore → List ResourceSignal
  unfolding sort_by
  listing filters w =
      sort_by is_before (filter_where (is_listed contains organization filters) w.signals)

  unfoldable pub list_signals : SignalFilter → SignalStore → SignalListResponse
  unfolding listing serve get_elem?
  list_signals filters w =
      let limit = get_or filters.limit 50 in
      page_of limit (count_where (is_listed contains organization filters) w.signals)
        (serve (λ s. s.id) (cursor_of filters.cursor) 1 (limit + 1) (listing filters w))
