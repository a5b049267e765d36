-- ===== src/Signals/Resolution.antt =====
-- signal.service.ts: `getSignal`, `resolveSignal`, `archiveSignal`, `resolveSignalsByFingerprints`,
-- `resolveSignalsByTitles` and `resolveSignalsByResourceConditionFamily`.
pub mod Laws
pub mod Families
use auto_ops.Prelude.{
  ℕ, Bool, true, false, not, ◌&&◌, ◌||◌, String, Option, none, some, List, [], ◌∷◌, ◌==◌,
  if◌then◌else◌, any, find_first, update_where, count_where, filter_where, is_empty, is_some, codes,
  nat_eq, map,
}
use auto_ops.Prelude.Search.{starts_with}
use auto_ops.Errors.{not_found_error}
use auto_ops.Exec.{Exec, pure, gets, or_throw, modify, require, ◌>>=◌, ◌>>◌}
use auto_ops.Json.{Json, str, Fields, get_field}
use auto_ops.Signal.{SignalSource, SignalType, SignalStatus, source_name, type_name}
use auto_ops.Signals.{SignalStore, ResourceSignal}

-- Whether a text is in a list: `{ in: [...] }`, `includes`, `has`.
unfoldable pub is_in : List String → String → Bool
is_in texts t = any (λ s. s == t) texts

-- `[...new Set(texts)]`
unfoldable pub distinct : List String → List String
distinct [] = []
distinct (t ∷ texts) = t ∷ filter_where (λ s. not (s == t)) (distinct texts)

-- `filter(Boolean)`
abbrev pub non_empty : List String → List String
non_empty = filter_where (λ t. not (is_empty t))

-- `updateMany`: every row that passes, and how many they are.
unfoldable pub update_many :
    (ResourceSignal → Bool) → (ResourceSignal → ResourceSignal) → Exec SignalStore ℕ
update_many p f = do
  count ← gets (λ w. count_where p w.signals)
  modify (λ w. record w { signals = update_where p f w.signals })
  pure count

abbrev pub is_signal : (id organization : String) → ResourceSignal → Bool
is_signal id organization s = s.id == id && s.organization_id == organization

-- `getSignal`
unfoldable pub get_signal : (organization id : String) → Exec SignalStore ResourceSignal
get_signal organization id = do
  found ← gets (λ w. find_first (is_signal id organization) w.signals)
  or_throw found (not_found_error "Signal")

abbrev set_status : SignalStatus → ResourceSignal → ResourceSignal
set_status status s = record s { status = status }

abbrev archive_row : (now : ℕ) → ResourceSignal → ResourceSignal
archive_row now s = record s { status = SignalStatus.archived; archived_at = some now }

abbrev update_one :
    (organization id : String) → (ResourceSignal → ResourceSignal) → Exec SignalStore ResourceSignal
update_one organization id f = do
  count ← update_many (is_signal id organization) f
  require (not (nat_eq count 0)) (not_found_error "Signal")
  get_signal organization id

-- `resolveSignal`
unfoldable pub resolve_signal : (organization id : String) → Exec SignalStore ResourceSignal
unfolding update_many get_signal
resolve_signal organization id = update_one organization id (set_status SignalStatus.resolved)

-- `archiveSignal`
unfoldable pub archive_signal :
    (now : ℕ) (organization id : String) → Exec SignalStore ResourceSignal
unfolding update_many get_signal
archive_signal now organization id = update_one organization id (archive_row now)

abbrev pub resolve_row : ResourceSignal → ResourceSignal
resolve_row s = record s { status = SignalStatus.resolved; archived_at = none }

abbrev pub is_active : SignalStatus → Bool
is_active SignalStatus.active = true
is_active _ = false

abbrev pub is_open : SignalStatus → Bool
is_open SignalStatus.active = true
is_open SignalStatus.acknowledged = true
is_open _ = false

abbrev pub has_active_fingerprint : (organization : String) → List String → ResourceSignal → Bool
has_active_fingerprint organization fingerprints s =
    s.organization_id == organization
    && is_in fingerprints s.fingerprint
    && is_active s.status
    && not (is_some s.archived_at)

abbrev pub unless_empty : List String → (List String → Exec SignalStore ℕ) → Exec SignalStore ℕ
unless_empty [] m = pure 0
unless_empty (t ∷ texts) m = m (t ∷ texts)

-- `resolveSignalsByFingerprints`
unfoldable pub resolve_signals_by_fingerprints :
    (organization : String) → List String → Exec SignalStore ℕ
unfolding update_many distinct is_in
resolve_signals_by_fingerprints organization fingerprints =
    unless_empty (non_empty (distinct fingerprints))
      (λ wanted. update_many (has_active_fingerprint organization wanted) resolve_row)

abbrev pub has_active_title :
    (organization : String) → SignalSource → SignalType → List String → ResourceSignal → Bool
has_active_title organization source type titles s =
    s.organization_id == organization
    && source_name s.source == source_name source
    && type_name s.type == type_name type
    && is_in titles s.title
    && is_active s.status
    && not (is_some s.archived_at)

-- `resolveSignalsByTitles`
unfoldable pub resolve_signals_by_titles :
    (organization : String) → SignalSource → SignalType → List String → Exec SignalStore ℕ
unfolding update_many distinct is_in
resolve_signals_by_titles organization source type titles =
    unless_empty (non_empty (distinct titles))
      (λ wanted. update_many (has_active_title organization source type wanted) resolve_row)

pub record ResourceConditionResolutionInput : Type 0 where
  pub source : SignalSource
  pub type : SignalType
  pub resource_identity : String
  pub conditions : List String
  pub condition_prefixes : List String
  pub titles : List String

-- `typeof value === 'string'`, and then this test.
abbrev pub holds_of : Option Json → (String → Bool) → Bool
holds_of (some (str s)) test = test s
holds_of _ test = false

abbrev pub has_identity : ResourceConditionResolutionInput → ResourceSignal → Bool
has_identity input s =
    holds_of (get_field "resourceIdentity" s.metadata) (λ t. t == input.resource_identity)

abbrev pub is_prefix_of : String → String → Bool
is_prefix_of condition prefix = starts_with (codes condition) (codes prefix)

-- Whether a signal's condition is one of the family.
abbrev pub has_condition : ResourceConditionResolutionInput → ResourceSignal → Bool
has_condition input s = holds_of (get_field "condition" s.metadata) (λ c.
    is_in (non_empty input.conditions) c
    || any (is_prefix_of c) (non_empty input.condition_prefixes))

-- An open signal of the organization, the source and the type.
abbrev pub is_open_of :
    (organization : String) → ResourceConditionResolutionInput → ResourceSignal → Bool
is_open_of organization input s =
    s.organization_id == organization
    && source_name s.source == source_name input.source
    && type_name s.type == type_name input.type
    && is_open s.status
    && not (is_some s.archived_at)

-- The query's `where`.
abbrev pub is_candidate :
    (organization : String) → ResourceConditionResolutionInput → ResourceSignal → Bool
is_candidate organization input s =
    is_open_of organization input s
    && (has_identity input s || is_in (non_empty input.titles) s.title)

-- The filter over the candidates.
abbrev pub is_of_family : ResourceConditionResolutionInput → ResourceSignal → Bool
is_of_family input s =
    is_in (non_empty input.titles) s.title || has_identity input s && has_condition input s

abbrev pub is_still_open : (organization : String) → List String → ResourceSignal → Bool
is_still_open organization ids s =
    s.organization_id == organization
    && is_in ids s.id
    && is_open s.status
    && not (is_some s.archived_at)

abbrev pub is_nil : List String → Bool
is_nil [] = true
is_nil _ = false

abbrev pub names_nothing : ResourceConditionResolutionInput → Bool
names_nothing input =
    is_nil (non_empty input.conditions)
    && is_nil (non_empty input.condition_prefixes)
    && is_nil (non_empty input.titles)

-- The identifiers of the signals to resolve.
unfoldable pub family_ids :
    (organization : String) → ResourceConditionResolutionInput → SignalStore → List String
unfolding is_in
family_ids organization input w =
    map (λ s. s.id)
      (filter_where (is_of_family input) (filter_where (is_candidate organization input) w.signals))

-- `resolveSignalsByResourceConditionFamily`: the signals are selected, and then updated by their
-- identifiers.
unfoldable pub resolve_signals_by_resource_condition_family :
    (organization : String) → ResourceConditionResolutionInput → Exec SignalStore ℕ
unfolding update_many is_in family_ids
resolve_signals_by_resource_condition_family organization input =
    if names_nothing input then pure 0 else do
      ids ← gets (family_ids organization input)
      unless_empty ids (λ some_ids. update_many (is_still_open organization some_ids) resolve_row)
