-- ===== src/Signals/Resolution/Families.antt =====
-- signal.service.ts: which signals `resolveSignalsByResourceConditionFamily` resolves.
use auto_ops.Prelude.{
  ◌≡◌, ◌≢◌, refl, sym, ◌∙◌, Bool, true, false, not, ◌&&◌, ◌||◌, String, Option, none, some, List,
  [], ◌∷◌, map, ◌==◌, any, filter_where, arith, eq_iff, ==_self, Bool-cases, inl, inr, is_some, All,
  All-map, All-every, All-both, Distinct, filter_where_twice,
}
use auto_ops.Exec.{◌>>=◌}
use auto_ops.Signals.{SignalStore, ResourceSignal}
use auto_ops.Signals.Resolution.{
  is_in, non_empty, is_open, ResourceConditionResolutionInput, is_open_of, is_of_family,
  is_candidate, is_still_open, family_ids, is_nil, has_condition,
  resolve_signals_by_resource_condition_family,
}
use auto_ops.Json.{Json, null, bool, num, str, arr, obj, get_field}
use auto_ops.Signals.Resolution.{names_nothing, holds_of}
use auto_ops.Signals.Resolution.Laws.{Resolves, nothing-Resolves, unless_empty-Resolves}

-- The signals of the family that are still open.
abbrev pub is_due :
    (organization : String) → ResourceConditionResolutionInput → ResourceSignal → Bool
is_due organization input s = is_open_of organization input s && is_of_family input s

ids-other :
    (c : ResourceSignal → Bool) (xs : List ResourceSignal) (id : String)
    → All (λ s. s.id ≢ id) xs
    → is_in (map (λ s. s.id) (filter_where c xs)) id ≡ false
unfolding is_in any filter_where
ids-other c [] id h = refl
ids-other c (x ∷ xs) id (apart, h) =
    let unlike : (x.id == id) ≡ false = ground (arith, eq_iff x.id id) in
    elim (Bool-cases (c x)) [
      | inl e ↦ rw (e, unlike) (ids-other c xs id h)
      | inr e ↦ rw e (ids-other c xs id h)
    ]

abbrev ids : (ResourceSignal → Bool) → List ResourceSignal → List String
ids c xs = map (λ s. s.id) (filter_where c xs)

ids-kept :
    (c : ResourceSignal → Bool) (x : ResourceSignal) (xs : List ResourceSignal) (id : String)
    → c x ≡ true
    → is_in (ids c (x ∷ xs)) id ≡ (x.id == id || is_in (ids c xs) id)
unfolding is_in any filter_where
ids-kept c x xs id e = rw e refl

ids-dropped :
    (c : ResourceSignal → Bool) (x : ResourceSignal) (xs : List ResourceSignal) (id : String)
    → c x ≡ false
    → is_in (ids c (x ∷ xs)) id ≡ is_in (ids c xs) id
unfolding is_in any filter_where
ids-dropped c x xs id e = rw e refl

-- Of rows with distinct identifiers, those selected by a test are found again by their identifiers.
ids-select :
    (c : ResourceSignal → Bool) (xs : List ResourceSignal)
    → Distinct (λ s. s.id) xs
    → All (λ s. is_in (ids c xs) s.id ≡ c s) xs
ids-select c [] d = tt
ids-select c (x ∷ xs) (apart, d) = elim (Bool-cases (c x)) [
  | inl e ↦ (
    ids-kept c x xs x.id e ∙ rw (==_self x.id) (sym e),
    All-both xs (λ s ne here. ids-kept c x xs s.id e ∙ rw (unlike x s ne) here) apart
        (ids-select c xs d),
  )
  | inr e ↦ (
    ids-dropped c x xs x.id e ∙ ids-other c xs x.id apart ∙ sym e,
    All-map xs (λ s here. ids-dropped c x xs s.id e ∙ here) (ids-select c xs d),
  )
]
  where
    unlike : (x s : ResourceSignal) → s.id ≢ x.id → (x.id == s.id) ≡ false
    unlike x s ne = ground (arith, eq_iff x.id s.id, eq_iff s.id x.id)

-- The update by identifiers asks for what the selection found.
still-due :
    (organization : String) (input : ResourceConditionResolutionInput) (w : SignalStore)
    → Distinct (λ s. s.id) w.signals
    → All
        (λ s.
          is_still_open organization (family_ids organization input w) s
          ≡ is_due organization input s)
        w.signals
unfolding family_ids
still-due organization input w d =
    let c = λ (s : ResourceSignal). is_candidate organization input s && is_of_family input s in
    rw (filter_where_twice (is_of_family input) (is_candidate organization input) w.signals)
      (All-map w.signals (λ s found. by_ids organization input s found) (ids-select c w.signals d))
  where
    by_ids :
        (organization : String) (input : ResourceConditionResolutionInput) (s : ResourceSignal)
        {b : Bool}
        → b ≡ (is_candidate organization input s && is_of_family input s)
        → (s.organization_id == organization
            && b
            && is_open s.status
            && not (is_some s.archived_at))
          ≡ is_due organization input s
    by_ids organization input s found = rw found (ground arith)

holds_of-false : (o : Option Json) → holds_of o (λ _. false) ≡ false
holds_of-false none = refl
holds_of-false (some (str s)) = refl
holds_of-false (some null) = refl
holds_of-false (some (bool b)) = refl
holds_of-false (some (num n)) = refl
holds_of-false (some (arr vs)) = refl
holds_of-false (some (obj fs)) = refl

nil_of : (texts : List String) → is_nil texts ≡ true → texts ≡ []
nil_of [] h = refl
nil_of (t ∷ texts) h = cc

-- An input that names nothing selects nothing.
none_due :
    (organization : String) (input : ResourceConditionResolutionInput) (s : ResourceSignal)
    → non_empty input.conditions ≡ []
    → non_empty input.condition_prefixes ≡ []
    → non_empty input.titles ≡ []
    → false ≡ is_due organization input s
unfolding is_in any
none_due organization input s conditions prefixes titles =
    let no_condition : has_condition input s ≡ false =
      rw (conditions, prefixes) (holds_of-false (get_field "condition" s.metadata)) in
    rw (titles, no_condition) (ground arith)

none_still_open :
    (organization : String) (s : ResourceSignal) → is_still_open organization [] s ≡ false
unfolding is_in any
none_still_open organization s = ground arith

-- The signals are selected by one query and a filter, and resolved by another query. Together they
-- resolve and count exactly the open signals of the organization, the source and the type that have one
-- of the titles, or are about the resource and have a condition of the family; no such signal is left.
pub resolve_signals_by_resource_condition_family-Resolves :
    (organization : String) (input : ResourceConditionResolutionInput) (w : SignalStore)
    → Distinct (λ s. s.id) w.signals
    → Resolves
        (is_due organization input)
        w
        (resolve_signals_by_resource_condition_family organization input w)
unfolding resolve_signals_by_resource_condition_family ◌>>=◌
resolve_signals_by_resource_condition_family-Resolves organization input w d =
    elim (Bool-cases (names_nothing input)) [
      | inl e ↦ rw e (
          nothing-Resolves (is_due organization input) w (
            All-every
              (λ s.
                none_due organization input s
                  (nil_of (non_empty input.conditions) (ground (arith, e)))
                  (nil_of (non_empty input.condition_prefixes) (ground (arith, e)))
                  (nil_of (non_empty input.titles) (ground (arith, e))))
              w.signals))
      | inr e ↦ rw e (
          unless_empty-Resolves (is_still_open organization) (is_due organization input) w
            (family_ids organization input w) (none_still_open organization)
            (still-due organization input w d) (λ s _. ground arith))
    ]
