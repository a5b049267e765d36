-- ===== src/Incident/Sweep/Laws.antt =====
-- incident.service.ts: what `correlateSignalsForOrg` reports and keeps.
use auto_ops.Prelude.{
  ℕ, ◌+◌, ◌≡◌, ◌≤◌, refl, Bool, String, List, [], ◌∷◌, length, ltb, All, All-map, filter_where,
  count_where, arith, Bool-cases, inl, inr,
}
use auto_ops.Errors.{Thrown}
use auto_ops.Exec.{◌>>=◌, ok, err}
use auto_ops.Exec.Triple.{outcome-cases}
use auto_ops.Incident.Desk.{Desk, SignalRow}
use auto_ops.Incident.Correlation.{CorrelationAction, correlate_signal}
use auto_ops.Incident.Correlation.Counted.{Counted, correlate_signal-Counted}
use auto_ops.Incident.Sweep.{
  CorrelationCounts, is_due, insert_by_time, sort_by_time, due_signals, tally, correlate_each,
  correlate_signals_for_org, no_counts,
}

-- The counts of a run.
abbrev total : CorrelationCounts → ℕ
total c = c.created_count + c.updated_count + c.skipped_signal_count

tally-total : (a : CorrelationAction) (c : CorrelationCounts) → total (tally a c) ≡ total c + 1
unfolding tally
tally-total a c = ground arith

abbrev IsConsistent : CorrelationCounts → Type 0
IsConsistent c = c.linked_signal_count ≡ c.created_count + c.updated_count

tally-IsConsistent :
    (a : CorrelationAction) (c : CorrelationCounts) → IsConsistent c → IsConsistent (tally a c)
unfolding tally
tally-IsConsistent a c h = ground arith

each-counts :
    (now : ℕ) (fresh : String → String) (organization : String) (ss : List SignalRow)
    (c r : CorrelationCounts) (d v : Desk)
    → IsConsistent c
    → correlate_each now fresh organization ss c d ≡ (ok r, v)
    → (total r ≡ total c + length ss) × IsConsistent r
unfolding correlate_each ◌>>=◌
each-counts now fresh organization [] c r d v k h = (ground arith, ground arith)
each-counts now fresh organization (s ∷ ss) c r d v k h =
    elim (outcome-cases (correlate_signal now (fresh s.id) organization s.id d)) [
      | inl q ↦
          let ran = rw q.2 at h in
          let (counted, consistent) =
            each-counts now fresh organization ss (tally q.0 c) r q.1 v (tally-IsConsistent q.0 c k)
              ran in
          (omega (arith, counted, tally-total q.0 c), consistent)
      | inr q ↦ let bad = rw q.2 at h in absurd (ground (arith, bad))
    ]

length-insert : (s : SignalRow) (ss : List SignalRow) → length (insert_by_time s ss) ≡ length ss + 1
unfolding insert_by_time
length-insert s [] = omega arith
length-insert s (t ∷ ts) = elim (Bool-cases (ltb t.observed_at s.observed_at)) [
  | inl e ↦ rw e (omega (arith, length-insert s ts))
  | inr e ↦ rw e (omega arith)
]

length-sort : (ss : List SignalRow) → length (sort_by_time ss) ≡ length ss
unfolding sort_by_time
length-sort [] = refl
length-sort (s ∷ ss) = omega (arith, length-insert s (sort_by_time ss), length-sort ss)

length-filter :
    (p : SignalRow → Bool) (ss : List SignalRow) → length (filter_where p ss) ≡ count_where p ss
unfolding filter_where count_where
length-filter p [] = refl
length-filter p (s ∷ ss) = elim (Bool-cases (p s)) [
  | inl e ↦ rw e (omega (arith, length-filter p ss))
  | inr e ↦ rw e (omega (arith, length-filter p ss))
]

-- A run that returns has counted every due signal of the organization once, as created, updated or
-- skipped, and its count of linked signals is that of the created and updated ones.
pub correlate_signals_for_org-counts :
    (now : ℕ) (fresh : String → String) (organization : String) (r : CorrelationCounts) (d v : Desk)
    → correlate_signals_for_org now fresh organization d ≡ (ok r, v)
    → (r.created_count + r.updated_count + r.skipped_signal_count
        ≡ count_where (is_due organization) d.signals)
      × (r.linked_signal_count ≡ r.created_count + r.updated_count)
unfolding correlate_signals_for_org due_signals ◌>>=◌
correlate_signals_for_org-counts now fresh organization r d v h =
    let (counted, consistent) =
      each-counts now fresh organization
        (sort_by_time (filter_where (is_due organization) d.signals)) no_counts r d v refl h in
    (
      omega (
        arith,
        counted,
        length-sort (filter_where (is_due organization) d.signals),
        length-filter (is_due organization) d.signals,
      ),
      consistent,
    )

each-Counted :
    (now : ℕ) (fresh : String → String) (organization : String) (ss : List SignalRow)
    (c : CorrelationCounts) (d : Desk)
    → Counted d
    → Counted (correlate_each now fresh organization ss c d).1
unfolding correlate_each ◌>>=◌
each-Counted now fresh organization [] c d h = h
each-Counted now fresh organization (s ∷ ss) c d h =
    let kept = correlate_signal-Counted now (fresh s.id) organization s.id d h in
    elim (outcome-cases (correlate_signal now (fresh s.id) organization s.id d)) [
      | inl q ↦ rw q.2 (each-Counted now fresh organization ss (tally q.0 c) q.1 (rw q.2 at kept))
      | inr q ↦ rw q.2 (rw q.2 at kept)
    ]

-- A run keeps the counts of links, even if it throws halfway.
pub correlate_signals_for_org-Counted :
    (now : ℕ) (fresh : String → String) (organization : String) (d : Desk)
    → Counted d
    → Counted (correlate_signals_for_org now fresh organization d).1
unfolding correlate_signals_for_org ◌>>=◌
correlate_signals_for_org-Counted now fresh organization d h =
    each-Counted now fresh organization (due_signals organization d) no_counts d h

-- A run stops at the first signal whose correlation throws: those after it are not correlated.
pub correlate_signals_for_org-stops :
    (now : ℕ) (fresh : String → String) (organization : String) (s : SignalRow)
    (ss : List SignalRow) (e : Thrown) (d : Desk)
    → due_signals organization d ≡ s ∷ ss
    → correlate_signal now (fresh s.id) organization s.id d ≡ (err e, d)
    → correlate_signals_for_org now fresh organization d ≡ (err e, d)
unfolding correlate_signals_for_org correlate_each ◌>>=◌
correlate_signals_for_org-stops now fresh organization s ss e d due throws = rw (due, throws) refl

-- The signals are correlated from the oldest on.
abbrev IsAfter : SignalRow → SignalRow → Type 0
IsAfter s t = s.observed_at ≤ t.observed_at

abbrev pub IsSorted : List SignalRow → Type 0
IsSorted [] = Unit
IsSorted (s ∷ ss) = All (IsAfter s) ss × IsSorted ss

insert-All :
    (t s : SignalRow) (ss : List SignalRow)
    → IsAfter t s
    → All (IsAfter t) ss
    → All (IsAfter t) (insert_by_time s ss)
unfolding insert_by_time
insert-All t s [] h k = (h, tt)
insert-All t s (u ∷ us) h (k, ks) = elim (Bool-cases (ltb u.observed_at s.observed_at)) [
  | inl e ↦ rw e (k, insert-All t s us h ks)
  | inr e ↦ rw e (h, (k, ks))
]

insert-IsSorted :
    (s : SignalRow) (ss : List SignalRow) → IsSorted ss → IsSorted (insert_by_time s ss)
unfolding insert_by_time
insert-IsSorted s [] h = (tt, tt)
insert-IsSorted s (t ∷ ts) (h, k) = elim (Bool-cases (ltb t.observed_at s.observed_at)) [
  | inl e ↦ rw e (insert-All t s ts (ground (arith, e)) h, insert-IsSorted s ts k)
  | inr e ↦
      let first : IsAfter s t = ground (arith, e) in
      rw e ((first, All-map ts (λ u a. omega (arith, first, a)) h), (h, k))
]

sort-IsSorted : (ss : List SignalRow) → IsSorted (sort_by_time ss)
unfolding sort_by_time
sort-IsSorted [] = tt
sort-IsSorted (s ∷ ss) = insert-IsSorted s (sort_by_time ss) (sort-IsSorted ss)

-- The due signals are in the order of their times, and as many as pass the filter.
pub due_signals-IsSorted :
    (organization : String) (d : Desk)
    → IsSorted (due_signals organization d)
      × (length (due_signals organization d) ≡ count_where (is_due organization) d.signals)
unfolding due_signals
due_signals-IsSorted organization d = (
  sort-IsSorted (filter_where (is_due organization) d.signals),
  omega (
    arith,
    length-sort (filter_where (is_due organization) d.signals),
    length-filter (is_due organization) d.signals,
  ),
)
