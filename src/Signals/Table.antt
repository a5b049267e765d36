-- ===== src/Signals/Table.antt =====
-- signal.service.ts: the table of signals as a map from its unique key, and an upsert of it.
use auto_ops.Prelude.{
  ◌≤◌, ◌≡◌, inl, inr, refl, ap, ◌∙◌, true, false, ◌&&◌, String, Option, none, some, ◌∷◌, ◌==◌,
  if◌then◌else◌, arith, eq_iff, Bool-cases, Option-cases, find_first, update_where, count_where,
  find_first-update_where, find_first-update_where_apart, count_where-update_where,
  count_of_not_found, and-eq-true,
}
use mathlib.Core.Option
use auto_ops.Exec.{ok, ◌>>=◌}
use auto_ops.Signals.{SignalStore, ResourceSignal, has_fingerprint, upsert_signal}

-- What the table holds under a key.
abbrev pub View : Type 0
View = (organization fingerprint : String) → Option ResourceSignal

abbrev pub view : SignalStore → View
view w organization fingerprint = find_first (has_fingerprint organization fingerprint) w.signals

-- Every key has one row at most.
abbrev pub IsKeyed : SignalStore → Type 0
IsKeyed w = (o f : String) → count_where (has_fingerprint o f) w.signals ≤ 1

row_key :
    (o f p g : String) (s : ResourceSignal)
    → has_fingerprint o f s ≡ true
    → has_fingerprint p g s ≡ (p == o && g == f)
row_key o f p g s own =
    let (same_o, same_f) = and-eq-true (s.organization_id == o) (s.fingerprint == f) own in
    let eo = (eq_iff s.organization_id o).0 same_o in
    let ef = (eq_iff s.fingerprint f).0 same_f in
    rw (eo, ef) (ground (arith, eq_iff p o, eq_iff o p, eq_iff g f, eq_iff f g))

other_key :
    (o f p g : String) (s : ResourceSignal)
    → (p == o && g == f) ≡ false
    → has_fingerprint o f s ≡ true
    → has_fingerprint p g s ≡ false
other_key o f p g s apart own = row_key o f p g s own ∙ apart

module _ (o f : String) (row : ResourceSignal) (update : ResourceSignal → ResourceSignal) where
  -- The row that an upsert stores.
  abbrev pub stored : Option ResourceSignal → ResourceSignal
  stored none = row
  stored (some s) = update s

  module _ (own : has_fingerprint o f row ≡ true)
      (same_key : (p g : String) (s : ResourceSignal)
        → has_fingerprint p g (update s) ≡ has_fingerprint p g s) where
    -- The upsert in either case.
    upsert_new :
        (w : SignalStore)
        → view w o f ≡ none
        → upsert_signal o f row update w ≡ (ok row, record w { signals = row ∷ w.signals })
    unfolding upsert_signal ◌>>=◌
    upsert_new w e = rw e refl

    upsert_old :
        (w : SignalStore) (s : ResourceSignal)
        → view w o f ≡ some s
        → upsert_signal o f row update w ≡ (
          ok (update s),
          record w { signals = update_where (has_fingerprint o f) update w.signals },
        )
    unfolding upsert_signal ◌>>=◌
    upsert_old w s e = rw e refl

    new_view :
        (w : SignalStore) (p g : String)
        → find_first (has_fingerprint p g) (row ∷ w.signals)
          ≡ (if p == o && g == f then some row else view w p g)
    unfolding find_first
    new_view w p g = rw (row_key o f p g row own) refl

    old_view :
        (w : SignalStore) (s : ResourceSignal)
        → view w o f ≡ some s
        → (p g : String)
        → find_first (has_fingerprint p g) (update_where (has_fingerprint o f) update w.signals)
          ≡ (if p == o && g == f then some (update s) else view w p g)
    old_view w s e p g = elim (Bool-cases (p == o && g == f)) [
      | inl same ↦
          let (so, sf) = and-eq-true (p == o) (g == f) same in
          rw same (
            rw ((eq_iff p o).0 so, (eq_iff g f).0 sf)
              (find_first-update_where (has_fingerprint o f) update w.signals
                  (λ x own_x. same_key o f x ∙ own_x)
                ∙ ap (Option.map update) e))
      | inr apart ↦ rw apart (
          find_first-update_where_apart (has_fingerprint p g) (has_fingerprint o f) update w.signals
            (same_key p g) (λ x own_x. other_key o f p g x apart own_x))
    ]

    pub upsert_lem :
        (w : SignalStore) (p g : String)
        → (view (upsert_signal o f row update w).1 p g
            ≡ (if p == o && g == f then some (stored (view w o f)) else view w p g))
          × ((upsert_signal o f row update w).0 ≡ ok (stored (view w o f)))
          × ((upsert_signal o f row update w).1.nodes ≡ w.nodes)
    unfolding find_first
    upsert_lem w p g = elim (Option-cases (view w o f)) [
      | inl e ↦ rw (upsert_new w e, e) (new_view w p g, refl, refl)
      | inr (s, e) ↦ rw (upsert_old w s e, e) (old_view w s e p g, refl, refl)
    ]

    pub upsert-IsKeyed : (w : SignalStore) → IsKeyed w → IsKeyed (upsert_signal o f row update w).1
    unfolding count_where
    upsert-IsKeyed w keyed p g = elim (Option-cases (view w o f)) [
      | inl e ↦ rw (upsert_new w e) (elim (Bool-cases (p == o && g == f)) [
        | inl same ↦
            let (so, sf) = and-eq-true (p == o) (g == f) same in
            let none_yet = count_of_not_found (has_fingerprint o f) w.signals e in
            let none_here : count_where (has_fingerprint p g) w.signals ≡ 0 =
              rw ((eq_iff p o).0 so, (eq_iff g f).0 sf) none_yet in
            rw (row_key o f p g row own, same) (omega (arith, none_here))
        | inr apart ↦ rw (row_key o f p g row own, apart) (omega (arith, keyed p g))
      ])
      | inr (s, e) ↦ rw (upsert_old w s e) (
          rw
            (count_where-update_where (has_fingerprint p g) (has_fingerprint o f) update w.signals
              (same_key p g))
            (keyed p g))
    ]
