-- ===== src/Signals/Resolution/Laws.antt =====
-- signal.service.ts: which signals the three bulk resolutions resolve.
use auto_ops.Prelude.{
  ℕ, ◌≡◌, refl, sym, ap, ◌∙◌, Bool, true, false, not, ◌&&◌, String, List, [], ◌∷◌, ◌==◌, any,
  count_where, update_where, filter_where, arith, eq_iff, Bool-cases, inl, inr, is_empty, All,
  All-map, All-every, any-update_where, count_of_none, All-any, count_where_agree,
  update_where_agree, count_where-false, update_where-false,
}
use auto_ops.Exec.{Result, ok, ◌>>=◌}
use auto_ops.Signals.{SignalStore, ResourceSignal}
use auto_ops.Signals.Resolution.{
  is_in, distinct, non_empty, update_many, has_active_fingerprint, resolve_signals_by_fingerprints,
  resolve_row, unless_empty,
}

is_in-filter :
    (p : String → Bool) (texts : List String) (t : String)
    → is_in (filter_where p texts) t ≡ (is_in texts t && p t)
unfolding is_in any filter_where
is_in-filter p [] t = refl
is_in-filter p (s ∷ texts) t = elim (Bool-cases (s == t)) [
  | inl same ↦
      let equal : p s ≡ p t = ap p ((eq_iff s t).0 same) in
      elim (Bool-cases (p s)) [
        | inl e ↦ rw (e, same) (sym (sym equal ∙ e))
        | inr e ↦ rw (e, same) (ground (arith, is_in-filter p texts t, sym equal ∙ e))
      ]
  | inr apart ↦ elim (Bool-cases (p s)) [
    | inl e ↦ rw (e, apart) (is_in-filter p texts t)
    | inr e ↦ rw (e, apart) (is_in-filter p texts t)
  ]
]

is_in-distinct : (texts : List String) (t : String) → is_in (distinct texts) t ≡ is_in texts t
unfolding is_in any distinct
is_in-distinct [] t = refl
is_in-distinct (s ∷ texts) t = elim (Bool-cases (s == t)) [
  | inl same ↦ rw same refl
  | inr apart ↦
      let unlike : (t == s) ≡ false = ground (arith, eq_iff s t, eq_iff t s) in
      rw apart (
        is_in-filter (λ r. not (r == s)) (distinct texts) t
        ∙ rw (unlike, is_in-distinct texts t) (ground arith))
]

-- Active signals of the organization with one of these fingerprints, blank ones left out.
abbrev pub is_wanted : (organization : String) → List String → ResourceSignal → Bool
is_wanted organization fingerprints s =
    has_active_fingerprint organization fingerprints s && not (is_empty s.fingerprint)

wanted_lem :
    (organization : String) (fingerprints : List String) (s : ResourceSignal)
    → has_active_fingerprint organization (non_empty (distinct fingerprints)) s
      ≡ is_wanted organization fingerprints s
wanted_lem organization fingerprints s =
    rw
      (
        is_in-filter (λ t. not (is_empty t)) (distinct fingerprints) s.fingerprint,
        is_in-distinct fingerprints s.fingerprint,
      )
      (ground arith)

-- What a bulk resolution of the signals that pass a test does: it resolves and counts them, and they no
-- longer pass.
abbrev pub Resolves : (ResourceSignal → Bool) → SignalStore → Result ℕ × SignalStore → Type 0
Resolves p w (result, v) =
    (result ≡ ok (count_where p w.signals))
    × (v.signals ≡ update_where p resolve_row w.signals)
    × (any p v.signals ≡ false)

pub update_many-Resolves :
    (p q : ResourceSignal → Bool) (w : SignalStore)
    → All (λ s. p s ≡ q s) w.signals
    → ((s : ResourceSignal) → q s ≡ true → q (resolve_row s) ≡ false)
    → Resolves q w (update_many p resolve_row w)
unfolding update_many ◌>>=◌
update_many-Resolves p q w agree closes =
    let updated = update_where_agree p q resolve_row w.signals agree in
    (
      ap (λ (n : ℕ). ok n) (count_where_agree p q w.signals agree),
      updated,
      rw updated (any-update_where q resolve_row w.signals closes),
    )

pub nothing-Resolves :
    (q : ResourceSignal → Bool) (w : SignalStore)
    → All (λ s. false ≡ q s) w.signals
    → Resolves q w (ok 0, w)
nothing-Resolves q w none_passes =
    let count = count_where_agree (λ _. false) q w.signals none_passes in
    let rows = update_where_agree (λ _. false) q resolve_row w.signals none_passes in
    let left = sym (update_where-false resolve_row w.signals) ∙ rows in
    (
      ap (λ (n : ℕ). ok n) (sym (count_where-false w.signals) ∙ count),
      left,
      All-any q w.signals (All-map w.signals (λ s e. sym e) none_passes),
    )

module _ (test : List String → ResourceSignal → Bool) (q : ResourceSignal → Bool)
    (w : SignalStore) where
  -- An update that is left out when the list is empty, and would then update nothing.
  pub unless_empty-Resolves :
      (texts : List String)
      → ((s : ResourceSignal) → test [] s ≡ false)
      → All (λ s. test texts s ≡ q s) w.signals
      → ((s : ResourceSignal) → q s ≡ true → q (resolve_row s) ≡ false)
      → Resolves q w
          (unless_empty texts (λ some_texts. update_many (test some_texts) resolve_row) w)
  unfolding ◌>>=◌
  unless_empty-Resolves [] nothing agree closes =
      nothing-Resolves q w (All-map w.signals (λ s e. sym (nothing s) ∙ e) agree)
  unless_empty-Resolves (t ∷ texts) nothing agree closes =
      update_many-Resolves (test (t ∷ texts)) q w agree closes

-- Resolving by fingerprints resolves and counts the active signals of the organization with one of the
-- fingerprints, however often the fingerprints are listed, and blank ones resolve nothing. No such signal
-- is left, so that a repetition resolves none.
pub resolve_signals_by_fingerprints-Resolves :
    (organization : String) (fingerprints : List String) (w : SignalStore)
    → let wanted = is_wanted organization fingerprints in
      let done = resolve_signals_by_fingerprints organization fingerprints w in
      Resolves wanted w done × (count_where wanted done.1.signals ≡ 0)
unfolding resolve_signals_by_fingerprints is_in any
resolve_signals_by_fingerprints-Resolves organization fingerprints w =
    let resolved =
      unless_empty-Resolves (has_active_fingerprint organization)
        (is_wanted organization fingerprints) w (non_empty (distinct fingerprints))
        (λ s. ground arith) (All-every (wanted_lem organization fingerprints) w.signals)
        (λ s _. ground arith) in
    let done = resolve_signals_by_fingerprints organization fingerprints w in
    (resolved, count_of_none (is_wanted organization fingerprints) done.1.signals resolved.2)
