-- ===== src/Signals/Ingestion.antt =====
-- signal.service.ts: what `ingestSignal` and `ingestSignals` do to the map of the table.
use auto_ops.Prelude.{
  ℕ, ◌+◌, ◌≡◌, inl, inr, refl, ap, ◌∙◌, Bool, true, false, ◌&&◌, String, Option, none, some, List,
  [], ◌∷◌, ◌++◌, ◌==◌, if◌then◌else◌, arith, eq_iff, Bool-cases, ==_self, count_where, All,
}
use mathlib.Core.Path.{fun_ext, ap₂}
use auto_ops.Errors.{Thrown}
use auto_ops.Exec.{Result, ok, err, pure, handle, continue, ◌>>=◌}
use auto_ops.Exec.Triple.{continue-pure}
use auto_ops.Json.{Json}
use auto_ops.Signal.{dedupe}
use auto_ops.Signals.{
  SignalStore, ResourceSignal, NodeRow, Arrival, has_fingerprint, new_signal, seen_again,
  ingest_signal, ingest_signals, fingerprint_of, checked_input, mode_of, upsert_arrival,
  unless_broken, drops,
}
use auto_ops.Signals.Table.{View, view, IsKeyed, stored, upsert_lem, upsert-IsKeyed}

-- How often a key was seen.
abbrev pub count_of : Option ResourceSignal → ℕ
count_of none = 0
count_of (some s) = s.count

abbrev is_stored : Option Thrown → Bool
is_stored none = true
is_stored (some e) = false

abbrev pub IsDedupe : Arrival → Type 0
IsDedupe a = mode_of a.input ≡ dedupe

module _ (sha256 : String → String) (other : Json → String) (organization : String) where
  -- The row that an arrival leaves, where the table held this row under its key.
  abbrev pub absorbed : List NodeRow → Arrival → Option ResourceSignal → ResourceSignal
  absorbed nodes a none =
      new_signal a.id a.now organization (fingerprint_of sha256 other organization nodes a)
        (checked_input organization nodes a.input)
  absorbed nodes a (some s) =
      seen_again a.now (mode_of (checked_input organization nodes a.input))
        (checked_input organization nodes a.input) s

  -- An arrival on the map of the table: one key changes, unless the database throws.
  abbrev pub absorb : List NodeRow → Arrival → View → View
  absorb nodes a v p g =
      let key = fingerprint_of sha256 other organization nodes a in
      if is_stored a.broken && (p == organization && g == key)
      then some (absorbed nodes a (v organization key))
      else v p g

  abbrev pub absorb_all : List NodeRow → List Arrival → View → View
  absorb_all nodes [] v = v
  absorb_all nodes (a ∷ arrivals) v = absorb_all nodes arrivals (absorb nodes a v)

  same_stored :
      (o : Option ResourceSignal) (a : Arrival) (nodes : List NodeRow)
      → let key = fingerprint_of sha256 other organization nodes a in
        let input = checked_input organization nodes a.input in
        stored organization key
          (new_signal a.id a.now organization key input)
          (seen_again a.now (mode_of input) input)
          o
        ≡ absorbed nodes a o
  same_stored none a nodes = refl
  same_stored (some s) a nodes = refl

  -- What holds of an arrival's upsert, unless the database throws.
  unless_lem :
      (b : Option Thrown) (a : Arrival) (w : SignalStore)
      → let key = fingerprint_of sha256 other organization w.nodes a in
        let done =
          unless_broken b
            (upsert_arrival sha256 other organization key a
              (checked_input organization w.nodes a.input))
            w in
        ((p g : String)
          → view done.1 p g ≡ (
              if is_stored b && (p == organization && g == key)
              then some (absorbed w.nodes a (view w organization key))
              else view w p g))
        × (done.1.nodes ≡ w.nodes)
        × (IsKeyed w → IsKeyed done.1)
  unfolding ◌>>=◌
  unless_lem (some e) a w = (λ p g. refl, refl, λ h. h)
  unless_lem none a w =
      let key = fingerprint_of sha256 other organization w.nodes a in
      let input = checked_input organization w.nodes a.input in
      let row = new_signal a.id a.now organization key input in
      let update = seen_again a.now (mode_of input) input in
      let own : has_fingerprint organization key row ≡ true =
        rw (==_self organization, ==_self key) refl in
      (
        λ p g.
            (upsert_lem organization key row update own (λ _ _ _. refl) w p g).0
            ∙ ap
                (λ (s : ResourceSignal).
                  if p == organization && g == key then some s else view w p g)
                (same_stored (view w organization key) a w.nodes),
        (upsert_lem organization key row update own (λ _ _ _. refl) w "" "").2,
        upsert-IsKeyed organization key row update own (λ _ _ _. refl) w,
      )

  -- An arrival changes the map of the table at one key.
  ingest_lem :
      (a : Arrival) (w : SignalStore)
      → (view (ingest_signal sha256 other organization a w).1 ≡ absorb w.nodes a (view w))
        × ((ingest_signal sha256 other organization a w).1.nodes ≡ w.nodes)
        × (IsKeyed w → IsKeyed (ingest_signal sha256 other organization a w).1)
  unfolding ingest_signal ◌>>=◌
  ingest_lem a w =
      let (same, nodes, keyed) = unless_lem a.broken a w in
      (fun_ext (λ p. fun_ext (λ g. same p g)), nodes, keyed)

  abbrev ingest : Arrival → SignalStore → SignalStore
  ingest a w = (ingest_signal sha256 other organization a w).1

  abbrev pub ingest_all : List Arrival → SignalStore → SignalStore
  ingest_all arrivals w = (ingest_signals sha256 other organization arrivals w).1

  ingest_all_nil : (w : SignalStore) → ingest_all [] w ≡ w
  unfolding ingest_signals ◌>>=◌
  ingest_all_nil w = refl

  -- What the loop does after an attempt.
  after_attempt :
      (r : Result ResourceSignal × SignalStore) (arrivals : List Arrival)
      → (continue (handle (continue r (λ s. pure (s ∷ []))) (λ _. pure [])) (λ first.
          ingest_signals sha256 other organization arrivals >>= λ rest. pure (first ++ rest))).1
        ≡ ingest_all arrivals r.1
  unfolding ◌>>=◌
  after_attempt (ok s, v) arrivals =
      continue-pure (ingest_signals sha256 other organization arrivals v) (λ rest. (s ∷ []) ++ rest)
  after_attempt (err e, v) arrivals =
      continue-pure (ingest_signals sha256 other organization arrivals v) (λ rest. rest)

  -- The loop goes on after an arrival, whether it threw or not.
  ingest_all_cons :
      (a : Arrival) (arrivals : List Arrival) (w : SignalStore)
      → ingest_all (a ∷ arrivals) w ≡ ingest_all arrivals (ingest a w)
  unfolding ingest_signals ◌>>=◌
  ingest_all_cons a arrivals w =
      after_attempt (ingest_signal sha256 other organization a w) arrivals

  -- Whatever arrives in whatever order, and whichever arrivals the database refuses, the table stands for
  -- the map that absorbs the arrivals one after the other, each at its own key only; the table keeps one
  -- row at most for a key, and no resource node changes.
  pub ingest_signals-refines :
      (arrivals : List Arrival) (w : SignalStore)
      → IsKeyed w
      → (view (ingest_all arrivals w) ≡ absorb_all w.nodes arrivals (view w))
        × ((ingest_all arrivals w).nodes ≡ w.nodes)
        × IsKeyed (ingest_all arrivals w)
  ingest_signals-refines [] w keyed = rw (ingest_all_nil w) (refl, refl, keyed)
  ingest_signals-refines (a ∷ arrivals) w keyed =
      let (same, nodes, still) = ingest_lem a w in
      let (rest, kept, at_last) = ingest_signals-refines arrivals (ingest a w) (still keyed) in
      rw (ingest_all_cons a arrivals w) (
        rest ∙ ap₂ (λ (ns : List NodeRow) (v : View). absorb_all ns arrivals v) nodes same,
        kept ∙ nodes,
        at_last,
      )

  -- The arrivals that reach the table under a key.
  abbrev pub counts_for : List NodeRow → (fingerprint : String) → Arrival → Bool
  counts_for nodes g a = is_stored a.broken && g == fingerprint_of sha256 other organization nodes a

  -- Dropping a link keeps the mode.
  mode_kept :
      (nodes : List NodeRow) (a : Arrival)
      → mode_of (checked_input organization nodes a.input) ≡ mode_of a.input
  mode_kept nodes a = elim (Bool-cases (drops organization nodes a.input)) [
    | inl e ↦ rw e refl
    | inr e ↦ rw e refl
  ]

  absorbed-count :
      (nodes : List NodeRow) (a : Arrival) (o : Option ResourceSignal)
      → IsDedupe a
      → (absorbed nodes a o).count ≡ count_of o + 1
  absorbed-count nodes a none d = omega arith
  absorbed-count nodes a (some s) d = rw (mode_kept nodes a ∙ d) refl

  absorb-count :
      (nodes : List NodeRow) (a : Arrival) (v : View) (g : String)
      → IsDedupe a
      → count_of (absorb nodes a v organization g)
        ≡ count_of (v organization g) + (if counts_for nodes g a then 1 else 0)
  absorb-count nodes a v g d =
      let key = fingerprint_of sha256 other organization nodes a in
      elim (Bool-cases (is_stored a.broken)) [
        | inl up ↦ elim (Bool-cases (g == key)) [
          | inl same ↦
              rw (==_self organization, up, same)
                (rw ((eq_iff g key).0 same) (absorbed-count nodes a (v organization key) d))
          | inr apart ↦ rw (==_self organization, up, apart) (omega arith)
        ]
        | inr down ↦ rw down (omega arith)
      ]

  absorb_all-count :
      (nodes : List NodeRow) (arrivals : List Arrival) (v : View) (g : String)
      → All IsDedupe arrivals
      → count_of (absorb_all nodes arrivals v organization g)
        ≡ count_of (v organization g) + count_where (counts_for nodes g) arrivals
  unfolding count_where
  absorb_all-count nodes [] v g d = omega arith
  absorb_all-count nodes (a ∷ arrivals) v g (d, ds) =
      omega
        (arith, absorb_all-count nodes arrivals (absorb nodes a v) g ds, absorb-count nodes a v g d)

  -- Of arrivals that are to be de-duplicated, the row of a key counts those that have the key and that the
  -- database takes, on top of what it counted before, in however many calls and in whatever order.
  pub ingest_signals-counts :
      (arrivals : List Arrival) (w : SignalStore) (g : String)
      → IsKeyed w
      → All IsDedupe arrivals
      → count_of (view (ingest_all arrivals w) organization g)
        ≡ count_of (view w organization g) + count_where (counts_for w.nodes g) arrivals
  ingest_signals-counts arrivals w g keyed d =
      let (same, _, _) = ingest_signals-refines arrivals w keyed in
      ap (λ (v : View). count_of (v organization g)) same
      ∙ absorb_all-count w.nodes arrivals (view w) g d
