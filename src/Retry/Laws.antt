-- ===== src/Retry/Laws.antt =====
-- async.ts: how `retry` ends.
use auto_ops.Prelude.{
  ℕ, zero, suc, ◌+◌, ◌≤◌, ◌≡◌, ◌⊎◌, refl, sym, ap, subst, ◌∙◌, true, false, List, [], ◌∷◌, ◌++◌,
  nat_eq, length, arith, All, All-append, Bool-cases, inl, inr, length-append,
}
use auto_ops.Errors.{Thrown}
use auto_ops.Exec.{Result, ok, err}
use auto_ops.Retry.{RetryOptions, Ended, bound_at, delay_at, gives_up, settle, retry_from, retry}

Result-cases : {A : Type 0} (r : Result A) → ((a : A) × (r ≡ ok a)) ⊎ ((e : Thrown) × (r ≡ err e))
Result-cases (ok a) = inl (a, refl)
Result-cases (err e) = inr (e, refl)

same_error :
    {A : Type 0} (x y : Thrown)
    → ◌≡◌ {A = Result A} (err x) (err y)
    → (P : Thrown → Type 0) → P x
    → P y
same_error x y h P p = let equal : x ≡ y = cc in subst P equal p

nat_eq_self : (a b : ℕ) → a ≡ b → nat_eq a b ≡ true
nat_eq_self a b h = ground (arith, h)

module _ {A : Type 0} (opts : RetryOptions) (run : ℕ → Result A)
    (pick : (attempt bound : ℕ) → ℕ) where
  -- The attempts from one on, up to the last, threw errors after which another was made.
  abbrev pub Failed : (from count : ℕ) → Type 0
  Failed from zero = Unit
  Failed from (suc count) =
      ((e : Thrown) × (run from ≡ err e) × (gives_up opts run pick e from ≡ false))
      × Failed (suc from) count

  -- How a loop that began at one attempt ended: the last call gave the answer, and if it threw, no other
  -- attempt was to be made; every call before it threw and was followed by a delay.
  abbrev pub IsEnded : (from waits : ℕ) → Ended A → Type 0
  IsEnded from waits x =
      (k : ℕ) × (x.calls ≡ from + suc k)
      × (from + k ≤ opts.retries)
      × Failed from k
      × (x.result ≡ run (from + k))
      × ((e : Thrown) → run (from + k) ≡ err e → gives_up opts run pick e (from + k) ≡ true)
      × (length x.delays ≡ waits + k)
      × All (λ d. d ≤ opts.max_ms) x.delays

  module _ (picks : (attempt bound : ℕ) → pick attempt bound ≤ bound) where
    delay_bound : (attempt : ℕ) → delay_at opts run pick attempt ≤ opts.max_ms
    delay_bound attempt = ground (arith, picks attempt (bound_at opts run pick attempt))

    ends_now :
        (attempt : ℕ) (r : Result A) (delays : List ℕ)
        → attempt ≤ opts.retries
        → r ≡ run attempt
        → ((e : Thrown) → run attempt ≡ err e → gives_up opts run pick e attempt ≡ true)
        → All (λ d. d ≤ opts.max_ms) delays
        → IsEnded attempt
            (length delays)
            (record { result = r; calls = attempt + 1; delays = delays })
    ends_now attempt r delays below same stops bounded =
        let here : attempt + 0 ≡ attempt = omega arith in
        (
          0,
          omega arith,
          omega (arith, below),
          tt,
          rw here same,
          λ e h. rw here (stops e (rw here at h)),
          omega arith,
          bounded,
        )

    ends_later :
        (attempt : ℕ) (e : Thrown) (delays : List ℕ) (x : Ended A)
        → run attempt ≡ err e
        → gives_up opts run pick e attempt ≡ false
        → IsEnded (suc attempt) (length (delays ++ delay_at opts run pick attempt ∷ [])) x
        → IsEnded attempt (length delays) x
    ends_later attempt e delays x threw goes_on
          (k, calls, below, failed, result, stops, waits, bounded) =
        let there : suc attempt + k ≡ attempt + suc k = omega arith in
        (
          suc k,
          omega (arith, calls),
          omega (arith, below),
          ((e, threw, goes_on), failed),
          rw (← there) result,
          rw (← there) stops,
          omega (arith, waits, length-append delays (delay_at opts run pick attempt ∷ [])),
          bounded,
        )

    round_lem :
        (rounds attempt : ℕ) (last : Thrown) (delays : List ℕ) (r : Result A)
        → run attempt ≡ r
        → retry_from opts run pick (suc rounds) attempt last delays
          ≡ settle opts run pick r attempt delays (λ e.
            retry_from opts run pick rounds
              (attempt + 1)
              e
              (delays ++ delay_at opts run pick attempt ∷ []))
    unfolding retry_from
    round_lem rounds attempt last delays r e =
        ap
          (λ (q : Result A). settle opts run pick q attempt delays (λ x.
            retry_from opts run pick rounds (attempt + 1) x
              (delays ++ delay_at opts run pick attempt ∷ [])))
          e

    answered :
        (rounds attempt : ℕ) (last : Thrown) (delays : List ℕ) (a : A)
        → attempt + suc rounds ≡ opts.retries + 1
        → All (λ d. d ≤ opts.max_ms) delays
        → run attempt ≡ ok a
        → IsEnded attempt
            (length delays)
            (retry_from opts run pick (suc rounds) attempt last delays)
    answered rounds attempt last delays a left bounded e =
        rw (round_lem rounds attempt last delays (ok a) e) (
          ends_now attempt (ok a) delays (omega (arith, left)) (sym e)
            (λ x h. let bad = sym e ∙ h in cc) bounded)

    stopped :
        (rounds attempt : ℕ) (last : Thrown) (delays : List ℕ) (x : Thrown)
        → attempt + suc rounds ≡ opts.retries + 1
        → All (λ d. d ≤ opts.max_ms) delays
        → run attempt ≡ err x
        → gives_up opts run pick x attempt ≡ true
        → IsEnded attempt
            (length delays)
            (retry_from opts run pick (suc rounds) attempt last delays)
    stopped rounds attempt last delays x left bounded e stop =
        rw (round_lem rounds attempt last delays (err x) e, stop)
          (ends_now attempt (err x) delays (omega (arith, left)) (sym e)
            (λ y h. same_error x y (sym e ∙ h) (λ z. gives_up opts run pick z attempt ≡ true) stop)
            bounded)

    once_more :
        (rounds attempt : ℕ) (last : Thrown) (delays : List ℕ) (x : Thrown)
        → run attempt ≡ err x
        → gives_up opts run pick x attempt ≡ false
        → retry_from opts run pick (suc rounds) attempt last delays
          ≡ retry_from opts run pick rounds
              (attempt + 1)
              x
              (delays ++ delay_at opts run pick attempt ∷ [])
    once_more rounds attempt last delays x e again =
        rw (round_lem rounds attempt last delays (err x) e, again) refl

    retry_from-IsEnded :
        (rounds attempt : ℕ) (last : Thrown) (delays : List ℕ)
        → attempt + suc rounds ≡ opts.retries + 1
        → All (λ d. d ≤ opts.max_ms) delays
        → IsEnded attempt
            (length delays)
            (retry_from opts run pick (suc rounds) attempt last delays)
    retry_from-IsEnded zero attempt last delays left bounded = elim (Result-cases (run attempt)) [
      | inl (a, e) ↦ answered zero attempt last delays a left bounded e
      | inr (x, e) ↦
          let final : gives_up opts run pick x attempt ≡ true =
            rw (nat_eq_self attempt opts.retries (omega (arith, left))) refl in
          stopped zero attempt last delays x left bounded e final
    ]
    retry_from-IsEnded (suc rounds) attempt last delays left bounded =
        elim (Result-cases (run attempt)) [
          | inl (a, e) ↦ answered (suc rounds) attempt last delays a left bounded e
          | inr (x, e) ↦ elim (Bool-cases (gives_up opts run pick x attempt)) [
            | inl stop ↦ stopped (suc rounds) attempt last delays x left bounded e stop
            | inr again ↦
                let one_more : attempt + 1 ≡ suc attempt = omega arith in
                let waits = delays ++ delay_at opts run pick attempt ∷ [] in
                rw (once_more (suc rounds) attempt last delays x e again, one_more)
                  (ends_later attempt x delays _ e again (
                    retry_from-IsEnded rounds (suc attempt) x waits (omega (arith, left)) (
                      All-append (λ d. d ≤ opts.max_ms) delays _ bounded
                        (delay_bound attempt, tt))))
          ]
        ]

  -- `retry` makes at least one and at most `retries + 1` calls. Its answer is that of the last call; every
  -- call before it threw an error after which another attempt was allowed, and was followed by one delay
  -- of at most `maxMs`; and if the last call threw, no attempt was left or its error allowed none.
  pub retry-IsEnded :
      (undefined : Thrown)
      → ((attempt bound : ℕ) → pick attempt bound ≤ bound)
      → IsEnded 0 0 (retry opts run pick undefined)
  unfolding retry
  retry-IsEnded undefined picks =
      let rounds : opts.retries + 1 ≡ suc opts.retries = omega arith in
      rw rounds (retry_from-IsEnded picks opts.retries 0 undefined [] (omega arith) tt)
