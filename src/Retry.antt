-- ===== src/Retry.antt =====
-- packages/utils/src/async.ts: `retry`. What the function does at each attempt is an argument, and so is
-- the delay that a random number picks below a bound.
pub mod Laws
mod Tests
use auto_ops.Prelude.{
  ℕ, zero, suc, ◌+◌, ◌*◌, ◌^◌, Bool, true, false, not, ◌||◌, Option, none, some, List, [], ◌∷◌,
  ◌++◌, if◌then◌else◌, leb, nat_eq,
}
use auto_ops.Errors.{Thrown}
use auto_ops.Exec.{Result, ok, err}

-- The options, with their defaults filled in.
pub record RetryOptions : Type 0 where
  pub retries : ℕ
  pub base_ms : ℕ
  pub max_ms : ℕ
  pub factor : ℕ
  pub jitter : Bool
  pub should_retry : Option (Thrown → ℕ → Bool)

abbrev pub default_options : RetryOptions
default_options = record {
  retries = 5;
  base_ms = 100;
  max_ms = 5000;
  factor = 2;
  jitter = true;
  should_retry = none;
}

abbrev pub min : ℕ → ℕ → ℕ
min a b = if leb a b then a else b

-- `!shouldRetry || shouldRetry(err, attempt)`
abbrev pub may_retry : Option (Thrown → ℕ → Bool) → Thrown → ℕ → Bool
may_retry none e attempt = true
may_retry (some test) e attempt = test e attempt

-- The answer, how often the function was called, and the delays between the calls.
pub record Ended (A : Type 0) : Type 0 where
  pub result : Result A
  pub calls : ℕ
  pub delays : List ℕ

module _ {A : Type 0} (opts : RetryOptions) (run : ℕ → Result A)
    (pick : (attempt bound : ℕ) → ℕ) where
  abbrev pub bound_at : (attempt : ℕ) → ℕ
  bound_at attempt = min opts.max_ms (opts.base_ms * opts.factor ^ attempt)

  abbrev pub delay_at : (attempt : ℕ) → ℕ
  delay_at attempt = if opts.jitter then pick attempt (bound_at attempt) else bound_at attempt

  -- The break of the loop after an error.
  abbrev pub gives_up : Thrown → (attempt : ℕ) → Bool
  gives_up e attempt = nat_eq attempt opts.retries || not (may_retry opts.should_retry e attempt)

  -- A round's end: the answer, a break, or another round for the error.
  abbrev pub settle : Result A → (attempt : ℕ) → List ℕ → (Thrown → Ended A) → Ended A
  settle (ok a) attempt delays again = record {
    result = ok a;
    calls = attempt + 1;
    delays = delays;
  }
  settle (err e) attempt delays again =
      if gives_up e attempt
      then record { result = err e; calls = attempt + 1; delays = delays }
      else again e

  -- The loop with so many rounds left; `last` is the latest error.
  unfoldable pub retry_from : (rounds attempt : ℕ) → Thrown → List ℕ → Ended A
  retry_from zero attempt last delays = record {
    result = err last;
    calls = attempt;
    delays = delays;
  }
  retry_from (suc rounds) attempt last delays =
      settle (run attempt) attempt delays
        (λ e. retry_from rounds (attempt + 1) e (delays ++ delay_at attempt ∷ []))

  -- `retry`: the attempts 0 to `retries`.
  unfoldable pub retry : (undefined : Thrown) → Ended A
  unfolding retry_from
  retry undefined = retry_from (opts.retries + 1) 0 undefined []
