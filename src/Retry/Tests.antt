-- ===== src/Retry/Tests.antt =====
-- A function that answers at the third attempt, and one that never does.
use auto_ops.Prelude.{ℕ, ◌≡◌, refl, false, [], ◌∷◌, arith, leb, if◌then◌else◌}
use auto_ops.Errors.{plain}
use auto_ops.Exec.{Result, ok, err}
use auto_ops.Retry.{RetryOptions, default_options, retry}
use auto_ops.Retry.Laws.{IsEnded, retry-IsEnded}

abbrev third_time : ℕ → Result ℕ
third_time n = if leb 2 n then ok n else err (plain "ECONNREFUSED")

abbrev no_jitter : RetryOptions
no_jitter = record default_options { jitter = false }

abbrev pick_bound : ℕ → ℕ → ℕ
pick_bound attempt bound = bound

answers :
    retry no_jitter third_time pick_bound (plain "undefined")
    ≡ record { result = ok 2; calls = 3; delays = 100 ∷ 200 ∷ [] }
unfolding retry
answers = refl

abbrev never : ℕ → Result ℕ
never n = err (plain "ECONNREFUSED")

gives_up_after_six : retry no_jitter never pick_bound (plain "undefined") ≡ record {
  result = err (plain "ECONNREFUSED");
  calls = 6;
  delays = 100 ∷ 200 ∷ 400 ∷ 800 ∷ 1600 ∷ [];
}
unfolding retry
gives_up_after_six = refl

retry-IsEnded_example :
    IsEnded no_jitter third_time pick_bound 0 0
      (retry no_jitter third_time pick_bound (plain "undefined"))
retry-IsEnded_example =
    retry-IsEnded no_jitter third_time pick_bound (plain "undefined") (λ attempt bound. omega arith)
