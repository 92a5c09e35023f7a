-- ===== src/Tests/Retries.antt =====
-- Backoff and retry decisions.
use rivo.Prelude.{ℕ, ◌-◌, ◌*◌, ◌^◌, ◌≤◌, ◌≡◌, refl, true, arith}
use Prim.Native.Nat.{min}
use rivo.Base.{message}
use rivo.Retry.{
  word, Policy, Chance, backoff_loop, calculate_backoff, completer_backoff, completer_retry,
  next_retry_at, exponential_backoff, lt_int64,
}
use rivo.Retry.Bounds.{Scales, iterate, backoff_loop-min, calculate_backoff_bounds}
use rivo.Retry.Decision.{completer_retry-next_retry_at}
use rivo.Retry.Words.{doubled, exponential_backoff-min, exponential_backoff_wraps}
use rivo.Tests.{doubling, short_policy}

delays : (backoff_loop doubling 50 2 10 ≡ 40) × (backoff_loop doubling 50 3 10 ≡ 50)
unfolding backoff_loop
delays = (refl, refl)

abbrev doubled_once : ℕ → ℕ
doubled_once d = d * 2

abbrev doubled_once_grows : (d : ℕ) → d ≤ doubled_once d
doubled_once_grows d = omega arith

doubling-Scales : Scales doubling doubled_once 50
doubling-Scales d h = (ground arith, ground arith)

backoff_loop-min_example : backoff_loop doubling 50 3 10 ≡ min (iterate doubled_once 3 10) 50
backoff_loop-min_example =
    backoff_loop-min doubled_once doubled_once_grows doubling 50 3 10 doubling-Scales (omega arith)
      (ground arith)

calculate_backoff_bounds_example :
    (10 ≤ calculate_backoff doubling short_policy 4)
    × (calculate_backoff doubling short_policy 4 * 10 ≤ 50 * 13)
calculate_backoff_bounds_example =
    calculate_backoff_bounds doubled_once doubled_once_grows doubling short_policy 4 doubling-Scales
      (λ d h. omega arith) (omega arith) (ground arith)

completer_retry-next_retry_at_example :
    completer_retry doubling short_policy 7 2 (message "boom")
    ≡ next_retry_at doubling short_policy 7 2 (message "boom")
unfolding backoff_loop
completer_retry-next_retry_at_example =
    completer_retry-next_retry_at doubling short_policy 7 2 (message "boom") (ground arith) refl

-- The two copies differ where a delay is negative: the completer adds a jitter to it.
abbrev negative_policy : Policy
negative_policy = record short_policy { initial_backoff = word - 10 }

abbrev drawing : Chance
drawing = record doubling { draw = λ d. word - 2 }

copies_differ :
    (completer_backoff drawing negative_policy 1 ≡ word - 12)
    × (calculate_backoff drawing negative_policy 1 ≡ word - 10)
unfolding completer_backoff calculate_backoff backoff_loop
copies_differ = (refl, refl)

exponential_backoff-min_example : exponential_backoff 10 50 4 ≡ min (doubled 3 10) 50
exponential_backoff-min_example = exponential_backoff-min 10 50 4 (omega arith) (ground arith)

exponential_backoff_wraps_example : lt_int64 (exponential_backoff (2 ^ 62) (2 ^ 62) 2) 0 ≡ true
exponential_backoff_wraps_example =
    exponential_backoff_wraps (2 ^ 62) (2 ^ 62) (omega arith) (omega arith) (ground arith)
