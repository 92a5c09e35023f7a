-- ===== src/Retry/Bounds.antt =====
-- The delay before a retry, in internal/retry/policy.go.
use Prim.Native.Nat.{min}
use rivo.Prelude.{ℕ, zero, suc, ◌-◌, ◌*◌, ◌≤◌, ◌<◌, ◌≡◌, arith}
use rivo.Store.{Duration}
use rivo.Retry.{Chance, Policy, half_word, backoff_loop, calculate_backoff}

-- The delay after so many rounds with no cap: `initial * multiplier ^ rounds`.
pub iterate : (ℕ → ℕ) → ℕ → ℕ → ℕ
iterate f zero d = d
iterate f (suc n) d = iterate f n (f d)

-- The float arithmetic scales a delay up to `top` as `grow` does, and the result is an int64.
abbrev pub Scales : Chance → (grow : ℕ → ℕ) → (top : Duration) → Type 0
Scales c grow top = (d : Duration) → d ≤ top → (c.scale d ≡ grow d) × (grow d < half_word)

module _ (grow : ℕ → ℕ) (grows : (d : ℕ) → d ≤ grow d) where
  le-iterate : (n : ℕ) (d : ℕ) → d ≤ iterate grow n d
  unfolding iterate
  le-iterate zero d = omega arith
  le-iterate (suc n) d = omega (arith, grows d, le-iterate n (grow d))

  module _ (c : Chance) where
    -- If the delays up to the cap are scaled without an overflow by a multiplier that shrinks none,
    -- and the first delay is not above the cap, the loop of `calculateBackoff`, which stops at the
    -- cap, gives the exponential delay, taken without bound, cut at the cap.
    pub backoff_loop-min :
        (top : Duration) (rounds : ℕ) (delay : Duration)
        → Scales c grow top
        → delay ≤ top
        → top < half_word
        → backoff_loop c top rounds delay ≡ min (iterate grow rounds delay) top
    unfolding backoff_loop iterate
    backoff_loop-min top zero delay scales h small = omega arith
    backoff_loop-min top (suc n) delay scales h small =
        let (exact, fits) = scales delay h in
        rw exact (
          ground
            (arith, fits, le-iterate n (grow delay), backoff_loop-min top n (grow delay) scales))

    -- If moreover the jitter is at most 30 percent of a delay and 1.3 times the cap is below `2 ^ 63`
    -- nanoseconds, nothing overflows: the wait is at least the initial backoff and at most 1.3
    -- times the maximal one.
    pub calculate_backoff_bounds :
        (p : Policy) (attempt : ℕ)
        → Scales c grow p.max_backoff
        → ((d : Duration) → d < half_word → c.draw d * 10 ≤ d * 3)
        → p.initial_backoff ≤ p.max_backoff
        → p.max_backoff * 13 < half_word * 10
        → (p.initial_backoff ≤ calculate_backoff c p attempt)
          × (calculate_backoff c p attempt * 10 ≤ p.max_backoff * 13)
    unfolding calculate_backoff
    calculate_backoff_bounds p attempt scales drawn h small =
        let delay = backoff_loop c p.max_backoff (attempt - 1) p.initial_backoff in
        let exact =
          backoff_loop-min p.max_backoff (attempt - 1) p.initial_backoff scales h (omega arith) in
        ground (arith, exact, drawn delay, le-iterate (attempt - 1) p.initial_backoff)
