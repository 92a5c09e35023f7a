-- ===== src/Retry/Words.antt =====
-- ExponentialBackoff of handler.go on 64-bit words.
use Prim.Native.Nat.{min}
use rivo.Prelude.{ℕ, zero, suc, ◌-◌, ◌*◌, ◌^◌, ◌≤◌, ◌<◌, ◌≡◌, true, arith}
use rivo.Retry.{half_word, lt_int64, doubling_loop, exponential_backoff}

-- `initial * 2 ^ rounds`
pub doubled : ℕ → ℕ → ℕ
doubled zero d = d
doubled (suc n) d = doubled n (d * 2)

le-doubled : (n d : ℕ) → d ≤ doubled n d
unfolding doubled
le-doubled zero d = omega arith
le-doubled (suc n) d = omega (arith, le-doubled n (d * 2))

doubling_loop-min :
    (top n delay : ℕ)
    → delay ≤ top
    → top < 2 ^ 62
    → doubling_loop top n delay ≡ min (doubled n delay) top
unfolding doubling_loop doubled
doubling_loop-min top zero delay h small = omega arith
doubling_loop-min top (suc n) delay h small =
    ground (arith, le-doubled n (delay * 2), doubling_loop-min top n (delay * 2))

-- For a maximum below `2 ^ 62` nanoseconds (146 years) and an initial delay not above it
-- ExponentialBackoff never overflows: it is the initial delay, doubled for each attempt after the
-- first, and cut at the maximum.
pub exponential_backoff-min :
    (initial top attempt : ℕ)
    → initial ≤ top
    → top < 2 ^ 62
    → exponential_backoff initial top attempt ≡ min (doubled (attempt - 1) initial) top
unfolding exponential_backoff
exponential_backoff-min initial top attempt h small =
    doubling_loop-min top (attempt - 1) initial h small

-- From an initial delay of `2 ^ 62` on the first doubling wraps: the second attempt waits a negative
-- time, although the maximum is not below the initial delay and below `2 ^ 63`.
pub exponential_backoff_wraps :
    (initial top : ℕ)
    → 2 ^ 62 ≤ initial
    → initial ≤ top
    → top < half_word
    → lt_int64 (exponential_backoff initial top 2) 0 ≡ true
unfolding exponential_backoff
exponential_backoff_wraps initial top h k small = ground arith
