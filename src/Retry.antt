-- ===== src/Retry.antt =====
-- When a failed job is tried again: internal/retry/policy.go, the retry part of
-- internal/executor/completer.go, and the backoff functions of handler.go.
pub mod Bounds
pub mod Decision
pub mod Words
use rivo.Prelude.{
  ℕ, zero, suc, ◌+◌, ◌-◌, ◌*◌, ◌%◌, ◌^◌, Bool, true, false, not, ◌&&◌, ◌||◌, Option, none, some,
  List, [], any, ltb, leb, if◌then◌else◌, length,
}
use rivo.Base.{Error}
use rivo.Store.{Time, Duration}

-- A `time.Duration` is an int64: here its bit pattern, below `2 ^ 64`.
abbrev pub word : ℕ
word = 2 ^ 64

abbrev pub half_word : ℕ
half_word = 2 ^ 63

-- `a < b` on int64: a pattern from `2 ^ 63` on is negative.
abbrev pub lt_int64 : ℕ → ℕ → Bool
lt_int64 a b = ltb ((a + half_word) % word) ((b + half_word) % word)

-- `time.Time.Add`. A negative duration goes back in time, here to the zero time at most.
abbrev pub later : Time → Duration → Time
later now d = if lt_int64 d 0 then now - (word - d) else now + d

-- The fields that policy.go and completer.go share. The backoffs are bit patterns of an int64. The
-- factor by which a delay grows is a float, and stands with the other arithmetic on floats in
-- `Chance`.
pub record Policy : Type 0 where
  pub max_attempts : ℕ
  pub initial_backoff : Duration
  pub max_backoff : Duration
  pub jitter : Bool
  pub retryable_errors : List Error
  pub discard_errors : List Error

-- `DefaultPolicy` and `DefaultRetryPolicy`: 25 attempts, from a second up to 24 hours.
unfoldable pub default_policy : Policy
default_policy = record {
  max_attempts = 25;
  initial_backoff = 1_000_000_000;
  max_backoff = 86_400_000_000_000;
  jitter = true;
  retryable_errors = [];
  discard_errors = [];
}

-- What the code takes from Go's floats, from its random numbers and from `errors.Is`:
-- `time.Duration(float64(delay) * multiplier)`, `time.Duration(rand.Float64() * 0.3 * float64(delay))`
-- with the number that was drawn, and whether an error is, or wraps, a target.
pub record Chance : Type 0 where
  pub scale : Duration → Duration
  pub draw : Duration → Duration
  pub is : Error → Error → Bool

module _ (c : Chance) where
  -- The loop `for i := 1; i < attempt; i++` with so many rounds left.
  unfoldable pub backoff_loop : (max_backoff : Duration) → (rounds : ℕ) → Duration → Duration
  backoff_loop top zero delay = delay
  backoff_loop top (suc n) delay =
      let delay' = c.scale delay in
      let rest = backoff_loop top n delay' in if lt_int64 top delay' then top else rest

  -- policy.go, `calculateBackoff`. For `attempt` 0 and 1 the loop makes no round.
  unfoldable pub calculate_backoff : Policy → (attempt : ℕ) → Duration
  unfolding backoff_loop
  calculate_backoff p attempt =
      let delay = backoff_loop p.max_backoff (attempt - 1) p.initial_backoff in
      if p.jitter && lt_int64 0 delay then (delay + c.draw delay) % word else delay

  -- completer.go, `calculateBackoff`: it draws for a delay of 0 and for a negative one too.
  unfoldable pub completer_backoff : Policy → (attempt : ℕ) → Duration
  unfolding backoff_loop
  completer_backoff p attempt =
      let delay = backoff_loop p.max_backoff (attempt - 1) p.initial_backoff in
      if p.jitter then (delay + c.draw delay) % word else delay

  -- `len(RetryableErrors) > 0` and none of them matches.
  abbrev pub is_excluded : List Error → Error → Bool
  is_excluded [] e = false
  is_excluded targets e = not (any (c.is e) targets)

  -- policy.go, `NextRetryAt`, at the time `now`; `none` is the pair with `false`.
  unfoldable pub next_retry_at : Policy → Time → (attempt : ℕ) → Error → Option Time
  next_retry_at p now attempt e =
      if any (c.is e) p.discard_errors
      then none
      else if leb p.max_attempts attempt
      then none
      else if is_excluded p.retryable_errors e
      then none
      else some (later now (calculate_backoff p attempt))

  -- policy.go, `ShouldRetry`
  unfoldable pub should_retry : Policy → Time → (attempt : ℕ) → Error → Bool
  unfolding next_retry_at
  should_retry p now attempt e = elim (next_retry_at p now attempt e) [
    | none ↦ false
    | some t ↦ true
  ]

  -- completer.go, `shouldRetry`, at the time `now`.
  unfoldable pub completer_retry : Policy → Time → (attempt : ℕ) → Error → Option Time
  completer_retry p now attempt e =
      if any (c.is e) p.discard_errors
      then none
      else if leb p.max_attempts attempt
      then none
      else if is_excluded p.retryable_errors e
      then none
      else some (later now (completer_backoff p attempt))

-- handler.go
unfoldable pub fixed_backoff : ℕ → (attempt : ℕ) → ℕ
fixed_backoff d attempt = d

-- The loop of ExponentialBackoff; `delay *= 2` wraps.
unfoldable pub doubling_loop : (top : ℕ) → (rounds : ℕ) → (delay : ℕ) → ℕ
doubling_loop top zero delay = delay
doubling_loop top (suc n) delay =
    let delay' = (delay * 2) % word in
    let rest = doubling_loop top n delay' in if lt_int64 top delay' then top else rest

unfoldable pub exponential_backoff : (initial top : ℕ) → (attempt : ℕ) → ℕ
unfolding doubling_loop
exponential_backoff initial top attempt = doubling_loop top (attempt - 1) initial

-- `initial + time.Duration(attempt-1)*increment`
unfoldable pub linear_backoff : (initial increment : ℕ) → (attempt : ℕ) → ℕ
linear_backoff initial increment attempt = (initial + (attempt + word - 1) * increment) % word
