-- ===== src/Retry/Decision.antt =====
-- Whether a failed job is tried again.
use rivo.Prelude.{
  ℕ, zero, suc, ◌+◌, ◌-◌, ◌%◌, ◌<◌, ◌&&◌, if◌then◌else◌, ◌≤◌, ◌≡◌, ◌↔◌, ◌⊎◌, Bool, true, none,
  arith, any,
}
use rivo.Base.{Error}
use rivo.Store.{Time, Duration}
use rivo.Retry.{
  Chance, Policy, word, half_word, lt_int64, is_excluded, backoff_loop, calculate_backoff,
  completer_backoff, next_retry_at, completer_retry,
}

jitter_guard :
    (draw : Duration → Duration) (jitter : Bool) (d : Duration)
    → d < half_word
    → draw 0 ≡ 0
    → (if jitter then (d + draw d) % word else d)
      ≡ (if jitter && lt_int64 0 d then (d + draw d) % word else d)
jitter_guard draw jitter zero small h = ground arith
jitter_guard draw jitter (suc d) small h = ground arith

-- The completer decides as the retry package does: the two copies of the code agree, if the delay
-- that the loop gives is not negative and the jitter of no delay is none.
pub completer_retry-next_retry_at :
    (c : Chance) (p : Policy) (now : Time) (attempt : ℕ) (e : Error)
    → backoff_loop c p.max_backoff (attempt - 1) p.initial_backoff < half_word
    → c.draw 0 ≡ 0
    → completer_retry c p now attempt e ≡ next_retry_at c p now attempt e
unfolding completer_retry next_retry_at completer_backoff calculate_backoff
completer_retry-next_retry_at c p now attempt e small zero_draw = ground (
  arith,
  jitter_guard c.draw p.jitter (backoff_loop c p.max_backoff (attempt - 1) p.initial_backoff) small
      zero_draw,
)

-- A job is given up exactly when its error is to be discarded, when its attempts are used up, or
-- when only other errors are retryable.
pub next_retry_at-none :
    (c : Chance) (p : Policy) (now : Time) (attempt : ℕ) (e : Error)
    → (next_retry_at c p now attempt e ≡ none) ↔ (
        (any (c.is e) p.discard_errors ≡ true)
        ⊎ ((p.max_attempts ≤ attempt) ⊎ (is_excluded c p.retryable_errors e ≡ true)))
unfolding next_retry_at
next_retry_at-none c p now attempt e = (λ h. ground arith, λ h. ground arith)
