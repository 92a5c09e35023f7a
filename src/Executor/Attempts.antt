-- ===== src/Executor/Attempts.antt =====
-- The number of attempts: internal/executor/completer.go and the table of jobs.
use rivo.Prelude.{suc, ◌≤◌, ◌<◌, ◌≡◌, refl, true, false, leb, some, arith, find_first}
use rivo.Base.{Error, error_text}
use rivo.Store.{JobRow, available, World, Store, tick}
use rivo.Store.Jobs.{with_id, fail, promote, update_where, unique_keys, promote_scheduled_jobs}
use rivo.Store.Jobs.Insert.{IsQuiet}
use rivo.Store.Jobs.Lifecycle.{fail_then_promote}
use rivo.Retry.{Chance, later, default_policy, completer_retry, completer_backoff}
use rivo.Executor.Completer.{new_completer, handle_result}

-- A job that has used up its own maximal number of attempts is tried again: with the policy that
-- Start gives the completer, a failure at an attempt below 25 makes the job retryable, and a
-- promotion that is not before the retry time makes it available again. (The table holds the job,
-- the rows stay within the unique index, and no statement fails.)
pub exhausted_job_retried :
    (w : World) (c : Chance) (s : Store) (j : JobRow) (e : Error)
    → IsQuiet w
    → find_first (with_id j.id) s.jobs ≡ some j
    → j.max_attempts ≤ j.attempt
    → j.attempt < 25
    → let retry_at = later (w.clock s.event) (completer_backoff c default_policy j.attempt) in
      unique_keys (
          update_where
            (with_id j.id)
            (fail (w.clock (suc s.event)) (error_text e) (some retry_at))
            s.jobs)
        ≡ true
      → retry_at ≤ w.clock (suc (suc s.event))
      → let s' =
          (handle_result w c
            (new_completer default_policy)
            (record { job = j; error = some e })
            s).1 in
        (k : JobRow) × (find_first (with_id j.id) (promote_scheduled_jobs w j.namespace s').1.jobs
          ≡ some k)
        × (k.state ≡ available)
        × (k.max_attempts ≤ k.attempt)
unfolding handle_result new_completer default_policy completer_retry
exhausted_job_retried w c s j e quiet found spent few u due =
    let retry_at = later (w.clock s.event) (completer_backoff c default_policy j.attempt) in
    let left : leb 25 j.attempt ≡ false = ground arith in
    (
      promote (w.clock (suc (suc s.event)))
          (fail (w.clock (suc s.event)) (error_text e) (some retry_at) j),
      rw left (fail_then_promote w (tick s) j j.id (error_text e) retry_at quiet found u due),
      refl,
      spent,
    )
