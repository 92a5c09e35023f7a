-- ===== src/Executor/Completer.antt =====
-- internal/executor/completer.go: what is written to the database when a job has run.
use rivo.Prelude.{
  suc, ◌≡◌, refl, ◌++◌, [], ◌∷◌, ◌⊎◌, true, ◌==◌, Option, none, some, if◌then◌else◌, find_first,
  Option-cases, inl, inr,
}
use rivo.Base.{Error, error_text}
use rivo.Store.{
  Time, JobRow, completed, retryable, discarded, Store, World, M, ◌>>=◌, ignore_error, time_now,
  tick,
}
use rivo.Store.Jobs.{with_id, complete, fail, update_where, unique_keys, complete_job, fail_job}
use rivo.Store.Jobs.Insert.{IsQuiet}
use rivo.Store.Jobs.Lifecycle.{complete_job_lem, fail_job_lem}
use rivo.Retry.{Chance, Policy, completer_retry, default_policy}

-- A job, and the error of its run, if it failed.
pub record JobResult : Type 0 where
  pub job : JobRow
  pub error : Option Error

-- `NewCompleter`: a policy with no attempts is replaced by the default one.
unfoldable pub new_completer : Policy → Policy
new_completer p = if p.max_attempts == 0 then default_policy else p

module _ (w : World) (c : Chance) (p : Policy) where
  -- `handleResult`: what the database answers is dropped. The clock is read for a failed job.
  unfoldable pub handle_result : JobResult → M (Unit {0})
  handle_result r = elim r.error [
    | none ↦ ignore_error tt (complete_job w r.job.id)
    | some e ↦
        (time_now w >>= λ now.
        ignore_error tt
          (fail_job w r.job.id (error_text e) (completer_retry c p now r.job.attempt e)))
  ]

  -- If no statement fails and the table holds the job, a success leaves it completed.
  pub handle_result_success :
      (r : JobResult) (s : Store) (j : JobRow)
      → IsQuiet w
      → find_first (with_id r.job.id) s.jobs ≡ some j
      → r.error ≡ none
      → (k : JobRow) × (find_first (with_id r.job.id) (handle_result r s).1.jobs ≡ some k)
        × (k.state ≡ completed)
        × (k.completed_at ≡ some (w.clock s.event))
        × (k.attempt ≡ j.attempt)
  unfolding handle_result
  handle_result_success r s j quiet found e = (
    complete (w.clock s.event) j,
    rw e (complete_job_lem w s r.job.id quiet found),
    refl,
    refl,
    refl,
  )

  -- If no statement fails, the table holds the job and the index admits the change, a failure adds
  -- its text to the job's errors, and leaves the job discarded exactly when the policy gives no
  -- retry time, and otherwise retryable, at the policy's time.
  pub handle_result_failure :
      (r : JobResult) (e : Error) (s : Store) (j : JobRow)
      → IsQuiet w
      → find_first (with_id r.job.id) s.jobs ≡ some j
      → r.error ≡ some e
      → let retry_at = completer_retry c p (w.clock s.event) r.job.attempt e in
        unique_keys (
            update_where
              (with_id r.job.id)
              (fail (w.clock (suc s.event)) (error_text e) retry_at)
              s.jobs)
          ≡ true
        → (k : JobRow) × (find_first (with_id r.job.id) (handle_result r s).1.jobs ≡ some k)
          × (k.errors
              ≡ j.errors
                ++ record { attempt = j.attempt; at = w.clock (suc s.event); error = error_text e }
                  ∷ [])
          × ((retry_at ≡ none) × (k.state ≡ discarded)
              ⊎ (k.state ≡ retryable) × (retry_at ≡ some k.scheduled_at))
  unfolding handle_result
  handle_result_failure r e s j quiet found failed u =
      let retry_at = completer_retry c p (w.clock s.event) r.job.attempt e in
      (
        fail (w.clock (suc s.event)) (error_text e) retry_at j,
        rw failed (fail_job_lem w (tick s) r.job.id quiet found (error_text e) retry_at u),
        errors_of retry_at,
        elim (Option-cases retry_at) [
          | inl never ↦ inl (never, rw never refl)
          | inr (t, later) ↦ inr (rw later refl, rw later refl)
        ],
      )
    where
      errors_of :
          (o : Option Time)
          → (fail (w.clock (suc s.event)) (error_text e) o j).errors
            ≡ j.errors
              ++ record { attempt = j.attempt; at = w.clock (suc s.event); error = error_text e }
                ∷ []
      errors_of none = refl
      errors_of (some t) = refl
