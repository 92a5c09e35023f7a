-- ===== src/Tests/Services.antt =====
-- Attempts: a job that is handed out, fails and is tried again.
use rivo.Prelude.{◌*◌, ◌≤◌, ◌≡◌, refl, none, some, [], ◌∷◌, arith, All, find_first}
use rivo.Base.{message}
use rivo.Store.{JobRow, JobState, World, in_time, Store}
use rivo.Store.Jobs.{with_id, unique_keys, update_where, insert_job, promote_scheduled_jobs}
use rivo.Store.Jobs.Next.{fetch_jobs, claim, next_jobs}
use rivo.Store.Jobs.Invariant.{HasTable}
use rivo.Retry.{default_policy, completer_backoff}
use rivo.Executor.Completer.{new_completer, handle_result}
use rivo.Executor.Attempts.{exhausted_job_retried}
use rivo.Pipeline.Service.{ServiceStep, ServiceSteps}
use rivo.Pipeline.Attempts.HandOut.{ServiceSteps-attempts}
use rivo.Tests.{
  quiet_world, resize, mail_row, running_row, store_with, none_locked, doubling, short_policy,
}

-- A thousand seconds go by from event to event.
abbrev slow_world : World
slow_world = record {
  clock = λ n. n * 1_000_000_000_000;
  fault = λ _. none;
  call = λ _. in_time;
  stack = λ _. "";
}

abbrev spent_row : JobRow
spent_row = record running_row { attempt = 3; max_attempts = 3 }

abbrev spent_store : Store
spent_store = store_with (spent_row ∷ []) 4 []

exhausted_job_retried_example :
    let s' =
      (handle_result slow_world doubling
        (new_completer default_policy)
        (record { job = spent_row; error = some (message "boom") })
        spent_store).1 in
    (k : JobRow) × (find_first (with_id 3) (promote_scheduled_jobs slow_world "app" s').1.jobs
      ≡ some k)
    × (k.state ≡ JobState.available)
    × (k.max_attempts ≤ k.attempt)
unfolding unique_keys update_where default_policy completer_backoff
exhausted_job_retried_example =
    exhausted_job_retried slow_world doubling spent_store spent_row (message "boom") (λ n. refl)
      refl (omega arith) (omega arith) refl (omega arith)

abbrev with_mail : Store
with_mail = store_with (mail_row ∷ []) 2 []

with_mail-HasTable : HasTable with_mail
unfolding unique_keys
with_mail-HasTable = record { increasing = (tt, tt); below = (omega arith, tt); unique = refl }

abbrev fetched_mail : Store
fetched_mail = (fetch_jobs quiet_world none_locked "app" ("default" ∷ []) 10 "w1" with_mail).1

abbrev running_mail : JobRow
running_mail = claim 0 "w1" mail_row

abbrev failed_once : Store
failed_once =
    (handle_result quiet_world doubling short_policy
      (record { job = running_mail; error = some (message "boom") }) fetched_mail).1

abbrev with_resize : Store
with_resize = (insert_job quiet_world resize failed_once).1

three_steps :
    ServiceSteps quiet_world doubling short_policy
      (record { store = with_mail; out = [] })
      (record { store = with_resize; out = [] })
unfolding next_jobs fetch_jobs
three_steps =
    ServiceSteps.next
      (ServiceSteps.next
        (ServiceSteps.next ServiceSteps.here (
          ServiceStep.fetched none_locked "app" ("default" ∷ []) 10 "w1"
            (record { store = with_mail; out = [] })))
        (ServiceStep.settled [] [] running_mail (some (message "boom")) fetched_mail))
      (ServiceStep.enqueued resize (record { store = failed_once; out = [] }))

ServiceSteps-attempts_example : All (λ j. j.attempt ≤ 3) with_resize.jobs
ServiceSteps-attempts_example =
    ServiceSteps-attempts quiet_world doubling short_policy with_mail (omega arith)
      with_mail-HasTable (omega arith, tt) three_steps
