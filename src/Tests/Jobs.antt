-- ===== src/Tests/Jobs.antt =====
-- Inserting and fetching jobs.
use rivo.Prelude.{ℕ, ◌≡◌, refl, Bool, true, false, none, List, [], ◌∷◌, All, contains_id, map}
use mathlib.Core.List.{Memᴰ}
use rivo.Base.{Result, ok}
use rivo.Prelude.Int.{pos}
use rivo.Store.{JobRow, Store}
use rivo.Store.Jobs.{insert_job, cancel_job, unique_keys}
use rivo.Store.Jobs.Next.{fetch_jobs, before, next_rows, next_jobs}
use rivo.Store.Jobs.Invariant.{HasTable}
use rivo.Store.Jobs.Steps.{JobStep, JobSteps, JobSteps-HasTable}
use rivo.Store.Jobs.Fetch.{fetch_jobs_exclusive}
use rivo.Store.Jobs.History.{Kept, JobSteps-Kept}
use rivo.Store.Jobs.Priority.{IsServedFirst, fetch_by_priority}
use rivo.Client.Enqueue.{EnqueueParams, enqueue_job}
use rivo.Client.Idempotence.{enqueue_job_idempotent}
use rivo.Tests.{
  quiet_world, quiet, mail, resize, mail_row, resize_row, three_jobs, empty_store, three_store,
  none_locked,
}

abbrev all_fetched : Store → Result (List JobRow) × Store
all_fetched = fetch_jobs quiet_world none_locked "app" ("default" ∷ []) 10 "w1"

-- The higher priority comes first.
fetch_order :
    map (λ (j : JobRow). j.id) (next_rows none_locked 9 "app" ("default" ∷ []) 10 three_jobs)
    ≡ 2 ∷ 1 ∷ []
unfolding next_rows before
fetch_order = refl

pub empty-HasTable : HasTable empty_store
unfolding unique_keys
empty-HasTable = record { increasing = tt; below = tt; unique = refl }

-- Two insertions, a fetch and a cancellation.
abbrev after_mail : Store
after_mail = (insert_job quiet_world mail empty_store).1

abbrev after_resize : Store
after_resize = (insert_job quiet_world resize after_mail).1

abbrev after_fetch : Store
after_fetch = (all_fetched after_resize).1

four_steps : JobSteps quiet_world empty_store (cancel_job quiet_world 1 after_fetch).1
four_steps =
    JobSteps.next
      (JobSteps.next
        (JobSteps.next (JobSteps.next JobSteps.here (JobStep.inserted mail empty_store))
          (JobStep.inserted resize after_mail))
        (JobStep.fetched none_locked "app" ("default" ∷ []) 10 "w1" after_resize))
      (JobStep.cancelled_by_user 1 after_fetch)

JobSteps-HasTable_example : HasTable (cancel_job quiet_world 1 after_fetch).1
JobSteps-HasTable_example = JobSteps-HasTable empty-HasTable four_steps

two_steps : JobSteps quiet_world after_resize (cancel_job quiet_world 1 after_fetch).1
two_steps =
    JobSteps.next
      (JobSteps.next JobSteps.here
        (JobStep.fetched none_locked "app" ("default" ∷ []) 10 "w1" after_resize))
      (JobStep.cancelled_by_user 1 after_fetch)

-- Both rows, after a fetch and a cancellation.
JobSteps-Kept_example : Kept after_resize.jobs (cancel_job quiet_world 1 after_fetch).1.jobs
JobSteps-Kept_example = JobSteps-Kept two_steps

abbrev welcome : EnqueueParams
welcome = record {
  kind = "mail";
  payload = none;
  queue = "";
  priority = pos 0;
  schedule_at = 0;
  idempotency_key = "welcome";
  metadata = none;
  max_attempts = 0;
  workflow_run_id = none;
  step_id = "";
}

abbrev welcome_later : EnqueueParams
welcome_later = record welcome { queue = "slow"; schedule_at = 500 }

enqueue_job_idempotent_example :
    (row : JobRow) × (duplicate : Bool) × ((enqueue_job quiet_world "app" welcome empty_store).0
      ≡ ok (row, duplicate))
    × ((enqueue_job quiet_world "app" welcome_later
          (enqueue_job quiet_world "app" welcome empty_store).1).0
        ≡ ok (row, true))
    × ((enqueue_job quiet_world "app" welcome_later
          (enqueue_job quiet_world "app" welcome empty_store).1).1.jobs
        ≡ (enqueue_job quiet_world "app" welcome empty_store).1.jobs)
enqueue_job_idempotent_example =
    enqueue_job_idempotent quiet_world "app" welcome welcome_later empty_store quiet empty-HasTable
      refl refl refl refl refl refl refl refl

-- The worker takes one of the two jobs that are ready, a second worker the other.
abbrev first_fetch : Store → Result (List JobRow) × Store
first_fetch = fetch_jobs quiet_world none_locked "app" ("default" ∷ []) 1 "w1"

fetch_jobs_exclusive_example :
    (rows rows' : List JobRow) × (claimed : List ℕ) × ((first_fetch three_store).0 ≡ ok rows)
    × ((all_fetched (first_fetch three_store).1).0 ≡ ok rows')
    × All (λ (j : JobRow). contains_id claimed j.id ≡ true) rows
    × All (λ (j : JobRow). contains_id claimed j.id ≡ false) rows'
fetch_jobs_exclusive_example =
    fetch_jobs_exclusive quiet_world none_locked none_locked "app" "app" ("default" ∷ [])
      ("default" ∷ []) 1 10 "w1" "w1" three_store refl refl

fetch_by_priority_example : IsServedFirst resize_row mail_row
unfolding next_rows before next_jobs
fetch_by_priority_example =
    fetch_by_priority none_locked 9 "app" ("default" ∷ []) 1 three_jobs resize_row mail_row
      (Memᴰ.head refl) (Memᴰ.head refl) refl refl
