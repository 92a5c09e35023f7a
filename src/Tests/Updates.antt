-- ===== src/Tests/Updates.antt =====
-- Cancelling, finishing and promoting jobs; queues and workers.
use rivo.Prelude.{◌≡◌, refl, true, some, [], ◌∷◌, arith, find_first}
use rivo.Base.{ok}
use rivo.Store.{JobState, JobRow, QueueConfig, tick}
use rivo.Store.Jobs.{
  with_id, cancel_job, fail_job, promote_scheduled_jobs, update_where, unique_keys,
}
use rivo.Store.Jobs.Next.{fetch_jobs}
use rivo.Store.Jobs.Lifecycle.{cancelled_job_revived}
use rivo.Store.Queues.{upsert_queue, get_queue_concurrency, pause_queue}
use rivo.Store.Queues.Config.{get_queue_concurrency-upsert_queue, fetch_jobs-pause_queue}
use rivo.Tests.{quiet_world, quiet, running_row, three_store, none_locked}

cancelled_job_revived_example :
    (k : JobRow) × (find_first
        (with_id 3)
        (promote_scheduled_jobs quiet_world "app"
          (fail_job quiet_world 3 "context canceled"
            (some 1)
            (cancel_job quiet_world 3 three_store).1).1).1.jobs
      ≡ some k)
    × (k.state ≡ JobState.available)
    × (k.cancelled_at ≡ some 0)
unfolding unique_keys update_where cancel_job
cancelled_job_revived_example =
    cancelled_job_revived quiet_world three_store running_row 3 "context canceled" 1 quiet refl refl
      refl (omega arith)

abbrev slow_queue : QueueConfig
slow_queue = record {
  name = "slow";
  namespace = "app";
  concurrency = 2;
  paused = true;
  priority = 0;
  created_at = 0;
  updated_at = 0;
}

get_queue_concurrency-upsert_queue_example :
    (get_queue_concurrency quiet_world "app" "slow"
      (upsert_queue quiet_world slow_queue three_store).1).0
    ≡ ok (2, true)
get_queue_concurrency-upsert_queue_example =
    get_queue_concurrency-upsert_queue quiet_world slow_queue "app" "slow" three_store quiet

fetch_jobs-pause_queue_example :
    (fetch_jobs quiet_world none_locked "app"
      ("default" ∷ [])
      10
      "w1"
      (pause_queue quiet_world "app" "default" true three_store).1).0
    ≡ (fetch_jobs quiet_world none_locked "app" ("default" ∷ []) 10 "w1" (tick three_store)).0
fetch_jobs-pause_queue_example =
    fetch_jobs-pause_queue quiet_world "default" true none_locked "app" ("default" ∷ []) 10 "w1"
      three_store
