-- ===== src/Pipeline.antt =====
-- One job after the other through the parts: handleJob of client.go as the handler of executeJob
-- (internal/executor/executor.go), whose result the completer takes (handleResult of
-- internal/executor/completer.go), for the jobs of one fetch.
pub mod Settle
pub mod Ran
pub mod Reported
pub mod Round
pub mod Drain
pub mod Service
pub mod Attempts
use rivo.Prelude.{ℕ, none, some, List, [], ◌∷◌, String}
use rivo.Base.{Result, ok, err}
use rivo.Store.{JobRow, World, Store, M, ◌>>=◌}
use rivo.Retry.{Chance, Policy}
use rivo.Handlers.{RegisteredHandler}
use rivo.Client.Jobs.{handle_job}
use rivo.Executor.Completer.{handle_result}
use rivo.Executor.Pool.{Handled, execute_job}

module _ (w : World) (c : Chance) (p : Policy) (hs : List RegisteredHandler)
    (worker_id : String) where
  -- `executeJob` recovers where the call of handleJob has panicked, and the completer stores what
  -- came of the job.
  abbrev pub settle_job : JobRow → Handled → M (Unit {0})
  settle_job row called s = handle_result w c p (execute_job (w.stack s.event) row called) s

  -- A worker runs a job, and what came of it is stored.
  unfoldable pub run_job : JobRow → Store → Store
  run_job row s = ((handle_job w hs worker_id row >>= settle_job row) s).1

  unfoldable pub work_off : List JobRow → Store → Store
  work_off [] s = s
  work_off (row ∷ rows) s = work_off rows (run_job row s)
