-- ===== src/Client/Reads.antt =====
-- What a client reads and what it repeats: ListWorkflowRuns, GetWorkflowStepLogs, runScheduler and
-- runHeartbeat of client.go.
use rivo.Prelude.{ℕ, String, none, List, [], ◌∷◌}
use rivo.Store.{WorkflowRunRow, LogRow, World, M, Store, pure, ◌>>=◌, ignore_error}
use rivo.Store.Jobs.{promote_scheduled_jobs}
use rivo.Store.Workers.{worker_heartbeat}
use rivo.Store.Runs.{get_workflow_definition_by_id}
use rivo.Store.Reads
use rivo.Workflow.{WorkflowRun}
use rivo.Client.Rerun.{workflow_name, workflow_run_from_row}

-- What a ticker's loop meets: a tick, or the end of its context or of the client.
pub data LoopEvent : Type 0 where
  tick ends : LoopEvent

-- A loop of a goroutine: the body at each tick, until the end.
abbrev pub on_ticks : (Store → Store) → List LoopEvent → Store → Store
on_ticks body [] s = s
on_ticks body (ends ∷ es) s = s
on_ticks body (tick ∷ es) s = on_ticks body es (body s)

module _ (w : World) where
  -- The name of each run's workflow; an error of that query is dropped.
  abbrev pub with_names : List WorkflowRunRow → M (List WorkflowRun)
  with_names [] = pure []
  with_names (row ∷ rows) = do
    def ← ignore_error none (get_workflow_definition_by_id w row.definition_id)
    rest ← with_names rows
    pure (workflow_run_from_row row (workflow_name def) ∷ rest)

  -- `ListWorkflowRuns`
  unfoldable pub list_workflow_runs :
      (namespace state : String) → (limit : ℕ) → M (List WorkflowRun)
  list_workflow_runs namespace state limit =
      Reads.list_workflow_runs w namespace state limit >>= with_names

  -- `GetWorkflowStepLogs`: it copies the rows, field by field.
  unfoldable pub get_workflow_step_logs : ℕ → M (List LogRow)
  get_workflow_step_logs run_id = Reads.get_workflow_step_logs w run_id

  unfoldable pub run_scheduler : (namespace : String) → List LoopEvent → Store → Store
  run_scheduler namespace = on_ticks (λ s. (promote_scheduled_jobs w namespace s).1)

  unfoldable pub run_heartbeat : (worker_id : String) → List LoopEvent → Store → Store
  run_heartbeat worker_id = on_ticks (λ s. (worker_heartbeat w worker_id s).1)
