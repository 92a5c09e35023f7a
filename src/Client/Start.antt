-- ===== src/Client/Start.antt =====
-- StartWorkflow of client.go.
use rivo.Prelude.{String, Option, none, some, List, contains, if◌then◌else◌}
use rivo.Base.{wrapf, wrap_suffix, workflow_not_found, Any, marshal}
use rivo.Store.{
  Duration, StepState, StepRunState, StepStates, World, M, pure, throw, ◌>>=◌, ◌>>◌, with_error,
  ignore_error,
}
use rivo.Store.Runs.{insert_workflow_definition, create_workflow_run}
use rivo.Engine.{Engine, Scheduler}
use rivo.Engine.Run.{execute_run}
use rivo.Definition.{encode_definition}
use rivo.Workflow.{Workflow, WorkflowRun, steps}
use rivo.Workflow.Serialize.{serialize_workflow_definition}
use rivo.Client.Enqueue.{lift}
use rivo.Client.Rerun.{workflow_run_from_row}

abbrev pub pending_state : StepRunState
pending_state = record {
  state = StepState.pending;
  output = none;
  error = "";
  attempt = 0;
  started_at = none;
  completed_at = none;
}

-- The step states of a new run: each listed step is pending.
unfoldable pub initial_states : List String → StepStates
initial_states ids id = if contains ids id then some pending_state else none

module _ (show : Duration → String) (w : World) (sch : Scheduler) (e : Engine)
    (namespace : String) where
  abbrev pub start_registered : (input : Any) → Option Workflow → (name : String) → M WorkflowRun
  start_registered input none name = throw (wrap_suffix workflow_not_found name)
  start_registered input (some wf) name = do
    input_json ← with_error (wrapf "marshaling input: ") (lift (marshal input))
    def ← with_error (wrapf "inserting workflow definition: ") (
        insert_workflow_definition w wf.name namespace
          (some (encode_definition (serialize_workflow_definition show wf))))
    run ←
        with_error (wrapf "creating workflow run: ") (
          create_workflow_run w def.id namespace (some input_json)
            (initial_states (steps wf.steps)))
    ignore_error tt (execute_run w sch e run.id)
    pure (workflow_run_from_row run wf.name)

  -- The goroutine that executes the run runs at once.
  unfoldable pub start_workflow : (String → Option Workflow) → (name : String) → Any → M WorkflowRun
  unfolding initial_states
  start_workflow workflows name input = start_registered input (workflows name) name
