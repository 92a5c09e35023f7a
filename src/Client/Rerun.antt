-- ===== src/Client/Rerun.antt =====
-- RerunWorkflowStep, GetWorkflowRun and CancelWorkflowRun of client.go.
use Prim.Native.String.{◌++◌ as append}
use rivo.Prelude.{
  ℕ, suc, String, Bool, true, false, ◌&&◌, ◌||◌, Option, none, some, List, [], ◌∷◌, str_eq, leb,
  if◌then◌else◌,
}
use rivo.Base.{message, wrapf, wrap_suffix, workflow_not_found, workflow_run_not_found}
use rivo.Store.{
  StepState, StepRunState, StepStates, WorkflowState, WorkflowRunRow, WorkflowDefinitionRow, World,
  M, pure, throw, ◌>>=◌, ◌>>◌, with_error, ignore_error,
}
use rivo.Store.Runs.{
  get_workflow_run, get_workflow_definition_by_id, update_workflow_run_state,
  reset_workflow_step_for_rerun,
}
use rivo.Workflow.{Workflow, WorkflowRun, steps}
use rivo.Client.Jobs.{text_or_empty}
use rivo.Engine.{Engine, Scheduler}
use rivo.Engine.Run.{execute_run}

-- A run and the name of its workflow, "" if the definition is gone.
abbrev pub workflow_name : Option WorkflowDefinitionRow → String
workflow_name none = ""
workflow_name (some d) = d.name

-- `workflowRunFromRow`
abbrev pub workflow_run_from_row : WorkflowRunRow → (workflow_name : String) → WorkflowRun
workflow_run_from_row row name = record {
  id = row.id;
  workflow_name = name;
  namespace = row.namespace;
  state = row.state;
  input = row.input;
  output = row.output;
  step_states = row.step_states;
  current_step = "";
  error = text_or_empty row.error;
  started_at = row.started_at;
  completed_at = row.completed_at;
  created_at = row.created_at;
  updated_at = row.updated_at;
}

abbrev pub named_run : World → Option WorkflowRunRow → M (Option WorkflowRun)
named_run w none = pure none
named_run w (some row) = do
  def ← get_workflow_definition_by_id w row.definition_id
  pure (some (workflow_run_from_row row (workflow_name def)))

-- `GetWorkflowRun`
unfoldable pub get_run : World → ℕ → M (Option WorkflowRun)
get_run w id = get_workflow_run w id >>= named_run w

-- `CancelWorkflowRun`
unfoldable pub cancel_workflow_run : World → ℕ → M (Unit {0})
cancel_workflow_run w id =
    update_workflow_run_state w id WorkflowState.cancelled "" "cancelled by user"

abbrev pub may_rerun : WorkflowState → Bool
may_rerun WorkflowState.failed = true
may_rerun WorkflowState.cancelled = true
may_rerun _ = false

-- The index of the first step with this id, counted from `i`.
unfoldable pub step_index : String → ℕ → List String → Option ℕ
step_index id i [] = none
step_index id i (x ∷ xs) = if str_eq x id then some i else step_index id (suc i) xs

-- Whether a step with this id stands at the index or after it, counted from `i`.
unfoldable pub found_from : (index : ℕ) → String → ℕ → List String → Bool
found_from index id i [] = false
found_from index id i (x ∷ xs) = str_eq x id && leb index i || found_from index id (suc i) xs

abbrev pub pending_again : StepRunState → StepRunState
pending_again st = record {
  state = StepState.pending;
  output = none;
  error = "";
  attempt = st.attempt;
  started_at = none;
  completed_at = none;
}

abbrev pub reset_state : Bool → StepRunState → StepRunState
reset_state found st = if found then pending_again st else st

-- The loop that fills `newStepStates`.
unfoldable pub reset_states : List String → (index : ℕ) → StepStates → StepStates
unfolding found_from
reset_states ids index states id = elim (states id) [
  | none ↦ none
  | some st ↦ some (reset_state (found_from index id 0 ids) st)
]

module _ (w : World) (sch : Scheduler) (e : Engine) (workflows : String → Option Workflow) where
  -- From the step's index on: reset, and start the goroutine, which here runs at once.
  abbrev pub rerun_from :
      ℕ → List String → WorkflowRun → (step_id : String) → Option ℕ → M (Unit {0})
  rerun_from run_id ids run step_id none = throw (message (append "step not found: " step_id))
  rerun_from run_id ids run step_id (some index) = do
    with_error (wrapf "resetting workflow step: ")
        (reset_workflow_step_for_rerun w run_id (reset_states ids index run.step_states))
    ignore_error tt (execute_run w sch e run_id)

  abbrev pub rerun_in : ℕ → (step_id : String) → WorkflowRun → Option Workflow → M (Unit {0})
  rerun_in run_id step_id run none = throw (wrap_suffix workflow_not_found run.workflow_name)
  rerun_in run_id step_id run (some wf) =
      rerun_from run_id (steps wf.steps) run step_id (step_index step_id 0 (steps wf.steps))

  abbrev pub rerun_run : ℕ → (step_id : String) → Option WorkflowRun → M (Unit {0})
  rerun_run run_id step_id none = throw workflow_run_not_found
  rerun_run run_id step_id (some run) =
      if may_rerun run.state
      then rerun_in run_id step_id run (workflows run.workflow_name)
      else throw (message "workflow must be in failed or cancelled state to rerun steps")

  -- `RerunWorkflowStep`
  unfoldable pub rerun_workflow_step : ℕ → (step_id : String) → M (Unit {0})
  unfolding steps step_index reset_states execute_run get_run reset_workflow_step_for_rerun
  rerun_workflow_step run_id step_id =
      with_error (wrapf "getting workflow run: ") (get_run w run_id) >>= rerun_run run_id step_id
