-- ===== src/Engine/Run.antt =====
-- ExecuteRun and executeStep of internal/workflow/engine.go.
use Prim.Native.String.{◌++◌ as append}
use rivo.Prelude.{ℕ, String, Bool, true, false, Option, none, some}
use rivo.Base.{message, wrapf, error_text, Result, ok, err, RawMessage}
use rivo.Store.{
  StepRunState, StepState, WorkflowState, WorkflowRunRow, WorkflowDefinitionRow, StepStates, World,
  M, with_error, ignore_error, and_then,
}
use rivo.Store.Runs.{
  get_workflow_run, get_workflow_definition_by_id, update_workflow_run_state,
  update_workflow_run_step_states,
}
use rivo.Engine.{
  StepType, parallel, conditional, fan_out, map_type, reduce_type, handler_type, StepInfo,
  StepDefinition, StepDefinitions, no_steps, more_steps, step_info, children_of, WorkflowDefinition,
  State, Engine, Scheduler, RunState, Step, continue, ◌>>◌, fail_with, db,
}
use rivo.Engine.Steps.{
  execute_sequential_step, execute_conditional_step, execute_map_step, execute_reduce_step,
  execute_handler_step,
}
use rivo.Definition.Decode.{decode_definition}
use rivo.Engine.FanOut.{decimal, execute_fan_out_step}
use rivo.Engine.Parallel.{execute_parallel_steps}

abbrev pub is_completed : Option StepRunState → Bool
is_completed none = false
is_completed (some st) = elim st.state [ StepState.completed ↦ true | _ ↦ false ]

-- The outputs that a replay starts from: those of the recorded states that are not nil.
abbrev pub replayed_output : Option StepRunState → Option RawMessage
replayed_output none = none
replayed_output (some st) = elim st.output [ none ↦ none | some j ↦ some (some j) ]

abbrev pub replayed_state : StepStates → State
replayed_state states id = replayed_output (states id)

module _ (w : World) (sch : Scheduler) (e : Engine) (run_id : ℕ) (workflow : String)
    (input : RawMessage) where
  -- The `switch` of executeStep.
  unfoldable pub dispatch : StepType → StepInfo → StepDefinitions → Step (Unit {0})
  dispatch parallel step children = execute_parallel_steps w e run_id workflow input sch children
  dispatch conditional step children = execute_conditional_step w e run_id workflow step input
  dispatch fan_out step children = execute_fan_out_step w sch e run_id workflow step input
  dispatch map_type step children = execute_map_step w e run_id workflow step input
  dispatch reduce_type step children = execute_reduce_step w e run_id workflow step input
  dispatch handler_type step children = execute_handler_step w e run_id workflow step input
  dispatch _ step children = execute_sequential_step w e run_id workflow step input

  -- A step that is recorded as completed is skipped.
  unfoldable pub execute_step : StepDefinition → Step (Unit {0})
  unfolding dispatch
  execute_step s r = elim (is_completed (r.step_states (step_info s).id)) [
    | true ↦ (ok tt, r)
    | false ↦ dispatch (step_info s).type (step_info s) (children_of s) r
  ]

  -- What ExecuteRun does when a step has returned: on an error the run is marked as failed and the
  -- step states stay unsaved, otherwise they are saved.
  abbrev pub after_step : StepInfo → Result (Unit {0}) → Step (Unit {0})
  after_step step (err x) = do
    db (
        ignore_error tt
          (update_workflow_run_state w run_id WorkflowState.failed step.id (error_text x)))
    fail_with x
  after_step step (ok _) =
      λ r. db (ignore_error tt (update_workflow_run_step_states w run_id r.step_states)) r

  -- The loop over the steps.
  unfoldable pub execute_steps : StepDefinitions → Step (Unit {0})
  execute_steps no_steps r = (ok tt, r)
  execute_steps (more_steps s ss) r =
      let (a, r') = execute_step s r in
      let (b, r'') = after_step (step_info s) a r' in continue b (λ _. execute_steps ss) r''

-- The rest of ExecuteRun, once the definition is parsed.
module _ (w : World) (sch : Scheduler) (e : Engine) where
  unfoldable pub execute_parsed :
      WorkflowRunRow → (workflow : String) → WorkflowDefinition → M (Unit {0})
  unfolding execute_steps
  execute_parsed run workflow def s =
      let r : RunState = record {
        state = replayed_state run.step_states;
        step_states = run.step_states;
        store = s;
      } in
      let (a, r') =
        (do
          db (
              with_error (wrapf "updating workflow run state: ")
                (update_workflow_run_state w run.id WorkflowState.running "" ""))
          execute_steps w sch e run.id workflow run.input def.steps
          db (
              with_error (wrapf "updating workflow run state: ")
                (update_workflow_run_state w run.id WorkflowState.completed "" "")))
          r in
      (a, r'.store)

  -- `json.Unmarshal(def.Definition, &workflowDef)`: nil is no JSON text.
  abbrev pub parse_definition : RawMessage → Result WorkflowDefinition
  parse_definition none = err (message "unexpected end of JSON input")
  parse_definition (some j) = decode_definition j

  abbrev pub parsed :
      WorkflowRunRow → WorkflowDefinitionRow → Result WorkflowDefinition → M (Unit {0})
  parsed run def (err x) s = (err (wrapf "parsing workflow definition: " x), s)
  parsed run def (ok d) s = execute_parsed run def.name d s

  abbrev pub with_definition : WorkflowRunRow → Option WorkflowDefinitionRow → M (Unit {0})
  with_definition run none s =
      (err (message (append "workflow definition not found: " (decimal run.definition_id))), s)
  with_definition run (some def) s = parsed run def (parse_definition def.definition) s

  abbrev pub with_run : ℕ → Option WorkflowRunRow → M (Unit {0})
  with_run run_id none s = (err (message (append "workflow run not found: " (decimal run_id))), s)
  with_run run_id (some run) s =
      let (r, s') =
        with_error (wrapf "getting workflow definition: ")
          (get_workflow_definition_by_id w run.definition_id) s in
      and_then r (with_definition run) s'

  -- `ExecuteRun`
  unfoldable pub execute_run : (run_id : ℕ) → M (Unit {0})
  unfolding execute_parsed decode_definition decimal
  execute_run run_id s =
      let (r, s') = with_error (wrapf "getting workflow run: ") (get_workflow_run w run_id) s in
      and_then r (with_run run_id) s'
