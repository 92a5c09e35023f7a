-- ===== src/Tests/Workflows.antt =====
-- Executing, failing and replaying runs; definitions as JSON.
use rivo.Prelude.{◌≡◌, refl, none, some, [], false, ◌∷◌, empty}
use rivo.Prelude.Int.{pos}
use rivo.Base.{message, ok, err, Json}
use rivo.Definition.{encode_definition, step_def, no_defs, more_defs}
use rivo.Store.{WorkflowState, WorkflowRunRow, WorkflowDefinitionRow, StepStates, Store}
use rivo.Engine.{
  sequential, StepInfo, step_definition, no_steps, WorkflowDefinition, Engine, register_step,
}
use rivo.Engine.Steps.{execute_sequential_step, quoted_error}
use rivo.Engine.Run.{execute_step, execute_steps, execute_parsed, execute_run, parse_definition}
use rivo.Engine.Outcome.{Ends, execute_run_outcome}
use rivo.Engine.Contract.{Recorded, execute_sequential_step-Recorded}
use rivo.Engine.Replay.{saved_states, execute_steps_replay, execute_parsed-first_failure}
use rivo.Engine.Frame.{execute_step_frame}
use rivo.Tests.{
  quiet_world, quiet, store_with, step_named, one_step, succeeds, fails, engine_of, in_order,
  charged, fresh_run,
}

abbrev no_states : StepStates
no_states = empty

abbrev one_run : WorkflowRunRow
one_run = record {
  id = 7;
  definition_id = 1;
  namespace = "app";
  state = WorkflowState.pending;
  input = none;
  output = none;
  step_states = no_states;
  error = none;
  started_at = none;
  completed_at = none;
  created_at = 0;
  updated_at = 0;
}

-- The run is cancelled while it is executed.
abbrev cancelled_store : Store
cancelled_store = store_with [] 1 (record one_run { state = WorkflowState.cancelled } ∷ [])

abbrev orders : WorkflowDefinition
orders = record { name = "orders"; description = ""; steps = one_step "charge"; timeout = pos 0 }

abbrev with_success : Engine
with_success = engine_of succeeds

abbrev with_failure : Engine
with_failure = engine_of fails

-- The definition as StartWorkflow stores it.
abbrev orders_json : Json
orders_json = encode_definition (record {
  name = "orders";
  description = "";
  steps =
      more_defs
        (step_def
          (record {
            id = "charge";
            name = "charge";
            type = "sequential";
            has_condition = false;
            timeout = "";
            handler_id = "";
            source_step_id = "";
          })
          no_defs)
        no_defs;
  timeout = "";
})

abbrev orders_row : WorkflowDefinitionRow
orders_row = record {
  id = 1;
  name = "orders";
  version = 1;
  namespace = "app";
  definition = some orders_json;
  created_at = 0;
}

abbrev with_orders : Store
with_orders = record cancelled_store { definitions = orders_row ∷ [] }

execute_run_outcome_example :
    let (a, s') = execute_run quiet_world in_order with_failure 7 with_orders in
    Ends 7
      (parse_definition quiet_world in_order with_failure (some orders_json))
      a
      cancelled_store.runs
      s'.runs
execute_run_outcome_example =
    execute_run_outcome quiet_world quiet in_order with_failure 7
      (record one_run { state = WorkflowState.cancelled }) orders_row with_orders refl refl

abbrev charge : StepInfo
charge = step_named "charge" sequential

execute_sequential_step-Recorded_example :
    let (result, r') =
      execute_sequential_step quiet_world with_failure 7 "orders" charge none (fresh_run charged) in
    Recorded "charge" (charged "charge") 0 3 (err (message "boom")) result r'
unfolding register_step
execute_sequential_step-Recorded_example =
    execute_sequential_step-Recorded quiet_world with_failure 7 "orders" charge none fails
      (fresh_run charged) refl

execute_steps_replay_example :
    let (a, r') =
      execute_steps quiet_world in_order with_failure 7 "orders" none
        (one_step "charge")
        (fresh_run charged) in
    (a ≡ ok tt) × (r'.state ≡ empty) × (r'.step_states ≡ charged) × (r'.store.step_logs ≡ [])
execute_steps_replay_example =
    execute_steps_replay quiet_world in_order with_failure "orders" 7 none (one_step "charge")
      (fresh_run charged) refl

execute_parsed-first_failure_example :
    saved_states 7
      (execute_parsed quiet_world in_order with_failure one_run "orders" orders
        cancelled_store).1.runs
    ≡ some no_states
unfolding saved_states execute_step register_step execute_sequential_step
execute_parsed-first_failure_example =
    execute_parsed-first_failure quiet_world in_order with_failure "orders" one_run orders
      cancelled_store {s = step_definition charge no_steps} {ss = no_steps}
      {x = quoted_error "step " "charge" " failed: " (message "boom")} refl refl

execute_step_frame_example :
    let r' =
      (execute_step quiet_world in_order with_success 7 "orders" none
        (step_definition charge no_steps)
        (fresh_run no_states)).1 in
    (r'.step_states "ship" ≡ none) × (r'.state "ship" ≡ none)
execute_step_frame_example =
    execute_step_frame quiet_world in_order with_success 7 "orders" none
      (step_definition charge no_steps) "ship" (fresh_run no_states) refl refl
