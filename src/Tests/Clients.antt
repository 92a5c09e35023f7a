-- ===== src/Tests/Clients.antt =====
-- A client with one handler and one workflow, and the HTTP server before it.
use rivo.Prelude.{
  ℕ, String, ◌≡◌, refl, ◌⊎◌, true, false, ◌||◌, Option, none, some, List, [], ◌∷◌, str_eq, ltb,
  if◌then◌else◌, empty,
}
use rivo.Prelude.Int.{ℤ, pos}
use rivo.Base.{Json, message, Result, ok, err, number, value, marshal}
use Prim.Native.String.{◌++◌ as append}
use rivo.Store.{Duration, WorkflowState}
use rivo.Engine.{Engine, register_step, new_engine, sequential}
use rivo.Engine.Steps.{execute_sequential_step, context_of}
use rivo.Engine.Outcome.{run_state}
use rivo.Workflow.{Workflow, WorkflowRun, WorkflowFunc, step_output}
use rivo.Workflow.Builder.{new_workflow, step, with_step_timeout}
use rivo.Workflow.Meaning.{are_timed}
use rivo.Client.Register.{register_workflow_steps, adapted_handler, handler_context}
use rivo.Client.LastStep.{or_else, guarded, last_of}
use rivo.Client.Lookup.{
  step_handler_of, condition_of, fan_out_of, map_handler_of, reduce_handler_of,
  register_workflow_steps_lem,
}
use rivo.Client.Start.{start_workflow}
use rivo.Client.Started.{start_workflow_lem}
use rivo.Client.Outputs.{execute_sequential_step-outputs}
use rivo.Client.Lifecycle.{Config, Client, new_client, with_defaults, fresh_client}
use rivo.Client.Calls.{
  Call, call_start, call_shutdown, call_close, run_calls, phase_after, follow, idle,
  new_client-follow,
}
use rivo.Http.{EnqueueRequest, post_jobs_cancel, route}
use rivo.Http.Refused.{route-refused}
use rivo.Tests.{quiet_world, quiet, empty_store, in_order, fresh_run, step_named}

abbrev show : Duration → String
show d = "30s"

abbrev shown : (d : Duration) → str_eq (show d) "" ≡ false
shown d = refl

-- A handler that sets an output, and fails without an input.
abbrev charge : WorkflowFunc
charge c n = elim c.input [ none ↦ (none, err (message "no input")) | some j ↦ (some j, ok tt) ]

abbrev order_workflow : Workflow
order_workflow = step (new_workflow "orders") "charge" charge []

abbrev timed_workflow : Workflow
timed_workflow = step order_workflow "ship" charge (with_step_timeout 30 ∷ [])

abbrev registered : String → Option Workflow
registered name = if str_eq name "orders" then some timed_workflow else none

-- A small number is what it was after a float.
abbrev reread : Json → Json
reread j = j

abbrev order_engine : Engine
order_engine = register_workflow_steps reread "orders" timed_workflow.steps (new_engine "app")

register_workflow_steps_lem_example :
    let e' = register_workflow_steps reread "orders" order_workflow.steps order_engine in
    (e'.handlers "orders" "ship"
      ≡ or_else
          (guarded true (last_of (step_handler_of reread) "ship" order_workflow.steps))
          (order_engine.handlers "orders" "ship"))
    × (e'.conditions "orders" "ship"
        ≡ or_else
            (guarded true (last_of condition_of "ship" order_workflow.steps))
            (order_engine.conditions "orders" "ship"))
    × (e'.fan_out_handlers "orders" "ship"
        ≡ or_else
            (guarded true (last_of fan_out_of "ship" order_workflow.steps))
            (order_engine.fan_out_handlers "orders" "ship"))
    × (e'.map_handlers "orders" "ship"
        ≡ or_else
            (guarded true (last_of map_handler_of "ship" order_workflow.steps))
            (order_engine.map_handlers "orders" "ship"))
    × (e'.reduce_handlers "orders" "ship"
        ≡ or_else
            (guarded true (last_of reduce_handler_of "ship" order_workflow.steps))
            (order_engine.reduce_handlers "orders" "ship"))
register_workflow_steps_lem_example =
    register_workflow_steps_lem reread "orders" "orders" "ship" order_workflow.steps order_engine

-- The workflow has a timeout, so that its run stays pending.
start_workflow_lem_example :
    let (a, s') =
      start_workflow show quiet_world in_order order_engine "app" registered "orders"
        (value (number (pos 5)))
        empty_store in
    (answered : WorkflowRun) × (a ≡ ok answered)
    × (((are_timed timed_workflow.steps || ltb 0 timed_workflow.timeout) ≡ true)
          × (run_state answered.id s'.runs ≡ some WorkflowState.pending)
        ⊎ ((are_timed timed_workflow.steps || ltb 0 timed_workflow.timeout) ≡ false)
          × ((run_state answered.id s'.runs ≡ some WorkflowState.completed)
              ⊎ (run_state answered.id s'.runs ≡ some WorkflowState.failed)))
unfolding marshal
start_workflow_lem_example =
    start_workflow_lem quiet_world quiet in_order order_engine show "app" registered "orders"
      (value (number (pos 5))) empty_store {wf = timed_workflow} {j = number (pos 5)} shown refl
      refl refl refl refl

execute_sequential_step-outputs_example :
    let e = register_step (new_engine "app") "orders" "charge" (adapted_handler reread charge) in
    let r' = record (fresh_run empty) { state = λ id. some (some (number (pos 9))) } in
    ((execute_sequential_step quiet_world e 7 "orders" (step_named "charge" sequential) none r').0
      ≡ (execute_sequential_step quiet_world e 7 "orders"
          (step_named "charge" sequential)
          none
          (fresh_run empty)).0)
    × (step_output
          (handler_context (
            context_of quiet_world e 7 "orders"
              (step_named "charge" sequential)
              none
              ""
              (pos 0)
              r'))
          "extract"
        ≡ err (message (append "step output not found: " "extract")))
unfolding register_step
execute_sequential_step-outputs_example =
    execute_sequential_step-outputs quiet_world
      (register_step (new_engine "app") "orders" "charge" (adapted_handler reread charge)) 7
      "orders" (step_named "charge" sequential) none reread charge (fresh_run empty)
      (λ id. some (some (number (pos 9)))) "extract" refl

-- A mail handler that fails.
abbrev small_config : Config
small_config = record {
  database_url = "postgres://localhost/app";
  max_conns = 0;
  workers = 0;
  queues = [];
  namespace = "";
  poll_interval = 0;
  job_timeout = 0;
  auto_migrate = false;
}

abbrev small_client : Client
small_client = fresh_client (with_defaults small_config) "w1"

-- The basic example's main: Start, Shutdown, and the deferred Close.
abbrev basic_main : List Call
basic_main = call_start ∷ call_shutdown none ∷ call_close none ∷ []

new_client-follow_example :
    phase_after (run_calls quiet_world basic_main small_client empty_store) ≡ follow basic_main idle
unfolding new_client
new_client-follow_example =
    new_client-follow quiet_world small_config "w1" (ok tt) (ok tt) basic_main empty_store
      {client = small_client} refl

abbrev mail_request : EnqueueRequest
mail_request = record {
  kind = "mail";
  payload = none;
  queue = "";
  priority = pos 0;
  schedule_at = none;
  idempotency_key = "welcome";
  max_attempts = 0;
}

abbrev decode : String → Result EnqueueRequest
decode text = ok mail_request

abbrev parse_int : String → Result ℤ
parse_int text = ok (pos 1)

abbrev status_text : ℕ → String
status_text n = "OK"

abbrev no_number : String → Result ℤ
no_number text = err (message "invalid syntax")

route-refused_example :
    let (response, t) =
      route status_text decode no_number quiet_world "app" in_order order_engine registered
        (post_jobs_cancel "x")
        empty_store in
    t ≡ record empty_store { event = t.event }
unfolding route
route-refused_example =
    route-refused status_text decode no_number quiet_world "app" in_order order_engine registered
      (post_jobs_cancel "x") empty_store refl
