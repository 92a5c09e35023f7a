-- ===== src/Workflow/Builder.antt =====
-- The methods that build a workflow, and the options of its steps: workflow.go.
use Prim.Native.String.{◌++◌ as append}
use rivo.Prelude.{ℕ, suc, String, Option, none, some, List, [], ◌∷◌}
use rivo.Store.{Duration}
use rivo.Handlers.{RetryPolicy, zero_retry_policy}
use rivo.Engine.FanOut.{decimal}
use rivo.Workflow.{
  StepType, sequential, parallel, conditional, map_type, reduce_type, handler_type, WorkflowFunc,
  SliceFunc, ValueFunc, Condition, FanOutConfig, StepFields, WorkflowStep, workflow_step,
  WorkflowSteps, nil, cons, fields_of, Workflow,
}

-- `append(w.steps, s)`, `len(w.steps)` and the last step of the list.
abbrev pub append_step : WorkflowSteps → WorkflowStep → WorkflowSteps
append_step nil s = cons s nil
append_step (cons x xs) s = cons x (append_step xs s)

abbrev pub count_steps : WorkflowSteps → ℕ
count_steps nil = 0
count_steps (cons x xs) = suc (count_steps xs)

abbrev pub last_step_id : WorkflowSteps → String
last_step_id nil = ""
last_step_id (cons x nil) = (fields_of x).id
last_step_id (cons x (cons y ys)) = last_step_id (cons y ys)

abbrev pub append_to : Workflow → WorkflowStep → Workflow
append_to w s = record w { steps = append_step w.steps s }

unfoldable pub new_workflow : String → Workflow
new_workflow name = record {
  name = name;
  description = "";
  steps = nil;
  timeout = 0;
  retry_policy = zero_retry_policy;
}

unfoldable pub description : Workflow → String → Workflow
description w desc = record w { description = desc }

unfoldable pub timeout : Workflow → Duration → Workflow
timeout w d = record w { timeout = d }

unfoldable pub retry : Workflow → RetryPolicy → Workflow
retry w policy = record w { retry_policy = policy }

-- A step with nothing set but these.
abbrev pub bare_step : (id name : String) → StepType → StepFields
bare_step id name type = record {
  id = id;
  name = name;
  step_type = type;
  handler = none;
  condition = none;
  retry_policy = none;
  timeout = 0;
  fan_out_config = none;
  map_func = none;
  reduce_config = none;
  handler_id = "";
}

-- `StepOption`, and the options applied in their order.
abbrev pub StepOption : Type 0
StepOption = StepFields → StepFields

abbrev pub apply_options : List StepOption → StepFields → StepFields
apply_options [] s = s
apply_options (o ∷ os) s = apply_options os (o s)

unfoldable pub with_step_name : String → StepOption
with_step_name name s = record s { name = name }

unfoldable pub with_step_retry : RetryPolicy → StepOption
with_step_retry policy s = record s { retry_policy = some policy }

unfoldable pub with_step_timeout : Duration → StepOption
with_step_timeout d s = record s { timeout = d }

unfoldable pub step : Workflow → (id : String) → WorkflowFunc → List StepOption → Workflow
step w id fn opts = append_to w (
    workflow_step (apply_options opts (record (bare_step id id sequential) { handler = some fn }))
      nil)

pub record ParallelStep : Type 0 where
  pub id : String
  pub name : String
  pub handler : Option WorkflowFunc
  pub retry : Option RetryPolicy
  pub timeout : Duration

abbrev pub parallel_child : ParallelStep → WorkflowStep
parallel_child s =
    workflow_step
      (record (bare_step s.id s.name sequential) {
        handler = s.handler;
        timeout = s.timeout;
        retry_policy = s.retry;
      })
      nil

abbrev pub parallel_children : List ParallelStep → WorkflowSteps
parallel_children [] = nil
parallel_children (s ∷ ss) = cons (parallel_child s) (parallel_children ss)

unfoldable pub in_parallel : Workflow → List ParallelStep → Workflow
unfolding decimal
in_parallel w ss = append_to w (
    workflow_step (bare_step (append "parallel_" (decimal (count_steps w.steps))) "" parallel)
      (parallel_children ss))

-- `If`
unfoldable pub if_step : Workflow → Condition → WorkflowFunc → List StepOption → Workflow
unfolding decimal
if_step w condition fn opts = append_to w (
    workflow_step
      (apply_options opts
        (record (bare_step (append "conditional_" (decimal (count_steps w.steps))) "" conditional) {
          handler = some fn;
          condition = some condition;
        }))
      nil)

unfoldable pub handler_step : Workflow → (handler_id step_id : String) → List StepOption → Workflow
handler_step w handler_id step_id opts = append_to w (
    workflow_step
      (apply_options opts
        (record (bare_step step_id step_id handler_type) { handler_id = handler_id }))
      nil)

unfoldable pub map_step : Workflow → (id : String) → SliceFunc → Workflow
map_step w id fn =
    append_to w (workflow_step (record (bare_step id id map_type) { map_func = some fn }) nil)

-- `Reduce`: its source is the last step so far, by its id.
unfoldable pub reduce_step : Workflow → (id : String) → ValueFunc → Workflow
reduce_step w id fn = append_to w (
    workflow_step
      (record (bare_step id id reduce_type) {
        reduce_config = some (record { source_step_id = last_step_id w.steps; reduce_func = fn });
      })
      nil)

unfoldable pub with_max_concurrency : ℕ → FanOutConfig → FanOutConfig
with_max_concurrency max c = record c { max_concurrency = max }
