-- ===== src/Client/Register.antt =====
-- RegisterWorkflow of client.go, with the adapters that it registers with the engine.
use rivo.Prelude.{String, List, Option, none, some}
use rivo.Base.{Result, ok, err, Json, Any}
use rivo.Engine
use rivo.Engine.{
  Engine, Context, StepHandler, ConditionFunc, Handler, register_step, register_condition,
  register_fan_out, register_map, register_reduce,
}
use rivo.Workflow.{
  StepType, parallel, WorkflowContext, WorkflowFunc, ListFunc, SliceFunc, ValueFunc, Condition,
  FanOutConfig, ReduceConfig, StepFields, WorkflowStep, workflow_step, WorkflowSteps, nil, cons,
}
use rivo.Prelude.{empty}

-- The context that a step's handler gets: with the input, and without the engine's outputs.
abbrev pub handler_context : Context → WorkflowContext
handler_context c = record {
  run_id = c.run_id;
  step_id = c.step_id;
  previous_step_id = "";
  input = c.input;
  state = empty;
  engine_ctx = none;
  timeout = c.timeout;
}

-- The context of a condition: it has no input either.
abbrev pub condition_context : Context → WorkflowContext
condition_context c = record (handler_context c) { input = none }

-- `createWorkflowContext`
unfoldable pub create_workflow_context : Context → WorkflowContext
create_workflow_context c = record (handler_context c) {
  previous_step_id = c.previous_step_id;
  engine_ctx = some c;
}

-- The output that the handler set is copied to the engine's context if the handler succeeds. On its
-- way it is decoded to an `any` and encoded again, which is `reread`: a number goes through a float.
abbrev pub copied_output : (reread : Json → Json) → Option Json → Result (Unit {0}) → Option Json
copied_output reread none (ok _) = none
copied_output reread (some j) (ok _) = some (reread j)
copied_output reread out (err x) = none

abbrev pub adapted_handler : (reread : Json → Json) → WorkflowFunc → StepHandler
adapted_handler reread f c n =
    let (out, r) = f (handler_context c) n in (copied_output reread out r, r)

abbrev pub adapted_condition : Condition → ConditionFunc
adapted_condition f c n = (none, f (condition_context c) n)

abbrev pub adapted_list : ListFunc → Handler (List Any)
adapted_list f c n = (none, f (create_workflow_context c) n)

abbrev pub adapted_slice : SliceFunc → Handler (Option (List Any))
adapted_slice f c n = (none, f (create_workflow_context c) n)

abbrev pub adapted_value : ValueFunc → Handler Any
adapted_value f c n = (none, f (create_workflow_context c) n)

abbrev pub adapted_fan_out : FanOutConfig → Engine.FanOutHandler
adapted_fan_out f = record {
  items_func = adapted_list f.items_func;
  map_func = λ a i. adapted_value (f.map_func a i);
  max_concurrency = f.max_concurrency;
}

abbrev pub if_some {ℓ} : {A : Type ℓ} → (A → Engine → Engine) → Option A → Engine → Engine
if_some f none e = e
if_some f (some a) e = f a e

-- The registrations of one step that is not parallel, in their order.
unfoldable pub register_fields :
    (reread : Json → Json) → (workflow : String) → StepFields → Engine → Engine
unfolding create_workflow_context
register_fields reread name s e =
    let e1 = if_some (λ f e. register_step e name s.id (adapted_handler reread f)) s.handler e in
    let e2 = if_some (λ f e. register_condition e name s.id (adapted_condition f)) s.condition e1 in
    let e3 =
      if_some (λ f e. register_fan_out e name s.id (adapted_fan_out f)) s.fan_out_config e2 in
    let e4 = if_some (λ f e. register_map e name s.id (adapted_slice f)) s.map_func e3 in
    if_some (λ (f : ReduceConfig) e. register_reduce e name s.id (adapted_value f.reduce_func))
      s.reduce_config e4

-- `registerWorkflowStep`: of a parallel step only the children are registered.
abbrev pub by_type {ℓ} : {A : Type ℓ} → StepType → A → A → A
by_type parallel a b = a
by_type _ a b = b

unfoldable mutual
  unfolding register_fields

  pub register_workflow_step :
      (reread : Json → Json) → (workflow : String) → WorkflowStep → Engine → Engine
  register_workflow_step reread name (workflow_step s cs) e =
      by_type s.step_type (register_workflow_steps reread name cs e)
        (register_fields reread name s e)

  pub register_workflow_steps :
      (reread : Json → Json) → (workflow : String) → WorkflowSteps → Engine → Engine
  register_workflow_steps reread name nil e = e
  register_workflow_steps reread name (cons s ss) e =
      register_workflow_steps reread name ss (register_workflow_step reread name s e)
