-- ===== src/Workflow/Serialize.antt =====
-- serializeWorkflowDefinition and serializeStep of client.go.
use rivo.Prelude.{String, Bool, true, false, Option, none, some, ltb, if◌then◌else◌}
use rivo.Store.{Duration}
use rivo.Definition.{
  StepDefFields, WorkflowStepDef, step_def, WorkflowStepDefs, no_defs, more_defs, WorkflowDef,
}
use rivo.Workflow.{
  StepType, sequential, parallel, conditional, fan_out, map_type, reduce_type, handler_type,
  StepFields, ReduceConfig, WorkflowStep, workflow_step, WorkflowSteps, nil, cons, Workflow,
}

abbrev pub is_set {ℓ} : {A : Type ℓ} → Option A → Bool
is_set none = false
is_set (some _) = true

abbrev pub step_type_text : StepType → String
step_type_text sequential = "sequential"
step_type_text parallel = "parallel"
step_type_text conditional = "conditional"
step_type_text fan_out = "fanout"
step_type_text map_type = "map"
step_type_text reduce_type = "reduce"
step_type_text handler_type = "handler"

abbrev pub source_of : Option ReduceConfig → String
source_of none = ""
source_of (some c) = c.source_step_id

abbrev pub serialized_source : StepType → StepFields → String
serialized_source reduce_type s = source_of s.reduce_config
serialized_source _ s = ""

abbrev pub serialized_handler : StepType → StepFields → String
serialized_handler handler_type s = s.handler_id
serialized_handler _ s = ""

-- The children of a step that is not parallel are left out.
abbrev pub if_parallel : StepType → WorkflowStepDefs → WorkflowStepDefs
if_parallel parallel cs = cs
if_parallel _ cs = no_defs

-- `show` is `Duration.String()`.
module _ (show : Duration → String) where
  abbrev pub serialize_timeout : Duration → String
  serialize_timeout d = if ltb 0 d then show d else ""

  abbrev pub serialize_fields : StepFields → StepDefFields
  serialize_fields s = record {
    id = s.id;
    name = s.name;
    type = step_type_text s.step_type;
    has_condition = is_set s.condition;
    timeout = serialize_timeout s.timeout;
    handler_id = serialized_handler s.step_type s;
    source_step_id = serialized_source s.step_type s;
  }

  unfoldable mutual
    pub serialize_step : WorkflowStep → WorkflowStepDef
    serialize_step (workflow_step s cs) =
        step_def (serialize_fields s) (if_parallel s.step_type (serialize_steps cs))

    pub serialize_steps : WorkflowSteps → WorkflowStepDefs
    serialize_steps nil = no_defs
    serialize_steps (cons s ss) = more_defs (serialize_step s) (serialize_steps ss)

  unfoldable pub serialize_workflow_definition : Workflow → WorkflowDef
  unfolding serialize_steps
  serialize_workflow_definition w = record {
    name = w.name;
    description = w.description;
    steps = serialize_steps w.steps;
    timeout = serialize_timeout w.timeout;
  }
