-- ===== src/Definition.antt =====
-- The workflow definition as JSON: what client.go writes. `Decode` holds what
-- internal/workflow/engine.go reads.
pub mod Decode
pub mod RoundTrip
use Prim.Native.String.{◌++◌ as append}
use rivo.Prelude.{ℕ, String, Bool, true, false, List, [], ◌∷◌, str_eq, ltb, ◌==◌, if◌then◌else◌}
use rivo.Prelude.Int.{ℤ, pos, negsuc}
use rivo.Base.{
  Error, message, Result, ok, err, Json, null, bool, number, string, array, object, Items, nil,
  cons, Fields, end, field,
}
use rivo.Engine.{
  StepType, sequential, parallel, conditional, fan_out, map_type, reduce_type, handler_type,
  unknown, StepInfo, StepDefinition, step_definition, StepDefinitions, no_steps, more_steps,
  WorkflowDefinition,
}

-- client.go, `workflowStepDef`, with its children. A timeout is a text here.
pub record StepDefFields : Type 0 where
  pub id : String
  pub name : String
  pub type : String
  pub has_condition : Bool
  pub timeout : String
  pub handler_id : String
  pub source_step_id : String

mutual
  pub data WorkflowStepDef : Type 0 where
    step_def : StepDefFields → WorkflowStepDefs → WorkflowStepDef

  pub data WorkflowStepDefs : Type 0 where
    no_defs : WorkflowStepDefs
    more_defs : WorkflowStepDef → WorkflowStepDefs → WorkflowStepDefs

pub record WorkflowDef : Type 0 where
  pub name : String
  pub description : String
  pub steps : WorkflowStepDefs
  pub timeout : String

-- `omitempty`, for the types of the fields.
abbrev pub omit_text : String → String → Fields → Fields
omit_text k t rest = if str_eq t "" then rest else field k (string t) rest

abbrev pub omit_bool : String → Bool → Fields → Fields
omit_bool k b rest = if b then field k (bool true) rest else rest

abbrev pub omit_items : String → Items → Fields → Fields
omit_items k nil rest = rest
omit_items k (cons j js) rest = field k (array (cons j js)) rest

-- The fields of a step, in the order of the struct.
abbrev pub last_fields : StepDefFields → Fields
last_fields d = omit_bool "has_condition" d.has_condition (
    omit_text "timeout" d.timeout
      (omit_text "handler_id" d.handler_id (omit_text "source_step_id" d.source_step_id end)))

abbrev pub encode_fields : StepDefFields → Items → Fields
encode_fields d children = field "id" (string d.id) (
    field "name" (string d.name)
      (field "type" (string d.type) (omit_items "children" children (last_fields d))))

unfoldable mutual
  pub encode_step : WorkflowStepDef → Json
  encode_step (step_def d cs) = object (encode_fields d (encode_steps cs))

  pub encode_steps : WorkflowStepDefs → Items
  encode_steps no_defs = nil
  encode_steps (more_defs d ds) = cons (encode_step d) (encode_steps ds)

-- `json.Marshal` at the end of serializeWorkflowDefinition; `steps` has no `omitempty`.
unfoldable pub encode_definition : WorkflowDef → Json
unfolding encode_steps
encode_definition d = object (
    field "name" (string d.name) (
      omit_text "description" d.description
        (field "steps" (array (encode_steps d.steps)) (omit_text "timeout" d.timeout end))))
