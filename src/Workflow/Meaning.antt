-- ===== src/Workflow/Meaning.antt =====
-- What internal/workflow/engine.go decodes from the workflow that client.go serialized.
use mathlib.Core.Path.{ap₂}
use rivo.Prelude.{
  Bool-cases, inl, inr, String, Bool, false, not, ◌||◌, ◌≡◌, refl, ap, ◌∙◌, str_eq, ltb,
  if◌then◌else◌,
}
use rivo.Prelude.Int.{pos}
use rivo.Base.{ok, err}
use rivo.Store.{Duration}
use rivo.Engine
use rivo.Engine.{
  StepDefinition, step_definition, StepDefinitions, no_steps, more_steps, StepInfo,
  WorkflowDefinition,
}
use rivo.Definition.{WorkflowStepDefs, encode_definition}
use rivo.Definition.Decode.{decode_definition, type_of_text, cannot_decode}
use rivo.Definition.RoundTrip.{
  meant_info, meant_step, meant_steps, has_timeout, have_timeout, meant_definition,
  decode-encode_definition,
}
use rivo.Workflow.{
  StepType, sequential, parallel, conditional, fan_out, map_type, reduce_type, handler_type,
  StepFields, WorkflowStep, workflow_step, WorkflowSteps, nil, cons, Workflow,
}
use rivo.Workflow.Serialize.{
  is_set, step_type_text, serialized_source, serialized_handler, if_parallel, serialize_timeout,
  serialize_fields, serialize_step, serialize_steps, serialize_workflow_definition,
}

-- The engine's view of a workflow, with no timeouts.
abbrev pub engine_type : StepType → Engine.StepType
engine_type sequential = Engine.sequential
engine_type parallel = Engine.parallel
engine_type conditional = Engine.conditional
engine_type fan_out = Engine.fan_out
engine_type map_type = Engine.map_type
engine_type reduce_type = Engine.reduce_type
engine_type handler_type = Engine.handler_type

abbrev pub engine_info : StepFields → StepInfo
engine_info s = record {
  id = s.id;
  name = s.name;
  type = engine_type s.step_type;
  has_condition = is_set s.condition;
  timeout = pos 0;
  handler_id = serialized_handler s.step_type s;
  source_step_id = serialized_source s.step_type s;
}

abbrev pub children_if_parallel : StepType → StepDefinitions → StepDefinitions
children_if_parallel parallel cs = cs
children_if_parallel _ cs = no_steps

unfoldable mutual
  pub engine_step : WorkflowStep → StepDefinition
  engine_step (workflow_step s cs) =
      step_definition (engine_info s) (children_if_parallel s.step_type (engine_steps cs))

  pub engine_steps : WorkflowSteps → StepDefinitions
  engine_steps nil = no_steps
  engine_steps (cons s ss) = more_steps (engine_step s) (engine_steps ss)

unfoldable pub engine_definition : Workflow → WorkflowDefinition
unfolding engine_steps
engine_definition w = record {
  name = w.name;
  description = w.description;
  steps = engine_steps w.steps;
  timeout = pos 0;
}

-- Whether a workflow has a timeout that is serialized.
abbrev pub within_parallel : StepType → Bool → Bool
within_parallel parallel b = b
within_parallel _ b = false

unfoldable mutual
  pub is_timed : WorkflowStep → Bool
  is_timed (workflow_step s cs) = ltb 0 s.timeout || within_parallel s.step_type (are_timed cs)

  pub are_timed : WorkflowSteps → Bool
  are_timed nil = false
  are_timed (cons s ss) = is_timed s || are_timed ss

type_of_text-step_type_text : (t : StepType) → type_of_text (step_type_text t) ≡ engine_type t
unfolding type_of_text
type_of_text-step_type_text sequential = refl
type_of_text-step_type_text parallel = refl
type_of_text-step_type_text conditional = refl
type_of_text-step_type_text fan_out = refl
type_of_text-step_type_text map_type = refl
type_of_text-step_type_text reduce_type = refl
type_of_text-step_type_text handler_type = refl

meant_steps-if_parallel :
    (t : StepType) (cs : WorkflowStepDefs)
    → meant_steps (if_parallel t cs) ≡ children_if_parallel t (meant_steps cs)
unfolding meant_steps
meant_steps-if_parallel parallel cs = refl
meant_steps-if_parallel sequential cs = refl
meant_steps-if_parallel conditional cs = refl
meant_steps-if_parallel fan_out cs = refl
meant_steps-if_parallel map_type cs = refl
meant_steps-if_parallel reduce_type cs = refl
meant_steps-if_parallel handler_type cs = refl

have_timeout-if_parallel :
    (t : StepType) (cs : WorkflowStepDefs)
    → have_timeout (if_parallel t cs) ≡ within_parallel t (have_timeout cs)
unfolding have_timeout
have_timeout-if_parallel parallel cs = refl
have_timeout-if_parallel sequential cs = refl
have_timeout-if_parallel conditional cs = refl
have_timeout-if_parallel fan_out cs = refl
have_timeout-if_parallel map_type cs = refl
have_timeout-if_parallel reduce_type cs = refl
have_timeout-if_parallel handler_type cs = refl

module _ (show : Duration → String) where
  meant_info-serialize_fields :
      (s : StepFields) → meant_info (serialize_fields show s) ≡ engine_info s
  meant_info-serialize_fields s = rw (type_of_text-step_type_text s.step_type) refl

  mutual
    unfolding serialize_steps engine_steps meant_steps

    meant-serialize_step : (s : WorkflowStep) → meant_step (serialize_step show s) ≡ engine_step s
    meant-serialize_step (workflow_step s cs) =
        let ih = meant-serialize_steps cs in
        ap₂ step_definition (meant_info-serialize_fields s) (
          meant_steps-if_parallel s.step_type (serialize_steps show cs)
          ∙ ap (children_if_parallel s.step_type) ih)

    meant-serialize_steps :
        (ss : WorkflowSteps) → meant_steps (serialize_steps show ss) ≡ engine_steps ss
    meant-serialize_steps nil = refl
    meant-serialize_steps (cons s ss) =
        ap₂ more_steps (meant-serialize_step s) (meant-serialize_steps ss)

  module _ (shown : (d : Duration) → str_eq (show d) "" ≡ false) where
    has_text-serialize_timeout :
        (d : Duration) → not (str_eq (serialize_timeout show d) "") ≡ ltb 0 d
    has_text-serialize_timeout d = elim (Bool-cases (ltb 0 d)) [
      | inl timed ↦ rw timed (rw (shown d) refl)
      | inr untimed ↦ rw untimed refl
    ]

    mutual
      unfolding serialize_steps have_timeout are_timed

      has_timeout-serialize_step :
          (s : WorkflowStep) → has_timeout (serialize_step show s) ≡ is_timed s
      has_timeout-serialize_step (workflow_step s cs) =
          let ih = have_timeout-serialize_steps cs in
          ap₂ ◌||◌ (has_text-serialize_timeout s.timeout) (
            have_timeout-if_parallel s.step_type (serialize_steps show cs)
            ∙ ap (within_parallel s.step_type) ih)

      have_timeout-serialize_steps :
          (ss : WorkflowSteps) → have_timeout (serialize_steps show ss) ≡ are_timed ss
      have_timeout-serialize_steps nil = refl
      have_timeout-serialize_steps (cons s ss) =
          ap₂ ◌||◌ (has_timeout-serialize_step s) (have_timeout-serialize_steps ss)

    pub decode-serialize_workflow_definition :
        (w : Workflow)
        → decode_definition (encode_definition (serialize_workflow_definition show w)) ≡ (
            if are_timed w.steps || ltb 0 w.timeout
            then err (cannot_decode "timeout")
            else ok (engine_definition w))
    unfolding serialize_workflow_definition engine_definition meant_definition
    decode-serialize_workflow_definition w =
        decode-encode_definition (serialize_workflow_definition show w)
        ∙ rw (have_timeout-serialize_steps w.steps)
            (rw (has_text-serialize_timeout w.timeout) (rw (meant-serialize_steps w.steps) refl))
