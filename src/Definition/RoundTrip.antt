-- ===== src/Definition/RoundTrip.antt =====
-- The encoding of a definition by client.go against its decoding by internal/workflow/engine.go.
use mathlib.Core.Path.{ap₂}
use rivo.Prelude.{
  String, ◌≡◌, refl, ap, ◌∙◌, Bool, true, false, not, ◌||◌, arith, str_eq, eq_iff, if◌then◌else◌,
}
use rivo.Prelude.Int.{pos}
use rivo.Base.{Error, Result, ok, err}
use rivo.Engine.{
  StepInfo, StepDefinition, step_definition, StepDefinitions, no_steps, more_steps,
  WorkflowDefinition,
}
use rivo.Definition.{
  StepDefFields, WorkflowStepDef, step_def, WorkflowStepDefs, no_defs, more_defs, WorkflowDef,
  last_fields, encode_step, encode_steps, encode_definition,
}
use rivo.Definition.Decode.{decode_step, decode_steps, decode_fields}
use rivo.Definition.Decode.{type_of_text, decode_definition, cannot_decode, with_steps, cons_step}

-- The step that the client means, in the engine's types, with no timeout.
abbrev pub meant_info : StepDefFields → StepInfo
meant_info d = record {
  id = d.id;
  name = d.name;
  type = type_of_text d.type;
  has_condition = d.has_condition;
  timeout = pos 0;
  handler_id = d.handler_id;
  source_step_id = d.source_step_id;
}

unfoldable mutual
  pub meant_step : WorkflowStepDef → StepDefinition
  meant_step (step_def d cs) = step_definition (meant_info d) (meant_steps cs)

  pub meant_steps : WorkflowStepDefs → StepDefinitions
  meant_steps no_defs = no_steps
  meant_steps (more_defs d ds) = more_steps (meant_step d) (meant_steps ds)

abbrev has_text : String → Bool
has_text t = not (str_eq t "")

-- Whether some step, or some child of one, has a timeout.
unfoldable mutual
  pub has_timeout : WorkflowStepDef → Bool
  has_timeout (step_def d cs) = has_text d.timeout || have_timeout cs

  pub have_timeout : WorkflowStepDefs → Bool
  have_timeout no_defs = false
  have_timeout (more_defs d ds) = has_timeout d || have_timeout ds

abbrev timeout_error : Error
timeout_error = cannot_decode "timeout"

abbrev start_info : StepDefFields → StepInfo
start_info d = record {
  id = d.id;
  name = d.name;
  type = type_of_text d.type;
  has_condition = false;
  timeout = pos 0;
  handler_id = "";
  source_step_id = "";
}

decode-last_fields :
    (d : StepDefFields) (cs : StepDefinitions)
    → decode_fields (last_fields d) (start_info d) cs
      ≡ (if has_text d.timeout then err timeout_error else ok (step_definition (meant_info d) cs))
unfolding decode_fields
decode-last_fields d cs =
    ground (arith, eq_iff d.timeout "", eq_iff d.handler_id "", eq_iff d.source_step_id "")

after_children :
    (in_children own : Bool) (rest : StepDefinitions → Result StepDefinition) (cs : StepDefinitions)
    (s : StepDefinition)
    → rest cs ≡ (if own then err timeout_error else ok s)
    → with_steps (if in_children then err timeout_error else ok cs) rest
      ≡ (if own || in_children then err timeout_error else ok s)
after_children true true rest cs s h = refl
after_children true false rest cs s h = refl
after_children false true rest cs s h = h
after_children false false rest cs s h = h

cons_step-if :
    (a b : Bool) (s : StepDefinition) (ss : StepDefinitions)
    → cons_step (if a then err timeout_error else ok s) (if b then err timeout_error else ok ss)
      ≡ (if a || b then err timeout_error else ok (more_steps s ss))
cons_step-if true b s ss = refl
cons_step-if false true s ss = refl
cons_step-if false false s ss = refl

decode_step-children :
    (d : StepDefFields) (cs : WorkflowStepDefs)
    → decode_steps (encode_steps cs)
      ≡ (if have_timeout cs then err timeout_error else ok (meant_steps cs))
    → decode_step (encode_step (step_def d cs))
      ≡ (if has_timeout (step_def d cs) then err timeout_error else ok (meant_step (step_def d cs)))
unfolding decode_steps encode_steps meant_step has_timeout
decode_step-children d no_defs h = ground (arith, decode-last_fields d no_steps)
decode_step-children d (more_defs c cs) h =
    ap (λ r. with_steps r (decode_fields (last_fields d) (start_info d))) h
    ∙ after_children (have_timeout (more_defs c cs)) (has_text d.timeout)
        (decode_fields (last_fields d) (start_info d)) (meant_steps (more_defs c cs)) _
        (decode-last_fields d (meant_steps (more_defs c cs)))

mutual
  unfolding decode_steps encode_steps meant_steps have_timeout

  decode-encode_step :
      (d : WorkflowStepDef)
      → decode_step (encode_step d)
        ≡ (if has_timeout d then err timeout_error else ok (meant_step d))
  decode-encode_step (step_def d cs) = decode_step-children d cs (decode-encode_steps cs)

  decode-encode_steps :
      (ds : WorkflowStepDefs)
      → decode_steps (encode_steps ds)
        ≡ (if have_timeout ds then err timeout_error else ok (meant_steps ds))
  decode-encode_steps no_defs = refl
  decode-encode_steps (more_defs d ds) =
      ap₂ cons_step (decode-encode_step d) (decode-encode_steps ds)
      ∙ cons_step-if (has_timeout d) (have_timeout ds) (meant_step d) (meant_steps ds)

-- The definition that the client means, in the engine's types.
unfoldable pub meant_definition : WorkflowDef → WorkflowDefinition
unfolding meant_steps
meant_definition d = record {
  name = d.name;
  description = d.description;
  steps = meant_steps d.steps;
  timeout = pos 0;
}

-- The engine reads a definition that the client wrote as the client meant it, if neither the
-- workflow nor any of its steps, children included, has a timeout; if one has, the whole
-- definition is refused, since the client writes a timeout as text and the engine wants a number.
pub decode-encode_definition :
    (d : WorkflowDef)
    → decode_definition (encode_definition d) ≡ (
        if have_timeout d.steps || has_text d.timeout
        then err timeout_error
        else ok (meant_definition d))
unfolding decode_definition encode_definition meant_definition
decode-encode_definition d =
    ground (arith, decode-encode_steps d.steps, eq_iff d.description "", eq_iff d.timeout "")
