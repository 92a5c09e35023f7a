-- ===== src/Definition/Decode.antt =====
-- Decoding of a workflow definition: UnmarshalJSON of internal/workflow/engine.go, and what
-- encoding/json does with its structs.
use Prim.Native.String.{◌++◌ as append}
use rivo.Prelude.{ℕ, String, Bool, false, str_eq, ◌==◌, if◌then◌else◌}
use rivo.Prelude.Int.{ℤ, pos, negsuc}
use rivo.Base.{
  Error, message, Result, ok, err, Json, null, bool, number, string, array, object, Items, nil,
  cons, Fields, end, field,
}
use rivo.Engine.{
  StepType, sequential, parallel, conditional, fan_out, map_type, reduce_type, handler_type,
  unknown, StepInfo, StepDefinition, step_definition, StepDefinitions, no_steps, more_steps,
  WorkflowDefinition,
}

-- The text of `StepType.MarshalJSON`, and what `UnmarshalJSON` makes of a text or a number.
unfoldable pub type_text : StepType → String
type_text parallel = "parallel"
type_text conditional = "conditional"
type_text fan_out = "fanout"
type_text map_type = "map"
type_text reduce_type = "reduce"
type_text handler_type = "handler"
type_text _ = "sequential"

unfoldable pub type_of_text : String → StepType
type_of_text t =
    if str_eq t "sequential"
    then sequential
    else if str_eq t "parallel"
    then parallel
    else if str_eq t "conditional"
    then conditional
    else if str_eq t "fanout"
    then fan_out
    else if str_eq t "map"
    then map_type
    else if str_eq t "reduce"
    then reduce_type
    else if str_eq t "handler"
    then handler_type
    else sequential

abbrev type_of_nat : ℕ → StepType
type_of_nat n =
    if n == 0
    then sequential
    else if n == 1
    then parallel
    else if n == 2
    then conditional
    else if n == 3
    then fan_out
    else if n == 4
    then map_type
    else if n == 5
    then reduce_type
    else if n == 6
    then handler_type
    else unknown (pos n)

abbrev pub cannot_decode : String → Error
cannot_decode k = message (append "json: cannot unmarshal value into Go struct field " k)

unfoldable pub decode_type : Json → Result StepType
unfolding type_of_text
decode_type null = ok sequential
decode_type (string t) = ok (type_of_text t)
decode_type (number (pos n)) = ok (type_of_nat n)
decode_type (number (negsuc n)) = ok (unknown (negsuc n))
decode_type _ = err (cannot_decode "type")

-- Scalars; null leaves a field as it is, and `time.Duration` is an int64, which no text gives.
abbrev pub decode_text : String → String → Json → Result String
decode_text k old null = ok old
decode_text k old (string t) = ok t
decode_text k old _ = err (cannot_decode k)

abbrev pub decode_bool : String → Bool → Json → Result Bool
decode_bool k old null = ok old
decode_bool k old (bool b) = ok b
decode_bool k old _ = err (cannot_decode k)

abbrev pub decode_int : String → ℤ → Json → Result ℤ
decode_int k old null = ok old
decode_int k old (number n) = ok n
decode_int k old _ = err (cannot_decode k)

abbrev pub then_set {ℓ κ} : {A : Type ℓ} {B : Type κ} → Result A → (A → B) → Result B
then_set (ok a) f = ok (f a)
then_set (err e) f = err e

-- One scalar field of a step. An unknown key is skipped.
unfoldable pub set_field : String → Json → StepInfo → Result StepInfo
unfolding decode_type
set_field k v s =
    if str_eq k "id"
    then then_set (decode_text k s.id v) (λ x. record s { id = x })
    else if str_eq k "name"
    then then_set (decode_text k s.name v) (λ x. record s { name = x })
    else if str_eq k "type"
    then then_set (decode_type v) (λ x. record s { type = x })
    else if str_eq k "has_condition"
    then then_set (decode_bool k s.has_condition v) (λ x. record s { has_condition = x })
    else if str_eq k "timeout"
    then then_set (decode_int k s.timeout v) (λ x. record s { timeout = x })
    else if str_eq k "handler_id"
    then then_set (decode_text k s.handler_id v) (λ x. record s { handler_id = x })
    else if str_eq k "source_step_id"
    then then_set (decode_text k s.source_step_id v) (λ x. record s { source_step_id = x })
    else ok s

abbrev pub zero_info : StepInfo
zero_info = record {
  id = "";
  name = "";
  type = sequential;
  has_condition = false;
  timeout = pos 0;
  handler_id = "";
  source_step_id = "";
}

abbrev pub with_info : Result StepInfo → (StepInfo → Result StepDefinition) → Result StepDefinition
with_info (ok s) f = f s
with_info (err e) f = err e

abbrev pub with_steps :
    Result StepDefinitions → (StepDefinitions → Result StepDefinition) → Result StepDefinition
with_steps (ok cs) f = f cs
with_steps (err e) f = err e

abbrev pub cons_step : Result StepDefinition → Result StepDefinitions → Result StepDefinitions
cons_step (ok s) (ok ss) = ok (more_steps s ss)
cons_step (ok s) (err e) = err e
cons_step (err e) r = err e

-- `json.Unmarshal` of a step: its fields one by one, in the order of the text.
unfoldable mutual
  unfolding set_field

  pub decode_step : Json → Result StepDefinition
  decode_step null = ok (step_definition zero_info no_steps)
  decode_step (object fs) = decode_fields fs zero_info no_steps
  decode_step _ = err (cannot_decode "steps")

  pub decode_children : Json → Result StepDefinitions
  decode_children null = ok no_steps
  decode_children (array js) = decode_steps js
  decode_children _ = err (cannot_decode "children")

  pub decode_steps : Items → Result StepDefinitions
  decode_steps nil = ok no_steps
  decode_steps (cons j js) = cons_step (decode_step j) (decode_steps js)

  pub decode_fields : Fields → StepInfo → StepDefinitions → Result StepDefinition
  decode_fields end s cs = ok (step_definition s cs)
  decode_fields (field k v rest) s cs =
      let children = with_steps (decode_children v) (decode_fields rest s) in
      let scalar = with_info (set_field k v s) (λ s'. decode_fields rest s' cs) in
      if str_eq k "children" then children else scalar

-- The fields of the definition itself.
unfoldable pub set_top : String → Json → WorkflowDefinition → Result WorkflowDefinition
unfolding decode_children
set_top k v d =
    if str_eq k "name"
    then then_set (decode_text k d.name v) (λ x. record d { name = x })
    else if str_eq k "description"
    then then_set (decode_text k d.description v) (λ x. record d { description = x })
    else if str_eq k "steps"
    then then_set (decode_children v) (λ x. record d { steps = x })
    else if str_eq k "timeout"
    then then_set (decode_int k d.timeout v) (λ x. record d { timeout = x })
    else ok d

unfoldable pub decode_top : Fields → WorkflowDefinition → Result WorkflowDefinition
unfolding set_top
decode_top end d = ok d
decode_top (field k v rest) d = elim (set_top k v d) [ ok d' ↦ decode_top rest d' | err e ↦ err e ]

unfoldable pub decode_definition : Json → Result WorkflowDefinition
unfolding decode_top
decode_definition (object fs) =
    decode_top fs (record { name = ""; description = ""; steps = no_steps; timeout = pos 0 })
decode_definition null =
    ok (record { name = ""; description = ""; steps = no_steps; timeout = pos 0 })
decode_definition _ = err (cannot_decode "WorkflowDefinition")
