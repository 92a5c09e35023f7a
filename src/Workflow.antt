-- ===== src/Workflow.antt =====
-- Workflows, their steps and contexts: workflow.go.
pub mod Builder
pub mod Serialize
pub mod Meaning
use Prim.Native.String.{◌++◌ as append}
use rivo.Prelude.{
  ℕ, zero, suc, ◌+◌, String, Bool, true, false, Option, none, some, List, [], ◌∷◌, ◌++◌, str_eq,
  map, empty, update, if◌then◌else◌,
}
use rivo.Prelude.Int.{ℤ}
use rivo.Base.{message, Result, ok, err, RawMessage, Json, Any, marshal}
use rivo.Store.{Time, Duration, StepStates, WorkflowState}
use rivo.Handlers.{RetryPolicy, zero_retry_policy}
use rivo.Engine.{Context, State, get_step_output}
use rivo.Engine.FanOut.{decimal}

-- What the client hands out of a run. `current_step` is set by nothing.
pub record WorkflowRun : Type 0 where
  pub id : ℕ
  pub workflow_name : String
  pub namespace : String
  pub state : WorkflowState
  pub input : RawMessage
  pub output : RawMessage
  pub step_states : StepStates
  pub current_step : String
  pub error : String
  pub started_at : Option Time
  pub completed_at : Option Time
  pub created_at : Time
  pub updated_at : Time

pub data StepType : Type 0 where
  sequential parallel conditional fan_out map_type reduce_type handler_type : StepType

-- A `WorkflowContext`, when a function of the program is called. `engine_ctx` is the context that
-- the engine made, where the adapter keeps it; the local outputs are empty then.
pub record WorkflowContext : Type 0 where
  pub run_id : ℕ
  pub step_id : String
  pub previous_step_id : String
  pub input : RawMessage
  pub state : State
  pub engine_ctx : Option Context
  pub timeout : ℤ

-- `GetStepOutput`: from the engine's outputs, else from the local ones.
unfoldable pub step_output : WorkflowContext → String → Result Json
unfolding get_step_output
step_output c id = elim c.engine_ctx [
  | some e ↦ get_step_output e id
  | none ↦ elim (c.state id) [
    | none ↦ err (message (append "step output not found: " id))
    | some none ↦ err (message "unexpected end of JSON input")
    | some (some j) ↦ ok j
  ]
]

-- `GetPreviousOutput`
unfoldable pub previous_output : WorkflowContext → Result Json
unfolding step_output
previous_output c =
    if str_eq c.previous_step_id ""
    then err (message "no previous step")
    else step_output c c.previous_step_id

-- `SetOutput`: the context with the output, or the error of the encoder.
unfoldable pub with_output : WorkflowContext → Any → Result WorkflowContext
unfolding marshal
with_output c v = elim (marshal v) [
  | err e ↦ err e
  | ok j ↦ ok (record c { state = update c.state c.step_id (some j) })
]

-- The functions of the program. The first gives what it last handed to `SetOutput` too, which the
-- adapters of the others drop.
abbrev pub WorkflowFunc : Type 0
WorkflowFunc = WorkflowContext → ℕ → Option Json × Result (Unit {0})

abbrev pub ListFunc : Type 0
ListFunc = WorkflowContext → ℕ → Result (List Any)

-- A function that gives a slice, which may be nil.
abbrev pub SliceFunc : Type 0
SliceFunc = WorkflowContext → ℕ → Result (Option (List Any))

abbrev pub ValueFunc : Type 0
ValueFunc = WorkflowContext → ℕ → Result Any

abbrev pub Condition : Type 0
Condition = WorkflowContext → ℕ → Bool

pub record FanOutConfig : Type 0 where
  pub items_func : ListFunc
  pub map_func : Any → (index : ℕ) → ValueFunc
  pub max_concurrency : ℕ

pub record ReduceConfig : Type 0 where
  pub source_step_id : String
  pub reduce_func : ValueFunc

-- A `workflowStep`, but its children.
pub record StepFields : Type 0 where
  pub id : String
  pub name : String
  pub step_type : StepType
  pub handler : Option WorkflowFunc
  pub condition : Option Condition
  pub retry_policy : Option RetryPolicy
  pub timeout : Duration
  pub fan_out_config : Option FanOutConfig
  pub map_func : Option SliceFunc
  pub reduce_config : Option ReduceConfig
  pub handler_id : String

mutual
  pub data WorkflowStep : Type 0 where
    workflow_step : StepFields → WorkflowSteps → WorkflowStep

  pub data WorkflowSteps : Type 0 where
    nil : WorkflowSteps
    cons : WorkflowStep → WorkflowSteps → WorkflowSteps

abbrev pub fields_of : WorkflowStep → StepFields
fields_of (workflow_step f cs) = f

abbrev pub children_of : WorkflowStep → WorkflowSteps
children_of (workflow_step f cs) = cs

pub record Workflow : Type 0 where
  pub name : String
  pub description : String
  pub steps : WorkflowSteps
  pub timeout : Duration
  pub retry_policy : RetryPolicy

-- `Steps`
abbrev pub step_ids : WorkflowSteps → List String
step_ids nil = []
step_ids (cons s ss) = (fields_of s).id ∷ step_ids ss

abbrev pub listed_ids : StepType → WorkflowStep → List String
listed_ids parallel s = step_ids (children_of s)
listed_ids _ s = (fields_of s).id ∷ []

unfoldable pub steps : WorkflowSteps → List String
steps nil = []
steps (cons s ss) = listed_ids (fields_of s).step_type s ++ steps ss
