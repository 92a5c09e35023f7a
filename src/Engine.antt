-- ===== src/Engine.antt =====
-- The workflow engine of internal/workflow/engine.go: its definitions, contexts and registries.
-- `Steps` holds the step types but parallel ones, `Parallel` those, and `Run` executes a run.
pub mod Steps
pub mod FanOut
pub mod Parallel
pub mod Run
pub mod Frame
pub mod Finish
pub mod Merge
pub mod Runs
pub mod Outcome
pub mod Contract
pub mod Replay
use Prim.Native.String.{◌++◌ as append}
use rivo.Prelude.{
  ℕ, suc, String, Bool, true, false, Option, none, some, List, str_eq, update, empty, if◌then◌else◌,
}
use rivo.Prelude.Int.{ℤ}
use rivo.Base.{Error, message, Result, ok, err, Json, RawMessage, Any}
use rivo.Store.{Time, Duration, StepRunState, StepStates, Store, M}

-- A `StepType`; `unknown` is an integer that names none.
pub data StepType : Type 0 where
  sequential parallel conditional fan_out map_type reduce_type handler_type : StepType
  unknown : ℤ → StepType

pub record StepInfo : Type 0 where
  pub id : String
  pub name : String
  pub type : StepType
  pub has_condition : Bool
  pub timeout : ℤ
  pub handler_id : String
  pub source_step_id : String

-- A `StepDefinition` with its children.
mutual
  pub data StepDefinition : Type 0 where
    step_definition : StepInfo → StepDefinitions → StepDefinition

  pub data StepDefinitions : Type 0 where
    no_steps : StepDefinitions
    more_steps : StepDefinition → StepDefinitions → StepDefinitions

abbrev pub step_info : StepDefinition → StepInfo
step_info (step_definition i cs) = i

abbrev pub children_of : StepDefinition → StepDefinitions
children_of (step_definition i cs) = cs

pub record WorkflowDefinition : Type 0 where
  pub name : String
  pub description : String
  pub steps : StepDefinitions
  pub timeout : ℤ

-- The outputs by step: `map[string]json.RawMessage`, whose values may be nil.
abbrev pub State : Type 0
State = String → Option RawMessage

-- What a handler can read. `timeout` is the deadline of the context, 0 for none.
pub record Context : Type 0 where
  pub run_id : ℕ
  pub step_id : String
  pub previous_step_id : String
  pub input : RawMessage
  pub state : State
  pub timeout : ℤ

-- `GetStepOutput`: a value that is nil is no JSON text.
unfoldable pub get_step_output : Context → String → Result Json
get_step_output c id = elim (c.state id) [
  | none ↦ err (message (append "step output not found: " id))
  | some none ↦ err (message "unexpected end of JSON input")
  | some (some j) ↦ ok j
]

unfoldable pub get_previous_output : Context → Result Json
unfolding get_step_output
get_previous_output c =
    if str_eq c.previous_step_id ""
    then err (message "no previous step")
    else get_step_output c c.previous_step_id

-- A handler as the engine sees it: called in a context at an event (so that it may answer
-- differently each time), it gives what it last handed to `SetOutput`, if it did, and its result.
abbrev pub Handler {ℓ} : Type ℓ → Type ℓ
Handler A = Context → ℕ → Option Json × Result A

abbrev pub StepHandler : Type 0
StepHandler = Handler (Unit {0})

abbrev pub ConditionFunc : Type 0
ConditionFunc = Context → ℕ → Option Json × Bool

pub record FanOutHandler : Type 0 where
  pub items_func : Handler (List Any)
  pub map_func : Any → (index : ℕ) → Handler Any
  pub max_concurrency : ℕ

-- The maps by workflow and step.
pub record Engine : Type 0 where
  pub namespace : String
  pub worker_id : String
  pub handlers : String → String → Option StepHandler
  pub conditions : String → String → Option ConditionFunc
  pub fan_out_handlers : String → String → Option FanOutHandler
  pub map_handlers : String → String → Option (Handler (Option (List Any)))
  pub reduce_handlers : String → String → Option (Handler Any)
  pub handler_step_executor : Option ((handler_id : String) → RawMessage → ℕ → Result RawMessage)

unfoldable pub new_engine : String → Engine
new_engine namespace = record {
  namespace = namespace;
  worker_id = "";
  handlers = λ _. empty;
  conditions = λ _. empty;
  fan_out_handlers = λ _. empty;
  map_handlers = λ _. empty;
  reduce_handlers = λ _. empty;
  handler_step_executor = none;
}

abbrev pub register {ℓ} :
    {A : Type ℓ} → (String → String → Option A) → String → String → A → String → String → Option A
register m workflow step_id a name =
    if str_eq workflow name then update (m workflow) step_id a else m name

unfoldable pub register_step : Engine → (workflow step_id : String) → StepHandler → Engine
register_step e workflow step_id h = record e { handlers = register e.handlers workflow step_id h }

unfoldable pub register_condition : Engine → (workflow step_id : String) → ConditionFunc → Engine
register_condition e workflow step_id h = record e {
  conditions = register e.conditions workflow step_id h;
}

unfoldable pub register_fan_out : Engine → (workflow step_id : String) → FanOutHandler → Engine
register_fan_out e workflow step_id h = record e {
  fan_out_handlers = register e.fan_out_handlers workflow step_id h;
}

unfoldable pub register_map :
    Engine → (workflow step_id : String) → Handler (Option (List Any)) → Engine
register_map e workflow step_id h = record e {
  map_handlers = register e.map_handlers workflow step_id h;
}

unfoldable pub register_reduce : Engine → (workflow step_id : String) → Handler Any → Engine
register_reduce e workflow step_id h = record e {
  reduce_handlers = register e.reduce_handlers workflow step_id h;
}

-- What the Go scheduler decides: the order in which the goroutines of a fan-out step run their
-- items (each with its index), and the goroutine of a parallel step that moves next.
pub record Scheduler : Type 0 where
  pub item_order : (event : ℕ) → List (ℕ × Any) → List (ℕ × Any)
  pub picks : (event : ℕ) → List ℕ

-- What one execution of a run mutates: the two maps and the database.
pub record RunState : Type 0 where
  pub state : State
  pub step_states : StepStates
  pub store : Store

abbrev pub Step {ℓ} : Type ℓ → Type ℓ
Step A = RunState → Result A × RunState

abbrev pub continue {ℓ κ} : {A : Type ℓ} {B : Type κ} → Result A → (A → Step B) → Step B
continue (ok a) f r = f a r
continue (err e) f r = (err e, r)

infixl 5 ◌>>=◌ ◌>>◌
abbrev pub ◌>>=◌ {ℓ κ} : {A : Type ℓ} {B : Type κ} → Step A → (A → Step B) → Step B
◌>>=◌ m f r = let (a, r') = m r in continue a f r'

abbrev pub ◌>>◌ {ℓ κ} : {A : Type ℓ} {B : Type κ} → Step A → Step B → Step B
◌>>◌ m k r = let (a, r') = m r in continue a (λ _. k) r'

abbrev pub fail_with {ℓ} : {A : Type ℓ} → Error → Step A
fail_with e r = (err e, r)

abbrev pub done : Step (Unit {0})
done r = (ok tt, r)

-- An action on the database alone.
abbrev pub db {ℓ} : {A : Type ℓ} → M A → Step A
db m r = let (a, s) = m r.store in (a, record r { store = s })

abbrev pub get_run : Step RunState
get_run r = (ok r, r)

-- `stepStates[id] = ...` and `state[id] = ...`
abbrev pub set_step_state : String → StepRunState → Step (Unit {0})
set_step_state id st r = (ok tt, record r { step_states = update r.step_states id st })

abbrev pub put_output : String → RawMessage → Step (Unit {0})
put_output id out r = (ok tt, record r { state = update r.state id out })

-- `SetOutput`, if the handler called it.
abbrev pub set_output : String → Option Json → Step (Unit {0})
set_output id none r = (ok tt, r)
set_output id (some j) r = (ok tt, record r { state = update r.state id (some j) })
