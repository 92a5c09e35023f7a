-- ===== src/Tests.antt =====
-- Sample rows, stores and engines. The modules below run the definitions and apply the theorems.
mod Jobs
mod Updates
mod Retries
mod Workflows
mod FanOuts
mod Services
mod Reruns
mod Pools
mod Pipelines
mod Clients
mod Migrations
use rivo.Prelude.{
  ℕ, ◌*◌, ◌%◌, ◌≡◌, refl, String, Bool, true, false, Option, none, some, List, [], ◌∷◌, str_eq,
  empty,
}
use rivo.Prelude.Int.{pos}
use rivo.Base.{Error, message, Result, ok, err, Json, number, RawMessage, Any, value}
use rivo.Store.{
  Time, JobState, JobRow, QueueConfig, StepState, StepRunState, StepStates, WorkflowState,
  WorkflowRunRow, World, in_time, Store,
}
use rivo.Store.Jobs.{InsertJobParams, new_row}
use rivo.Retry.{word, Policy, Chance}
use rivo.Engine.{
  StepType, sequential, StepInfo, StepDefinition, step_definition, StepDefinitions, no_steps,
  more_steps, WorkflowDefinition, Engine, new_engine, register_step, Scheduler, RunState,
  StepHandler,
}

-- The clock shows the number of the event, and no statement fails.
abbrev pub quiet_world : World
quiet_world = record { clock = λ n. n; fault = λ _. none; call = λ _. in_time; stack = λ _. "" }

abbrev pub quiet : (n : ℕ) → quiet_world.fault n ≡ none
quiet n = refl

abbrev pub mail : InsertJobParams
mail = record {
  kind = "mail";
  queue = "default";
  namespace = "app";
  priority = pos 0;
  state = JobState.available;
  payload = some (number (pos 1));
  metadata = none;
  scheduled_at = 0;
  max_attempts = 25;
  idempotency_key = "welcome";
  workflow_run_id = none;
  step_id = "";
}

abbrev pub resize : InsertJobParams
resize = record mail { kind = "resize"; priority = pos 5; idempotency_key = "" }

-- Three rows: a live one with a key, one of a higher priority, and one that runs.
abbrev pub mail_row : JobRow
mail_row = new_row 1 0 mail

abbrev pub resize_row : JobRow
resize_row = new_row 2 0 resize

abbrev pub running_row : JobRow
running_row = record (new_row 3 0 resize) { state = JobState.running; attempt = 1 }

abbrev pub three_jobs : List JobRow
three_jobs = mail_row ∷ resize_row ∷ running_row ∷ []

abbrev pub three_runs : WorkflowState → StepStates → List WorkflowRunRow
three_runs state states =
    record {
      id = 7;
      definition_id = 1;
      namespace = "app";
      state = state;
      input = none;
      output = none;
      step_states = states;
      error = none;
      started_at = none;
      completed_at = none;
      created_at = 0;
      updated_at = 0;
    }
    ∷ []

abbrev pub store_with : List JobRow → ℕ → List WorkflowRunRow → Store
store_with jobs next runs = record {
  jobs = jobs;
  next_job_id = next;
  workers = [];
  queues = [];
  definitions = [];
  runs = runs;
  job_logs = [];
  step_logs = [];
  script_handlers = [];
  next_id = 1;
  event = 0;
}

abbrev pub empty_store : Store
empty_store = store_with [] 1 []

abbrev pub three_store : Store
three_store = store_with three_jobs 4 []

abbrev pub none_locked : ℕ → Bool
none_locked n = false

-- A delay doubles, and there is no jitter; an error is only itself when the texts agree.
abbrev pub doubling : Chance
doubling = record { scale = λ d. (d * 2) % word; draw = λ _. 0; is = λ e f. false }

abbrev pub short_policy : Policy
short_policy = record {
  max_attempts = 3;
  initial_backoff = 10;
  max_backoff = 50;
  jitter = true;
  retryable_errors = [];
  discard_errors = [];
}

abbrev pub step_named : String → StepType → StepInfo
step_named id type = record {
  id = id;
  name = id;
  type = type;
  has_condition = false;
  timeout = pos 0;
  handler_id = "";
  source_step_id = "";
}

abbrev pub one_step : String → StepDefinitions
one_step id = more_steps (step_definition (step_named id sequential) no_steps) no_steps

-- A handler that sets an output and succeeds, and one that fails.
abbrev pub succeeds : StepHandler
succeeds c n = (some (number (pos 9)), ok tt)

abbrev pub fails : StepHandler
fails c n = (none, err (message "boom"))

abbrev pub engine_of : StepHandler → Engine
engine_of h = register_step (new_engine "app") "orders" "charge" h

abbrev pub in_order : Scheduler
in_order = record { item_order = λ n xs. xs; picks = λ n. [] }

abbrev pub completed_once : StepRunState
completed_once = record {
  state = StepState.completed;
  output = some (number (pos 9));
  error = "";
  attempt = 1;
  started_at = some 0;
  completed_at = some 1;
}

abbrev pub charged : StepStates
charged id = elim (str_eq id "charge") [ true ↦ some completed_once | false ↦ none ]

abbrev pub fresh_run : StepStates → RunState
fresh_run states = record { state = empty; step_states = states; store = empty_store }
