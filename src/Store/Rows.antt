-- ===== src/Store/Rows.antt =====
-- The row types of internal/db/db.go, and the tables together.
use rivo.Prelude.{ℕ, String, List, Option, Bool}
use rivo.Prelude.Int.{ℤ}
use rivo.Base.{RawMessage}

-- Nanoseconds since an epoch; 0 is the zero `time.Time`.
abbrev pub Time : Type 0
Time = ℕ

-- Nanoseconds; the durations of the retry policies and timeouts are not negative.
abbrev pub Duration : Type 0
Duration = ℕ

pub data JobState : Type 0 where
  available scheduled running retryable completed cancelled discarded : JobState

-- An element of the `errors` column.
pub record AttemptError : Type 0 where
  pub attempt : ℕ
  pub at : Time
  pub error : String

pub record JobRow : Type 0 where
  pub id : ℕ
  pub kind : String
  pub queue : String
  pub namespace : String
  pub priority : ℤ
  pub state : JobState
  pub payload : RawMessage
  pub metadata : RawMessage
  pub scheduled_at : Time
  pub attempt : ℕ
  pub max_attempts : ℕ
  pub attempted_at : Option Time
  pub attempted_by : Option String
  pub completed_at : Option Time
  pub cancelled_at : Option Time
  pub discarded_at : Option Time
  pub errors : List AttemptError
  pub idempotency_key : Option String
  pub workflow_run_id : Option ℕ
  pub step_id : Option String
  pub created_at : Time
  pub updated_at : Time

pub data WorkerStatus : Type 0 where
  active stopped : WorkerStatus

pub record Worker : Type 0 where
  pub id : String
  pub namespace : String
  pub queues : List String
  pub concurrency : ℕ
  pub status : WorkerStatus
  pub started_at : Time
  pub last_heartbeat : Time
  pub jobs_processed : ℕ
  pub jobs_failed : ℕ

pub record QueueConfig : Type 0 where
  pub name : String
  pub namespace : String
  pub concurrency : ℕ
  pub paused : Bool
  pub priority : ℕ
  pub created_at : Time
  pub updated_at : Time

pub record WorkflowDefinitionRow : Type 0 where
  pub id : ℕ
  pub name : String
  pub version : ℕ
  pub namespace : String
  pub definition : RawMessage
  pub created_at : Time

pub data StepState : Type 0 where
  pending running completed failed skipped : StepState

pub data WorkflowState : Type 0 where
  pending running completed failed cancelled : WorkflowState

pub record StepRunState : Type 0 where
  pub state : StepState
  pub output : RawMessage
  pub error : String
  pub attempt : ℕ
  pub started_at : Option Time
  pub completed_at : Option Time

-- The `step_states` column: the JSON object of a `map[string]StepRunState`, kept as the map.
abbrev pub StepStates : Type 0
StepStates = String → Option StepRunState

pub record WorkflowRunRow : Type 0 where
  pub id : ℕ
  pub definition_id : ℕ
  pub namespace : String
  pub state : WorkflowState
  pub input : RawMessage
  pub output : RawMessage
  pub step_states : StepStates
  pub error : Option String
  pub started_at : Option Time
  pub completed_at : Option Time
  pub created_at : Time
  pub updated_at : Time

pub data LogStatus : Type 0 where
  running completed failed : LogStatus

-- A row of rivo_job_logs, and of rivo_workflow_step_logs: `owner` is the job or the run.
pub record LogRow : Type 0 where
  pub id : ℕ
  pub owner : ℕ
  pub step_id : String
  pub attempt : ℕ
  pub worker_id : String
  pub started_at : Time
  pub completed_at : Option Time
  pub input : RawMessage
  pub output : RawMessage
  pub status : LogStatus
  pub error : Option String

-- A row of rivo_handlers; its `code` is the empty text where the column is NULL, as every query reads it.
pub record ScriptHandlerRow : Type 0 where
  pub kind : String
  pub namespace : String
  pub handler_type : String
  pub code : String
  pub config : RawMessage
  pub version : ℕ
  pub enabled : Bool
  pub created_at : Time
  pub updated_at : Time

-- All tables, and how many statements and clock readings there were.
pub record Store : Type 0 where
  pub jobs : List JobRow
  pub next_job_id : ℕ
  pub workers : List Worker
  pub queues : List QueueConfig
  pub definitions : List WorkflowDefinitionRow
  pub runs : List WorkflowRunRow
  pub job_logs : List LogRow
  pub step_logs : List LogRow
  pub script_handlers : List ScriptHandlerRow
  pub next_id : ℕ
  pub event : ℕ
