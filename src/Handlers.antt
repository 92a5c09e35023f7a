-- ===== src/Handlers.antt =====
-- What a program registers for a kind of job: handler.go and job.go, and the logger of logger.go.
pub mod Context
use Prim.Native.String.{◌++◌ as append}
use rivo.Prelude.{ℕ, String, Bool, true, false, Option, none, some, List, [], ◌∷◌, ◌++◌}
use rivo.Prelude.Int.{ℤ}
use rivo.Base.{Error, Result, RawMessage}
use rivo.Store.{Time, Duration, JobState, AttemptError}

-- handler.go, `RetryPolicy`; no function is the exponential one.
pub record RetryPolicy : Type 0 where
  pub max_attempts : ℕ
  pub backoff : Option (ℕ → Duration)
  pub jitter : Bool
  pub retryable_errors : List Error
  pub discard_errors : List Error

abbrev pub zero_retry_policy : RetryPolicy
zero_retry_policy = record {
  max_attempts = 0;
  backoff = none;
  jitter = false;
  retryable_errors = [];
  discard_errors = [];
}

pub record HandlerOptions : Type 0 where
  pub queue : String
  pub retry : RetryPolicy
  pub timeout : Duration
  pub concurrency : ℕ

abbrev pub zero_handler_options : HandlerOptions
zero_handler_options = record {
  queue = "";
  retry = zero_retry_policy;
  timeout = 0;
  concurrency = 0;
}

-- A `Job`; `state` is none for the empty text. Its maps are nil unless they are set: `metadata` none, `errors` empty.
pub record Job : Type 0 where
  pub id : ℕ
  pub kind : String
  pub queue : String
  pub namespace : String
  pub priority : ℤ
  pub state : Option JobState
  pub payload : RawMessage
  pub metadata : RawMessage
  pub scheduled_at : Time
  pub attempt : ℕ
  pub max_attempts : ℕ
  pub attempted_at : Option Time
  pub attempted_by : String
  pub completed_at : Option Time
  pub cancelled_at : Option Time
  pub discarded_at : Option Time
  pub errors : List AttemptError
  pub idempotency_key : String
  pub workflow_run_id : Option ℕ
  pub step_id : String
  pub created_at : Time
  pub updated_at : Time

-- `IsTerminal`
unfoldable pub is_terminal : Job → Bool
is_terminal j = elim j.state [
  | some JobState.completed ↦ true
  | some JobState.cancelled ↦ true
  | some JobState.discarded ↦ true
  | _ ↦ false
]

pub data LogLevel : Type 0 where
  debug info warn error : LogLevel

pub record LogEntry : Type 0 where
  pub timestamp : Time
  pub level : LogLevel
  pub message : String

-- A `JobLogger` is its entries; `log` is called with the message that `fmt` made, at a time.
abbrev pub JobLogger : Type 0
JobLogger = List LogEntry

unfoldable pub new_job_logger : JobLogger
new_job_logger = []

unfoldable pub log : JobLogger → LogLevel → Time → (msg : String) → JobLogger
log l level now msg = l ++ record { timestamp = now; level = level; message = msg } ∷ []

-- `Entries`, which copies.
unfoldable pub entries : JobLogger → List LogEntry
entries l = l

unfoldable pub clear : JobLogger → JobLogger
clear l = []

-- What the program supplies for a kind: it reads the deadline of its context and the job, at an
-- event, and gives the entries that it logged and its result.
abbrev pub HandlerFunc : Type 0
HandlerFunc = (timeout : Duration) → Job → ℕ → JobLogger × Result (Unit {0})

pub record RegisteredHandler : Type 0 where
  pub kind : String
  pub queue : String
  pub fn : HandlerFunc
  pub options : HandlerOptions
