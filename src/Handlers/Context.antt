-- ===== src/Handlers/Context.antt =====
-- The context that a handler is called with: context.go.
use rivo.Prelude.{String, Option, none, some}
use rivo.Handlers.{Job, JobLogger, new_job_logger}

-- A key: of the unexported type `contextKey`, or of another type.
pub data Key : Type 0 where
  logger_key job_key : Key
  other_key : (text : String) → Key

pub data Value : Type 0 where
  logger_value : JobLogger → Value
  job_value : Job → Value
  other_value : (text : String) → Value

-- A `context.Context` by its method `Value`, or a `JobContext` around one.
pub data Context : Type 0 where
  base : (Key → Option Value) → Context
  job_context : Context → JobLogger → Job → Context

unfoldable pub new_job_context : Context → Job → Context
new_job_context ctx job = job_context ctx new_job_logger job

unfoldable pub value_of : Context → Key → Option Value
value_of (base f) key = f key
value_of (job_context ctx logger job) logger_key = some (logger_value logger)
value_of (job_context ctx logger job) job_key = some (job_value job)
value_of (job_context ctx logger job) (other_key t) = value_of ctx (other_key t)

abbrev as_logger : Option Value → Option JobLogger
as_logger (some (logger_value l)) = some l
as_logger _ = none

abbrev as_job : Option Value → Option Job
as_job (some (job_value j)) = some j
as_job _ = none

-- `LoggerFromContext` and `JobFromContext`
unfoldable pub logger_from_context : Context → Option JobLogger
unfolding value_of
logger_from_context (job_context ctx logger job) = some logger
logger_from_context (base f) = as_logger (f logger_key)

unfoldable pub job_from_context : Context → Option Job
unfolding value_of
job_from_context (job_context ctx logger job) = some job
job_from_context (base f) = as_job (f job_key)
