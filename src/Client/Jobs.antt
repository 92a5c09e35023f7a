-- ===== src/Client/Jobs.antt =====
-- Jobs as the client hands them out and runs them: jobFromRow, handleJob, GetJob, CancelJob and the
-- executor of handler steps in client.go.
use Prim.Native.String.{◌++◌ as append}
use rivo.Prelude.{ℕ, String, Option, none, some, List, [], str_eq, find_first}
use rivo.Prelude.Int.{pos}
use rivo.Base.{
  Error, message, wrap_suffix, handler_not_found, error_text, Result, ok, err, RawMessage,
}
use rivo.Store.{
  JobRow, World, Fate, in_time, late, panics, M, pure, tick, ◌>>=◌, ◌>>◌, get_event, ignore_error,
}
use rivo.Store.Jobs
use rivo.Store.Logs.{create_job_log, complete_job_log, fail_job_log}
use rivo.Handlers.{Job, RegisteredHandler}
use rivo.Executor.Pool.{Handled, returned, panicked}

abbrev pub text_or_empty : Option String → String
text_or_empty none = ""
text_or_empty (some t) = t

-- `jobFromRow`: the metadata and the errors of the row are not copied.
unfoldable pub job_from_row : JobRow → Job
job_from_row row = record {
  id = row.id;
  kind = row.kind;
  queue = row.queue;
  namespace = row.namespace;
  priority = row.priority;
  state = some row.state;
  payload = row.payload;
  metadata = none;
  scheduled_at = row.scheduled_at;
  attempt = row.attempt;
  max_attempts = row.max_attempts;
  attempted_at = row.attempted_at;
  attempted_by = text_or_empty row.attempted_by;
  completed_at = row.completed_at;
  cancelled_at = row.cancelled_at;
  discarded_at = row.discarded_at;
  errors = [];
  idempotency_key = text_or_empty row.idempotency_key;
  workflow_run_id = row.workflow_run_id;
  step_id = text_or_empty row.step_id;
  created_at = row.created_at;
  updated_at = row.updated_at;
}

abbrev pub error_of : Result (Unit {0}) → Option Error
error_of (ok _) = none
error_of (err e) = some e

-- The map of handlers, as the list of its entries.
unfoldable pub handler_of : List RegisteredHandler → (kind : String) → Option RegisteredHandler
handler_of hs kind = find_first (λ h. str_eq h.kind kind) hs

module _ (w : World) where
  abbrev pub map_job : Option JobRow → Option Job
  map_job none = none
  map_job (some row) = some (job_from_row row)

  -- `GetJob`
  unfoldable pub get_job : ℕ → M (Option Job)
  unfolding job_from_row
  get_job id = do row ← Jobs.get_job w id; pure (map_job row)

  -- `CancelJob`
  unfoldable pub cancel_job : ℕ → M (Unit {0})
  cancel_job id = Jobs.cancel_job w id

  -- The log of a run is closed by its result; what the database answers is dropped.
  abbrev pub save_logs : (log_id : ℕ) → Result (Unit {0}) → M (Unit {0})
  save_logs log_id (err e) = ignore_error tt (fail_job_log w log_id (error_text e))
  save_logs log_id (ok _) = ignore_error tt (complete_job_log w log_id none)

  -- A statement on a context that has ended: it fails, and changes nothing.
  abbrev pub on_ended_context : M (Unit {0})
  on_ended_context s = (ok tt, tick s)

  -- What follows the call of the handler. The statement that closes the log has the context of the
  -- call, with the handler's timeout; a panic goes up to `executeJob`.
  abbrev pub after_call : (log_id : ℕ) → Fate → Result (Unit {0}) → M Handled
  after_call log_id in_time result = do save_logs log_id result; pure (returned (error_of result))
  after_call log_id late result = do on_ended_context; pure (returned (error_of result))
  after_call log_id (panics text) result = pure (panicked text)

  abbrev pub run_handler : (worker_id : String) → RegisteredHandler → Job → M Handled
  run_handler worker_id h job = do
    log_id ← ignore_error 0 (create_job_log w job.id job.attempt worker_id job.payload)
    event ← get_event
    after_call log_id (w.call event) (h.fn h.options.timeout job event).1

  abbrev pub dispatch_job : (worker_id : String) → JobRow → Option RegisteredHandler → M Handled
  dispatch_job worker_id row none = pure (returned (some (wrap_suffix handler_not_found row.kind)))
  dispatch_job worker_id row (some h) = run_handler worker_id h (job_from_row row)

  -- `handleJob`
  unfoldable pub handle_job : List RegisteredHandler → (worker_id : String) → JobRow → M Handled
  unfolding handler_of job_from_row
  handle_job hs worker_id row = dispatch_job worker_id row (handler_of hs row.kind)

  -- The job that stands for a handler step: it has no row.
  abbrev pub step_job :
      (namespace : String) → RegisteredHandler → (kind : String) → RawMessage → ℕ → Job
  step_job namespace h kind input n = record {
    id = 0;
    kind = kind;
    queue = h.queue;
    namespace = namespace;
    priority = pos 0;
    state = none;
    payload = input;
    metadata = none;
    scheduled_at = 0;
    attempt = 1;
    max_attempts = 1;
    attempted_at = none;
    attempted_by = "";
    completed_at = none;
    cancelled_at = none;
    discarded_at = none;
    errors = [];
    idempotency_key = "";
    workflow_run_id = none;
    step_id = "";
    created_at = w.clock n;
    updated_at = w.clock n;
  }

  -- The step's output is always nil.
  abbrev pub nil_output : Result (Unit {0}) → Result RawMessage
  nil_output (ok _) = ok none
  nil_output (err e) = err e

  -- The `HandlerStepExecutor` that NewClient sets. The handler runs without its own timeout.
  unfoldable pub execute_handler :
      List RegisteredHandler → (namespace handler_id : String) → RawMessage → ℕ → Result RawMessage
  unfolding handler_of
  execute_handler hs namespace handler_id input n = elim (handler_of hs handler_id) [
    | none ↦ err (message (append "handler not found: " handler_id))
    | some h ↦ nil_output (h.fn 0 (step_job namespace h handler_id input n) n).1
  ]
