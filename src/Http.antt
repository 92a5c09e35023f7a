-- ===== src/Http.antt =====
-- The HTTP server: api/http/server.go.
pub mod Idempotence
pub mod Refused
use Prim.Native.String.{◌++◌ as append}
use rivo.Prelude.{ℕ, String, Bool, true, false, Option, none, some, List, str_eq, if◌then◌else◌}
use rivo.Prelude.Int.{ℤ, pos, negsuc}
use rivo.Base.{Error, error_text, Result, ok, err, Json, Any, value, RawMessage}
use rivo.Store.{Time, LogRow, JobState, World, M, Store, pure, ◌>>=◌}
use rivo.Store.Reads.{job_state_text, get_workflow_step_logs}
use rivo.Workflow.{Workflow}
use rivo.Engine.{Engine, Scheduler}
use rivo.Handlers.{Job}
use rivo.Client.Enqueue.{EnqueueParams, enqueue_job}
use rivo.Client.Jobs.{job_from_row, get_job, cancel_job}
use rivo.Client.Rerun.{cancel_workflow_run, rerun_workflow_step}

-- The body of a POST, after `encoding/json`. A field that is left out is none, or its zero value.
pub record EnqueueRequest : Type 0 where
  pub kind : String
  pub payload : RawMessage
  pub queue : String
  pub priority : ℤ
  pub schedule_at : Option Time
  pub idempotency_key : String
  pub max_attempts : ℕ

pub record JobResponse : Type 0 where
  pub id : ℕ
  pub kind : String
  pub queue : String
  pub state : String
  pub payload : RawMessage
  pub priority : ℤ
  pub attempt : ℕ
  pub max_attempts : ℕ
  pub scheduled_at : Time
  pub created_at : Time
  pub updated_at : Time

pub record ErrorResponse : Type 0 where
  pub error : String
  pub message : String

-- What is written as the body: a job, an error, step logs, a map with the key "status", or nothing.
pub data Body : Type 0 where
  job_body : JobResponse → Body
  error_body : ErrorResponse → Body
  logs_body : List LogRow → Body
  status_body : String → Body
  no_body : Body

pub record Response : Type 0 where
  pub status : ℕ
  pub body : Body

-- A request by the pattern of its route, with the values of the path. A request that fits no
-- pattern is answered by `net/http`.
pub data Request : Type 0 where
  post_jobs : (body : String) → Request
  get_jobs post_jobs_cancel post_jobs_retry : (id : String) → Request
  post_workflows_start : (name : String) → Request
  get_runs post_runs_cancel get_runs_steps : (id : String) → Request
  post_runs_steps_rerun : (id step_id : String) → Request
  get_health : Request

-- A handler writes one response.
abbrev pub HttpHandler : Type 0
HttpHandler = Request → Store → Response × Store

abbrev pub state_string : Option JobState → String
state_string none = ""
state_string (some st) = job_state_text st

unfoldable pub job_to_response : Job → JobResponse
job_to_response job = record {
  id = job.id;
  kind = job.kind;
  queue = job.queue;
  state = state_string job.state;
  payload = job.payload;
  priority = job.priority;
  attempt = job.attempt;
  max_attempts = job.max_attempts;
  scheduled_at = job.scheduled_at;
  created_at = job.created_at;
  updated_at = job.updated_at;
}

abbrev pub payload_value : RawMessage → Option Any
payload_value none = none
payload_value (some j) = some (value j)

abbrev pub time_or_zero : Option Time → Time
time_or_zero none = 0
time_or_zero (some t) = t

abbrev pub params_of : EnqueueRequest → EnqueueParams
params_of req = record {
  kind = req.kind;
  payload = payload_value req.payload;
  queue = req.queue;
  priority = req.priority;
  schedule_at = time_or_zero req.schedule_at;
  idempotency_key = req.idempotency_key;
  metadata = none;
  max_attempts = req.max_attempts;
  workflow_run_id = none;
  step_id = "";
}

-- A negative number is no row's id, and neither is 0, since BIGSERIAL counts from 1.
abbrev pub row_id : ℤ → ℕ
row_id (pos n) = n
row_id (negsuc n) = 0

abbrev pub write_json : ℕ → Body → Store → Response × Store
write_json status body s = (record { status = status; body = body }, s)

abbrev pub error_message : (message : String) → Option Error → String
error_message message none = message
error_message message (some e) = append message (append ": " (error_text e))

-- What is not of this repository: `http.StatusText`, the decoder of `encoding/json` at the request
-- type, and `strconv.ParseInt`.
module _ (status_text : ℕ → String) (decode : String → Result EnqueueRequest)
    (parse_int : String → Result ℤ) where
  abbrev pub write_error : ℕ → (message : String) → Option Error → Store → Response × Store
  write_error status message e =
      write_json status
        (error_body (record { error = status_text status; message = error_message message e }))

  -- The value of a call, or 500 and a message.
  abbrev pub value_or_500 {ℓ} :
      {A : Type ℓ}
      → (message : String) → Result A
      → (A → Store → Response × Store)
      → Store
      → Response × Store
  value_or_500 message (err e) k = write_error 500 message (some e)
  value_or_500 message (ok a) k = k a

  abbrev pub or_500 {ℓ} :
      {A : Type ℓ}
      → (message : String) → M A
      → (A → Store → Response × Store)
      → Store
      → Response × Store
  or_500 message m k s = let (r, s') = m s in value_or_500 message r k s'

  -- The number in the path, or 400 and a message.
  abbrev pub with_number :
      (message text : String) → (ℕ → Store → Response × Store) → Store → Response × Store
  with_number message text k = elim (parse_int text) [
    | err e ↦ write_error 400 message (some e)
    | ok n ↦ k (row_id n)
  ]

  module _ (w : World) (namespace : String) (sch : Scheduler) (e : Engine)
      (workflows : String → Option Workflow) where
    abbrev pub enqueue_with : Result EnqueueRequest → Store → Response × Store
    enqueue_with (err x) = write_error 400 "invalid request body" (some x)
    enqueue_with (ok req) =
        or_500 "failed to enqueue job" (enqueue_job w namespace (params_of req))
          (λ (row, duplicate).
            write_json (if duplicate then 200 else 201)
              (job_body (job_to_response (job_from_row row))))

    unfoldable pub handle_enqueue : (body : String) → Store → Response × Store
    unfolding job_to_response
    handle_enqueue body = enqueue_with (decode body)

    abbrev pub job_or_404 : Option Job → Store → Response × Store
    job_or_404 none = write_error 404 "job not found" none
    job_or_404 (some job) = write_json 200 (job_body (job_to_response job))

    unfoldable pub handle_get_job : (id : String) → Store → Response × Store
    unfolding job_to_response
    handle_get_job id =
        with_number "invalid job ID" id (λ n. or_500 "failed to get job" (get_job w n) job_or_404)

    unfoldable pub handle_cancel_job : (id : String) → Store → Response × Store
    handle_cancel_job id =
        with_number "invalid job ID" id
          (λ n. or_500 "failed to cancel job" (cancel_job w n) (λ _. write_json 204 no_body))

    -- The retry of a job, the start of a workflow and a run by its id are placeholders.
    abbrev pub not_implemented_yet : Store → Response × Store
    not_implemented_yet = write_error 501 "not implemented" none

    unfoldable pub handle_cancel_workflow : (id : String) → Store → Response × Store
    handle_cancel_workflow id = with_number "invalid workflow run ID" id (λ n.
        or_500 "failed to cancel workflow" (cancel_workflow_run w n) (λ _. write_json 204 no_body))

    unfoldable pub handle_get_workflow_step_logs : (id : String) → Store → Response × Store
    handle_get_workflow_step_logs id = with_number "invalid workflow run ID" id (λ n.
        or_500 "failed to get step logs" (get_workflow_step_logs w n)
          (λ logs. write_json 200 (logs_body logs)))

    unfoldable pub handle_rerun_workflow_step : (id step_id : String) → Store → Response × Store
    handle_rerun_workflow_step id step_id = with_number "invalid workflow run ID" id (λ n.
        if str_eq step_id ""
        then write_error 400 "step ID is required" none
        else or_500 "failed to rerun step" (rerun_workflow_step w sch e workflows n step_id)
            (λ _. write_json 200 (status_body "rerun started")))

    -- The routes that NewServer registers.
    unfoldable pub route : HttpHandler
    unfolding handle_enqueue handle_get_job handle_cancel_job handle_cancel_workflow
        handle_get_workflow_step_logs handle_rerun_workflow_step
    route (post_jobs body) = handle_enqueue body
    route (get_jobs id) = handle_get_job id
    route (post_jobs_cancel id) = handle_cancel_job id
    route (post_jobs_retry id) = not_implemented_yet
    route (post_workflows_start name) = not_implemented_yet
    route (get_runs id) = not_implemented_yet
    route (post_runs_cancel id) = handle_cancel_workflow id
    route (get_runs_steps id) = handle_get_workflow_step_logs id
    route (post_runs_steps_rerun id step_id) = handle_rerun_workflow_step id step_id
    route get_health = write_json 200 (status_body "ok")

    -- `NewServer`: the routes, inside the middleware if there is one.
    unfoldable pub new_server : (auth_middleware : Option (HttpHandler → HttpHandler)) → HttpHandler
    unfolding route
    new_server none = route
    new_server (some auth) = auth route
