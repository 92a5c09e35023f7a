-- ===== src/Http/Idempotence.antt =====
-- What a caller of the HTTP server may rely on when it sends an enqueue request again.
use rivo.Prelude.{ℕ, String, Bool, Option, none, some, if◌then◌else◌}
use rivo.Prelude.Int.{ℤ}
use rivo.Base.{Result, Json, object, end, RawMessage}
use rivo.Store.{World, Store, JobRow}
use rivo.Workflow.{Workflow}
use rivo.Engine.{Engine, Scheduler}
use rivo.Client.Jobs.{job_from_row}
use rivo.Http.{EnqueueRequest, Response, job_body, job_to_response}

payload_or_empty : RawMessage → Json
payload_or_empty none = object end
payload_or_empty (some j) = j

module _ (status_text : ℕ → String) (decode : String → Result EnqueueRequest)
    (parse_int : String → Result ℤ) (w : World) (namespace : String) (sch : Scheduler) (e : Engine)
    (workflows : String → Option Workflow) where
  -- The answer to a POST whose job is enqueued.
  answer_of : (duplicate : Bool) → JobRow → Response
  answer_of duplicate row = record {
    status = if duplicate then 200 else 201;
    body = job_body (job_to_response (job_from_row row));
  }
