-- ===== src/Client/Enqueue.antt =====
-- Enqueueing: enqueue.go.
use rivo.Prelude.{
  ℕ, String, Bool, Option, none, some, List, [], ◌∷◌, str_eq, ltb, ◌==◌, if◌then◌else◌,
}
use rivo.Prelude.Int.{ℤ}
use rivo.Base.{invalid_job_kind, Result, ok, Json, object, end, Any, marshal}
use rivo.Store.{Time, JobState, JobRow, World, M, pure, throw, and_then, ◌>>=◌, time_now}
use rivo.Store.Jobs.{InsertJobParams, insert_job}

-- `payload` and `metadata` are none when they are nil; a `schedule_at` of 0 is the zero time.
pub record EnqueueParams : Type 0 where
  pub kind : String
  pub payload : Option Any
  pub queue : String
  pub priority : ℤ
  pub schedule_at : Time
  pub idempotency_key : String
  pub metadata : Option Any
  pub max_attempts : ℕ
  pub workflow_run_id : Option ℕ
  pub step_id : String

abbrev pub queue_or_default : String → String
queue_or_default queue = if str_eq queue "" then "default" else queue

abbrev pub max_attempts_or_default : ℕ → ℕ
max_attempts_or_default n = if n == 0 then 25 else n

-- `json.Marshal`, or `{}` for nil.
abbrev pub marshal_or_empty : Option Any → Result Json
marshal_or_empty none = ok (object end)
marshal_or_empty (some a) = marshal a

abbrev pub scheduled_time : World → Time → M Time
scheduled_time w t = if t == 0 then time_now w else pure t

abbrev pub state_at : (scheduled_at now : Time) → JobState
state_at scheduled_at now = if ltb now scheduled_at then JobState.scheduled else JobState.available

abbrev pub insert_params :
    (namespace : String) → EnqueueParams → (scheduled_at now : Time) → Json → Json → InsertJobParams
insert_params namespace p scheduled_at now payload metadata = record {
  kind = p.kind;
  queue = queue_or_default p.queue;
  namespace = namespace;
  priority = p.priority;
  state = state_at scheduled_at now;
  payload = some payload;
  metadata = some metadata;
  scheduled_at = scheduled_at;
  max_attempts = max_attempts_or_default p.max_attempts;
  idempotency_key = p.idempotency_key;
  workflow_run_id = p.workflow_run_id;
  step_id = p.step_id;
}

abbrev pub lift {ℓ} : {A : Type ℓ} → Result A → M A
lift r s = (r, s)

-- `enqueueJob`: the row, and whether it is a duplicate.
unfoldable pub enqueue_job : World → (namespace : String) → EnqueueParams → M (JobRow × Bool)
enqueue_job w namespace p = if str_eq p.kind "" then throw invalid_job_kind else do
  scheduled_at ← scheduled_time w p.schedule_at
  now ← time_now w
  payload ← lift (marshal_or_empty p.payload)
  metadata ← lift (marshal_or_empty p.metadata)
  insert_job w (insert_params namespace p scheduled_at now payload metadata)

-- `EnqueueMany`: the jobs before one that fails stay in the queue.
unfoldable pub enqueue_many :
    World → (namespace : String) → List EnqueueParams → M (List (JobRow × Bool))
unfolding enqueue_job
enqueue_many w namespace [] s = (ok [], s)
enqueue_many w namespace (p ∷ ps) s =
    let (r, s') = enqueue_job w namespace p s in
    and_then r
      (λ job t.
        let (rs, t') = enqueue_many w namespace ps t in and_then rs (λ jobs. pure (job ∷ jobs)) t')
      s'
