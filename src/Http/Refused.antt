-- ===== src/Http/Refused.antt =====
-- Which requests the server of api/http/server.go refuses, and that it changes nothing then.
use rivo.Prelude.{
  ℕ, String, ◌≡◌, refl, Bool, true, false, ◌||◌, Option, none, some, arith, inl, inr, ◌==◌,
  Bool-cases, str_eq, if◌then◌else◌,
}
use rivo.Prelude.Int.{ℤ}
use rivo.Base.{Result, ok, err, Result-cases}
use rivo.Store.{World, Store, M, tick}
use rivo.Store.Jobs
use rivo.Store.Reads.{get_workflow_step_logs}
use rivo.Workflow.{Workflow}
use rivo.Engine.{Engine, Scheduler}
use rivo.Handlers.{Job}
use rivo.Client.Enqueue.{enqueue_job}
use rivo.Client.Jobs.{get_job, cancel_job, job_from_row}
use rivo.Client.Rerun.{cancel_workflow_run, rerun_workflow_step}
use rivo.Http.{
  EnqueueRequest, Response, Request, post_jobs, get_jobs, post_jobs_cancel, post_jobs_retry,
  post_workflows_start, get_runs, post_runs_cancel, get_runs_steps, post_runs_steps_rerun,
  get_health, or_500, params_of, write_json, write_error, job_body, no_body, logs_body, status_body,
  job_to_response, with_number, enqueue_with, job_or_404, row_id, route,
}

-- 400, 404 and 501.
abbrev pub is_refusal : ℕ → Bool
is_refusal status = status == 400 || status == 404 || status == 501

-- If it is refused, nothing but the number of events is changed.
abbrev pub IsHarmless : Store → Response × Store → Type 0
IsHarmless s (response, t) = is_refusal response.status ≡ true → t ≡ record s { event = t.event }

module _ (status_text : ℕ → String) (decode : String → Result EnqueueRequest)
    (parse_int : String → Result ℤ) where
  -- A call of which no answer is a refusal: its error is answered by 500.
  accepted {ℓ} :
      {A : Type ℓ} (message : String) (m : M A) (k : A → Store → Response × Store) (s : Store)
      → ((a : A) (t : Store) → is_refusal (k a t).0.status ≡ false)
      → IsHarmless s (or_500 status_text decode parse_int message m k s)
  accepted message m k s never = elim (Result-cases (m s).0) [
    | inl (a, e) ↦ rw e (λ refused. absurd (cc (never a (m s).1, refused)))
    | inr (x, e) ↦ rw e (λ refused. absurd (cc refused))
  ]

  numbered :
      (message text : String) (k : ℕ → Store → Response × Store) (s : Store)
      → ((n : ℕ) → IsHarmless s (k n s))
      → IsHarmless s (with_number status_text decode parse_int message text k s)
  numbered message text k s h = elim (Result-cases (parse_int text)) [
    | inl (n, e) ↦ rw (e, with_number) (h (row_id n))
    | inr (x, e) ↦ rw (e, with_number) (λ _. refl)
  ]

  get_job-tick : (w : World) (n : ℕ) (s : Store) → (get_job w n s).1 ≡ tick s
  unfolding get_job Jobs.get_job
  get_job-tick w n s = ground arith

  module _ (w : World) (namespace : String) (sch : Scheduler) (e : Engine)
      (workflows : String → Option Workflow) where
    enqueue-IsHarmless :
        (r : Result EnqueueRequest) (s : Store)
        → IsHarmless s (enqueue_with status_text decode parse_int w namespace sch e workflows r s)
    enqueue-IsHarmless (err x) s = λ _. refl
    enqueue-IsHarmless (ok req) s =
        accepted "failed to enqueue job" (enqueue_job w namespace (params_of req))
          (λ (row, duplicate).
            write_json (if duplicate then 200 else 201)
              (job_body (job_to_response (job_from_row row))))
          s (λ (row, duplicate) t. created duplicate)
      where
        created : (duplicate : Bool) → is_refusal (if duplicate then 200 else 201) ≡ false
        created true = refl
        created false = refl

    get_job-IsHarmless :
        (n : ℕ) (s : Store)
        → IsHarmless s (
            or_500 status_text decode parse_int "failed to get job"
              (get_job w n)
              (job_or_404 status_text decode parse_int w namespace sch e workflows)
              s)
    get_job-IsHarmless n s = elim (Result-cases (get_job w n s).0) [
      | inl (found, r) ↦ rw r (λ _. read found)
      | inr (x, r) ↦ rw r (λ refused. absurd (cc refused))
    ]
      where
        read :
            (found : Option Job)
            → let t =
                (job_or_404 status_text decode parse_int w namespace sch e workflows found
                  (get_job w n s).1).1 in
              t ≡ record s { event = t.event }
        read none = rw (get_job-tick w n s) refl
        read (some job) = rw (get_job-tick w n s) refl

    -- Whatever the database does, a request that is answered by 400, 404 or 501 changes no table.
    pub route-refused :
        (request : Request) (s : Store)
        → let (response, t) =
            route status_text decode parse_int w namespace sch e workflows request s in
          is_refusal response.status ≡ true → t ≡ record s { event = t.event }
    unfolding route
    route-refused (post_jobs body) s = enqueue-IsHarmless (decode body) s
    route-refused (get_jobs id) s =
        numbered "invalid job ID" id
          (λ n.
            or_500 status_text decode parse_int "failed to get job" (get_job w n)
              (job_or_404 status_text decode parse_int w namespace sch e workflows))
          s (λ n. get_job-IsHarmless n s)
    route-refused (post_jobs_cancel id) s =
        numbered "invalid job ID" id
          (λ n.
            (or_500 status_text decode parse_int "failed to cancel job" (cancel_job w n)
              (λ _. write_json 204 no_body)))
          s
          (λ n.
            accepted "failed to cancel job" (cancel_job w n) (λ _. write_json 204 no_body) s
              (λ a t. refl))
    route-refused (post_jobs_retry id) s = λ _. refl
    route-refused (post_workflows_start name) s = λ _. refl
    route-refused (get_runs id) s = λ _. refl
    route-refused (post_runs_cancel id) s =
        numbered "invalid workflow run ID" id
          (λ n.
            (or_500 status_text decode parse_int "failed to cancel workflow"
              (cancel_workflow_run w n) (λ _. write_json 204 no_body)))
          s
          (λ n.
            accepted "failed to cancel workflow" (cancel_workflow_run w n)
              (λ _. write_json 204 no_body) s (λ a t. refl))
    route-refused (get_runs_steps id) s =
        numbered "invalid workflow run ID" id
          (λ n.
            (or_500 status_text decode parse_int "failed to get step logs"
              (get_workflow_step_logs w n) (λ logs. write_json 200 (logs_body logs))))
          s
          (λ n.
            accepted "failed to get step logs" (get_workflow_step_logs w n)
              (λ logs. write_json 200 (logs_body logs)) s (λ a t. refl))
    route-refused (post_runs_steps_rerun id step_id) s =
        numbered "invalid workflow run ID" id
          (λ n.
            if str_eq step_id ""
            then write_error status_text decode parse_int 400 "step ID is required" none
            else (or_500 status_text decode parse_int "failed to rerun step"
                (rerun_workflow_step w sch e workflows n step_id)
                (λ _. write_json 200 (status_body "rerun started"))))
          s
          (λ n. elim (Bool-cases (str_eq step_id "")) [
            | inl none_given ↦ rw none_given (λ _. refl)
            | inr given ↦ rw given (
                accepted "failed to rerun step" (rerun_workflow_step w sch e workflows n step_id)
                  (λ _. write_json 200 (status_body "rerun started")) s (λ a t. refl))
          ])
    route-refused get_health s = λ refused. absurd (cc refused)
