-- ===== src/Store/Reads.antt =====
-- The lists that internal/db/db.go reads: ListJobs, ListWorkflowRuns, GetJobLogs,
-- GetWorkflowStepLogs, GetWorkflowStepLogsByStep and GetQueueStats.
use rivo.Prelude.{
  ℕ, String, Bool, true, not, ◌&&◌, List, [], ◌∷◌, map, length, contains, str_eq, ltb, ◌==◌,
  if◌then◌else◌, select, sort_by, take,
}
use Prim.Native.String.{compare}
use text.Mathlib.Text.{is_lt}
use rivo.Base.{ok}
use rivo.Store.Rows.{
  Time, JobState, available, scheduled, running, retryable, completed, cancelled, discarded, JobRow,
  WorkflowState, WorkflowRunRow, LogRow,
}
use rivo.Store.Statement.{World, M, statement}

-- The states as the column holds them.
abbrev pub job_state_text : JobState → String
job_state_text available = "available"
job_state_text scheduled = "scheduled"
job_state_text running = "running"
job_state_text retryable = "retryable"
job_state_text completed = "completed"
job_state_text cancelled = "cancelled"
job_state_text discarded = "discarded"

abbrev pub workflow_state_text : WorkflowState → String
workflow_state_text WorkflowState.pending = "pending"
workflow_state_text WorkflowState.running = "running"
workflow_state_text WorkflowState.completed = "completed"
workflow_state_text WorkflowState.failed = "failed"
workflow_state_text WorkflowState.cancelled = "cancelled"

-- A condition that is added to the query unless its argument is empty.
abbrev pub wanted : (argument column : String) → Bool
wanted argument column = if str_eq argument "" then true else str_eq column argument

abbrev pub listed_job : (namespace state queue : String) → JobRow → Bool
listed_job namespace state queue j =
    str_eq j.namespace namespace && wanted state (job_state_text j.state) && wanted queue j.queue

-- `ORDER BY created_at DESC LIMIT $n`. Rows of one time stay in the table's order, which SQL
-- leaves open.
unfoldable pub newest {ℓ} : {A : Type ℓ} → (A → Time) → ℕ → List A → List A
newest created limit rows = take limit (sort_by (λ a b. ltb (created b) (created a)) rows)

unfoldable pub list_jobs : World → (namespace state queue : String) → (limit : ℕ) → M (List JobRow)
unfolding statement newest
list_jobs w namespace state queue limit = statement w (λ now s.
    (ok (newest (λ j. j.created_at) limit (select (listed_job namespace state queue) s.jobs)), s))

unfoldable pub list_workflow_runs :
    World → (namespace state : String) → (limit : ℕ) → M (List WorkflowRunRow)
unfolding statement newest
list_workflow_runs w namespace state limit = statement w (λ now s. (
  ok (
      newest (λ r. r.created_at) limit
        (select (λ r. str_eq r.namespace namespace && wanted state (workflow_state_text r.state))
          s.runs)),
  s,
))

abbrev pub attempt_after : LogRow → LogRow → Bool
attempt_after a b = ltb b.attempt a.attempt

unfoldable pub get_job_logs : World → (job_id : ℕ) → M (List LogRow)
unfolding statement
get_job_logs w job_id =
    statement w
      (λ now s. (ok (sort_by attempt_after (select (λ l. l.owner == job_id) s.job_logs)), s))

unfoldable pub get_workflow_step_logs : World → (run_id : ℕ) → M (List LogRow)
unfolding statement
get_workflow_step_logs w run_id = statement w (λ now s. (
  ok (sort_by (λ a b. ltb b.started_at a.started_at) (select (λ l. l.owner == run_id) s.step_logs)),
  s,
))

unfoldable pub get_workflow_step_logs_by_step :
    World → (run_id : ℕ) → (step_id : String) → M (List LogRow)
unfolding statement
get_workflow_step_logs_by_step w run_id step_id = statement w (λ now s. (
  ok (
      sort_by attempt_after
        (select (λ l. l.owner == run_id && str_eq l.step_id step_id) s.step_logs)),
  s,
))

-- A row of the view rivo_queue_stats, which counts the jobs of each namespace and queue.
pub record QueueStats : Type 0 where
  pub namespace : String
  pub queue : String
  pub available : ℕ
  pub running : ℕ
  pub completed : ℕ
  pub retryable : ℕ
  pub failed : ℕ
  pub total : ℕ

abbrev pub in_state : (state : String) → JobRow → Bool
in_state state j = str_eq (job_state_text j.state) state

abbrev pub queue_stats : (namespace queue : String) → List JobRow → QueueStats
queue_stats namespace queue jobs =
    let group = select (λ j. str_eq j.namespace namespace && str_eq j.queue queue) jobs in
    record {
      namespace = namespace;
      queue = queue;
      available = length (select (in_state "available") group);
      running = length (select (in_state "running") group);
      completed = length (select (in_state "completed") group);
      retryable = length (select (in_state "retryable") group);
      failed = length (select (in_state "discarded") group);
      total = length group;
    }

-- The queues that have a job in the namespace, each once.
abbrev pub queues_in : (namespace : String) → List JobRow → List String
queues_in namespace [] = []
queues_in namespace (j ∷ js) =
    let rest = queues_in namespace js in
    if str_eq j.namespace namespace && not (contains rest j.queue) then j.queue ∷ rest else rest

unfoldable pub get_queue_stats : World → (namespace : String) → M (List QueueStats)
unfolding statement
get_queue_stats w namespace = statement w (λ now s. (
  ok (
      map (λ q. queue_stats namespace q s.jobs)
        (sort_by (λ a b. is_lt (compare a b)) (queues_in namespace s.jobs))),
  s,
))
