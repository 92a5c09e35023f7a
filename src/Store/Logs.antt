-- ===== src/Store/Logs.antt =====
-- The log statements of internal/db/db.go: the logs of workflow steps and of jobs.
use rivo.Prelude.{ℕ, suc, String, none, some, List, [], any, ◌∷◌, ◌++◌, map, ◌==◌, if◌then◌else◌}
use rivo.Base.{Error, Result, ok, err, message, RawMessage}
use rivo.Store.Rows.{Time, LogRow, LogStatus, Store}
use rivo.Store.Statement.{World, M, statement}

abbrev pub running_log :
    ℕ → Time → (owner : ℕ) → (step_id : String) → ℕ → String → RawMessage → LogRow
running_log id now owner step_id attempt worker_id input = record {
  id = id;
  owner = owner;
  step_id = step_id;
  attempt = attempt;
  worker_id = worker_id;
  started_at = now;
  completed_at = none;
  input = input;
  output = none;
  status = LogStatus.running;
  error = none;
}

unfoldable pub create_workflow_step_log :
    World
    → (run_id : ℕ) → (step_id : String) → (attempt : ℕ) → (worker_id : String) → RawMessage
    → M ℕ
unfolding statement
create_workflow_step_log w run_id step_id attempt worker_id input = statement w (λ now s. (
  ok s.next_id,
  record s {
    step_logs =
        s.step_logs ++ running_log s.next_id now run_id step_id attempt worker_id input ∷ [];
    next_id = suc s.next_id;
  },
))

abbrev pub update_logs : ℕ → (LogRow → LogRow) → List LogRow → List LogRow
update_logs id f = map (λ l. if l.id == id then f l else l)

abbrev pub complete_log : Time → RawMessage → LogRow → LogRow
complete_log now output l = record l {
  status = LogStatus.completed;
  completed_at = some now;
  output = output;
}

abbrev pub fail_log : Time → String → LogRow → LogRow
fail_log now msg l = record l {
  status = LogStatus.failed;
  completed_at = some now;
  error = some msg;
}

abbrev not_null_violation : Error
not_null_violation = message "null value in column logs violates not-null constraint"

-- An update that also sets the column `logs`, which is not null: with nil it is refused, if there is
-- a row to update. The rows of the model do not keep that column.
abbrev pub update_step_logs :
    ℕ → (logs : RawMessage) → (LogRow → LogRow) → Store → Result (Unit {0}) × Store
update_step_logs id none f s =
    (if any (λ (l : LogRow). l.id == id) s.step_logs then err not_null_violation else ok tt, s)
update_step_logs id (some logs) f s = (ok tt, record s { step_logs = update_logs id f s.step_logs })

unfoldable pub complete_workflow_step_log : World → ℕ → (output logs : RawMessage) → M (Unit {0})
unfolding statement
complete_workflow_step_log w id output logs =
    statement w (λ now. update_step_logs id logs (complete_log now output))

unfoldable pub fail_workflow_step_log : World → ℕ → String → (logs : RawMessage) → M (Unit {0})
unfolding statement
fail_workflow_step_log w id msg logs =
    statement w (λ now. update_step_logs id logs (fail_log now msg))

unfoldable pub create_job_log :
    World → (job_id : ℕ) → (attempt : ℕ) → (worker_id : String) → RawMessage → M ℕ
unfolding statement
create_job_log w job_id attempt worker_id input = statement w (λ now s. (
  ok s.next_id,
  record s {
    job_logs = s.job_logs ++ running_log s.next_id now job_id "" attempt worker_id input ∷ [];
    next_id = suc s.next_id;
  },
))

unfoldable pub complete_job_log : World → ℕ → RawMessage → M (Unit {0})
unfolding statement
complete_job_log w id output =
    statement w (λ now s.
      (ok tt, record s { job_logs = update_logs id (complete_log now output) s.job_logs }))

unfoldable pub fail_job_log : World → ℕ → String → M (Unit {0})
unfolding statement
fail_job_log w id msg =
    statement w
      (λ now s. (ok tt, record s { job_logs = update_logs id (fail_log now msg) s.job_logs }))
