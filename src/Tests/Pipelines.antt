-- ===== src/Tests/Pipelines.antt =====
-- Rounds of fetched jobs, children of a parallel step, and script handlers.
use rivo.Prelude.{
  ℕ, ◌≡◌, refl, String, true, none, some, List, [], ◌∷◌, ◌++◌, empty, arith, find_first, str_eq,
  if◌then◌else◌, inr, inl, map,
}
use rivo.Base.{ok, message, err}
use rivo.Store.{JobRow, JobState, LogRow, LogStatus, ScriptHandlerRow, World, panics, Store}
use rivo.Store.Jobs.{with_id, unique_keys, update_where, fail_job}
use rivo.Executor.Pool.{execute_job}
use rivo.Store.Logs.{create_job_log}
use rivo.Client.Jobs.{handle_job}
use rivo.Executor.Completer.{handle_result}
use rivo.Retry.{completer_retry}
use rivo.Store.Jobs.Next.{fetch_jobs, is_next}
use rivo.Store.Scripts.{HandlerTable, is_kind, upsert_script_handler, get_script_handler}
use rivo.Store.Scripts.Upsert.{IsKeyed, within, upserted, get_script_handler-upsert_script_handler}
use rivo.Handlers.{RegisteredHandler, zero_handler_options}
use rivo.Engine.{
  sequential, StepDefinitions, step_definition, no_steps, more_steps, Engine, Scheduler,
  register_step,
}
use rivo.Engine.Steps.{execute_sequential_step}
use rivo.Engine.Parallel.{execute_parallel_steps}
use rivo.Engine.Merge.{IsRecorded}
use rivo.Engine.Merge.Together.{execute_parallel_steps-IsRecorded}
use rivo.Pipeline.{run_job, work_off}
use rivo.Pipeline.Ran.{IsSound}
use rivo.Pipeline.Reported.{Lacks, Reported}
use rivo.Pipeline.Drain.{HasEnded, ready_job-HasEnded}
use rivo.Pipeline.Round.{work_off-fetch_jobs}
use rivo.Tests.{
  quiet_world, quiet, three_store, mail_row, none_locked, doubling, short_policy, step_named,
  succeeds, engine_of, fresh_run, store_with,
}

-- A kind whose handler fails; the other kind has none.
abbrev failing_mail : RegisteredHandler
failing_mail = record {
  kind = "mail";
  queue = "default";
  fn = λ timeout job n. ([], err (message "boom"));
  options = zero_handler_options;
}

three-IsSound : IsSound three_store
unfolding unique_keys
three-IsSound = record {
  table = record {
    increasing = ((omega arith, (omega arith, tt)), ((omega arith, tt), (tt, tt)));
    below = omega arith;
    unique = refl;
  };
  logs = tt;
}

work_off-fetch_jobs_example :
    let fetched = fetch_jobs quiet_world none_locked "app" ("default" ∷ []) 10 "w1" three_store in
    (rows : List JobRow) × (ls : List LogRow) × (fetched.0 ≡ ok rows)
    × let t = work_off quiet_world doubling short_policy (failing_mail ∷ []) "w1" rows fetched.1 in
      (t.job_logs ≡ [] ++ ls)
      × Reported quiet_world doubling short_policy (failing_mail ∷ []) "w1" t.jobs rows ls
      × ((x : ℕ)
          → Lacks x rows
          → find_first (with_id x) t.jobs ≡ find_first (with_id x) three_store.jobs)
      × IsSound t
work_off-fetch_jobs_example =
    work_off-fetch_jobs quiet_world doubling short_policy (failing_mail ∷ []) "w1" none_locked "app"
      ("default" ∷ []) 10 three_store quiet three-IsSound

-- The handler panics: the job is to be retried, and its log row stays running.
abbrev panicking_world : World
panicking_world = record quiet_world { call = λ n. panics "boom" }

abbrev running_mail : JobRow
running_mail = record mail_row { state = JobState.running; attempt = 1 }

abbrev after_panic : Store
after_panic =
    run_job panicking_world doubling short_policy (failing_mail ∷ []) "w1" running_mail
      (store_with (running_mail ∷ []) 2 [])

panicked_run :
    (map (λ (j : JobRow). j.state) after_panic.jobs ≡ JobState.retryable ∷ [])
    × (map (λ (l : LogRow). l.status) after_panic.job_logs ≡ LogStatus.running ∷ [])
unfolding run_job handle_job handle_result completer_retry create_job_log unique_keys update_where
    execute_job fail_job
panicked_run = (refl, refl)

-- The job of the first row is fetched with the other ready one.
ready_job-HasEnded_example :
    let fetched = fetch_jobs quiet_world none_locked "app" ("default" ∷ []) 10 "w1" three_store in
    (rows : List JobRow) × (k : JobRow) × (fetched.0 ≡ ok rows)
    × (find_first
          (with_id 1)
          (work_off quiet_world doubling short_policy (failing_mail ∷ []) "w1" rows fetched.1).jobs
        ≡ some k)
    × HasEnded 1 k
unfolding is_next
ready_job-HasEnded_example =
    ready_job-HasEnded quiet_world doubling short_policy (failing_mail ∷ []) "w1" none_locked "app"
      ("default" ∷ []) 10 1 three_store {j = mail_row} quiet three-IsSound refl refl (omega arith)

abbrev two_children : StepDefinitions
two_children =
    more_steps (step_definition (step_named "charge" sequential) no_steps)
      (more_steps (step_definition (step_named "ship" sequential) no_steps) no_steps)

abbrev both_handlers : Engine
both_handlers = register_step (engine_of succeeds) "orders" "ship" succeeds

-- The second goroutine copies the outputs before the first one moves.
abbrev second_first : Scheduler
second_first = record { item_order = λ n xs. xs; picks = λ n. 1 ∷ 0 ∷ [] }

execute_parallel_steps-IsRecorded_example :
    let r' =
      (execute_parallel_steps quiet_world both_handlers 7 "orders" none second_first two_children
        (fresh_run empty)).1 in
    IsRecorded "ship" r' r'.state
unfolding execute_parallel_steps execute_sequential_step register_step
execute_parallel_steps-IsRecorded_example =
    execute_parallel_steps-IsRecorded "ship" quiet_world both_handlers 7 "orders" none second_first
      two_children (fresh_run empty) (inr (refl, inl (refl, tt))) refl refl

abbrev scripts : HandlerTable
scripts = record {
  created_default = λ now. now;
  updated_default = λ now. now;
  kind_before = λ a b. true;
}

abbrev script : (namespace code : String) → ScriptHandlerRow
script namespace code = record {
  kind = "mail";
  namespace = namespace;
  handler_type = "js";
  code = code;
  config = none;
  version = 1;
  enabled = true;
  created_at = 0;
  updated_at = 0;
}

abbrev with_script : Store
with_script = record three_store { script_handlers = script "app" "old" ∷ [] }

-- Another namespace overwrites the handler and cannot read it.
get_script_handler-upsert_script_handler_example :
    let s' = (upsert_script_handler scripts quiet_world (script "shop" "new") with_script).1 in
    let before = find_first (is_kind "mail") with_script.script_handlers in
    ((get_script_handler quiet_world "shop" "mail" s').0
      ≡ ok (
          within "shop" (
            if str_eq "mail" "mail"
            then some (upserted scripts 0 (script "shop" "new") before)
            else before)))
    × IsKeyed s'.script_handlers
get_script_handler-upsert_script_handler_example =
    get_script_handler-upsert_script_handler scripts quiet_world (script "shop" "new") "shop" "mail"
      with_script refl refl (tt, tt)
