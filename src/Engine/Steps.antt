-- ===== src/Engine/Steps.antt =====
-- The step types of internal/workflow/engine.go, but parallel ones.
use Prim.Native.String.{◌++◌ as append}
use rivo.Prelude.{ℕ, ◌+◌, String, Bool, true, false, Option, none, some, List}
use rivo.Prelude.Int.{ℤ}
use rivo.Base.{
  Error, message, wrapf, error_text, Result, ok, err, Json, RawMessage, Any, marshal, marshal_slice,
}
use rivo.Store.{Time, StepState, StepRunState, World, time_now, get_event, ignore_error}
use rivo.Store.Logs.{create_workflow_step_log, complete_workflow_step_log, fail_workflow_step_log}
use rivo.Engine.{
  StepInfo, Context, Handler, StepHandler, Engine, RunState, Step, ◌>>=◌, ◌>>◌, fail_with, db,
  get_run, set_step_state, put_output, set_output,
}

-- The values of `StepRunState` that the engine writes.
abbrev pub started_state : (attempt : ℕ) → Time → StepRunState
started_state attempt now = record {
  state = StepState.running;
  output = none;
  error = "";
  attempt = attempt;
  started_at = some now;
  completed_at = none;
}

abbrev pub failed_state : (attempt : ℕ) → Time → Time → Error → StepRunState
failed_state attempt now completed_at e = record {
  state = StepState.failed;
  output = none;
  error = error_text e;
  attempt = attempt;
  started_at = some now;
  completed_at = some completed_at;
}

abbrev pub completed_state : (attempt : ℕ) → Time → Time → RawMessage → StepRunState
completed_state attempt now completed_at out = record {
  state = StepState.completed;
  output = out;
  error = "";
  attempt = attempt;
  started_at = some now;
  completed_at = some completed_at;
}

abbrev pub skipped_state : StepRunState
skipped_state = record {
  state = StepState.skipped;
  output = none;
  error = "";
  attempt = 0;
  started_at = none;
  completed_at = none;
}

-- `attempt := 1`, or one more than the attempt that is recorded.
abbrev pub next_attempt : Option StepRunState → ℕ
next_attempt none = 1
next_attempt (some st) = st.attempt + 1

-- `state[id]`, with nil for a missing key.
abbrev pub output_of : Option RawMessage → RawMessage
output_of none = none
output_of (some out) = out

abbrev pub quoted_error : String → String → String → Error → Error
quoted_error before id after = wrapf (append before (append id after))

module _ (w : World) (e : Engine) (run_id : ℕ) (workflow : String) (step : StepInfo)
    (input : RawMessage) where
  abbrev pub context_of : (previous : String) → ℤ → RunState → Context
  context_of previous timeout r = record {
    run_id = run_id;
    step_id = step.id;
    previous_step_id = previous;
    input = input;
    state = r.state;
    timeout = timeout;
  }

  -- A call of a handler: it reads the maps as they are, and may set the output of its step.
  abbrev pub call {ℓ} : {A : Type ℓ} → (previous : String) → ℤ → Handler A → Step (Result A)
  call previous timeout handler = do
    event ← db get_event
    r ← get_run
    set_output step.id (handler (context_of previous timeout r) event).0
    λ r'. (ok (handler (context_of previous timeout r) event).1, r')

  -- The end of executeSequentialStep, when the handler has answered.
  unfoldable pub finish_sequential :
      (attempt : ℕ) → Time → (log_id : ℕ) → Result (Unit {0}) → Step (Unit {0})
  finish_sequential attempt now log_id (err x) = do
    completed_at ← db (time_now w)
    set_step_state step.id (failed_state attempt now completed_at x)
    db (ignore_error tt (fail_workflow_step_log w log_id (error_text x) none))
    fail_with (quoted_error "step " step.id " failed: " x)
  finish_sequential attempt now log_id (ok _) = do
    completed_at ← db (time_now w)
    r ← get_run
    set_step_state step.id (completed_state attempt now completed_at (output_of (r.state step.id)))
    db (ignore_error tt (complete_workflow_step_log w log_id (output_of (r.state step.id)) none))

  unfoldable pub run_sequential : StepHandler → (attempt : ℕ) → Step (Unit {0})
  unfolding finish_sequential
  run_sequential handler attempt = do
    now ← db (time_now w)
    set_step_state step.id (started_state attempt now)
    log_id ←
        db (ignore_error 0 (create_workflow_step_log w run_id step.id attempt e.worker_id input))
    result ← call "" step.timeout handler
    finish_sequential attempt now log_id result

  unfoldable pub execute_sequential_step : Step (Unit {0})
  unfolding run_sequential
  execute_sequential_step r = elim (e.handlers workflow step.id) [
    | none ↦ fail_with (message (append "handler not found for step: " step.id)) r
    | some handler ↦ run_sequential handler (next_attempt (r.step_states step.id)) r
  ]

  -- What executeConditionalStep does once the condition has answered.
  abbrev pub conditional_on : Bool → Step (Unit {0})
  conditional_on true = execute_sequential_step
  conditional_on false = set_step_state step.id skipped_state

  -- The condition's context shares the map `state`, so that an output which it sets is kept.
  unfoldable pub execute_conditional_step : Step (Unit {0})
  unfolding execute_sequential_step
  execute_conditional_step r = elim (e.conditions workflow step.id) [
    | none ↦ set_step_state step.id skipped_state r
    | some condition ↦
        (do
          answer ← call "" (ℤ.pos 0) (λ c n. let (out, b) = condition c n in (out, ok b))
          elim answer [ ok b ↦ conditional_on b | err x ↦ fail_with x ])
          r
  ]

  -- The end of executeMapStep, executeReduceStep and executeFanOutStep. A result that JSON refuses
  -- leaves the step as running.
  abbrev pub store_output : Time → (encoding : String) → Result Json → Step (Unit {0})
  store_output now encoding (err x) = fail_with (wrapf encoding x)
  store_output now encoding (ok j) = do
    put_output step.id (some j)
    completed_at ← db (time_now w)
    set_step_state step.id (completed_state 1 now completed_at (some j))

  abbrev pub mark_failed : Time → Error → Step (Unit {0})
  mark_failed now x = do
    completed_at ← db (time_now w)
    set_step_state step.id (failed_state 1 now completed_at x)

  abbrev pub finish_map : Time → Result (Option (List Any)) → Step (Unit {0})
  finish_map now (err x) = do
    mark_failed now x
    fail_with (quoted_error "map step " step.id " failed: " x)
  finish_map now (ok results) = store_output now "marshal map output: " (marshal_slice results)

  unfoldable pub execute_map_step : Step (Unit {0})
  execute_map_step r = elim (e.map_handlers workflow step.id) [
    | none ↦ fail_with (message (append "map handler not found for step: " step.id)) r
    | some handler ↦
        (do
          now ← db (time_now w)
          set_step_state step.id (started_state 1 now)
          result ← call "" (ℤ.pos 0) handler
          finish_map now result)
          r
  ]

  abbrev pub finish_reduce : Time → Result Any → Step (Unit {0})
  finish_reduce now (err x) = do
    mark_failed now x
    fail_with (quoted_error "reduce step " step.id " failed: " x)
  finish_reduce now (ok result) = store_output now "marshal reduce output: " (marshal result)

  abbrev run_reduce : Handler Any → Step (Unit {0})
  run_reduce handler = do
    now ← db (time_now w)
    set_step_state step.id (started_state 1 now)
    result ← call step.source_step_id (ℤ.pos 0) handler
    finish_reduce now result

  unfoldable pub execute_reduce_step : Step (Unit {0})
  execute_reduce_step r = elim (e.reduce_handlers workflow step.id) [
    | none ↦ fail_with (message (append "reduce handler not found for step: " step.id)) r
    | some handler ↦ elim (r.state step.source_step_id) [
      | none ↦ fail_with (message (append "source step output not found: " step.source_step_id)) r
      | some _ ↦ run_reduce handler r
    ]
  ]

  abbrev pub finish_handler :
      (attempt : ℕ) → Time → (log_id : ℕ) → Result RawMessage → Step (Unit {0})
  finish_handler attempt now log_id (err x) = do
    completed_at ← db (time_now w)
    set_step_state step.id (failed_state attempt now completed_at x)
    db (ignore_error tt (fail_workflow_step_log w log_id (error_text x) none))
    fail_with (quoted_error "handler step " step.id " failed: " x)
  finish_handler attempt now log_id (ok out) = do
    put_output step.id out
    completed_at ← db (time_now w)
    set_step_state step.id (completed_state attempt now completed_at out)
    db (ignore_error tt (complete_workflow_step_log w log_id out none))

  unfoldable pub execute_handler_step : Step (Unit {0})
  execute_handler_step r = elim e.handler_step_executor [
    | none ↦ fail_with (message "handler step executor not configured") r
    | some execute ↦
        let attempt = next_attempt (r.step_states step.id) in
        (do
          now ← db (time_now w)
          set_step_state step.id (started_state attempt now)
          log_id ←
              db (
                ignore_error 0
                  (create_workflow_step_log w run_id step.id attempt e.worker_id input))
          event ← db get_event
          finish_handler attempt now log_id (execute step.handler_id input event))
          r
  ]
