-- ===== src/Engine/Contract.antt =====
-- What executing one step of internal/workflow/engine.go promises: executeSequentialStep.
use Prim.Native.String.{◌++◌ as append}
use rivo.Prelude.{
  ℕ, suc, String, ◌≡◌, Option, none, some, arith, ◌⊎◌, refl, inl, inr, true, str_eq, eq_refl,
}
use rivo.Base.{Result, ok, err, wrapf, error_text, RawMessage, Result-cases}
use rivo.Store.{World, Time, StepState, StepRunState}
use rivo.Store.Logs.{create_workflow_step_log, complete_workflow_step_log, fail_workflow_step_log}
use rivo.Engine.{StepInfo, Engine, RunState, StepHandler}
use rivo.Engine.Steps.{execute_sequential_step, next_attempt, context_of, output_of}

-- The attempt after a recorded one.
abbrev pub Follows : Option StepRunState → ℕ → Type 0
Follows none n = n ≡ 1
Follows (some st) n = n ≡ suc st.attempt

-- What is returned and recorded, from the handler's answer, the state that was recorded and the two
-- times.
abbrev pub Recorded :
    (id : String)
    → (before : Option StepRunState) → (begun finished : Time) → Result (Unit {0})
    → Result (Unit {0})
    → RunState
    → Type 0
Recorded id before begun finished (ok _) result r =
    (result ≡ ok tt)
    × (attempt : ℕ) × Follows before attempt
    × (out : RawMessage) × (r.step_states id
        ≡ some (record {
          state = StepState.completed;
          output = out;
          error = "";
          attempt = attempt;
          started_at = some begun;
          completed_at = some finished;
        }))
    × (((r.state id ≡ none) × (out ≡ none)) ⊎ (r.state id ≡ some out))
Recorded id before begun finished (err x) result r =
    (result ≡ err (wrapf (append "step " (append id " failed: ")) x))
    × (attempt : ℕ) × Follows before attempt
    × (r.step_states id
        ≡ some (record {
          state = StepState.failed;
          output = none;
          error = error_text x;
          attempt = attempt;
          started_at = some begun;
          completed_at = some finished;
        }))

next_attempt-Follows : (before : Option StepRunState) → Follows before (next_attempt before)
next_attempt-Follows none = refl
next_attempt-Follows (some st) = omega arith

output_of-cases :
    (o : Option RawMessage) → ((o ≡ none) × (output_of o ≡ none)) ⊎ (o ≡ some (output_of o))
output_of-cases none = inl (refl, refl)
output_of-cases (some out) = inr refl

module _ (w : World) (e : Engine) (run_id : ℕ) (workflow : String) (step : StepInfo)
    (input : RawMessage) where
  -- A step with a handler records and returns what that handler answers in the context of the
  -- outputs before the step, at the event after the log row: the step's output, an attempt one more
  -- than the recorded one (1 if there is none), and when it began and ended.
  pub execute_sequential_step-Recorded :
      (handler : StepHandler) (r : RunState)
      → e.handlers workflow step.id ≡ some handler
      → let answer =
          (handler
            (record {
              run_id = run_id;
              step_id = step.id;
              previous_step_id = "";
              input = input;
              state = r.state;
              timeout = step.timeout;
            })
            (suc (suc r.store.event))).1 in
        let (result, r') = execute_sequential_step w e run_id workflow step input r in
        Recorded step.id
          (r.step_states step.id)
          (w.clock r.store.event)
          (w.clock (suc (suc (suc r.store.event))))
          answer
          result
          r'
  unfolding execute_sequential_step create_workflow_step_log complete_workflow_step_log
      fail_workflow_step_log
  execute_sequential_step-Recorded handler r found =
      let same : str_eq step.id step.id ≡ true = eq_refl step.id in
      let n = next_attempt (r.step_states step.id) in
      let follows = next_attempt-Follows (r.step_states step.id) in
      let r' = (execute_sequential_step w e run_id workflow step input r).1 in
      elim (Result-cases
        (handler (context_of w e run_id workflow step input "" step.timeout r)
          (suc (suc r.store.event))).1) [
            | inl (x, done) ↦ rw done (
              ground arith,
              n,
              follows,
              output_of (r'.state step.id),
              ground arith,
              output_of-cases (r'.state step.id),
            )
            | inr (x, failed) ↦ rw failed (ground arith, n, follows, ground arith)
          ]
