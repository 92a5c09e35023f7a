-- ===== src/Client/Outputs.antt =====
-- What a step of a workflow sees of the steps before it: the adapter of RegisterWorkflow in client.go,
-- run by executeSequentialStep of internal/workflow/engine.go.
use rivo.Prelude.{ℕ, suc, String, ◌≡◌, refl, sym, ◌∙◌, Option, some}
use rivo.Base.{Json, Result, ok, err, RawMessage, message}
use Prim.Native.String.{◌++◌ as append}
use rivo.Store.{World, Time, StepRunState}
use rivo.Engine.{StepInfo, Engine, RunState, State}
use rivo.Engine.Steps.{execute_sequential_step, context_of}
use rivo.Engine.Contract.{Recorded, execute_sequential_step-Recorded}
use rivo.Workflow.{WorkflowFunc, step_output}
use rivo.Client.Register.{adapted_handler, handler_context}

-- The answer alone decides what is returned.
Recorded-result :
    (id : String) (before : Option StepRunState) (begun finished : Time)
    (answer x y : Result (Unit {0})) (r r' : RunState)
    → Recorded id before begun finished answer x r
    → Recorded id before begun finished answer y r'
    → x ≡ y
Recorded-result id before begun finished (ok _) x y r r' p q = p.0 ∙ sym q.0
Recorded-result id before begun finished (err z) x y r r' p q = p.0 ∙ sym q.0

module _ (w : World) (e : Engine) (run_id : ℕ) (workflow : String) (step : StepInfo)
    (input : RawMessage) where
  -- A handler that RegisterWorkflow registers for a step cannot use what the steps before it put
  -- out: the step fails or succeeds alike, whatever these outputs are, and in the context that the
  -- handler gets GetStepOutput answers an error for every step.
  pub execute_sequential_step-outputs :
      (reread : Json → Json) (f : WorkflowFunc) (r : RunState) (outputs : State) (id : String)
      → e.handlers workflow step.id ≡ some (adapted_handler reread f)
      → let r' : RunState = record r { state = outputs } in
        let c = context_of w e run_id workflow step input "" step.timeout r' in
        ((execute_sequential_step w e run_id workflow step input r').0
          ≡ (execute_sequential_step w e run_id workflow step input r).0)
        × (step_output (handler_context c) id ≡ err (message (append "step output not found: " id)))
  unfolding step_output
  execute_sequential_step-outputs reread f r outputs id found =
      let r' : RunState = record r { state = outputs } in
      let recorded =
        execute_sequential_step-Recorded w e run_id workflow step input (adapted_handler reread f) r
          found in
      let recorded' =
        execute_sequential_step-Recorded w e run_id workflow step input (adapted_handler reread f)
          r' found in
      (
        Recorded-result step.id _ _ _
            (f (handler_context (context_of w e run_id workflow step input "" step.timeout r))
              (suc (suc r.store.event))).1
            _ _ _ _ recorded' recorded,
        refl,
      )
