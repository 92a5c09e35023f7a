-- ===== src/Engine/Replay.antt =====
-- What ExecuteRun of internal/workflow/engine.go skips when it runs again, and what it has not
-- saved when a step fails.
use rivo.Prelude.{
  ℕ, String, ◌≡◌, refl, ap, ◌∙◌, Bool, true, ◌&&◌, Option, none, some, List, [], ◌∷◌, arith, inl,
  inr, Bool-cases, Option-cases, ◌==◌, if◌then◌else◌,
}
use rivo.Base.{Error, error_text, ok, err, RawMessage, Result-cases}
use rivo.Store.{World, Time, WorkflowState, WorkflowRunRow, StepStates, Store}
use rivo.Store.Runs.{
  update_run, set_run_state, update_workflow_run_state, update_workflow_run_step_states,
}
use rivo.Engine.{
  Engine, RunState, Scheduler, StepDefinition, StepDefinitions, no_steps, more_steps, step_info,
  WorkflowDefinition,
}
use rivo.Engine.Run.{is_completed, execute_step, execute_steps, execute_parsed, replayed_state}
use rivo.Engine.Runs.{execute_step_runs}

abbrev pub all_completed : StepStates → StepDefinitions → Bool
all_completed states no_steps = true
all_completed states (more_steps s ss) =
    is_completed (states (step_info s).id) && all_completed states ss

-- The step states in the row of a run.
unfoldable pub saved_states : ℕ → List WorkflowRunRow → Option StepStates
saved_states id [] = none
saved_states id (r ∷ rs) = if r.id == id then some r.step_states else saved_states id rs

saved_states-set_run_state :
    (id : ℕ) (now : Time) (state : WorkflowState) (msg : String) (rs : List WorkflowRunRow)
    → saved_states id (update_run id (set_run_state now state msg) rs) ≡ saved_states id rs
unfolding update_run saved_states
saved_states-set_run_state id now state msg [] = refl
saved_states-set_run_state id now state msg (r ∷ rs) =
    let ih = saved_states-set_run_state id now state msg rs in ground arith

module _ (w : World) where
  save_step_logs :
      (id : ℕ) (states : StepStates) (s : Store)
      → (update_workflow_run_step_states w id states s).1.step_logs ≡ s.step_logs
  unfolding update_workflow_run_step_states
  save_step_logs id states s = ground arith

  update_saved :
      (id : ℕ) (state : WorkflowState) (step msg : String) (s : Store)
      → saved_states id (update_workflow_run_state w id state step msg s).1.runs
        ≡ saved_states id s.runs
  unfolding update_workflow_run_state
  update_saved id state step msg s = elim (Option-cases (w.fault s.event)) [
    | inl none_found ↦
        rw none_found (saved_states-set_run_state id (w.clock s.event) state msg s.runs)
    | inr (x, found) ↦ rw found refl
  ]

module _ (w : World) (sch : Scheduler) (e : Engine) (workflow : String) where
  module _ (run_id : ℕ) (input : RawMessage) where
    -- A replay of steps that are all recorded as completed succeeds, and changes no output, no step
    -- state and no step log.
    pub execute_steps_replay :
        (ss : StepDefinitions) (r : RunState)
        → all_completed r.step_states ss ≡ true
        → let (a, r') = execute_steps w sch e run_id workflow input ss r in
          (a ≡ ok tt)
          × (r'.state ≡ r.state)
          × (r'.step_states ≡ r.step_states)
          × (r'.store.step_logs ≡ r.store.step_logs)
    unfolding execute_steps execute_step
    execute_steps_replay no_steps r completed = (refl, refl, refl, refl)
    execute_steps_replay (more_steps s ss) r completed =
        let next : RunState = record r {
          store = (update_workflow_run_step_states w run_id r.step_states r.store).1;
        } in
        elim (Bool-cases (is_completed (r.step_states (step_info s).id))) [
          | inl done ↦
              let (a, state, states, logs) = execute_steps_replay ss next (rw done at completed) in
              rw (done, execute_step)
                (a, state, states, logs ∙ save_step_logs w run_id r.step_states r.store)
          | inr todo ↦ absurd (cc (rw todo at completed))
        ]

  -- How ExecuteRun enters the loop.
  abbrev pub begun : WorkflowRunRow → Store → RunState
  begun run s = record {
    state = replayed_state run.step_states;
    step_states = run.step_states;
    store = (update_workflow_run_state w run.id WorkflowState.running "" "" s).1;
  }

  -- When the first step fails, the row of the run keeps the step states that it had: neither the
  -- failure nor the attempt is saved.
  pub execute_parsed-first_failure :
      (run : WorkflowRunRow) (def : WorkflowDefinition) (st : Store) {s : StepDefinition}
      {ss : StepDefinitions} {x : Error}
      → def.steps ≡ more_steps s ss
      → (execute_step w sch e run.id workflow run.input s (begun run st)).0 ≡ err x
      → saved_states run.id (execute_parsed w sch e run workflow def st).1.runs
        ≡ saved_states run.id st.runs
  unfolding execute_parsed execute_steps
  execute_parsed-first_failure run def st {s} {ss} {x} first failed =
      let start = update_workflow_run_state w run.id WorkflowState.running "" "" st in
      let r = begun run st in
      let r' = (execute_step w sch e run.id workflow run.input s r).1 in
      let entered = update_saved w run.id WorkflowState.running "" "" st in
      elim (Result-cases start.0) [
        | inr (y, h) ↦ rw (h, execute_parsed) entered
        | inl (_, h) ↦
            rw (h, execute_parsed)
              (rw (first, execute_parsed)
                (rw (failed, execute_steps)
                  (update_saved w run.id WorkflowState.failed (step_info s).id (error_text x)
                      r'.store
                    ∙ ap (saved_states run.id)
                        (execute_step_runs w sch e run.id workflow run.input s r)
                    ∙ entered)))
      ]
