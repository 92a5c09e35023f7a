-- ===== src/Engine/Outcome.antt =====
-- How ExecuteRun of internal/workflow/engine.go ends.
use rivo.Prelude.{
  ℕ, suc, String, ◌≡◌, refl, sym, subst, Bool-cases, ap, ◌∙◌, Bool, true, Option, none, some, List,
  [], ◌∷◌, arith, inl, inr, any, find_first, ◌==◌, if◌then◌else◌,
}
use rivo.Base.{Result, ok, err, wrapf, RawMessage, Result-cases, error_text}
use rivo.Store.{
  tick, World, Time, WorkflowState, WorkflowRunRow, WorkflowDefinitionRow, StepStates, Store,
}
use rivo.Store.Runs.{
  get_workflow_run, get_workflow_definition_by_id, update_run, set_run_state,
  update_workflow_run_state, update_workflow_run_step_states,
}
use rivo.Engine.{
  Engine, RunState, Scheduler, StepDefinitions, no_steps, more_steps, step_info, WorkflowDefinition,
  StepInfo,
}
use rivo.Engine.Run.{
  execute_step, after_step, execute_steps, execute_parsed, replayed_state, parse_definition, parsed,
  execute_run,
}
use rivo.Store.Jobs.Lifecycle.{some_inj}
use rivo.Engine.Runs.{execute_step_runs}

-- Whether the table has a run with this ID, and the state of that run.
unfoldable pub has_run : ℕ → List WorkflowRunRow → Bool
has_run id = any (λ r. r.id == id)

unfoldable pub run_state : ℕ → List WorkflowRunRow → Option WorkflowState
run_state id [] = none
run_state id (r ∷ rs) = if r.id == id then some r.state else run_state id rs

has_run-set_run_state :
    (id : ℕ) (now : Time) (state : WorkflowState) (msg : String) (rs : List WorkflowRunRow)
    → has_run id (update_run id (set_run_state now state msg) rs) ≡ has_run id rs
unfolding has_run update_run
has_run-set_run_state id now state msg [] = refl
has_run-set_run_state id now state msg (r ∷ rs) =
    let ih = has_run-set_run_state id now state msg rs in ground arith

has_run-step_states :
    (id : ℕ) (now : Time) (states : StepStates) (rs : List WorkflowRunRow)
    → has_run id (update_run id (λ r. record r { step_states = states; updated_at = now }) rs)
      ≡ has_run id rs
unfolding has_run update_run
has_run-step_states id now states [] = refl
has_run-step_states id now states (r ∷ rs) =
    let ih = has_run-step_states id now states rs in ground arith

run_state-set_run_state :
    (id : ℕ) (now : Time) (state : WorkflowState) (msg : String) (rs : List WorkflowRunRow)
    → has_run id rs ≡ true
    → run_state id (update_run id (set_run_state now state msg) rs) ≡ some state
unfolding has_run update_run run_state
run_state-set_run_state id now state msg [] absent = absurd (cc absent)
run_state-set_run_state id now state msg (r ∷ rs) present =
    let ih = run_state-set_run_state id now state msg rs in ground arith

-- How the table stands after the steps: a run that failed is marked, another is still there.
abbrev Settled : ℕ → Result (Unit {0}) → List WorkflowRunRow → Type 0
Settled id (ok _) rs = has_run id rs ≡ true
Settled id (err x) rs = run_state id rs ≡ some WorkflowState.failed

abbrev pub final_state : Result (Unit {0}) → WorkflowState
final_state (ok _) = WorkflowState.completed
final_state (err x) = WorkflowState.failed

module _ (w : World) (quiet : (n : ℕ) → w.fault n ≡ none) (id : ℕ) where
  update_state :
      (state : WorkflowState) (step msg : String) (s : Store)
      → has_run id s.runs ≡ true
      → let (a, s') = update_workflow_run_state w id state step msg s in
        (a ≡ ok tt) × (run_state id s'.runs ≡ some state) × (has_run id s'.runs ≡ true)
  unfolding update_workflow_run_state
  update_state state step msg s present =
      let q = quiet s.event in
      let now = w.clock s.event in
      (
        rw q refl,
        rw q (run_state-set_run_state id now state msg s.runs present),
        rw q (has_run-set_run_state id now state msg s.runs ∙ present),
      )

  save_states :
      (states : StepStates) (s : Store)
      → has_run id s.runs ≡ true
      → has_run id (update_workflow_run_step_states w id states s).1.runs ≡ true
  unfolding update_workflow_run_step_states
  save_states states s present =
      rw (quiet s.event) (has_run-step_states id (w.clock s.event) states s.runs ∙ present)

  module _ (sch : Scheduler) (e : Engine) (workflow : String) (input : RawMessage) where
    after_step-Settled :
        (step : StepInfo) (a : Result (Unit {0})) (r : RunState)
        → has_run id r.store.runs ≡ true
        → let (b, r') = after_step w sch e id workflow input step a r in Settled id b r'.store.runs
    after_step-Settled step (err x) r present =
        (update_state WorkflowState.failed step.id (error_text x) r.store present).1
    after_step-Settled step (ok _) r present = save_states r.step_states r.store present

    execute_steps-Settled :
        (ss : StepDefinitions) (r : RunState)
        → has_run id r.store.runs ≡ true
        → let (a, r') = execute_steps w sch e id workflow input ss r in Settled id a r'.store.runs
    unfolding execute_steps
    execute_steps-Settled no_steps r present = present
    execute_steps-Settled (more_steps s ss) r present =
        let (a, r') = execute_step w sch e id workflow input s r in
        let (b, r'') = after_step w sch e id workflow input (step_info s) a r' in
        let settled =
          after_step-Settled (step_info s) a r'
            (ap (has_run id) (execute_step_runs w sch e id workflow input s r) ∙ present) in
        elim (Result-cases b) [
          | inl (_, h) ↦ rw h (execute_steps-Settled ss r'' (rw h at settled))
          | inr (x, h) ↦ rw h (rw h at settled)
        ]

-- How ExecuteRun answers and leaves the runs, by what the definition is parsed to.
abbrev pub Ends :
    ℕ
    → Result WorkflowDefinition
    → Result (Unit {0})
    → (before after : List WorkflowRunRow) → Type 0
Ends id (ok def) a before after = run_state id after ≡ some (final_state a)
Ends id (err x) a before after =
    (a ≡ err (wrapf "parsing workflow definition: " x)) × (after ≡ before)

module _ (w : World) (quiet : (n : ℕ) → w.fault n ≡ none) where
  -- Once the definition is parsed the run is ended: whatever its state was when it was read and when
  -- it was executed, it is stored as completed if nil is returned, else as failed.
  pub execute_parsed_outcome :
      (sch : Scheduler) (e : Engine) (run : WorkflowRunRow) (workflow : String)
      (def : WorkflowDefinition) (s : Store)
      → has_run run.id s.runs ≡ true
      → let (a, s') = execute_parsed w sch e run workflow def s in
        run_state run.id s'.runs ≡ some (final_state a)
  unfolding execute_parsed
  execute_parsed_outcome sch e run workflow def s present =
      let started = update_state w quiet run.id WorkflowState.running "" "" s present in
      let r : RunState = record {
        state = replayed_state run.step_states;
        step_states = run.step_states;
        store = (update_workflow_run_state w run.id WorkflowState.running "" "" s).1;
      } in
      let (a, r') = execute_steps w sch e run.id workflow run.input def.steps r in
      let settled =
        execute_steps-Settled w quiet run.id sch e workflow run.input def.steps r started.2 in
      rw (started.0, execute_parsed)
        (elim (Result-cases a) [
          | inl (_, h) ↦
              let ended =
                update_state w quiet run.id WorkflowState.completed "" "" r'.store
                  (rw h at settled) in
              rw (h, execute_parsed) (rw (ended.0, execute_parsed) ended.1)
          | inr (x, h) ↦ rw (h, execute_parsed) (rw h at settled)
        ])

  has_run-found :
      (id : ℕ) (rs : List WorkflowRunRow) {run : WorkflowRunRow}
      → find_first (λ r. r.id == id) rs ≡ some run
      → (run.id ≡ id) × (has_run id rs ≡ true)
  unfolding has_run
  has_run-found id [] found = absurd (cc found)
  has_run-found id (r ∷ rs) {run} found = elim (Bool-cases (r.id == id)) [
    | inl here ↦
        let same : r ≡ run = some_inj (rw here at found) in
        (ap (λ (x : WorkflowRunRow). x.id) (sym same) ∙ ground arith, rw here refl)
    | inr there ↦
        let rest = has_run-found id rs {run = run} (rw there at found) in (rest.0, rw there rest.1)
  ]

  pub execute_run-parsed :
      (sch : Scheduler) (e : Engine) (id : ℕ) (s : Store) {run : WorkflowRunRow}
      {def : WorkflowDefinitionRow}
      → find_first (λ r. r.id == id) s.runs ≡ some run
      → find_first (λ d. d.id == run.definition_id) s.definitions ≡ some def
      → execute_run w sch e id s
        ≡ parsed w sch e run def (parse_definition w sch e def.definition) (tick (tick s))
  unfolding execute_run get_workflow_run get_workflow_definition_by_id
  execute_run-parsed sch e id s {run} {def} found defined =
      rw (quiet s.event)
        (rw (found, execute_run) (rw (quiet (suc s.event)) (rw (defined, execute_run) refl)))

  -- On a database that does not fail, ExecuteRun of a run that the tables hold with its definition
  -- ends the run if the definition can be parsed: whatever the state of the run was, it is stored as
  -- completed if ExecuteRun returns nil, else as failed. If the definition cannot be parsed,
  -- ExecuteRun returns that error and leaves the runs as they are.
  pub execute_run_outcome :
      (sch : Scheduler) (e : Engine) (id : ℕ) (run : WorkflowRunRow) (def : WorkflowDefinitionRow)
      (s : Store)
      → find_first (λ r. r.id == id) s.runs ≡ some run
      → find_first (λ d. d.id == run.definition_id) s.definitions ≡ some def
      → let (a, s') = execute_run w sch e id s in
        Ends id (parse_definition w sch e def.definition) a s.runs s'.runs
  execute_run_outcome sch e id run def s found defined =
      let (same, present) = has_run-found id s.runs {run = run} found in
      rw (execute_run-parsed sch e id s {run = run} {def = def} found defined)
        (elim (Result-cases (parse_definition w sch e def.definition)) [
          | inr (x, broken) ↦ rw broken (refl, refl)
          | inl (d, fine) ↦ rw fine (
              subst
                (λ n.
                  run_state n (execute_parsed w sch e run def.name d (tick (tick s))).1.runs
                  ≡ some (final_state (execute_parsed w sch e run def.name d (tick (tick s))).0))
                same
                (execute_parsed_outcome sch e run def.name d (tick (tick s)) (rw same present)))
        ])
