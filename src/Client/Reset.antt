-- ===== src/Client/Reset.antt =====
-- What RerunWorkflowStep of client.go resets and what it refuses.
use rivo.Prelude.{
  ℕ, suc, String, true, false, ◌≡◌, refl, Option, none, some, List, [], ◌∷◌, inl, inr, arith,
  Option-cases, ◌≤◌, ◌==◌, find_first,
}
use rivo.Base.{ok, err, message}
use rivo.Store.{StepRunState, StepStates, WorkflowRunRow, WorkflowDefinitionRow, World, Store}
use rivo.Workflow.{Workflow}
use rivo.Engine.{Engine, Scheduler}
use rivo.Engine.Run.{is_completed}
use rivo.Client.Rerun.{
  may_rerun, step_index, found_from, reset_states, rerun_workflow_step, get_run, workflow_name,
  workflow_run_from_row,
}
use rivo.Store.Runs.{get_workflow_run, get_workflow_definition_by_id}

step_index-found_from :
    (id : String) (i : ℕ) (ids : List String) (index : ℕ)
    → step_index id i ids ≡ some index
    → (i ≤ index) × (found_from index id i ids ≡ true)
unfolding step_index found_from
step_index-found_from id i [] index found = absurd (cc found)
step_index-found_from id i (x ∷ xs) index found =
    let ih = step_index-found_from id (suc i) xs index in ground arith

-- The attempt that is recorded for a step, if one is.
abbrev pub attempt_of : Option StepRunState → Option ℕ
attempt_of none = none
attempt_of (some st) = some st.attempt

reset_attempt :
    (ids : List String) (index : ℕ) (states : StepStates) (id : String)
    → attempt_of (reset_states ids index states id) ≡ attempt_of (states id)
unfolding reset_states
reset_attempt ids index states id = ground arith

-- The step that is rerun is executed again: it is not recorded as completed after the reset, even
-- if it was before. The reset keeps the number of attempts of every step.
pub reset_states-rerun :
    (ids : List String) (id other : String) (index : ℕ) (states : StepStates)
    → step_index id 0 ids ≡ some index
    → (is_completed (reset_states ids index states id) ≡ false)
      × (attempt_of (reset_states ids index states other) ≡ attempt_of (states other))
unfolding reset_states
reset_states-rerun ids id other index states found =
    let (_, reset) = step_index-found_from id 0 ids index found in
    (
      elim (Option-cases (states id)) [
        | inl unknown ↦ rw (unknown, reset_states) refl
        | inr (st, known) ↦ rw (known, reset_states) (rw reset refl)
      ],
      reset_attempt ids index states other,
    )

module _ (w : World) (quiet : (n : ℕ) → w.fault n ≡ none) where
  get_run-found :
      (id : ℕ) (s : Store) {row : WorkflowRunRow}
      → find_first (λ (r : WorkflowRunRow). r.id == id) s.runs ≡ some row
      → let (a, s') = get_run w id s in
        (name : String) × (a ≡ ok (some (workflow_run_from_row row name))) × (s'.runs ≡ s.runs)
  unfolding get_run get_workflow_run get_workflow_definition_by_id
  get_run-found id s {row} found = (
    workflow_name
        (find_first (λ (d : WorkflowDefinitionRow). d.id == row.definition_id) s.definitions),
    rw (quiet s.event) (rw (found, get_run) (rw (quiet (suc s.event)) refl)),
    rw (quiet s.event) (rw (found, get_run) (rw (quiet (suc s.event)) refl)),
  )

  -- On a database that does not fail, RerunWorkflowStep refuses a run that is neither failed nor
  -- cancelled, and leaves the table of runs as it is.
  pub rerun_workflow_step-refused :
      (sch : Scheduler) (e : Engine) (workflows : String → Option Workflow) (id : ℕ)
      (step_id : String) (s : Store) {row : WorkflowRunRow}
      → find_first (λ (r : WorkflowRunRow). r.id == id) s.runs ≡ some row
      → may_rerun row.state ≡ false
      → let (a, s') = rerun_workflow_step w sch e workflows id step_id s in
        (a ≡ err (message "workflow must be in failed or cancelled state to rerun steps"))
        × (s'.runs ≡ s.runs)
  unfolding rerun_workflow_step
  rerun_workflow_step-refused sch e workflows id step_id s {row} found busy =
      let (name, got, same) = get_run-found id s found in
      (
        rw (got, rerun_workflow_step) (rw (busy, rerun_workflow_step) refl),
        rw (got, rerun_workflow_step) (rw (busy, rerun_workflow_step) same),
      )
