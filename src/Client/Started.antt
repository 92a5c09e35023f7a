-- ===== src/Client/Started.antt =====
-- StartWorkflow of client.go and the execution that it starts, together.
use rivo.Prelude.{
  ℕ, suc, String, ◌≡◌, refl, true, false, ◌||◌, ◌⊎◌, inl, inr, Option, none, some, List, [], ◌∷◌,
  ◌++◌, arith, Bool-cases, find_first, find_first-append, ltb, str_eq, ◌==◌, ==_refl,
}
use rivo.Base.{Result, ok, err, Json, Any, marshal}
use rivo.Store.{Duration, World, Store, WorkflowState, WorkflowRunRow, WorkflowDefinitionRow, tick}
use rivo.Store.Runs.{
  insert_workflow_definition, create_workflow_run, is_definition, new_definition, new_run,
}
use rivo.Engine.{Engine, Scheduler, WorkflowDefinition}
use rivo.Engine.Run.{execute_parsed, parsed}
use rivo.Engine.Outcome.{
  has_run, run_state, final_state, execute_parsed_outcome, execute_run-parsed,
}
use rivo.Definition.{encode_definition}
use rivo.Definition.Decode.{decode_definition}
use rivo.Workflow.{Workflow, WorkflowRun, steps}
use rivo.Client.Rerun.{workflow_run_from_row}
use rivo.Workflow.Serialize.{serialize_workflow_definition}
use rivo.Workflow.Meaning.{are_timed, decode-serialize_workflow_definition}
use rivo.Client.Start.{start_workflow, initial_states}

run_state-find_first :
    (id : ℕ) (rs : List WorkflowRunRow) {run : WorkflowRunRow}
    → find_first (λ (r : WorkflowRunRow). r.id == id) rs ≡ some run
    → (run_state id rs ≡ some run.state) × (has_run id rs ≡ true) × (run.id ≡ id)
unfolding run_state has_run
run_state-find_first id [] h = absurd (cc h)
run_state-find_first id (r ∷ rs) {run} h =
    let ih = run_state-find_first id rs {run = run} in ground arith

-- The state in which StartWorkflow leaves a run whose definition is decoded like this.
abbrev pub Started : (id : ℕ) → Result WorkflowDefinition → Store → Type 0
Started id (err x) s = run_state id s.runs ≡ some WorkflowState.pending
Started id (ok d) s =
    (run_state id s.runs ≡ some WorkflowState.completed)
    ⊎ (run_state id s.runs ≡ some WorkflowState.failed)

module _ (w : World) (quiet : (n : ℕ) → w.fault n ≡ none) (sch : Scheduler) (e : Engine) where
  ended_state :
      (id : ℕ) (a : Result (Unit {0})) (rs : List WorkflowRunRow)
      → run_state id rs ≡ some (final_state a)
      → (run_state id rs ≡ some WorkflowState.completed)
        ⊎ (run_state id rs ≡ some WorkflowState.failed)
  ended_state id (ok _) rs h = inl h
  ended_state id (err x) rs h = inr h

  parsed-Started :
      (run : WorkflowRunRow) (d : WorkflowDefinitionRow) (r : Result WorkflowDefinition) (s : Store)
      → run_state run.id s.runs ≡ some WorkflowState.pending
      → has_run run.id s.runs ≡ true
      → Started run.id r (parsed w sch e run d r s).1
  parsed-Started run d (err x) s waits there = waits
  parsed-Started run d (ok def) s waits there =
      let (a, s') = execute_parsed w sch e run d.name def s in
      ended_state run.id a s'.runs (execute_parsed_outcome w quiet sch e run d.name def s there)

  module _ (show : Duration → String) (namespace : String) where
    -- The first start of a workflow, when the next ids are free.
    start_workflow-Started :
        (workflows : String → Option Workflow) (name : String) (input : Any) (s : Store)
        {wf : Workflow} {j : Json}
        → workflows name ≡ some wf
        → marshal input ≡ ok j
        → find_first (is_definition namespace wf.name 1) s.definitions ≡ none
        → find_first (λ (x : WorkflowDefinitionRow). x.id == s.next_id) s.definitions ≡ none
        → find_first (λ (r : WorkflowRunRow). r.id == suc s.next_id) s.runs ≡ none
        → let (a, s') = start_workflow show w sch e namespace workflows name input s in
          (answered : WorkflowRun) × (a ≡ ok answered)
          × Started answered.id
              (decode_definition (encode_definition (serialize_workflow_definition show wf)))
              s'
    unfolding start_workflow insert_workflow_definition create_workflow_run
    start_workflow-Started workflows name input s {wf} {j} known body fresh free free_run =
        let now = w.clock s.event in
        let def : WorkflowDefinitionRow =
          new_definition s.next_id now wf.name namespace
            (some (encode_definition (serialize_workflow_definition show wf))) in
        let run =
          new_run (suc s.next_id) (w.clock (suc s.event)) s.next_id namespace (some j)
            (initial_states (steps wf.steps)) in
        let s1 : Store = record s {
          definitions = s.definitions ++ def ∷ [];
          next_id = suc s.next_id;
          event = suc s.event;
        } in
        let s2 : Store = record s1 {
          runs = s.runs ++ run ∷ [];
          next_id = suc (suc s.next_id);
          event = suc (suc s.event);
        } in
        let there =
          find_first-append (λ (r : WorkflowRunRow). r.id == suc s.next_id) s.runs run free_run
            (==_refl (suc s.next_id)) in
        let found =
          find_first-append (λ (x : WorkflowDefinitionRow). x.id == s.next_id) s.definitions def
            free (==_refl s.next_id) in
        let (waits, present, _) = run_state-find_first (suc s.next_id) s2.runs {run = run} there in
        (
          workflow_run_from_row run wf.name,
          rw (known, start_workflow)
              (rw (body, start_workflow)
                (rw (quiet s.event) (rw (fresh, start_workflow) (rw (quiet (suc s.event)) refl)))),
          rw (known, start_workflow)
              (rw (body, start_workflow)
                (rw (quiet s.event) (
                  rw (fresh, start_workflow)
                    (rw (quiet (suc s.event)) (
                      rw
                        (execute_run-parsed w quiet sch e (suc s.next_id) s2 {run = run} {def = def}
                          there found)
                        (parsed-Started run def _ (tick (tick s2)) waits present)))))),
        )

    -- On a database that does not fail, the first start of a known workflow, with an input that JSON
    -- accepts and while the next ids are free, returns a run. If the workflow, a step, or a child of
    -- a parallel step has a timeout, that run stays pending; otherwise it ends completed or failed.
    pub start_workflow_lem :
        (workflows : String → Option Workflow) (name : String) (input : Any) (s : Store)
        {wf : Workflow} {j : Json}
        → ((d : Duration) → str_eq (show d) "" ≡ false)
        → workflows name ≡ some wf
        → marshal input ≡ ok j
        → find_first (is_definition namespace wf.name 1) s.definitions ≡ none
        → find_first (λ (x : WorkflowDefinitionRow). x.id == s.next_id) s.definitions ≡ none
        → find_first (λ (r : WorkflowRunRow). r.id == suc s.next_id) s.runs ≡ none
        → let (a, s') = start_workflow show w sch e namespace workflows name input s in
          (answered : WorkflowRun) × (a ≡ ok answered)
          × (((are_timed wf.steps || ltb 0 wf.timeout) ≡ true)
                × (run_state answered.id s'.runs ≡ some WorkflowState.pending)
              ⊎ ((are_timed wf.steps || ltb 0 wf.timeout) ≡ false)
                × ((run_state answered.id s'.runs ≡ some WorkflowState.completed)
                    ⊎ (run_state answered.id s'.runs ≡ some WorkflowState.failed)))
    start_workflow_lem workflows name input s {wf} {j} shown known body fresh free free_run =
        let (row, answer, started) =
          start_workflow-Started workflows name input s {wf = wf} {j = j} known body fresh free
            free_run in
        let decoded = decode-serialize_workflow_definition show shown wf in
        (
          row,
          answer,
          elim (Bool-cases (are_timed wf.steps || ltb 0 wf.timeout)) [
            | inl timed ↦ inl (timed, rw (decoded, timed) at started)
            | inr untimed ↦ inr (untimed, rw (decoded, untimed) at started)
          ],
        )
