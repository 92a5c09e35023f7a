-- ===== src/Store/Runs.antt =====
-- The workflow statements of internal/db/db.go: definitions and runs.
use rivo.Prelude.{
  ℕ, suc, String, Bool, true, false, ◌&&◌, Option, none, some, List, [], ◌∷◌, ◌++◌, map, str_eq,
  ltb, ◌==◌, if◌then◌else◌, select, find_first, sort_by,
}
use rivo.Base.{wrapf, ok, RawMessage}
use rivo.Store.Rows.{
  Time, WorkflowDefinitionRow, WorkflowState, pending, running, completed, failed, cancelled,
  StepStates, WorkflowRunRow,
}
use rivo.Store.Statement.{World, M, with_error, statement}

abbrev pub is_definition : (namespace name : String) → ℕ → WorkflowDefinitionRow → Bool
is_definition namespace name version d =
    str_eq d.namespace namespace && str_eq d.name name && d.version == version

abbrev pub new_definition :
    ℕ → Time → (name namespace : String) → RawMessage → WorkflowDefinitionRow
new_definition id now name namespace definition = record {
  id = id;
  name = name;
  version = 1;
  namespace = namespace;
  definition = definition;
  created_at = now;
}

-- `INSERT ... ON CONFLICT (namespace, name, version) DO UPDATE SET definition`: the version is the
-- column's default, 1, so that a second registration rewrites the row of the first.
unfoldable pub insert_workflow_definition :
    World → (name namespace : String) → RawMessage → M WorkflowDefinitionRow
unfolding statement
insert_workflow_definition w name namespace definition =
    with_error (wrapf "inserting workflow definition: ") (
      statement w (λ now s.
        let row = new_definition s.next_id now name namespace definition in
        elim (find_first (is_definition namespace name 1) s.definitions) [
          | none ↦ (
            ok row,
            record s { definitions = s.definitions ++ row ∷ []; next_id = suc s.next_id },
          )
          | some d ↦ (
            ok (record d { definition = definition }),
            record s {
              definitions =
                  map
                    (λ x.
                      if is_definition namespace name 1 x
                      then record x { definition = definition }
                      else x)
                    s.definitions;
            },
          )
        ]))

unfoldable pub get_workflow_definition_by_id : World → ℕ → M (Option WorkflowDefinitionRow)
unfolding statement
get_workflow_definition_by_id w id =
    with_error (wrapf "getting workflow definition by ID: ")
      (statement w (λ now s. (ok (find_first (λ d. d.id == id) s.definitions), s)))

abbrev version_before : WorkflowDefinitionRow → WorkflowDefinitionRow → Bool
version_before a b = ltb b.version a.version

-- `ORDER BY version DESC LIMIT 1`
abbrev first_row {ℓ} : {A : Type ℓ} → List A → Option A
first_row [] = none
first_row (x ∷ xs) = some x

unfoldable pub get_workflow_definition :
    World → (namespace name : String) → M (Option WorkflowDefinitionRow)
unfolding statement
get_workflow_definition w namespace name = with_error (wrapf "getting workflow definition: ") (
    statement w (λ now s. (
      ok (
          first_row (
            sort_by version_before
              (select (λ d. str_eq d.namespace namespace && str_eq d.name name) s.definitions))),
      s,
    )))

abbrev pub new_run : ℕ → Time → ℕ → String → RawMessage → StepStates → WorkflowRunRow
new_run id now definition_id namespace input step_states = record {
  id = id;
  definition_id = definition_id;
  namespace = namespace;
  state = pending;
  input = input;
  output = none;
  step_states = step_states;
  error = none;
  started_at = none;
  completed_at = none;
  created_at = now;
  updated_at = now;
}

unfoldable pub create_workflow_run :
    World → (definition_id : ℕ) → (namespace : String) → RawMessage → StepStates → M WorkflowRunRow
unfolding statement
create_workflow_run w definition_id namespace input step_states =
    with_error (wrapf "creating workflow run: ") (
      statement w (λ now s.
        let row = new_run s.next_id now definition_id namespace input step_states in
        (ok row, record s { runs = s.runs ++ row ∷ []; next_id = suc s.next_id })))

unfoldable pub update_run :
    ℕ → (WorkflowRunRow → WorkflowRunRow) → List WorkflowRunRow → List WorkflowRunRow
update_run id f = map (λ r. if r.id == id then f r else r)

abbrev pub starts : WorkflowState → Bool
starts running = true
starts _ = false

abbrev pub ends : WorkflowState → Bool
ends completed = true
ends failed = true
ends cancelled = true
ends _ = false

abbrev pub coalesce {ℓ} : {A : Type ℓ} → Option A → Option A → Option A
coalesce none y = y
coalesce (some x) y = some x

-- The SET clause of UpdateWorkflowRunState. An empty message is passed as NULL, so that it keeps
-- the error; the current step is not stored.
abbrev pub set_run_state : Time → WorkflowState → (msg : String) → WorkflowRunRow → WorkflowRunRow
set_run_state now state msg r = record r {
  state = state;
  started_at = if starts state then coalesce r.started_at (some now) else r.started_at;
  completed_at = if ends state then some now else r.completed_at;
  error = coalesce (if str_eq msg "" then none else some msg) r.error;
  updated_at = now;
}

unfoldable pub update_workflow_run_state :
    World → ℕ → WorkflowState → (current_step msg : String) → M (Unit {0})
unfolding statement update_run
update_workflow_run_state w id state current_step msg =
    statement w
      (λ now s. (ok tt, record s { runs = update_run id (set_run_state now state msg) s.runs }))

unfoldable pub update_workflow_run_step_states : World → ℕ → StepStates → M (Unit {0})
unfolding statement update_run
update_workflow_run_step_states w id step_states = statement w (λ now s. (
  ok tt,
  record s {
    runs = update_run id (λ r. record r { step_states = step_states; updated_at = now }) s.runs;
  },
))

unfoldable pub update_workflow_run_output : World → ℕ → RawMessage → M (Unit {0})
unfolding statement update_run
update_workflow_run_output w id output = statement w (λ now s. (
  ok tt,
  record s { runs = update_run id (λ r. record r { output = output; updated_at = now }) s.runs },
))

unfoldable pub get_workflow_run : World → ℕ → M (Option WorkflowRunRow)
unfolding statement
get_workflow_run w id =
    with_error (wrapf "getting workflow run: ")
      (statement w (λ now s. (ok (find_first (λ r. r.id == id) s.runs), s)))

unfoldable pub reset_workflow_step_for_rerun : World → ℕ → StepStates → M (Unit {0})
unfolding statement update_run
reset_workflow_step_for_rerun w id step_states = statement w (λ now s. (
  ok tt,
  record s {
    runs =
        update_run id
          (λ r. record r {
            step_states = step_states;
            state = running;
            completed_at = none;
            error = some "";
            updated_at = now;
          })
          s.runs;
  },
))
