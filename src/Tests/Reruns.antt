-- ===== src/Tests/Reruns.antt =====
-- Rerunning a step of a run.
use rivo.Prelude.{◌≡◌, refl, false, none, some, [], ◌∷◌}
use rivo.Base.{ok}
use rivo.Workflow.{Workflow, WorkflowFunc, WorkflowSteps, nil, cons, workflow_step, steps, StepType}
use rivo.Workflow.Builder.{bare_step, new_workflow}
use rivo.Engine.Run.{is_completed}
use rivo.Client.Rerun.{step_index, reset_states}
use rivo.Client.Reset.{attempt_of, reset_states-rerun}
use rivo.Tests.{charged}

abbrev no_work : WorkflowFunc
no_work c n = (none, ok tt)

abbrev order_steps : WorkflowSteps
order_steps =
    cons
      (workflow_step
        (record (bare_step "charge" "charge" StepType.sequential) { handler = some no_work }) nil)
      (cons
        (workflow_step (bare_step "parallel_1" "" StepType.parallel) (
          cons (workflow_step (bare_step "mail" "mail" StepType.sequential) nil)
            (cons (workflow_step (bare_step "ship" "ship" StepType.sequential) nil) nil)))
        nil)

abbrev order_workflow : Workflow
order_workflow = record (new_workflow "order") { steps = order_steps }

listed : steps order_steps ≡ "charge" ∷ "mail" ∷ "ship" ∷ []
unfolding steps
listed = refl

reset_states-rerun_example :
    (is_completed (reset_states ("charge" ∷ "mail" ∷ "ship" ∷ []) 0 charged "charge") ≡ false)
    × (attempt_of (reset_states ("charge" ∷ "mail" ∷ "ship" ∷ []) 0 charged "charge") ≡ some 1)
unfolding step_index
reset_states-rerun_example =
    reset_states-rerun ("charge" ∷ "mail" ∷ "ship" ∷ []) "charge" "charge" 0 charged refl
