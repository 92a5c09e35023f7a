-- ===== src/Client/LastStep.antt =====
-- What the last step of an id in a workflow was built with, and how the registrations of
-- registerWorkflowStep in client.go come to it.
use rivo.Prelude.{
  String, ◌≡◌, refl, sym, ap, ◌∙◌, Bool, true, false, Option, none, some, str_eq, if◌then◌else◌,
}
use rivo.Base.{Json}
use rivo.Engine.{Engine}
use rivo.Workflow.{
  StepType, parallel, sequential, conditional, fan_out, map_type, reduce_type, handler_type,
  StepFields, WorkflowStep, workflow_step, WorkflowSteps, nil, cons,
}
use rivo.Client.Register.{by_type, register_fields, register_workflow_step, register_workflow_steps}

abbrev pub or_else {ℓ} : {A : Type ℓ} → Option A → Option A → Option A
or_else none b = b
or_else (some a) b = some a

pub or_else_assoc {ℓ} :
    {A : Type ℓ} (a b c : Option A) → or_else a (or_else b c) ≡ or_else (or_else a b) c
or_else_assoc none b c = refl
or_else_assoc (some x) b c = refl

abbrev pub guarded {ℓ} : {A : Type ℓ} → Bool → Option A → Option A
guarded b o = if b then o else none

pub guarded-or_else {ℓ} :
    {A : Type ℓ} (b : Bool) (x y : Option A)
    → guarded b (or_else x y) ≡ or_else (guarded b x) (guarded b y)
guarded-or_else true x y = refl
guarded-or_else false x y = refl

pub guarded-none {ℓ} : {A : Type ℓ} (b : Bool) → guarded {A = A} b none ≡ none
guarded-none true = refl
guarded-none false = refl

-- The value of the last step with this id that has one, the children of a parallel step included.
module _ {ℓ} {B : Type ℓ} (get : StepFields → Option B) (id : String) where
  unfoldable mutual
    pub last_of_step : WorkflowStep → Option B
    last_of_step (workflow_step s cs) =
        by_type s.step_type (last_of cs) (guarded (str_eq s.id id) (get s))

    pub last_of : WorkflowSteps → Option B
    last_of nil = none
    last_of (cons s ss) = or_else (last_of ss) (last_of_step s)

-- A registry of the engine that each step writes for itself.
module _ {ℓ} {B : Type ℓ} (reread : Json → Json) (get : StepFields → Option B)
    (registry : Engine → String → String → Option B) (name workflow id : String)
    (write : (s : StepFields) (e : Engine)
      → registry (register_fields reread name s e) workflow id
        ≡ or_else
            (guarded (str_eq name workflow) (guarded (str_eq s.id id) (get s)))
            (registry e workflow id)) where
  registry_by_type :
      (t : StepType) (s : StepFields) (cs : WorkflowSteps) (e : Engine)
      → registry (register_workflow_steps reread name cs e) workflow id
        ≡ or_else (guarded (str_eq name workflow) (last_of get id cs)) (registry e workflow id)
      → registry (register_fields reread name s e) workflow id
        ≡ or_else
            (guarded (str_eq name workflow) (guarded (str_eq s.id id) (get s)))
            (registry e workflow id)
      → registry
          (by_type t (register_workflow_steps reread name cs e) (register_fields reread name s e))
          workflow
          id
        ≡ or_else
            (guarded
              (str_eq name workflow)
              (by_type t (last_of get id cs) (guarded (str_eq s.id id) (get s))))
            (registry e workflow id)
  registry_by_type parallel s cs e h k = h
  registry_by_type sequential s cs e h k = k
  registry_by_type conditional s cs e h k = k
  registry_by_type fan_out s cs e h k = k
  registry_by_type map_type s cs e h k = k
  registry_by_type reduce_type s cs e h k = k
  registry_by_type handler_type s cs e h k = k

  mutual
    unfolding register_workflow_steps last_of

    pub registry-step :
        (s : WorkflowStep) (e : Engine)
        → registry (register_workflow_step reread name s e) workflow id
          ≡ or_else
              (guarded (str_eq name workflow) (last_of_step get id s))
              (registry e workflow id)
    registry-step (workflow_step s cs) e =
        registry_by_type s.step_type s cs e (registry-steps cs e) (write s e)

    pub registry-steps :
        (ss : WorkflowSteps) (e : Engine)
        → registry (register_workflow_steps reread name ss e) workflow id
          ≡ or_else (guarded (str_eq name workflow) (last_of get id ss)) (registry e workflow id)
    registry-steps nil e =
        sym (ap (λ x. or_else x (registry e workflow id)) (guarded-none (str_eq name workflow)))
    registry-steps (cons s ss) e =
        registry-steps ss (register_workflow_step reread name s e)
        ∙ ap (or_else (guarded (str_eq name workflow) (last_of get id ss))) (registry-step s e)
        ∙ or_else_assoc (guarded (str_eq name workflow) (last_of get id ss)) _ _
        ∙ ap (λ x. or_else x (registry e workflow id))
            (sym (guarded-or_else (str_eq name workflow) _ _))
