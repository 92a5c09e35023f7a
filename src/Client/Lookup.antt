-- ===== src/Client/Lookup.antt =====
-- What the engine finds for a step of a workflow that RegisterWorkflow of client.go registered.
use rivo.Prelude.{
  String, ◌≡◌, refl, sym, ap, ◌∙◌, Bool, Option, none, some, List, inl, inr, arith, Bool-cases,
  str_eq, eq_iff,
}
use rivo.Base.{Json, Any}
use rivo.Engine
use rivo.Engine.{
  Engine, StepHandler, ConditionFunc, Handler, register_step, register_condition, register_fan_out,
  register_map, register_reduce, register,
}
use rivo.Workflow.{StepFields, WorkflowSteps, ReduceConfig}
use rivo.Client.Register.{
  adapted_handler, adapted_condition, adapted_slice, adapted_value, adapted_fan_out, if_some,
  register_fields, register_workflow_steps,
}
use rivo.Client.LastStep.{or_else, guarded, guarded-none, last_of, registry-steps}

register_lem {ℓ} :
    {A : Type ℓ} (m : String → String → Option A) (name step_id : String) (a : A)
    (workflow id : String)
    → register m name step_id a workflow id
      ≡ or_else
          (guarded (str_eq name workflow) (guarded (str_eq step_id id) (some a)))
          (m workflow id)
register_lem m name step_id a workflow id = elim (Bool-cases (str_eq name workflow)) [
  | inl same ↦ rw same (ground (arith, ap (λ x. m x id) ((eq_iff name workflow).0 same)))
  | inr apart ↦ rw apart refl
]

-- A registration elsewhere leaves a registry alone.
if_some_keep {ℓ κ} :
    {A : Type ℓ} {C : Type κ} (p : Engine → C) (f : A → Engine → Engine)
    → ((a : A) (e : Engine) → p (f a e) ≡ p e)
    → (o : Option A) (e : Engine) → p (if_some f o e) ≡ p e
if_some_keep p f keep none e = refl
if_some_keep p f keep (some a) e = keep a e

abbrev pub map_some {ℓ κ} : {A : Type ℓ} {B : Type κ} → (A → B) → Option A → Option B
map_some f none = none
map_some f (some a) = some (f a)

-- A registration in a registry, of a value that may be missing.
if_some_set {ℓ κ} :
    {A : Type ℓ} {B : Type κ} (p : Engine → Option B) (b c : Bool) (g : A → B)
    (f : A → Engine → Engine)
    → ((a : A) (e : Engine) → p (f a e) ≡ or_else (guarded b (guarded c (some (g a)))) (p e))
    → (o : Option A) (e : Engine)
    → p (if_some f o e) ≡ or_else (guarded b (guarded c (map_some g o))) (p e)
if_some_set p b c g f set none e =
    sym (ap (λ x. or_else x (p e)) (ap (guarded b) (guarded-none c) ∙ guarded-none b))
if_some_set p b c g f set (some a) e = set a e

abbrev pub step_handler_of : (reread : Json → Json) → StepFields → Option StepHandler
step_handler_of reread s = map_some (adapted_handler reread) s.handler

abbrev pub condition_of : StepFields → Option ConditionFunc
condition_of s = map_some adapted_condition s.condition

abbrev pub fan_out_of : StepFields → Option Engine.FanOutHandler
fan_out_of s = map_some adapted_fan_out s.fan_out_config

abbrev pub map_handler_of : StepFields → Option (Handler (Option (List Any)))
map_handler_of s = map_some adapted_slice s.map_func

abbrev pub adapted_reduce : ReduceConfig → Handler Any
adapted_reduce c = adapted_value c.reduce_func

abbrev pub reduce_handler_of : StepFields → Option (Handler Any)
reduce_handler_of s = map_some adapted_reduce s.reduce_config

module _ (reread : Json → Json) (name workflow id : String) where
  handlers-register_fields :
      (s : StepFields) (e : Engine)
      → (register_fields reread name s e).handlers workflow id
        ≡ or_else
            (guarded (str_eq name workflow) (guarded (str_eq s.id id) (step_handler_of reread s)))
            (e.handlers workflow id)
  unfolding register_fields register_step register_condition register_fan_out register_map
      register_reduce
  handlers-register_fields s e =
      let p = λ (x : Engine). x.handlers workflow id in
      if_some_keep p _ (λ a x. refl) s.reduce_config _
      ∙ if_some_keep p _ (λ a x. refl) s.map_func _
      ∙ if_some_keep p _ (λ a x. refl) s.fan_out_config _
      ∙ if_some_keep p _ (λ a x. refl) s.condition _
      ∙ if_some_set p (str_eq name workflow) (str_eq s.id id) (adapted_handler reread) _
          (λ a x. register_lem x.handlers name s.id (adapted_handler reread a) workflow id)
          s.handler e

  conditions-register_fields :
      (s : StepFields) (e : Engine)
      → (register_fields reread name s e).conditions workflow id
        ≡ or_else
            (guarded (str_eq name workflow) (guarded (str_eq s.id id) (condition_of s)))
            (e.conditions workflow id)
  unfolding register_fields register_step register_condition register_fan_out register_map
      register_reduce
  conditions-register_fields s e =
      let p = λ (x : Engine). x.conditions workflow id in
      if_some_keep p _ (λ a x. refl) s.reduce_config _
      ∙ if_some_keep p _ (λ a x. refl) s.map_func _
      ∙ if_some_keep p _ (λ a x. refl) s.fan_out_config _
      ∙ if_some_set p (str_eq name workflow) (str_eq s.id id) adapted_condition _
          (λ a x. register_lem x.conditions name s.id (adapted_condition a) workflow id) s.condition
          _
      ∙ ap (or_else _) (if_some_keep p _ (λ a x. refl) s.handler e)

  fan_out_handlers-register_fields :
      (s : StepFields) (e : Engine)
      → (register_fields reread name s e).fan_out_handlers workflow id
        ≡ or_else
            (guarded (str_eq name workflow) (guarded (str_eq s.id id) (fan_out_of s)))
            (e.fan_out_handlers workflow id)
  unfolding register_fields register_step register_condition register_fan_out register_map
      register_reduce
  fan_out_handlers-register_fields s e =
      let p = λ (x : Engine). x.fan_out_handlers workflow id in
      if_some_keep p _ (λ a x. refl) s.reduce_config _
      ∙ if_some_keep p _ (λ a x. refl) s.map_func _
      ∙ if_some_set p (str_eq name workflow) (str_eq s.id id) adapted_fan_out _
          (λ a x. register_lem x.fan_out_handlers name s.id (adapted_fan_out a) workflow id)
          s.fan_out_config _
      ∙ ap (or_else _) (
          if_some_keep p _ (λ a x. refl) s.condition _ ∙ if_some_keep p _ (λ a x. refl) s.handler e)

  map_handlers-register_fields :
      (s : StepFields) (e : Engine)
      → (register_fields reread name s e).map_handlers workflow id
        ≡ or_else
            (guarded (str_eq name workflow) (guarded (str_eq s.id id) (map_handler_of s)))
            (e.map_handlers workflow id)
  unfolding register_fields register_step register_condition register_fan_out register_map
      register_reduce
  map_handlers-register_fields s e =
      let p = λ (x : Engine). x.map_handlers workflow id in
      if_some_keep p _ (λ a x. refl) s.reduce_config _
      ∙ if_some_set p (str_eq name workflow) (str_eq s.id id) adapted_slice _
          (λ a x. register_lem x.map_handlers name s.id (adapted_slice a) workflow id) s.map_func _
      ∙ ap (or_else _) (
          if_some_keep p _ (λ a x. refl) s.fan_out_config _
          ∙ if_some_keep p _ (λ a x. refl) s.condition _
          ∙ if_some_keep p _ (λ a x. refl) s.handler e)

  reduce_handlers-register_fields :
      (s : StepFields) (e : Engine)
      → (register_fields reread name s e).reduce_handlers workflow id
        ≡ or_else
            (guarded (str_eq name workflow) (guarded (str_eq s.id id) (reduce_handler_of s)))
            (e.reduce_handlers workflow id)
  unfolding register_fields register_step register_condition register_fan_out register_map
      register_reduce
  reduce_handlers-register_fields s e =
      let p = λ (x : Engine). x.reduce_handlers workflow id in
      if_some_set p (str_eq name workflow) (str_eq s.id id) adapted_reduce _
        (λ a x. register_lem x.reduce_handlers name s.id (adapted_reduce a) workflow id)
        s.reduce_config _
      ∙ ap (or_else _) (
          if_some_keep p _ (λ a x. refl) s.map_func _
          ∙ if_some_keep p _ (λ a x. refl) s.fan_out_config _
          ∙ if_some_keep p _ (λ a x. refl) s.condition _
          ∙ if_some_keep p _ (λ a x. refl) s.handler e)

  -- After RegisterWorkflow, the engine finds, for a step of that workflow, what the last step with
  -- that id, children of parallel steps included, was built with, and where no such step has it,
  -- what it found before; for other workflows it finds what it found before.
  pub register_workflow_steps_lem :
      (ss : WorkflowSteps) (e : Engine)
      → let e' = register_workflow_steps reread name ss e in
        let same = str_eq name workflow in
        (e'.handlers workflow id
          ≡ or_else
              (guarded same (last_of (step_handler_of reread) id ss))
              (e.handlers workflow id))
        × (e'.conditions workflow id
            ≡ or_else (guarded same (last_of condition_of id ss)) (e.conditions workflow id))
        × (e'.fan_out_handlers workflow id
            ≡ or_else (guarded same (last_of fan_out_of id ss)) (e.fan_out_handlers workflow id))
        × (e'.map_handlers workflow id
            ≡ or_else (guarded same (last_of map_handler_of id ss)) (e.map_handlers workflow id))
        × (e'.reduce_handlers workflow id
            ≡ or_else
                (guarded same (last_of reduce_handler_of id ss))
                (e.reduce_handlers workflow id))
  register_workflow_steps_lem ss e = (
    registry-steps reread (step_handler_of reread) (λ x. x.handlers) name workflow id
        handlers-register_fields ss e,
    registry-steps reread condition_of (λ x. x.conditions) name workflow id
        conditions-register_fields ss e,
    registry-steps reread fan_out_of (λ x. x.fan_out_handlers) name workflow id
        fan_out_handlers-register_fields ss e,
    registry-steps reread map_handler_of (λ x. x.map_handlers) name workflow id
        map_handlers-register_fields ss e,
    registry-steps reread reduce_handler_of (λ x. x.reduce_handlers) name workflow id
        reduce_handlers-register_fields ss e,
  )
