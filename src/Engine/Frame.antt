-- ===== src/Engine/Frame.antt =====
-- What executing a step of internal/workflow/engine.go leaves alone.
use rivo.Prelude.{ℕ, String, ◌≡◌, refl, Bool, true, false, arith, inl, inr, Bool-cases, str_eq}
use rivo.Base.{RawMessage}
use rivo.Store.{World}
use rivo.Engine.{
  StepType, sequential, parallel, conditional, fan_out, map_type, reduce_type, handler_type,
  unknown, StepInfo, Engine, RunState, Scheduler, StepDefinition, StepDefinitions, step_info,
  children_of,
}
use rivo.Engine.Run.{is_completed, dispatch, execute_step}
use rivo.Engine.Steps.{
  execute_sequential_step, execute_conditional_step, execute_map_step, execute_reduce_step,
  execute_handler_step,
}

module _ (w : World) (e : Engine) (run_id : ℕ) (workflow : String) (step : StepInfo)
    (input : RawMessage) where
  module _ (other : String) (apart : str_eq step.id other ≡ false) where
    pub sequential_states :
        (r : RunState)
        → (execute_sequential_step w e run_id workflow step input r).1.step_states other
          ≡ r.step_states other
    unfolding execute_sequential_step
    sequential_states r = ground arith

    pub sequential_outputs :
        (r : RunState)
        → (execute_sequential_step w e run_id workflow step input r).1.state other ≡ r.state other
    unfolding execute_sequential_step
    sequential_outputs r = ground arith

    conditional_states :
        (r : RunState)
        → (execute_conditional_step w e run_id workflow step input r).1.step_states other
          ≡ r.step_states other
    unfolding execute_conditional_step
    conditional_states r = ground arith

    conditional_outputs :
        (r : RunState)
        → (execute_conditional_step w e run_id workflow step input r).1.state other ≡ r.state other
    unfolding execute_conditional_step
    conditional_outputs r = ground arith

    map_frame :
        (r : RunState)
        → ((execute_map_step w e run_id workflow step input r).1.step_states other
            ≡ r.step_states other)
          × ((execute_map_step w e run_id workflow step input r).1.state other ≡ r.state other)
    unfolding execute_map_step
    map_frame r = (ground arith, ground arith)

    reduce_frame :
        (r : RunState)
        → ((execute_reduce_step w e run_id workflow step input r).1.step_states other
            ≡ r.step_states other)
          × ((execute_reduce_step w e run_id workflow step input r).1.state other ≡ r.state other)
    unfolding execute_reduce_step
    reduce_frame r = (ground arith, ground arith)

    handler_frame :
        (r : RunState)
        → ((execute_handler_step w e run_id workflow step input r).1.step_states other
            ≡ r.step_states other)
          × ((execute_handler_step w e run_id workflow step input r).1.state other ≡ r.state other)
    unfolding execute_handler_step
    handler_frame r = (ground arith, ground arith)

-- Whether a step runs on its own goroutine alone.
abbrev pub is_single : StepType → Bool
is_single parallel = false
is_single fan_out = false
is_single _ = true

module _ (w : World) (sch : Scheduler) (e : Engine) (run_id : ℕ) (workflow : String)
    (input : RawMessage) where
  dispatch_frame :
      (t : StepType) (step : StepInfo) (children : StepDefinitions) (other : String) (r : RunState)
      → is_single t ≡ true
      → str_eq step.id other ≡ false
      → let r' = (dispatch w sch e run_id workflow input t step children r).1 in
        (r'.step_states other ≡ r.step_states other) × (r'.state other ≡ r.state other)
  unfolding dispatch
  dispatch_frame sequential step children other r single apart = (
    sequential_states w e run_id workflow step input other apart r,
    sequential_outputs w e run_id workflow step input other apart r,
  )
  dispatch_frame (unknown n) step children other r single apart = (
    sequential_states w e run_id workflow step input other apart r,
    sequential_outputs w e run_id workflow step input other apart r,
  )
  dispatch_frame conditional step children other r single apart = (
    conditional_states w e run_id workflow step input other apart r,
    conditional_outputs w e run_id workflow step input other apart r,
  )
  dispatch_frame map_type step children other r single apart =
      map_frame w e run_id workflow step input other apart r
  dispatch_frame reduce_type step children other r single apart =
      reduce_frame w e run_id workflow step input other apart r
  dispatch_frame handler_type step children other r single apart =
      handler_frame w e run_id workflow step input other apart r
  dispatch_frame parallel step children other r single apart = absurd (cc single)
  dispatch_frame fan_out step children other r single apart = absurd (cc single)

  -- A step that is neither parallel nor a fan-out leaves the recorded state and the output of every
  -- other step as they are, whatever its handler does.
  pub execute_step_frame :
      (s : StepDefinition) (other : String) (r : RunState)
      → is_single (step_info s).type ≡ true
      → str_eq (step_info s).id other ≡ false
      → let r' = (execute_step w sch e run_id workflow input s r).1 in
        (r'.step_states other ≡ r.step_states other) × (r'.state other ≡ r.state other)
  unfolding execute_step
  execute_step_frame s other r single apart =
      elim (Bool-cases (is_completed (r.step_states (step_info s).id))) [
        | inl skip ↦ rw (skip, execute_step) (refl, refl)
        | inr todo ↦
            rw (todo, execute_step)
              (dispatch_frame (step_info s).type (step_info s) (children_of s) other r single apart)
      ]
