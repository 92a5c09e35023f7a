-- ===== src/Engine/Runs.antt =====
-- What executing a step of internal/workflow/engine.go does to the table of runs.
use rivo.Prelude.{
  ℕ, zero, suc, String, ◌≡◌, refl, ◌∙◌, none, some, List, [], ◌∷◌, ◌++◌, arith, inl, inr,
  Bool-cases, Option-cases, update,
}
use rivo.Prelude.Int.{ℤ}
use rivo.Base.{Result, ok, err, RawMessage, Any, Result-cases}
use rivo.Store.{World, Time, tick}
use rivo.Store.Logs.{create_workflow_step_log, complete_workflow_step_log, fail_workflow_step_log}
use rivo.Engine.{
  StepType, sequential, parallel, conditional, fan_out, map_type, reduce_type, handler_type,
  unknown, StepInfo, Engine, RunState, FanOutHandler, Scheduler, StepDefinition, StepDefinitions,
  step_info, children_of,
}
use rivo.Engine.Steps.{
  execute_sequential_step, execute_conditional_step, execute_map_step, execute_reduce_step,
  execute_handler_step, started_state, context_of,
}
use rivo.Engine.FanOut.{
  Items, execute_fan_out_step, run_item, run_items, finish_fan_out, fan_out_items, indexed,
}
use rivo.Engine.Parallel.{
  Phase, waiting, copied, ran, finished, Goroutine, Group, spawn, move, move_at, interleave,
  wait_for, execute_parallel_steps,
}
use rivo.Engine.Run.{is_completed, dispatch, execute_step}

module _ (w : World) (e : Engine) (run_id : ℕ) (workflow : String) (step : StepInfo)
    (input : RawMessage) where
  sequential_runs :
      (r : RunState)
      → (execute_sequential_step w e run_id workflow step input r).1.store.runs ≡ r.store.runs
  unfolding execute_sequential_step create_workflow_step_log complete_workflow_step_log
      fail_workflow_step_log
  sequential_runs r = ground arith

  conditional_runs :
      (r : RunState)
      → (execute_conditional_step w e run_id workflow step input r).1.store.runs ≡ r.store.runs
  unfolding execute_conditional_step create_workflow_step_log complete_workflow_step_log
      fail_workflow_step_log
  conditional_runs r = ground arith

  map_runs :
      (r : RunState)
      → (execute_map_step w e run_id workflow step input r).1.store.runs ≡ r.store.runs
  unfolding execute_map_step
  map_runs r = ground arith

  reduce_runs :
      (r : RunState)
      → (execute_reduce_step w e run_id workflow step input r).1.store.runs ≡ r.store.runs
  unfolding execute_reduce_step
  reduce_runs r = ground arith

  handler_runs :
      (r : RunState)
      → (execute_handler_step w e run_id workflow step input r).1.store.runs ≡ r.store.runs
  unfolding execute_handler_step create_workflow_step_log complete_workflow_step_log
      fail_workflow_step_log
  handler_runs r = ground arith

module _ (w : World) (sch : Scheduler) (e : Engine) (run_id : ℕ) (workflow : String)
    (step : StepInfo) (input : RawMessage) where
  run_item_runs :
      (handler : FanOutHandler) (x : ℕ × Any) (m : Items) (r : RunState)
      → (run_item w sch e run_id workflow step input handler x m r).1.store.runs ≡ r.store.runs
  run_item_runs handler (i, a) m r = ground arith

  run_items_runs :
      (handler : FanOutHandler) (xs : List (ℕ × Any)) (m : Items) (r : RunState)
      → (run_items w sch e run_id workflow step input handler xs m r).1.store.runs ≡ r.store.runs
  unfolding run_items
  run_items_runs handler [] m r = refl
  run_items_runs handler (x ∷ xs) m r =
      let r' = (run_item w sch e run_id workflow step input handler x m r).1 in
      elim (Result-cases (run_item w sch e run_id workflow step input handler x m r).0) [
        | inl (m', h) ↦ rw h (run_items_runs handler xs m' r' ∙ run_item_runs handler x m r)
        | inr (x', h) ↦ rw h (run_item_runs handler x m r)
      ]

  finish_fan_out_runs :
      (now : Time) (items : List Any) (m : Items) (r : RunState)
      → (finish_fan_out w sch e run_id workflow step input now items m r).1.store.runs
        ≡ r.store.runs
  unfolding finish_fan_out
  finish_fan_out_runs now items m r = ground arith

  fan_out_items_runs :
      (handler : FanOutHandler) (now : Time) (answer : Result (List Any)) (r : RunState)
      → (fan_out_items w sch e run_id workflow step input handler now answer r).1.store.runs
        ≡ r.store.runs
  unfolding fan_out_items
  fan_out_items_runs handler now (err x) r = refl
  fan_out_items_runs handler now (ok items) r =
      let order = sch.item_order r.store.event (indexed 0 items) in
      let start : Items = record { results = λ _. none; errors = [] } in
      let r' : RunState = record r { store = tick r.store } in
      let after = (run_items w sch e run_id workflow step input handler order start r').1 in
      elim (Result-cases (run_items w sch e run_id workflow step input handler order start r').0) [
        | inl (m, h) ↦
            rw h (finish_fan_out_runs now items m after ∙ run_items_runs handler order start r')
        | inr (x, h) ↦ rw h (run_items_runs handler order start r')
      ]

  fan_out_runs :
      (r : RunState)
      → (execute_fan_out_step w sch e run_id workflow step input r).1.store.runs ≡ r.store.runs
  unfolding execute_fan_out_step
  fan_out_runs r = elim (Option-cases (e.fan_out_handlers workflow step.id)) [
    | inl none_found ↦ rw (none_found, execute_fan_out_step) refl
    | inr (handler, found) ↦
        let now = w.clock r.store.event in
        let c = context_of w e run_id workflow step input "" (ℤ.pos 0) r in
        let started : RunState = record r {
          step_states = update r.step_states step.id (started_state 1 now);
          store = tick (tick r.store);
        } in
        let answer = handler.items_func c (suc r.store.event) in
        rw (found, execute_fan_out_step)
          (elim (Option-cases answer.0) [
            | inl unset ↦ rw unset (fan_out_items_runs handler now answer.1 started)
            | inr (j, set) ↦ rw set (
                fan_out_items_runs handler now answer.1
                  (record started { state = update r.state step.id (some j) }))
          ])
  ]

module _ (w : World) (e : Engine) (run_id : ℕ) (workflow : String) (input : RawMessage) where
  move_runs :
      (step : StepInfo) (phase : Phase) (r : RunState)
      → (move w e run_id workflow input step phase r).2.store.runs ≡ r.store.runs
  unfolding move
  move_runs step waiting r = refl
  move_runs step (copied local) r =
      sequential_runs w e run_id workflow step input (record r { state = local })
  move_runs step (ran local (ok _)) r = refl
  move_runs step (ran local (err x)) r = refl
  move_runs step finished r = refl

  move_at_runs :
      (n : ℕ) (gs : List Goroutine) (r : RunState)
      → (move_at w e run_id workflow input n gs r).2.store.runs ≡ r.store.runs
  unfolding move_at
  move_at_runs n [] r = refl
  move_at_runs zero (g ∷ gs) r = move_runs g.step g.phase r
  move_at_runs (suc n) (g ∷ gs) r = move_at_runs n gs r

  interleave_runs :
      (ns : List ℕ) (m : Group) (r : RunState)
      → (interleave w e run_id workflow input ns m r).1.store.runs ≡ r.store.runs
  unfolding interleave
  interleave_runs [] m r = refl
  interleave_runs (n ∷ ns) m r =
      interleave_runs ns _ (move_at w e run_id workflow input n m.goroutines r).2
      ∙ move_at_runs n m.goroutines r

  parallel_runs :
      (sch : Scheduler) (steps : StepDefinitions) (r : RunState)
      → (execute_parallel_steps w e run_id workflow input sch steps r).1.store.runs ≡ r.store.runs
  unfolding execute_parallel_steps
  parallel_runs sch steps r =
      interleave_runs
        (sch.picks r.store.event ++ wait_for w e run_id workflow input 0 (spawn steps)) _
        (record r { store = tick r.store })

module _ (w : World) (sch : Scheduler) (e : Engine) (run_id : ℕ) (workflow : String)
    (input : RawMessage) where
  dispatch_runs :
      (t : StepType) (step : StepInfo) (children : StepDefinitions) (r : RunState)
      → (dispatch w sch e run_id workflow input t step children r).1.store.runs ≡ r.store.runs
  unfolding dispatch
  dispatch_runs parallel step children r = parallel_runs w e run_id workflow input sch children r
  dispatch_runs conditional step children r = conditional_runs w e run_id workflow step input r
  dispatch_runs fan_out step children r = fan_out_runs w sch e run_id workflow step input r
  dispatch_runs map_type step children r = map_runs w e run_id workflow step input r
  dispatch_runs reduce_type step children r = reduce_runs w e run_id workflow step input r
  dispatch_runs handler_type step children r = handler_runs w e run_id workflow step input r
  dispatch_runs sequential step children r = sequential_runs w e run_id workflow step input r
  dispatch_runs (unknown n) step children r = sequential_runs w e run_id workflow step input r

  -- Whatever its type and its outcome, a step leaves the table of runs alone.
  pub execute_step_runs :
      (s : StepDefinition) (r : RunState)
      → (execute_step w sch e run_id workflow input s r).1.store.runs ≡ r.store.runs
  unfolding execute_step
  execute_step_runs s r = elim (Bool-cases (is_completed (r.step_states (step_info s).id))) [
    | inl skip ↦ rw (skip, execute_step) refl
    | inr todo ↦
        rw (todo, execute_step) (dispatch_runs (step_info s).type (step_info s) (children_of s) r)
  ]
