-- ===== src/Engine/Parallel.antt =====
-- Parallel steps: executeParallelSteps of internal/workflow/engine.go, with its goroutines
-- interleaved.
use rivo.Prelude.{ℕ, zero, suc, String, none, some, List, [], ◌∷◌, ◌++◌}
use rivo.Base.{Error, Result, ok, err, RawMessage}
use rivo.Store.{World, get_event}
use rivo.Engine.{
  StepInfo, StepDefinitions, no_steps, more_steps, step_info, State, Engine, Scheduler, RunState,
  Step, db,
}
use rivo.Engine.Steps.{execute_sequential_step}

-- Where a goroutine stands: before it copies the outputs, with its copy, with its copy and what
-- its step returned, and at its end.
pub data Phase : Type 0 where
  waiting : Phase
  copied : State → Phase
  ran : State → Result (Unit {0}) → Phase
  finished : Phase

pub record Goroutine : Type 0 where
  pub step : StepInfo
  pub phase : Phase

-- The goroutines, and the channel `errCh`.
pub record Group : Type 0 where
  pub goroutines : List Goroutine
  pub errors : List Error

-- `for k, v := range localState { state[k] = v }`
abbrev pub merge : State → State → State
merge src dst k = elim (src k) [ none ↦ dst k | some v ↦ some v ]

abbrev pub spawn : StepDefinitions → List Goroutine
spawn no_steps = []
spawn (more_steps s ss) = record { step = step_info s; phase = waiting } ∷ spawn ss

module _ (w : World) (e : Engine) (run_id : ℕ) (workflow : String) (input : RawMessage) where
  -- One move of one goroutine: its next phase, the errors that it sends, and what it changes. The
  -- step itself runs on the copy, and on the shared step states.
  unfoldable pub move : StepInfo → Phase → RunState → Phase × List Error × RunState
  move step waiting r = (copied r.state, [], r)
  move step (copied local) r =
      let (result, r') =
        execute_sequential_step w e run_id workflow step input (record r { state = local }) in
      (ran r'.state result, [], record r' { state = r.state })
  move step (ran local (ok _)) r = (finished, [], record r { state = merge local r.state })
  move step (ran local (err x)) r = (finished, x ∷ [], r)
  move step finished r = (finished, [], r)

  -- The goroutine with this number moves; a number that names none moves nothing.
  unfoldable pub move_at : ℕ → List Goroutine → RunState → List Goroutine × List Error × RunState
  unfolding move
  move_at n [] r = ([], [], r)
  move_at zero (g ∷ gs) r =
      let (phase, errors, r') = move g.step g.phase r in
      (record g { phase = phase } ∷ gs, errors, r')
  move_at (suc n) (g ∷ gs) r = let (gs', errors, r') = move_at n gs r in (g ∷ gs', errors, r')

  unfoldable pub interleave : List ℕ → Group → RunState → Group × RunState
  unfolding move_at
  interleave [] m r = (m, r)
  interleave (n ∷ ns) m r =
      let (gs, errors, r') = move_at n m.goroutines r in
      interleave ns (record { goroutines = gs; errors = m.errors ++ errors }) r'

  -- `wg.Wait()`: whatever is not finished runs to its end, one goroutine after the other.
  unfoldable pub wait_for : ℕ → List Goroutine → List ℕ
  wait_for n [] = []
  wait_for n (g ∷ gs) = n ∷ n ∷ n ∷ wait_for (suc n) gs

  abbrev pub first_error : List Error → Result (Unit {0})
  first_error [] = ok tt
  first_error (x ∷ xs) = err x

  unfoldable pub run_group : List ℕ → List Goroutine → RunState → Result (Unit {0}) × RunState
  unfolding interleave wait_for
  run_group picks gs r =
      let (m, r') =
        interleave (picks ++ wait_for 0 gs) (record { goroutines = gs; errors = [] }) r in
      (first_error m.errors, r')

  unfoldable pub execute_parallel_steps : Scheduler → StepDefinitions → Step (Unit {0})
  unfolding run_group
  execute_parallel_steps sch steps r =
      let (event, r') = db get_event r in run_group (sch.picks r.store.event) (spawn steps) r'
