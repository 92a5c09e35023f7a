-- ===== src/Engine/Merge.antt =====
-- The outputs of the children of a parallel step of internal/workflow/engine.go, whatever the
-- scheduler does: every child runs on a copy of the outputs and merges it back.
pub mod Together
use rivo.Prelude.{
  ℕ, zero, suc, ◌≡◌, ◌≢◌, ◌⊎◌, inl, inr, refl, ◌∙◌, sym, ap, true, false, String, Option,
  Option-cases, none, some, List, [], ◌∷◌, ◌++◌, arith, All, All-mono, str_eq, eq_iff,
}
use rivo.Base.{Result, ok, err, RawMessage, Error}
use mathlib.Core.List.{append-nil}
use rivo.Store.{Time, World, StepState, StepRunState}
use rivo.Engine.{
  Engine, RunState, StepInfo, State, Scheduler, StepDefinitions, no_steps, more_steps, step_info,
}
use rivo.Engine.Steps.{output_of, completed_state, execute_sequential_step}
use rivo.Engine.Finish.{is_finished, all_finished, interleave-wait_for}
use rivo.Engine.Frame.{sequential_states, sequential_outputs}
use rivo.Engine.Contract.{Recorded, execute_sequential_step-Recorded}
use rivo.Engine.Parallel.{
  Phase, waiting, copied, ran, finished, Goroutine, Group, merge, spawn, move, move_at, interleave,
  wait_for, first_error, run_group, execute_parallel_steps,
}

out_of :
    (o : Option RawMessage) (out : RawMessage)
    → ((o ≡ none) × (out ≡ none)) ⊎ (o ≡ some out)
    → output_of o ≡ out
out_of o out (inl (absent, nil)) = rw absent (sym nil)
out_of o out (inr held) = rw held refl

append-ne : (xs ys : List Error) → xs ≢ [] → (xs ++ ys) ≢ []
append-ne [] ys h = absurd (h refl)
append-ne (x ∷ xs) ys h = λ e. cc

ne-append : (xs : List Error) (x : Error) → (xs ++ x ∷ []) ≢ []
ne-append [] x = λ e. cc
ne-append (y ∷ xs) x = λ e. cc

module _ (k : String) where
  -- A copy that another goroutine holds: it has no output of `k`, or the one that is there.
  abbrev pub IsFresh : RunState → State → Type 0
  IsFresh r local = (local k ≡ none) ⊎ (local k ≡ r.state k)

  abbrev pub Other : RunState → Phase → Type 0
  Other r waiting = Unit
  Other r (copied local) = IsFresh r local
  Other r (ran local _) = IsFresh r local
  Other r finished = Unit

  -- The step is recorded as completed, with this output.
  abbrev pub IsRecorded : RunState → State → Type 0
  IsRecorded r state =
      (st : StepRunState) × (r.step_states k ≡ some st)
      × (st.state ≡ StepState.completed)
      × (output_of (state k) ≡ st.output)

  abbrev pub Own : RunState → List Error → Phase → Type 0
  Own r errors waiting = r.state k ≡ none
  Own r errors (copied local) = (r.state k ≡ none) × (local k ≡ none)
  Own r errors (ran local (ok _)) = (r.state k ≡ none) × IsRecorded r local
  Own r errors (ran local (err _)) = Unit
  Own r errors finished = (errors ≢ []) ⊎ IsRecorded r r.state

  abbrev pub OtherGoroutine : RunState → Goroutine → Type 0
  OtherGoroutine r g = (str_eq g.step.id k ≡ false) × Other r g.phase

  -- One goroutine is that of `k`.
  abbrev pub Holds : RunState → List Error → List Goroutine → Type 0
  Holds r errors [] = ⊥
  Holds r errors (g ∷ gs) =
      (str_eq g.step.id k ≡ true) × Own r errors g.phase × All (OtherGoroutine r) gs
      ⊎ OtherGoroutine r g × Holds r errors gs

  -- No child has the id, or just one has it.
  abbrev pub IsNone : StepDefinitions → Type 0
  IsNone no_steps = Unit
  IsNone (more_steps s ss) = (str_eq (step_info s).id k ≡ false) × IsNone ss

  abbrev pub IsOnly : StepDefinitions → Type 0
  IsOnly no_steps = ⊥
  IsOnly (more_steps s ss) =
      (str_eq (step_info s).id k ≡ true) × IsNone ss
      ⊎ (str_eq (step_info s).id k ≡ false) × IsOnly ss

  -- What of a state the predicates above look at.
  abbrev pub Same : RunState → RunState → Type 0
  Same r r' = (r'.state k ≡ r.state k) × (r'.step_states k ≡ r.step_states k)

  IsFresh-Same : (r r' : RunState) (local : State) → Same r r' → IsFresh r local → IsFresh r' local
  IsFresh-Same r r' local same (inl nil) = inl nil
  IsFresh-Same r r' local same (inr e) = inr (e ∙ sym same.0)

  IsFresh-first :
      (r r' : RunState) (local : State)
      → (r.state k ≡ none) ⊎ (r'.state k ≡ r.state k)
      → IsFresh r local
      → IsFresh r' local
  IsFresh-first r r' local first (inl nil) = inl nil
  IsFresh-first r r' local (inl nil) (inr e) = inl (e ∙ nil)
  IsFresh-first r r' local (inr same) (inr e) = inr (e ∙ sym same)

  IsFresh-step :
      (r : RunState) (local after : State) → after k ≡ local k → IsFresh r local → IsFresh r after
  IsFresh-step r local after same (inl nil) = inl (same ∙ nil)
  IsFresh-step r local after same (inr e) = inr (same ∙ e)

  merge_fresh :
      (local dst : State) → (local k ≡ none) ⊎ (local k ≡ dst k) → merge local dst k ≡ dst k
  merge_fresh local dst (inl nil) = ground arith
  merge_fresh local dst (inr e) = ground arith

  merged_output :
      (local dst : State) → dst k ≡ none → output_of (merge local dst k) ≡ output_of (local k)
  merged_output local dst nil = ground arith

  Own-ran :
      (r : RunState) (errors : List Error) (after : RunState) (result : Result (Unit {0}))
      → r.state k ≡ none
      → (result ≡ ok tt → IsRecorded after after.state)
      → Own (record after { state = r.state }) errors (ran after.state result)
  Own-ran r errors after (ok _) nil rec = (nil, rec refl)
  Own-ran r errors after (err x) nil rec = tt

  Other-Same : (r r' : RunState) (phase : Phase) → Same r r' → Other r phase → Other r' phase
  Other-Same r r' waiting same o = tt
  Other-Same r r' (copied local) same o = IsFresh-Same r r' local same o
  Other-Same r r' (ran local result) same o = IsFresh-Same r r' local same o
  Other-Same r r' finished same o = tt

  -- When the goroutine of `k` has merged its first output, a copy that has none is still fresh.
  pub Other-first :
      (r r' : RunState) (phase : Phase)
      → (r.state k ≡ none) ⊎ (r'.state k ≡ r.state k)
      → Other r phase
      → Other r' phase
  Other-first r r' waiting first o = tt
  Other-first r r' (copied local) first o = IsFresh-first r r' local first o
  Other-first r r' (ran local result) first o = IsFresh-first r r' local first o
  Other-first r r' finished first o = tt

  pub Own-Same :
      (r r' : RunState) (errors more : List Error) (phase : Phase)
      → Same r r'
      → Own r errors phase
      → Own r' (errors ++ more) phase
  Own-Same r r' errors more waiting same o = same.0 ∙ o
  Own-Same r r' errors more (copied local) same o = (same.0 ∙ o.0, o.1)
  Own-Same r r' errors more (ran local (ok _)) same (nil, (st, rec, done, out)) =
      (same.0 ∙ nil, (st, same.1 ∙ rec, done, out))
  Own-Same r r' errors more (ran local (err _)) same o = tt
  Own-Same r r' errors more finished same (inl bad) = inl (append-ne errors more bad)
  Own-Same r r' errors more finished same (inr (st, rec, done, out)) =
      inr (st, same.1 ∙ rec, done, ap output_of same.0 ∙ out)

  module _ (w : World) (e : Engine) (run_id : ℕ) (workflow : String) (input : RawMessage) where
    answered :
        (id : String) (before : Option StepRunState) (begun ended : Time)
        (answer result : Result (Unit {0})) (r : RunState)
        → id ≡ k
        → Recorded id before begun ended answer result r
        → result ≡ ok tt
        → IsRecorded r r.state
    answered id before begun ended (ok _) result r same (_, attempt, _, out, rec, held) done =
        rw (← same) (
          record {
            state = StepState.completed;
            output = out;
            error = "";
            attempt = attempt;
            started_at = some begun;
            completed_at = some ended;
          },
          rec,
          refl,
          out_of (r.state id) out held,
        )
    answered id before begun ended (err x) result r same rec done = absurd (cc (rec.0, done))

    sequential-IsRecorded :
        (step : StepInfo) (r : RunState)
        → str_eq step.id k ≡ true
        → let (result, r') = execute_sequential_step w e run_id workflow step input r in
          result ≡ ok tt → IsRecorded r' r'.state
    unfolding execute_sequential_step
    sequential-IsRecorded step r mine done = elim (Option-cases (e.handlers workflow step.id)) [
      | inl absent ↦ absurd (cc (rw (absent, execute_sequential_step) at done))
      | inr (handler, found) ↦
          answered step.id _ _ _ _ _ _ ((eq_iff step.id k).0 mine)
            (execute_sequential_step-Recorded w e run_id workflow step input handler r found) done
    ]

    pub Other-move :
        (step : StepInfo) (phase : Phase) (r : RunState)
        → str_eq step.id k ≡ false
        → Other r phase
        → let (phase', errors, r') = move w e run_id workflow input step phase r in
          Same r r' × Other r' phase'
    unfolding move
    Other-move step waiting r other o = ((refl, refl), inr refl)
    Other-move step (copied local) r other o = (
      (refl, sequential_states w e run_id workflow step input k other (record r { state = local })),
      IsFresh-step r local
          (execute_sequential_step w e run_id workflow step input
            (record r { state = local })).1.state
          (sequential_outputs w e run_id workflow step input k other (record r { state = local }))
          o,
    )
    Other-move step (ran local (ok _)) r other o = ((merge_fresh local r.state o, refl), tt)
    Other-move step (ran local (err x)) r other o = ((refl, refl), tt)
    Other-move step finished r other o = ((refl, refl), tt)

    pub Own-move :
        (step : StepInfo) (phase : Phase) (errors : List Error) (r : RunState)
        → str_eq step.id k ≡ true
        → Own r errors phase
        → let (phase', more, r') = move w e run_id workflow input step phase r in
          Own r' (errors ++ more) phase' × ((r.state k ≡ none) ⊎ (r'.state k ≡ r.state k))
    unfolding move
    Own-move step waiting errors r mine o = ((o, o), inr refl)
    Own-move step (copied local) errors r mine o = (
      rw (append-nil errors) (
          Own-ran r errors
            (execute_sequential_step w e run_id workflow step input (record r { state = local })).1
            (execute_sequential_step w e run_id workflow step input (record r { state = local })).0
            o.0 (sequential-IsRecorded step (record r { state = local }) mine)),
      inl o.0,
    )
    Own-move step (ran local (ok _)) errors r mine o =
        (inr (o.1.0, o.1.1, o.1.2, merged_output local r.state o.0 ∙ o.1.3), inl o.0)
    Own-move step (ran local (err x)) errors r mine o = (inl (ne-append errors x), inr refl)
    Own-move step finished errors r mine o = (rw (append-nil errors) o, inr refl)
