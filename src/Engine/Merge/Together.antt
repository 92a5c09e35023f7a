-- ===== src/Engine/Merge/Together.antt =====
-- The goroutines of a parallel step together: executeParallelSteps of internal/workflow/engine.go.
use rivo.Prelude.{
  ℕ, zero, suc, ◌≡◌, ◌⊎◌, inl, inr, refl, true, String, none, List, [], ◌∷◌, ◌++◌, arith, All,
  All-mono,
}
use rivo.Base.{ok, RawMessage, Error}
use rivo.Store.{tick, World}
use rivo.Engine.{Engine, RunState, Scheduler, StepDefinitions, no_steps, more_steps}
use rivo.Engine.Finish.{is_finished, all_finished, interleave-wait_for}
use rivo.Engine.Parallel.{
  Phase, waiting, copied, ran, finished, Goroutine, Group, spawn, move, move_at, interleave,
  wait_for, first_error, execute_parallel_steps,
}
use rivo.Engine.Merge.{
  OtherGoroutine, Own, Holds, Same, IsRecorded, IsNone, IsOnly, Other-Same, Other-first, Own-Same,
  Other-move, Own-move,
}

module _ (k : String) (w : World) (e : Engine) (run_id : ℕ) (workflow : String)
    (input : RawMessage) where
  All-Other-Same :
      (r r' : RunState) (gs : List Goroutine)
      → Same k r r'
      → All (OtherGoroutine k r) gs
      → All (OtherGoroutine k r') gs
  All-Other-Same r r' gs same os =
      All-mono (OtherGoroutine k r) (OtherGoroutine k r')
        (λ g o. (o.0, Other-Same k r r' g.phase same o.1)) gs os

  Holds-Same :
      (r r' : RunState) (errors more : List Error) (gs : List Goroutine)
      → Same k r r'
      → Holds k r errors gs
      → Holds k r' (errors ++ more) gs
  Holds-Same r r' errors more [] same h = h
  Holds-Same r r' errors more (g ∷ gs) same (inl (mine, own, os)) =
      inl (mine, Own-Same k r r' errors more g.phase same own, All-Other-Same r r' gs same os)
  Holds-Same r r' errors more (g ∷ gs) same (inr (o, h)) =
      inr ((o.0, Other-Same k r r' g.phase same o.1), Holds-Same r r' errors more gs same h)

  -- A move of one of the others.
  Others-move_at :
      (n : ℕ) (gs : List Goroutine) (r : RunState)
      → All (OtherGoroutine k r) gs
      → let (gs', errors, r') = move_at w e run_id workflow input n gs r in
        Same k r r' × All (OtherGoroutine k r') gs'
  unfolding move_at
  Others-move_at n [] r os = ((refl, refl), tt)
  Others-move_at zero (g ∷ gs) r os =
      let t = (move w e run_id workflow input g.step g.phase r).2 in
      let moved = Other-move k w e run_id workflow input g.step g.phase r os.0.0 os.0.1 in
      (moved.0, ((os.0.0, moved.1), All-Other-Same r t gs moved.0 os.1))
  Others-move_at (suc n) (g ∷ gs) r os =
      let t = (move_at w e run_id workflow input n gs r).2 in
      let moved = Others-move_at n gs r os.1 in
      (moved.0, ((os.0.0, Other-Same k r t g.phase moved.0 os.0.1), moved.1))

  All-Other-first :
      (r r' : RunState) (gs : List Goroutine)
      → (r.state k ≡ none) ⊎ (r'.state k ≡ r.state k)
      → All (OtherGoroutine k r) gs
      → All (OtherGoroutine k r') gs
  All-Other-first r r' gs first os =
      All-mono (OtherGoroutine k r) (OtherGoroutine k r')
        (λ g o. (o.0, Other-first k r r' g.phase first o.1)) gs os

  Holds-move_at :
      (n : ℕ) (gs : List Goroutine) (errors : List Error) (r : RunState)
      → Holds k r errors gs
      → let (gs', more, r') = move_at w e run_id workflow input n gs r in
        Holds k r' (errors ++ more) gs' × ((r.state k ≡ none) ⊎ (r'.state k ≡ r.state k))
  unfolding move_at
  Holds-move_at n [] errors r h = absurd h
  Holds-move_at zero (g ∷ gs) errors r (inl (mine, own, os)) =
      let (_, more, t) = move w e run_id workflow input g.step g.phase r in
      let moved = Own-move k w e run_id workflow input g.step g.phase errors r mine own in
      (inl (mine, moved.0, All-Other-first r t gs moved.1 os), moved.1)
  Holds-move_at zero (g ∷ gs) errors r (inr (o, h)) =
      let (_, more, t) = move w e run_id workflow input g.step g.phase r in
      let moved = Other-move k w e run_id workflow input g.step g.phase r o.0 o.1 in
      (inr ((o.0, moved.1), Holds-Same r t errors more gs moved.0 h), inr moved.0.0)
  Holds-move_at (suc n) (g ∷ gs) errors r (inl (mine, own, os)) =
      let (_, more, t) = move_at w e run_id workflow input n gs r in
      let moved = Others-move_at n gs r os in
      (inl (mine, Own-Same k r t errors more g.phase moved.0 own, moved.1), inr moved.0.0)
  Holds-move_at (suc n) (g ∷ gs) errors r (inr (o, h)) =
      let (_, more, t) = move_at w e run_id workflow input n gs r in
      let moved = Holds-move_at n gs errors r h in
      (inr ((o.0, Other-first k r t g.phase moved.1 o.1), moved.0), moved.1)

  Holds-interleave :
      (ns : List ℕ) (m : Group) (r : RunState)
      → Holds k r m.errors m.goroutines
      → let (m', r') = interleave w e run_id workflow input ns m r in
        Holds k r' m'.errors m'.goroutines
  unfolding interleave
  Holds-interleave [] m r h = h
  Holds-interleave (n ∷ ns) m r h =
      Holds-interleave ns _ _ (Holds-move_at n m.goroutines m.errors r h).0

  own_finished :
      (phase : Phase) (errors : List Error) (r : RunState)
      → is_finished phase ≡ true
      → Own k r errors phase
      → errors ≡ []
      → IsRecorded k r r.state
  own_finished finished errors r end (inl bad) none_failed = absurd (bad none_failed)
  own_finished finished errors r end (inr rec) none_failed = rec
  own_finished waiting errors r end own none_failed = absurd (cc end)
  own_finished (copied local) errors r end own none_failed = absurd (cc end)
  own_finished (ran local result) errors r end own none_failed = absurd (cc end)

  finished-IsRecorded :
      (gs : List Goroutine) (errors : List Error) (r : RunState)
      → all_finished gs ≡ true
      → Holds k r errors gs
      → errors ≡ []
      → IsRecorded k r r.state
  finished-IsRecorded [] errors r end h none_failed = absurd h
  finished-IsRecorded (g ∷ gs) errors r end (inl (mine, own, os)) none_failed =
      own_finished g.phase errors r (ground arith) own none_failed
  finished-IsRecorded (g ∷ gs) errors r end (inr (o, h)) none_failed =
      finished-IsRecorded gs errors r (ground arith) h none_failed

  first_error-ok : (xs : List Error) → first_error w e run_id workflow input xs ≡ ok tt → xs ≡ []
  first_error-ok [] h = refl
  first_error-ok (x ∷ xs) h = absurd (cc h)

  spawn-others :
      (ss : StepDefinitions) (r : RunState) → IsNone k ss → All (OtherGoroutine k r) (spawn ss)
  spawn-others no_steps r h = tt
  spawn-others (more_steps s ss) r h = ((h.0, tt), spawn-others ss r h.1)

  spawn-Holds :
      (ss : StepDefinitions) (r : RunState)
      → r.state k ≡ none
      → IsOnly k ss
      → Holds k r [] (spawn ss)
  spawn-Holds no_steps r nil only = only
  spawn-Holds (more_steps s ss) r nil (inl (mine, others)) =
      inl (mine, nil, spawn-others ss r others)
  spawn-Holds (more_steps s ss) r nil (inr (other, only)) =
      inr ((other, tt), spawn-Holds ss r nil only)

  -- Whatever moves of the goroutines the scheduler picks: if a parallel step succeeds, one of its
  -- children has the id `k` and had no output before, then that child is recorded as completed
  -- and its recorded output is what the outputs hold, so that no goroutine's merge has lost it.
  pub execute_parallel_steps-IsRecorded :
      (sch : Scheduler) (ss : StepDefinitions) (r : RunState)
      → IsOnly k ss
      → r.state k ≡ none
      → let (result, r') = execute_parallel_steps w e run_id workflow input sch ss r in
        result ≡ ok tt → IsRecorded k r' r'.state
  unfolding execute_parallel_steps
  execute_parallel_steps-IsRecorded sch ss r only nil done =
      let gs = spawn ss in
      let t : RunState = record r { store = tick r.store } in
      let picks = sch.picks r.store.event in
      let start : Group = record { goroutines = gs; errors = [] } in
      let (m, t') =
        interleave w e run_id workflow input (picks ++ wait_for w e run_id workflow input 0 gs)
          start t in
      finished-IsRecorded m.goroutines m.errors t'
        (interleave-wait_for w e run_id workflow input picks gs t)
        (Holds-interleave (picks ++ wait_for w e run_id workflow input 0 gs) start t
          (spawn-Holds ss t nil only))
        (first_error-ok m.errors done)
