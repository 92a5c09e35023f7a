-- ===== src/Engine/Finish.antt =====
-- That the goroutines of a parallel step of internal/workflow/engine.go come to their end.
use rivo.Prelude.{
  ℕ, zero, suc, ◌≡◌, refl, ap, sym, ◌∙◌, Bool, true, false, ◌&&◌, String, List, [], ◌∷◌, ◌++◌, map,
  length, arith,
}
use rivo.Base.{ok, err, RawMessage, Error}
use rivo.Store.{World}
use rivo.Engine.{Engine, RunState, StepInfo}
use rivo.Engine.Parallel.{
  Phase, waiting, copied, ran, finished, Goroutine, Group, move, move_at, interleave, wait_for,
}

abbrev pub is_finished : Phase → Bool
is_finished finished = true
is_finished _ = false

abbrev pub all_finished : List Goroutine → Bool
all_finished [] = true
all_finished (g ∷ gs) = is_finished g.phase && all_finished gs

module _ (w : World) (e : Engine) (run_id : ℕ) (workflow : String) (input : RawMessage) where
  -- Whatever phase a goroutine is in, three moves bring it to its end.
  three_moves :
      (step : StepInfo) (phase : Phase) (r r' r'' : RunState)
      → is_finished
          (move w e run_id workflow input step
            (move w e run_id workflow input step
              (move w e run_id workflow input step phase r).0
              r').0
            r'').0
        ≡ true
  unfolding move
  three_moves step waiting r r' r'' = ground arith
  three_moves step (copied s) r r' r'' = ground arith
  three_moves step (ran s (ok _)) r r' r'' = refl
  three_moves step (ran s (err x)) r r' r'' = refl
  three_moves step finished r r' r'' = refl

  length-move_at :
      (n : ℕ) (gs : List Goroutine) (r : RunState)
      → length (move_at w e run_id workflow input n gs r).0 ≡ length gs
  unfolding move_at
  length-move_at n [] r = refl
  length-move_at zero (g ∷ gs) r = refl
  length-move_at (suc n) (g ∷ gs) r = ap suc (length-move_at n gs r)

  length-interleave :
      (ns : List ℕ) (m : Group) (r : RunState)
      → length (interleave w e run_id workflow input ns m r).0.goroutines ≡ length m.goroutines
  unfolding interleave
  length-interleave [] m r = refl
  length-interleave (n ∷ ns) m r = length-interleave ns _ _ ∙ length-move_at n m.goroutines r

  interleave-append :
      (ns ks : List ℕ) (m : Group) (r : RunState)
      → interleave w e run_id workflow input (ns ++ ks) m r
        ≡ interleave w e run_id workflow input ks
            (interleave w e run_id workflow input ns m r).0
            (interleave w e run_id workflow input ns m r).1
  unfolding interleave
  interleave-append [] ks m r = refl
  interleave-append (n ∷ ns) ks m r = interleave-append ns ks _ _

  wait_for-suc :
      (n : ℕ) (gs : List Goroutine)
      → wait_for w e run_id workflow input (suc n) gs
        ≡ map suc (wait_for w e run_id workflow input n gs)
  unfolding wait_for
  wait_for-suc n [] = refl
  wait_for-suc n (g ∷ gs) =
      ap (λ (ns : List ℕ). suc n ∷ suc n ∷ suc n ∷ ns) (wait_for-suc (suc n) gs)

  -- Moves of the goroutines behind the first one leave the first one alone.
  interleave-suc :
      (ns : List ℕ) (g : Goroutine) (gs : List Goroutine) (errors : List Error) (r : RunState)
      → (interleave w e run_id workflow input
          (map suc ns)
          (record { goroutines = g ∷ gs; errors = errors })
          r).0.goroutines
        ≡ g
          ∷ (interleave w e run_id workflow input ns
              (record { goroutines = gs; errors = errors })
              r).0.goroutines
  unfolding interleave move_at
  interleave-suc [] g gs errors r = refl
  interleave-suc (n ∷ ns) g gs errors r = interleave-suc ns g _ _ _

  wait_for_finishes :
      (gs base : List Goroutine) (errors : List Error) (r : RunState)
      → length base ≡ length gs
      → all_finished
          (interleave w e run_id workflow input
            (wait_for w e run_id workflow input 0 base)
            (record { goroutines = gs; errors = errors })
            r).0.goroutines
        ≡ true
  unfolding interleave wait_for move_at
  wait_for_finishes [] [] errors r same = refl
  wait_for_finishes [] (b ∷ bs) errors r same = absurd (omega (arith, same))
  wait_for_finishes (g ∷ gs) [] errors r same = absurd (omega (arith, same))
  wait_for_finishes (g ∷ gs) (b ∷ bs) errors r same = rw (wait_for-suc 0 bs) (
      rw (interleave-suc (wait_for w e run_id workflow input 0 bs) _ gs _ _)
        (rw (three_moves g.step g.phase r _ _) (wait_for_finishes gs bs _ _ (omega (arith, same)))))

  -- Whatever moves the scheduler picks first, the moves of `wait_for` bring every goroutine to its
  -- end, also one whose step fails.
  pub interleave-wait_for :
      (picks : List ℕ) (gs : List Goroutine) (r : RunState)
      → all_finished
          (interleave w e run_id workflow input
            (picks ++ wait_for w e run_id workflow input 0 gs)
            (record { goroutines = gs; errors = [] })
            r).0.goroutines
        ≡ true
  interleave-wait_for picks gs r =
      let start : Group = record { goroutines = gs; errors = [] } in
      rw (interleave-append picks (wait_for w e run_id workflow input 0 gs) start r)
        (wait_for_finishes _ gs _ _ (sym (length-interleave picks start r)))
