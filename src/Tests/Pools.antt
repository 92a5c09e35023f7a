-- ===== src/Tests/Pools.antt =====
-- One worker, one job, a stop.
use rivo.Prelude.{ℕ, ◌*◌, ◌≡◌, refl, [], ◌∷◌, true, ◌+◌, ◌≤◌, length, arith}
use rivo.Executor.Pool.{
  Pool, PoolSteps, here, next, idle, executing, sending, arrive, take_job, Executor, new_executor,
  start_pool, execute, send_result, stop, execute_job, panicked,
}
use rivo.Executor.Pool.Places.{places, in_channel, Fits, PoolSteps-places}
use rivo.Executor.Pool.Ends.{work, all_stopped, PoolSteps-le-work, IsUntouched, stop_ends_workers}
use rivo.Tests.{mail_row}

abbrev one_worker : Executor
one_worker = new_executor (record { workers = 1; timeout = 0 })

abbrev start_state : Pool
start_state = start_pool one_worker 10

abbrev waiting : Pool
waiting = record start_state { jobs = mail_row ∷ []; arrived = mail_row ∷ [] }

abbrev busy : Pool
busy = record waiting { jobs = []; workers = executing mail_row ∷ [] }

abbrev done : Pool
done = record busy { workers = sending (execute_job "main.go:1" mail_row (panicked "boom")) ∷ [] }

abbrev sent : Pool
sent = record done {
  workers = idle ∷ [];
  results = execute_job "main.go:1" mail_row (panicked "boom") ∷ [];
}

abbrev stopping_pool : Pool
stopping_pool = record sent { stopping = true }

-- A job arrives, the worker takes it, its handler panics, the result is sent, and a stop follows.
five_steps : PoolSteps start_state stopping_pool 5
unfolding start_pool new_executor
five_steps =
    next
      (next
        (next
          (next (next here (arrive start_state waiting mail_row refl (omega arith) refl))
            (take_job waiting busy [] [] mail_row [] refl refl refl))
          (execute busy done [] [] mail_row "main.go:1" (panicked "boom") refl refl))
        (send_result done sent [] [] (execute_job "main.go:1" mail_row (panicked "boom")) refl
          (omega arith) refl))
      (stop sent stopping_pool refl refl)

PoolSteps-places_example :
    (places 1 stopping_pool ≡ in_channel 1 stopping_pool.arrived) × Fits stopping_pool
PoolSteps-places_example = PoolSteps-places one_worker 10 1 five_steps

PoolSteps-le-work_example :
    5 + work stopping_pool + 6 * length start_state.arrived
    ≤ work start_state + 6 * length stopping_pool.arrived
PoolSteps-le-work_example = PoolSteps-le-work five_steps

-- One worker runs a job, another one is idle, and the channel is open and not empty.
abbrev busy_pool : Pool
busy_pool = record waiting { workers = executing mail_row ∷ idle ∷ []; stopping = true }

stop_ends_workers_example :
    (q : Pool) × (n : ℕ) × PoolSteps busy_pool q n
    × (all_stopped q.workers ≡ true)
    × IsUntouched busy_pool q
stop_ends_workers_example = stop_ends_workers busy_pool refl
