-- ===== src/Executor/Pool/Ends.antt =====
-- That the system of internal/executor/executor.go comes to rest.
use rivo.Prelude.{
  ℕ, ◌+◌, ◌*◌, ◌≤◌, ◌<◌, ◌≡◌, refl, sym, ◌∙◌, none, Bool, true, false, List, [], ◌∷◌, ◌++◌,
  if◌then◌else◌, length, length-append, arith,
}
use mathlib.Core.List.{append_assoc, append-nil}
use rivo.Executor.Pool.{
  Phase, idle, executing, sending, stopped, Pool, PoolStep, arrive, take_job, channel_closed,
  stop_idle, execute, send_result, stop_sending, complete, stop, close_jobs, PoolSteps, here, next,
  returned, execute_job,
}

-- How many steps a worker in this phase can lead to, at most.
abbrev pub weight : Phase → ℕ
weight idle = 1
weight (executing j) = 5
weight (sending r) = 4
weight stopped = 0

unfoldable pub weights : List Phase → ℕ
weights [] = 0
weights (x ∷ xs) = weight x + weights xs

abbrev pub one_unless : Bool → ℕ
one_unless b = if b then 0 else 1

abbrev pub work : Pool → ℕ
work p =
    5 * length p.jobs
    + weights p.workers
    + length p.results
    + one_unless p.stopping
    + one_unless p.jobs_closed

weights-middle :
    (before after : List Phase) (x : Phase)
    → weights (before ++ x ∷ after) ≡ weights before + (weight x + weights after)
unfolding weights
weights-middle [] after x = omega arith
weights-middle (y ∷ ys) after x = omega (arith, weights-middle ys after x)

PoolStep-work :
    {p q : Pool} → PoolStep p q → work q + 6 * length p.arrived < work p + 6 * length q.arrived
PoolStep-work (arrive p q job running room e) =
    rw e (omega (arith, length-append p.jobs (job ∷ []), length-append p.arrived (job ∷ [])))
PoolStep-work (take_job p q before after job rest busy have e) = rw e (
    rw busy (
      rw have (
        omega
          (arith, weights-middle before after idle, weights-middle before after (executing job)))))
PoolStep-work (channel_closed p q before after busy none_left closed e) =
    rw e (
      rw busy
        (omega (arith, weights-middle before after idle, weights-middle before after stopped)))
PoolStep-work (stop_idle p q before after busy s e) =
    rw e (
      rw busy
        (omega (arith, weights-middle before after idle, weights-middle before after stopped)))
PoolStep-work (execute p q before after job stack h busy e) = rw e (
    rw busy (
      omega (
        arith,
        weights-middle before after (executing job),
        weights-middle before after (sending _),
      )))
PoolStep-work (send_result p q before after r busy room e) = rw e (
    rw busy (
      omega (
        arith,
        weights-middle before after (sending r),
        weights-middle before after idle,
        length-append p.results (r ∷ []),
      )))
PoolStep-work (stop_sending p q before after r busy s e) = rw e (
    rw busy
      (omega (arith, weights-middle before after (sending r), weights-middle before after stopped)))
PoolStep-work (complete p q r rest have e) = rw e (rw have (omega arith))
PoolStep-work (stop p q s e) = rw e (rw s (omega arith))
PoolStep-work (close_jobs p q s e) = rw e (rw s (omega arith))

-- Every run of the system comes to rest: so many steps in a row are at most five for each job in the
-- channel, one for each idle worker, four or five for a busy one, one for each result that waits,
-- one each for the stop and for the closing of the channel where they are still to come, and six for each job that arrives in
-- the meantime.
pub PoolSteps-le-work :
    {p q : Pool} {n : ℕ}
    → PoolSteps p q n
    → n + work q + 6 * length p.arrived ≤ work p + 6 * length q.arrived
PoolSteps-le-work here = omega arith
PoolSteps-le-work (next steps st) = omega (arith, PoolSteps-le-work steps, PoolStep-work st)

abbrev pub all_stopped : List Phase → Bool
all_stopped [] = true
all_stopped (stopped ∷ xs) = all_stopped xs
all_stopped (_ ∷ xs) = false

-- What no step of the others has touched.
abbrev pub IsUntouched : Pool → Pool → Type 0
IsUntouched p q =
    (q.jobs ≡ p.jobs)
    × (q.jobs_closed ≡ p.jobs_closed)
    × (q.results ≡ p.results)
    × (q.arrived ≡ p.arrived)
    × (q.handled ≡ p.handled)

all_stopped-append :
    (xs : List Phase) → all_stopped xs ≡ true → all_stopped (xs ++ stopped ∷ []) ≡ true
all_stopped-append [] h = refl
all_stopped-append (idle ∷ xs) h = absurd (cc h)
all_stopped-append (executing j ∷ xs) h = absurd (cc h)
all_stopped-append (sending r ∷ xs) h = absurd (cc h)
all_stopped-append (stopped ∷ xs) h = all_stopped-append xs h

-- The workers that have not stopped do so, one after the other.
stop_rest :
    (p q : Pool) (before ws : List Phase) (n : ℕ)
    → PoolSteps p q n
    → IsUntouched p q
    → q.stopping ≡ true
    → q.workers ≡ before ++ ws
    → all_stopped before ≡ true
    → (t : Pool) × (m : ℕ) × PoolSteps p t m × (all_stopped t.workers ≡ true) × IsUntouched p t
stop_rest p q before [] n steps same s e done = (q, n, steps, rw (e, append-nil before) done, same)
stop_rest p q before (stopped ∷ xs) n steps same s e done =
    stop_rest p q (before ++ stopped ∷ []) xs n steps same s
      (e ∙ sym (append_assoc before (stopped ∷ []) xs)) (all_stopped-append before done)
stop_rest p q before (idle ∷ xs) n steps same s e done =
    stop_rest p (record q { workers = before ++ stopped ∷ xs }) (before ++ stopped ∷ []) xs _
      (next steps (stop_idle q _ before xs e s refl)) same s
      (sym (append_assoc before (stopped ∷ []) xs)) (all_stopped-append before done)
stop_rest p q before (sending r ∷ xs) n steps same s e done =
    stop_rest p (record q { workers = before ++ stopped ∷ xs; dropped = q.dropped ++ r ∷ [] })
      (before ++ stopped ∷ []) xs _ (next steps (stop_sending q _ before xs r e s refl)) same s
      (sym (append_assoc before (stopped ∷ []) xs)) (all_stopped-append before done)
stop_rest p q before (executing j ∷ xs) n steps same s e done =
    let r = execute_job "" j (returned none) in
    let q' : Pool = record q { workers = before ++ sending r ∷ xs } in
    stop_rest p (record q' { workers = before ++ stopped ∷ xs; dropped = q.dropped ++ r ∷ [] })
      (before ++ stopped ∷ []) xs _
      (next (next steps (execute q q' before xs j "" (returned none) e refl))
        (stop_sending q' _ before xs r refl s refl))
      same s (sym (append_assoc before (stopped ∷ []) xs)) (all_stopped-append before done)

-- After a stop the workers can all end on their own, once the handlers that run have returned:
-- there are steps to a state in which all have stopped, while no job is taken from the channel or
-- sent to it, nobody closes it, and no result is sent or taken, whatever the channels hold.
pub stop_ends_workers :
    (p : Pool)
    → p.stopping ≡ true
    → (q : Pool) × (n : ℕ) × PoolSteps p q n × (all_stopped q.workers ≡ true) × IsUntouched p q
stop_ends_workers p s = stop_rest p p [] p.workers 0 here (refl, refl, refl, refl, refl) s refl refl
