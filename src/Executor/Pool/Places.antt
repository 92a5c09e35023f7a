-- ===== src/Executor/Pool/Places.antt =====
-- Where the jobs of internal/executor/executor.go are.
use rivo.Prelude.{
  ℕ, zero, suc, ◌+◌, ◌≤◌, ◌<◌, ◌≡◌, refl, sym, ap, ◌∙◌, Bool, true, false, List, [], ◌∷◌, ◌++◌,
  ◌==◌, if◌then◌else◌, length, length-append, arith,
}
use rivo.Store.{JobRow}
use rivo.Executor.Completer.{JobResult}
use rivo.Executor.Pool.{
  Phase, idle, executing, sending, stopped, Pool, PoolStep, arrive, take_job, channel_closed,
  stop_idle, execute, send_result, stop_sending, complete, stop, close_jobs, PoolSteps, here, next,
  execute_job, Executor, start_pool, replicate, Handled, returned, panicked,
}

-- Neither channel holds more than its capacity.
abbrev pub Fits : Pool → Type 0
Fits p = (length p.jobs ≤ p.jobs_size) × (length p.results ≤ p.results_size)

-- A send waits for room in its channel.
PoolStep-Fits : {p q : Pool} → PoolStep p q → Fits p → Fits q
PoolStep-Fits (arrive p q job running room e) h =
    rw e (omega (arith, length-append p.jobs (job ∷ [])), h.1)
PoolStep-Fits (take_job p q before after job rest busy have e) h =
    rw e (omega (arith, h.0, ap length have), h.1)
PoolStep-Fits (channel_closed p q before after busy none_left closed e) h = rw e h
PoolStep-Fits (stop_idle p q before after busy s e) h = rw e h
PoolStep-Fits (execute p q before after job stack handled busy e) h = rw e h
PoolStep-Fits (send_result p q before after r busy room e) h =
    rw e (h.0, omega (arith, length-append p.results (r ∷ [])))
PoolStep-Fits (stop_sending p q before after r busy s e) h = rw e h
PoolStep-Fits (complete p q r rest have e) h = rw e (h.0, omega (arith, h.1, ap length have))
PoolStep-Fits (stop p q s e) h = rw e h
PoolStep-Fits (close_jobs p q s e) h = rw e h

module _ (id : ℕ) where
  abbrev pub one_if : Bool → ℕ
  one_if b = if b then 1 else 0

  -- How often a job with this id is in the channel, in the hands of a worker, and among results.
  unfoldable pub in_channel : List JobRow → ℕ
  in_channel [] = 0
  in_channel (j ∷ js) = one_if (j.id == id) + in_channel js

  unfoldable pub in_results : List JobResult → ℕ
  in_results [] = 0
  in_results (r ∷ rs) = one_if (r.job.id == id) + in_results rs

  abbrev pub in_hand : Phase → ℕ
  in_hand (executing j) = one_if (j.id == id)
  in_hand (sending r) = one_if (r.job.id == id)
  in_hand idle = 0
  in_hand stopped = 0

  unfoldable pub in_hands : List Phase → ℕ
  in_hands [] = 0
  in_hands (x ∷ xs) = in_hand x + in_hands xs

  abbrev pub places : Pool → ℕ
  places p =
      in_channel p.jobs
      + in_hands p.workers
      + in_results p.results
      + in_results p.dropped
      + in_results p.handled

  in_hands-append : (xs ys : List Phase) → in_hands (xs ++ ys) ≡ in_hands xs + in_hands ys
  unfolding in_hands
  in_hands-append [] ys = omega arith
  in_hands-append (x ∷ xs) ys = omega (arith, in_hands-append xs ys)

  in_channel-append :
      (js : List JobRow) (j : JobRow)
      → in_channel (js ++ j ∷ []) ≡ in_channel js + one_if (j.id == id)
  unfolding in_channel
  in_channel-append [] j = omega arith
  in_channel-append (x ∷ xs) j = omega (arith, in_channel-append xs j)

  in_hands-idle : (n : ℕ) → in_hands (replicate n idle) ≡ 0
  unfolding in_hands
  in_hands-idle zero = refl
  in_hands-idle (suc n) = omega (arith, in_hands-idle n)

  in_results-append :
      (xs : List JobResult) (r : JobResult)
      → in_results (xs ++ r ∷ []) ≡ in_results xs + one_if (r.job.id == id)
  unfolding in_results
  in_results-append [] r = omega arith
  in_results-append (x ∷ xs) r = omega (arith, in_results-append xs r)

  in_hands-middle :
      (before after : List Phase) (x : Phase)
      → in_hands (before ++ x ∷ after) ≡ in_hands before + (in_hand x + in_hands after)
  unfolding in_hands
  in_hands-middle before after x = in_hands-append before (x ∷ after)

  job-execute_job :
      (stack : rivo.Prelude.String) (j : JobRow) (h : Handled) → (execute_job stack j h).job ≡ j
  unfolding execute_job
  job-execute_job stack j (returned e) = refl
  job-execute_job stack j (panicked t) = refl

  PoolStep-places :
      {p q : Pool}
      → PoolStep p q
      → places q + in_channel p.arrived ≡ places p + in_channel q.arrived
  unfolding in_channel in_results
  PoolStep-places (arrive p q job running room e) =
      rw e (omega (arith, in_channel-append p.jobs job, in_channel-append p.arrived job))
  PoolStep-places (take_job p q before after job rest busy have e) = rw e (
      rw busy (
        rw have (
          omega (
            arith,
            in_hands-middle before after idle,
            in_hands-middle before after (executing job),
          ))))
  PoolStep-places (channel_closed p q before after busy none_left closed e) = rw e (
      rw busy
        (omega (arith, in_hands-middle before after idle, in_hands-middle before after stopped)))
  PoolStep-places (stop_idle p q before after busy s e) = rw e (
      rw busy
        (omega (arith, in_hands-middle before after idle, in_hands-middle before after stopped)))
  PoolStep-places (execute p q before after job stack h busy e) = rw e (
      rw busy (
        omega (
          arith,
          in_hands-middle before after (executing job),
          in_hands-middle before after (sending (execute_job stack job h)),
          ap (λ (j : JobRow). one_if (j.id == id)) (job-execute_job stack job h),
        )))
  PoolStep-places (send_result p q before after r busy room e) = rw e (
      rw busy (
        omega (
          arith,
          in_hands-middle before after (sending r),
          in_hands-middle before after idle,
          in_results-append p.results r,
        )))
  PoolStep-places (stop_sending p q before after r busy s e) = rw e (
      rw busy (
        omega (
          arith,
          in_hands-middle before after (sending r),
          in_hands-middle before after stopped,
          in_results-append p.dropped r,
        )))
  PoolStep-places (complete p q r rest have e) =
      rw e (rw have (omega (arith, in_results-append p.handled r)))
  PoolStep-places (stop p q s e) = rw e refl
  PoolStep-places (close_jobs p q s e) = rw e refl

-- From the start of the executor on, whatever steps the producer, the workers, the completer and a
-- stop take, no job is lost or run twice: a job is in as many places (the channel, a worker's hands,
-- the results, the results dropped by a stop, and those handled by the completer) as it arrived
-- times, and neither channel holds more than its capacity.
pub PoolSteps-places :
    (e : Executor) (jobs_size id : ℕ) {q : Pool} {n : ℕ}
    → PoolSteps (start_pool e jobs_size) q n
    → (places id q ≡ in_channel id q.arrived) × Fits q
unfolding start_pool in_channel in_results
PoolSteps-places e jobs_size id here =
    (omega (arith, in_hands-idle id e.workers), (omega arith, omega arith))
PoolSteps-places e jobs_size id (next steps st) =
    let (balanced, fits) = PoolSteps-places e jobs_size id steps in
    (omega (arith, PoolStep-places id st, balanced), PoolStep-Fits st fits)
