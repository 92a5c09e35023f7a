-- ===== src/Executor/Pool.antt =====
-- internal/executor/executor.go: the workers that take jobs from the producer's channel, run them and
-- send the results to the completer, as a system of steps. `Places` follows each job through it.
pub mod Places
pub mod Ends
use Prim.Native.String.{◌++◌ as append}
use rivo.Prelude.{
  ℕ, zero, suc, ◌+◌, ◌*◌, ◌<◌, ◌≡◌, String, Bool, true, false, Option, none, some, List, [], ◌∷◌,
  ◌++◌, length, ◌==◌, if◌then◌else◌,
}
use rivo.Base.{Error, message, Result}
use rivo.Store.{JobRow, Duration}
use rivo.Executor.Completer.{JobResult}

-- What a call of the job handler comes to: it returns an error or nil, or it panics with a value,
-- of which the text is given, as `%v` prints it.
pub data Handled : Type 0 where
  returned : Option Error → Handled
  panicked : (text : String) → Handled

-- `executeJob`: `stack` is the text of the stack when the handler panics.
unfoldable pub execute_job : (stack : String) → JobRow → Handled → JobResult
execute_job stack job (returned e) = record { job = job; error = e }
execute_job stack job (panicked text) = record {
  job = job;
  error = some (message (append "panic: " (append text (append "\n" stack))));
}

-- Where a worker stands in its loop: at the outer select, in `executeJob`, at the inner select, and
-- at its end.
pub data Phase : Type 0 where
  idle : Phase
  executing : JobRow → Phase
  sending : JobResult → Phase
  stopped : Phase

pub record ExecutorConfig : Type 0 where
  pub workers : ℕ
  pub timeout : Duration

pub record Executor : Type 0 where
  pub workers : ℕ
  pub results_size : ℕ
  pub timeout : Duration

-- `NewExecutor`, its defaults included: 10 workers, five minutes.
unfoldable pub new_executor : ExecutorConfig → Executor
new_executor cfg =
    let workers = if cfg.workers == 0 then 10 else cfg.workers in
    record {
      workers = workers;
      results_size = workers * 2;
      timeout = if cfg.timeout == 0 then 300_000_000_000 else cfg.timeout;
    }

-- The channels and the workers. `stopping` is set once a shutdown is chosen or the context is done.
-- `dropped` and `handled` record what left the system, the results that a stop threw away and those
-- that the completer took, and `arrived` the jobs that the producer sent.
pub record Pool : Type 0 where
  pub jobs : List JobRow
  pub jobs_size : ℕ
  pub jobs_closed : Bool
  pub workers : List Phase
  pub results : List JobResult
  pub results_size : ℕ
  pub stopping : Bool
  pub dropped : List JobResult
  pub handled : List JobResult
  pub arrived : List JobRow

abbrev pub replicate {ℓ} : {A : Type ℓ} → ℕ → A → List A
replicate zero a = []
replicate (suc n) a = a ∷ replicate n a

-- `Start`, on an empty channel from the producer.
unfoldable pub start_pool : Executor → (jobs_size : ℕ) → Pool
start_pool e jobs_size = record {
  jobs = [];
  jobs_size = jobs_size;
  jobs_closed = false;
  workers = replicate e.workers idle;
  results = [];
  results_size = e.results_size;
  stopping = false;
  dropped = [];
  handled = [];
  arrived = [];
}

-- One step of the producer, of one worker, with the workers before and after it as they are, or of
-- the completer. The select statements choose among the cases that are ready.
pub data PoolStep : Pool → Pool → Type 0 where
  arrive :
      (p q : Pool) (job : JobRow)
      → p.jobs_closed ≡ false
      → length p.jobs < p.jobs_size
      → q ≡ record p { jobs = p.jobs ++ job ∷ []; arrived = p.arrived ++ job ∷ [] }
      → PoolStep p q
  take_job :
      (p q : Pool) (before after : List Phase) (job : JobRow) (rest : List JobRow)
      → p.workers ≡ before ++ idle ∷ after
      → p.jobs ≡ job ∷ rest
      → q ≡ record p { jobs = rest; workers = before ++ executing job ∷ after }
      → PoolStep p q
  channel_closed :
      (p q : Pool) (before after : List Phase)
      → p.workers ≡ before ++ idle ∷ after
      → p.jobs ≡ []
      → p.jobs_closed ≡ true
      → q ≡ record p { workers = before ++ stopped ∷ after }
      → PoolStep p q
  stop_idle :
      (p q : Pool) (before after : List Phase)
      → p.workers ≡ before ++ idle ∷ after
      → p.stopping ≡ true
      → q ≡ record p { workers = before ++ stopped ∷ after }
      → PoolStep p q
  execute :
      (p q : Pool) (before after : List Phase) (job : JobRow) (stack : String) (h : Handled)
      → p.workers ≡ before ++ executing job ∷ after
      → q ≡ record p { workers = before ++ sending (execute_job stack job h) ∷ after }
      → PoolStep p q
  send_result :
      (p q : Pool) (before after : List Phase) (r : JobResult)
      → p.workers ≡ before ++ sending r ∷ after
      → length p.results < p.results_size
      → q ≡ record p { workers = before ++ idle ∷ after; results = p.results ++ r ∷ [] }
      → PoolStep p q
  stop_sending :
      (p q : Pool) (before after : List Phase) (r : JobResult)
      → p.workers ≡ before ++ sending r ∷ after
      → p.stopping ≡ true
      → q ≡ record p { workers = before ++ stopped ∷ after; dropped = p.dropped ++ r ∷ [] }
      → PoolStep p q
  complete :
      (p q : Pool) (r : JobResult) (rest : List JobResult)
      → p.results ≡ r ∷ rest
      → q ≡ record p { results = rest; handled = p.handled ++ r ∷ [] }
      → PoolStep p q
  stop : (p q : Pool) → p.stopping ≡ false → q ≡ record p { stopping = true } → PoolStep p q
  close_jobs :
      (p q : Pool) → p.jobs_closed ≡ false → q ≡ record p { jobs_closed = true } → PoolStep p q

-- So many steps in a row.
pub data PoolSteps (p : Pool) : Pool → ℕ → Type 0 where
  here : PoolSteps p p 0
  next : {q r : Pool} {n : ℕ} → PoolSteps p q n → PoolStep q r → PoolSteps p r (suc n)
