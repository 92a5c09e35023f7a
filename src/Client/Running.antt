-- ===== src/Client/Running.antt =====
-- Start, Shutdown and Close of client.go.
use rivo.Prelude.{
  ◌*◌, String, true, not, Option, none, some, List, [], ◌∷◌, ◌++◌, map, if◌then◌else◌, contains,
}
use rivo.Base.{Error, already_started, Result, ok, err}
use rivo.Store.{Time, Worker, active, World, Store, ◌>>=◌, ignore_error, time_now}
use rivo.Store.Workers.{register_worker, deregister_worker}
use rivo.Executor.Producer.{ProducerConfig, new_producer}
use rivo.Retry.{default_policy}
use rivo.Executor.Completer.{new_completer}
use rivo.Executor.Pool.{new_executor}
use rivo.Handlers.{RegisteredHandler}
use rivo.Client.Lifecycle.{QueueConfig, Client}

-- The set of queue names, as a list with each name once. (Go gives the names of a map in any order.)
abbrev pub add_name : String → List String → List String
add_name q qs = if contains qs q then qs else q ∷ qs

abbrev pub names_of : List String → List String
names_of [] = []
names_of (q ∷ qs) = add_name q (names_of qs)

abbrev pub or_default_queue : List String → List String
or_default_queue [] = "default" ∷ []
or_default_queue (q ∷ qs) = q ∷ qs

unfoldable pub queue_names : Client → List String
queue_names c = or_default_queue (
    names_of (
      map (λ (h : RegisteredHandler). h.queue) c.handlers
      ++ map (λ (q : QueueConfig). q.name) c.config.queues))

abbrev pub worker_row : Client → List String → Time → Worker
worker_row c queues now = record {
  id = c.worker_id;
  namespace = c.config.namespace;
  queues = queues;
  concurrency = c.config.workers;
  status = active;
  started_at = now;
  last_heartbeat = 0;
  jobs_processed = 0;
  jobs_failed = 0;
}

abbrev pub producer_config : Client → List String → ProducerConfig
producer_config c queues = record {
  namespace = c.config.namespace;
  queues = queues;
  worker_id = c.worker_id;
  batch_size = 100;
  buffer_size = c.config.workers * 10;
}

abbrev pub started_client : Client → List String → Client
started_client c queues = record c {
  started = true;
  producer = some (new_producer (producer_config c queues));
  exec =
      some (new_executor (record { workers = c.config.workers; timeout = c.config.job_timeout }));
  completer = some (new_completer default_policy);
}

-- A call returns, or it panics.
pub data Outcome : Type 0 where
  returns : Result (Unit {0}) → Outcome
  panics : (text : String) → Outcome

module _ (w : World) where
  -- `Start`: the goroutines run on their own.
  unfoldable pub start : Client → Store → Outcome × Client × Store
  unfolding queue_names
  start c s =
      if c.started
      then (returns (err already_started), c, s)
      else (let queues = queue_names c in
          let (_, s') =
            (do now ← time_now w; ignore_error tt (register_worker w (worker_row c queues now)))
              s in
          (returns (ok tt), started_client c queues, s'))

  -- The goroutine that waits for the shutdown, when all parts have stopped.
  unfoldable pub finish_shutdown : Client → Store → Client × Store
  finish_shutdown c s =
      let (_, s') = deregister_worker w c.worker_id s in (record c { done_closed = true }, s')

  -- `Shutdown`: either the parts stop in time, or the context ends first, with its error. What the
  -- parts do after the context's end is not followed.
  unfoldable pub shutdown : Client → (late : Option Error) → Store → Outcome × Client × Store
  unfolding finish_shutdown
  shutdown c late s =
      if not c.started
      then (returns (ok tt), c, s)
      else if c.shutdown_closed
      then (panics "close of closed channel", c, s)
      else (let c' : Client = record c { shutdown_closed = true } in
          elim late [
            | some e ↦ (returns (err e), c', s)
            | none ↦ let (c'', s') = finish_shutdown c' s in (returns (ok tt), c'', s')
          ])

  abbrev pub close_database : Outcome → Client → Outcome × Client
  close_database (panics t) c = (panics t, c)
  close_database (returns r) c = (returns (ok tt), record c { database_closed = true })

  -- `Close`: an error of the shutdown is dropped, a panic is not.
  unfoldable pub close : Client → (late : Option Error) → Store → Outcome × Client × Store
  unfolding shutdown
  close c late s =
      let (o, c', s') = shutdown c late s in let (o', c'') = close_database o c' in (o', c'', s')
