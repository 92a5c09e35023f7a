-- ===== src/Client/Lifecycle.antt =====
-- The client of client.go and how it is set up: NewClient, RegisterHandler and RegisterWorkflow.
use rivo.Prelude.{
  ℕ, String, Bool, false, Option, none, some, List, [], ◌∷◌, map, str_eq, ◌==◌, if◌then◌else◌,
  update, empty,
}
use rivo.Base.{Json, message, wrapf, Result, ok, err}
use rivo.Store.{Duration, World}
use rivo.Executor.Producer.{Producer}
use rivo.Retry.{Policy}
use rivo.Executor.Pool.{Executor}
use rivo.Handlers.{HandlerFunc, HandlerOptions, zero_handler_options, RegisteredHandler}
use rivo.Engine.{Engine, new_engine}
use rivo.Workflow.{Workflow}
use rivo.Client.Jobs.{execute_handler}
use rivo.Client.Register.{register_workflow_steps}

pub record QueueConfig : Type 0 where
  pub name : String
  pub priority : ℕ
  pub concurrency : ℕ

pub record Config : Type 0 where
  pub database_url : String
  pub max_conns : ℕ
  pub workers : ℕ
  pub queues : List QueueConfig
  pub namespace : String
  pub poll_interval : Duration
  pub job_timeout : Duration
  pub auto_migrate : Bool

-- `started` is never reset. The channels `shutdown` and `done` are closed at most once: a second
-- close panics.
pub record Client : Type 0 where
  pub config : Config
  pub worker_id : String
  pub handlers : List RegisteredHandler
  pub workflows : String → Option Workflow
  pub workflow_engine : Engine
  pub producer : Option Producer
  pub exec : Option Executor
  pub completer : Option Policy
  pub started : Bool
  pub shutdown_closed : Bool
  pub done_closed : Bool
  pub database_closed : Bool

abbrev pub or_default : ℕ → ℕ → ℕ
or_default d n = if n == 0 then d else n

abbrev pub default_queues : List QueueConfig → List QueueConfig
default_queues [] = record { name = "default"; priority = 0; concurrency = 0 } ∷ []
default_queues (q ∷ qs) = q ∷ qs

-- The defaults: 100 milliseconds between polls, five minutes for a job.
unfoldable pub with_defaults : Config → Config
with_defaults c = record c {
  max_conns = or_default 25 c.max_conns;
  workers = or_default 10 c.workers;
  namespace = if str_eq c.namespace "" then "default" else c.namespace;
  poll_interval = or_default 100_000_000 c.poll_interval;
  job_timeout = or_default 300_000_000_000 c.job_timeout;
  queues = default_queues c.queues;
}

abbrev pub fresh_client : Config → (worker_id : String) → Client
fresh_client c worker_id = record {
  config = c;
  worker_id = worker_id;
  handlers = [];
  workflows = empty;
  workflow_engine = record (new_engine c.namespace) { worker_id = worker_id };
  producer = none;
  exec = none;
  completer = none;
  started = false;
  shutdown_closed = false;
  done_closed = false;
  database_closed = false;
}

abbrev pub after_connect :
    Config → (worker_id : String) → (connected migrated : Result (Unit {0})) → Result Client
after_connect c worker_id (err e) migrated = err (wrapf "connecting to database: " e)
after_connect c worker_id (ok _) (err e) =
    if c.auto_migrate then err (wrapf "running migrations: " e) else ok (fresh_client c worker_id)
after_connect c worker_id (ok _) (ok _) = ok (fresh_client c worker_id)

-- `NewClient`, with what the connection and, if they run, the migrations answer.
unfoldable pub new_client :
    Config → (worker_id : String) → (connected migrated : Result (Unit {0})) → Result Client
unfolding with_defaults
new_client c worker_id connected migrated =
    if str_eq c.database_url ""
    then err (message "database URL is required")
    else after_connect (with_defaults c) worker_id connected migrated

-- The engine, with the executor of handler steps: it looks the handler up when it is called.
unfoldable pub engine_of : World → Client → Engine
engine_of w c = record c.workflow_engine {
  handler_step_executor = some (execute_handler w c.handlers c.config.namespace);
}

-- `c.handlers[kind] = h`
abbrev pub put_handler : RegisteredHandler → List RegisteredHandler → List RegisteredHandler
put_handler h [] = h ∷ []
put_handler h (x ∷ xs) =
    let rest = put_handler h xs in if str_eq x.kind h.kind then h ∷ xs else x ∷ rest

abbrev pub options_of : Option HandlerOptions → HandlerOptions
options_of none = zero_handler_options
options_of (some o) = o

unfoldable pub register_handler :
    Client → (kind : String) → HandlerFunc → Option HandlerOptions → Client
register_handler c kind fn opts =
    let o = options_of opts in
    record c {
      handlers =
          put_handler
            (record {
              kind = kind;
              queue = if str_eq o.queue "" then kind else o.queue;
              fn = fn;
              options = o;
            })
            c.handlers;
    }

pub record HandlerInfo : Type 0 where
  pub kind : String
  pub queue : String
  pub concurrency : ℕ
  pub max_attempts : ℕ

unfoldable pub registered_handlers : Client → List HandlerInfo
registered_handlers c =
    map
      (λ (h : RegisteredHandler). record {
        kind = h.kind;
        queue = h.queue;
        concurrency = h.options.concurrency;
        max_attempts = or_default 25 h.options.retry.max_attempts;
      })
      c.handlers

unfoldable pub register_workflow : (reread : Json → Json) → Client → Workflow → Client
register_workflow reread c wf = record c {
  workflows = update c.workflows wf.name wf;
  workflow_engine = register_workflow_steps reread wf.name wf.steps c.workflow_engine;
}
