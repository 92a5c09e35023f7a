-- ===== src/Lib.antt =====
-- Rivo: a job queue and a workflow engine on Postgres.
--
-- A client enqueues jobs (enqueue.go) as rows of the table rivo_jobs. A producer fetches rows that
-- are ready, workers call the handlers, and a completer stores what came of a job: completed, to
-- be retried, or discarded. Workflows are definitions of steps, stored as JSON, that an engine
-- runs one after the other, recording outputs and step states, so that a run can be replayed.
--
-- The files and the code they are about:
--   Prelude      tests, lists and integers that the others share
--   Base         Go errors and results, and JSON values
--   Store        internal/db/db.go: the rows (Rows), one statement of the database (Statement), and
--                the operations on jobs (Jobs: InsertJob, FetchJobs, CompleteJob, FailJob,
--                PromoteScheduledJobs, GetJob, CancelJob), workers (Workers), queues (Queues),
--                workflow definitions and runs (Runs), logs (Logs), script handlers (Scripts), and the
--                lists (Reads)
--   Retry        internal/retry/policy.go, the retry part of internal/executor/completer.go, and the
--                backoff functions of handler.go
--   Executor     internal/executor: handleResult (Completer), fetchAndSend (Producer), the loops of both
--                (Loops), and the workers as a system of steps (Pool)
--   Engine       internal/workflow/engine.go: the registries and contexts, the step types (Steps,
--                FanOut, Parallel) and ExecuteRun (Run)
--   Definition   the structs workflowDef and workflowStepDef of client.go, their encoding, and the
--                decoding by internal/workflow/engine.go (Decode)
--   Handlers     handler.go, job.go, logger.go, and context.go (Context)
--   Workflow     workflow.go, with its methods that build a workflow in Builder, and
--                serializeWorkflowDefinition of client.go (Serialize)
--   Client       enqueue.go (Enqueue), scheduler.go (Schedules), and client.go: handleJob, GetJob and
--                CancelJob (Jobs), NewClient and the registration of handlers (Lifecycle), Start,
--                Shutdown and Close (Running), the steps of RegisterWorkflow (Register), StartWorkflow
--                (Start), the lists and the tickers (Reads), and RerunWorkflowStep,
--                GetWorkflowRun and CancelWorkflowRun (Rerun)
--   Migrator     internal/migration/migrator.go: the files (Files) and Migrate
--   Http         api/http/server.go
--   Pipeline     FetchJobs, handleJob in executeJob, and handleResult, one job after the other; and any
--                number of clients on one database, as a system of steps (Service)
--   Tests        sample data, runs of the definitions, and the theorems at these samples
--
-- How the parts interact. The HTTP server calls the client; the client calls the store, and hands
-- its registered handlers to the executor (handleJob) and to the engine (RegisterWorkflow). Start
-- makes the producer and the executor, whose channels join them to the completer. StartWorkflow
-- stores the serialized definition and lets the engine execute the run.
--
-- How code becomes definitions. A method has the name of the Go method in lower case with
-- underscores. A function on the database takes the store, which holds all tables, and gives a
-- result and the next store. A statement is atomic: it fails and changes nothing, or it runs at
-- the time that its NOW() reads. Whether it fails and what the clock reads is a parameter,
-- `World`, by the number of the event: every statement, clock reading and call of a handler has
-- its own event. `World` also says what becomes of a call of a job's handler: it returns in time,
-- it returns after its context has ended, so that the statement that closes the log on that
-- context fails, or it panics. Time is in nanoseconds, 0 is the zero time. Rows that other
-- transactions hold are a parameter of FetchJobs (SKIP LOCKED). The partial unique index on
-- idempotency keys is checked by the statements that could break it.
--
-- A handler is a function of its context and of the event, so that it may answer differently each
-- time; it gives the output that it set and its result. The maps of outputs and of step states are
-- functions from names. The goroutines of a parallel step make moves (copy the outputs, run,
-- merge) that a scheduler interleaves; what is left of them runs when the scheduler has ended,
-- since the parent waits. That wait is not modelled further: the capacity of the channel of errors
-- and the calls of wg.Done are left out, and a run of a child's step is one move. The items of a
-- fan-out step run in an order that the scheduler gives. The recursion is structural throughout,
-- but for decimal digits, where the number itself is the fuel, which exceeds the number of its
-- digits. Floats, random numbers and errors.Is are functions in `Chance`. The backoffs of Retry
-- are the bit patterns of int64, and their arithmetic wraps modulo 2 ^ 64.
--
-- The workers of the executor, the completer, a stop and the closing of the channel are steps of
-- one system, so that every interleaving is a sequence of steps. The loops of the producer, the
-- completer, the scheduler and the heartbeat read a list of what they meet. A goroutine that
-- StartWorkflow or RerunWorkflowStep starts runs at once. A call on a client returns or panics;
-- whether the parts stop before the context of a Shutdown ends is an argument. Pipeline takes one
-- schedule of the workers, where the jobs of a fetch run one after the other.
--
-- Not of this repository, and so parameters: Duration.String() (`show`), the decoder of
-- encoding/json at the type of a request, strconv.ParseInt in a path and http.StatusText (Http),
-- the printing of a number (Migrator), the connection that the pool picks for a statement, the
-- identifier that uuid.New makes, what becomes of a JSON value that is decoded to an any and
-- encoded again (`reread`, in the adapter of a step's handler), and the column defaults and the
-- collation of rivo_handlers, a table that no migration creates. What the model needs of Go's
-- strings and strconv to load migrations is in Migrator.Files, on lists of code points.
--
-- Not modelled: the example programs and the web interface. The pgx driver and Postgres are seen
-- through the statements only, and are assumed to prepare each of them. Contexts and their
-- cancellation, beyond what `World` says of a handler's call, when a timeout strikes, the stack
-- traces and texts in logs, and Go's maps in their random order are left out, and so is what the
-- SQL of a migration does.
pub mod Prelude
pub mod Base
pub mod Store
pub mod Retry
pub mod Executor
pub mod Engine
pub mod Definition
pub mod Handlers
pub mod Workflow
pub mod Client
pub mod Migrator
pub mod Http
pub mod Pipeline
pub mod Tests
