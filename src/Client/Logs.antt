-- ===== src/Client/Logs.antt =====
-- The log row that handleJob of client.go leaves of a run.
use rivo.Prelude.{
  ℕ, suc, String, Option, none, some, List, [], ◌∷◌, ◌++◌, ◌≡◌, refl, arith, All, ◌<◌,
}
use Prim.Native.String.{◌++◌ as append}
use rivo.Base.{Error, message, Result, ok, err, error_text}
use rivo.Store.{JobRow, LogRow, LogStatus, Time, World, Fate, in_time, late, panics, Store}
use rivo.Store.Logs.{
  create_job_log, complete_job_log, fail_job_log, update_logs, running_log, complete_log, fail_log,
}
use rivo.Handlers.{RegisteredHandler}
use rivo.Client.Jobs.{error_of, job_from_row, handler_of, handle_job, save_logs, after_call}
use rivo.Executor.Pool.{Handled, returned, panicked}

-- An update of the row that was appended last changes that row alone.
update_logs-append :
    (id : ℕ) (f : LogRow → LogRow) (ls : List LogRow) (l : LogRow)
    → All (λ (x : LogRow). x.id < id) ls
    → l.id ≡ id
    → update_logs id f (ls ++ l ∷ []) ≡ ls ++ f l ∷ []
update_logs-append id f [] l below e = ground arith
update_logs-append id f (x ∷ xs) l below e =
    ground (arith, below.0, update_logs-append id f xs l below.1 e)

-- A row that tells what came of the run. Of a call that panics or returns after its context has
-- ended the row tells nothing: it is left as running.
abbrev pub Tells : Fate → Result (Unit {0}) → LogRow → Type 0
Tells in_time (ok _) l = (l.status ≡ LogStatus.completed) × (l.error ≡ none)
Tells in_time (err e) l = (l.status ≡ LogStatus.failed) × (l.error ≡ some (error_text e))
Tells late result l = (l.status ≡ LogStatus.running) × (l.error ≡ none)
Tells (panics text) result l = (l.status ≡ LogStatus.running) × (l.error ≡ none)

-- The error that the executor passes on with the job, if any.
abbrev pub told_error : (stack : String) → Fate → Result (Unit {0}) → Option Error
told_error stack in_time result = error_of result
told_error stack late result = error_of result
told_error stack (panics text) result =
    some (message (append "panic: " (append text (append "\n" stack))))

abbrev pub closed_log : Fate → Result (Unit {0}) → Time → LogRow → LogRow
closed_log in_time (ok _) now l = complete_log now none l
closed_log in_time (err e) now l = fail_log now (error_text e) l
closed_log late result now l = l
closed_log (panics text) result now l = l

-- What handleJob comes to, and the number of the event after it.
abbrev pub handled : Fate → Result (Unit {0}) → Handled
handled in_time result = returned (error_of result)
handled late result = returned (error_of result)
handled (panics text) result = panicked text

abbrev pub closed_event : Fate → ℕ → ℕ
closed_event in_time n = suc n
closed_event late n = suc n
closed_event (panics text) n = n

pub closed_log-Tells :
    (fate : Fate) (result : Result (Unit {0})) (now : Time) (l : LogRow)
    → l.status ≡ LogStatus.running
    → l.error ≡ none
    → Tells fate result (closed_log fate result now l)
closed_log-Tells in_time (ok _) now l begun open_row = (refl, open_row)
closed_log-Tells in_time (err e) now l begun open_row = (refl, refl)
closed_log-Tells late result now l begun open_row = (begun, open_row)
closed_log-Tells (panics text) result now l begun open_row = (begun, open_row)

pub closed_log_fields :
    (fate : Fate) (result : Result (Unit {0})) (now : Time) (l : LogRow)
    → let l' = closed_log fate result now l in
      (l'.owner ≡ l.owner)
      × (l'.attempt ≡ l.attempt)
      × (l'.worker_id ≡ l.worker_id)
      × (l'.id ≡ l.id)
closed_log_fields in_time (ok _) now l = (refl, refl, refl, refl)
closed_log_fields in_time (err e) now l = (refl, refl, refl, refl)
closed_log_fields late result now l = (refl, refl, refl, refl)
closed_log_fields (panics text) result now l = (refl, refl, refl, refl)

module _ (w : World) (quiet : (n : ℕ) → w.fault n ≡ none) where
  save_logs_lem :
      (ls : List LogRow) (l : LogRow) (result : Result (Unit {0})) (s : Store)
      → All (λ (x : LogRow). x.id < l.id) ls
      → s.job_logs ≡ ls ++ l ∷ []
      → save_logs w l.id result s ≡ (
        ok tt,
        record s {
          job_logs = ls ++ closed_log in_time result (w.clock s.event) l ∷ [];
          event = suc s.event;
        },
      )
  unfolding complete_job_log fail_job_log
  save_logs_lem ls l (ok _) s below e = rw (quiet s.event) (
      rw e
        (rw (update_logs-append l.id (complete_log (w.clock s.event) none) ls l below refl) refl))
  save_logs_lem ls l (err x) s below e = rw (quiet s.event) (
      rw e (
        rw (update_logs-append l.id (fail_log (w.clock s.event) (error_text x)) ls l below refl)
          refl))

  after_call_lem :
      (ls : List LogRow) (l : LogRow) (fate : Fate) (result : Result (Unit {0})) (s : Store)
      → All (λ (x : LogRow). x.id < l.id) ls
      → s.job_logs ≡ ls ++ l ∷ []
      → after_call w l.id fate result s ≡ (
        ok (handled fate result),
        record s {
          job_logs = ls ++ closed_log fate result (w.clock s.event) l ∷ [];
          event = closed_event fate s.event;
        },
      )
  after_call_lem ls l in_time result s below e =
      rw (save_logs_lem ls l result s below e) (ground arith)
  after_call_lem ls l late result s below e = rw (← e) refl
  after_call_lem ls l (panics text) result s below e = rw (← e) refl

  -- The whole effect of handleJob.
  pub handle_job_lem :
      (hs : List RegisteredHandler) (worker_id : String) (row : JobRow) (s : Store)
      {h : RegisteredHandler}
      → handler_of hs row.kind ≡ some h
      → All (λ (l : LogRow). l.id < s.next_id) s.job_logs
      → let fate = w.call (suc s.event) in
        let result = (h.fn h.options.timeout (job_from_row row) (suc s.event)).1 in
        let l =
          running_log s.next_id (w.clock s.event) row.id "" row.attempt worker_id row.payload in
        handle_job w hs worker_id row s ≡ (
          ok (handled fate result),
          record s {
            job_logs = s.job_logs ++ closed_log fate result (w.clock (suc (suc s.event))) l ∷ [];
            next_id = suc s.next_id;
            event = closed_event fate (suc (suc s.event));
          },
        )
  unfolding handle_job job_from_row create_job_log
  handle_job_lem hs worker_id row s {h} found below =
      let result = (h.fn h.options.timeout (job_from_row row) (suc s.event)).1 in
      let l = running_log s.next_id (w.clock s.event) row.id "" row.attempt worker_id row.payload in
      let t : Store = record s {
        job_logs = s.job_logs ++ l ∷ [];
        next_id = suc s.next_id;
        event = suc (suc s.event);
      } in
      rw (found, handle_job)
        (rw (quiet s.event, handle_job)
          (rw (after_call_lem s.job_logs l (w.call (suc s.event)) result t below refl) refl))
