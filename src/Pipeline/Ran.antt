-- ===== src/Pipeline/Ran.antt =====
-- What one job does to the tables when handleJob of client.go has run it and handleResult of
-- internal/executor/completer.go has stored the result, on a database that does not fail.
use rivo.Prelude.{
  ℕ, suc, ◌≡◌, ◌<◌, ◌⊎◌, refl, ◌∙◌, ap, true, false, String, Option, none, some, List, [], ◌∷◌,
  ◌++◌, arith, All, ◌==◌, find_first, inl, inr, Option-cases, All-append, All-mono, if◌then◌else◌,
}
use rivo.Base.{Error, Result, ok, error_text, wrap_suffix, handler_not_found}
use rivo.Store.{
  Time, JobRow, LogRow, World, Fate, in_time, late, panics, Store, completed, retryable, discarded,
}
use rivo.Store.Logs.{running_log}
use rivo.Store.Jobs.{with_id, is_live, update_where}
use rivo.Store.Jobs.Insert.{IsQuiet}
use rivo.Store.Jobs.Invariant.{HasTable}
use rivo.Store.Jobs.Lifecycle.{find_first-update_where, fail-id}
use rivo.Retry.{Chance, Policy, completer_retry}
use rivo.Handlers.{RegisteredHandler}
use rivo.Client.Jobs.{handler_of, handle_job, job_from_row}
use rivo.Client.Logs.{
  handle_job_lem, handled, told_error, closed_log, closed_event, closed_log-Tells,
  closed_log_fields, Tells,
}
use rivo.Executor.Completer.{handle_result}
use rivo.Executor.Pool.{returned, execute_job}
use rivo.Pipeline.{run_job}
use rivo.Pipeline.Settle.{IsLiveAt, settle, event_after, settle-IsTable, handle_result_lem}

if_self : {A : Type 0} (n : ℕ) (a b : A) → (if n == n then a else b) ≡ a
if_self n a b = ground arith

-- An update of the row with another id does not change which row is found.
find_first-update_other :
    (id x : ℕ) (f : JobRow → JobRow) (js : List JobRow)
    → ((k : JobRow) → (f k).id ≡ k.id)
    → (id == x) ≡ false
    → find_first (with_id x) (update_where (with_id id) f js) ≡ find_first (with_id x) js
unfolding update_where
find_first-update_other id x f [] same other = refl
find_first-update_other id x f (k ∷ ks) same other =
    ground (arith, same k, find_first-update_other id x f ks same other)

-- The table of jobs is in order, and the ids of the logs lie below the next one.
pub record IsSound (s : Store) : Type 0 where
  pub table : HasTable s
  pub logs : All (λ (l : LogRow). l.id < s.next_id) s.job_logs

-- A row that is live and stands in the table as it is.
abbrev pub IsHeld : List JobRow → JobRow → Type 0
IsHeld js row = (find_first (with_id row.id) js ≡ some row) × (is_live row ≡ true)

module _ (w : World) (c : Chance) (p : Policy) (hs : List RegisteredHandler)
    (worker_id : String) where
  -- The row `k` of a job tells the error that its run came to, where `row` is the row that was run: it is
  -- completed after a run without an error. After an error it has one more entry for that attempt with the text of
  -- the error, and it is discarded if the policy gives no retry time, else retryable at the
  -- policy's time. Its attempt is that of `row`.
  abbrev pub Agrees : Option Error → (row k : JobRow) → Type 0
  Agrees none row k = (k.state ≡ completed) × (k.attempt ≡ row.attempt)
  Agrees (some e) row k =
      (asked at : Time) × (k.errors
        ≡ row.errors ++ record { attempt = row.attempt; at = at; error = error_text e } ∷ [])
      × (k.attempt ≡ row.attempt)
      × ((completer_retry c p asked row.attempt e ≡ none) × (k.state ≡ discarded)
          ⊎ (completer_retry c p asked row.attempt e ≡ some k.scheduled_at) × (k.state ≡ retryable))

  settle-Agrees :
      (error : Option Error) (n : ℕ) (row : JobRow)
      → Agrees error row (settle w c p n row error row)
  settle-Agrees none n row = (refl, refl)
  settle-Agrees (some e) n row =
      elim (Option-cases (completer_retry c p (w.clock n) row.attempt e)) [
        | inl never ↦ rw never (w.clock n, w.clock (suc n), refl, refl, inl (never, refl))
        | inr (t, later) ↦ rw later (w.clock n, w.clock (suc n), refl, refl, inr (later, refl))
      ]

  -- What became of the logs: one row that tells the answer of the handler, if it came in time, or
  -- none where no handler is registered.
  pub data Logged (row : JobRow) (error : Option Error) (s t : Store) : Type 0 where
    told :
        (h : RegisteredHandler) (event : ℕ) (l : LogRow)
        → handler_of hs row.kind ≡ some h
        → error
          ≡ told_error
              (w.stack (suc event))
              (w.call event)
              (h.fn h.options.timeout (job_from_row row) event).1
        → t.job_logs ≡ s.job_logs ++ l ∷ []
        → l.id ≡ s.next_id
        → t.next_id ≡ suc s.next_id
        → l.owner ≡ row.id
        → l.attempt ≡ row.attempt
        → l.worker_id ≡ worker_id
        → Tells (w.call event) (h.fn h.options.timeout (job_from_row row) event).1 l
        → Logged row error s t
    unknown :
        handler_of hs row.kind ≡ none
        → error ≡ some (wrap_suffix handler_not_found row.kind)
        → t.job_logs ≡ s.job_logs
        → t.next_id ≡ s.next_id
        → Logged row error s t

  Logged-below :
      (row : JobRow) (error : Option Error) (s t : Store)
      → Logged row error s t
      → All (λ (l : LogRow). l.id < s.next_id) s.job_logs
      → All (λ (l : LogRow). l.id < t.next_id) t.job_logs
  Logged-below row error s t (told h event l _ _ logs id next_id _ _ _ _) below =
      rw (logs, next_id)
        (All-append (λ (x : LogRow). x.id < suc s.next_id) s.job_logs (l ∷ [])
          (All-mono (λ (x : LogRow). x.id < s.next_id) (λ (x : LogRow). x.id < suc s.next_id)
            (λ x b. omega arith) s.job_logs below)
          (omega arith, tt))
  Logged-below row error s t (unknown _ _ logs next_id) below = rw (logs, next_id) below

  pub record Ran (row : JobRow) (s t : Store) : Type 0 where
    pub error : Option Error
    pub event : ℕ
    pub jobs : t.jobs ≡ update_where (with_id row.id) (settle w c p event row error) s.jobs
    pub next_job_id : t.next_job_id ≡ s.next_job_id
    pub logged : Logged row error s t

  handle_job-unknown :
      (row : JobRow) (s : Store)
      → handler_of hs row.kind ≡ none
      → handle_job w hs worker_id row s
        ≡ (ok (returned (some (wrap_suffix handler_not_found row.kind))), s)
  unfolding handle_job
  handle_job-unknown row s absent = rw (absent, handle_job) refl

  execute_job-told_error :
      (stack : String) (fate : Fate) (row : JobRow) (result : Result (Unit {0}))
      → execute_job stack row (handled fate result)
        ≡ record { job = row; error = told_error stack fate result }
  unfolding execute_job
  execute_job-told_error stack in_time row result = refl
  execute_job-told_error stack late row result = refl
  execute_job-told_error stack (panics text) row result = refl

  -- The text of the stack matters only after a panic, which is before the event of the closing.
  told_error-stack :
      (fate : Fate) (result : Result (Unit {0})) (n : ℕ)
      → told_error (w.stack (closed_event fate n)) fate result ≡ told_error (w.stack n) fate result
  told_error-stack in_time result n = refl
  told_error-stack late result n = refl
  told_error-stack (panics text) result n = refl

  finish :
      (row : JobRow) (error : Option Error) (s : Store)
      → IsQuiet w
      → HasTable s
      → IsLiveAt row.id s.jobs
      → (handle_result w c p (record { job = row; error = error }) s).1 ≡ record s {
        jobs = update_where (with_id row.id) (settle w c p s.event row error) s.jobs;
        event = event_after w c p error s.event;
      }
  finish row error s quiet t live = ap (λ x. x.1) (handle_result_lem w c p row error s quiet t live)

  pub run_job-Ran :
      (row : JobRow) (s : Store)
      → IsQuiet w
      → IsSound s
      → IsLiveAt row.id s.jobs
      → Ran row s (run_job w c p hs worker_id row s)
  unfolding run_job handle_result execute_job
  run_job-Ran row s quiet sound live = elim (Option-cases (handler_of hs row.kind)) [
    | inl absent ↦
        let error = some (wrap_suffix handler_not_found row.kind) in
        rw (handle_job-unknown row s absent, run_job)
          (rw (finish row error s quiet sound.table live) (record {
            error = error;
            event = s.event;
            jobs = refl;
            next_job_id = refl;
            logged = unknown absent refl refl refl;
          }))
    | inr (h, found) ↦
        let fate = w.call (suc s.event) in
        let result = (h.fn h.options.timeout (job_from_row row) (suc s.event)).1 in
        let l =
          running_log s.next_id (w.clock s.event) row.id "" row.attempt worker_id row.payload in
        let now = w.clock (suc (suc s.event)) in
        let t : Store = record s {
          job_logs = s.job_logs ++ closed_log fate result now l ∷ [];
          next_id = suc s.next_id;
          event = closed_event fate (suc (suc s.event));
        } in
        let error = told_error (w.stack t.event) fate result in
        let (owner, attempt, worker, id) = closed_log_fields fate result now l in
        rw (handle_job_lem w quiet hs worker_id row s {h = h} found sound.logs, run_job)
          (rw (execute_job-told_error (w.stack t.event) fate row result) (
            rw (finish row error t quiet sound.table live) (record {
              error = error;
              event = t.event;
              jobs = refl;
              next_job_id = refl;
              logged =
                  told h (suc s.event) (closed_log fate result now l) found
                    (told_error-stack fate result (suc (suc s.event))) refl id refl owner attempt
                    worker (closed_log-Tells fate result now l refl refl);
            })))
  ]

  settle-id :
      (n : ℕ) (row : JobRow) (o : Option Error) (k : JobRow) → (settle w c p n row o k).id ≡ k.id
  settle-id n row none k = refl
  settle-id n row (some e) k =
      fail-id (w.clock (suc n)) (error_text e) (completer_retry c p (w.clock n) row.attempt e) k

  module _ (row : JobRow) (s t : Store) (ran : Ran row s t) where
    pub Ran-found :
        find_first (with_id row.id) s.jobs ≡ some row
        → (k : JobRow) × (find_first (with_id row.id) t.jobs ≡ some k) × Agrees ran.error row k
    Ran-found found = (
      settle w c p ran.event row ran.error row,
      rw ran.jobs (
          find_first-update_where row.id (with_id row.id) (settle w c p ran.event row ran.error)
            s.jobs (settle-id ran.event row ran.error) found
          ∙ ap some (if_self row.id _ row)),
      settle-Agrees ran.error ran.event row,
    )

    pub Ran-other :
        (x : ℕ)
        → (row.id == x) ≡ false
        → find_first (with_id x) t.jobs ≡ find_first (with_id x) s.jobs
    Ran-other x other = rw ran.jobs (
        find_first-update_other row.id x (settle w c p ran.event row ran.error) s.jobs
          (settle-id ran.event row ran.error) other)

    pub Ran-IsSound : IsSound s → IsLiveAt row.id s.jobs → IsSound t
    Ran-IsSound sound live = record {
      table =
          rw (ran.jobs, ran.next_job_id)
            (settle-IsTable w c p ran.event row ran.error row.id s.jobs s.next_job_id live
              sound.table);
      logs = Logged-below row ran.error s t ran.logged sound.logs;
    }
