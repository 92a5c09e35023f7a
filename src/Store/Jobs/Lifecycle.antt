-- ===== src/Store/Jobs/Lifecycle.antt =====
-- What each job statement of internal/db/db.go does to the state of a job.
use rivo.Prelude.{
  ℕ, suc, ◌≤◌, String, ◌≡◌, refl, ap, ◌∙◌, eq_refl, Bool, true, Option, none, some, List, [], ◌∷◌,
  arith, Bool-cases, inl, inr, find_first, if◌then◌else◌,
}
use rivo.Store.Rows.{Time, available, running, JobRow, Store}
use rivo.Store.Statement.{World}
use rivo.Store.Jobs.{
  is_terminal_state, is_due, with_id, may_cancel, promote, cancel, complete, fail, update_where,
  unique_keys, complete_job, fail_job, cancel_job, promote_scheduled_jobs,
}
use rivo.Store.Jobs.Insert.{IsQuiet}

pub some_inj {ℓ} : {A : Type ℓ} {a b : A} → some a ≡ some b → a ≡ b
some_inj h = cc

-- The row with an id, after an update that keeps the ids.
pub find_first-update_where :
    (id : ℕ) (p : JobRow → Bool) (f : JobRow → JobRow) (js : List JobRow) {j : JobRow}
    → ((k : JobRow) → (f k).id ≡ k.id)
    → find_first (with_id id) js ≡ some j
    → find_first (with_id id) (update_where p f js) ≡ some (if p j then f j else j)
unfolding update_where
find_first-update_where id p f [] same h = cc
find_first-update_where id p f (k ∷ ks) {j} same h = elim (Bool-cases (with_id id k)) [
  | inl here ↦
      ground (
        arith,
        same k,
        ap (λ (x : JobRow). some (if p x then f x else x)) (some_inj (rw here at h)),
      )
  | inr there ↦
      ground (arith, same k, find_first-update_where id p f ks {j = j} same (rw there at h))
]

pub find_first-with_id :
    (id : ℕ) (js : List JobRow) {j : JobRow} → find_first (with_id id) js ≡ some j → j.id ≡ id
find_first-with_id id [] h = cc
find_first-with_id id (k ∷ ks) {j} h = ground (arith, find_first-with_id id ks {j = j})

pub fail-id :
    (now : Time) (msg : String) (retry_at : Option Time) (j : JobRow)
    → (fail now msg retry_at j).id ≡ j.id
fail-id now msg none j = refl
fail-id now msg (some t) j = refl

module _ (w : World) (s : Store) {j : JobRow} (id : ℕ) (quiet : IsQuiet w)
    (found : find_first (with_id id) s.jobs ≡ some j) where
  -- CancelJob turns a live job into a cancelled one, and leaves a terminal job as it is.
  pub cancel_job_lem :
      find_first (with_id id) (cancel_job w id s).1.jobs
      ≡ some (if is_terminal_state j.state then j else cancel (w.clock s.event) j)
  unfolding cancel_job
  cancel_job_lem = rw (quiet s.event) (
      find_first-update_where id (may_cancel id) (cancel (w.clock s.event)) s.jobs (λ k. refl) found
      ∙ ground (arith, find_first-with_id id s.jobs found))

  -- CompleteJob marks the job as completed, whatever its state was.
  pub complete_job_lem :
      find_first (with_id id) (complete_job w id s).1.jobs ≡ some (complete (w.clock s.event) j)
  unfolding complete_job
  complete_job_lem = rw (quiet s.event) (
      find_first-update_where id (with_id id) (complete (w.clock s.event)) s.jobs (λ k. refl) found
      ∙ ground (arith, find_first-with_id id s.jobs found))

  -- FailJob records the failure on the job, whatever its state was, unless the index refuses.
  pub fail_job_lem :
      (msg : String) (retry_at : Option Time)
      → unique_keys (update_where (with_id id) (fail (w.clock s.event) msg retry_at) s.jobs) ≡ true
      → find_first (with_id id) (fail_job w id msg retry_at s).1.jobs
        ≡ some (fail (w.clock s.event) msg retry_at j)
  unfolding fail_job
  fail_job_lem msg retry_at u =
      rw (quiet s.event, u)
        (find_first-update_where id (with_id id) (fail (w.clock s.event) msg retry_at) s.jobs
            (fail-id (w.clock s.event) msg retry_at) found
          ∙ ground (arith, find_first-with_id id s.jobs found))

  -- PromoteScheduledJobs makes a waiting job of its namespace available once it is due.
  pub promote_lem :
      (namespace : String)
      → find_first (with_id id) (promote_scheduled_jobs w namespace s).1.jobs
        ≡ some (if is_due (w.clock s.event) namespace j then promote (w.clock s.event) j else j)
  unfolding promote_scheduled_jobs
  promote_lem namespace = rw (quiet s.event) (
      find_first-update_where id (is_due (w.clock s.event) namespace) (promote (w.clock s.event))
        s.jobs (λ k. refl) found)

event-cancel_job : (w : World) (id : ℕ) (s : Store) → (cancel_job w id s).1.event ≡ suc s.event
unfolding cancel_job
event-cancel_job w id s = ground arith

event-fail_job :
    (w : World) (id : ℕ) (msg : String) (retry_at : Option Time) (s : Store)
    → (fail_job w id msg retry_at s).1.event ≡ suc s.event
unfolding fail_job
event-fail_job w id msg retry_at s = ground arith

pub fail_then_promote :
    (w : World) (t : Store) (k : JobRow) (id : ℕ) (msg : String) (retry_at : Time)
    → IsQuiet w
    → find_first (with_id id) t.jobs ≡ some k
    → unique_keys (update_where (with_id id) (fail (w.clock t.event) msg (some retry_at)) t.jobs)
      ≡ true
    → retry_at ≤ w.clock (suc t.event)
    → find_first
        (with_id id)
        (promote_scheduled_jobs w k.namespace (fail_job w id msg (some retry_at) t).1).1.jobs
      ≡ some (promote (w.clock (suc t.event)) (fail (w.clock t.event) msg (some retry_at) k))
fail_then_promote w t k id msg retry_at quiet found u due =
    let t' = (fail_job w id msg (some retry_at) t).1 in
    let failed_row = fail (w.clock t.event) msg (some retry_at) k in
    promote_lem w t' {j = failed_row} id quiet
      (fail_job_lem w t id quiet found msg (some retry_at) u) k.namespace
    ∙ ground (arith, event-fail_job w id msg (some retry_at) t, eq_refl k.namespace)

-- A job that is cancelled while its handler runs is not left alone: if the handler fails with a
-- retry left, FailJob makes the job retryable, and a promotion that is not before the retry time
-- makes it available again. (The rows stay within the unique index, and no statement fails.)
pub cancelled_job_revived :
    (w : World) (s : Store) (j : JobRow) (id : ℕ) (msg : String) (retry_at : Time)
    → IsQuiet w
    → find_first (with_id id) s.jobs ≡ some j
    → j.state ≡ running
    → unique_keys (
        update_where
          (with_id id)
          (fail (w.clock (suc s.event)) msg (some retry_at))
          (cancel_job w id s).1.jobs)
      ≡ true
    → retry_at ≤ w.clock (suc (suc s.event))
    → (k : JobRow) × (find_first
          (with_id id)
          (promote_scheduled_jobs w j.namespace
            (fail_job w id msg (some retry_at) (cancel_job w id s).1).1).1.jobs
        ≡ some k)
      × (k.state ≡ available)
      × (k.cancelled_at ≡ some (w.clock s.event))
cancelled_job_revived w s j id msg retry_at quiet found run u due =
    let t = (cancel_job w id s).1 in
    let k = cancel (w.clock s.event) j in
    let here = cancel_job_lem w s id quiet found ∙ ground (arith, run) in
    let e = event-cancel_job w id s in
    (
      promote (w.clock (suc t.event)) (fail (w.clock t.event) msg (some retry_at) k),
      fail_then_promote w t k id msg retry_at quiet here (rw e u) (rw e due),
      refl,
      refl,
    )
