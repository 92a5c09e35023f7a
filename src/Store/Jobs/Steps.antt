-- ===== src/Store/Jobs/Steps.antt =====
-- Every sequence of the job statements of internal/db/db.go, by any number of clients.
use rivo.Prelude.{
  ℕ, suc, ◌<◌, String, ◌≡◌, refl, sym, subst, Bool, true, false, Option, none, some, List, [], ◌∷◌,
  ◌++◌, map, arith, All-of_mem, inl, inr, str_eq, contains_id, All-map_self,
}
use rivo.Base.{Result-cases}
use rivo.Store.Rows.{Time, JobRow, Store}
use rivo.Store.Statement.{World, tick}
use rivo.Store.Jobs.{
  is_available, is_due, with_id, may_cancel, promote, cancel, complete, fail, InsertJobParams,
  new_row, insert_row, insert_job, insert_new, insert_unless, insert_keyed, select_by_key,
  complete_job, fail_job, promote_scheduled_jobs, cancel_job,
}
use rivo.Store.Jobs.Next.{is_next, next_jobs, fetch_jobs, claim}
use rivo.Store.Jobs.Invariant.{
  HasTable, outcome-HasTable, map-IsTable, complete-IsTame, cancel-IsTame, promote-IsTame,
  claim-IsTame, next_jobs_available, append-IsTable, commit-IsTable, fail-increasing,
  same_ids-Increasing, change,
}

pub is_next-available :
    (locked : ℕ → Bool) (now : Time) (namespace : String) (queues : List String) (j : JobRow)
    → is_next locked now namespace queues j ≡ true
    → is_available j.state ≡ true
unfolding is_next
is_next-available locked now namespace queues j h = ground arith

module _ (w : World) where
  complete_job-HasTable : (id : ℕ) (s : Store) → HasTable s → HasTable (complete_job w id s).1
  unfolding complete_job
  complete_job-HasTable id s t = outcome-HasTable (w.fault s.event) _ (tick s) t (
      map-IsTable (change (with_id id) (complete (w.clock s.event))) s.jobs s.next_job_id
        (All-of_mem _ s.jobs (λ j _. complete-IsTame (w.clock s.event) id j)) t)

  cancel_job-HasTable : (id : ℕ) (s : Store) → HasTable s → HasTable (cancel_job w id s).1
  unfolding cancel_job
  cancel_job-HasTable id s t = outcome-HasTable (w.fault s.event) _ (tick s) t (
      map-IsTable (change (may_cancel id) (cancel (w.clock s.event))) s.jobs s.next_job_id
        (All-of_mem _ s.jobs (λ j _. cancel-IsTame (w.clock s.event) id j)) t)

  promote-HasTable :
      (namespace : String) (s : Store)
      → HasTable s
      → HasTable (promote_scheduled_jobs w namespace s).1
  unfolding promote_scheduled_jobs
  promote-HasTable namespace s t =
      let now = w.clock s.event in
      outcome-HasTable (w.fault s.event) _ (tick s) t (
        map-IsTable (change (is_due now namespace) (promote now)) s.jobs s.next_job_id
          (All-of_mem _ s.jobs (λ j _. promote-IsTame now namespace j)) t)

  fail_job-HasTable :
      (id : ℕ) (msg : String) (retry_at : Option Time) (s : Store)
      → HasTable s
      → HasTable (fail_job w id msg retry_at s).1
  unfolding fail_job
  fail_job-HasTable id msg retry_at s t =
      let g = change (with_id id) (fail (w.clock s.event) msg retry_at) in
      let same = fail-increasing (w.clock s.event) id msg retry_at in
      outcome-HasTable (w.fault s.event) _ (tick s) t (
        commit-IsTable tt (map g s.jobs) s.next_job_id (tick s) t λ u. record {
          increasing = same_ids-Increasing g s.jobs same t.increasing;
          below =
              All-map_self (λ j. j.id < s.next_job_id) (λ j. j.id < s.next_job_id) g
                (λ j b. subst (λ n. n < s.next_job_id) (sym (same j)) b) s.jobs t.below;
          unique = u;
        })

  pub fetch_jobs-HasTable :
      (locked : ℕ → Bool) (namespace : String) (queues : List String) (limit : ℕ)
      (worker_id : String) (s : Store)
      → HasTable s
      → HasTable (fetch_jobs w locked namespace queues limit worker_id s).1
  unfolding fetch_jobs
  fetch_jobs-HasTable locked namespace queues limit worker_id s t =
      let now = w.clock s.event in
      let claimed = next_jobs locked now namespace queues limit s.jobs in
      outcome-HasTable (w.fault s.event) _ (tick s) t (
        map-IsTable (change (λ k. contains_id claimed k.id) (claim now worker_id)) s.jobs
          s.next_job_id
          (All-of_mem _ s.jobs λ j m. claim-IsTame claimed now worker_id j λ h.
            is_next-available locked now namespace queues j
              (next_jobs_available locked now namespace queues limit s.jobs t.increasing m h))
          t)

  insert_row-HasTable :
      (p : InsertJobParams) (s : Store) → HasTable s → HasTable (insert_row w p s).1
  unfolding insert_row
  insert_row-HasTable p s t =
      let row = new_row s.next_job_id (w.clock s.event) p in
      outcome-HasTable (w.fault s.event) _ (tick s) t (
        commit-IsTable row (s.jobs ++ row ∷ []) (suc s.next_job_id) (tick s) t
          (λ u. append-IsTable s.jobs s.next_job_id row refl u t))

  insert_new-HasTable :
      (p : InsertJobParams) (s : Store) → HasTable s → HasTable (insert_new w p s).1
  unfolding insert_new
  insert_new-HasTable p s t =
      let t' = insert_row-HasTable p s t in
      elim (Result-cases (insert_row w p s).0) [
        | inl (row, e) ↦ rw e t'
        | inr (e, broken) ↦ rw broken t'
      ]

  insert_unless-HasTable :
      (p : InsertJobParams) (found : Option JobRow) (s : Store)
      → HasTable s
      → HasTable (insert_unless w p found s).1
  insert_unless-HasTable p (some j) s t = t
  insert_unless-HasTable p none s t = insert_new-HasTable p s t

  select_by_key-HasTable :
      (p : InsertJobParams) (key : String) (s : Store)
      → HasTable s
      → HasTable (select_by_key w p key s).1
  unfolding select_by_key
  select_by_key-HasTable p key s t = outcome-HasTable (w.fault s.event) _ (tick s) t t

  insert_keyed-HasTable :
      (p : InsertJobParams) (keyless : Bool) (s : Store)
      → HasTable s
      → HasTable (insert_keyed w p keyless s).1
  unfolding insert_keyed
  insert_keyed-HasTable p true s t = insert_new-HasTable p s t
  insert_keyed-HasTable p false s t =
      let t' = select_by_key-HasTable p p.idempotency_key s t in
      elim (Result-cases (select_by_key w p p.idempotency_key s).0) [
        | inl (found, e) ↦ rw e (insert_unless-HasTable p found _ t')
        | inr (e, broken) ↦ rw broken t'
      ]

  insert_job-HasTable :
      (p : InsertJobParams) (s : Store) → HasTable s → HasTable (insert_job w p s).1
  unfolding insert_job
  insert_job-HasTable p s t = insert_keyed-HasTable p (str_eq p.idempotency_key "") s t

-- One statement of the job table, by any client at any time.
pub data JobStep (w : World) : Store → Store → Type 0 where
  inserted : (p : InsertJobParams) (s : Store) → JobStep w s (insert_job w p s).1
  fetched :
      (locked : ℕ → Bool) (namespace : String) (queues : List String) (limit : ℕ)
      (worker_id : String) (s : Store)
      → JobStep w s (fetch_jobs w locked namespace queues limit worker_id s).1
  finished : (id : ℕ) (s : Store) → JobStep w s (complete_job w id s).1
  failed_with :
      (id : ℕ) (msg : String) (retry_at : Option Time) (s : Store)
      → JobStep w s (fail_job w id msg retry_at s).1
  promoted : (namespace : String) (s : Store) → JobStep w s (promote_scheduled_jobs w namespace s).1
  cancelled_by_user : (id : ℕ) (s : Store) → JobStep w s (cancel_job w id s).1

pub data JobSteps (w : World) (s : Store) : Store → Type 0 where
  here : JobSteps w s s
  next : {t u : Store} → JobSteps w s t → JobStep w t u → JobSteps w s u

pub JobStep-HasTable : {w : World} {s t : Store} → JobStep w s t → HasTable s → HasTable t
JobStep-HasTable {w} (inserted p s) h = insert_job-HasTable w p s h
JobStep-HasTable {w} (fetched locked namespace queues limit worker_id s) h =
    fetch_jobs-HasTable w locked namespace queues limit worker_id s h
JobStep-HasTable {w} (finished id s) h = complete_job-HasTable w id s h
JobStep-HasTable {w} (failed_with id msg retry_at s) h = fail_job-HasTable w id msg retry_at s h
JobStep-HasTable {w} (promoted namespace s) h = promote-HasTable w namespace s h
JobStep-HasTable {w} (cancelled_by_user id s) h = cancel_job-HasTable w id s h

-- From a table whose ids grow below the next id and whose live rows have different idempotency
-- keys (an empty one, for example), every sequence of job statements, in any order and with any
-- faults, leads to such a table.
pub JobSteps-HasTable : {w : World} {s t : Store} → HasTable s → JobSteps w s t → HasTable t
JobSteps-HasTable h here = h
JobSteps-HasTable h (next r st) = JobStep-HasTable st (JobSteps-HasTable h r)
