-- ===== src/Pipeline/Attempts.antt =====
-- How often a job is handed out, over any number of clients: internal/db/db.go and
-- internal/executor/completer.go.
pub mod HandOut
use mathlib.Core.List.{Memᴰ, append-nil}
use rivo.Prelude.{
  ℕ, suc, ◌+◌, ◌≤◌, ◌<◌, ◌≡◌, refl, sym, subst, ap, ◌∙◌, String, Bool, true, false, Option, none,
  some, List, [], ◌∷◌, ◌++◌, map, arith, All, All-append, All-mono, All-map_self, All-of_mem,
  All-mem, Bool-cases, ◌==◌, inl, inr, select, if◌then◌else◌, contains_id, leb, ◌⊎◌, str_eq,
  Option-cases,
}
use rivo.Base.{Error, Result, ok, err, Result-cases, error_text}
use rivo.Store.{Time, JobRow, World, Store, tick, outcome}
use rivo.Store.Jobs.{
  is_due, with_id, may_cancel, promote, cancel, complete, fail, Increasing, commit_jobs,
  unique_keys, new_row, InsertJobParams, insert_job, promote_scheduled_jobs, cancel_job,
  complete_job, fail_job,
}
use rivo.Store.Jobs.Append.{insert_job-Appends}
use rivo.Store.Jobs.Next.{fetch_jobs, claim}
use rivo.Store.Jobs.Invariant.{change, HasTable}
use rivo.Store.Jobs.Steps.{JobStep-HasTable, finished, failed_with}
use rivo.Retry.{Chance, Policy, completer_retry}
use rivo.Executor.Completer.{handle_result}
use rivo.Pipeline.Service.{
  Service, ServiceStep, ServiceSteps, is_ready, Held, IsWithin, IsWithin-change, IsWithin-settled,
  IsWithin-lost, handed, select-append,
}

-- The rows and the jobs that are out.
pub record IsBounded (top : ℕ) (out jobs : List JobRow) (next : ℕ) : Type 0 where
  pub rows : All (IsWithin top out) jobs
  pub known : All (λ f. f.id < next) out

abbrev pub Bounded : ℕ → List JobRow → Store → Type 0
Bounded top out s = IsBounded top out s.jobs s.next_job_id

-- The two ways in which a statement ends.
outcome-Bounded {ℓ} :
    {A : Type ℓ} (top : ℕ) (out : List JobRow) (o : Option Error) (body : Store → Result A × Store)
    (s : Store)
    → Bounded top out s
    → Bounded top out (body s).1
    → Bounded top out (outcome o body s).1
outcome-Bounded top out (some e) body s h k = h
outcome-Bounded top out none body s h k = k

commit-Bounded {ℓ} :
    {A : Type ℓ} (top : ℕ) (out : List JobRow) (a : A) (jobs : List JobRow) (n : ℕ) (s : Store)
    → Bounded top out s
    → IsBounded top out jobs n
    → Bounded top out (commit_jobs a jobs n s).1
commit-Bounded top out a jobs n s h k = elim (Bool-cases (unique_keys jobs)) [
  | inl unique ↦ rw unique k
  | inr clash ↦ rw clash h
]

-- A change of single rows, from one list of jobs that are out to another.
map-IsBounded :
    (top : ℕ) (out out' : List JobRow) (g : JobRow → JobRow) (jobs : List JobRow) (next : ℕ)
    → ((j : JobRow) → IsWithin top out j → IsWithin top out' (g j))
    → All (λ f. f.id < next) out'
    → IsBounded top out jobs next
    → IsBounded top out' (map g jobs) next
map-IsBounded top out out' g jobs next keep known h = record {
  rows = All-map_self (IsWithin top out) (IsWithin top out') g keep jobs h.rows;
  known = known;
}

All-without :
    (P : JobRow → Type 0) (before after : List JobRow) (job : JobRow)
    → All P (before ++ job ∷ after)
    → All P (before ++ after)
All-without P [] after job h = h.1
All-without P (b ∷ before) after job h = (h.0, All-without P before after job h.1)

select_unknown : (n : ℕ) (out : List JobRow) → All (λ f. f.id < n) out → select (with_id n) out ≡ []
select_unknown n [] h = refl
select_unknown n (f ∷ fs) h = ground (arith, select_unknown n fs h.1)

module _ (w : World) (top : ℕ) (out : List JobRow) where
  pub promote-Bounded :
      (namespace : String) (s : Store)
      → Bounded top out s
      → Bounded top out (promote_scheduled_jobs w namespace s).1
  unfolding promote_scheduled_jobs
  promote-Bounded namespace s h =
      let now = w.clock s.event in
      outcome-Bounded top out (w.fault s.event) _ (tick s) h (
        map-IsBounded top out out (change (is_due now namespace) (promote now)) s.jobs s.next_job_id
          (λ j. IsWithin-change top out j _ (ground arith) (ground arith) (ground arith)) h.known h)

  pub cancel-Bounded :
      (id : ℕ) (s : Store) → Bounded top out s → Bounded top out (cancel_job w id s).1
  unfolding cancel_job
  cancel-Bounded id s h =
      let now = w.clock s.event in
      outcome-Bounded top out (w.fault s.event) _ (tick s) h (
        map-IsBounded top out out (change (may_cancel id) (cancel now)) s.jobs s.next_job_id
          (λ j. IsWithin-change top out j _ (ground arith) (ground arith) (ground arith)) h.known h)

  -- The new row of a service with attempts left.
  append-IsBounded :
      (p : InsertJobParams) (now : Time) (jobs : List JobRow) (next : ℕ)
      → 0 < top
      → IsBounded top out jobs next
      → IsBounded top out (jobs ++ new_row next now p ∷ []) (suc next)
  append-IsBounded p now jobs next some_left h = record {
    rows = All-append (IsWithin top out) jobs (new_row next now p ∷ []) h.rows (
      record {
        attempts = omega arith;
        left = λ _. some_left;
        held = rw (select_unknown next out h.known) tt;
      },
      tt,
    );
    known = All-mono (λ f. f.id < next) (λ f. f.id < suc next) (λ f b. omega arith) out h.known;
  }

  pub insert_job-Bounded :
      (p : InsertJobParams) (s : Store)
      → 0 < top
      → Bounded top out s
      → Bounded top out (insert_job w p s).1
  insert_job-Bounded p s some_left h = elim (insert_job-Appends w p s) [
    | inl (jobs, next) ↦ rw (jobs, next) h
    | inr (now, jobs, next) ↦
        rw (jobs, next) (append-IsBounded p now s.jobs s.next_job_id some_left h)
  ]

module _ (w : World) (c : Chance) (p : Policy) where
  completer_retry-left :
      (now : Time) (attempt : ℕ) (e : Error) {t : Time}
      → completer_retry c p now attempt e ≡ some t
      → attempt < p.max_attempts
  unfolding completer_retry
  completer_retry-left now attempt e h = ground arith

  pub lost-Bounded :
      (before after : List JobRow) (job : JobRow) (s : Store)
      → Bounded p.max_attempts (before ++ job ∷ after) s
      → Bounded p.max_attempts (before ++ after) s
  lost-Bounded before after job s h = record {
    rows =
        All-mono _ _ (λ j within. (IsWithin-lost p.max_attempts before after job j within).0) s.jobs
          h.rows;
    known = All-without _ before after job h.known;
  }

  failed-IsWithin :
      (before after : List JobRow) (job : JobRow) (now : Time) (msg : String)
      (retry_at : Option Time)
      → ((t : Time) → retry_at ≡ some t → job.attempt < p.max_attempts)
      → (j : JobRow) → IsWithin p.max_attempts (before ++ job ∷ after) j
      → IsWithin p.max_attempts
          (before ++ after)
          (change (with_id job.id) (fail now msg retry_at) j)
  failed-IsWithin before after job now msg none left j h =
      IsWithin-settled p.max_attempts before after job j (fail now msg none) refl refl
        (λ ready. absurd (cc ready)) h
  failed-IsWithin before after job now msg (some t) left j h =
      IsWithin-settled p.max_attempts before after job j (fail now msg (some t)) refl refl
        (λ ready. left t refl) h

  pub settled-Bounded :
      (before after : List JobRow) (job : JobRow) (o : Option Error) (s : Store)
      → Bounded p.max_attempts (before ++ job ∷ after) s
      → Bounded p.max_attempts
          (before ++ after)
          (handle_result w c p (record { job = job; error = o }) s).1
  unfolding handle_result complete_job fail_job
  settled-Bounded before after job none s h =
      let h' = lost-Bounded before after job s h in
      let now = w.clock s.event in
      outcome-Bounded p.max_attempts (before ++ after) (w.fault s.event) _ (tick s) h' (
        map-IsBounded p.max_attempts (before ++ job ∷ after) (before ++ after)
          (change (with_id job.id) (complete now)) s.jobs s.next_job_id
          (λ j.
            IsWithin-settled p.max_attempts before after job j (complete now) refl refl
              (λ ready. absurd (cc ready)))
          h'.known h)
  settled-Bounded before after job (some e) s h =
      let h' = lost-Bounded before after job s h in
      let now = w.clock (suc s.event) in
      let retry_at = completer_retry c p (w.clock s.event) job.attempt e in
      outcome-Bounded p.max_attempts (before ++ after) (w.fault (suc s.event)) _ (tick (tick s)) h'
        (commit-Bounded p.max_attempts (before ++ after) tt _ s.next_job_id (tick (tick s)) h' (
          map-IsBounded p.max_attempts (before ++ job ∷ after) (before ++ after)
            (change (with_id job.id) (fail now (error_text e) retry_at)) s.jobs s.next_job_id
            (failed-IsWithin before after job now (error_text e) retry_at
              (λ t. completer_retry-left (w.clock s.event) job.attempt e))
            h'.known h))

  pub handle_result-HasTable :
      (job : JobRow) (o : Option Error) (s : Store)
      → HasTable s
      → HasTable (handle_result w c p (record { job = job; error = o }) s).1
  unfolding handle_result
  handle_result-HasTable job none s t = JobStep-HasTable (finished job.id s) t
  handle_result-HasTable job (some e) s t =
      JobStep-HasTable
        (failed_with job.id (error_text e) (completer_retry c p (w.clock s.event) job.attempt e)
          (tick s))
        t
