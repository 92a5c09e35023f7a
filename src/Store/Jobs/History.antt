-- ===== src/Store/Jobs/History.antt =====
-- What the job statements of internal/db/db.go never change or take back in a row.
use mathlib.Core.List.{append_assoc, append-nil}
use rivo.Prelude.{
  ℕ, ◌≤◌, ◌≡◌, refl, sym, ap, ◌∙◌, String, Bool, true, false, Option, none, some, List, [], ◌∷◌,
  ◌++◌, map, arith, inl, inr, if◌then◌else◌, Bool-cases,
}
use rivo.Base.{Error, Result, Result-cases}
use rivo.Store.Rows.{Time, JobState, JobRow, AttemptError, Store}
use rivo.Store.Statement.{World, tick, outcome}
use rivo.Store.Jobs.{
  promote, cancel, complete, fail, commit_jobs, unique_keys, InsertJobParams, insert_row,
  insert_job, insert_new, insert_unless, insert_keyed, select_by_key, complete_job, fail_job,
  promote_scheduled_jobs, cancel_job,
}
use rivo.Store.Jobs.Next.{claim, fetch_jobs}
use rivo.Store.Jobs.Steps.{
  JobStep, inserted, fetched, finished, failed_with, promoted, cancelled_by_user, JobSteps, here,
  next,
}

-- One job, earlier and later.
pub record Grows (j k : JobRow) : Type 0 where
  pub id : k.id ≡ j.id
  pub kind : k.kind ≡ j.kind
  pub queue : k.queue ≡ j.queue
  pub namespace : k.namespace ≡ j.namespace
  pub payload : k.payload ≡ j.payload
  pub key : k.idempotency_key ≡ j.idempotency_key
  pub max_attempts : k.max_attempts ≡ j.max_attempts
  pub created : k.created_at ≡ j.created_at
  pub attempts : j.attempt ≤ k.attempt
  pub later_errors : List AttemptError
  pub errors : k.errors ≡ j.errors ++ later_errors

-- Every row of the first table stands at its place in the second one, which may have more rows.
abbrev pub Kept : List JobRow → List JobRow → Type 0
Kept [] ks = Unit
Kept (j ∷ js) [] = ⊥
Kept (j ∷ js) (k ∷ ks) = Grows j k × Kept js ks

Grows-refl : (j : JobRow) → Grows j j
Grows-refl j = record {
  id = refl;
  kind = refl;
  queue = refl;
  namespace = refl;
  payload = refl;
  key = refl;
  max_attempts = refl;
  created = refl;
  attempts = omega arith;
  later_errors = [];
  errors = sym (append-nil j.errors);
}

Grows-trans : {i j k : JobRow} → Grows i j → Grows j k → Grows i k
Grows-trans {i} a b = record {
  id = b.id ∙ a.id;
  kind = b.kind ∙ a.kind;
  queue = b.queue ∙ a.queue;
  namespace = b.namespace ∙ a.namespace;
  payload = b.payload ∙ a.payload;
  key = b.key ∙ a.key;
  max_attempts = b.max_attempts ∙ a.max_attempts;
  created = b.created ∙ a.created;
  attempts = omega (arith, a.attempts, b.attempts);
  later_errors = a.later_errors ++ b.later_errors;
  errors =
      b.errors
      ∙ ap (λ es. es ++ b.later_errors) a.errors
      ∙ append_assoc i.errors a.later_errors b.later_errors;
}

Kept-refl : (js : List JobRow) → Kept js js
Kept-refl [] = tt
Kept-refl (j ∷ js) = (Grows-refl j, Kept-refl js)

Kept-trans : (is js ks : List JobRow) → Kept is js → Kept js ks → Kept is ks
Kept-trans [] js ks a b = tt
Kept-trans (i ∷ is) [] ks a b = absurd a
Kept-trans (i ∷ is) (j ∷ js) [] a b = absurd b
Kept-trans (i ∷ is) (j ∷ js) (k ∷ ks) a b = (Grows-trans a.0 b.0, Kept-trans is js ks a.1 b.1)

Kept-append : (js ks : List JobRow) → Kept js (js ++ ks)
Kept-append [] ks = tt
Kept-append (j ∷ js) ks = (Grows-refl j, Kept-append js ks)

-- An update of the rows that a condition picks.
Kept-update :
    (p : JobRow → Bool) (f : JobRow → JobRow)
    → ((j : JobRow) → Grows j (f j))
    → (js : List JobRow) → Kept js (map (λ j. if p j then f j else j) js)
Kept-update p f grows [] = tt
Kept-update p f grows (j ∷ js) = elim (Bool-cases (p j)) [
  | inl hit ↦ rw hit (grows j, Kept-update p f grows js)
  | inr miss ↦ rw miss (Grows-refl j, Kept-update p f grows js)
]

-- A statement that fails keeps all rows, and so does one that the unique index refuses.
outcome-Kept {ℓ} :
    {A : Type ℓ} (o : Option Error) (body : Store → Result A × Store) (s : Store)
    → Kept s.jobs (body s).1.jobs
    → Kept s.jobs (outcome o body s).1.jobs
outcome-Kept (some e) body s h = Kept-refl s.jobs
outcome-Kept none body s h = h

commit-Kept {ℓ} :
    {A : Type ℓ} (a : A) (jobs : List JobRow) (n : ℕ) (s : Store)
    → Kept s.jobs jobs
    → Kept s.jobs (commit_jobs a jobs n s).1.jobs
commit-Kept a jobs n s h = elim (Bool-cases (unique_keys jobs)) [
  | inl unique ↦ rw unique h
  | inr clash ↦ rw clash (Kept-refl s.jobs)
]

-- The fields that the statements write.
Grows-write :
    (j : JobRow) (state : JobState) (scheduled_at : Time) (attempt : ℕ)
    (attempted_at completed_at cancelled_at discarded_at : Option Time)
    (attempted_by : Option String) (updated_at : Time) (errors more : List AttemptError)
    → errors ≡ j.errors ++ more
    → j.attempt ≤ attempt
    → Grows j (record j {
      state = state;
      scheduled_at = scheduled_at;
      attempt = attempt;
      attempted_at = attempted_at;
      completed_at = completed_at;
      cancelled_at = cancelled_at;
      discarded_at = discarded_at;
      attempted_by = attempted_by;
      updated_at = updated_at;
      errors = errors;
    })
Grows-write j state at attempt tried ended stopped given_up by now errors more e le = record {
  id = refl;
  kind = refl;
  queue = refl;
  namespace = refl;
  payload = refl;
  key = refl;
  max_attempts = refl;
  created = refl;
  attempts = le;
  later_errors = more;
  errors = e;
}

claim-Grows : (now : Time) (worker_id : String) (j : JobRow) → Grows j (claim now worker_id j)
claim-Grows now worker_id j =
    Grows-write j _ _ _ _ _ _ _ _ _ _ [] (sym (append-nil j.errors)) (omega arith)

complete-Grows : (now : Time) (j : JobRow) → Grows j (complete now j)
complete-Grows now j =
    Grows-write j _ _ _ _ _ _ _ _ _ _ [] (sym (append-nil j.errors)) (omega arith)

promote-Grows : (now : Time) (j : JobRow) → Grows j (promote now j)
promote-Grows now j = Grows-write j _ _ _ _ _ _ _ _ _ _ [] (sym (append-nil j.errors)) (omega arith)

cancel-Grows : (now : Time) (j : JobRow) → Grows j (cancel now j)
cancel-Grows now j = Grows-write j _ _ _ _ _ _ _ _ _ _ [] (sym (append-nil j.errors)) (omega arith)

fail-Grows :
    (now : Time) (msg : String) (retry_at : Option Time) (j : JobRow)
    → Grows j (fail now msg retry_at j)
fail-Grows now msg (some t) j = Grows-write j _ _ _ _ _ _ _ _ _ _ _ refl (omega arith)
fail-Grows now msg none j = Grows-write j _ _ _ _ _ _ _ _ _ _ _ refl (omega arith)

module _ (w : World) where
  insert_row-Kept : (p : InsertJobParams) (s : Store) → Kept s.jobs (insert_row w p s).1.jobs
  unfolding insert_row
  insert_row-Kept p s =
      outcome-Kept (w.fault s.event) _ (tick s) (commit-Kept _ _ _ (tick s) (Kept-append s.jobs _))

  insert_new-Kept : (p : InsertJobParams) (s : Store) → Kept s.jobs (insert_new w p s).1.jobs
  unfolding insert_new
  insert_new-Kept p s =
      let kept = insert_row-Kept p s in
      elim (Result-cases (insert_row w p s).0) [ inl (row, e) ↦ rw e kept | inr (x, e) ↦ rw e kept ]

  insert_unless-Kept :
      (p : InsertJobParams) (found : Option JobRow) (s : Store)
      → Kept s.jobs (insert_unless w p found s).1.jobs
  insert_unless-Kept p (some j) s = Kept-refl s.jobs
  insert_unless-Kept p none s = insert_new-Kept p s

  select_by_key-Kept :
      (p : InsertJobParams) (s : Store) → Kept s.jobs (select_by_key w p p.idempotency_key s).1.jobs
  unfolding select_by_key
  select_by_key-Kept p s = outcome-Kept (w.fault s.event) _ (tick s) (Kept-refl s.jobs)

  insert_keyed-Kept :
      (p : InsertJobParams) (keyless : Bool) (s : Store)
      → Kept s.jobs (insert_keyed w p keyless s).1.jobs
  unfolding insert_keyed
  insert_keyed-Kept p true s = insert_new-Kept p s
  insert_keyed-Kept p false s =
      let selected = select_by_key-Kept p s in
      let s' = (select_by_key w p p.idempotency_key s).1 in
      elim (Result-cases (select_by_key w p p.idempotency_key s).0) [
        | inl (found, e) ↦
            rw e (Kept-trans s.jobs s'.jobs _ selected (insert_unless-Kept p found s'))
        | inr (x, e) ↦ rw e selected
      ]

  JobStep-Kept : {s t : Store} → JobStep w s t → Kept s.jobs t.jobs
  unfolding insert_job fetch_jobs complete_job fail_job promote_scheduled_jobs cancel_job
  JobStep-Kept (inserted p s) = insert_keyed-Kept p _ s
  JobStep-Kept (fetched locked namespace queues limit worker_id s) =
      outcome-Kept (w.fault s.event) _ (tick s)
        (Kept-update _ _ (claim-Grows (w.clock s.event) worker_id) s.jobs)
  JobStep-Kept (finished id s) =
      outcome-Kept (w.fault s.event) _ (tick s)
        (Kept-update _ _ (complete-Grows (w.clock s.event)) s.jobs)
  JobStep-Kept (failed_with id msg retry_at s) = outcome-Kept (w.fault s.event) _ (tick s) (
      commit-Kept _ _ _ (tick s)
        (Kept-update _ _ (fail-Grows (w.clock s.event) msg retry_at) s.jobs))
  JobStep-Kept (promoted namespace s) =
      outcome-Kept (w.fault s.event) _ (tick s)
        (Kept-update _ _ (promote-Grows (w.clock s.event)) s.jobs)
  JobStep-Kept (cancelled_by_user id s) =
      outcome-Kept (w.fault s.event) _ (tick s)
        (Kept-update _ _ (cancel-Grows (w.clock s.event)) s.jobs)

-- Whatever sequence of job statements runs, with any faults, no row is removed and none changes its
-- place: a row keeps its id, kind, queue, namespace, payload, idempotency key, maximal number of
-- attempts and time of creation, its attempts never become fewer, and its errors are only added to.
pub JobSteps-Kept : {w : World} {s t : Store} → JobSteps w s t → Kept s.jobs t.jobs
JobSteps-Kept {s = s} here = Kept-refl s.jobs
JobSteps-Kept {w} {s} {t} (next {t = middle} r st) =
    Kept-trans s.jobs middle.jobs t.jobs (JobSteps-Kept r) (JobStep-Kept w st)
