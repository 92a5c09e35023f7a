-- ===== src/Pipeline/Service.antt =====
-- Any number of clients on one database: the job statements of internal/db/db.go, the jobs that they
-- handed out, and the results that handleResult of internal/executor/completer.go takes.
use rivo.Prelude.{
  ℕ, ◌≤◌, ◌<◌, ◌≡◌, refl, sym, subst, ap, ◌∙◌, String, Bool, true, false, ◌||◌, Option, List, [],
  ◌∷◌, ◌++◌, arith, Bool-cases, inl, inr, select, if◌then◌else◌,
}
use rivo.Base.{Error, Result, ok, err}
use rivo.Store.{JobRow, World, Store}
use rivo.Store.Jobs.{
  is_available, is_waiting, with_id, InsertJobParams, insert_job, promote_scheduled_jobs,
  cancel_job,
}
use rivo.Store.Jobs.Next.{fetch_jobs}
use rivo.Store.Jobs.Invariant.{change}
use rivo.Retry.{Chance, Policy}
use rivo.Executor.Completer.{handle_result}

-- The database, and the jobs that were handed out and whose results have not been taken.
pub record Service : Type 0 where
  pub store : Store
  pub out : List JobRow

abbrev pub handed : Result (List JobRow) → List JobRow
handed (ok rows) = rows
handed (err e) = []

-- A result that is thrown away at a stop, or lost with its process, is `lost`.
pub data ServiceStep (w : World) (c : Chance) (p : Policy) : Service → Service → Type 0 where
  enqueued :
      (params : InsertJobParams) (v : Service)
      → ServiceStep w c p v (record v { store = (insert_job w params v.store).1 })
  promoted :
      (namespace : String) (v : Service)
      → ServiceStep w c p v (record v { store = (promote_scheduled_jobs w namespace v.store).1 })
  cancelled_by_user :
      (id : ℕ) (v : Service)
      → ServiceStep w c p v (record v { store = (cancel_job w id v.store).1 })
  fetched :
      (locked : ℕ → Bool) (namespace : String) (queues : List String) (limit : ℕ)
      (worker_id : String) (v : Service)
      → ServiceStep w c p v (record {
        store = (fetch_jobs w locked namespace queues limit worker_id v.store).1;
        out = v.out ++ handed (fetch_jobs w locked namespace queues limit worker_id v.store).0;
      })
  settled :
      (before after : List JobRow) (job : JobRow) (o : Option Error) (s : Store)
      → ServiceStep w c p
          (record { store = s; out = before ++ job ∷ after })
          (record {
            store = (handle_result w c p (record { job = job; error = o }) s).1;
            out = before ++ after;
          })
  lost :
      (before after : List JobRow) (job : JobRow) (s : Store)
      → ServiceStep w c p
          (record { store = s; out = before ++ job ∷ after })
          (record { store = s; out = before ++ after })

pub data ServiceSteps (w : World) (c : Chance) (p : Policy) (v : Service) : Service → Type 0 where
  here : ServiceSteps w c p v v
  next :
      {v' v'' : Service}
      → ServiceSteps w c p v v'
      → ServiceStep w c p v' v''
      → ServiceSteps w c p v v''

-- A row that may be handed out, now or once it is promoted.
abbrev pub is_ready : JobRow → Bool
is_ready j = is_available j.state || is_waiting j.state

-- The jobs that are out under the id of a row: one at most, at its last attempt, and then the row
-- is not ready.
abbrev pub Held : JobRow → List JobRow → Type 0
Held j [] = Unit
Held j (f ∷ []) = (f.attempt ≡ j.attempt) × (is_ready j ≡ false)
Held j (f ∷ g ∷ fs) = ⊥

-- A row of a service that makes `top` attempts at most.
pub record IsWithin (top : ℕ) (out : List JobRow) (j : JobRow) : Type 0 where
  pub attempts : j.attempt ≤ top
  pub left : is_ready j ≡ true → j.attempt < top
  pub held : Held j (select (with_id j.id) out)

Held-change :
    (j k : JobRow) (fs : List JobRow)
    → k.attempt ≡ j.attempt
    → (is_ready k ≡ true → is_ready j ≡ true)
    → Held j fs
    → Held k fs
Held-change j k [] same ready h = tt
Held-change j k (f ∷ []) same ready h = (h.0 ∙ sym same, ground arith)
Held-change j k (f ∷ g ∷ fs) same ready h = h

-- A change that keeps the id and the attempts, and makes no row ready.
pub IsWithin-change :
    (top : ℕ) (out : List JobRow) (j k : JobRow)
    → k.id ≡ j.id
    → k.attempt ≡ j.attempt
    → (is_ready k ≡ true → is_ready j ≡ true)
    → IsWithin top out j
    → IsWithin top out k
IsWithin-change top out j k id same ready h = record {
  attempts = ground (arith, h.attempts);
  left = λ r. ground (arith, h.left (ready r));
  held = rw id (Held-change j k (select (with_id j.id) out) same ready h.held);
}

pub Held-ready : (j : JobRow) (fs : List JobRow) → Held j fs → is_ready j ≡ true → fs ≡ []
Held-ready j [] h r = refl
Held-ready j (f ∷ []) h r = absurd (cc (r, h.1))
Held-ready j (f ∷ g ∷ fs) h r = absurd h

Held-middle :
    (j job : JobRow) (xs ys : List JobRow)
    → Held j (xs ++ job ∷ ys)
    → (xs ++ ys ≡ []) × (job.attempt ≡ j.attempt) × (is_ready j ≡ false)
Held-middle j job [] [] h = (refl, h.0, h.1)
Held-middle j job [] (y ∷ ys) h = absurd h
Held-middle j job (x ∷ []) ys h = absurd h
Held-middle j job (x ∷ x' ∷ xs) ys h = absurd h

pub select-append :
    {A : Type 0} (p : A → Bool) (xs ys : List A) → select p (xs ++ ys) ≡ select p xs ++ select p ys
select-append p [] ys = refl
select-append p (x ∷ xs) ys = ground (arith, select-append p xs ys)

-- What a settled job leaves of the rows: the row of the job is not out any more.
pub IsWithin-lost :
    (top : ℕ) (before after : List JobRow) (job j : JobRow)
    → IsWithin top (before ++ job ∷ after) j
    → IsWithin top (before ++ after) j
      × (with_id j.id job ≡ true
          → (select (with_id j.id) (before ++ after) ≡ []) × (job.attempt ≡ j.attempt))
IsWithin-lost top before after job j h =
    let p = with_id j.id in
    let split = select-append p before (job ∷ after) in
    let rest = select-append p before after in
    let one =
      λ (b : Bool). select p before ++ (if b then job ∷ select p after else select p after) in
    elim (Bool-cases (p job)) [
      | inl mine ↦
          let there : Held j (select p before ++ job ∷ select p after) =
            subst (Held j) (split ∙ ap one mine) h.held in
          let (none_left, same, _) = Held-middle j job (select p before) (select p after) there in
          (
            record { attempts = h.attempts; left = h.left; held = rw (rest, none_left) tt },
            λ _. (rest ∙ none_left, same),
          )
      | inr other ↦ (
        record {
          attempts = h.attempts;
          left = h.left;
          held = subst (Held j) (split ∙ ap one other ∙ sym rest) h.held;
        },
        λ e. absurd (cc (e, other)),
      )
    ]

-- The row of a job whose result is stored.
pub IsWithin-settled :
    (top : ℕ) (before after : List JobRow) (job j : JobRow) (g : JobRow → JobRow)
    → (g j).id ≡ j.id
    → (g j).attempt ≡ j.attempt
    → (is_ready (g j) ≡ true → job.attempt < top)
    → IsWithin top (before ++ job ∷ after) j
    → IsWithin top (before ++ after) (change (with_id job.id) g j)
IsWithin-settled top before after job j g id same again h =
    let (kept, gone) = IsWithin-lost top before after job j h in
    elim (Bool-cases (with_id job.id j)) [
      | inl mine ↦
          let gone = gone (ground arith) in
          rw mine (record {
            attempts = ground (arith, h.attempts);
            left = λ r. ground (arith, again r, gone.1);
            held = rw (id, gone.0) tt;
          })
      | inr other ↦ rw other kept
    ]
