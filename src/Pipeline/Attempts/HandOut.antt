-- ===== src/Pipeline/Attempts/HandOut.antt =====
-- What FetchJobs of internal/db/db.go hands out, by the number of attempts.
use mathlib.Core.List.{Memᴰ, append-nil}
use rivo.Prelude.{
  ℕ, ◌≤◌, ◌<◌, ◌≡◌, refl, sym, subst, ap, String, Bool, true, List, [], ◌∷◌, ◌++◌, map, arith, All,
  All-append, All-of_mem, All-mem, All-mono, All-map_self, Bool-cases, inl, inr, select,
  if◌then◌else◌, contains_id, Option-cases,
}
use rivo.Store.{Time, JobRow, World, Store}
use rivo.Store.Jobs.{is_available, with_id, Increasing}
use rivo.Store.Jobs.Next.{next_jobs, claim, claim_all, fetch_jobs}
use rivo.Store.Jobs.Invariant.{change, HasTable, next_jobs_available}
use rivo.Store.Jobs.Steps.{
  fetch_jobs-HasTable, is_next-available, JobStep, inserted, JobStep-HasTable,
}
use rivo.Retry.{Chance, Policy}
use rivo.Pipeline.Service.{
  Service, ServiceStep, ServiceSteps, enqueued, promoted, cancelled_by_user, fetched, settled, lost,
  is_ready, Held-ready, IsWithin, handed, select-append,
}
use rivo.Pipeline.Attempts.{
  insert_job-Bounded, promote-Bounded, cancel-Bounded, settled-Bounded, lost-Bounded,
  handle_result-HasTable, Bounded,
}

select_later :
    (x : ℕ) (q : JobRow → Bool) (js : List JobRow)
    → All (λ k. x < k.id) js
    → select (with_id x) (select q js) ≡ []
select_later x q [] h = refl
select_later x q (j ∷ js) h = ground (arith, select_later x q js h.1)

-- The rows under the id of a row of the table are that row.
select_row :
    (q : JobRow → Bool) (js : List JobRow) {k : JobRow}
    → Increasing js
    → Memᴰ k js
    → select (with_id k.id) (select q js) ≡ (if q k then k ∷ [] else [])
select_row q [] grow m = elim m [ ]
select_row q (j ∷ js) {k} grow (Memᴰ.head e) =
    subst (λ x. select (with_id x.id) (select q (j ∷ js)) ≡ (if q x then x ∷ [] else [])) (sym e)
      (elim (Bool-cases (q j)) [
        | inl kept ↦ rw kept (ground (arith, select_later j.id q js grow.0))
        | inr left ↦ rw left (select_later j.id q js grow.0)
      ])
select_row q (j ∷ js) {k} grow (Memᴰ.tail m) =
    let above = All-mem (λ i. j.id < i.id) js grow.0 m in
    ground (arith, above, select_row q js grow.1 m)

Memᴰ-map : (g : JobRow → JobRow) (js : List JobRow) {j : JobRow} → Memᴰ j js → Memᴰ (g j) (map g js)
Memᴰ-map g [] m = elim m [ ]
Memᴰ-map g (x ∷ js) (Memᴰ.head e) = Memᴰ.head (ap g e)
Memᴰ-map g (x ∷ js) (Memᴰ.tail m) = Memᴰ.tail (Memᴰ-map g js m)

All-select :
    (P : JobRow → Type 0) (q : JobRow → Bool) (js : List JobRow) → All P js → All P (select q js)
All-select P q [] h = tt
All-select P q (j ∷ js) h = elim (Bool-cases (q j)) [
  | inl kept ↦ rw kept (h.0, All-select P q js h.1)
  | inr left ↦ rw left (All-select P q js h.1)
]

module _ (top : ℕ) (out : List JobRow) (claimed : List ℕ) (now : Time) (worker_id : String) where
  abbrev is_claimed : JobRow → Bool
  is_claimed k = contains_id claimed k.id

  abbrev claim_if : JobRow → JobRow
  claim_if = change is_claimed (claim now worker_id)

  -- A claimed row was ready, so that it was not out; now it is, with one attempt more.
  claim-IsWithin :
      (js : List JobRow) {j : JobRow}
      → Increasing (map claim_if js)
      → Memᴰ j js
      → (is_claimed j ≡ true → is_available j.state ≡ true)
      → IsWithin top out j
      → IsWithin top (out ++ select is_claimed (map claim_if js)) (claim_if j)
  claim-IsWithin js {j} grow m available h =
      let js' = map claim_if js in
      let rows = select is_claimed js' in
      let there = select_row is_claimed js' grow (Memᴰ-map claim_if js m) in
      let split = select-append (with_id j.id) out rows in
      elim (Bool-cases (is_claimed j)) [
        | inl mine ↦
            let ready : is_ready j ≡ true = ground (arith, available mine) in
            let free = Held-ready j (select (with_id j.id) out) h.held ready in
            let now_out : select (with_id j.id) rows ≡ claim now worker_id j ∷ [] =
              (let once = rw mine at there in rw mine at once) in
            rw mine (record {
              attempts = omega (arith, h.left ready);
              left = λ r. absurd (cc r);
              held = rw (split, free, now_out) (refl, refl);
            })
        | inr other ↦
            let not_out : select (with_id j.id) rows ≡ [] =
              (let once = rw other at there in rw other at once) in
            rw other (record {
              attempts = h.attempts;
              left = h.left;
              held = rw (split, not_out, append-nil (select (with_id j.id) out)) h.held;
            })
      ]

  claim-IsWithin-All :
      (js : List JobRow)
      → Increasing (map claim_if js)
      → ((j : JobRow) → Memᴰ j js → is_claimed j ≡ true → is_available j.state ≡ true)
      → All (IsWithin top out) js
      → All (IsWithin top (out ++ select is_claimed (map claim_if js))) (map claim_if js)
  claim-IsWithin-All js grow available h =
      let out' = out ++ select is_claimed (map claim_if js) in
      All-map_self (λ j. IsWithin top out' (claim_if j)) (IsWithin top out') claim_if (λ j k. k) js
        (All-of_mem _ js
          (λ j m. claim-IsWithin js grow m (available j m) (All-mem (IsWithin top out) js h m)))

module _ (w : World) (locked : ℕ → Bool) (namespace : String) (queues : List String) (limit : ℕ)
    (worker_id : String) where
  pub fetch_jobs-Bounded :
      (top : ℕ) (out : List JobRow) (s : Store)
      → HasTable s
      → Bounded top out s
      → Bounded top
          (out ++ handed (fetch_jobs w locked namespace queues limit worker_id s).0)
          (fetch_jobs w locked namespace queues limit worker_id s).1
  unfolding fetch_jobs claim_all
  fetch_jobs-Bounded top out s t h =
      let now = w.clock s.event in
      let claimed = next_jobs locked now namespace queues limit s.jobs in
      let after = fetch_jobs-HasTable w locked namespace queues limit worker_id s t in
      elim (Option-cases (w.fault s.event)) [
        | inr (e, broken) ↦ rw (broken, append-nil out) h
        | inl quiet ↦
            let table = rw quiet at after in
            rw quiet (record {
              rows =
                  claim-IsWithin-All top out claimed now worker_id s.jobs table.increasing
                    (λ j m mine. is_next-available locked now namespace queues j (
                      next_jobs_available locked now namespace queues limit s.jobs t.increasing m
                        mine))
                    h.rows;
              known = All-append _ out _ h.known (All-select _ _ _ table.below);
            })
      ]

module _ (w : World) (c : Chance) (p : Policy) where
  -- What every step keeps.
  ServiceStep-Bounded :
      {v v' : Service}
      → 0 < p.max_attempts
      → ServiceStep w c p v v'
      → HasTable v.store × Bounded p.max_attempts v.out v.store
      → HasTable v'.store × Bounded p.max_attempts v'.out v'.store
  ServiceStep-Bounded some_left (enqueued params v) (t, h) = (
    JobStep-HasTable (inserted params v.store) t,
    insert_job-Bounded w p.max_attempts v.out params v.store some_left h,
  )
  ServiceStep-Bounded some_left (promoted namespace v) (t, h) = (
    JobStep-HasTable (JobStep.promoted namespace v.store) t,
    promote-Bounded w p.max_attempts v.out namespace v.store h,
  )
  ServiceStep-Bounded some_left (cancelled_by_user id v) (t, h) = (
    JobStep-HasTable (JobStep.cancelled_by_user id v.store) t,
    cancel-Bounded w p.max_attempts v.out id v.store h,
  )
  ServiceStep-Bounded some_left (fetched locked namespace queues limit worker_id v) (t, h) = (
    fetch_jobs-HasTable w locked namespace queues limit worker_id v.store t,
    fetch_jobs-Bounded w locked namespace queues limit worker_id p.max_attempts v.out v.store t h,
  )
  ServiceStep-Bounded some_left (settled before after job o s) (t, h) =
      (handle_result-HasTable w c p job o s t, settled-Bounded w c p before after job o s h)
  ServiceStep-Bounded some_left (lost before after job s) (t, h) =
      (t, lost-Bounded w c p before after job s h)

  ServiceSteps-Bounded :
      {v v' : Service}
      → 0 < p.max_attempts
      → HasTable v.store × Bounded p.max_attempts v.out v.store
      → ServiceSteps w c p v v'
      → HasTable v'.store × Bounded p.max_attempts v'.out v'.store
  ServiceSteps-Bounded some_left h ServiceSteps.here = h
  ServiceSteps-Bounded some_left h (ServiceSteps.next steps step) =
      ServiceStep-Bounded some_left step (ServiceSteps-Bounded some_left h steps)

  -- From a table in order with no job handed out, whose jobs have fewer attempts than the policy
  -- of the completer allows, and it allows some: whatever any number of clients do (enqueue,
  -- promote, cancel and fetch jobs, store the result of a job that was handed out or lose it), in
  -- any order and with any faults, no job has more attempts than the policy allows.
  pub ServiceSteps-attempts :
      (s : Store) {v : Service}
      → 0 < p.max_attempts
      → HasTable s
      → All (λ j. j.attempt < p.max_attempts) s.jobs
      → ServiceSteps w c p (record { store = s; out = [] }) v
      → All (λ j. j.attempt ≤ p.max_attempts) v.store.jobs
  ServiceSteps-attempts s {v} some_left t few steps =
      let start : Bounded p.max_attempts [] s = record {
        rows =
            All-mono (λ j. j.attempt < p.max_attempts) (IsWithin p.max_attempts [])
              (λ j l. record { attempts = omega (arith, l); left = λ _. l; held = tt }) s.jobs few;
        known = tt;
      } in
      All-mono (IsWithin p.max_attempts v.out) (λ j. j.attempt ≤ p.max_attempts) (λ j h. h.attempts)
        v.store.jobs (ServiceSteps-Bounded some_left (t, start) steps).1.rows
