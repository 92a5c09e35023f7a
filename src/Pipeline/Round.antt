-- ===== src/Pipeline/Round.antt =====
-- A round: FetchJobs of internal/db/db.go, and every job that it hands out run to its end.
use rivo.Prelude.{
  ℕ, suc, ◌≡◌, ◌<◌, ◌∙◌, refl, Bool, String, List, [], ◌∷◌, ◌++◌, arith, All, find_first, select,
  contains_id, Bool-cases, inl, inr,
}
use rivo.Base.{ok}
use rivo.Store.{Time, JobRow, LogRow, World, Store}
use rivo.Store.Jobs.{with_id, Increasing}
use rivo.Store.Jobs.Next.{claim, claim_all, next_jobs, fetch_jobs}
use rivo.Store.Jobs.Fetch.{claim_all-Increasing}
use rivo.Store.Jobs.Steps.{fetch_jobs-HasTable}
use rivo.Store.Jobs.Insert.{IsQuiet}
use rivo.Retry.{Chance, Policy}
use rivo.Handlers.{RegisteredHandler}
use rivo.Pipeline.{work_off}
use rivo.Pipeline.Ran.{IsSound, IsHeld}
use rivo.Pipeline.Reported.{Lacks, Reported, work_off-Worked}

select-above :
    (p : JobRow → Bool) (x : ℕ) (js : List JobRow)
    → All (λ (k : JobRow). x < k.id) js
    → All (λ (k : JobRow). x < k.id) (select p js)
select-above p x [] h = tt
select-above p x (j ∷ js) h = elim (Bool-cases (p j)) [
  | inl kept ↦ rw kept (h.0, select-above p x js h.1)
  | inr left ↦ rw left (select-above p x js h.1)
]

pub select-Increasing :
    (p : JobRow → Bool) (js : List JobRow) → Increasing js → Increasing (select p js)
select-Increasing p [] h = tt
select-Increasing p (j ∷ js) h = elim (Bool-cases (p j)) [
  | inl kept ↦ rw kept (select-above p j.id js h.0, select-Increasing p js h.1)
  | inr left ↦ rw left (select-Increasing p js h.1)
]

IsHeld-cons :
    (j : JobRow) (js rows : List JobRow)
    → All (λ (k : JobRow). j.id < k.id) rows
    → All (IsHeld js) rows
    → All (IsHeld (j ∷ js)) rows
IsHeld-cons j js [] above held = tt
IsHeld-cons j js (r ∷ rs) above held =
    ((ground (arith, above.0, held.0.0), held.0.1), IsHeld-cons j js rs above.1 held.1)

-- The rows that a fetch claims are running, and stand in the table as they are handed out.
pub claimed-IsHeld :
    (claimed : List ℕ) (now : Time) (worker_id : String) (js : List JobRow)
    → Increasing (claim_all claimed now worker_id js)
    → All
        (IsHeld (claim_all claimed now worker_id js))
        (select (λ j. contains_id claimed j.id) (claim_all claimed now worker_id js))
unfolding claim_all
claimed-IsHeld claimed now worker_id [] grow = tt
claimed-IsHeld claimed now worker_id (j ∷ js) grow =
    let rows = select (λ k. contains_id claimed k.id) (claim_all claimed now worker_id js) in
    let held = claimed-IsHeld claimed now worker_id js grow.1 in
    let up = λ (above : All (λ (k : JobRow). j.id < k.id) (claim_all claimed now worker_id js)).
      select-above (λ k. contains_id claimed k.id) j.id (claim_all claimed now worker_id js)
        above in
    elim (Bool-cases (contains_id claimed j.id)) [
      | inl e ↦ rw e (
          rw e (
            (ground arith, refl),
            IsHeld-cons (claim now worker_id j) (claim_all claimed now worker_id js) rows
                (up (rw e at grow).0) held,
          ))
      | inr e ↦ rw e (
          rw e (IsHeld-cons j (claim_all claimed now worker_id js) rows (up (rw e at grow).0) held))
    ]

-- A row that is not handed out stays as it is.
claim_all-other :
    (claimed : List ℕ) (now : Time) (worker_id : String) (x : ℕ) (js : List JobRow)
    → Lacks x (select (λ j. contains_id claimed j.id) (claim_all claimed now worker_id js))
    → find_first (with_id x) (claim_all claimed now worker_id js) ≡ find_first (with_id x) js
unfolding claim_all
claim_all-other claimed now worker_id x [] h = refl
claim_all-other claimed now worker_id x (j ∷ js) h = elim (Bool-cases (contains_id claimed j.id)) [
  | inl e ↦
      let h' = rw e at (rw e at h) in
      rw e (rw h'.0 (claim_all-other claimed now worker_id x js h'.1))
  | inr e ↦ rw e (ground (arith, claim_all-other claimed now worker_id x js (rw e at (rw e at h))))
]

module _ (w : World) (c : Chance) (p : Policy) (hs : List RegisteredHandler) (worker_id : String)
    (locked : ℕ → Bool) (namespace : String) (queues : List String) (limit : ℕ) where
  -- On a database that does not fail, on a table of jobs that is in order and with log ids below the
  -- next id, FetchJobs hands out rows, and when each of them has been run and its result stored, one
  -- after the other, the logs have the rows `ls` more. A job whose handler succeeded is completed in
  -- the table. One whose handler failed or panicked, or is not registered, has one more error, with
  -- that text, for the attempt, and is discarded or to be retried by the policy. The log row of the
  -- job tells the same, if the handler returned before its context ended; if it panicked or returned
  -- later, the row is left as running, without an error; a job without a handler has none. Every
  -- other job is as before the fetch, and the tables are in order again.
  pub work_off-fetch_jobs :
      (s : Store)
      → IsQuiet w
      → IsSound s
      → let fetched = fetch_jobs w locked namespace queues limit worker_id s in
        (rows : List JobRow) × (ls : List LogRow) × (fetched.0 ≡ ok rows)
        × let t = work_off w c p hs worker_id rows fetched.1 in
          (t.job_logs ≡ s.job_logs ++ ls)
          × Reported w c p hs worker_id t.jobs rows ls
          × ((x : ℕ) → Lacks x rows → find_first (with_id x) t.jobs ≡ find_first (with_id x) s.jobs)
          × IsSound t
  unfolding fetch_jobs
  work_off-fetch_jobs s quiet sound =
      let now = w.clock s.event in
      let claimed = next_jobs locked now namespace queues limit s.jobs in
      let jobs = claim_all claimed now worker_id s.jobs in
      let rows = select (λ j. contains_id claimed j.id) jobs in
      let grow = claim_all-Increasing claimed now worker_id s.jobs sound.table.increasing in
      let u : Store = record s { jobs = jobs; event = suc s.event } in
      let sound' : IsSound u = record {
        table =
            rw (quiet s.event) at
              (fetch_jobs-HasTable w locked namespace queues limit worker_id s sound.table);
        logs = sound.logs;
      } in
      let worked =
        work_off-Worked w c p hs worker_id rows u quiet sound'
          (select-Increasing (λ j. contains_id claimed j.id) jobs grow)
          (claimed-IsHeld claimed now worker_id s.jobs grow) in
      rw (quiet s.event) (
        rows,
        worked.ls,
        refl,
        (
          worked.logs,
          worked.reported,
          (λ x lacks. worked.others x lacks ∙ claim_all-other claimed now worker_id x s.jobs lacks),
          worked.sound,
        ),
      )
