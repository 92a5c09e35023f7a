-- ===== src/Pipeline/Reported.antt =====
-- What the jobs of a fetch come to when they are run one after the other, in the tables that
-- handleJob of client.go and handleResult of internal/executor/completer.go write.
use mathlib.Core.List.{append_assoc, append-nil}
use rivo.Prelude.{
  ℕ, suc, ◌≡◌, ◌<◌, ◌∙◌, refl, sym, ap, false, String, Option, none, some, List, [], ◌∷◌, ◌++◌,
  arith, All, ◌==◌, find_first,
}
use rivo.Base.{Error, wrap_suffix, handler_not_found}
use rivo.Store.{JobRow, LogRow, World, Store}
use rivo.Store.Jobs.{with_id, Increasing}
use rivo.Store.Jobs.Insert.{IsQuiet}
use rivo.Retry.{Chance, Policy}
use rivo.Handlers.{RegisteredHandler}
use rivo.Client.Jobs.{handler_of, job_from_row}
use rivo.Client.Logs.{told_error, Tells}
use rivo.Pipeline.{run_job, work_off}
use rivo.Pipeline.Settle.{find_first-IsLiveAt}
use rivo.Pipeline.Ran.{
  IsSound, IsHeld, Agrees, Logged, told, unknown, Ran, run_job-Ran, Ran-found, Ran-other,
  Ran-IsSound,
}

-- No row has the id `x`.
abbrev pub Lacks : (x : ℕ) → List JobRow → Type 0
Lacks x rows = All (λ (r : JobRow). (r.id == x) ≡ false) rows

above-Lacks : (x : ℕ) (rows : List JobRow) → All (λ (r : JobRow). x < r.id) rows → Lacks x rows
above-Lacks x [] h = tt
above-Lacks x (r ∷ rs) h = (ground arith, above-Lacks x rs h.1)

module _ (w : World) (c : Chance) (p : Policy) (hs : List RegisteredHandler)
    (worker_id : String) where
  -- The table and the logs agree on the jobs `rows`, in their order: of each job one handler's answer
  -- is told by its row in the table and by its row in the logs. A job without a handler has no row
  -- in the logs, and its row in the table tells that no handler was found.
  pub data Reported (jobs : List JobRow) : List JobRow → List LogRow → Type 0 where
    nothing : Reported jobs [] []
    with_log :
        (row k : JobRow) (l : LogRow) (h : RegisteredHandler) (event : ℕ) (error : Option Error)
        {rows : List JobRow} {ls : List LogRow}
        → handler_of hs row.kind ≡ some h
        → find_first (with_id row.id) jobs ≡ some k
        → error
          ≡ told_error
              (w.stack (suc event))
              (w.call event)
              (h.fn h.options.timeout (job_from_row row) event).1
        → Agrees w c p hs worker_id error row k
        → Tells (w.call event) (h.fn h.options.timeout (job_from_row row) event).1 l
        → l.owner ≡ row.id
        → l.attempt ≡ row.attempt
        → l.worker_id ≡ worker_id
        → Reported jobs rows ls
        → Reported jobs (row ∷ rows) (l ∷ ls)
    without_log :
        (row k : JobRow) {rows : List JobRow} {ls : List LogRow}
        → handler_of hs row.kind ≡ none
        → find_first (with_id row.id) jobs ≡ some k
        → Agrees w c p hs worker_id (some (wrap_suffix handler_not_found row.kind)) row k
        → Reported jobs rows ls
        → Reported jobs (row ∷ rows) ls

  pub record Worked (rows : List JobRow) (s t : Store) : Type 0 where
    pub sound : IsSound t
    pub ls : List LogRow
    pub logs : t.job_logs ≡ s.job_logs ++ ls
    pub reported : Reported t.jobs rows ls
    pub others :
        (x : ℕ) → Lacks x rows → find_first (with_id x) t.jobs ≡ find_first (with_id x) s.jobs

  IsHeld-after :
      (row : JobRow) (rows : List JobRow) (s t : Store)
      → Ran w c p hs worker_id row s t
      → Lacks row.id rows
      → All (IsHeld s.jobs) rows
      → All (IsHeld t.jobs) rows
  IsHeld-after row [] s t ran apart held = tt
  IsHeld-after row (r ∷ rs) s t ran apart held = (
    (Ran-other w c p hs worker_id row s t ran r.id (ground arith) ∙ held.0.0, held.0.1),
    IsHeld-after row rs s t ran apart.1 held.1,
  )

  Worked-cons :
      (row : JobRow) (rows : List JobRow) (s t u : Store)
      → Ran w c p hs worker_id row s t
      → find_first (with_id row.id) s.jobs ≡ some row
      → Lacks row.id rows
      → Worked rows t u
      → Worked (row ∷ rows) s u
  Worked-cons row rows s t u ran found apart rest =
      let (k, there, agrees) = Ran-found w c p hs worker_id row s t ran found in
      let there' = rest.others row.id apart ∙ there in
      let others' = λ (x : ℕ) (lacks : Lacks x (row ∷ rows)).
        rest.others x lacks.1 ∙ Ran-other w c p hs worker_id row s t ran x lacks.0 in
      finish k there' agrees others' ran.logged
    where
      finish :
          (k : JobRow)
          → find_first (with_id row.id) u.jobs ≡ some k
          → Agrees w c p hs worker_id ran.error row k
          → ((x : ℕ)
              → Lacks x (row ∷ rows)
              → find_first (with_id x) u.jobs ≡ find_first (with_id x) s.jobs)
          → Logged w c p hs worker_id row ran.error s t
          → Worked (row ∷ rows) s u
      finish k there agrees others
            (told h event l known answer logs id next_id owner attempt worker tells) =
          record {
            sound = rest.sound;
            ls = l ∷ rest.ls;
            logs =
                rest.logs
                ∙ ap (λ xs. xs ++ rest.ls) logs
                ∙ append_assoc s.job_logs (l ∷ []) rest.ls;
            reported =
                with_log row k l h event ran.error known there answer agrees tells owner attempt
                  worker rest.reported;
            others = others;
          }
      finish k there agrees others (unknown absent answer logs next_id) = record {
        sound = rest.sound;
        ls = rest.ls;
        logs = rest.logs ∙ ap (λ xs. xs ++ rest.ls) logs;
        reported = without_log row k absent there (rw answer at agrees) rest.reported;
        others = others;
      }

  pub work_off-Worked :
      (rows : List JobRow) (s : Store)
      → IsQuiet w
      → IsSound s
      → Increasing rows
      → All (IsHeld s.jobs) rows
      → Worked rows s (work_off w c p hs worker_id rows s)
  unfolding work_off
  work_off-Worked [] s quiet sound grow held = record {
    sound = sound;
    ls = [];
    logs = sym (append-nil s.job_logs);
    reported = nothing;
    others = λ x _. refl;
  }
  work_off-Worked (row ∷ rows) s quiet sound grow held =
      let live =
        find_first-IsLiveAt row.id s.jobs {j = row} sound.table.increasing held.0.0 held.0.1 in
      let t = run_job w c p hs worker_id row s in
      let ran = run_job-Ran w c p hs worker_id row s quiet sound live in
      let apart = above-Lacks row.id rows grow.0 in
      Worked-cons row rows s t (work_off w c p hs worker_id rows t) ran held.0.0 apart (
        work_off-Worked rows t quiet (Ran-IsSound w c p hs worker_id row s t ran sound live) grow.1
          (IsHeld-after row rows s t ran apart held.1))
