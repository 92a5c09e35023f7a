-- ===== src/Pipeline/Settle.antt =====
-- What handleResult of internal/executor/completer.go writes for a live job, on a database that does
-- not fail.
use rivo.Prelude.{
  ℕ, suc, ◌<◌, ◌≡◌, refl, sym, subst, true, String, Option, none, some, List, [], ◌∷◌, arith, All,
  ◌==◌, find_first, Bool-cases, inl, inr,
}
use rivo.Base.{Error, ok, error_text}
use rivo.Store.{Time, JobRow, World, Store}
use rivo.Store.Jobs.{
  with_id, is_live, complete, fail, update_where, complete_job, fail_job, Increasing,
}
use rivo.Store.Jobs.Keys.{IsTame}
use rivo.Store.Jobs.Insert.{IsQuiet}
use rivo.Store.Jobs.Lifecycle.{some_inj}
use rivo.Store.Jobs.Invariant.{IsTable, HasTable, map-IsTable, change, complete-IsTame}
use rivo.Retry.{Chance, Policy, completer_retry}
use rivo.Executor.Completer.{handle_result}

-- The rows with this id are live.
abbrev pub IsLiveAt : ℕ → List JobRow → Type 0
IsLiveAt id js = All (λ k. with_id id k ≡ true → is_live k ≡ true) js

no_other :
    (id n : ℕ) (js : List JobRow) → (n == id) ≡ true → All (λ k. n < k.id) js → IsLiveAt id js
no_other id n [] e h = tt
no_other id n (k ∷ ks) e h = (λ same. ground arith, no_other id n ks e h.1)

-- In a table with growing ids the row that is found is the only one.
pub find_first-IsLiveAt :
    (id : ℕ) (js : List JobRow) {j : JobRow}
    → Increasing js
    → find_first (with_id id) js ≡ some j
    → is_live j ≡ true
    → IsLiveAt id js
find_first-IsLiveAt id [] grow found live = tt
find_first-IsLiveAt id (k ∷ ks) {j} grow found live = elim (Bool-cases (with_id id k)) [
  | inl here ↦ (
    λ _. subst (λ x. is_live x ≡ true) (sym (some_inj (rw here at found))) live,
    no_other id k.id ks here grow.0,
  )
  | inr there ↦
      (λ e. ground arith, find_first-IsLiveAt id ks {j = j} grow.1 (rw there at found) live)
]

fail-IsTame :
    (now : Time) (id : ℕ) (msg : String) (retry_at : Option Time) (k : JobRow)
    → (with_id id k ≡ true → is_live k ≡ true)
    → IsTame (change (with_id id) (fail now msg retry_at)) k
fail-IsTame now id msg none k h = ground arith
fail-IsTame now id msg (some t) k h = ground arith

module _ (w : World) (c : Chance) (p : Policy) where
  -- What becomes of the row, if the result arrives at event `n`.
  abbrev pub settle : (n : ℕ) → JobRow → Option Error → JobRow → JobRow
  settle n job none = complete (w.clock n)
  settle n job (some e) =
      fail (w.clock (suc n)) (error_text e) (completer_retry c p (w.clock n) job.attempt e)

  abbrev pub event_after : Option Error → ℕ → ℕ
  event_after none n = suc n
  event_after (some e) n = suc (suc n)

  settle-IsTame :
      (n : ℕ) (job : JobRow) (o : Option Error) (id : ℕ) (k : JobRow)
      → (with_id id k ≡ true → is_live k ≡ true)
      → IsTame (change (with_id id) (settle n job o)) k
  settle-IsTame n job none id k h = complete-IsTame (w.clock n) id k
  settle-IsTame n job (some e) id k h =
      fail-IsTame (w.clock (suc n)) id (error_text e)
        (completer_retry c p (w.clock n) job.attempt e) k h

  settle-IsTame-All :
      (n : ℕ) (job : JobRow) (o : Option Error) (id : ℕ) (js : List JobRow)
      → IsLiveAt id js
      → All (IsTame (change (with_id id) (settle n job o))) js
  settle-IsTame-All n job o id [] live = tt
  settle-IsTame-All n job o id (k ∷ ks) live =
      (settle-IsTame n job o id k live.0, settle-IsTame-All n job o id ks live.1)

  pub settle-IsTable :
      (n : ℕ) (job : JobRow) (o : Option Error) (id : ℕ) (js : List JobRow) (next : ℕ)
      → IsLiveAt id js
      → IsTable js next
      → IsTable (update_where (with_id id) (settle n job o) js) next
  unfolding update_where
  settle-IsTable n job o id js next live t =
      map-IsTable (change (with_id id) (settle n job o)) js next
        (settle-IsTame-All n job o id js live) t

  -- The whole effect of handleResult: the unique index admits it, since the job was live.
  pub handle_result_lem :
      (job : JobRow) (o : Option Error) (s : Store)
      → IsQuiet w
      → HasTable s
      → IsLiveAt job.id s.jobs
      → handle_result w c p (record { job = job; error = o }) s ≡ (
        ok tt,
        record s {
          jobs = update_where (with_id job.id) (settle s.event job o) s.jobs;
          event = event_after o s.event;
        },
      )
  unfolding handle_result complete_job fail_job
  handle_result_lem job none s quiet t live = rw (quiet s.event) refl
  handle_result_lem job (some e) s quiet t live =
      rw (quiet (suc s.event))
        (rw (settle-IsTable s.event job (some e) job.id s.jobs s.next_job_id live t).unique refl)
