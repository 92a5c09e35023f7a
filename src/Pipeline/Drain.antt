-- ===== src/Pipeline/Drain.antt =====
-- That a round with room for all jobs that are ready leaves none of them waiting: FetchJobs of
-- internal/db/db.go, and every job that it hands out run to its end.
use rivo.Prelude.{
  ℕ, zero, suc, ◌+◌, ◌≡◌, ◌≤◌, ◌⊎◌, ◌∙◌, refl, ap, subst, Bool, true, String, Option, none, some,
  List, [], ◌∷◌, arith, find_first, select, contains_id, Bool-cases, inl, inr, length, take,
}
use rivo.Base.{Error, ok, wrap_suffix, handler_not_found}
use rivo.Store.{Time, JobRow, LogRow, World, Store, completed, retryable, discarded}
use rivo.Store.Jobs.{with_id}
use rivo.Store.Jobs.Next.{claim, claim_all, next_jobs, fetch_jobs, is_next, order_by, insert_sorted}
use rivo.Store.Jobs.Fetch.{ids, contains_id-order_by}
use rivo.Store.Jobs.Insert.{IsQuiet}
use rivo.Store.Jobs.Lifecycle.{some_inj}
use rivo.Retry.{Chance, Policy}
use rivo.Handlers.{RegisteredHandler}
use rivo.Pipeline.{work_off}
use rivo.Pipeline.Ran.{IsSound, Agrees}
use rivo.Pipeline.Reported.{Reported, nothing, with_log, without_log}
use rivo.Pipeline.Round.{work_off-fetch_jobs}

ok_inj : {xs ys : List JobRow} → ok xs ≡ ok ys → xs ≡ ys
ok_inj h = cc

take-all {ℓ} : {A : Type ℓ} (n : ℕ) (xs : List A) → length xs ≤ n → take n xs ≡ xs
take-all zero [] h = refl
take-all zero (x ∷ xs) h = absurd (omega arith)
take-all (suc n) [] h = refl
take-all (suc n) (x ∷ xs) h = ap (λ ys. x ∷ ys) (take-all n xs (omega arith))

length-insert_sorted :
    (j : JobRow) (js : List JobRow) → length (insert_sorted j js) ≡ suc (length js)
unfolding insert_sorted
length-insert_sorted j [] = refl
length-insert_sorted j (k ∷ ks) = ground (arith, length-insert_sorted j ks)

length-order_by : (js : List JobRow) → length (order_by js) ≡ length js
unfolding order_by
length-order_by [] = refl
length-order_by (j ∷ js) = omega (arith, length-insert_sorted j (order_by js), length-order_by js)

-- A row that a WHERE clause keeps is found by its id among those that it keeps.
found-selected :
    (p : JobRow → Bool) (id : ℕ) (js : List JobRow) {j : JobRow}
    → find_first (with_id id) js ≡ some j
    → p j ≡ true
    → contains_id (ids (select p js)) id ≡ true
found-selected p id [] found kept = cc
found-selected p id (k ∷ ks) {j} found kept = elim (Bool-cases (with_id id k)) [
  | inl here ↦
      let same : k ≡ j = some_inj (rw here at found) in rw (ap p same ∙ kept) (ground arith)
  | inr there ↦ ground (arith, found-selected p id ks {j = j} (rw there at found) kept)
]

-- If there is room for all ready rows, all of them are claimed.
all_claimed :
    (locked : ℕ → Bool) (now : Time) (namespace : String) (queues : List String) (limit : ℕ)
    (js : List JobRow) (id : ℕ) {j : JobRow}
    → length (select (is_next locked now namespace queues) js) ≤ limit
    → find_first (with_id id) js ≡ some j
    → is_next locked now namespace queues j ≡ true
    → contains_id (next_jobs locked now namespace queues limit js) id ≡ true
unfolding next_jobs
all_claimed locked now namespace queues limit js id {j} room found ready =
    let chosen = select (is_next locked now namespace queues) js in
    rw (take-all limit (order_by chosen) (omega (arith, length-order_by chosen, room))) (
      contains_id-order_by chosen id
      ∙ found-selected (is_next locked now namespace queues) id js found ready)

claimed_row :
    (claimed : List ℕ) (now : Time) (worker_id : String) (id : ℕ) (js : List JobRow) {j : JobRow}
    → contains_id claimed id ≡ true
    → find_first (with_id id) js ≡ some j
    → find_first
        (with_id id)
        (select (λ k. contains_id claimed k.id) (claim_all claimed now worker_id js))
      ≡ some (claim now worker_id j)
unfolding claim_all
claimed_row claimed now worker_id id [] mine found = cc
claimed_row claimed now worker_id id (k ∷ ks) {j} mine found = elim (Bool-cases (with_id id k)) [
  | inl here ↦
      let same : k ≡ j = some_inj (rw here at found) in
      let e : contains_id claimed k.id ≡ true = ground arith in
      rw e (rw e (rw here (ap (λ x. some (claim now worker_id x)) same)))
  | inr there ↦
      let rest = claimed_row claimed now worker_id id ks {j = j} mine (rw there at found) in
      elim (Bool-cases (contains_id claimed k.id)) [
        | inl e ↦ rw e (rw e (rw there rest))
        | inr e ↦ rw e (rw e rest)
      ]
]

-- A job that has been run once more: it is completed, to be retried, or discarded.
abbrev pub HasEnded : (attempt : ℕ) → JobRow → Type 0
HasEnded attempt k =
    (k.attempt ≡ attempt) × ((k.state ≡ completed) ⊎ (k.state ≡ retryable) ⊎ (k.state ≡ discarded))

module _ (w : World) (c : Chance) (p : Policy) (hs : List RegisteredHandler)
    (worker_id : String) where
  Agrees-HasEnded :
      (error : Option Error) (row k : JobRow)
      → Agrees w c p hs worker_id error row k
      → HasEnded row.attempt k
  Agrees-HasEnded none row k (done, same) = (same, inl done)
  Agrees-HasEnded (some e) row k (asked, at, errors, same, inl (never, gone)) =
      (same, inr (inr gone))
  Agrees-HasEnded (some e) row k (asked, at, errors, same, inr (later, waits)) =
      (same, inr (inl waits))

  ended_head :
      (jobs : List JobRow) (r : JobRow) (rs : List JobRow) (k : JobRow) (id : ℕ) {row : JobRow}
      → find_first (with_id r.id) jobs ≡ some k
      → HasEnded r.attempt k
      → find_first (with_id id) (r ∷ rs) ≡ some row
      → (find_first (with_id id) rs ≡ some row
          → (k : JobRow) × (find_first (with_id id) jobs ≡ some k) × HasEnded row.attempt k)
      → (k : JobRow) × (find_first (with_id id) jobs ≡ some k) × HasEnded row.attempt k
  ended_head jobs r rs k id {row} there ended found rest = elim (Bool-cases (with_id id r)) [
    | inl here ↦
        let same : r ≡ row = some_inj (rw here at found) in
        let e : r.id ≡ id = ground arith in
        (
          k,
          subst (λ n. find_first (with_id n) jobs ≡ some k) e there,
          subst (λ (x : JobRow). HasEnded x.attempt k) same ended,
        )
    | inr other ↦ rest (rw other at found)
  ]

  Reported-HasEnded :
      (jobs rows : List JobRow) (ls : List LogRow) (id : ℕ) {row : JobRow}
      → Reported w c p hs worker_id jobs rows ls
      → find_first (with_id id) rows ≡ some row
      → (k : JobRow) × (find_first (with_id id) jobs ≡ some k) × HasEnded row.attempt k
  Reported-HasEnded jobs [] [] id nothing found = absurd (cc found)
  Reported-HasEnded jobs [] (l ∷ ls) id {row = row} reported found = elim reported [ ]
  Reported-HasEnded jobs (r ∷ rs) (l ∷ ls) id {row}
        (with_log _ k _ h event error known there answer agrees tells a b d rest) found =
      ended_head jobs r rs k id {row = row} there (Agrees-HasEnded error r k agrees) found
        (Reported-HasEnded jobs rs ls id {row = row} rest)
  Reported-HasEnded jobs (r ∷ rs) ls id {row} (without_log _ k absent there agrees rest) found =
      ended_head jobs r rs k id {row = row} there
        (Agrees-HasEnded (some (wrap_suffix handler_not_found r.kind)) r k agrees) found
        (Reported-HasEnded jobs rs ls id {row = row} rest)

  fetched_row :
      (locked : ℕ → Bool) (namespace : String) (queues : List String) (limit : ℕ) (id : ℕ)
      (s : Store) {rows : List JobRow} {j : JobRow}
      → w.fault s.event ≡ none
      → (fetch_jobs w locked namespace queues limit worker_id s).0 ≡ ok rows
      → contains_id (next_jobs locked (w.clock s.event) namespace queues limit s.jobs) id ≡ true
      → find_first (with_id id) s.jobs ≡ some j
      → find_first (with_id id) rows ≡ some (claim (w.clock s.event) worker_id j)
  unfolding fetch_jobs
  fetched_row locked namespace queues limit id s {rows} {j} quiet answer mine found =
      let now = w.clock s.event in
      let claimed = next_jobs locked now namespace queues limit s.jobs in
      let same = ok_inj (rw quiet at answer) in
      subst (λ rs. find_first (with_id id) rs ≡ some (claim now worker_id j)) same
        (claimed_row claimed now worker_id id s.jobs mine found)

  -- On a database that does not fail, on a table of jobs that is in order and with log ids below the
  -- next id, a job is not left waiting that is available, due, of the namespace and of one of the queues,
  -- and not locked, if the limit is not below the number of such jobs: after FetchJobs and the
  -- runs of all jobs that it handed out the job has one more attempt and is completed, to be
  -- retried, or discarded.
  pub ready_job-HasEnded :
      (locked : ℕ → Bool) (namespace : String) (queues : List String) (limit : ℕ) (id : ℕ)
      (s : Store) {j : JobRow}
      → IsQuiet w
      → IsSound s
      → find_first (with_id id) s.jobs ≡ some j
      → is_next locked (w.clock s.event) namespace queues j ≡ true
      → length (select (is_next locked (w.clock s.event) namespace queues) s.jobs) ≤ limit
      → let fetched = fetch_jobs w locked namespace queues limit worker_id s in
        (rows : List JobRow) × (k : JobRow) × (fetched.0 ≡ ok rows)
        × (find_first (with_id id) (work_off w c p hs worker_id rows fetched.1).jobs ≡ some k)
        × HasEnded (j.attempt + 1) k
  ready_job-HasEnded locked namespace queues limit id s {j} quiet sound found ready room =
      let (rows, ls, answer, rest) =
        work_off-fetch_jobs w c p hs worker_id locked namespace queues limit s quiet sound in
      let now = w.clock s.event in
      let row =
        fetched_row locked namespace queues limit id s {rows = rows} {j = j} (quiet s.event) answer
          (all_claimed locked now namespace queues limit s.jobs id room found ready) found in
      let t =
        work_off w c p hs worker_id rows
          (fetch_jobs w locked namespace queues limit worker_id s).1 in
      let (k, there, ended) = Reported-HasEnded t.jobs rows ls id rest.1 row in
      (rows, k, answer, there, ended)
