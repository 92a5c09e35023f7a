-- ===== src/Store/Jobs/Fetch.antt =====
-- What FetchJobs of internal/db/db.go hands out.
use rivo.Prelude.{
  ℕ, zero, suc, ◌+◌, ◌≤◌, ◌<◌, String, ◌≡◌, refl, Bool, true, false, none, List, [], ◌∷◌, map,
  arith, Bool-cases, ◌==◌, length, take, select, All, contains_id, length-take, length-map, inl,
  inr,
}
use rivo.Base.{ok}
use rivo.Store.Rows.{Time, JobRow, Store}
use rivo.Store.Statement.{World}
use rivo.Store.Jobs.{Increasing}
use rivo.Store.Jobs.Next.{insert_sorted, order_by, is_next, next_jobs, claim_all, fetch_jobs}

abbrev pub ids : List JobRow → List ℕ
ids = map (λ j. j.id)

contains_id-take :
    (n : ℕ) (js : List JobRow) (x : ℕ)
    → contains_id (ids (take n js)) x ≡ true
    → contains_id (ids js) x ≡ true
contains_id-take zero js x h = cc
contains_id-take (suc n) [] x h = h
contains_id-take (suc n) (j ∷ js) x h = ground (arith, contains_id-take n js x)

contains_id-insert_sorted :
    (j : JobRow) (js : List JobRow) (x : ℕ)
    → contains_id (ids (insert_sorted j js)) x ≡ contains_id (ids (j ∷ js)) x
unfolding insert_sorted
contains_id-insert_sorted j [] x = refl
contains_id-insert_sorted j (k ∷ ks) x = ground (arith, contains_id-insert_sorted j ks x)

pub contains_id-order_by :
    (js : List JobRow) (x : ℕ) → contains_id (ids (order_by js)) x ≡ contains_id (ids js) x
unfolding order_by
contains_id-order_by [] x = refl
contains_id-order_by (j ∷ js) x =
    ground (arith, contains_id-insert_sorted j (order_by js) x, contains_id-order_by js x)

-- A claimed row is running, so that the WHERE clause passes over it.
claimed_not_next :
    (locked : ℕ → Bool) (now later : Time) (namespace worker_id : String) (queues : List String)
    (claimed : List ℕ) (js : List JobRow) (x : ℕ)
    → contains_id
        (ids (select (is_next locked later namespace queues) (claim_all claimed now worker_id js)))
        x
      ≡ true
    → contains_id claimed x ≡ false
unfolding claim_all is_next
claimed_not_next locked now later namespace worker_id queues claimed [] x h = cc
claimed_not_next locked now later namespace worker_id queues claimed (j ∷ js) x h =
    ground (arith, claimed_not_next locked now later namespace worker_id queues claimed js x)

-- At most one row has a given id.
select_id-none :
    (x : ℕ) (js : List JobRow) → All (λ k. x < k.id) js → length (select (λ k. x == k.id) js) ≡ 0
select_id-none x [] h = refl
select_id-none x (j ∷ js) h = ground (arith, select_id-none x js h.1)

select_id-le : (x : ℕ) (js : List JobRow) → Increasing js → length (select (λ k. x == k.id) js) ≤ 1
select_id-le x [] h = omega arith
select_id-le x (j ∷ js) h = elim (Bool-cases (x == j.id)) [
  | inl e ↦ ground (arith, select_id-none j.id js h.0, select_id-le x js h.1)
  | inr e ↦ ground (arith, select_id-le x js h.1)
]

select_ids-cons :
    (x : ℕ) (xs : List ℕ) (js : List JobRow)
    → length (select (λ k. contains_id (x ∷ xs) k.id) js)
      ≤ length (select (λ k. x == k.id) js) + length (select (λ k. contains_id xs k.id) js)
select_ids-cons x xs [] = omega arith
select_ids-cons x xs (j ∷ js) = ground (arith, select_ids-cons x xs js)

select_ids-nil : (js : List JobRow) → length (select (λ k. contains_id [] k.id) js) ≡ 0
select_ids-nil [] = refl
select_ids-nil (j ∷ js) = select_ids-nil js

select_ids-le :
    (xs : List ℕ) (js : List JobRow)
    → Increasing js
    → length (select (λ k. contains_id xs k.id) js) ≤ length xs
select_ids-le [] js h = omega (arith, select_ids-nil js)
select_ids-le (x ∷ xs) js h =
    omega (arith, select_ids-cons x xs js, select_id-le x js h, select_ids-le xs js h)

claim_all-above :
    (claimed : List ℕ) (now : Time) (worker_id : String) (x : ℕ) (js : List JobRow)
    → All (λ k. x < k.id) js
    → All (λ k. x < k.id) (claim_all claimed now worker_id js)
unfolding claim_all
claim_all-above claimed now worker_id x [] h = tt
claim_all-above claimed now worker_id x (j ∷ js) h =
    (ground arith, claim_all-above claimed now worker_id x js h.1)

pub claim_all-Increasing :
    (claimed : List ℕ) (now : Time) (worker_id : String) (js : List JobRow)
    → Increasing js
    → Increasing (claim_all claimed now worker_id js)
unfolding claim_all
claim_all-Increasing claimed now worker_id [] h = tt
claim_all-Increasing claimed now worker_id (j ∷ js) h =
    elim (Bool-cases (contains_id claimed j.id)) [
      | inl e ↦ rw e (
        claim_all-above claimed now worker_id j.id js h.0,
        claim_all-Increasing claimed now worker_id js h.1,
      )
      | inr e ↦ rw e (
        claim_all-above claimed now worker_id j.id js h.0,
        claim_all-Increasing claimed now worker_id js h.1,
      )
    ]

length-next_jobs :
    (locked : ℕ → Bool) (now : Time) (namespace : String) (queues : List String) (limit : ℕ)
    (js : List JobRow)
    → length (next_jobs locked now namespace queues limit js) ≤ limit
unfolding next_jobs
length-next_jobs locked now namespace queues limit js =
    let chosen = order_by (select (is_next locked now namespace queues) js) in
    omega (arith, length-map (λ (j : JobRow). j.id) (take limit chosen), length-take limit chosen)

pub next_jobs-select :
    (locked : ℕ → Bool) (now : Time) (namespace : String) (queues : List String) (limit : ℕ)
    (js : List JobRow) (x : ℕ)
    → contains_id (next_jobs locked now namespace queues limit js) x ≡ true
    → contains_id (ids (select (is_next locked now namespace queues) js)) x ≡ true
unfolding next_jobs
next_jobs-select locked now namespace queues limit js x h =
    let chosen = select (is_next locked now namespace queues) js in
    rw (← contains_id-order_by chosen x) (contains_id-take limit (order_by chosen) x h)

select_ids-contain :
    (xs : List ℕ) (js : List JobRow)
    → All (λ j. contains_id xs j.id ≡ true) (select (λ j. contains_id xs j.id) js)
select_ids-contain xs [] = tt
select_ids-contain xs (j ∷ js) = elim (Bool-cases (contains_id xs j.id)) [
  | inl e ↦ rw e (e, select_ids-contain xs js)
  | inr e ↦ rw e (select_ids-contain xs js)
]

select_ids-absent :
    (xs ys : List ℕ) (js : List JobRow)
    → ((x : ℕ) → contains_id ys x ≡ true → contains_id xs x ≡ false)
    → All (λ j. contains_id xs j.id ≡ false) (select (λ j. contains_id ys j.id) js)
select_ids-absent xs ys [] apart = tt
select_ids-absent xs ys (j ∷ js) apart = elim (Bool-cases (contains_id ys j.id)) [
  | inl e ↦ rw e (apart j.id e, select_ids-absent xs ys js apart)
  | inr e ↦ rw e (select_ids-absent xs ys js apart)
]

module _ (w : World) (locked : ℕ → Bool) (namespace : String) (queues : List String) where
  -- If the statement does not fail and the ids of the table grow, FetchJobs returns rows, at most
  -- `limit` of them.
  pub fetch_jobs-le_limit :
      (limit : ℕ) (worker_id : String) (s : Store)
      → w.fault s.event ≡ none
      → Increasing s.jobs
      → (rows : List JobRow) × ((fetch_jobs w locked namespace queues limit worker_id s).0
          ≡ ok rows)
        × (length rows ≤ limit)
  unfolding fetch_jobs
  fetch_jobs-le_limit limit worker_id s quiet grow =
      let now = w.clock s.event in
      let claimed = next_jobs locked now namespace queues limit s.jobs in
      let jobs = claim_all claimed now worker_id s.jobs in
      (
        select (λ j. contains_id claimed j.id) jobs,
        rw quiet refl,
        omega (
          arith,
          select_ids-le claimed jobs (claim_all-Increasing claimed now worker_id s.jobs grow),
          length-next_jobs locked now namespace queues limit s.jobs,
        ),
      )

-- Two fetches in a row, by whatever workers, for whatever queues and locks, hand out no job twice:
-- there is a set of ids that holds every row of the first and none of the second.
pub fetch_jobs_exclusive :
    (w : World) (locked locked' : ℕ → Bool) (namespace namespace' : String)
    (queues queues' : List String) (limit limit' : ℕ) (worker worker' : String) (s : Store)
    → w.fault s.event ≡ none
    → w.fault (suc s.event) ≡ none
    → (rows rows' : List JobRow) × (claimed : List ℕ) × ((fetch_jobs w locked namespace queues limit
          worker s).0
        ≡ ok rows)
      × ((fetch_jobs w locked' namespace' queues' limit' worker'
            (fetch_jobs w locked namespace queues limit worker s).1).0
          ≡ ok rows')
      × All (λ j. contains_id claimed j.id ≡ true) rows
      × All (λ j. contains_id claimed j.id ≡ false) rows'
unfolding fetch_jobs
fetch_jobs_exclusive w locked locked' namespace namespace' queues queues' limit limit' worker
      worker' s quiet quiet' =
    let now = w.clock s.event in
    let later = w.clock (suc s.event) in
    let claimed = next_jobs locked now namespace queues limit s.jobs in
    let jobs = claim_all claimed now worker s.jobs in
    let claimed' = next_jobs locked' later namespace' queues' limit' jobs in
    (
      select (λ j. contains_id claimed j.id) jobs,
      select (λ j. contains_id claimed' j.id) (claim_all claimed' later worker' jobs),
      claimed,
      rw quiet refl,
      rw (quiet, quiet') refl,
      select_ids-contain claimed jobs,
      select_ids-absent claimed claimed' (claim_all claimed' later worker' jobs) (λ x h.
          claimed_not_next locked' now later namespace' worker queues' claimed s.jobs x
            (next_jobs-select locked' later namespace' queues' limit' jobs x h)),
    )
