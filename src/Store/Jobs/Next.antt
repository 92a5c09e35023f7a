-- ===== src/Store/Jobs/Next.antt =====
-- FetchJobs of internal/db/db.go: its WHERE and ORDER BY, and the claim.
use rivo.Prelude.{
  ℕ, ◌+◌, String, Bool, true, false, not, ◌&&◌, some, List, [], ◌∷◌, map, str_eq, ltb, leb,
  if◌then◌else◌, take, select, contains, contains_id,
}
use rivo.Prelude.Int.{ltb_ℤ}
use rivo.Base.{wrapf, ok}
use rivo.Store.Rows.{Time, running, JobRow}
use rivo.Store.Statement.{World, M, with_error, statement}
use rivo.Store.Jobs.{is_available}

-- `ORDER BY priority DESC, scheduled_at ASC, id ASC`: whether `a` comes strictly before `b`.
unfoldable pub before : JobRow → JobRow → Bool
before a b =
    if ltb_ℤ b.priority a.priority
    then true
    else if ltb_ℤ a.priority b.priority
    then false
    else if ltb a.scheduled_at b.scheduled_at
    then true
    else if ltb b.scheduled_at a.scheduled_at
    then false
    else ltb a.id b.id

unfoldable pub insert_sorted : JobRow → List JobRow → List JobRow
insert_sorted a [] = a ∷ []
insert_sorted a (b ∷ bs) =
    let rest = insert_sorted a bs in if before b a then b ∷ rest else a ∷ b ∷ bs

unfoldable pub order_by : List JobRow → List JobRow
unfolding insert_sorted
order_by [] = []
order_by (a ∷ as') = insert_sorted a (order_by as')

-- The WHERE clause of FetchJobs. `locked` are the ids that other transactions hold, which
-- `FOR UPDATE SKIP LOCKED` passes over.
unfoldable pub is_next :
    (locked : ℕ → Bool) → (now : Time) → (namespace : String) → List String → JobRow → Bool
is_next locked now namespace queues j =
    str_eq j.namespace namespace
    && contains queues j.queue
    && is_available j.state
    && leb j.scheduled_at now
    && not (locked j.id)

-- The rows of the CTE next_jobs, in its order, and their ids.
unfoldable pub next_rows :
    (ℕ → Bool) → Time → String → List String → (limit : ℕ) → List JobRow → List JobRow
unfolding order_by is_next
next_rows locked now namespace queues limit jobs =
    take limit (order_by (select (is_next locked now namespace queues) jobs))

unfoldable pub next_jobs :
    (ℕ → Bool) → Time → String → List String → (limit : ℕ) → List JobRow → List ℕ
unfolding next_rows
next_jobs locked now namespace queues limit jobs =
    map (λ j. j.id) (next_rows locked now namespace queues limit jobs)

abbrev pub claim : Time → String → JobRow → JobRow
claim now worker_id j = record j {
  state = running;
  attempt = j.attempt + 1;
  attempted_at = some now;
  attempted_by = some worker_id;
  updated_at = now;
}

unfoldable pub claim_all : List ℕ → Time → String → List JobRow → List JobRow
claim_all ids now worker_id = map (λ j. if contains_id ids j.id then claim now worker_id j else j)

-- The rows come back in the table's order, which SQL leaves open: no theorem rests on it.
unfoldable pub fetch_jobs : World → (ℕ → Bool) → String → List String → ℕ → String → M (List JobRow)
unfolding next_jobs claim_all statement
fetch_jobs w locked namespace queues limit worker_id = with_error (wrapf "fetching jobs: ") (
    statement w (λ now s.
      let ids = next_jobs locked now namespace queues limit s.jobs in
      let jobs = claim_all ids now worker_id s.jobs in
      (ok (select (λ j. contains_id ids j.id) jobs), record s { jobs = jobs })))
