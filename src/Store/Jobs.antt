-- ===== src/Store/Jobs.antt =====
-- The job statements of internal/db/db.go: InsertJob, CompleteJob, FailJob, PromoteScheduledJobs,
-- GetJob and CancelJob. `Next` holds FetchJobs.
pub mod Next
pub mod Fetch
pub mod Priority
pub mod Keys
pub mod Invariant
pub mod Steps
pub mod History
pub mod Insert
pub mod Append
pub mod Lifecycle
use rivo.Prelude.{
  ℕ, suc, ◌+◌, ◌<◌, String, Bool, true, false, not, ◌&&◌, ◌||◌, Option, none, some, List, [], ◌∷◌,
  ◌++◌, any, map, str_eq, ltb, leb, ◌==◌, if◌then◌else◌, length, take, select, find_first, All,
  contains, contains_id,
}
use rivo.Prelude.Int.{ℤ, ltb_ℤ}
use rivo.Base.{Error, message, wrapf, Result, ok, err, RawMessage}
use rivo.Store.Rows.{
  Time, JobState, available, scheduled, running, retryable, completed, cancelled, discarded, JobRow,
  Store,
}
use rivo.Store.Statement.{World, M, pure, ◌>>=◌, with_error, statement}

-- `state IN ('completed', 'cancelled', 'discarded')`
abbrev pub is_terminal_state : JobState → Bool
is_terminal_state completed = true
is_terminal_state cancelled = true
is_terminal_state discarded = true
is_terminal_state _ = false

abbrev pub is_available : JobState → Bool
is_available available = true
is_available _ = false

-- `state IN ('scheduled', 'retryable')`
abbrev pub is_waiting : JobState → Bool
is_waiting scheduled = true
is_waiting retryable = true
is_waiting _ = false

-- The ids of a table grow, since BIGSERIAL numbers the rows.
abbrev pub Increasing : List JobRow → Type 0
Increasing [] = Unit
Increasing (j ∷ js) = All (λ k. j.id < k.id) js × Increasing js

pub record InsertJobParams : Type 0 where
  pub kind : String
  pub queue : String
  pub namespace : String
  pub priority : ℤ
  pub state : JobState
  pub payload : RawMessage
  pub metadata : RawMessage
  pub scheduled_at : Time
  pub max_attempts : ℕ
  pub idempotency_key : String
  pub workflow_run_id : Option ℕ
  pub step_id : String

-- A parameter that is stored as NULL when it is the empty text.
abbrev pub nullable : String → Option String
nullable t = if str_eq t "" then none else some t

abbrev pub key_eq : String → Option String → Bool
key_eq k none = false
key_eq k (some k') = str_eq k' k

abbrev pub is_live : JobRow → Bool
is_live j = not (is_terminal_state j.state)

-- A live row with this key, which the SELECT of InsertJob looks for.
abbrev pub holds_key : (namespace kind key : String) → JobRow → Bool
holds_key namespace kind key j =
    str_eq j.namespace namespace && str_eq j.kind kind && key_eq key j.idempotency_key && is_live j

unfoldable pub find_by_key : (namespace kind key : String) → List JobRow → Option JobRow
find_by_key namespace kind key = find_first (holds_key namespace kind key)

-- Two rows that the partial unique index rivo_jobs_idempotency_idx does not allow together.
abbrev pub clashes : JobRow → JobRow → Bool
clashes a b = elim a.idempotency_key [
  | none ↦ false
  | some key ↦ is_live a && holds_key a.namespace a.kind key b
]

-- What the index admits.
unfoldable pub unique_keys : List JobRow → Bool
unique_keys [] = true
unique_keys (j ∷ js) = not (any (clashes j) js) && unique_keys js

abbrev pub new_row : ℕ → Time → InsertJobParams → JobRow
new_row id now p = record {
  id = id;
  kind = p.kind;
  queue = p.queue;
  namespace = p.namespace;
  priority = p.priority;
  state = p.state;
  payload = p.payload;
  metadata = p.metadata;
  scheduled_at = p.scheduled_at;
  attempt = 0;
  max_attempts = p.max_attempts;
  attempted_at = none;
  attempted_by = none;
  completed_at = none;
  cancelled_at = none;
  discarded_at = none;
  errors = [];
  idempotency_key = nullable p.idempotency_key;
  workflow_run_id = p.workflow_run_id;
  step_id = nullable p.step_id;
  created_at = now;
  updated_at = now;
}

-- The SELECT of InsertJob. No row is no error: it is `pgx.ErrNoRows`.
pub select_by_key : World → InsertJobParams → String → M (Option JobRow)
unfolding find_by_key statement
select_by_key w p key = statement w (λ now s. (ok (find_by_key p.namespace p.kind key s.jobs), s))

abbrev pub duplicate_key : Error
duplicate_key = message "duplicate key value violates unique constraint"

-- A statement that could break the unique index is refused by it, as a whole. (Of the others none
-- turns a terminal row into a live one.)
abbrev pub commit_jobs {ℓ} : {A : Type ℓ} → A → List JobRow → ℕ → Store → Result A × Store
commit_jobs a jobs next s =
    if unique_keys jobs
    then (ok a, record s { jobs = jobs; next_job_id = next })
    else (err duplicate_key, s)

-- The INSERT.
pub insert_row : World → InsertJobParams → M JobRow
unfolding statement
insert_row w p = statement w (λ now s.
    let row = new_row s.next_job_id now p in
    commit_jobs row (s.jobs ++ row ∷ []) (suc s.next_job_id) s)

pub insert_new : World → InsertJobParams → M (JobRow × Bool)
unfolding insert_row
insert_new w p = do row ← with_error (wrapf "inserting job: ") (insert_row w p); pure (row, false)

-- What InsertJob does when its SELECT has answered.
abbrev insert_unless : World → InsertJobParams → Option JobRow → M (JobRow × Bool)
insert_unless w p (some existing) = pure (existing, true)
insert_unless w p none = insert_new w p

-- The two paths of InsertJob: with no idempotency key, and with one.
pub insert_keyed : World → InsertJobParams → (keyless : Bool) → M (JobRow × Bool)
insert_keyed w p true = insert_new w p
insert_keyed w p false =
    with_error (wrapf "checking idempotency: ") (select_by_key w p p.idempotency_key)
    >>= insert_unless w p

-- The row, and whether it is an existing one.
unfoldable pub insert_job : World → InsertJobParams → M (JobRow × Bool)
unfolding insert_keyed
insert_job w p = insert_keyed w p (str_eq p.idempotency_key "")

-- `UPDATE rivo_jobs SET ... WHERE id = $1 AND ...`
unfoldable pub update_where : (JobRow → Bool) → (JobRow → JobRow) → List JobRow → List JobRow
update_where p f = map (λ j. if p j then f j else j)

abbrev pub with_id : ℕ → JobRow → Bool
with_id id j = j.id == id

abbrev pub complete : Time → JobRow → JobRow
complete now j = record j { state = completed; completed_at = some now; updated_at = now }

unfoldable pub complete_job : World → ℕ → M (Unit {0})
unfolding update_where statement
complete_job w id =
    statement w
      (λ now s. (ok tt, record s { jobs = update_where (with_id id) (complete now) s.jobs }))

-- `CASE WHEN $2 = 'discarded' THEN NOW() ELSE NULL END`, `COALESCE($3, scheduled_at)`, and the
-- state that FailJob chooses, by `retryAt`.
abbrev pub fail : Time → String → Option Time → JobRow → JobRow
fail now msg (some t) j = record j {
  state = retryable;
  scheduled_at = t;
  errors = j.errors ++ record { attempt = j.attempt; at = now; error = msg } ∷ [];
  discarded_at = none;
  updated_at = now;
}
fail now msg none j = record j {
  state = discarded;
  errors = j.errors ++ record { attempt = j.attempt; at = now; error = msg } ∷ [];
  discarded_at = some now;
  updated_at = now;
}

unfoldable pub fail_job : World → ℕ → String → Option Time → M (Unit {0})
unfolding update_where statement
fail_job w id msg retry_at = statement w (λ now s.
    commit_jobs tt (update_where (with_id id) (fail now msg retry_at) s.jobs) s.next_job_id s)

abbrev pub is_due : Time → String → JobRow → Bool
is_due now namespace j =
    str_eq j.namespace namespace && is_waiting j.state && leb j.scheduled_at now

abbrev pub promote : Time → JobRow → JobRow
promote now j = record j { state = available; updated_at = now }

-- The number is `RowsAffected`.
unfoldable pub promote_scheduled_jobs : World → String → M ℕ
unfolding update_where statement
promote_scheduled_jobs w namespace = statement w (λ now s. (
  ok (length (select (is_due now namespace) s.jobs)),
  record s { jobs = update_where (is_due now namespace) (promote now) s.jobs },
))

unfoldable pub get_job : World → ℕ → M (Option JobRow)
unfolding statement
get_job w id = statement w (λ now s. (ok (find_first (with_id id) s.jobs), s))

abbrev pub cancel : Time → JobRow → JobRow
cancel now j = record j { state = cancelled; cancelled_at = some now; updated_at = now }

abbrev pub may_cancel : ℕ → JobRow → Bool
may_cancel id j = j.id == id && not (is_terminal_state j.state)

unfoldable pub cancel_job : World → ℕ → M (Unit {0})
unfolding update_where statement
cancel_job w id =
    statement w
      (λ now s. (ok tt, record s { jobs = update_where (may_cancel id) (cancel now) s.jobs }))
