-- ===== src/Client/Idempotence.antt =====
-- Idempotency keys at the level of the client: enqueueJob of enqueue.go.
use rivo.Prelude.{
  ℕ, suc, some, String, Bool, true, false, ◌≡◌, refl, ap, ◌∙◌, inl, inr, arith, Bool-cases, str_eq,
  ◌==◌,
}
use rivo.Base.{Result, ok, Json}
use rivo.Store.{Time, JobRow, World, Store}
use rivo.Store.Jobs.{is_terminal_state, insert_job, find_by_key}
use rivo.Store.Jobs.Invariant.{HasTable}
use rivo.Store.Jobs.Insert.{IsQuiet, insert_job-found, insert_job_finds}
use rivo.Client.Enqueue.{EnqueueParams, marshal_or_empty, insert_params, state_at, enqueue_job}

-- With a kind and values that JSON accepts, enqueueing is one InsertJob.
enqueue_job-insert_job :
    (w : World) (namespace : String) (p : EnqueueParams) (s : Store) {payload metadata : Json}
    → str_eq p.kind "" ≡ false
    → marshal_or_empty p.payload ≡ ok payload
    → marshal_or_empty p.metadata ≡ ok metadata
    → (at : Time) × (now : Time) × (n : ℕ) × (enqueue_job w namespace p s
        ≡ insert_job w (insert_params namespace p at now payload metadata) (record s { event = n }))
unfolding enqueue_job
enqueue_job-insert_job w namespace p s {payload} {metadata} named body meta =
    elim (Bool-cases (p.schedule_at == 0)) [
      | inl zero_time ↦ (
        w.clock s.event,
        w.clock (suc s.event),
        suc (suc s.event),
        rw (named, enqueue_job)
            (rw (zero_time, enqueue_job) (rw (body, enqueue_job) (rw (meta, enqueue_job) refl))),
      )
      | inr given ↦ (
        p.schedule_at,
        w.clock s.event,
        suc s.event,
        rw (named, enqueue_job)
            (rw (given, enqueue_job) (rw (body, enqueue_job) (rw (meta, enqueue_job) refl))),
      )
    ]

live_state : (at now : Time) → is_terminal_state (state_at at now) ≡ false
live_state at now = ground arith

-- Enqueueing through the client is idempotent: on a table that meets the unique index and a
-- database that does not fail, an Enqueue with a kind, an idempotency key and values that JSON
-- accepts returns a job, and a second Enqueue with the same kind and key, whatever its other
-- parameters, returns that very job, as a duplicate, and leaves the table as it was.
pub enqueue_job_idempotent :
    (w : World) (namespace : String) (p p' : EnqueueParams) (s : Store)
    {payload metadata payload' metadata' : Json}
    → IsQuiet w
    → HasTable s
    → str_eq p.kind "" ≡ false
    → str_eq p.idempotency_key "" ≡ false
    → p'.kind ≡ p.kind
    → p'.idempotency_key ≡ p.idempotency_key
    → marshal_or_empty p.payload ≡ ok payload
    → marshal_or_empty p.metadata ≡ ok metadata
    → marshal_or_empty p'.payload ≡ ok payload'
    → marshal_or_empty p'.metadata ≡ ok metadata'
    → (row : JobRow) × (duplicate : Bool) × ((enqueue_job w namespace p s).0 ≡ ok (row, duplicate))
      × ((enqueue_job w namespace p' (enqueue_job w namespace p s).1).0 ≡ ok (row, true))
      × ((enqueue_job w namespace p' (enqueue_job w namespace p s).1).1.jobs
          ≡ (enqueue_job w namespace p s).1.jobs)
enqueue_job_idempotent w namespace p p' s {payload} {metadata} {payload'} {metadata'} quiet t named
      keyed ek ei b m b' m' =
    let (at, now, n, e) = enqueue_job-insert_job w namespace p s named b m in
    let q = insert_params namespace p at now payload metadata in
    let (row, duplicate, first, found) =
      insert_job_finds w quiet q keyed (record s { event = n }) t (live_state at now) in
    let s' = (enqueue_job w namespace p s).1 in
    let (at', now', n', e') = enqueue_job-insert_job w namespace p' s' (rw ek named) b' m' in
    let q' = insert_params namespace p' at' now' payload' metadata' in
    let there : find_by_key namespace p'.kind p'.idempotency_key s'.jobs ≡ some row =
      rw (ek, ei, e) found in
    let again =
      e' ∙ insert_job-found w quiet q' (rw ei keyed) (record s' { event = n' }) {j = row} there in
    (
      row,
      duplicate,
      rw e first,
      ap (λ (x : Result (JobRow × Bool) × Store). x.0) again,
      ap (λ (x : Result (JobRow × Bool) × Store). x.1.jobs) again,
    )
