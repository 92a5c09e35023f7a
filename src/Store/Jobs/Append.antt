-- ===== src/Store/Jobs/Append.antt =====
-- The rows after InsertJob of internal/db/db.go: those before, or one more at the end.
use rivo.Prelude.{
  suc, ◌≡◌, refl, Bool, true, false, Option, none, some, [], ◌∷◌, ◌++◌, ◌⊎◌, inl, inr, Bool-cases,
  Option-cases, str_eq,
}
use rivo.Base.{Result-cases}
use rivo.Store.Rows.{Time, JobRow, Store}
use rivo.Store.Statement.{World}
use rivo.Store.Jobs.{
  InsertJobParams, new_row, unique_keys, insert_row, insert_new, insert_unless, insert_keyed,
  select_by_key, insert_job,
}

-- The tables `s` and `t` before and after an insertion.
abbrev pub Appends : InsertJobParams → (s t : Store) → Type 0
Appends p s t =
    (t.jobs ≡ s.jobs) × (t.next_job_id ≡ s.next_job_id)
    ⊎ (now : Time) × (t.jobs ≡ s.jobs ++ new_row s.next_job_id now p ∷ [])
      × (t.next_job_id ≡ suc s.next_job_id)

module _ (w : World) (p : InsertJobParams) where
  insert_row-Appends : (s : Store) → Appends p s (insert_row w p s).1
  unfolding insert_row
  insert_row-Appends s =
      let jobs = s.jobs ++ new_row s.next_job_id (w.clock s.event) p ∷ [] in
      elim (Option-cases (w.fault s.event)) [
        | inr (e, broken) ↦ rw broken (inl (refl, refl))
        | inl quiet ↦ elim (Bool-cases (unique_keys jobs)) [
          | inl unique ↦ rw (quiet, unique) (inr (w.clock s.event, refl, refl))
          | inr clash ↦ rw (quiet, clash) (inl (refl, refl))
        ]
      ]

  insert_new-Appends : (s : Store) → Appends p s (insert_new w p s).1
  unfolding insert_new
  insert_new-Appends s =
      let appended = insert_row-Appends s in
      elim (Result-cases (insert_row w p s).0) [
        | inl (row, e) ↦ rw e appended
        | inr (x, e) ↦ rw e appended
      ]

  insert_unless-Appends :
      (found : Option JobRow) (s t : Store)
      → t.jobs ≡ s.jobs
      → t.next_job_id ≡ s.next_job_id
      → Appends p s (insert_unless w p found t).1
  insert_unless-Appends (some j) s t jobs next = inl (jobs, next)
  insert_unless-Appends none s t jobs next = rw (← jobs, ← next) (insert_new-Appends t)

  select_by_key-same :
      (s : Store)
      → let t = (select_by_key w p p.idempotency_key s).1 in
        (t.jobs ≡ s.jobs) × (t.next_job_id ≡ s.next_job_id)
  unfolding select_by_key
  select_by_key-same s = elim (Option-cases (w.fault s.event)) [
    | inl quiet ↦ rw quiet (refl, refl)
    | inr (e, broken) ↦ rw broken (refl, refl)
  ]

  insert_keyed-Appends : (keyless : Bool) (s : Store) → Appends p s (insert_keyed w p keyless s).1
  unfolding insert_keyed
  insert_keyed-Appends true s = insert_new-Appends s
  insert_keyed-Appends false s =
      let same = select_by_key-same s in
      elim (Result-cases (select_by_key w p p.idempotency_key s).0) [
        | inl (found, e) ↦
            rw e (
              insert_unless-Appends found s (select_by_key w p p.idempotency_key s).1 same.0 same.1)
        | inr (x, e) ↦ rw e (inl same)
      ]

  pub insert_job-Appends : (s : Store) → Appends p s (insert_job w p s).1
  unfolding insert_job
  insert_job-Appends s = insert_keyed-Appends (str_eq p.idempotency_key "") s
