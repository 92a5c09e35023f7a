-- ===== src/Store/Jobs/Insert.antt =====
-- Idempotent insertion: InsertJob of internal/db/db.go.
use rivo.Prelude.{
  ℕ, suc, String, ◌≡◌, refl, ap, ◌∙◌, Bool, true, false, none, some, List, [], ◌∷◌, ◌++◌, arith,
  Bool-cases, Option-cases, inl, inr, str_eq, eq_refl, find_first-append,
}
use rivo.Base.{ok, Result}
use rivo.Store.Rows.{JobRow, Store}
use rivo.Store.Statement.{World, tick}
use rivo.Store.Jobs.{
  is_terminal_state, holds_key, find_by_key, unique_keys, InsertJobParams, new_row, insert_new,
  select_by_key, insert_keyed, insert_job,
}
use rivo.Store.Jobs.Keys.{unique_keys-append, unique_keys-append_none}
use rivo.Store.Jobs.Invariant.{HasTable}

new_row-holds_key :
    (id now : ℕ) (p : InsertJobParams)
    → str_eq p.idempotency_key "" ≡ false
    → is_terminal_state p.state ≡ false
    → holds_key p.namespace p.kind p.idempotency_key (new_row id now p) ≡ true
new_row-holds_key id now p keyed live =
    ground (arith, eq_refl p.namespace, eq_refl p.kind, eq_refl p.idempotency_key)

-- The index admits the row that InsertJob adds once its SELECT has found none.
new_row_unique :
    (id now : ℕ) (p : InsertJobParams) (js : List JobRow)
    → unique_keys js ≡ true
    → (str_eq p.idempotency_key "" ≡ false
        → find_by_key p.namespace p.kind p.idempotency_key js ≡ none)
    → unique_keys (js ++ new_row id now p ∷ []) ≡ true
new_row_unique id now p js u absent = elim (Bool-cases (str_eq p.idempotency_key "")) [
  | inl keyless ↦ unique_keys-append_none js (new_row id now p) (rw keyless) u
  | inr keyed ↦
      unique_keys-append js (new_row id now p) p.idempotency_key (rw keyed) (absent keyed) u
]

module _ (w : World) (p : InsertJobParams) where
  insert_new-ok :
      (s : Store)
      → w.fault s.event ≡ none
      → unique_keys (s.jobs ++ new_row s.next_job_id (w.clock s.event) p ∷ []) ≡ true
      → insert_new w p s ≡ (
        ok (new_row s.next_job_id (w.clock s.event) p, false),
        record s {
          jobs = s.jobs ++ new_row s.next_job_id (w.clock s.event) p ∷ [];
          next_job_id = suc s.next_job_id;
          event = suc s.event;
        },
      )
  unfolding insert_new
  insert_new-ok s quiet u = rw (quiet, u) refl

  select_by_key-ok :
      (key : String) (s : Store)
      → w.fault s.event ≡ none
      → select_by_key w p key s ≡ (ok (find_by_key p.namespace p.kind key s.jobs), tick s)
  unfolding select_by_key
  select_by_key-ok key s quiet = rw quiet refl

-- A database whose statements do not fail.
abbrev pub IsQuiet : World → Type 0
IsQuiet w = (n : ℕ) → w.fault n ≡ none

module _ (w : World) (quiet : IsQuiet w) (p : InsertJobParams)
    (keyed : str_eq p.idempotency_key "" ≡ false) where
  pub insert_job-found :
      (s : Store) {j : JobRow}
      → find_by_key p.namespace p.kind p.idempotency_key s.jobs ≡ some j
      → insert_job w p s ≡ (ok (j, true), tick s)
  unfolding insert_job
  insert_job-found s f =
      rw (keyed, insert_keyed)
        (rw (select_by_key-ok w p p.idempotency_key s (quiet s.event)) (rw f refl))

  insert_job-new :
      (s : Store)
      → HasTable s
      → find_by_key p.namespace p.kind p.idempotency_key s.jobs ≡ none
      → let row = new_row s.next_job_id (w.clock (suc s.event)) p in
        insert_job w p s ≡ (
          ok (row, false),
          record s {
            jobs = s.jobs ++ row ∷ [];
            next_job_id = suc s.next_job_id;
            event = suc (suc s.event);
          },
        )
  unfolding insert_job
  insert_job-new s t f =
      ap (λ (b : Bool). insert_keyed w p b s) keyed
      ∙ unfold insert_keyed in
        rw (select_by_key-ok w p p.idempotency_key s (quiet s.event)) (
          rw f (
            insert_new-ok w p (tick s) (quiet (suc s.event))
              (new_row_unique s.next_job_id (w.clock (suc s.event)) p s.jobs t.unique (λ _. f))))

  -- What one insertion leaves behind.
  pub insert_job_finds :
      (s : Store)
      → HasTable s
      → is_terminal_state p.state ≡ false
      → (row : JobRow) × (duplicate : Bool) × ((insert_job w p s).0 ≡ ok (row, duplicate))
        × (find_by_key p.namespace p.kind p.idempotency_key (insert_job w p s).1.jobs ≡ some row)
  insert_job_finds s t live =
      elim (Option-cases (find_by_key p.namespace p.kind p.idempotency_key s.jobs)) [
        | inl absent ↦
            let row = new_row s.next_job_id (w.clock (suc s.event)) p in
            (
              row,
              false,
              rw (insert_job-new s t absent) refl,
              rw (insert_job-new s t absent) (
                  found_behind row s.jobs absent
                    (new_row-holds_key s.next_job_id (w.clock (suc s.event)) p keyed live)),
            )
        | inr (j, found) ↦
            (j, true, rw (insert_job-found s found) refl, rw (insert_job-found s found) found)
      ]
    where
      found_behind :
          (row : JobRow) (js : List JobRow)
          → find_by_key p.namespace p.kind p.idempotency_key js ≡ none
          → holds_key p.namespace p.kind p.idempotency_key row ≡ true
          → find_by_key p.namespace p.kind p.idempotency_key (js ++ row ∷ []) ≡ some row
      found_behind row js absent holds =
          unfold find_by_key in
          find_first-append (holds_key p.namespace p.kind p.idempotency_key) js row absent holds

-- Enqueueing is idempotent. On a table that meets the unique index and a database that does not
-- fail, InsertJob with an idempotency key returns a row; a second InsertJob with the same
-- namespace, kind and key, whatever its other parameters, returns that very row, says that it is a
-- duplicate, and leaves the table as the first one left it.
pub insert_job_idempotent :
    (w : World) (p p' : InsertJobParams) (s : Store)
    → IsQuiet w
    → HasTable s
    → str_eq p.idempotency_key "" ≡ false
    → is_terminal_state p.state ≡ false
    → p'.namespace ≡ p.namespace
    → p'.kind ≡ p.kind
    → p'.idempotency_key ≡ p.idempotency_key
    → (row : JobRow) × (duplicate : Bool) × ((insert_job w p s).0 ≡ ok (row, duplicate))
      × ((insert_job w p' (insert_job w p s).1).0 ≡ ok (row, true))
      × ((insert_job w p' (insert_job w p s).1).1.jobs ≡ (insert_job w p s).1.jobs)
insert_job_idempotent w p p' s quiet t keyed live en ek ei =
    let (row, duplicate, first, found) = insert_job_finds w quiet p keyed s t live in
    let again =
      insert_job-found w quiet p' (rw ei keyed) (insert_job w p s).1 {j = row}
        (rw (en, ek, ei) found) in
    (
      row,
      duplicate,
      first,
      ap (λ (x : Result (JobRow × Bool) × Store). x.0) again,
      ap (λ (x : Result (JobRow × Bool) × Store). x.1.jobs) again,
    )
