-- ===== src/Store/Jobs/Invariant.antt =====
-- The table rivo_jobs under every sequence of the job statements of internal/db/db.go.
use mathlib.Core.List.{Memᴰ}
use rivo.Prelude.{
  ℕ, suc, ◌<◌, String, ◌≡◌, refl, sym, subst, Bool, true, false, Option, none, some, List, [], ◌∷◌,
  ◌++◌, map, arith, ap, ◌∙◌, All-mem, Bool-cases, inl, inr, All, if◌then◌else◌, select, contains_id,
  All-append, All-mono, All-map_self,
}
use rivo.Base.{Error, Result}
use rivo.Store.Rows.{Time, JobRow, Store}
use rivo.Store.Statement.{outcome}
use rivo.Store.Jobs.{
  is_available, is_due, with_id, may_cancel, promote, cancel, complete, fail, unique_keys,
  Increasing, commit_jobs,
}
use rivo.Store.Jobs.Next.{is_next, next_jobs, claim}
use rivo.Store.Jobs.Fetch.{ids, next_jobs-select}
use rivo.Store.Jobs.Keys.{IsTame, unique_keys-map, Increasing-map, below-map}

-- Ids grow down the table, all lie below the next one, and the unique index holds.
pub record IsTable (jobs : List JobRow) (next : ℕ) : Type 0 where
  pub increasing : Increasing jobs
  pub below : All (λ j. j.id < next) jobs
  pub unique : unique_keys jobs ≡ true

abbrev pub HasTable : Store → Type 0
HasTable s = IsTable s.jobs s.next_job_id

-- A tame change of all rows keeps the table.
pub map-IsTable :
    (g : JobRow → JobRow) (jobs : List JobRow) (next : ℕ)
    → All (IsTame g) jobs
    → IsTable jobs next
    → IsTable (map g jobs) next
map-IsTable g jobs next ts t = record {
  increasing = Increasing-map g jobs ts t.increasing;
  below = below-map g next jobs ts t.below;
  unique = unique_keys-map g jobs ts t.unique;
}

pub outcome-HasTable {ℓ} :
    {A : Type ℓ} (o : Option Error) (body : Store → Result A × Store) (s : Store)
    → HasTable s
    → HasTable (body s).1
    → HasTable (outcome o body s).1
outcome-HasTable none body s h k = k
outcome-HasTable (some e) body s h k = h

abbrev pub change : (JobRow → Bool) → (JobRow → JobRow) → JobRow → JobRow
change p f j = if p j then f j else j

pub complete-IsTame :
    (now : Time) (id : ℕ) (j : JobRow) → IsTame (change (with_id id) (complete now)) j
complete-IsTame now id j = ground arith

pub cancel-IsTame :
    (now : Time) (id : ℕ) (j : JobRow) → IsTame (change (may_cancel id) (cancel now)) j
cancel-IsTame now id j = ground arith

pub promote-IsTame :
    (now : Time) (namespace : String) (j : JobRow)
    → IsTame (change (is_due now namespace) (promote now)) j
promote-IsTame now namespace j = ground arith

select_id-above :
    (p : JobRow → Bool) (x : ℕ) (js : List JobRow)
    → All (λ k. x < k.id) js
    → contains_id (ids (select p js)) x ≡ false
select_id-above p x [] h = refl
select_id-above p x (j ∷ js) h = ground (arith, select_id-above p x js h.1)

-- A row whose id was selected was selected itself, since no other row has its id.
selected_row :
    (p : JobRow → Bool) (js : List JobRow) {j : JobRow}
    → Increasing js
    → Memᴰ j js
    → contains_id (ids (select p js)) j.id ≡ true
    → p j ≡ true
selected_row p [] grow m h = elim m [ ]
selected_row p (k ∷ ks) {j} grow (Memᴰ.head e) h = elim (Bool-cases (p k)) [
  | inl kept ↦ ap p e ∙ kept
  | inr left ↦
      absurd (cc (select_id-above p k.id ks grow.0, ap (λ (r : JobRow). r.id) e, rw left at h))
]
selected_row p (k ∷ ks) {j} grow (Memᴰ.tail m) h =
    ground (arith, All-mem (λ i. k.id < i.id) ks grow.0 m, selected_row p ks grow.1 m)

pub claim-IsTame :
    (claimed : List ℕ) (now : Time) (worker_id : String) (j : JobRow)
    → (contains_id claimed j.id ≡ true → is_available j.state ≡ true)
    → IsTame (change (λ k. contains_id claimed k.id) (claim now worker_id)) j
claim-IsTame claimed now worker_id j h = ground arith

-- The rows that a fetch claims were available.
pub next_jobs_available :
    (locked : ℕ → Bool) (now : Time) (namespace : String) (queues : List String) (limit : ℕ)
    (js : List JobRow) {j : JobRow}
    → Increasing js
    → Memᴰ j js
    → contains_id (next_jobs locked now namespace queues limit js) j.id ≡ true
    → is_next locked now namespace queues j ≡ true
next_jobs_available locked now namespace queues limit js {j} grow m h =
    selected_row (is_next locked now namespace queues) js grow m
      (next_jobs-select locked now namespace queues limit js j.id h)

below_suc : (n : ℕ) (js : List JobRow) → All (λ j. j.id < n) js → All (λ j. j.id < suc n) js
below_suc n js h = All-mono (λ j. j.id < n) (λ j. j.id < suc n) (λ j b. omega arith) js h

Increasing-append :
    (js : List JobRow) (b : JobRow)
    → Increasing js
    → All (λ j. j.id < b.id) js
    → Increasing (js ++ b ∷ [])
Increasing-append [] b h below = (tt, tt)
Increasing-append (j ∷ js) b h below = (
  All-append (λ k. j.id < k.id) js (b ∷ []) h.0 (below.0, tt),
  Increasing-append js b h.1 below.1,
)

pub append-IsTable :
    (jobs : List JobRow) (next : ℕ) (b : JobRow)
    → b.id ≡ next
    → unique_keys (jobs ++ b ∷ []) ≡ true
    → IsTable jobs next
    → IsTable (jobs ++ b ∷ []) (suc next)
append-IsTable jobs next b e u t = record {
  increasing =
      Increasing-append jobs b t.increasing (subst (λ n. All (λ j. j.id < n) jobs) (sym e) t.below);
  below =
      All-append (λ j. j.id < suc next) jobs (b ∷ []) (below_suc next jobs t.below)
        (omega arith, tt);
  unique = u;
}

pub commit-IsTable :
    {A : Type 0} (a : A) (jobs : List JobRow) (next : ℕ) (s : Store)
    → HasTable s
    → (unique_keys jobs ≡ true → IsTable jobs next)
    → HasTable (commit_jobs a jobs next s).1
commit-IsTable a jobs next s t h = elim (Bool-cases (unique_keys jobs)) [
  | inl e ↦ rw e (h e)
  | inr e ↦ rw e t
]

-- FailJob may revive a row: what the index looks at and the ids stay.
pub fail-increasing :
    (now : Time) (id : ℕ) (msg : String) (retry_at : Option Time) (j : JobRow)
    → (change (with_id id) (fail now msg retry_at) j).id ≡ j.id
fail-increasing now id msg retry_at j = ground arith

same_ids-above :
    (g : JobRow → JobRow) (x : ℕ) (js : List JobRow)
    → ((j : JobRow) → (g j).id ≡ j.id)
    → All (λ k. x < k.id) js
    → All (λ k. x < k.id) (map g js)
same_ids-above g x js same h =
    All-map_self (λ k. x < k.id) (λ k. x < k.id) g (λ k b. subst (λ n. x < n) (sym (same k)) b) js h

pub same_ids-Increasing :
    (g : JobRow → JobRow) (js : List JobRow)
    → ((j : JobRow) → (g j).id ≡ j.id)
    → Increasing js
    → Increasing (map g js)
same_ids-Increasing g [] same h = tt
same_ids-Increasing g (j ∷ js) same h = (
  subst (λ n. All (λ k. n < k.id) (map g js)) (sym (same j)) (same_ids-above g j.id js same h.0),
  same_ids-Increasing g js same h.1,
)
