-- ===== src/Store/Jobs/Priority.antt =====
-- The order in which FetchJobs of internal/db/db.go serves the jobs.
use mathlib.Core.List.{Memᴰ}
use rivo.Prelude.{
  ℕ, zero, suc, String, ◌≡◌, refl, sym, subst, Bool, true, false, List, [], ◌∷◌, arith, Bool-cases,
  ap, take, select, All, ◌⊎◌, ◌<◌, ◌≤◌, All-mem, contains_id, ltb, if◌then◌else◌, inl, inr, ==_refl,
  map,
}
use rivo.Prelude.Int.{ℤ, pos, negsuc, ltb_ℤ}
use rivo.Store.Rows.{Time, JobRow}
use rivo.Store.Jobs.Next.{before, insert_sorted, order_by, is_next, next_rows, next_jobs}

mem-select :
    (p : JobRow → Bool) (js : List JobRow) {j : JobRow}
    → Memᴰ j js
    → p j ≡ true
    → Memᴰ j (select p js)
mem-select p [] m h = elim m [ ]
mem-select p (k ∷ ks) {j} m h = elim (Bool-cases (p k)) [
  | inl kept ↦
      rw kept
        (elim m [ Memᴰ.head e ↦ Memᴰ.head e | Memᴰ.tail m' ↦ Memᴰ.tail (mem-select p ks m' h) ])
  | inr dropped ↦
      rw dropped
        (elim m [ Memᴰ.head e ↦ absurd (cc (ap p e)) | Memᴰ.tail m' ↦ mem-select p ks m' h ])
]

mem-insert_sorted_self : (j : JobRow) (js : List JobRow) → Memᴰ j (insert_sorted j js)
unfolding insert_sorted
mem-insert_sorted_self j [] = Memᴰ.head refl
mem-insert_sorted_self j (k ∷ ks) = elim (Bool-cases (before k j)) [
  | inl e ↦ rw e (Memᴰ.tail (mem-insert_sorted_self j ks))
  | inr e ↦ rw e (Memᴰ.head refl)
]

mem-insert_sorted :
    (j : JobRow) (js : List JobRow) {k : JobRow} → Memᴰ k js → Memᴰ k (insert_sorted j js)
unfolding insert_sorted
mem-insert_sorted j [] m = elim m [ ]
mem-insert_sorted j (i ∷ is) (Memᴰ.head e) = elim (Bool-cases (before i j)) [
  | inl b ↦ rw b (Memᴰ.head e)
  | inr b ↦ rw b (Memᴰ.tail (Memᴰ.head e))
]
mem-insert_sorted j (i ∷ is) (Memᴰ.tail m) = elim (Bool-cases (before i j)) [
  | inl b ↦ rw b (Memᴰ.tail (mem-insert_sorted j is m))
  | inr b ↦ rw b (Memᴰ.tail (Memᴰ.tail m))
]

mem-order_by : (js : List JobRow) {k : JobRow} → Memᴰ k js → Memᴰ k (order_by js)
unfolding order_by
mem-order_by [] m = elim m [ ]
mem-order_by (j ∷ js) (Memᴰ.head e) =
    subst (λ x. Memᴰ x (insert_sorted j (order_by js))) (sym e)
      (mem-insert_sorted_self j (order_by js))
mem-order_by (j ∷ js) (Memᴰ.tail m) = mem-insert_sorted j (order_by js) (mem-order_by js m)

-- `before` is a strict weak order.
before_asym : (a b : JobRow) → before a b ≡ true → before b a ≡ false
unfolding before
before_asym a b h = ground arith

before_trans_not : (a b c : JobRow) → before a b ≡ false → before b c ≡ false → before a c ≡ false
unfolding before
before_trans_not a b c h k = ground arith

abbrev Sorted : List JobRow → Type 0
Sorted [] = Unit
Sorted (j ∷ js) = All (λ k. before k j ≡ false) js × Sorted js

All-after :
    (a b : JobRow) (js : List JobRow)
    → before b a ≡ false
    → All (λ k. before k b ≡ false) js
    → All (λ k. before k a ≡ false) js
All-after a b [] h all = tt
All-after a b (j ∷ js) h all = (before_trans_not j b a all.0 h, All-after a b js h all.1)

All-insert_sorted :
    (P : JobRow → Type 0) (j : JobRow) (js : List JobRow)
    → P j
    → All P js
    → All P (insert_sorted j js)
unfolding insert_sorted
All-insert_sorted P j [] pj h = (pj, tt)
All-insert_sorted P j (k ∷ ks) pj h = elim (Bool-cases (before k j)) [
  | inl e ↦ rw e (h.0, All-insert_sorted P j ks pj h.1)
  | inr e ↦ rw e (pj, h)
]

insert_sorted-Sorted : (j : JobRow) (js : List JobRow) → Sorted js → Sorted (insert_sorted j js)
unfolding insert_sorted
insert_sorted-Sorted j [] h = (tt, tt)
insert_sorted-Sorted j (k ∷ ks) h = elim (Bool-cases (before k j)) [
  | inl e ↦ rw e (
    All-insert_sorted (λ i. before i k ≡ false) j ks (before_asym k j e) h.0,
    insert_sorted-Sorted j ks h.1,
  )
  | inr e ↦ rw e ((e, All-after j k ks e h.0), h)
]

order_by-Sorted : (js : List JobRow) → Sorted (order_by js)
unfolding order_by
order_by-Sorted [] = tt
order_by-Sorted (j ∷ js) = insert_sorted-Sorted j (order_by js) (order_by-Sorted js)

-- Of a sorted list, what stands outside a prefix is not before what stands in it.
take-before :
    (n : ℕ) (js : List JobRow) {j k : JobRow}
    → Sorted js
    → Memᴰ j (take n js)
    → Memᴰ k js
    → contains_id (map (λ i. i.id) (take n js)) k.id ≡ false
    → before k j ≡ false
take-before zero js h mj mk out = elim mj [ ]
take-before (suc n) [] h mj mk out = elim mj [ ]
take-before (suc n) (i ∷ is) {j} {k} h mj (Memᴰ.head e) out =
    absurd (cc (==_refl k.id, ap (λ (r : JobRow). r.id) e))
take-before (suc n) (i ∷ is) {j} {k} h (Memᴰ.head e) (Memᴰ.tail mk) out =
    subst (λ x. before k x ≡ false) (sym e) (All-mem (λ x. before x i ≡ false) is h.0 mk)
take-before (suc n) (i ∷ is) {j} {k} h (Memᴰ.tail mj) (Memᴰ.tail mk) out =
    take-before n is h.1 mj mk (ground arith)

-- `j` has a higher priority than `k`, or the same priority and an earlier time, or both the same
-- and an id that is not greater.
abbrev pub IsServedFirst : (j k : JobRow) → Type 0
IsServedFirst j k =
    (ltb_ℤ k.priority j.priority ≡ true)
    ⊎ (j.priority ≡ k.priority)
      × ((j.scheduled_at < k.scheduled_at) ⊎ (j.scheduled_at ≡ k.scheduled_at) × (j.id ≤ k.id))

same_ℤ : (a b : ℤ) → ltb_ℤ a b ≡ false → ltb_ℤ b a ≡ false → a ≡ b
same_ℤ (pos m) (pos n) h k = ap pos (ground arith)
same_ℤ (pos m) (negsuc n) h k = absurd (ground arith)
same_ℤ (negsuc m) (pos n) h k = absurd (ground arith)
same_ℤ (negsuc m) (negsuc n) h k = ap negsuc (ground arith)

served_first-time :
    (j k : JobRow)
    → (if ltb k.scheduled_at j.scheduled_at
        then true
        else if ltb j.scheduled_at k.scheduled_at
        then false
        else ltb k.id j.id)
      ≡ false
    → (j.scheduled_at < k.scheduled_at) ⊎ (j.scheduled_at ≡ k.scheduled_at) × (j.id ≤ k.id)
served_first-time j k h = elim (Bool-cases (ltb j.scheduled_at k.scheduled_at)) [
  | inl earlier ↦ inl (ground arith)
  | inr not_earlier ↦ inr (ground arith, ground arith)
]

not_before-IsServedFirst : (j k : JobRow) → before k j ≡ false → IsServedFirst j k
unfolding before
not_before-IsServedFirst j k h = elim (Bool-cases (ltb_ℤ k.priority j.priority)) [
  | inl higher ↦ inl higher
  | inr e ↦ elim (Bool-cases (ltb_ℤ j.priority k.priority)) [
    | inl lower ↦ absurd (cc (rw lower at h))
    | inr e' ↦ inr (same_ℤ j.priority k.priority e' e, served_first-time j k (rw e' at (rw e at h)))
  ]
]

-- FetchJobs serves by priority: a job that it takes has a higher priority than a job that its WHERE
-- clause admits and its LIMIT leaves behind, or the same priority and an earlier schedule, or the
-- same schedule too and an id that is not greater.
pub fetch_by_priority :
    (locked : ℕ → Bool) (now : Time) (namespace : String) (queues : List String) (limit : ℕ)
    (jobs : List JobRow) (taken left : JobRow)
    → Memᴰ taken (next_rows locked now namespace queues limit jobs)
    → Memᴰ left jobs
    → is_next locked now namespace queues left ≡ true
    → contains_id (next_jobs locked now namespace queues limit jobs) left.id ≡ false
    → IsServedFirst taken left
unfolding next_jobs
fetch_by_priority locked now namespace queues limit jobs taken left mt ml next out =
    let chosen = select (is_next locked now namespace queues) jobs in
    not_before-IsServedFirst taken left (
      take-before limit (order_by chosen) (order_by-Sorted chosen) mt
        (mem-order_by chosen (mem-select (is_next locked now namespace queues) jobs ml next)) out)
