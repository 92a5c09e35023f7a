-- ===== src/Store/Jobs/Keys.antt =====
-- The unique index on idempotency keys, under the job statements of internal/db/db.go.
use rivo.Prelude.{
  ℕ, ◌<◌, String, ◌≡◌, refl, true, false, ◌||◌, none, some, List, [], ◌∷◌, ◌++◌, map, arith,
  Option-cases, subst, sym, inl, inr, str_eq, eq_iff, any, All,
}
use rivo.Store.Rows.{JobRow}
use rivo.Store.Jobs.{is_live, holds_key, find_by_key, clashes, unique_keys, Increasing}

-- A change of a row that keeps what the index looks at, and revives no terminal row.
pub record IsTame (g : JobRow → JobRow) (j : JobRow) : Type 0 where
  pub same_id : (g j).id ≡ j.id
  pub same_namespace : (g j).namespace ≡ j.namespace
  pub same_kind : (g j).kind ≡ j.kind
  pub same_key : (g j).idempotency_key ≡ j.idempotency_key
  pub live_before : is_live (g j) ≡ true → is_live j ≡ true

clashes-tame :
    (g : JobRow → JobRow) (a b : JobRow)
    → IsTame g a
    → IsTame g b
    → clashes a b ≡ false
    → clashes (g a) (g b) ≡ false
clashes-tame g a b ta tb h = ground arith

any-clashes-tame :
    (g : JobRow → JobRow) (a : JobRow) (js : List JobRow)
    → IsTame g a
    → All (IsTame g) js
    → any (clashes a) js ≡ false
    → any (clashes (g a)) (map g js) ≡ false
any-clashes-tame g a [] ta ts h = refl
any-clashes-tame g a (j ∷ js) ta ts h =
    ground (arith, clashes-tame g a j ta ts.0, any-clashes-tame g a js ta ts.1)

pub unique_keys-map :
    (g : JobRow → JobRow) (js : List JobRow)
    → All (IsTame g) js
    → unique_keys js ≡ true
    → unique_keys (map g js) ≡ true
unfolding unique_keys
unique_keys-map g [] ts h = refl
unique_keys-map g (j ∷ js) ts h =
    ground (arith, any-clashes-tame g j js ts.0 ts.1, unique_keys-map g js ts.1)

above-map :
    (g : JobRow → JobRow) (x : ℕ) (js : List JobRow)
    → All (IsTame g) js
    → All (λ k. x < k.id) js
    → All (λ k. x < k.id) (map g js)
above-map g x [] ts h = tt
above-map g x (j ∷ js) ts h = (ground (arith, ts.0.same_id), above-map g x js ts.1 h.1)

pub Increasing-map :
    (g : JobRow → JobRow) (js : List JobRow)
    → All (IsTame g) js
    → Increasing js
    → Increasing (map g js)
Increasing-map g [] ts h = tt
Increasing-map g (j ∷ js) ts h = (
  subst (λ n. All (λ k. n < k.id) (map g js)) (sym ts.0.same_id) (above-map g j.id js ts.1 h.0),
  Increasing-map g js ts.1 h.1,
)

pub below-map :
    (g : JobRow → JobRow) (x : ℕ) (js : List JobRow)
    → All (IsTame g) js
    → All (λ k. k.id < x) js
    → All (λ k. k.id < x) (map g js)
below-map g x [] ts h = tt
below-map g x (j ∷ js) ts h = (ground (arith, ts.0.same_id), below-map g x js ts.1 h.1)

-- A row behind all others is admitted, if none of them clashes with it.
any-clashes-append :
    (a : JobRow) (js : List JobRow) (b : JobRow)
    → any (clashes a) (js ++ b ∷ []) ≡ (any (clashes a) js || clashes a b)
any-clashes-append a [] b = ground arith
any-clashes-append a (j ∷ js) b = ground (arith, any-clashes-append a js b)

str_eq_sym : (s t : String) → str_eq s t ≡ str_eq t s
str_eq_sym s t = ground (arith, eq_iff s t, eq_iff t s)

clashes-holds_key :
    (a b : JobRow) (key : String)
    → b.idempotency_key ≡ some key
    → holds_key b.namespace b.kind key a ≡ false
    → clashes a b ≡ false
clashes-holds_key a b key e h = elim (Option-cases a.idempotency_key) [
  | inl absent ↦ ground arith
  | inr (other, present) ↦
      ground
        (arith, str_eq_sym a.namespace b.namespace, str_eq_sym a.kind b.kind, str_eq_sym other key)
]

pub unique_keys-append_none :
    (js : List JobRow) (b : JobRow)
    → b.idempotency_key ≡ none
    → unique_keys js ≡ true
    → unique_keys (js ++ b ∷ []) ≡ true
unfolding unique_keys
unique_keys-append_none [] b e h = refl
unique_keys-append_none (j ∷ js) b e h =
    ground (arith, any-clashes-append j js b, unique_keys-append_none js b e)

pub unique_keys-append :
    (js : List JobRow) (b : JobRow) (key : String)
    → b.idempotency_key ≡ some key
    → find_by_key b.namespace b.kind key js ≡ none
    → unique_keys js ≡ true
    → unique_keys (js ++ b ∷ []) ≡ true
unfolding unique_keys find_by_key
unique_keys-append [] b key e f h = refl
unique_keys-append (j ∷ js) b key e f h =
    ground
      (arith, any-clashes-append j js b, clashes-holds_key j b key e, unique_keys-append js b key e)
