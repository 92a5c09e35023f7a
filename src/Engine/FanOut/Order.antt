-- ===== src/Engine/FanOut/Order.antt =====
-- The items of a fan-out step, in any order: executeFanOutStep of internal/workflow/engine.go and
-- a map over the items, one after the other.
use mathlib.Core.List.{Permᴰ}
use mathlib.Core.List.Permᴰ.{symm}
use rivo.Prelude.{
  ℕ, suc, ◌≤◌, ◌≡◌, refl, sym, ap, ==_refl, subst, ◌∙◌, Option, none, some, List, [], ◌∷◌, ◌++◌,
  ◌⊎◌, arith, All, All-mono, All-Perm, ◌==◌, if◌then◌else◌, Bool-cases, inl, inr,
}
use rivo.Base.{Error, Result, ok, err, Any, Result-cases}
use rivo.Engine.FanOut.{Items, indexed, read_results, record_item, set_result}

-- The map function on the items from the index `i` on, in their order, up to the first error.
unfoldable pub map_items : (Any → ℕ → Result Any) → ℕ → List Any → Result (List Any)
map_items g i [] = ok []
map_items g i (a ∷ as') = elim (g a i) [
  | err x ↦ err x
  | ok v ↦ elim (map_items g (suc i) as') [ err x ↦ err x | ok vs ↦ ok (v ∷ vs) ]
]

-- What the goroutines leave in the slice and the channel, in the order in which they run.
unfoldable pub record_all : (Any → ℕ → Result Any) → List (ℕ × Any) → Items → Items
record_all g [] m = m
record_all g ((i, a) ∷ xs) m = record_all g xs (record_item i (g a i) m)

-- The result `v` of an item stands at its index.
abbrev Stands : (Any → ℕ → Result Any) → (ℕ → Option Any) → ℕ × Any → Type 0
Stands g results p = (v : Any) × ((g p.1 p.0 ≡ ok v) × (results p.0 ≡ some v))

append-cons_nil : (x : Error) (xs : List Error) → ¬ (xs ++ x ∷ [] ≡ [])
append-cons_nil x [] h = grind arith
append-cons_nil x (y ∷ xs) h = grind arith

module _ (g : Any → ℕ → Result Any) where
  abbrev Succeeds : ℕ × Any → Type 0
  Succeeds p = (v : Any) × (g p.1 p.0 ≡ ok v)

  set_result-keeps :
      (expected results : ℕ → Option Any) (i j : ℕ) (v : Any)
      → (expected i ≡ some v)
      → (results j ≡ expected j)
      → set_result results i v j ≡ expected j
  set_result-keeps expected results i j v here before = elim (Bool-cases (i == j)) [
    | inl same ↦ ground arith
    | inr other ↦ rw other before
  ]

  record_all-ok :
      (i : ℕ) (a v : Any) (xs : List (ℕ × Any)) (m : Items)
      → (g a i ≡ ok v)
      → record_all g ((i, a) ∷ xs) m ≡ record_all g xs (record_item i (ok v) m)
  unfolding record_all
  record_all-ok i a v xs m good = ap (λ o. record_all g xs (record_item i o m)) good

  record_all-keeps :
      (expected : ℕ → Option Any) (xs : List (ℕ × Any)) (m : Items) (j : ℕ)
      → All (Stands g expected) xs
      → (m.results j ≡ expected j)
      → (record_all g xs m).results j ≡ expected j
  unfolding record_all
  record_all-keeps expected [] m j hs before = before
  record_all-keeps expected ((i, a) ∷ xs) m j ((v, (good, here)), hs) before =
      let kept = set_result-keeps expected m.results i j v here before in
      subst (λ n. n.results j ≡ expected j) (sym (record_all-ok i a v xs m good))
        (record_all-keeps expected xs (record_item i (ok v) m) j hs kept)

  record_all-Stands :
      (expected : ℕ → Option Any) (xs : List (ℕ × Any)) (m : Items)
      → All (Stands g expected) xs
      → All (Stands g (record_all g xs m).results) xs
  record_all-Stands expected [] m hs = tt
  record_all-Stands expected ((i, a) ∷ xs) m ((v, (good, here)), hs) =
      let m' = record_item i (ok v) m in
      let set : m'.results i ≡ some v = rw (==_refl i) refl in
      let kept = record_all-keeps expected xs m' i hs (set ∙ sym here) in
      subst (λ n. All (Stands g n.results) ((i, a) ∷ xs)) (sym (record_all-ok i a v xs m good))
        ((v, (good, kept ∙ here)), record_all-Stands expected xs m' hs)

  record_all-errors :
      (xs : List (ℕ × Any)) (m : Items) → All Succeeds xs → (record_all g xs m).errors ≡ m.errors
  unfolding record_all
  record_all-errors [] m hs = refl
  record_all-errors ((i, a) ∷ xs) m ((v, good), hs) =
      ap Items.errors (record_all-ok i a v xs m good)
      ∙ record_all-errors xs (record_item i (ok v) m) hs

  -- Errors are never taken back.
  record_all-none :
      (xs : List (ℕ × Any)) (m : Items)
      → ((record_all g xs m).errors ≡ [])
      → (m.errors ≡ []) × All Succeeds xs
  unfolding record_all
  record_all-none [] m none_left = (none_left, tt)
  record_all-none ((i, a) ∷ xs) m none_left = elim (Result-cases (g a i)) [
    | inl (v, good) ↦
        let rest = record_all-none xs (record_item i (g a i) m) none_left in
        (ap (λ o. (record_item i o m).errors) (sym good) ∙ rest.0, ((v, good), rest.1))
    | inr (x, bad) ↦
        let rest = record_all-none xs (record_item i (g a i) m) none_left in
        absurd
          (append-cons_nil _ m.errors (ap (λ o. (record_item i o m).errors) (sym bad) ∙ rest.0))
  ]

  -- The values `vs` are those of the items, in order.
  abbrev Values : ℕ → List Any → List Any → Type 0
  Values i [] [] = Unit
  Values i [] (v ∷ vs) = ⊥
  Values i (a ∷ items) [] = ⊥
  Values i (a ∷ items) (v ∷ vs) = (g a i ≡ ok v) × Values (suc i) items vs

  map_items-Values : (i : ℕ) (items vs : List Any) → Values i items vs → map_items g i items ≡ ok vs
  unfolding map_items
  map_items-Values i [] [] hs = refl
  map_items-Values i [] (v ∷ vs) hs = absurd hs
  map_items-Values i (a ∷ items) [] hs = absurd hs
  map_items-Values i (a ∷ items) (v ∷ vs) (good, hs) =
      rw (good, map_items-Values (suc i) items vs hs, map_items) refl

  Values-of_Succeeds :
      (i : ℕ) (items : List Any)
      → All Succeeds (indexed i items)
      → (vs : List Any) × Values i items vs
  Values-of_Succeeds i [] hs = ([], tt)
  Values-of_Succeeds i (a ∷ items) ((v, good), hs) =
      let (vs, rest) = Values-of_Succeeds (suc i) items hs in (v ∷ vs, (good, rest))

  map_items-cases :
      (i : ℕ) (items : List Any)
      → ((vs : List Any) × Values i items vs) ⊎ ((x : Error) × (map_items g i items ≡ err x))
  unfolding map_items
  map_items-cases i [] = inl ([], tt)
  map_items-cases i (a ∷ items) = elim (Result-cases (g a i)) [
    | inr (x, bad) ↦ inr (x, rw (bad, map_items) refl)
    | inl (v, good) ↦ elim (map_items-cases (suc i) items) [
      | inl (vs, rest) ↦ inl (v ∷ vs, (good, rest))
      | inr (x, bad) ↦ inr (x, rw (good, bad, map_items) refl)
    ]
  ]

  read_results-Values :
      (results : ℕ → Option Any) (i : ℕ) (items vs : List Any)
      → Values i items vs
      → All (Stands g results) (indexed i items)
      → read_results results i items ≡ vs
  read_results-Values results i [] [] hv hs = refl
  read_results-Values results i [] (v ∷ vs) hv hs = absurd hv
  read_results-Values results i (a ∷ items) [] hv hs = absurd hv
  read_results-Values results i (a ∷ items) (v ∷ vs) (good, hv) ((u, (same, here)), hs) =
      rw (here, read_results-Values results (suc i) items vs hv hs) cc

  -- The values by index, from the index `i` on.
  abbrev at : ℕ → List Any → ℕ → Option Any
  at i [] j = none
  at i (v ∷ vs) j = let rest = at (suc i) vs j in if i == j then some v else rest

  Stands-at :
      (i : ℕ) (items vs : List Any)
      → Values i items vs
      → All (λ p. (i ≤ p.0) × Stands g (at i vs) p) (indexed i items)
  Stands-at i [] vs hv = tt
  Stands-at i (a ∷ items) [] hv = absurd hv
  Stands-at i (a ∷ items) (v ∷ vs) (good, hv) = (
    (omega arith, (v, (good, rw (==_refl i) refl))),
    All-mono (λ p. (suc i ≤ p.0) × Stands g (at (suc i) vs) p)
        (λ p. (i ≤ p.0) × Stands g (at i (v ∷ vs)) p)
        (λ p (later, (u, (fine, there))). (omega arith, (u, (fine, ground arith))))
        (indexed (suc i) items) (Stands-at (suc i) items vs hv),
  )

  -- What the goroutines leave is what the map gives, or some error.
  abbrev pub Agrees : List Any → Items → Result (List Any) → Type 0
  Agrees items m (ok vs) = (m.errors ≡ []) × (read_results m.results 0 items ≡ vs)
  Agrees items m (err x) = ¬ (m.errors ≡ [])

  pub record_all-Agrees :
      (order : List (ℕ × Any)) (items : List Any)
      → Permᴰ order (indexed 0 items)
      → Agrees items
          (record_all g order (record { results = λ _. none; errors = [] }))
          (map_items g 0 items)
  record_all-Agrees order items perm =
      let m : Items = record_all g order (record { results = λ _. none; errors = [] }) in
      elim (map_items-cases 0 items) [
        | inl (vs, hv) ↦
            let expected =
              All-mono (λ p. (0 ≤ p.0) × Stands g (at 0 vs) p) (Stands g (at 0 vs)) (λ p h. h.1)
                (indexed 0 items) (Stands-at 0 items vs hv) in
            let ordered = All-Perm (Stands g (at 0 vs)) (symm perm) expected in
            let succeeded =
              All-mono (Stands g (at 0 vs)) Succeeds (λ p h. (h.0, h.1.0)) order ordered in
            let stand = All-Perm (Stands g m.results) perm (
              record_all-Stands (at 0 vs) order (record { results = λ _. none; errors = [] })
                ordered) in
            subst (Agrees items m) (sym (map_items-Values 0 items vs hv)) (
              record_all-errors order (record { results = λ _. none; errors = [] }) succeeded,
              read_results-Values m.results 0 items vs hv stand,
            )
        | inr (x, bad) ↦ subst (Agrees items m) (sym bad) (λ none_left.
            let succeeded =
              (record_all-none order (record { results = λ _. none; errors = [] }) none_left).1 in
            let (vs, hv) = Values-of_Succeeds 0 items (All-Perm Succeeds perm succeeded) in
            cc (bad, map_items-Values 0 items vs hv))
      ]
