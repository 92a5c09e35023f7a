-- ===== src/Migrator/Order.antt =====
-- The order in which loadMigrations of internal/migration/migrator.go returns the migrations.
use mathlib.Core.List.{Permᴰ}
use rivo.Prelude.{
  ◌≡◌, refl, subst, Bool, false, List, [], ◌∷◌, arith, All, Bool-cases, inl, inr, select, insert_by,
  sort_by,
}
use rivo.Prelude.Int.{ltb_ℤ}
use rivo.Migrator.Files.{Migration}

abbrev earlier : Migration → Migration → Bool
earlier a b = ltb_ℤ a.version b.version

-- No version is below an earlier one.
abbrev pub InOrder : List Migration → Type 0
InOrder [] = Unit
InOrder (m ∷ ms) = All (λ n. ltb_ℤ n.version m.version ≡ false) ms × InOrder ms

All-insert :
    (P : Migration → Type 0) (m : Migration) (ms : List Migration)
    → P m
    → All P ms
    → All P (insert_by earlier m ms)
All-insert P m [] pm h = (pm, tt)
All-insert P m (n ∷ ns) pm h = elim (Bool-cases (earlier n m)) [
  | inl e ↦ rw e (h.0, All-insert P m ns pm h.1)
  | inr e ↦ rw e (pm, h)
]

All-later :
    (m n : Migration) (ms : List Migration)
    → earlier n m ≡ false
    → All (λ k. earlier k n ≡ false) ms
    → All (λ k. earlier k m ≡ false) ms
All-later m n [] h all = tt
All-later m n (k ∷ ks) h all = (ground (arith, all.0, h), All-later m n ks h all.1)

InOrder-insert :
    (m : Migration) (ms : List Migration) → InOrder ms → InOrder (insert_by earlier m ms)
InOrder-insert m [] h = (tt, tt)
InOrder-insert m (n ∷ ns) h = elim (Bool-cases (earlier n m)) [
  | inl e ↦
      rw e (
        All-insert (λ k. earlier k n ≡ false) m ns (ground (arith, e)) h.0,
        InOrder-insert m ns h.1,
      )
  | inr e ↦ rw e ((e, All-later m n ns e h.0), h)
]

pub InOrder-sort : (ms : List Migration) → InOrder (sort_by (λ a b. ltb_ℤ a.version b.version) ms)
InOrder-sort [] = tt
InOrder-sort (m ∷ ms) = InOrder-insert m _ (InOrder-sort ms)

All-select :
    (P : Migration → Type 0) (q : Migration → Bool) (ms : List Migration)
    → All P ms
    → All P (select q ms)
All-select P q [] h = tt
All-select P q (m ∷ ms) h = elim (Bool-cases (q m)) [
  | inl kept ↦ rw kept (h.0, All-select P q ms h.1)
  | inr left ↦ rw left (All-select P q ms h.1)
]

pub InOrder-select :
    (q : Migration → Bool) (ms : List Migration) → InOrder ms → InOrder (select q ms)
InOrder-select q [] h = tt
InOrder-select q (m ∷ ms) h = elim (Bool-cases (q m)) [
  | inl kept ↦ rw kept (All-select _ q ms h.0, InOrder-select q ms h.1)
  | inr left ↦ rw left (InOrder-select q ms h.1)
]

Permᴰ-refl : (ms : List Migration) → Permᴰ ms ms
Permᴰ-refl [] = Permᴰ.nil
Permᴰ-refl (m ∷ ms) = Permᴰ.cons refl (Permᴰ-refl ms)

Permᴰ-insert : (m : Migration) (ms : List Migration) → Permᴰ (m ∷ ms) (insert_by earlier m ms)
Permᴰ-insert m [] = Permᴰ-refl (m ∷ [])
Permᴰ-insert m (n ∷ ns) = elim (Bool-cases (earlier n m)) [
  | inl e ↦ rw e (Permᴰ.trans (Permᴰ.swap refl refl) (Permᴰ.cons refl (Permᴰ-insert m ns)))
  | inr e ↦ rw e (Permᴰ-refl (m ∷ n ∷ ns))
]

pub Permᴰ-sort : (ms : List Migration) → Permᴰ ms (sort_by (λ a b. ltb_ℤ a.version b.version) ms)
Permᴰ-sort [] = Permᴰ.nil
Permᴰ-sort (m ∷ ms) = Permᴰ.trans (Permᴰ.cons refl (Permᴰ-sort ms)) (Permᴰ-insert m _)

Permᴰ-keep :
    (q : Migration → Bool) (m : Migration) (ms ns : List Migration)
    → Permᴰ (select q ms) (select q ns)
    → Permᴰ (select q (m ∷ ms)) (select q (m ∷ ns))
Permᴰ-keep q m ms ns p = elim (Bool-cases (q m)) [
  | inl kept ↦ rw kept (Permᴰ.cons refl p)
  | inr left ↦ rw left p
]

Permᴰ-swap :
    (q : Migration → Bool) (m n : Migration) (ms : List Migration)
    → Permᴰ (select q (m ∷ n ∷ ms)) (select q (n ∷ m ∷ ms))
Permᴰ-swap q m n ms = elim (Bool-cases (q m)) [
  | inl e ↦ elim (Bool-cases (q n)) [
    | inl f ↦ rw (e, f) (Permᴰ.swap refl refl)
    | inr f ↦ rw (e, f) (Permᴰ-refl (m ∷ select q ms))
  ]
  | inr e ↦ rw e (Permᴰ-refl (select q (n ∷ ms)))
]

pub Permᴰ-select :
    (q : Migration → Bool) {ms ns : List Migration}
    → Permᴰ ms ns
    → Permᴰ (select q ms) (select q ns)
Permᴰ-select q Permᴰ.nil = Permᴰ.nil
Permᴰ-select q (Permᴰ.cons {a = a} {l₁ = ms} {l₂ = ns} e p) =
    subst (λ x. Permᴰ (select q (a ∷ ms)) (select q (x ∷ ns))) e
      (Permᴰ-keep q a ms ns (Permᴰ-select q p))
Permᴰ-select q (Permᴰ.swap {a = a} {b = b} {b' = b'} {l = ms} e f) =
    subst (λ x. Permᴰ (select q (a ∷ b ∷ ms)) (select q (x ∷ b' ∷ ms))) f
      (subst (λ x. Permᴰ (select q (a ∷ b ∷ ms)) (select q (b ∷ x ∷ ms))) e (Permᴰ-swap q a b ms))
Permᴰ-select q (Permᴰ.trans p r) = Permᴰ.trans (Permᴰ-select q p) (Permᴰ-select q r)
