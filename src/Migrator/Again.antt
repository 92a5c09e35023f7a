-- ===== src/Migrator/Again.antt =====
-- Migrate of internal/migration/migrator.go on a database that does not fail, and run twice.
use mathlib.Core.List.{append-nil}
use rivo.Prelude.{
  ℕ, suc, String, true, false, none, some, List, [], ◌∷◌, ◌++◌, ◌≡◌, refl, sym, subst, ap, All,
  All-mono, ◌∙◌, inl, inr, arith, map, Bool-cases, ◌||◌, ==_refl,
}
use rivo.Prelude.Int.{ℤ, pos_part, neg_part}
use rivo.Base.{Result, ok}
use rivo.Migrator.{
  Pool, Database, apply_migration, apply_pending, migrate, then_unlock, has_version, fits_integer,
  version_eq,
}
use rivo.Migrator.Files.{Migration, DirEntry, load_migrations}
use rivo.Migrator.Progress.{pending, Progress, migrate-Progress-loaded}

-- Migrations whose versions the table takes, one after the other.
abbrev pub Insertable : List ℤ → List Migration → Type 0
Insertable versions [] = Unit
Insertable versions (m ∷ ms) =
    (fits_integer m.version ≡ true)
    × (has_version versions m.version ≡ false)
    × Insertable (versions ++ m.version ∷ []) ms

-- Everything that is pending is applied, and the lock is as it was.
Applied : Result (Unit {0}) × Database → Database → Type 0
Applied (r, d') d = (r ≡ ok tt) × (d'.lock ≡ d.lock)

pending-old :
    (applied : List ℤ) (m : Migration) (ms : List Migration)
    → has_version applied m.version ≡ true
    → pending applied (m ∷ ms) ≡ pending applied ms
pending-old applied m ms old = rw old refl

pending-new :
    (applied : List ℤ) (m : Migration) (ms : List Migration)
    → has_version applied m.version ≡ false
    → pending applied (m ∷ ms) ≡ m ∷ pending applied ms
pending-new applied m ms new = rw new refl

module _ (p : Pool) (quiet : (n : ℕ) → p.fault n ≡ none) where
  abbrev written : Migration → Database → ℕ → Database
  written m d n = record d {
    executed = d.executed ++ m ∷ [];
    versions = d.versions ++ m.version ∷ [];
    event = n;
  }

  apply_migration-ok :
      (m : Migration) (d : Database)
      → fits_integer m.version ≡ true
      → has_version d.versions m.version ≡ false
      → apply_migration p m d ≡ (ok tt, written m d (suc (suc (suc (suc d.event)))))
  unfolding apply_migration
  apply_migration-ok m d fits new =
      rw (quiet d.event, apply_migration)
        (rw (quiet (suc d.event), apply_migration)
          (rw (quiet (suc (suc d.event)), apply_migration)
            (rw (fits, apply_migration)
              (rw (new, apply_migration)
                (rw (quiet (suc (suc (suc d.event))), apply_migration) refl)))))

  apply_pending-Applied :
      (show : ℤ → String) (applied : List ℤ) (ms : List Migration) (d : Database)
      → Insertable d.versions (pending applied ms)
      → Applied (apply_pending p show applied ms d) d
  unfolding apply_pending Applied
  apply_pending-Applied show applied [] d fresh = (refl, refl)
  apply_pending-Applied show applied (m ∷ ms) d fresh =
      elim (Bool-cases (has_version applied m.version)) [
        | inl old ↦ rw old (
            apply_pending-Applied show applied ms d
              (subst (Insertable d.versions) (pending-old applied m ms old) fresh))
        | inr new ↦
            (let (fits, unseen, later) =
                subst (Insertable d.versions) (pending-new applied m ms new) fresh in
              rw new (
                rw (apply_migration-ok m d fits unseen)
                  (apply_pending-Applied show applied ms (written m d _) later)))
      ]

has_version-append :
    (xs ys : List ℤ) (v : ℤ) → has_version (xs ++ ys) v ≡ (has_version xs v || has_version ys v)
has_version-append [] ys v = refl
has_version-append (x ∷ xs) ys v = ground (arith, has_version-append xs ys v)

version_eq_refl : (v : ℤ) → version_eq v v ≡ true
version_eq_refl v = ground (arith, ==_refl (pos_part v), ==_refl (neg_part v))

abbrev versions_of : List Migration → List ℤ
versions_of = map (λ m. m.version)

abbrev Covered : List ℤ → List ℤ → Migration → Type 0
Covered vs ws m = (has_version vs m.version || has_version ws m.version) ≡ true

-- Every migration is in the table before, or it is pending.
pending-Covered :
    (vs : List ℤ) (ms : List Migration) → All (Covered vs (versions_of (pending vs ms))) ms
pending-Covered vs [] = tt
pending-Covered vs (m ∷ ms) = elim (Bool-cases (has_version vs m.version)) [
  | inl old ↦
      subst (λ ps. All (Covered vs (versions_of ps)) (m ∷ ms)) (sym (pending-old vs m ms old))
        (rw old refl, pending-Covered vs ms)
  | inr new ↦
      subst (λ ps. All (Covered vs (versions_of ps)) (m ∷ ms)) (sym (pending-new vs m ms new))
        (
          rw new (rw (version_eq_refl m.version) refl),
          All-mono _ _ (λ x covered. ground (arith, covered)) ms (pending-Covered vs ms),
        )
]

pending-none :
    (vs ws : List ℤ) (ms : List Migration) → All (Covered vs ws) ms → pending (vs ++ ws) ms ≡ []
pending-none vs ws [] covered = refl
pending-none vs ws (m ∷ ms) covered =
    rw (has_version-append vs ws m.version) (rw covered.0 (pending-none vs ws ms covered.1))

append-eq-nil : (xs ys : List Migration) → xs ++ ys ≡ [] → xs ≡ []
append-eq-nil [] ys e = refl
append-eq-nil (x ∷ xs) ys e = cc

-- A run with nothing pending writes nothing.
Progress-none :
    (d d' : Database) (r : Result (Unit {0}))
    → Progress [] d d' r
    → (d'.executed ≡ d.executed) × (d'.versions ≡ d.versions)
Progress-none d d' r step =
    let nothing = append-eq-nil step.done step.todo (sym step.split) in
    (
      step.executed ∙ ap (λ xs. d.executed ++ xs) nothing ∙ append-nil d.executed,
      step.versions ∙ ap (λ xs. d.versions ++ versions_of xs) nothing ∙ append-nil d.versions,
    )

Progress-all :
    (ms : List Migration) (d d' : Database)
    → Progress ms d d' (ok tt)
    → (d'.executed ≡ d.executed ++ ms) × (d'.versions ≡ d.versions ++ versions_of ms)
Progress-all ms d d' step =
    let all : step.done ≡ ms =
      sym (step.split ∙ ap (λ xs. step.done ++ xs) step.finished ∙ append-nil step.done) in
    (
      step.executed ∙ ap (λ xs. d.executed ++ xs) all,
      step.versions ∙ ap (λ xs. d.versions ++ versions_of xs) all,
    )

module _ (p : Pool) (show : ℤ → String) (quiet : (n : ℕ) → p.fault n ≡ none)
    (one : (n : ℕ) → p.session n ≡ 0) where
  then_unlock-free :
      (tried : Result (Unit {0}) × Database)
      → tried.0 ≡ ok tt
      → tried.1.lock ≡ some (0, 1)
      → let (r, d') = then_unlock p show tried in (r ≡ ok tt) × (d'.lock ≡ none)
  then_unlock-free (r, d) done held = (done, rw (quiet d.event) (rw (one d.event) (rw held refl)))

  -- On a quiet pool of one connection a run takes the free lock, works, and frees it.
  migrate_ok :
      (files : List DirEntry) (d : Database)
      → d.lock ≡ none
      → Insertable d.versions (pending d.versions (load_migrations files))
      → let (r, d') = migrate p show files d in (r ≡ ok tt) × (d'.lock ≡ none)
  unfolding migrate Applied
  migrate_ok files d free fresh =
      let t : Database = record d {
        lock = some (0, 1);
        table = true;
        event = suc (suc (suc d.event));
      } in
      let (done, held) =
        apply_pending-Applied p quiet show d.versions (load_migrations files) t fresh in
      let freed =
        then_unlock-free (apply_pending p show d.versions (load_migrations files) t) done held in
      rw (quiet d.event, migrate)
        (rw (free, migrate)
          (rw (one d.event, migrate)
            (rw (quiet (suc d.event), migrate) (rw (quiet (suc (suc d.event)), migrate) freed))))

  -- On a pool that does not fail and whose statements go over one connection, with a free lock
  -- and pending migrations whose versions the table takes, a run of Migrate succeeds: it appends
  -- all pending migrations and their versions, and frees the lock. A second run with the same
  -- files succeeds too, executes nothing and leaves the versions as they are.
  pub migrate_twice :
      (files : List DirEntry) (d : Database)
      → d.lock ≡ none
      → Insertable d.versions (pending d.versions (load_migrations files))
      → let ms = pending d.versions (load_migrations files) in
        let (r, d') = migrate p show files d in
        let (r', d'') = migrate p show files d' in
        (r ≡ ok tt)
        × (d'.executed ≡ d.executed ++ ms)
        × (d'.versions ≡ d.versions ++ map (λ (m : Migration). m.version) ms)
        × (d'.lock ≡ none)
        × (r' ≡ ok tt)
        × (d''.executed ≡ d'.executed)
        × (d''.versions ≡ d'.versions)
  migrate_twice files d free fresh =
      let ms = pending d.versions (load_migrations files) in
      let d' = (migrate p show files d).1 in
      let d'' = (migrate p show files d').1 in
      let (done, freed) = migrate_ok files d free fresh in
      let (executed, versions) =
        Progress-all ms d d'
          (subst (Progress ms d d') done (migrate-Progress-loaded p show files d)) in
      let nothing : pending d'.versions (load_migrations files) ≡ [] =
        rw versions
          (pending-none d.versions _ _ (pending-Covered d.versions (load_migrations files))) in
      let (again, _) = migrate_ok files d' freed (rw nothing tt) in
      let (executed', versions') = Progress-none d' d'' _ (
        subst (λ xs. Progress xs d' d'' (migrate p show files d').0) nothing
          (migrate-Progress-loaded p show files d')) in
      (done, executed, versions, freed, again, executed', versions')
