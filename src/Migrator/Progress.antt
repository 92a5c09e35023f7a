-- ===== src/Migrator/Progress.antt =====
-- What a run of Migrate of internal/migration/migrator.go leaves behind, whatever fails.
use mathlib.Core.List.{append_assoc, append-nil, Permᴰ}
use rivo.Prelude.{
  ℕ, suc, String, Bool, true, false, not, Option, List, [], ◌∷◌, ◌++◌, ◌≡◌, refl, sym, ap, ◌∙◌, inl,
  inr, arith, map, select, Bool-cases, Option-cases,
}
use rivo.Prelude.Int.{ℤ}
use rivo.Base.{Error, Result, ok, err}
use rivo.Migrator.{
  Pool, Database, statement, apply_migration, apply_pending, next_after, Db, migrate, migrate_if,
  migrate_locked, then_unlock, has_version,
}
use rivo.Migrator.Files.{Migration, DirEntry, load_all, load_migrations}
use rivo.Migrator.Order.{InOrder, InOrder-sort, InOrder-select, Permᴰ-sort, Permᴰ-select}

-- A migration is applied as a whole, with its version, or not at all.
Applied : Migration → Database → Result (Unit {0}) → Database → Type 0
Applied m d (ok _) d' =
    (d'.executed ≡ d.executed ++ m ∷ []) × (d'.versions ≡ d.versions ++ m.version ∷ [])
Applied m d (err e) d' = (d'.executed ≡ d.executed) × (d'.versions ≡ d.versions)

module _ (p : Pool) where
  apply_migration-Applied :
      (m : Migration) (d : Database) → let (r, d') = apply_migration p m d in Applied m d r d'
  unfolding apply_migration Applied
  apply_migration-Applied m d = ground arith

-- The migrations that the loop does not skip.
abbrev pub pending : List ℤ → List Migration → List Migration
pending applied = select (λ m. not (has_version applied m.version))

-- After a success nothing is left to do.
abbrev pub Finished : Result (Unit {0}) → List Migration → Type 0
Finished (ok _) todo = todo ≡ []
Finished (err e) todo = Unit

-- From `d` to `d'`, with the result `r`: the first of the pending migrations are done, in their
-- order, each with its version.
pub record Progress (ms : List Migration) (d d' : Database) (r : Result (Unit {0})) : Type 0 where
  pub done : List Migration
  pub todo : List Migration
  pub split : ms ≡ done ++ todo
  pub executed : d'.executed ≡ d.executed ++ done
  pub versions : d'.versions ≡ d.versions ++ map (λ (m : Migration). m.version) done
  pub finished : Finished r todo

module _ (p : Pool) (show : ℤ → String) where
  -- One migration, by what became of it, and then the others.
  next_after-Progress :
      (m : Migration) (ms : List Migration) (d : Database) (tried : Result (Unit {0}) × Database)
      (go : Db (Unit {0}))
      → Applied m d tried.0 tried.1
      → ((t : Database) → let (r, t') = go t in Progress ms t t' r)
      → let (r, d') = next_after p show m tried go in Progress (m ∷ ms) d d' r
  unfolding Applied
  next_after-Progress m ms d (ok _, d') go one ih =
      let rest = ih d' in
      record {
        done = m ∷ rest.done;
        todo = rest.todo;
        split = rw rest.split refl;
        executed =
            rest.executed
            ∙ ap (λ xs. xs ++ rest.done) one.0
            ∙ append_assoc d.executed (m ∷ []) rest.done;
        versions =
            rest.versions
            ∙ ap (λ xs. xs ++ map (λ (x : Migration). x.version) rest.done) one.1
            ∙ append_assoc d.versions (m.version ∷ [])
                (map (λ (x : Migration). x.version) rest.done);
        finished = rest.finished;
      }
  next_after-Progress m ms d (err e, d') go one ih = record {
    done = [];
    todo = m ∷ ms;
    split = refl;
    executed = rw one.0 (sym (append-nil d.executed));
    versions = rw one.1 (sym (append-nil d.versions));
    finished = tt;
  }

  apply_pending-Progress :
      (applied : List ℤ) (ms : List Migration) (d : Database)
      → let (r, d') = apply_pending p show applied ms d in Progress (pending applied ms) d d' r
  unfolding apply_pending
  apply_pending-Progress applied [] d = record {
    done = [];
    todo = [];
    split = refl;
    executed = sym (append-nil d.executed);
    versions = sym (append-nil d.versions);
    finished = refl;
  }
  apply_pending-Progress applied (m ∷ ms) d = elim (Bool-cases (has_version applied m.version)) [
    | inl old ↦ rw old (apply_pending-Progress applied ms d)
    | inr new ↦ rw new (
        next_after-Progress m (pending applied ms) d (apply_migration p m d)
          (apply_pending p show applied ms) (apply_migration-Applied p m d)
          (apply_pending-Progress applied ms))
  ]

  stay :
      (ms : List Migration) (d d' : Database) (e : Error)
      → d'.executed ≡ d.executed
      → d'.versions ≡ d.versions
      → Progress ms d d' (err e)
  stay ms d d' e same same' = record {
    done = [];
    todo = ms;
    split = refl;
    executed = rw same (sym (append-nil d.executed));
    versions = rw same' (sym (append-nil d.versions));
    finished = tt;
  }

  -- Statements before the loop that write neither table.
  rebase :
      (ms : List Migration) (d t d' : Database) (r : Result (Unit {0}))
      → t.executed ≡ d.executed
      → t.versions ≡ d.versions
      → Progress ms t d' r
      → Progress ms d d' r
  rebase ms d t d' r same same' step = record {
    done = step.done;
    todo = step.todo;
    split = step.split;
    executed = step.executed ∙ ap (λ xs. xs ++ step.done) same;
    versions = step.versions ∙ ap (λ xs. xs ++ map (λ (x : Migration). x.version) step.done) same';
    finished = step.finished;
  }

  -- The unlock writes neither table.
  then_unlock-Progress :
      (ms : List Migration) (d : Database) (tried : Result (Unit {0}) × Database)
      → Progress ms d tried.1 tried.0
      → let (r, d') = then_unlock p show tried in Progress ms d d' r
  then_unlock-Progress ms d (r, d') step = record {
    done = step.done;
    todo = step.todo;
    split = step.split;
    executed = ground (arith, step.executed);
    versions = ground (arith, step.versions);
    finished = step.finished;
  }

  migrate_locked-Progress :
      (files : List DirEntry) (d : Database)
      → let (r, d') = migrate_locked p show files d in
        Progress (pending d.versions (load_migrations files)) d d' r
  migrate_locked-Progress files d = elim (Option-cases (p.fault d.event)) [
    | inr (e, fails) ↦ rw (fails, statement) (stay _ d _ _ refl refl)
    | inl created ↦ elim (Option-cases (p.fault (suc d.event))) [
      | inr (e, fails) ↦ rw (created, fails) (stay _ d _ _ refl refl)
      | inl read ↦
          rw (created, read) (rebase _ d _ _ _ refl refl (apply_pending-Progress d.versions _ _))
    ]
  ]

  migrate_if-Progress :
      (locked : Bool) (files : List DirEntry) (d : Database) (lock : Option (ℕ × ℕ)) (n : ℕ)
      → let (r, d') = migrate_if p show locked files (record d { lock = lock; event = n }) in
        Progress (pending d.versions (load_migrations files)) d d' r
  migrate_if-Progress false files d lock n = stay _ d _ _ refl refl
  migrate_if-Progress true files d lock n =
      let t : Database = record d { lock = lock; event = n } in
      then_unlock-Progress _ d (migrate_locked p show files t)
        (rebase _ d t _ _ refl refl (migrate_locked-Progress files t))

  pub migrate-Progress-loaded :
      (files : List DirEntry) (d : Database)
      → let (r, d') = migrate p show files d in
        Progress (pending d.versions (load_migrations files)) d d' r
  unfolding migrate
  migrate-Progress-loaded files d = elim (Option-cases (p.fault d.event)) [
    | inr (e, fails) ↦ rw (fails, migrate) (stay _ d _ _ refl refl)
    | inl sent ↦ rw (sent, migrate) (migrate_if-Progress _ files d _ _)
  ]

  -- Whatever statements fail and whoever holds the lock, a run of Migrate applies the first of the
  -- pending migrations, by their versions, and none of the others: it adds their SQL and their
  -- versions, side by side, and if it returns no error there are no others. The pending ones are
  -- the migrations of the files whose version is not in the table when Migrate starts, each as
  -- often as the files have it, with the versions going up.
  pub migrate-Progress :
      (files : List DirEntry) (d : Database)
      → let (r, d') = migrate p show files d in
        (ms : List Migration) × Permᴰ (pending d.versions (load_all files)) ms
        × InOrder ms
        × Progress ms d d' r
  unfolding load_migrations
  migrate-Progress files d =
      let loaded = load_all files in
      let ms = load_migrations files in
      (
        pending d.versions ms,
        Permᴰ-select (λ m. not (has_version d.versions m.version)) (Permᴰ-sort loaded),
        InOrder-select (λ m. not (has_version d.versions m.version)) ms (InOrder-sort loaded),
        migrate-Progress-loaded files d,
      )
