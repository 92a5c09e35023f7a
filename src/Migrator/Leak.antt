-- ===== src/Migrator/Leak.antt =====
-- The advisory lock of Migrate of internal/migration/migrator.go, when the pool sends the unlock over
-- another connection.
use rivo.Prelude.{
  ℕ, suc, ◌-◌, String, false, none, some, List, [], ◌∷◌, ◌≡◌, refl, ap, ◌∙◌, arith, inl, inr,
  Bool-cases, ◌==◌, Option-cases, subst,
}
use rivo.Prelude.Int.{ℤ}
use rivo.Base.{err, message, Result-cases}
use rivo.Migrator.{
  Pool, Database, apply_migration, apply_pending, migrate, migrate_locked, then_unlock, unlock,
  drop_lock, has_version,
}
use rivo.Migrator.Files.{Migration, DirEntry, load_migrations}

pred-suc : (n : ℕ) → suc n - 1 ≡ n
pred-suc n = omega arith

dropped : (s holder : ℕ) → (holder == s) ≡ false → drop_lock s (some (holder, 1)) ≡ some (holder, 1)
dropped s holder other = rw other refl

module _ (p : Pool) where
  lock-apply_migration : (m : Migration) (d : Database) → (apply_migration p m d).1.lock ≡ d.lock
  unfolding apply_migration
  lock-apply_migration m d = ground arith

  lock-apply_pending :
      (show : ℤ → String) (applied : List ℤ) (ms : List Migration) (d : Database)
      → (apply_pending p show applied ms d).1.lock ≡ d.lock
  unfolding apply_pending
  lock-apply_pending show applied [] d = refl
  lock-apply_pending show applied (m ∷ ms) d = elim (Bool-cases (has_version applied m.version)) [
    | inl old ↦ rw old (lock-apply_pending show applied ms d)
    | inr new ↦ rw new (elim (Result-cases (apply_migration p m d).0) [
      | inl (a, e) ↦
          rw e (
            lock-apply_pending show applied ms (apply_migration p m d).1 ∙ lock-apply_migration m d)
      | inr (x, e) ↦ rw e (lock-apply_migration m d)
    ])
  ]

  module _ (show : ℤ → String) where
    lock-migrate_locked :
        (files : List DirEntry) (d : Database) → (migrate_locked p show files d).1.lock ≡ d.lock
    lock-migrate_locked files d = elim (Option-cases (p.fault d.event)) [
      | inl fine ↦ rw fine (elim (Option-cases (p.fault (suc d.event))) [
        | inl fine' ↦ rw fine' (lock-apply_pending show d.versions (load_migrations files) _)
        | inr (x, broken) ↦ rw broken refl
      ])
      | inr (x, broken) ↦ rw broken refl
    ]

    event-unlock : (u : Database) → (unlock p u).event ≡ suc u.event
    event-unlock u = ground arith

    unlock-other :
        (u : Database) (holder : ℕ)
        → u.lock ≡ some (holder, 1)
        → (holder == p.session ((unlock p u).event - 1)) ≡ false
        → (unlock p u).lock ≡ some (holder, 1)
    unlock-other u holder held other = elim (Option-cases (p.fault u.event)) [
      | inl fine ↦
          let other' =
            subst (λ (n : ℕ). (holder == p.session (n - 1)) ≡ false) (event-unlock u) other in
          rw (fine, unlock)
            (rw held (
              dropped (p.session u.event) holder
                (subst (λ (n : ℕ). (holder == p.session n) ≡ false) (pred-suc u.event) other')))
      | inr (x, broken) ↦ rw (broken, unlock) held
    ]

    migrate-then_unlock :
        (files : List DirEntry) (d : Database)
        → d.lock ≡ none
        → p.fault d.event ≡ none
        → migrate p show files d
          ≡ then_unlock p show (
              migrate_locked p show files
                (record d { lock = some (p.session d.event, 1); event = suc d.event }))
    unfolding migrate
    migrate-then_unlock files d free quiet = rw (quiet, migrate) (rw (free, migrate) refl)

    migrate-refused :
        (files : List DirEntry) (d : Database) (holder : ℕ)
        → d.lock ≡ some (holder, 1)
        → p.fault d.event ≡ none
        → (holder == p.session d.event) ≡ false
        → migrate p show files d
          ≡ (err (message "another migration is in progress"), record d { event = suc d.event })
    unfolding migrate
    migrate-refused files d holder held quiet other =
        rw (quiet, migrate) (rw (held, migrate) (rw (other, migrate) (rw (← held) refl)))

    -- Whatever fails after it: if Migrate takes the free lock over one connection and its last
    -- statement, the unlock, goes over another one, the lock stays with the first. A later Migrate
    -- whose first statement goes over a connection other than that one is refused, although no
    -- migration is in progress, and executes nothing.
    pub migrate_leaks :
        (files : List DirEntry) (d : Database)
        → d.lock ≡ none
        → p.fault d.event ≡ none
        → (p.session d.event == p.session ((migrate p show files d).1.event - 1)) ≡ false
        → p.fault (migrate p show files d).1.event ≡ none
        → (p.session d.event == p.session (migrate p show files d).1.event) ≡ false
        → let d' = (migrate p show files d).1 in
          (d'.lock ≡ some (p.session d.event, 1))
          × (migrate p show files d' ≡ (
            err (message "another migration is in progress"),
            record d' { event = suc d'.event },
          ))
    migrate_leaks files d free quiet other quiet' later =
        let t : Database = record d { lock = some (p.session d.event, 1); event = suc d.event } in
        let (r, u) = migrate_locked p show files t in
        let e = migrate-then_unlock files d free quiet in
        let lock =
          ap (λ x. x.1.lock) e
          ∙ unlock-other u (p.session d.event) (lock-migrate_locked files t) (rw e at other) in
        (
          lock,
          migrate-refused files (migrate p show files d).1 (p.session d.event) lock quiet' later,
        )
