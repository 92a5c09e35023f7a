-- ===== src/Migrator.antt =====
-- The migrator: internal/migration/migrator.go.
pub mod Files
pub mod Order
pub mod Progress
pub mod Again
pub mod Leak
use rivo.Prelude.{
  ℕ, suc, ◌-◌, String, Bool, true, false, not, ◌&&◌, ◌||◌, Option, none, some, List, [], ◌∷◌, ◌++◌,
  ◌==◌, ◌^◌, ltb, leb, if◌then◌else◌,
}
use Prim.Native.String.{◌++◌ as append}
use rivo.Prelude.Int.{ℤ, pos_part, neg_part}
use rivo.Base.{Error, message, wrapf, Result, ok, err}
use rivo.Migrator.Files.{Migration, DirEntry, load_migrations}

-- The connection that each statement of the pool goes over, and whether it fails. Statements are
-- numbered by `Database.event`.
pub record Pool : Type 0 where
  pub session : ℕ → ℕ
  pub fault : ℕ → Option Error

-- The advisory lock belongs to a session, which may take it several times. `versions` are the rows
-- of rivo_migrations and `executed` the migrations whose SQL is committed, the oldest first.
pub record Database : Type 0 where
  pub lock : Option (ℕ × ℕ)
  pub table : Bool
  pub versions : List ℤ
  pub executed : List Migration
  pub event : ℕ

abbrev pub Db : Type 0 → Type 0
Db A = Database → Result A × Database

abbrev pub and_then : {A B : Type 0} → Result A → (A → Db B) → Db B
and_then (ok a) f d = f a d
and_then (err e) f d = (err e, d)

infixl 5 ◌>>=◌ ◌>>◌
abbrev pub ◌>>=◌ : {A B : Type 0} → Db A → (A → Db B) → Db B
◌>>=◌ m f d = let (r, d') = m d in and_then r f d'

abbrev pub ◌>>◌ : {A B : Type 0} → Db A → Db B → Db B
◌>>◌ m k d = let (r, d') = m d in and_then r (λ _. k) d'

abbrev pub map_error : {A : Type 0} → (Error → Error) → Result A → Result A
map_error f (ok a) = ok a
map_error f (err e) = err (f e)

abbrev pub with_error : {A : Type 0} → (Error → Error) → Db A → Db A
with_error f m d = let (r, d') = m d in (map_error f r, d')

abbrev pub outcome : {A : Type 0} → Option Error → Db A → Db A
outcome (some e) body d = (err e, d)
outcome none body d = body d

abbrev pub version_eq : ℤ → ℤ → Bool
version_eq a b = pos_part a == pos_part b && neg_part a == neg_part b

abbrev pub has_version : List ℤ → ℤ → Bool
has_version [] v = false
has_version (x ∷ xs) v = version_eq x v || has_version xs v

-- Whether a number fits the column, an INTEGER of 32 bits.
abbrev pub fits_integer : ℤ → Bool
fits_integer v = ltb (pos_part v) (2 ^ 31) && leb (neg_part v) (2 ^ 31)

-- `pg_try_advisory_lock` and `pg_advisory_unlock`, in a session.
abbrev pub take_lock : (session : ℕ) → Option (ℕ × ℕ) → Bool × Option (ℕ × ℕ)
take_lock s none = (true, some (s, 1))
take_lock s (some (holder, n)) =
    if holder == s then (true, some (holder, suc n)) else (false, some (holder, n))

abbrev pub drop_lock : (session : ℕ) → Option (ℕ × ℕ) → Option (ℕ × ℕ)
drop_lock s none = none
drop_lock s (some (holder, n)) =
    if holder == s then (if n == 1 then none else some (holder, n - 1)) else some (holder, n)

-- The first error of a transaction undoes what it wrote.
abbrev pub commit_or_rollback :
    Database → Result (Unit {0}) × Database → Result (Unit {0}) × Database
commit_or_rollback d (ok _, d') = (ok tt, d')
commit_or_rollback d (err e, d') = (err e, record d { event = d'.event })

module _ (p : Pool) where
  abbrev pub statement : {A : Type 0} → Db A → Db A
  statement body d = outcome (p.fault d.event) body (record d { event = suc d.event })

  abbrev pub try_lock : Db Bool
  try_lock d =
      statement
        (λ t.
          let (got, lock) = take_lock (p.session d.event) t.lock in
          (ok got, record t { lock = lock }))
        d

  -- The deferred unlock, whose error is dropped.
  abbrev pub unlock : Database → Database
  unlock d =
      (statement {A = Unit {0}}
        (λ t. (ok tt, record t { lock = drop_lock (p.session d.event) t.lock })) d).1

  abbrev pub create_table : Db (Unit {0})
  create_table = statement (λ t. (ok tt, record t { table = true }))

  -- `getAppliedVersions`
  abbrev pub get_applied_versions : Db (List ℤ)
  get_applied_versions = statement (λ t. (ok t.versions, t))

  abbrev pub exec_sql : Migration → Db (Unit {0})
  exec_sql m = statement (λ t. (ok tt, record t { executed = t.executed ++ m ∷ [] }))

  -- The version is the primary key.
  abbrev pub record_version : ℤ → Db (Unit {0})
  record_version v = statement (λ t.
      if not (fits_integer v)
      then (err (message "integer out of range"), t)
      else if has_version t.versions v
      then (err (message "duplicate key"), t)
      else (ok tt, record t { versions = t.versions ++ v ∷ [] }))

  abbrev pub commit : Db (Unit {0})
  commit = statement (λ t. (ok tt, t))

  abbrev pub in_transaction : Migration → Db (Unit {0})
  in_transaction m = do
    with_error (wrapf "executing SQL: ") (exec_sql m)
    with_error (wrapf "recording migration: ") (record_version m.version)
    commit

  -- `applyMigration`
  unfoldable pub apply_migration : Migration → Db (Unit {0})
  apply_migration m = do statement (λ t. (ok tt, t)); λ d. commit_or_rollback d (in_transaction m d)

  module _ (show : ℤ → String) where
    -- What follows the try to apply a migration.
    abbrev pub next_after :
        Migration → Result (Unit {0}) × Database → Db (Unit {0}) → Result (Unit {0}) × Database
    next_after m (err e, d) go =
        (err (wrapf (append "applying migration " (append (show m.version) ": ")) e), d)
    next_after m (ok _, d) go = go d

    -- The loop of `Migrate`: `applied` is not read again.
    unfoldable pub apply_pending : (applied : List ℤ) → List Migration → Db (Unit {0})
    apply_pending applied [] d = (ok tt, d)
    apply_pending applied (m ∷ ms) d =
        let skip = apply_pending applied ms d in
        let tried = next_after m (apply_migration m d) (apply_pending applied ms) in
        if has_version applied m.version then skip else tried

    abbrev pub migrate_locked : List DirEntry → Db (Unit {0})
    migrate_locked files = do
      with_error (wrapf "creating migrations table: ") create_table
      applied ← with_error (wrapf "getting applied migrations: ") get_applied_versions
      apply_pending applied (load_migrations files)

    abbrev pub then_unlock : Result (Unit {0}) × Database → Result (Unit {0}) × Database
    then_unlock (r, d) = (r, unlock d)

    abbrev pub migrate_if : Bool → List DirEntry → Db (Unit {0})
    migrate_if false files d = (err (message "another migration is in progress"), d)
    migrate_if true files d = then_unlock (migrate_locked files d)

    -- `Migrate`
    unfoldable pub migrate : List DirEntry → Db (Unit {0})
    unfolding load_migrations apply_pending
    migrate files = do
      locked ← with_error (wrapf "acquiring advisory lock: ") try_lock
      migrate_if locked files
