-- ===== src/Tests/Migrations.antt =====
-- Two migration files on an empty database.
use rivo.Prelude.{
  suc, ltb, String, ◌≡◌, refl, none, some, List, [], ◌∷◌, ◌++◌, false, map, ◌==◌, if◌then◌else◌,
}
use rivo.Prelude.Int.{ℤ, pos}
use rivo.Base.{message, ok, err}
use rivo.Migrator.{Pool, Database, apply_migration, apply_pending, migrate}
use rivo.Migrator.Files.{Migration, DirEntry, codes, load_all, load_migrations}
use rivo.Migrator.Order.{InOrder}
use mathlib.Core.List.{Permᴰ}
use rivo.Migrator.Progress.{pending, Progress, migrate-Progress}
use rivo.Migrator.Again.{migrate_twice}
use rivo.Migrator.Leak.{migrate_leaks}

abbrev files : List DirEntry
files =
    record {
      name = codes "002_b.sql";
      is_dir = false;
      content = codes "-- +migrate Up\nB;\n\n-- +migrate Down\nDROP B;";
    }
    ∷ record { name = codes "10_c.sql"; is_dir = false; content = codes "C;" }
    ∷ record { name = codes "1_a.sql"; is_dir = false; content = codes "-- +migrate Up A;" }
    ∷ record { name = codes "README.md"; is_dir = false; content = codes "text" }
    ∷ []

abbrev three : List Migration
three =
    record { version = pos 1; up_sql = codes "A;" }
    ∷ record { version = pos 2; up_sql = codes "B;" }
    ∷ record { version = pos 10; up_sql = codes "C;" }
    ∷ []

loaded : load_migrations files ≡ three
unfolding load_migrations
loaded = refl

abbrev new_database : Database
new_database = record { lock = none; table = false; versions = []; executed = []; event = 0 }

-- The third statement of the second transaction fails.
abbrev failing : Pool
failing = record { session = λ n. 0; fault = λ n. if n == 8 then some (message "gone") else none }

abbrev working : Pool
working = record { session = λ n. 0; fault = λ n. none }

abbrev show : ℤ → String
show v = "?"

abbrev after_failure : Database
after_failure = (migrate failing show files new_database).1

one_applied : after_failure.versions ≡ pos 1 ∷ []
unfolding migrate apply_migration apply_pending
one_applied = refl

migrate-Progress_example :
    (ms : List Migration) × Permᴰ (pending [] (load_all files)) ms
    × InOrder ms
    × Progress ms new_database after_failure (migrate failing show files new_database).0
migrate-Progress_example = migrate-Progress failing show files new_database

migrate_twice_example :
    let ms = pending [] (load_migrations files) in
    let (r, d') = migrate working show files new_database in
    let (r', d'') = migrate working show files d' in
    (r ≡ ok tt)
    × (d'.executed ≡ [] ++ ms)
    × (d'.versions ≡ [] ++ map (λ (m : Migration). m.version) ms)
    × (d'.lock ≡ none)
    × (r' ≡ ok tt)
    × (d''.executed ≡ d'.executed)
    × (d''.versions ≡ d'.versions)
unfolding load_migrations
migrate_twice_example =
    migrate_twice working show (λ n. refl) (λ n. refl) files new_database refl
      ((refl, refl, (refl, refl, (refl, refl, tt))))

-- The unlock and what follows go over a second connection.
abbrev two_connections : Pool
two_connections = record { session = λ n. if ltb n 10 then 1 else 2; fault = λ n. none }

migrate_leaks_example :
    let d' = (migrate two_connections show files new_database).1 in
    (d'.lock ≡ some (1, 1))
    × (migrate two_connections show files d'
        ≡ (err (message "another migration is in progress"), record d' { event = suc d'.event }))
unfolding migrate apply_migration apply_pending
migrate_leaks_example =
    migrate_leaks two_connections show files new_database refl refl refl refl refl
