-- ===== src/Store/Workers.antt =====
-- The worker statements of internal/db/db.go.
pub mod Health
use rivo.Prelude.{
  ℕ, ◌+◌, ◌*◌, String, Bool, true, false, not, ◌&&◌, Option, none, some, List, [], ◌∷◌, ◌++◌, map,
  str_eq, ltb, if◌then◌else◌, length, select, any, sort_by,
}
use rivo.Base.{ok}
use rivo.Store.Rows.{Time, Duration, Worker, WorkerStatus, active, stopped, Store}
use rivo.Store.Statement.{World, M, statement}

abbrev pub second : ℕ
second = 1_000_000_000

abbrev pub is_active : WorkerStatus → Bool
is_active active = true
is_active stopped = false

unfoldable pub update_workers : (Worker → Bool) → (Worker → Worker) → List Worker → List Worker
update_workers p f = map (λ x. if p x then f x else x)

-- `INSERT ... ON CONFLICT (id) DO UPDATE`
abbrev pub upsert_worker : Time → Worker → List Worker → List Worker
upsert_worker now x ws =
    if any (λ y. str_eq y.id x.id) ws
    then update_workers (λ y. str_eq y.id x.id)
        (λ y. record y { status = active; last_heartbeat = now }) ws
    else (ws
        ++ record x {
          status = active;
          last_heartbeat = x.started_at;
          jobs_processed = 0;
          jobs_failed = 0;
        }
          ∷ [])

unfoldable pub register_worker : World → Worker → M (Unit {0})
unfolding statement update_workers
register_worker w x =
    statement w (λ now s. (ok tt, record s { workers = upsert_worker now x s.workers }))

unfoldable pub worker_heartbeat : World → String → M (Unit {0})
unfolding statement update_workers
worker_heartbeat w id = statement w (λ now s. (
  ok tt,
  record s {
    workers =
        update_workers (λ x. str_eq x.id id) (λ x. record x { last_heartbeat = now }) s.workers;
  },
))

unfoldable pub deregister_worker : World → String → M (Unit {0})
unfolding statement update_workers
deregister_worker w id = statement w (λ now s. (
  ok tt,
  record s {
    workers = update_workers (λ x. str_eq x.id id) (λ x. record x { status = stopped }) s.workers;
  },
))

unfoldable pub increment_worker_stats : World → String → (processed failed : ℕ) → M (Unit {0})
unfolding statement update_workers
increment_worker_stats w id processed failed = statement w (λ now s. (
  ok tt,
  record s {
    workers =
        update_workers (λ x. str_eq x.id id)
          (λ x. record x {
            jobs_processed = x.jobs_processed + processed;
            jobs_failed = x.jobs_failed + failed;
            last_heartbeat = now;
          })
          s.workers;
  },
))

-- `last_heartbeat > NOW() - d`
abbrev pub heard_within : Duration → Time → Worker → Bool
heard_within d now x = ltb now (x.last_heartbeat + d)

abbrev pub started_before : Worker → Worker → Bool
started_before x y = ltb x.started_at y.started_at

unfoldable pub get_workers : World → String → M (List Worker)
unfolding statement
get_workers w namespace = statement w (λ now s. (
  ok (
      sort_by started_before (
        select
          (λ x.
            str_eq x.namespace namespace && is_active x.status && heard_within (30 * second) now x)
          s.workers)),
  s,
))

pub record WorkerHealth : Type 0 where
  pub worker : Worker
  pub is_healthy : Bool

unfoldable pub get_worker_health : World → String → M (List WorkerHealth)
unfolding statement
get_worker_health w namespace = statement w (λ now s. (
  ok (
      map (λ x. record { worker = x; is_healthy = heard_within (30 * second) now x })
        (sort_by started_before (
          select (λ x. str_eq x.namespace namespace && heard_within (300 * second) now x)
            s.workers))),
  s,
))

-- `status = 'active' AND last_heartbeat < NOW() - threshold`
abbrev pub is_stale : Duration → Time → Worker → Bool
is_stale threshold now x = is_active x.status && ltb (x.last_heartbeat + threshold) now

unfoldable pub cleanup_stale_workers : World → (threshold : Duration) → M ℕ
unfolding statement update_workers
cleanup_stale_workers w threshold = statement w (λ now s. (
  ok (length (select (is_stale threshold now) s.workers)),
  record s {
    workers =
        update_workers (is_stale threshold now) (λ x. record x { status = stopped }) s.workers;
  },
))
