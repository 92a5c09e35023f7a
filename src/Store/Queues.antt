-- ===== src/Store/Queues.antt =====
-- The queue configuration statements of internal/db/db.go.
pub mod Config
use rivo.Prelude.{
  ℕ, String, Bool, true, false, ◌&&◌, Option, none, some, List, [], ◌∷◌, ◌++◌, map, str_eq, ltb,
  if◌then◌else◌, select, find_first, any, sort_by,
}
use Prim.Native.String.{compare}
use text.Mathlib.Text.{is_lt}
use rivo.Base.{ok}
use rivo.Store.Rows.{Time, QueueConfig, Store}
use rivo.Store.Statement.{World, M, statement}

abbrev pub is_queue : (namespace name : String) → QueueConfig → Bool
is_queue namespace name q = str_eq q.namespace namespace && str_eq q.name name

unfoldable pub update_queues :
    (QueueConfig → Bool) → (QueueConfig → QueueConfig) → List QueueConfig → List QueueConfig
update_queues p f = map (λ q. if p q then f q else q)

-- `ORDER BY priority DESC, name`
abbrev pub queue_before : QueueConfig → QueueConfig → Bool
queue_before a b =
    if ltb b.priority a.priority
    then true
    else if ltb a.priority b.priority
    then false
    else is_lt (compare a.name b.name)

unfoldable pub get_queues : World → String → M (List QueueConfig)
unfolding statement
get_queues w namespace =
    statement w (λ now s.
      (ok (sort_by queue_before (select (λ q. str_eq q.namespace namespace) s.queues)), s))

-- `NewQueueConfig`: the times are zero.
unfoldable pub new_queue_config :
    (name namespace : String) → (concurrency : ℕ) → (paused : Bool) → (priority : ℕ) → QueueConfig
new_queue_config name namespace concurrency paused priority = record {
  name = name;
  namespace = namespace;
  concurrency = concurrency;
  paused = paused;
  priority = priority;
  created_at = 0;
  updated_at = 0;
}

-- `INSERT ... ON CONFLICT (namespace, name) DO UPDATE`
abbrev pub upsert_rows : Time → QueueConfig → List QueueConfig → List QueueConfig
upsert_rows now q qs =
    if any (is_queue q.namespace q.name) qs
    then update_queues (is_queue q.namespace q.name)
        (λ r. record r {
          concurrency = q.concurrency;
          paused = q.paused;
          priority = q.priority;
          updated_at = now;
        })
        qs
    else (qs ++ record q { created_at = now; updated_at = now } ∷ [])

unfoldable pub upsert_queue : World → QueueConfig → M (Unit {0})
unfolding statement update_queues
upsert_queue w q = statement w (λ now s. (ok tt, record s { queues = upsert_rows now q s.queues }))

unfoldable pub update_queue_concurrency : World → (namespace name : String) → ℕ → M (Unit {0})
unfolding statement update_queues
update_queue_concurrency w namespace name n = statement w (λ now s. (
  ok tt,
  record s {
    queues =
        update_queues (is_queue namespace name)
          (λ q. record q { concurrency = n; updated_at = now }) s.queues;
  },
))

unfoldable pub pause_queue : World → (namespace name : String) → Bool → M (Unit {0})
unfolding statement update_queues
pause_queue w namespace name paused = statement w (λ now s. (
  ok tt,
  record s {
    queues =
        update_queues (is_queue namespace name)
          (λ q. record q { paused = paused; updated_at = now }) s.queues;
  },
))

-- The default, 10 and not paused, where no row is configured.
abbrev pub config_or_default : Option QueueConfig → ℕ × Bool
config_or_default none = (10, false)
config_or_default (some q) = (q.concurrency, q.paused)

unfoldable pub get_queue_concurrency : World → (namespace name : String) → M (ℕ × Bool)
unfolding statement
get_queue_concurrency w namespace name =
    statement w
      (λ now s. (ok (config_or_default (find_first (is_queue namespace name) s.queues)), s))
