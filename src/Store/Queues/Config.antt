-- ===== src/Store/Queues/Config.antt =====
-- Reading back the configuration of a queue.
use rivo.Prelude.{
  ℕ, suc, String, ◌≡◌, refl, Bool, true, false, List, [], ◌∷◌, ◌++◌, arith, eq_iff, ◌∙◌, ap,
  Bool-cases, inl, inr, if◌then◌else◌, find_first, any,
}
use rivo.Base.{ok}
use rivo.Store.Rows.{Time, QueueConfig, Store}
use rivo.Store.Statement.{World, tick}
use rivo.Store.Jobs.Next.{fetch_jobs}
use rivo.Store.Jobs.Insert.{IsQuiet}
use rivo.Store.Queues.{
  is_queue, update_queues, upsert_rows, pause_queue, upsert_queue, config_or_default,
  get_queue_concurrency,
}

abbrev config : (namespace name : String) → List QueueConfig → ℕ × Bool
config namespace name qs = config_or_default (find_first (is_queue namespace name) qs)

abbrev settings : Time → QueueConfig → QueueConfig → QueueConfig
settings now q r = record r {
  concurrency = q.concurrency;
  paused = q.paused;
  priority = q.priority;
  updated_at = now;
}

abbrev created : Time → QueueConfig → QueueConfig
created now q = record q { created_at = now; updated_at = now }

-- Rows of one name answer alike to every search by name.
is_queue_same :
    (q r : QueueConfig) (namespace name : String)
    → is_queue q.namespace q.name r ≡ true
    → is_queue namespace name r ≡ is_queue namespace name q
is_queue_same q r namespace name h =
    let same_namespace : r.namespace ≡ q.namespace =
      (eq_iff r.namespace q.namespace).0 (ground arith) in
    let same_name : r.name ≡ q.name = (eq_iff r.name q.name).0 (ground arith) in
    rw (same_namespace, same_name) refl

config-update_other :
    (now : Time) (q : QueueConfig) (namespace name : String) (qs : List QueueConfig)
    → is_queue namespace name q ≡ false
    → config namespace name (update_queues (is_queue q.namespace q.name) (settings now q) qs)
      ≡ config namespace name qs
unfolding update_queues
config-update_other now q namespace name [] h = refl
config-update_other now q namespace name (r ∷ rs) h =
    elim (Bool-cases (is_queue q.namespace q.name r)) [
      | inl same ↦
          let other : is_queue namespace name r ≡ false =
            is_queue_same q r namespace name same ∙ h in
          rw (same, other) (config-update_other now q namespace name rs h)
      | inr different ↦ rw different (ground (arith, config-update_other now q namespace name rs h))
    ]

config-update_same :
    (now : Time) (q : QueueConfig) (namespace name : String) (qs : List QueueConfig)
    → is_queue namespace name q ≡ true
    → any (is_queue q.namespace q.name) qs ≡ true
    → config namespace name (update_queues (is_queue q.namespace q.name) (settings now q) qs)
      ≡ (q.concurrency, q.paused)
unfolding update_queues
config-update_same now q namespace name [] h here = cc
config-update_same now q namespace name (r ∷ rs) h here =
    elim (Bool-cases (is_queue q.namespace q.name r)) [
      | inl same ↦
          let hit : is_queue namespace name r ≡ true = is_queue_same q r namespace name same ∙ h in
          rw (same, hit) refl
      | inr different ↦
          let miss : is_queue namespace name r ≡ false = miss_of r different in
          rw (different, miss) (config-update_same now q namespace name rs h (rw different at here))
    ]
  where
    miss_of :
        (r : QueueConfig)
        → is_queue q.namespace q.name r ≡ false
        → is_queue namespace name r ≡ false
    miss_of r different =
        let same_namespace : q.namespace ≡ namespace =
          (eq_iff q.namespace namespace).0 (ground arith) in
        let same_name : q.name ≡ name = (eq_iff q.name name).0 (ground arith) in
        rw (← same_namespace, ← same_name) different

config-append_other :
    (namespace name : String) (q : QueueConfig) (qs : List QueueConfig)
    → is_queue namespace name q ≡ false
    → config namespace name (qs ++ q ∷ []) ≡ config namespace name qs
config-append_other namespace name q [] h = rw h
config-append_other namespace name q (r ∷ rs) h =
    ground (arith, config-append_other namespace name q rs)

config-append_same :
    (namespace name : String) (q : QueueConfig) (qs : List QueueConfig)
    → is_queue namespace name q ≡ true
    → any (is_queue q.namespace q.name) qs ≡ false
    → config namespace name (qs ++ q ∷ []) ≡ (q.concurrency, q.paused)
config-append_same namespace name q [] h absent = rw h
config-append_same namespace name q (r ∷ rs) h absent =
    let same_namespace : q.namespace ≡ namespace =
      (eq_iff q.namespace namespace).0 (ground arith) in
    let same_name : q.name ≡ name = (eq_iff q.name name).0 (ground arith) in
    let miss : is_queue namespace name r ≡ false =
      rw (← same_namespace, ← same_name) (ground arith) in
    rw miss (config-append_same namespace name q rs h (ground arith))

config-upsert :
    (now : Time) (q : QueueConfig) (namespace name : String) (qs : List QueueConfig)
    → config namespace name (upsert_rows now q qs)
      ≡ (if is_queue namespace name q then (q.concurrency, q.paused) else config namespace name qs)
config-upsert now q namespace name qs = elim (Bool-cases (any (is_queue q.namespace q.name) qs)) [
  | inl known ↦ rw known (elim (Bool-cases (is_queue namespace name q)) [
    | inl same ↦ rw same (config-update_same now q namespace name qs same known)
    | inr other ↦ rw other (config-update_other now q namespace name qs other)
  ])
  | inr fresh ↦ rw fresh (elim (Bool-cases (is_queue namespace name q)) [
    | inl same ↦ rw same (config-append_same namespace name (created now q) qs same fresh)
    | inr other ↦ rw other (config-append_other namespace name (created now q) qs other)
  ])
]

-- If no statement fails, GetQueueConcurrency answers, after UpsertQueue, with what was written for
-- that namespace and name, and for any other with what it answered before.
pub get_queue_concurrency-upsert_queue :
    (w : World) (q : QueueConfig) (namespace name : String) (s : Store)
    → IsQuiet w
    → (get_queue_concurrency w namespace name (upsert_queue w q s).1).0 ≡ (
        if is_queue namespace name q
        then ok (q.concurrency, q.paused)
        else (get_queue_concurrency w namespace name s).0)
unfolding get_queue_concurrency upsert_queue
get_queue_concurrency-upsert_queue w q namespace name s quiet = rw (quiet s.event) (
    rw (quiet (suc s.event))
      (ap ok (config-upsert (w.clock s.event) q namespace name s.queues) ∙ ground arith))

-- Pausing a queue does not hold its jobs back: what FetchJobs returns depends on the job table
-- alone, so that after PauseQueue it hands out what it would have handed out at that moment.
pub fetch_jobs-pause_queue :
    (w : World) (queue : String) (paused : Bool) (locked : ℕ → Bool) (namespace : String)
    (queues : List String) (limit : ℕ) (worker_id : String) (s : Store)
    → (fetch_jobs w locked namespace queues limit worker_id
        (pause_queue w namespace queue paused s).1).0
      ≡ (fetch_jobs w locked namespace queues limit worker_id (tick s)).0
unfolding fetch_jobs pause_queue
fetch_jobs-pause_queue w queue paused locked namespace queues limit worker_id s = ground arith
