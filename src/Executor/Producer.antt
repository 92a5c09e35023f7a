-- ===== src/Executor/Producer.antt =====
-- internal/executor/producer.go: jobs are fetched into a bounded channel.
use rivo.Prelude.{
  ℕ, ◌+◌, ◌-◌, ◌≤◌, String, ◌≡◌, Bool, none, List, [], ◌∷◌, ◌++◌, arith, ltb, ◌==◌, if◌then◌else◌,
  length, take, length-append, length-take_le, Bool-cases, inl, inr,
}
use rivo.Base.{ok, err, Result}
use rivo.Store.{JobRow, Store, World}
use rivo.Store.Jobs.{Increasing}
use rivo.Store.Jobs.Next.{fetch_jobs}
use rivo.Store.Jobs.Fetch.{fetch_jobs-le_limit}

-- `jobs` is what the channel holds; its capacity is `buffer_size`.
pub record Producer : Type 0 where
  pub namespace : String
  pub queues : List String
  pub worker_id : String
  pub batch_size : ℕ
  pub buffer_size : ℕ
  pub jobs : List JobRow

pub record ProducerConfig : Type 0 where
  pub namespace : String
  pub queues : List String
  pub worker_id : String
  pub batch_size : ℕ
  pub buffer_size : ℕ

abbrev or_default : ℕ → ℕ → ℕ
or_default d n = if n == 0 then d else n

-- `NewProducer`, its defaults included.
unfoldable pub new_producer : ProducerConfig → Producer
new_producer cfg = record {
  namespace = cfg.namespace;
  queues = elim cfg.queues [ [] ↦ "default" ∷ [] | q ∷ qs ↦ q ∷ qs ];
  worker_id = cfg.worker_id;
  batch_size = or_default 100 cfg.batch_size;
  buffer_size = or_default 1000 cfg.buffer_size;
  jobs = [];
}

abbrev pub fetch_limit : Producer → ℕ
fetch_limit p =
    let free = p.buffer_size - length p.jobs in if ltb free p.batch_size then free else p.batch_size

-- The loop that sends what was fetched: `sends` jobs go into the channel before a stop is chosen.
abbrev send : (sends : ℕ) → Result (List JobRow) → Producer → Producer
send sends (ok rows) p = record p { jobs = p.jobs ++ take sends rows }
send sends (err e) p = p

-- `fetchAndSend`. `locked` is what other workers hold; no consumer runs in between.
unfoldable pub fetch_and_send :
    World → (locked : ℕ → Bool) → (sends : ℕ) → Producer → Store → Producer × Store
fetch_and_send w locked sends p s =
    let (r, s') = fetch_jobs w locked p.namespace p.queues (fetch_limit p) p.worker_id s in
    if ltb (length p.jobs) p.buffer_size then (send sends r p, s') else (p, s)

send-le :
    (sends : ℕ) (r : Result (List JobRow)) (p : Producer) {rows : List JobRow}
    → r ≡ ok rows
    → length rows + length p.jobs ≤ p.buffer_size
    → length (send sends r p).jobs ≤ p.buffer_size
send-le sends r p {rows} e h =
    rw e (omega (arith, length-append p.jobs (take sends rows), length-take_le sends rows))

-- With a statement that does not fail, growing ids and a channel within its capacity, a round of the
-- producer keeps the channel within its capacity.
pub fetch_and_send-le :
    (w : World) (locked : ℕ → Bool) (sends : ℕ) (p : Producer) (s : Store)
    → w.fault s.event ≡ none
    → Increasing s.jobs
    → length p.jobs ≤ p.buffer_size
    → length (fetch_and_send w locked sends p s).0.jobs ≤ p.buffer_size
unfolding fetch_and_send
fetch_and_send-le w locked sends p s quiet grow h =
    let (rows, e, bound) =
      fetch_jobs-le_limit w locked p.namespace p.queues (fetch_limit p) p.worker_id s quiet grow in
    elim (Bool-cases (ltb (length p.jobs) p.buffer_size)) [
      | inl room ↦ rw room (send-le sends _ p e (ground arith))
      | inr full ↦ rw full h
    ]
