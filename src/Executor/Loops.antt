-- ===== src/Executor/Loops.antt =====
-- The loops of the producer's and the completer's goroutine: `run` of internal/executor/producer.go
-- and of internal/executor/completer.go.
use rivo.Prelude.{ℕ, Bool, List, [], ◌∷◌}
use rivo.Store.{JobRow, World, Store}
use rivo.Retry.{Chance, Policy}
use rivo.Executor.Completer.{JobResult, handle_result}
use rivo.Executor.Producer.{Producer, fetch_and_send}

-- What the producer's loop meets, in its order: a tick, with the rows that others hold and how many
-- rows are sent before a stop; a worker that takes a job; or the end.
pub data ProducerEvent : Type 0 where
  tick : (locked : ℕ → Bool) (sends : ℕ) → ProducerEvent
  taken ends : ProducerEvent

abbrev without_first : List JobRow → List JobRow
without_first [] = []
without_first (j ∷ js) = js

producer_loop : World → List ProducerEvent → Producer → Store → Producer × Store
producer_loop w [] p s = (p, s)
producer_loop w (ends ∷ es) p s = (p, s)
producer_loop w (taken ∷ es) p s = producer_loop w es (record p { jobs = without_first p.jobs }) s
producer_loop w (tick locked sends ∷ es) p s =
    let (p', s') = fetch_and_send w locked sends p s in producer_loop w es p' s'

-- `run`: it fetches at once, and then at each tick.
unfoldable pub run_producer :
    World
    → (locked : ℕ → Bool) → (sends : ℕ) → List ProducerEvent
    → Producer
    → Store
    → Producer × Store
unfolding producer_loop fetch_and_send
run_producer w locked sends es p s =
    let (p', s') = fetch_and_send w locked sends p s in producer_loop w es p' s'

-- What the completer's loop meets: a result, or a stop, the end of the context or of the channel.
pub data CompleterEvent : Type 0 where
  result : JobResult → CompleterEvent
  stopped : CompleterEvent

-- `run`, with the policy of NewCompleter.
unfoldable pub run_completer : World → Chance → Policy → List CompleterEvent → Store → Store
unfolding handle_result
run_completer w c p [] s = s
run_completer w c p (stopped ∷ es) s = s
run_completer w c p (result r ∷ es) s = run_completer w c p es (handle_result w c p r s).1
