-- ===== src/Engine/FanOut.antt =====
-- Fan-out steps: executeFanOutStep of internal/workflow/engine.go.
pub mod Order
pub mod Mapped
use Prim.Native.String.{◌++◌ as append}
use rivo.Prelude.{
  ℕ, zero, suc, ◌/◌, ◌%◌, String, Option, none, some, List, [], ◌∷◌, ◌++◌, ltb, ◌==◌, if◌then◌else◌,
  ◌&&◌,
}
use rivo.Prelude.Int.{ℤ}
use rivo.Base.{Error, message, wrapf, Result, ok, err, null, RawMessage, Any, value, marshal_list}
use rivo.Store.{Time, World, time_now, get_event}
use rivo.Engine.{
  StepInfo, Context, FanOutHandler, Engine, Scheduler, Step, continue, ◌>>=◌, ◌>>◌, fail_with, db,
  get_run, set_step_state, set_output,
}
use rivo.Engine.Steps.{started_state, quoted_error, call, mark_failed, store_output, context_of}

-- Decimal digits, as `%d` prints them.
digit : ℕ → String
digit n =
    if n == 0
    then "0"
    else if n == 1
    then "1"
    else if n == 2
    then "2"
    else if n == 3
    then "3"
    else if n == 4
    then "4"
    else if n == 5
    then "5"
    else if n == 6
    then "6"
    else if n == 7
    then "7"
    else if n == 8
    then "8"
    else "9"

decimal_from : (fuel : ℕ) → ℕ → String
unfolding digit
decimal_from zero n = digit n
decimal_from (suc f) n =
    let more = append (decimal_from f (n / 10)) (digit (n % 10)) in
    if ltb n 10 then digit n else more

-- A number has fewer digits than its value and one.
unfoldable pub decimal : ℕ → String
unfolding decimal_from
decimal n = decimal_from n n

-- The slice `results`, by index, and the channel `errCh`.
pub record Items : Type 0 where
  pub results : ℕ → Option Any
  pub errors : List Error

abbrev pub indexed : ℕ → List Any → List (ℕ × Any)
indexed i [] = []
indexed i (a ∷ as') = (i, a) ∷ indexed (suc i) as'

-- `results[i]` for all i below a length; what was not set is nil, which JSON writes as null.
abbrev pub or_nil : Option Any → Any
or_nil none = value null
or_nil (some a) = a

abbrev pub read_results : (ℕ → Option Any) → ℕ → List Any → List Any
read_results results i [] = []
read_results results i (a ∷ as') = or_nil (results i) ∷ read_results results (suc i) as'

abbrev pub set_result : (ℕ → Option Any) → ℕ → Any → ℕ → Option Any
set_result results i a j = if i == j then some a else results j

abbrev pub record_item : ℕ → Result Any → Items → Items
record_item i (ok a) m = record m { results = set_result m.results i a }
record_item i (err x) m = record m {
  errors = m.errors ++ wrapf (append "map[" (append (decimal i) "] failed: ")) x ∷ [];
}

-- How many goroutines may run at once: the capacity of `sem`.
unfoldable pub concurrency : (max_concurrency items : ℕ) → ℕ
concurrency max_concurrency items =
    if ltb 0 max_concurrency && ltb max_concurrency items then max_concurrency else items

module _ (w : World) (sch : Scheduler) (e : Engine) (run_id : ℕ) (workflow : String)
    (step : StepInfo) (input : RawMessage) where
  abbrev pub item_id : ℕ → String
  item_id i = append step.id (append "[" (append (decimal i) "]"))

  -- One goroutine: the item's context shares the map `state`.
  abbrev pub run_item : FanOutHandler → ℕ × Any → Items → Step Items
  run_item handler (i, a) m = do
    event ← db get_event
    r ← get_run
    let c : Context = record (context_of w e run_id workflow step input "" (ℤ.pos 0) r) {
      step_id = item_id i;
    }
    set_output (item_id i) (handler.map_func a i c event).0
    λ r'. (ok (record_item i (handler.map_func a i c event).1 m), r')

  unfoldable pub run_items : FanOutHandler → List (ℕ × Any) → Items → Step Items
  run_items handler [] m r = (ok m, r)
  run_items handler (x ∷ xs) m r =
      let (m', r') = run_item handler x m r in continue m' (λ n. run_items handler xs n) r'

  -- After `wg.Wait()`: the first error of the channel, or the results in the order of the items.
  unfoldable pub finish_fan_out : Time → List Any → Items → Step (Unit {0})
  finish_fan_out now items m = elim m.errors [
    | x ∷ xs ↦ (mark_failed w e run_id workflow step input now x >> fail_with x)
    | [] ↦
        store_output w e run_id workflow step input now "marshal fan-out output: "
          (marshal_list (read_results m.results 0 items))
  ]

  unfoldable pub fan_out_items : FanOutHandler → Time → Result (List Any) → Step (Unit {0})
  unfolding run_items finish_fan_out
  fan_out_items handler now (err x) = do
    mark_failed w e run_id workflow step input now x
    fail_with (quoted_error "fan-out items func failed for step " step.id ": " x)
  fan_out_items handler now (ok items) = do
    event ← db get_event
    m ←
        run_items handler (sch.item_order event (indexed 0 items))
          (record { results = λ _. none; errors = [] })
    finish_fan_out now items m

  unfoldable pub execute_fan_out_step : Step (Unit {0})
  unfolding fan_out_items
  execute_fan_out_step r = elim (e.fan_out_handlers workflow step.id) [
    | none ↦ fail_with (message (append "fan-out handler not found for step: " step.id)) r
    | some handler ↦
        (do
          now ← db (time_now w)
          set_step_state step.id (started_state 1 now)
          items ← call w e run_id workflow step input "" (ℤ.pos 0) handler.items_func
          fan_out_items handler now items)
          r
  ]
