-- ===== src/Engine/FanOut/Mapped.antt =====
-- What a fan-out step promises: executeFanOutStep of internal/workflow/engine.go.
use mathlib.Core.List.{Permᴰ}
use rivo.Prelude.{
  ℕ, ◌≡◌, refl, ap, update, String, Option, none, some, List, [], ◌∷◌, ◌⊎◌, ◌∙◌, eq_refl, inl, inr,
}
use rivo.Prelude.Int.{pos}
use rivo.Base.{Error, wrapf, Result, ok, err, Json, RawMessage, Any, marshal_list}
use rivo.Store.{tick, Time, World}
use rivo.Engine.{
  StepInfo, Context, FanOutHandler, Engine, RunState, Scheduler, set_output, Step, ◌>>◌, continue,
}
use rivo.Engine.Steps.{call, started_state, store_output, context_of, completed_state, failed_state}
use rivo.Engine.FanOut.{
  Items, indexed, item_id, run_item, run_items, finish_fan_out, fan_out_items, execute_fan_out_step,
  record_item,
}
use rivo.Engine.FanOut.Order.{map_items, record_all, Agrees, record_all-Agrees}

abbrev pub Stored : (id : String) → Result Json → Result (Unit {0}) → RunState → Type 0
Stored id (ok j) result r =
    (result ≡ ok tt)
    × (r.state id ≡ some (some j))
    × ((begun : Time) × (finished : Time) × (r.step_states id
          ≡ some (completed_state 1 begun finished (some j))))
Stored id (err x) result r = result ≡ err (wrapf "marshal fan-out output: " x)

-- The end of a step whose map over the items, in their order, gives this.
abbrev pub Ended : (id : String) → Result (List Any) → Result (Unit {0}) → RunState → Type 0
Ended id (ok vs) result r = Stored id (marshal_list vs) result r
Ended id (err x) result r =
    (y : Error) × (result ≡ err y)
    × ((begun : Time) × (finished : Time) × (r.step_states id
          ≡ some (failed_state 1 begun finished y)))

List-cases {ℓ} : {A : Type ℓ} (xs : List A) → (xs ≡ []) ⊎ ((y : A) × (ys : List A) × (xs ≡ y ∷ ys))
List-cases [] = inl refl
List-cases (x ∷ xs) = inr (x, xs, refl)

-- Whatever a handler hands to SetOutput, it goes on.
set_output-ok {ℓ} :
    {A : Type ℓ} (id : String) (o : Option Json) (k : Step A) (r : RunState)
    → (r' : RunState) × ((set_output id o >> k) r ≡ k r')
set_output-ok id none k r = (_, refl)
set_output-ok id (some j) k r = (_, refl)

module _ (w : World) (sch : Scheduler) (e : Engine) (run_id : ℕ) (workflow : String)
    (step : StepInfo) (input : RawMessage) (handler : FanOutHandler) (g : Any → ℕ → Result Any)
    (answers : (a : Any) (i : ℕ) (c : Context) (event : ℕ)
      → (handler.map_func a i c event).1 ≡ g a i) where
  run_item-ok :
      (i : ℕ) (a : Any) (m : Items) (r : RunState)
      → (r' : RunState) × (run_item w sch e run_id workflow step input handler (i, a) m r
          ≡ (ok (record_item i (g a i) m), r'))
  run_item-ok i a m r =
      let c : Context = record (context_of w e run_id workflow step input "" (pos 0) r) {
        step_id = item_id w sch e run_id workflow step input i;
      } in
      let (out, result) = handler.map_func a i c r.store.event in
      let (r', same) =
        set_output-ok (item_id w sch e run_id workflow step input i) out
          (λ r'. (ok (record_item i result m), r')) (record r { store = tick r.store }) in
      (r', same ∙ ap (λ o. (ok (record_item i o m), r')) (answers a i c r.store.event))

  run_items-ok :
      (xs : List (ℕ × Any)) (m : Items) (r : RunState)
      → (r' : RunState) × (run_items w sch e run_id workflow step input handler xs m r
          ≡ (ok (record_all g xs m), r'))
  unfolding run_items record_all
  run_items-ok [] m r = (r, refl)
  run_items-ok ((i, a) ∷ xs) m r =
      let (r1, one) = run_item-ok i a m r in
      let (r2, rest) = run_items-ok xs (record_item i (g a i) m) r1 in
      (
        r2,
        ap (λ o. continue o.0 (λ n. run_items w sch e run_id workflow step input handler xs n) o.1)
              one
            ∙ rest,
      )

  store_output-Stored :
      (now : Time) (o : Result Json) (r : RunState)
      → let (result, r') =
          store_output w e run_id workflow step input now "marshal fan-out output: " o r in
        Stored step.id o result r'
  store_output-Stored now (err x) r = refl
  store_output-Stored now (ok j) r =
      rw (eq_refl step.id) (refl, refl, (now, w.clock r.store.event, refl))

  finish_fan_out-Ended :
      (now : Time) (items : List Any) (m : Items) (o : Result (List Any)) (r : RunState)
      → Agrees g items m o
      → let (result, r') = finish_fan_out w sch e run_id workflow step input now items m r in
        Ended step.id o result r'
  unfolding finish_fan_out
  finish_fan_out-Ended now items m (ok vs) r agrees =
      rw (agrees.0, agrees.1, finish_fan_out) (store_output-Stored now (marshal_list vs) r)
  finish_fan_out-Ended now items m (err x) r agrees = elim (List-cases m.errors) [
    | inl none_left ↦ absurd (agrees none_left)
    | inr (y, ys, some_left) ↦
        rw (some_left, finish_fan_out)
          (y, refl, (now, w.clock r.store.event, rw (eq_refl step.id) refl))
  ]

  fan_out_items-Ended :
      (now : Time) (items : List Any) (r : RunState)
      → Permᴰ (sch.item_order r.store.event (indexed 0 items)) (indexed 0 items)
      → let (result, r') =
          fan_out_items w sch e run_id workflow step input handler now (ok items) r in
        Ended step.id (map_items g 0 items) result r'
  unfolding fan_out_items
  fan_out_items-Ended now items r perm =
      let order = sch.item_order r.store.event (indexed 0 items) in
      let (r1, ran) =
        run_items-ok order (record { results = λ _. none; errors = [] })
          (record r { store = tick r.store }) in
      rw ran (
        finish_fan_out-Ended now items
          (record_all g order (record { results = λ _. none; errors = [] })) (map_items g 0 items)
          r1 (record_all-Agrees g order items perm))

  call-ok :
      (items : List Any) (r : RunState)
      → ((c : Context) (event : ℕ) → (handler.items_func c event).1 ≡ ok items)
      → (r' : RunState) × (call w e run_id workflow step input "" (pos 0) handler.items_func r
          ≡ (ok (ok items), r'))
  call-ok items r listed =
      let c = context_of w e run_id workflow step input "" (pos 0) r in
      let (out, result) = handler.items_func c r.store.event in
      let (r', same) =
        set_output-ok step.id out (λ r'. (ok result, r')) (record r { store = tick r.store }) in
      (r', same ∙ ap (λ o. (ok o, r')) (listed c r.store.event))

  -- If the items are `items` and the map function answers `g`, whatever the context and the event,
  -- and the scheduler runs every item once, in any order, then a fan-out step ends as the map of
  -- `g` over the items, one after the other, does: if one fails, the step fails with some error,
  -- which is recorded; if all succeed and JSON accepts the results, they are the output of the
  -- step, in the order of the items, and are recorded as completed; if JSON refuses them, the step
  -- returns that error.
  pub execute_fan_out_step-map_items :
      (items : List Any) (r : RunState)
      → ((event : ℕ) → Permᴰ (sch.item_order event (indexed 0 items)) (indexed 0 items))
      → ((c : Context) (event : ℕ) → (handler.items_func c event).1 ≡ ok items)
      → e.fan_out_handlers workflow step.id ≡ some handler
      → let (result, r') = execute_fan_out_step w sch e run_id workflow step input r in
        Ended step.id (map_items g 0 items) result r'
  unfolding execute_fan_out_step
  execute_fan_out_step-map_items items r perm listed found =
      let now = w.clock r.store.event in
      let (r1, listed_as) =
        call-ok items
          (record r {
            step_states = update r.step_states step.id (started_state 1 now);
            store = tick r.store;
          })
          listed in
      rw (found, listed_as, execute_fan_out_step)
        (fan_out_items-Ended now items r1 (perm r1.store.event))
