-- ===== src/Tests/FanOuts.antt =====
-- A fan-out step whose second item runs before the first one.
use mathlib.Core.List.{Permᴰ}
use rivo.Prelude.{ℕ, refl, none, some, List, [], ◌∷◌, empty}
use rivo.Prelude.Int.{pos}
use rivo.Base.{Result, ok, err, message, Any, value, unsupported, number, array, cons, nil}
use rivo.Engine.{FanOutHandler, Engine, Scheduler, fan_out, new_engine, register_fan_out}
use rivo.Engine.FanOut.{execute_fan_out_step}
use rivo.Engine.FanOut.Order.{map_items}
use rivo.Engine.FanOut.Mapped.{Ended, execute_fan_out_step-map_items}
use rivo.Tests.{quiet_world, in_order, step_named, fresh_run}

-- A number is put in a list; what JSON refuses fails.
abbrev in_list : Any → ℕ → Result Any
in_list (value j) i = ok (value (array (cons j nil)))
in_list (unsupported t) i = err (message t)

abbrev two_items : List Any
two_items = value (number (pos 3)) ∷ value (number (pos 5)) ∷ []

abbrev boxing : FanOutHandler
boxing = record {
  items_func = λ c n. (none, ok two_items);
  map_func = λ a i c n. (some (number (pos i)), in_list a i);
  max_concurrency = 1;
}

abbrev with_boxing : Engine
with_boxing = register_fan_out (new_engine "app") "orders" "pack" boxing

abbrev swapped : List (ℕ × Any) → List (ℕ × Any)
swapped (a ∷ b ∷ xs) = b ∷ a ∷ xs
swapped xs = xs

abbrev last_first : Scheduler
last_first = record in_order { item_order = λ event xs. swapped xs }

execute_fan_out_step-map_items_example :
    let (result, r') =
      execute_fan_out_step quiet_world last_first with_boxing 7 "orders"
        (step_named "pack" fan_out)
        none
        (fresh_run empty) in
    Ended "pack" (map_items in_list 0 two_items) result r'
unfolding register_fan_out
execute_fan_out_step-map_items_example =
    execute_fan_out_step-map_items quiet_world last_first with_boxing 7 "orders"
      (step_named "pack" fan_out) none boxing in_list (λ a i c n. refl) two_items (fresh_run empty)
      (λ event. Permᴰ.swap refl refl) (λ c n. refl) refl
