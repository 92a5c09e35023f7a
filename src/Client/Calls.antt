-- ===== src/Client/Calls.antt =====
-- What a program may call on a client, in which order: Start, Shutdown and Close of client.go
-- against a machine of three phases.
use mathlib.Core.List.{append_assoc}
use rivo.Prelude.{
  Bool, true, false, Option, none, some, List, [], ◌∷◌, ◌++◌, ◌≡◌, refl, arith, String, ap, ◌∙◌,
}
use rivo.Base.{Error, Result, ok, err}
use rivo.Store.{World, Store}
use rivo.Client.Lifecycle.{Config, Client, new_client}
use rivo.Client.Running.{returns, panics, start, shutdown, close, finish_shutdown}
use rivo.Client.Running.{Outcome}

-- The calls, with what ends the wait for the parts: none if they stop in time.
pub data Call : Type 0 where
  call_start : Call
  call_shutdown call_close : (late : Option Error) → Call

abbrev pub is_stop : Call → Bool
is_stop call_start = false
is_stop _ = true

-- The client after a call, or none after a panic.
abbrev pub survivor : Outcome × Client × Store → Option (Client × Store)
survivor (panics t, c, s) = none
survivor (returns r, c, s) = some (c, s)

abbrev pub carry_on :
    Option (Client × Store) → (Client → Store → Option (Client × Store)) → Option (Client × Store)
carry_on none k = none
carry_on (some (c, s)) k = k c s

module _ (w : World) where
  abbrev pub run_call : Call → Client → Store → Outcome × Client × Store
  run_call call_start c s = start w c s
  run_call (call_shutdown late) c s = shutdown w c late s
  run_call (call_close late) c s = close w c late s

  unfoldable pub run_calls : List Call → Client → Store → Option (Client × Store)
  unfolding start shutdown close finish_shutdown
  run_calls [] c s = some (c, s)
  run_calls (k ∷ ks) c s = carry_on (survivor (run_call k c s)) (λ c' s'. run_calls ks c' s')

-- The machine: a client that is new, that runs, or that is shut down.
pub data Phase : Type 0 where
  idle up down : Phase

-- The next phase, or none where the program crashes.
abbrev pub after_call : Bool → Phase → Option Phase
after_call false idle = some up
after_call false up = some up
after_call false down = some down
after_call true idle = some idle
after_call true up = some down
after_call true down = none

abbrev pub proceed : Option Phase → (Phase → Option Phase) → Option Phase
proceed none f = none
proceed (some p) f = f p

unfoldable pub follow : List Call → Phase → Option Phase
follow [] p = some p
follow (k ∷ ks) p = proceed (after_call (is_stop k) p) (follow ks)

abbrev pub phase_at : (started closed : Bool) → Phase
phase_at false closed = idle
phase_at true false = up
phase_at true true = down

abbrev pub phase : Client → Phase
phase c = phase_at c.started c.shutdown_closed

abbrev pub phase_after : Option (Client × Store) → Option Phase
phase_after none = none
phase_after (some (c, s)) = some (phase c)

phase_after-none : (o : Option (Client × Store)) → phase_after o ≡ none → o ≡ none
phase_after-none none e = refl
phase_after-none (some x) e = cc

-- Only a client that was started is shut down.
abbrev pub IsLived : Client → Type 0
IsLived c = c.shutdown_closed ≡ true → c.started ≡ true

abbrev pub AllLived : Option (Client × Store) → Type 0
AllLived none = Unit
AllLived (some (c, s)) = IsLived c

module _ (w : World) where
  -- One call takes the client to the phase that the machine gives.
  run_call-after_call :
      (k : Call) (c : Client) (s : Store)
      → IsLived c
      → phase_after (survivor (run_call w k c s)) ≡ after_call (is_stop k) (phase c)
  unfolding start shutdown close finish_shutdown
  run_call-after_call call_start c s lived = ground arith
  run_call-after_call (call_shutdown late) c s lived = ground arith
  run_call-after_call (call_close late) c s lived = ground arith

  run_call-IsLived :
      (k : Call) (c : Client) (s : Store) → IsLived c → AllLived (survivor (run_call w k c s))
  unfolding start shutdown close finish_shutdown
  run_call-IsLived call_start c s lived = ground arith
  run_call-IsLived (call_shutdown late) c s lived = ground arith
  run_call-IsLived (call_close late) c s lived = ground arith

  -- The calls that follow, if the first one leads from `o` to the phase `next`.
  rest-follow :
      (ks : List Call) (o : Option (Client × Store)) (next : Option Phase)
      → phase_after o ≡ next
      → AllLived o
      → ((c : Client) (s : Store)
          → IsLived c
          → phase_after (run_calls w ks c s) ≡ follow ks (phase c))
      → phase_after (carry_on o (run_calls w ks)) ≡ proceed next (follow ks)
  rest-follow ks none next e lived ih = rw (← e) refl
  rest-follow ks (some (c, s)) next e lived ih = rw (← e) (ih c s lived)

  run_calls-follow :
      (ks : List Call) (c : Client) (s : Store)
      → IsLived c
      → phase_after (run_calls w ks c s) ≡ follow ks (phase c)
  unfolding run_calls follow
  run_calls-follow [] c s lived = refl
  run_calls-follow (k ∷ ks) c s lived =
      rest-follow ks (survivor (run_call w k c s)) (after_call (is_stop k) (phase c))
        (run_call-after_call k c s lived) (run_call-IsLived k c s lived) (run_calls-follow ks)

-- NewClient returns a client that is not started.
new_client-idle :
    (c : Config) (worker_id : String) (connected migrated : Result (Unit {0})) {client : Client}
    → new_client c worker_id connected migrated ≡ ok client
    → (phase client ≡ idle) × IsLived client
unfolding new_client
new_client-idle c worker_id (err e) migrated made = ground arith
new_client-idle c worker_id (ok _) (err e) made = ground arith
new_client-idle c worker_id (ok _) (ok _) made = ground arith

-- A client that is shut down stays so, and the next Shutdown or Close crashes.
follow-down :
    (ks : List Call) (k : Call) (post : List Call)
    → is_stop k ≡ true
    → follow (ks ++ k ∷ post) down ≡ none
unfolding follow
follow-down [] k post stop = ground arith
follow-down (call_start ∷ ks) k post stop = follow-down ks k post stop
follow-down (call_shutdown late ∷ ks) k post stop = refl
follow-down (call_close late ∷ ks) k post stop = refl

follow-up :
    (ks : List Call) (k : Call) (ks' : List Call) (k' : Call) (post : List Call)
    → is_stop k ≡ true
    → is_stop k' ≡ true
    → follow (ks ++ k ∷ (ks' ++ k' ∷ post)) up ≡ none
unfolding follow
follow-up [] k ks' k' post stop stop' = rw stop (follow-down ks' k' post stop')
follow-up (call_start ∷ ks) k ks' k' post stop stop' = follow-up ks k ks' k' post stop stop'
follow-up (call_shutdown late ∷ ks) k ks' k' post stop stop' =
    rw (← append_assoc ks (k ∷ ks') (k' ∷ post)) (follow-down (ks ++ k ∷ ks') k' post stop')
follow-up (call_close late ∷ ks) k ks' k' post stop stop' =
    rw (← append_assoc ks (k ∷ ks') (k' ∷ post)) (follow-down (ks ++ k ∷ ks') k' post stop')

module _ (w : World) (c : Config) (worker_id : String)
    (connected migrated : Result (Unit {0})) where
  -- The calls Start, Shutdown and Close, in any order and with any outcome of their waits, take
  -- the client that NewClient returns through the phases of the machine `follow`: none of them
  -- panics unless the machine crashes, and otherwise the client is in the phase that the machine
  -- gives. The database may fail at any statement.
  pub new_client-follow :
      (ks : List Call) (s : Store) {client : Client}
      → new_client c worker_id connected migrated ≡ ok client
      → phase_after (run_calls w ks client s) ≡ follow ks idle
  new_client-follow ks s {client} made =
      let (unstarted, lived) = new_client-idle c worker_id connected migrated made in
      run_calls-follow w ks client s lived ∙ ap (follow ks) unstarted

  -- A program crashes if it stops a client twice: once its first call on a new client is Start,
  -- two calls of Shutdown or Close end in a panic, with any calls before, between and after them.
  pub stop_twice_panics :
      (ks : List Call) (k : Call) (ks' : List Call) (k' : Call) (post : List Call) (s : Store)
      {client : Client}
      → new_client c worker_id connected migrated ≡ ok client
      → is_stop k ≡ true
      → is_stop k' ≡ true
      → run_calls w (call_start ∷ (ks ++ k ∷ (ks' ++ k' ∷ post))) client s ≡ none
  unfolding follow
  stop_twice_panics ks k ks' k' post s made stop stop' = phase_after-none (run_calls w _ _ s) (
      new_client-follow (call_start ∷ (ks ++ k ∷ (ks' ++ k' ∷ post))) s made
      ∙ follow-up ks k ks' k' post stop stop')
