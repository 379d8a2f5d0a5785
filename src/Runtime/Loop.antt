-- ===== src/Runtime/Loop.antt =====
-- crates/booth-bin/src/lib.rs: the start and the main loop of `run_with_hal`. A turn of the loop takes
-- one input; what the gate answers when an event is handled is part of it. The watchdog's turns change
-- nothing here.
use telephone_booth.Base.{Bool, true, false, not, ◌&&◌, ◌||◌, List, [], ◌∷◌, ◌++◌, if◌then◌else◌}
use telephone_booth.Core.Types.{State, calls_paused, idle, Event, tick, hook_off, Effect}
use telephone_booth.Runtime.Events.{Published, error_published, handle_event}

pub data LoopInput : Type 0 where
  -- the gate's state changed: what it answers to the loop and then to the handler
  installation_changed : Bool → Bool → LoopInput
  -- an event and what the gate answers to the handler
  event_received : Event → Bool → LoopInput
  inject_event : Event → Bool → LoopInput
  snapshot : LoopInput
  -- the command, a closed channel, or the signal
  shutdown : LoopInput

pub record Runtime : Type 0 where
  pub state : State
  -- the loop's variable
  pub accepting_calls : Bool
  pub running : Bool
  pub effects : List Effect
  pub published : List Published

unfoldable pub handled : Bool → Event → Runtime → Runtime
unfolding handle_event
handled accepting_calls e w =
    let ((next, effects), published) = handle_event accepting_calls w.state e in
    record w { state = next; effects = w.effects ++ effects; published = w.published ++ published }

abbrev is_paused : State → Bool
is_paused (calls_paused on_hook) = true
is_paused _ = false

abbrev pub first_runtime : Bool → Bool → Runtime
first_runtime accepting_calls initial_hook_on = record {
  state = if accepting_calls then idle else calls_paused initial_hook_on;
  accepting_calls = accepting_calls;
  running = true;
  effects = [];
  published = [];
}

-- Before the loop: the gate's first answer, the handset, and the gate's answer to the first event.
unfoldable pub start_runtime : Bool → Bool → Bool → Runtime
unfolding handled
start_runtime accepting_calls initial_hook_on again =
    let w = first_runtime accepting_calls initial_hook_on in
    if accepting_calls && not initial_hook_on then handled again hook_off w else w

abbrev pub same : Bool → Bool → Bool
same true b = b
same false b = not b

abbrev pub needs_tick : Bool → Runtime → Bool
needs_tick available w = not (same available w.accepting_calls) || available && is_paused w.state

-- `allow_controls` is of the configuration.
unfoldable pub loop_step : Bool → LoopInput → Runtime → Runtime
unfolding handled
loop_step allow_controls (installation_changed available again) w =
    if needs_tick available w
    then handled again tick (record w { accepting_calls = available })
    else w
loop_step allow_controls (event_received e accepting_calls) w = handled accepting_calls e w
loop_step allow_controls (inject_event e accepting_calls) w =
    if allow_controls then handled accepting_calls e w else record w {
      published =
          w.published ++ error_published "booth_bin::debug" "debug controls are disabled" ∷ [];
    }
loop_step allow_controls snapshot w = w
loop_step allow_controls shutdown w = record w { running = false }

-- The loop ends with the first input that stops it.
unfoldable pub run_loop : Bool → List LoopInput → Runtime → Runtime
unfolding loop_step
run_loop allow_controls [] w = w
run_loop allow_controls (i ∷ is) w =
    let next = run_loop allow_controls is (loop_step allow_controls i w) in
    if w.running then next else w
