-- ===== src/Runtime/Published.antt =====
-- crates/booth-bin/src/lib.rs, `run_with_hal`: what the main loop publishes and how it pauses.
use telephone_booth.Base.{
  Bool, true, false, not, ◌&&◌, ◌||◌, List, [], ◌∷◌, ◌++◌, ◌≡◌, refl, ap₂, sym, subst, append-nil,
  ◌∙◌, if◌then◌else◌, arith, if_cases,
}
use telephone_booth.Core.Types.{Event, tick, hook_off}
use telephone_booth.Core.Paused.{is_resting, step_resting, step_settles}
use telephone_booth.Runtime.Events.{handle_event}
use telephone_booth.Runtime.Digits.{
  connecting, dialed, is_started, handle_event-connecting, handle_event-started, connecting-append,
  dialed-append,
}
use telephone_booth.Runtime.Loop.{
  needs_tick, same, LoopInput, installation_changed, event_received, inject_event, snapshot,
  shutdown, Runtime, first_runtime, handled, start_runtime, loop_step, run_loop,
}

-- The connections asked for so far are those of the digits published so far.
record IsTold (w : Runtime) : Type 0 where
  started : is_started w.state ≡ true
  told : connecting w.effects ≡ dialed w.published

handled-IsTold :
    (accepting_calls : Bool) (e : Event) (w : Runtime)
    → IsTold w
    → IsTold (handled accepting_calls e w)
unfolding handled
handled-IsTold acc e w h =
    let ((next, effects), published) = handle_event acc w.state e in
    record {
      started = handle_event-started acc w.state e h.started;
      told =
          connecting-append w.effects effects
          ∙ ap₂ (λ xs ys. xs ++ ys) h.told (handle_event-connecting acc w.state e h.started)
          ∙ sym (dialed-append w.published published);
    }

start-IsTold :
    (accepting_calls initial_hook_on again : Bool)
    → IsTold (start_runtime accepting_calls initial_hook_on again)
unfolding start_runtime
start-IsTold false hook again = record { started = refl; told = refl }
start-IsTold true true again = record { started = refl; told = refl }
start-IsTold true false again =
    handled-IsTold again hook_off (first_runtime true false)
      (record { started = refl; told = refl })

loop_step-IsTold :
    (allow_controls : Bool) (i : LoopInput) (w : Runtime)
    → IsTold w
    → IsTold (loop_step allow_controls i w)
unfolding loop_step
loop_step-IsTold allow (installation_changed available again) w h =
    if_cases IsTold (needs_tick available w)
      (handled again tick (record w { accepting_calls = available })) w
      (handled-IsTold again tick (record w { accepting_calls = available })
        (record { started = h.started; told = h.told }))
      h
loop_step-IsTold allow (event_received e acc) w h = handled-IsTold acc e w h
loop_step-IsTold true (inject_event e acc) w h = handled-IsTold acc e w h
loop_step-IsTold false (inject_event e acc) w h = record {
  started = h.started;
  told = h.told ∙ sym (dialed-append w.published _ ∙ append-nil (dialed w.published));
}
loop_step-IsTold allow snapshot w h = h
loop_step-IsTold allow shutdown w h = record { started = h.started; told = h.told }

run_loop-IsTold :
    (allow_controls : Bool) (is : List LoopInput) (w : Runtime)
    → IsTold w
    → IsTold (run_loop allow_controls is w)
unfolding run_loop
run_loop-IsTold allow [] w h = h
run_loop-IsTold allow (i ∷ is) w h =
    if_cases IsTold w.running (run_loop allow is (loop_step allow i w)) w
      (run_loop-IsTold allow is (loop_step allow i w) (loop_step-IsTold allow i w h)) h

-- From the start of the program on, however events, commands and changes of the gate come: the
-- fetches and recorded refusals that the machine asked for are, in order, those of the digits that
-- were published.
pub run_loop-connecting :
    (allow_controls accepting_calls initial_hook_on again : Bool) (is : List LoopInput)
    → let w = run_loop allow_controls is (start_runtime accepting_calls initial_hook_on again) in
      connecting w.effects ≡ dialed w.published
run_loop-connecting allow acc hook again is =
    (run_loop-IsTold allow is (start_runtime acc hook again) (start-IsTold acc hook again)).told

-- Does the gate answer no in each turn?
abbrev refuses : LoopInput → Bool
refuses (installation_changed available again) = not available && not again
refuses (event_received e accepting_calls) = not accepting_calls
refuses (inject_event e accepting_calls) = not accepting_calls
refuses _ = true

abbrev pub all_refused : List LoopInput → Bool
all_refused [] = true
all_refused (i ∷ is) = refuses i && all_refused is

handled-resting :
    (e : Event) (w : Runtime)
    → is_resting w.state ≡ true
    → is_resting (handled false e w).state ≡ true
unfolding handled handle_event
handled-resting e w h = step_resting w.state e h

loop_step-resting :
    (allow_controls : Bool) (i : LoopInput) (w : Runtime)
    → refuses i ≡ true
    → is_resting w.state ≡ true
    → is_resting (loop_step allow_controls i w).state ≡ true
unfolding loop_step
loop_step-resting allow (installation_changed false false) w refused h =
    if_cases (λ w. is_resting w.state ≡ true) (needs_tick false w)
      (handled false tick (record w { accepting_calls = false })) w
      (handled-resting tick (record w { accepting_calls = false }) h) h
loop_step-resting allow (event_received e false) w refused h = handled-resting e w h
loop_step-resting true (inject_event e false) w refused h = handled-resting e w h
loop_step-resting false (inject_event e acc) w refused h = h
loop_step-resting allow snapshot w refused h = h
loop_step-resting allow shutdown w refused h = h
loop_step-resting allow _ w refused h = cc

run_loop-resting :
    (allow_controls : Bool) (is : List LoopInput) (w : Runtime)
    → all_refused is ≡ true
    → is_resting w.state ≡ true
    → is_resting (run_loop allow_controls is w).state ≡ true
unfolding run_loop
run_loop-resting allow [] w refused h = h
run_loop-resting allow (i ∷ is) w refused h =
    if_cases (λ w. is_resting w.state ≡ true) w.running (run_loop allow is (loop_step allow i w)) w
      (run_loop-resting allow is (loop_step allow i w) (ground arith)
        (loop_step-resting allow i w (ground arith) h))
      h

loop_step-closes :
    (allow_controls : Bool) (w : Runtime)
    → w.accepting_calls ≡ true
    → is_resting (loop_step allow_controls (installation_changed false false) w).state ≡ true
unfolding loop_step handled handle_event
loop_step-closes allow w accepted =
    subst
      (λ c.
        is_resting
          (if c then handled false tick (record w { accepting_calls = false }) else w).state
        ≡ true)
      (sym (changes w.accepting_calls accepted)) (step_settles w.state tick refl)
  where
    changes : (b : Bool) → b ≡ true → (not (same false b) || false) ≡ true
    changes true e = refl
    changes false e = cc

-- When the running loop, for which the gate was open, is told that it has closed, it leaves every call that is not recording,
-- finalizing or uploading, and for as long as the gate stays closed the booth is paused or busy with
-- an answer in flight, whatever comes.
pub run_loop-pauses :
    (allow_controls : Bool) (is : List LoopInput) (w : Runtime)
    → w.running ≡ true
    → w.accepting_calls ≡ true
    → all_refused is ≡ true
    → is_resting (run_loop allow_controls (installation_changed false false ∷ is) w).state ≡ true
unfolding run_loop
run_loop-pauses allow is w running accepted refused =
    subst
      (λ c.
        is_resting
          (if c
            then run_loop allow is (loop_step allow (installation_changed false false) w)
            else w).state
        ≡ true)
      (sym running)
      (run_loop-resting allow is (loop_step allow (installation_changed false false) w) refused
        (loop_step-closes allow w accepted))
