-- ===== src/Core/Paused.antt =====
-- crates/booth-core/src/lib.rs: what happens while no calls are accepted.
use telephone_booth.Base.{Bool, true, false, ◌||◌, ◌≡◌, List, [], ◌∷◌, arith, All, All-append}
use telephone_booth.Core.Types.{
  State, calls_paused, recording, Event, upload_finished, power_button_pressed, power_button_held,
  Effect, play, start_recording, arm_recording_timeout, fetch_random_question, fetch_random_message,
  fetch_instructions, put_status, arm_pulse_timeout,
}
use telephone_booth.Core.Cases.{with_led_cases, upload_finished_cases}
use telephone_booth.Core.Handle.{
  is_protected, outcome_event, admit, handle_available, handle_with_call_availability, run,
}

-- Nothing is played, fetched, announced, recorded or timed anew.
abbrev pub IsQuiet : Effect → Type 0
IsQuiet (play source) = ⊥
IsQuiet start_recording = ⊥
IsQuiet arm_recording_timeout = ⊥
IsQuiet fetch_random_question = ⊥
IsQuiet fetch_random_message = ⊥
IsQuiet fetch_instructions = ⊥
IsQuiet (put_status status) = ⊥
IsQuiet arm_pulse_timeout = ⊥
IsQuiet _ = Unit {0}

abbrev pub is_paused : State → Bool
is_paused (calls_paused on_hook) = true
is_paused _ = false

-- Paused, or busy with an answer in flight.
abbrev pub is_resting : State → Bool
is_resting s = is_paused s || is_protected s

admit-IsQuiet : (s : State) (e : Event) → All IsQuiet (admit s e false).1
unfolding admit
admit-IsQuiet (recording q) e = ground arith
admit-IsQuiet _ e = ground arith

-- While calls are paused no step, in any state and on any event, plays a sound, fetches from the
-- operator, writes a status, starts a recording or arms a timer.
pub paused-IsQuiet :
    (s : State) (e : Event) → All IsQuiet (handle_with_call_availability s e false).1
unfolding handle_with_call_availability handle_available
paused-IsQuiet s (upload_finished r outcome) =
    with_led_cases (λ t. All IsQuiet t.1) s (handle_available s (upload_finished r outcome) false)
      available (λ c p. (tt, available))
  where
    available : All IsQuiet (handle_available s (upload_finished r outcome) false).1
    available =
        upload_finished_cases (λ t. All IsQuiet t.1) s r outcome false tt
          (admit-IsQuiet s (outcome_event outcome))
paused-IsQuiet s e =
    with_led_cases (λ t. All IsQuiet t.1) s (admit s e false) (admit-IsQuiet s e)
      (λ c p. (tt, admit-IsQuiet s e))

admit_resting :
    (s : State) (e : Event) → is_resting s ≡ true → is_resting (admit s e false).0 ≡ true
unfolding admit is_protected
admit_resting (recording q) e h = ground arith
admit_resting _ e h = ground arith

pub step_resting :
    (s : State) (e : Event)
    → is_resting s ≡ true
    → is_resting (handle_with_call_availability s e false).0 ≡ true
unfolding handle_with_call_availability handle_available
step_resting s (upload_finished r outcome) h =
    with_led_cases (λ t. is_resting t.0 ≡ true) s
      (handle_available s (upload_finished r outcome) false) available (λ c p. available)
  where
    available : is_resting (handle_available s (upload_finished r outcome) false).0 ≡ true
    available =
        upload_finished_cases (λ t. is_resting t.0 ≡ true) s r outcome false h
          (admit_resting s (outcome_event outcome) h)
step_resting s e h =
    with_led_cases (λ t. is_resting t.0 ≡ true) s (admit s e false) (admit_resting s e h)
      (λ c p. admit_resting s e h)

-- Events that a pause acts on: the power button is served in every state, and a stale upload result
-- is dropped.
abbrev pub is_gated : Event → Bool
is_gated power_button_pressed = false
is_gated power_button_held = false
is_gated (upload_finished r outcome) = false
is_gated _ = true

admit_settles : (s : State) (e : Event) → is_gated e ≡ true → is_resting (admit s e false).0 ≡ true
unfolding admit is_protected
admit_settles (recording q) e h = ground arith
admit_settles _ e h = ground arith

pub step_settles :
    (s : State) (e : Event)
    → is_gated e ≡ true
    → is_resting (handle_with_call_availability s e false).0 ≡ true
unfolding handle_with_call_availability handle_available
step_settles s (upload_finished r outcome) h = cc
step_settles s e h =
    with_led_cases (λ t. is_resting t.0 ≡ true) s (admit s e false) (admit_settles s e h)
      (λ c p. admit_settles s e h)

-- The events of a history during which no calls are accepted.
abbrev pub paused : List Event → List (Event × Bool)
paused [] = []
paused (e ∷ es) = (e, false) ∷ paused es

run_resting :
    (s : State) (es : List Event) → is_resting s ≡ true → is_resting (run s (paused es)).0 ≡ true
unfolding run
run_resting s [] h = h
run_resting s (e ∷ es) h =
    run_resting (handle_with_call_availability s e false).0 es (step_resting s e h)

-- The first event of a pause that is neither the power button nor an upload result leaves every
-- call that is not recording, finalizing or uploading; from then on, whatever happens, the booth
-- stays paused or busy with an answer in flight.
run-paused-resting :
    (s : State) (e : Event) (es : List Event)
    → is_gated e ≡ true
    → is_resting (run s (paused (e ∷ es))).0 ≡ true
unfolding run
run-paused-resting s e es h =
    run_resting (handle_with_call_availability s e false).0 es (step_settles s e h)

-- Nothing at all is played, fetched, announced, recorded or armed over a whole pause.
run-paused-IsQuiet : (s : State) (es : List Event) → All IsQuiet (run s (paused es)).1
unfolding run
run-paused-IsQuiet s [] = tt
run-paused-IsQuiet s (e ∷ es) =
    let (next, effects) = handle_with_call_availability s e false in
    All-append IsQuiet effects (run next (paused es)).1 (paused-IsQuiet s e)
      (run-paused-IsQuiet next es)
