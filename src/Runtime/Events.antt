-- ===== src/Runtime/Events.antt =====
-- crates/booth-bin/src/lib.rs: `handle_event`. The time stamps are not modelled, and a transition's
-- cause is the event itself in place of its debug text.
use telephone_booth.Base.{
  ℕ, Bool, true, false, not, ◌&&◌, String, Option, none, some, List, [], ◌∷◌, ◌++◌, ◌==◌, leb,
  if◌then◌else◌,
}
use telephone_booth.Core.Types.{
  State, calls_paused, idle, dial_tone, dialing, ringing_question, playing_question, beep,
  recording, finishing_timed_out_recording, finishing_recording, uploading, uploading_timed_out,
  recording_ended_beep, playing_message, playing_instructions, call_unavailable, error, Event,
  digit_dialed, tick, Effect,
}
use telephone_booth.Core.Handle.{handle_with_call_availability}

-- `State::tag`.
unfoldable pub tag : State → String
tag idle = "idle"
tag (calls_paused on_hook) = "calls_paused"
tag dial_tone = "dial_tone"
tag (dialing pulses) = "dialing"
tag (ringing_question q) = "ringing_question"
tag (playing_question q) = "playing_question"
tag (beep q) = "beep"
tag (recording q) = "recording"
tag (finishing_recording q on_hook) = "finishing_recording"
tag (finishing_timed_out_recording q on_hook) = "finishing_timeout_recording"
tag (uploading r q on_hook) = "uploading"
tag (uploading_timed_out r q beep_pending) = "uploading_timeout"
tag recording_ended_beep = "recording_end_beep"
tag playing_message = "playing_message"
tag playing_instructions = "playing_instructions"
tag call_unavailable = "call_unavailable"
tag (error reason) = "error"

-- What the runtime publishes on the telemetry bus for an event.
pub data Published : Type 0 where
  -- from, to, cause
  state_transition : String → String → Event → Published
  -- digit, pulses
  digit_published : ℕ → ℕ → Published
  -- source, message
  error_published : String → String → Published

unfoldable pub dialed_digit_for_telemetry : State → Event → Option (ℕ × ℕ)
dialed_digit_for_telemetry (dialing pulses) tick =
    if leb 1 pulses && leb pulses 10
    then some (if pulses == 10 then 0 else pulses, pulses)
    else none
dialed_digit_for_telemetry (dialing pulses) (digit_dialed digit) =
    if leb digit 9 then some (digit, if digit == 0 then 10 else digit) else none
dialed_digit_for_telemetry dial_tone (digit_dialed digit) =
    if leb digit 9 then some (digit, if digit == 0 then 10 else digit) else none
dialed_digit_for_telemetry (calls_paused false) (digit_dialed digit) =
    if leb digit 9 then some (digit, if digit == 0 then 10 else digit) else none
dialed_digit_for_telemetry _ _ = none

unfoldable pub published_digit : Bool → State → Event → Option (ℕ × ℕ)
published_digit true s e = dialed_digit_for_telemetry s e
published_digit false s e = none

abbrev pub is_paused : State → Bool
is_paused (calls_paused on_hook) = true
is_paused _ = false

abbrev pub is_idle_or_paused : State → Bool
is_idle_or_paused idle = true
is_idle_or_paused s = is_paused s

abbrev pub digit_event : Option (ℕ × ℕ) → List Published
digit_event none = []
digit_event (some (digit, pulses)) = digit_published digit pulses ∷ []

-- A digit that resumes a call is published after the transition, any other before it.
unfoldable pub publish : State → Event → State → Option (ℕ × ℕ) → List Published
unfolding tag
publish from e to digit =
    let transition = state_transition (tag from) (tag to) e in
    if is_paused from && not (is_idle_or_paused to)
    then transition ∷ digit_event digit
    else digit_event digit ++ transition ∷ []

-- The next state, the effects sent to the dispatcher, and what is published, in order. The channel to
-- the dispatcher is open.
unfoldable pub handle_event : Bool → State → Event → (State × List Effect) × List Published
unfolding published_digit publish
handle_event accepting_calls from e =
    let (to, effects) = handle_with_call_availability from e accepting_calls in
    ((to, effects), publish from e to (published_digit accepting_calls from e))
