-- ===== src/Core/Handle.antt =====
-- crates/booth-core/src/lib.rs: `handle`, `handle_with_call_availability` and `handle_available`.
use telephone_booth.Base.{
  Bool, true, false, not, ◌||◌, List, [], ◌∷◌, ◌++◌, str_eq, if◌then◌else◌, retain,
}
use telephone_booth.Hal.{RecordingId, BoothStatus}
use telephone_booth.Core.Types.{
  State, calls_paused, idle, recording, finishing_timed_out_recording, finishing_recording,
  uploading, uploading_timed_out, Event, upload_finished, hook_on, hook_off, rotary_pulse,
  digit_dialed, upload_complete, upload_deferred, upload_failed, power_button_pressed,
  power_button_held, UploadOutcome, complete, deferred, failed, Effect, play, stop_audio,
  put_status, cancel_pulse_timeout, set_status_led,
}
use telephone_booth.Core.Led.{status_led_for, led_eq}
use telephone_booth.Core.Decode.{Transition}
use telephone_booth.Core.Inner.{handle_inner}

-- Is `r` the upload that the state waits for?
unfoldable pub is_current_upload : State → RecordingId → Bool
is_current_upload (uploading current q on_hook) r = str_eq current r
is_current_upload (uploading_timed_out current q beep_pending) r = str_eq current r
is_current_upload _ r = false

unfoldable pub outcome_event : UploadOutcome → Event
outcome_event complete = upload_complete
outcome_event deferred = upload_deferred
outcome_event (failed reason) = upload_failed reason

-- The handset position that a state remembers.
abbrev pub remembered_hook : State → Bool
remembered_hook idle = true
remembered_hook (calls_paused on_hook) = on_hook
remembered_hook (finishing_recording q on_hook) = on_hook
remembered_hook (finishing_timed_out_recording q on_hook) = on_hook
remembered_hook (uploading r q on_hook) = on_hook
remembered_hook _ = false

unfoldable pub hook_after : State → Event → Bool
hook_after s hook_on = true
hook_after s hook_off = false
hook_after s _ = remembered_hook s

-- `RotaryPulse | DigitDialed`, the events that are not lost when calls resume.
unfoldable pub is_dial_input : Event → Bool
is_dial_input rotary_pulse = true
is_dial_input (digit_dialed digit) = true
is_dial_input _ = false

unfoldable pub resumed : Bool → Transition
resumed true = (idle, put_status BoothStatus.idle ∷ [])
resumed false = handle_inner idle hook_off

-- Calls are accepted.
unfoldable pub accepting : State → Event → Bool → Transition
unfolding is_dial_input resumed handle_inner
accepting (calls_paused paused_on_hook) e on_hook =
    let (s, effects) = resumed on_hook in
    let (next, input_effects) = handle_inner s e in
    if is_dial_input e then (next, effects ++ input_effects) else (s, effects)
accepting s e on_hook = handle_inner s e

-- An answer that is being recorded, finalized or uploaded.
unfoldable pub is_protected : State → Bool
is_protected (recording q) = true
is_protected (finishing_recording q on_hook) = true
is_protected (finishing_timed_out_recording q on_hook) = true
is_protected (uploading r q on_hook) = true
is_protected (uploading_timed_out r q beep_pending) = true
is_protected _ = false

unfoldable pub is_beep_pending : State → Bool
is_beep_pending (uploading_timed_out r q beep_pending) = beep_pending
is_beep_pending _ = false

unfoldable pub clear_beep : State → State
clear_beep (uploading_timed_out r q beep_pending) = uploading_timed_out r q false
clear_beep s = s

abbrev pub silence : List Effect
silence = stop_audio ∷ cancel_pulse_timeout ∷ []

unfoldable pub suspend : State → Bool → Transition
suspend (calls_paused paused_on_hook) on_hook = (calls_paused on_hook, [])
suspend s on_hook = (calls_paused on_hook, silence)

-- `!matches!(effect, PutStatus(_) | Play(_))`.
unfoldable pub survives_pause : Effect → Bool
survives_pause (put_status status) = false
survives_pause (play source) = false
survives_pause _ = true

unfoldable pub carry_on : Bool → Bool → Transition → Transition
unfolding is_protected is_beep_pending clear_beep survives_pause
carry_on beep_stopped on_hook (next, effects) =
    let stop_timeout_beep = beep_stopped || is_beep_pending next in
    let kept = retain survives_pause effects in
    let effects' = if stop_timeout_beep then stop_audio ∷ kept else kept in
    if is_protected next
    then (clear_beep next, effects')
    else (calls_paused on_hook, effects' ++ silence)

-- No calls are accepted: only an answer in flight goes on, and without caller audio.
unfoldable pub pausing : State → Event → Bool → Transition
unfolding is_protected is_beep_pending clear_beep suspend carry_on handle_inner
pausing s e on_hook =
    if is_protected s
    then carry_on (is_beep_pending s) on_hook (handle_inner (clear_beep s) e)
    else suspend s on_hook

-- What follows once an upload's result is known to be the current one's.
unfoldable pub admit : State → Event → Bool → Transition
unfolding hook_after accepting pausing handle_inner
admit s power_button_pressed accepting_calls = handle_inner s power_button_pressed
admit s power_button_held accepting_calls = handle_inner s power_button_held
admit s e accepting_calls =
    if accepting_calls then accepting s e (hook_after s e) else pausing s e (hook_after s e)

unfoldable pub handle_available : State → Event → Bool → Transition
unfolding is_current_upload outcome_event admit
handle_available s (upload_finished r outcome) accepting_calls =
    if is_current_upload s r then admit s (outcome_event outcome) accepting_calls else (s, [])
handle_available s e accepting_calls = admit s e accepting_calls

-- The LED is set first, and only when its indication changes.
unfoldable pub with_led : State → Transition → Transition
unfolding status_led_for led_eq
with_led before (next, effects) =
    let (colour, pattern) = status_led_for next in
    if not (led_eq (status_led_for next) (status_led_for before))
    then (next, set_status_led colour pattern ∷ effects)
    else (next, effects)

unfoldable pub handle_with_call_availability : State → Event → Bool → Transition
unfolding handle_available with_led
handle_with_call_availability s e accepting_calls =
    with_led s (handle_available s e accepting_calls)

unfoldable pub handle : State → Event → Transition
handle s e = handle_with_call_availability s e true

-- Events with the admission decision of the moment, from a state, and all effects in order.
unfoldable pub run : State → List (Event × Bool) → Transition
run s [] = (s, [])
run s ((e, accepting_calls) ∷ es) =
    let (next, effects) = handle_with_call_availability s e accepting_calls in
    let (last, later) = run next es in (last, effects ++ later)
