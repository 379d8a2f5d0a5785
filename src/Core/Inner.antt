-- ===== src/Core/Inner.antt =====
-- crates/booth-core/src/lib.rs, `handle_inner`. The arms of its `match` stand in groups, in the
-- order of the source; a group gives `none` where no arm of it matches, and the next group is tried.
use Prim.Native.Nat.{min}
use telephone_booth.Base.{
  ℕ, ◌+◌, true, false, ◌<>◌, Option, none, some, [], ◌∷◌, ◌==◌, ltb, if◌then◌else◌,
}
use telephone_booth.Hal.{builtin, remote_url, BuiltinTone, BoothStatus}
use telephone_booth.Core.Types.{
  State, idle, dial_tone, dialing, ringing_question, playing_question, beep, recording,
  finishing_timed_out_recording, finishing_recording, uploading, uploading_timed_out,
  recording_ended_beep, playing_message, playing_instructions, call_unavailable, error, Event,
  hook_on, hook_off, rotary_pulse, digit_dialed, playback_ended, recording_timed_out,
  recording_finished, recording_failed, upload_complete, upload_deferred, upload_failed,
  question_ready, question_failed, message_ready, message_failed, instructions_ready,
  instructions_failed, tick, power_button_pressed, power_button_held, play, stop_audio,
  start_recording, arm_recording_timeout, cancel_recording_timeout, stop_recording,
  upload_recording, put_status, arm_pulse_timeout, cancel_pulse_timeout, log, reboot, power_off,
  max_pulses_per_digit,
}
use telephone_booth.Core.Decode.{Transition, decode_digit}

-- `pulses.saturating_add(1)` on a `u8`.
abbrev pub saturating_succ : ℕ → ℕ
saturating_succ pulses = min (pulses + 1) 255

-- The arms that end at the dial tone with these two effects.
abbrev pub to_dial_tone : Transition
to_dial_tone =
    (dial_tone, play (builtin BuiltinTone.dial_tone) ∷ put_status BoothStatus.dial_tone ∷ [])

-- The block on `HookOn` that stands before the `match`.
unfoldable pub hang_up : State → Transition
hang_up (recording q) = (
  finishing_recording q true,
  stop_audio
      ∷ cancel_recording_timeout
      ∷ stop_recording
      ∷ cancel_pulse_timeout
      ∷ put_status BoothStatus.uploading
      ∷ [],
)
hang_up (finishing_recording q on_hook) =
    (finishing_recording q true, stop_audio ∷ cancel_pulse_timeout ∷ [])
hang_up (finishing_timed_out_recording q on_hook) = (
  finishing_timed_out_recording q true,
  stop_audio ∷ cancel_recording_timeout ∷ cancel_pulse_timeout ∷ [],
)
hang_up _ = (
  idle,
  stop_audio ∷ cancel_pulse_timeout ∷ cancel_recording_timeout ∷ put_status BoothStatus.idle ∷ [],
)

-- A further pulse: too many reset the dial.
abbrev pub count_pulse : ℕ → Transition
count_pulse next =
    if ltb max_pulses_per_digit next
    then (
      dial_tone,
      play (builtin BuiltinTone.dial_tone)
          ∷ cancel_pulse_timeout
          ∷ log "rotary pulses exceeded maximum"
          ∷ [],
    )
    else (dialing next, arm_pulse_timeout ∷ [])

unfoldable pub dialing_arms : State → Event → Option Transition
dialing_arms (uploading r q true) upload_deferred = some (idle, put_status BoothStatus.idle ∷ [])
dialing_arms (uploading r q false) upload_deferred = some to_dial_tone
dialing_arms idle hook_off = some to_dial_tone
dialing_arms dial_tone rotary_pulse = some (dialing 1, stop_audio ∷ arm_pulse_timeout ∷ [])
dialing_arms (dialing pulses) rotary_pulse = some (count_pulse (saturating_succ pulses))
dialing_arms (dialing pulses) tick = some (decode_digit (if pulses == 10 then 0 else pulses))
dialing_arms dial_tone (digit_dialed digit) = some (decode_digit digit)
dialing_arms (dialing pulses) (digit_dialed digit) = some (decode_digit digit)
dialing_arms _ _ = none

unfoldable pub question_arms : State → Event → Option Transition
question_arms (ringing_question q) playback_ended =
    some
      (playing_question q, play (remote_url "" none) ∷ put_status BoothStatus.playing_question ∷ [])
question_arms (playing_question q) playback_ended =
    some (beep q, play (builtin BuiltinTone.beep) ∷ put_status BoothStatus.playing_question ∷ [])
question_arms (beep q) playback_ended =
    some
      (recording q, start_recording ∷ arm_recording_timeout ∷ put_status BoothStatus.recording ∷ [])
question_arms (recording q) recording_timed_out = some (
  finishing_timed_out_recording q false,
  cancel_recording_timeout ∷ stop_recording ∷ put_status BoothStatus.uploading ∷ [],
)
question_arms (recording q) (recording_finished r) = some (
  uploading_timed_out r q true,
  cancel_recording_timeout
      ∷ play (builtin BuiltinTone.beep)
      ∷ upload_recording r q
      ∷ put_status BoothStatus.uploading
      ∷ [],
)
question_arms _ _ = none

unfoldable pub finalize_arms : State → Event → Option Transition
finalize_arms (finishing_timed_out_recording q false) (recording_finished r) = some (
  uploading_timed_out r q true,
  play (builtin BuiltinTone.beep) ∷ upload_recording r q ∷ put_status BoothStatus.uploading ∷ [],
)
finalize_arms (finishing_timed_out_recording q true) (recording_finished r) =
    some (uploading r q true, upload_recording r q ∷ put_status BoothStatus.uploading ∷ [])
finalize_arms (finishing_recording q on_hook) (recording_finished r) =
    some (uploading r q on_hook, upload_recording r q ∷ put_status BoothStatus.uploading ∷ [])
finalize_arms (finishing_recording q on_hook) hook_off = some (finishing_recording q false, [])
finalize_arms (finishing_timed_out_recording q on_hook) hook_off =
    some (finishing_timed_out_recording q false, [])
finalize_arms (uploading r q on_hook) hook_off = some (uploading r q false, [])
finalize_arms _ _ = none

unfoldable pub end_beep_arms : State → Event → Option Transition
end_beep_arms (uploading_timed_out r q true) playback_ended =
    some (uploading_timed_out r q false, [])
end_beep_arms (uploading_timed_out r q true) upload_complete = some (recording_ended_beep, [])
end_beep_arms (uploading_timed_out r q true) upload_deferred = some (recording_ended_beep, [])
end_beep_arms (uploading_timed_out r q false) upload_complete = some to_dial_tone
end_beep_arms (uploading_timed_out r q false) upload_deferred = some to_dial_tone
end_beep_arms recording_ended_beep playback_ended = some to_dial_tone
end_beep_arms _ _ = none

unfoldable pub recording_failed_arms : State → Event → Option Transition
recording_failed_arms (recording q) (recording_failed reason) = some (
  error reason,
  play (builtin BuiltinTone.line_busy)
      ∷ log ("recording failed: " <> reason)
      ∷ cancel_recording_timeout
      ∷ put_status BoothStatus.idle
      ∷ [],
)
recording_failed_arms (finishing_timed_out_recording q true) (recording_failed reason) = some (
  idle,
  stop_audio
      ∷ log ("timed-out recording failed after hangup: " <> reason)
      ∷ put_status BoothStatus.idle
      ∷ [],
)
recording_failed_arms (finishing_timed_out_recording q false) (recording_failed reason) = some (
  dial_tone,
  play (builtin BuiltinTone.dial_tone)
      ∷ log ("timed-out recording failed: " <> reason)
      ∷ put_status BoothStatus.dial_tone
      ∷ [],
)
recording_failed_arms (finishing_recording q true) (recording_failed reason) = some (
  idle,
  stop_audio ∷ log ("recording failed after hangup: " <> reason) ∷ put_status BoothStatus.idle ∷ [],
)
recording_failed_arms (finishing_recording q false) (recording_failed reason) = some (
  dial_tone,
  play (builtin BuiltinTone.dial_tone)
      ∷ log ("recording failed: " <> reason)
      ∷ put_status BoothStatus.dial_tone
      ∷ [],
)
recording_failed_arms _ _ = none

unfoldable pub upload_arms : State → Event → Option Transition
upload_arms (uploading r q false) upload_complete = some to_dial_tone
upload_arms (uploading r q true) upload_complete = some (idle, put_status BoothStatus.idle ∷ [])
upload_arms (uploading r q false) (upload_failed reason) =
    some
      (error reason, play (builtin BuiltinTone.line_busy) ∷ log ("upload failed: " <> reason) ∷ [])
upload_arms (uploading_timed_out r q beep_pending) (upload_failed reason) = some (
  error reason,
  play (builtin BuiltinTone.line_busy) ∷ log ("timed-out recording upload failed: " <> reason) ∷ [],
)
upload_arms (uploading r q true) (upload_failed reason) =
    some (idle, log ("upload failed after hangup: " <> reason) ∷ put_status BoothStatus.idle ∷ [])
upload_arms _ _ = none

unfoldable pub lookup_arms : State → Event → Option Transition
lookup_arms dial_tone (question_ready q) = some (
  ringing_question q,
  play (builtin BuiltinTone.ringback)
      ∷ put_status BoothStatus.playing_question
      ∷ log ("question ready: " <> q)
      ∷ [],
)
lookup_arms dial_tone (question_failed reason) = some (
  error reason,
  play (builtin BuiltinTone.line_busy) ∷ log ("question fetch failed: " <> reason) ∷ [],
)
lookup_arms dial_tone message_ready =
    some (playing_message, play (remote_url "" none) ∷ put_status BoothStatus.playing_message ∷ [])
lookup_arms dial_tone (message_failed reason) = some (
  error reason,
  play (builtin BuiltinTone.line_busy) ∷ log ("message fetch failed: " <> reason) ∷ [],
)
lookup_arms playing_message playback_ended = some to_dial_tone
lookup_arms dial_tone instructions_ready = some (
  playing_instructions,
  play (remote_url "" none) ∷ put_status BoothStatus.playing_instructions ∷ [],
)
lookup_arms dial_tone (instructions_failed reason) = some (
  error reason,
  play (builtin BuiltinTone.line_busy) ∷ log ("instructions fetch failed: " <> reason) ∷ [],
)
lookup_arms playing_instructions playback_ended = some to_dial_tone
lookup_arms call_unavailable playback_ended = some to_dial_tone
lookup_arms _ _ = none

-- The power button, and the arm for everything else.
unfoldable pub last_arms : State → Event → Transition
last_arms s power_button_pressed = (s, reboot ∷ [])
last_arms s power_button_held = (s, power_off ∷ [])
last_arms s _ = (s, [])

-- The first arm that matches.
infixr 30 ◌or_else◌
abbrev pub ◌or_else◌ : Option Transition → Transition → Transition
some t or_else rest = t
none or_else rest = rest

unfoldable pub handle_inner : State → Event → Transition
unfolding hang_up dialing_arms question_arms finalize_arms end_beep_arms recording_failed_arms
    upload_arms lookup_arms last_arms
handle_inner s hook_on = hang_up s
handle_inner s e =
    dialing_arms s e
    or_else question_arms s e
    or_else finalize_arms s e
    or_else end_beep_arms s e
    or_else recording_failed_arms s e
    or_else upload_arms s e
    or_else lookup_arms s e
    or_else last_arms s e
