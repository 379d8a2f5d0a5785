-- ===== src/Core/Led.antt =====
-- crates/booth-core/src/lib.rs, `status_led_for`: the one mapping from states to LED indications.
use telephone_booth.Base.{Bool, true, false, ◌&&◌, ◌≡◌, arith}
use telephone_booth.Hal.{
  LedColour, red, green, blue, LedPattern, steady, blink, colour_eq, pattern_eq,
}
use telephone_booth.Core.Types.{
  State, calls_paused, idle, dial_tone, dialing, ringing_question, playing_question, beep,
  recording, finishing_timed_out_recording, finishing_recording, uploading, uploading_timed_out,
  recording_ended_beep, playing_message, playing_instructions, call_unavailable, error,
  led_brightness_dim, led_brightness_full, led_fast_blink_ms,
}

abbrev pub Led : Type 0
Led = LedColour × LedPattern

unfoldable pub status_led_for : State → Led
status_led_for (calls_paused on_hook) = (blue, steady led_brightness_dim)
status_led_for idle = (green, steady led_brightness_dim)
status_led_for dial_tone = (green, steady led_brightness_full)
status_led_for (dialing pulses) = (green, steady led_brightness_full)
status_led_for (ringing_question q) = (blue, steady led_brightness_full)
status_led_for (playing_question q) = (blue, steady led_brightness_full)
status_led_for playing_message = (blue, steady led_brightness_full)
status_led_for playing_instructions = (blue, steady led_brightness_full)
status_led_for call_unavailable = (blue, steady led_brightness_full)
status_led_for (beep q) = (red, steady led_brightness_full)
status_led_for (recording q) = (red, steady led_brightness_full)
status_led_for (uploading_timed_out r q true) = (red, steady led_brightness_full)
status_led_for recording_ended_beep = (red, steady led_brightness_full)
status_led_for (finishing_recording q on_hook) = (blue, blink led_fast_blink_ms)
status_led_for (finishing_timed_out_recording q on_hook) = (blue, blink led_fast_blink_ms)
status_led_for (uploading r q on_hook) = (blue, blink led_fast_blink_ms)
status_led_for (uploading_timed_out r q false) = (blue, blink led_fast_blink_ms)
status_led_for (error reason) = (red, blink led_fast_blink_ms)

-- The derived equality of `(LedColour, LedPattern)`.
unfoldable pub led_eq : Led → Led → Bool
led_eq (c, p) (d, q) = colour_eq c d && pattern_eq p q

-- The test for equal indications decides equality.
pub led_eq_sound : (a b : Led) → led_eq a b ≡ true → a ≡ b
unfolding led_eq
led_eq_sound a b h = ground arith
