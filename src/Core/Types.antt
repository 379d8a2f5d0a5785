-- ===== src/Core/Types.antt =====
-- crates/booth-core/src/lib.rs: states, events, effects and the constants.
use telephone_booth.Base.{ℕ, Bool, String}
use telephone_booth.Hal.{QuestionId, RecordingId, LedColour, LedPattern, AudioRef, BoothStatus}

abbrev pub max_pulses_per_digit : ℕ
max_pulses_per_digit = 10

abbrev pub led_brightness_dim : ℕ
led_brightness_dim = 40

abbrev pub led_brightness_full : ℕ
led_brightness_full = 255

abbrev pub led_fast_blink_ms : ℕ
led_fast_blink_ms = 300

-- The arguments are the fields in the order of the source.
pub data State : Type 0 where
  -- on_hook
  calls_paused : Bool → State
  idle : State
  dial_tone : State
  -- pulses, a `u8`
  dialing : ℕ → State
  ringing_question : QuestionId → State
  playing_question : QuestionId → State
  beep : QuestionId → State
  recording : QuestionId → State
  -- question_id, on_hook
  finishing_timed_out_recording : QuestionId → Bool → State
  finishing_recording : QuestionId → Bool → State
  -- recording_id, question_id, on_hook
  uploading : RecordingId → QuestionId → Bool → State
  -- recording_id, question_id, beep_pending
  uploading_timed_out : RecordingId → QuestionId → Bool → State
  recording_ended_beep : State
  playing_message : State
  playing_instructions : State
  call_unavailable : State
  -- reason
  error : String → State

pub data UploadOutcome : Type 0 where
  complete : UploadOutcome
  deferred : UploadOutcome
  failed : String → UploadOutcome

pub data Event : Type 0 where
  upload_finished : RecordingId → UploadOutcome → Event
  hook_on : Event
  hook_off : Event
  rotary_pulse : Event
  -- digit, a `u8`
  digit_dialed : ℕ → Event
  playback_ended : Event
  recording_timed_out : Event
  recording_finished : RecordingId → Event
  recording_failed : String → Event
  upload_complete : Event
  upload_deferred : Event
  upload_failed : String → Event
  question_ready : QuestionId → Event
  question_failed : String → Event
  message_ready : Event
  message_failed : String → Event
  instructions_ready : Event
  instructions_failed : String → Event
  tick : Event
  power_button_pressed : Event
  power_button_held : Event

pub data Effect : Type 0 where
  play : AudioRef → Effect
  stop_audio : Effect
  start_recording : Effect
  arm_recording_timeout : Effect
  cancel_recording_timeout : Effect
  stop_recording : Effect
  upload_recording : RecordingId → QuestionId → Effect
  fetch_random_question : Effect
  fetch_random_message : Effect
  fetch_instructions : Effect
  put_status : BoothStatus → Effect
  arm_pulse_timeout : Effect
  cancel_pulse_timeout : Effect
  log : String → Effect
  set_status_led : LedColour → LedPattern → Effect
  reboot : Effect
  power_off : Effect

-- The coarse status that is advertised to the operator.
unfoldable pub status : State → BoothStatus
status idle = BoothStatus.idle
status (calls_paused on_hook) = BoothStatus.idle
status dial_tone = BoothStatus.dial_tone
status (dialing pulses) = BoothStatus.dial_tone
status (ringing_question q) = BoothStatus.playing_question
status (playing_question q) = BoothStatus.playing_question
status (beep q) = BoothStatus.playing_question
status (recording q) = BoothStatus.recording
status (finishing_recording q on_hook) = BoothStatus.uploading
status (finishing_timed_out_recording q on_hook) = BoothStatus.uploading
status (uploading r q on_hook) = BoothStatus.uploading
status (uploading_timed_out r q beep_pending) = BoothStatus.uploading
status recording_ended_beep = BoothStatus.uploading
status playing_message = BoothStatus.playing_message
status playing_instructions = BoothStatus.playing_instructions
status call_unavailable = BoothStatus.call_unavailable
status (error reason) = BoothStatus.idle
