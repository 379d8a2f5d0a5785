-- ===== src/Sessions/Heartbeat.antt =====
-- crates/booth-bin/src/observability.rs: the status that the heartbeat repeats.
use telephone_booth.Base.{◌||◌, String, str_eq, if◌then◌else◌}
use telephone_booth.Hal.{BoothStatus}
use telephone_booth.Sessions.Events.{TelemetryEvent, state_transition}

unfoldable pub state_name_to_booth_status : String → BoothStatus
state_name_to_booth_status name =
    if str_eq name "idle" || str_eq name "Idle"
    then BoothStatus.idle
    else if str_eq name "dial_tone" || (str_eq name "dialing" || str_eq name "DialTone")
    then BoothStatus.dial_tone
    else if str_eq name "ringing_question"
        || (str_eq name "playing_question" || (str_eq name "beep" || str_eq name "PlayingQuestion"))
    then BoothStatus.playing_question
    else if str_eq name "recording" || str_eq name "Recording"
    then BoothStatus.recording
    else if str_eq name "finishing_timeout_recording"
        || (str_eq name "uploading"
            || (str_eq name "uploading_timeout"
                || (str_eq name "recording_end_beep" || str_eq name "Uploading")))
    then BoothStatus.uploading
    else if str_eq name "playing_message" || str_eq name "PlayingMessage"
    then BoothStatus.playing_message
    else if str_eq name "playing_instructions" || str_eq name "PlayingInstructions"
    then BoothStatus.playing_instructions
    else if str_eq name "call_unavailable" || str_eq name "CallUnavailable"
    then BoothStatus.call_unavailable
    else BoothStatus.idle

module _ {S L : Type 0} where
  -- The task's `current_status` after a record.
  unfoldable pub heartbeat_status : TelemetryEvent S L → BoothStatus → BoothStatus
  unfolding state_name_to_booth_status
  heartbeat_status (state_transition from to cause t) current = state_name_to_booth_status to
  heartbeat_status _ current = current
