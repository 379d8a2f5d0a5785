-- ===== src/Sessions/Events.antt =====
-- crates/booth-hal/src/lib.rs: `TelemetryEvent` and `CallOutcome`; crates/booth-bin/src/observability.rs:
-- what the forwarder reads in an event. Snapshots of the system and audio levels are of any type.
use telephone_booth.Base.{ℕ, Bool, true, false, String, Option, none, some}
use telephone_booth.Hal.{LedColour, LedPattern, RecordingId, GpioEdge}

pub data CallOutcome : Type 0 where
  hung_up_before_dial hung_up_during_prompt hung_up_during_recording : CallOutcome
  hung_up_during_upload recording_completed recording_failed upload_failed : CallOutcome
  operator_error aborted : CallOutcome

pub data AudioChannel : Type 0 where
  input output : AudioChannel

-- The last number of an event is its `at_monotonic_ns`, where it has one.
pub data TelemetryEvent (Snapshot Level : Type 0) : Type 0 where
  gpio_edge : GpioEdge → TelemetryEvent Snapshot Level
  status_led : LedColour → LedPattern → ℕ → TelemetryEvent Snapshot Level
  -- digit, pulses
  digit_dialed : ℕ → ℕ → ℕ → TelemetryEvent Snapshot Level
  -- from, to, cause
  state_transition : String → String → String → ℕ → TelemetryEvent Snapshot Level
  audio_level : Level → TelemetryEvent Snapshot Level
  audio_device_change : String → AudioChannel → TelemetryEvent Snapshot Level
  -- id, route
  operator_request : String → String → TelemetryEvent Snapshot Level
  -- id, status, duration_ms
  operator_response : String → ℕ → ℕ → TelemetryEvent Snapshot Level
  -- level, target, message
  log : String → String → String → TelemetryEvent Snapshot Level
  -- source, message
  error : String → String → TelemetryEvent Snapshot Level
  system_sample : Snapshot → ℕ → TelemetryEvent Snapshot Level
  -- session_id
  call_started : String → ℕ → TelemetryEvent Snapshot Level
  -- session_id, outcome, digits_dialed
  call_ended : String → CallOutcome → String → ℕ → TelemetryEvent Snapshot Level
  -- id, session_id
  recording_started : RecordingId → String → ℕ → TelemetryEvent Snapshot Level
  -- id, session_id, duration_ms, bytes
  recording_stopped : RecordingId → String → ℕ → ℕ → ℕ → TelemetryEvent Snapshot Level
  -- recording_id, session_id
  upload_started : RecordingId → String → ℕ → TelemetryEvent Snapshot Level
  -- recording_id, session_id, duration_ms, bytes
  upload_completed : RecordingId → String → ℕ → ℕ → ℕ → TelemetryEvent Snapshot Level
  -- recording_id, session_id, message
  upload_failed : RecordingId → String → String → ℕ → TelemetryEvent Snapshot Level

module _ {S L : Type 0} where
  unfoldable pub monotonic_ns_of : TelemetryEvent S L → ℕ
  monotonic_ns_of (state_transition from to cause t) = t
  monotonic_ns_of (digit_dialed digit pulses t) = t
  monotonic_ns_of (system_sample snapshot t) = t
  monotonic_ns_of (call_started sid t) = t
  monotonic_ns_of (call_ended sid outcome digits t) = t
  monotonic_ns_of (recording_started r sid t) = t
  monotonic_ns_of (recording_stopped r sid ms bytes t) = t
  monotonic_ns_of (upload_started r sid t) = t
  monotonic_ns_of (TelemetryEvent.upload_completed r sid ms bytes t) = t
  monotonic_ns_of (TelemetryEvent.upload_failed r sid message t) = t
  monotonic_ns_of _ = 0

  unfoldable pub should_forward : TelemetryEvent S L → Bool
  should_forward (audio_level level) = false
  should_forward (gpio_edge edge) = false
  should_forward (status_led colour pattern t) = false
  should_forward (system_sample snapshot t) = false
  should_forward (call_started sid t) = false
  should_forward (call_ended sid outcome digits t) = false
  should_forward _ = true

  unfoldable pub event_kind : TelemetryEvent S L → String
  event_kind (gpio_edge edge) = "gpio_edge"
  event_kind (status_led colour pattern t) = "status_led"
  event_kind (digit_dialed digit pulses t) = "digit_dialed"
  event_kind (state_transition from to cause t) = "state_transition"
  event_kind (audio_level level) = "audio_level"
  event_kind (audio_device_change name channel) = "audio_device_change"
  event_kind (operator_request id route) = "operator_request"
  event_kind (operator_response id status ms) = "operator_response"
  event_kind (log level target message) = "log"
  event_kind (error source message) = "error"
  event_kind (system_sample snapshot t) = "system_sample"
  event_kind (call_started sid t) = "call_started"
  event_kind (call_ended sid outcome digits t) = "call_ended"
  event_kind (recording_started r sid t) = "recording_started"
  event_kind (recording_stopped r sid ms bytes t) = "recording_stopped"
  event_kind (upload_started r sid t) = "upload_started"
  event_kind (TelemetryEvent.upload_completed r sid ms bytes t) = "upload_completed"
  event_kind (TelemetryEvent.upload_failed r sid message t) = "upload_failed"

  unfoldable pub session_id_of : TelemetryEvent S L → Option String
  session_id_of (call_started sid t) = some sid
  session_id_of (call_ended sid outcome digits t) = some sid
  session_id_of (recording_started r sid t) = some sid
  session_id_of (recording_stopped r sid ms bytes t) = some sid
  session_id_of (upload_started r sid t) = some sid
  session_id_of (TelemetryEvent.upload_completed r sid ms bytes t) = some sid
  session_id_of (TelemetryEvent.upload_failed r sid message t) = some sid
  session_id_of _ = none

  unfoldable pub recording_id_of : TelemetryEvent S L → Option String
  recording_id_of (recording_started r sid t) = some r
  recording_id_of (recording_stopped r sid ms bytes t) = some r
  recording_id_of (upload_started r sid t) = some r
  recording_id_of (TelemetryEvent.upload_completed r sid ms bytes t) = some r
  recording_id_of (TelemetryEvent.upload_failed r sid message t) = some r
  recording_id_of _ = none

  -- A digit is dialed in the session under way.
  unfoldable pub session_id_for_wire : TelemetryEvent S L → Option String → Option String
  unfolding session_id_of
  session_id_for_wire (digit_dialed digit pulses t) active_session_id = active_session_id
  session_id_for_wire e active_session_id = session_id_of e
