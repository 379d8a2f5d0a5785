-- ===== src/OperatorClient/Answers.antt =====
-- crates/booth-pi/src/operator.rs: what the client makes of its arguments and of the answers. The fields "error" and
-- "maxBytes" of a JSON text are read by serde_json: parameters.
use telephone_booth.Base.{
  ℕ, zero, suc, Bool, false, ◌&&◌, String, str_eq, Option, none, some, leb, ◌==◌, if◌then◌else◌,
  Result, ok, err,
}
use telephone_booth.Hal.{BoothStatus}
use telephone_booth.Operator.Errors.{
  OperatorError, transport, unauthorized, duplicate_recording, invalid_argument, conflict,
  installation_inactive, payload_too_large, unprocessable, server,
}
use telephone_booth.Operator.Upload.{max_upload_duration_ms}
use telephone_booth.OperatorClient.Transfer.{UploadError, invalid_url, io, http}

abbrev pub is_text : Option String → String → Bool
is_text none text = false
is_text (some s) text = str_eq s text

-- `chars().take(n).collect()`.
unfoldable pub take_chars : ℕ → String → String
take_chars zero s = String.[]
take_chars (suc n) String.[] = String.[]
take_chars (suc n) (String.◌∷◌ c s) = String.◌∷◌ c (take_chars n s)

module _ (error_field : String → Option String) (max_bytes_field : String → Option ℕ) where
  unfoldable pub map_operator_error_body : ℕ → String → OperatorError
  unfolding take_chars
  map_operator_error_body status body =
      let error_code = error_field body in
      let short = take_chars 512 body in
      if status == 400
      then invalid_argument short
      else if status == 401
      then unauthorized "operator token was rejected; rotate the configured API token"
      else if status == 409 && is_text error_code "installation_inactive"
      then installation_inactive short
      else if status == 409 && is_text error_code "message_already_exists"
      then duplicate_recording short
      else if status == 409
      then conflict short
      else if status == 413
      then payload_too_large (max_bytes_field body) short
      else if status == 422
      then unprocessable short
      else server status short

  -- `From<UploadError>`.
  unfoldable pub from_upload_error : UploadError → OperatorError
  unfolding map_operator_error_body
  from_upload_error (invalid_url text) = transport text
  from_upload_error (io text) = transport text
  from_upload_error (UploadError.transport text) = transport text
  from_upload_error (UploadError.duplicate_recording text) = duplicate_recording text
  from_upload_error (http status body) = map_operator_error_body status body

unfoldable pub required_duration_ms : Option ℕ → Result OperatorError ℕ
required_duration_ms none = err (invalid_argument "duration_ms is required by POST /v1/messages")
required_duration_ms (some value) =
    if leb 1 value && leb value max_upload_duration_ms
    then ok value
    else if value == 0
    then err (invalid_argument "duration_ms must be greater than 0")
    else err (invalid_argument "duration_ms exceeds maximum")

-- The status as the operator's API spells it.
unfoldable pub booth_status_state : BoothStatus → String
booth_status_state BoothStatus.idle = "idle"
booth_status_state BoothStatus.dial_tone = "dialTone"
booth_status_state BoothStatus.playing_question = "playingQuestion"
booth_status_state BoothStatus.recording = "recording"
booth_status_state BoothStatus.uploading = "uploading"
booth_status_state BoothStatus.playing_message = "playingMessage"
booth_status_state BoothStatus.playing_instructions = "playingInstructions"
booth_status_state BoothStatus.call_unavailable = "callUnavailable"
