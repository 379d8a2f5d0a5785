-- ===== src/Operator/Upload.antt =====
-- crates/booth-bin/src/lib.rs: `validate_upload_caps` and `upload_recording`. The operator client is a
-- trait, so it is a record of operations on the outside world. The audio source's cleanup only logs
-- when it fails; measured durations are not modelled.
use telephone_booth.Base.{
  ℕ, Bool, true, false, String, ◌<>◌, Option, none, some, List, [], ◌∷◌, ◌++◌, ◌==◌, ltb,
  if◌then◌else◌, Result, ok, err,
}
use telephone_booth.Base.Decimal.{decimal_u64}
use telephone_booth.Hal.{RecordingId, QuestionId}
use telephone_booth.Core.Types.{UploadOutcome, complete, deferred, failed}
use telephone_booth.Operator.Errors.{
  OperatorError, duplicate_recording, invalid_argument, installation_inactive, payload_too_large,
  display,
}
use telephone_booth.Operator.Retry.{
  Action, upload_completed, upload_failed, cleanup_recording, upload_finished,
  publish_operator_error, World, Operation, retry_operator,
}

abbrev pub max_upload_bytes : ℕ
max_upload_bytes = 26_214_400

abbrev pub max_upload_duration_ms : ℕ
max_upload_duration_ms = 300_000

unfoldable pub validate_upload_caps : ℕ → Option ℕ → Result OperatorError (Unit {0})
validate_upload_caps bytes none =
    err (invalid_argument "recording duration is required before upload")
validate_upload_caps bytes (some duration_ms) =
    if duration_ms == 0
    then err (invalid_argument "recording duration must be greater than 0")
    else if ltb max_upload_duration_ms duration_ms
    then err (
        invalid_argument (
          "recording duration "
          <> (decimal_u64 duration_ms
              <> ("ms exceeds operator cap of " <> (decimal_u64 max_upload_duration_ms <> "ms")))))
    else if ltb max_upload_bytes bytes
    then err (
        payload_too_large (some max_upload_bytes) (
          "recording size "
          <> (decimal_u64 bytes
              <> (" bytes exceeds operator cap of "
                  <> (decimal_u64 max_upload_bytes <> " bytes")))))
    else ok tt

pub record UploadMetadata : Type 0 where
  pub sha256_hex : String
  pub size_bytes : ℕ
  pub duration_ms : Option ℕ

pub record UploadSlot : Type 0 where
  pub id : String
  pub upload_url : String
  pub blob_name : String

-- The three calls of the trait `OperatorClient` that an upload makes.
pub record OperatorClient (W : Type 0) : Type 0 where
  pub init_upload : Option QuestionId → UploadMetadata → Operation W UploadSlot
  pub put_upload : UploadSlot → String → RecordingId → Operation W (Unit {0})
  pub complete_upload : String → RecordingId → ℕ → Operation W (Unit {0})

-- The arguments of `upload_recording`; `notified` says that there is an `event_tx`, and
-- `has_source` that there is an `audio_source`.
pub record Upload : Type 0 where
  pub recording_id : RecordingId
  pub question_id : Option QuestionId
  pub session_id : Option String
  pub path : String
  pub bytes : ℕ
  pub duration_ms : Option ℕ
  pub notified : Bool
  pub has_source : Bool

abbrev pub metadata_of : Upload → UploadMetadata
metadata_of u = record {
  sha256_hex = u.recording_id;
  size_bytes = u.bytes;
  duration_ms = u.duration_ms;
}

abbrev pub unwrap_or_zero : Option ℕ → ℕ
unwrap_or_zero none = 0
unwrap_or_zero (some n) = n

module _ {W : Type 0} (client : OperatorClient W) (u : Upload) where
  -- The async block, from its last call to its first.
  unfoldable pub complete_slot : UploadSlot → World W → Result OperatorError (Unit {0}) × World W
  complete_slot slot w =
      retry_operator "POST /v1/messages/{id}/complete"
        (client.complete_upload slot.id u.recording_id (unwrap_or_zero u.duration_ms)) w

  unfoldable pub transfer : UploadSlot → World W → Result OperatorError (Unit {0}) × World W
  transfer slot w =
      let (sent, w') =
        retry_operator "PUT <presigned-upload-url>" (client.put_upload slot u.path u.recording_id)
          w in
      elim sent [ ok _ ↦ complete_slot slot w' | err e ↦ (err e, w') ]

  unfoldable pub start_upload : World W → Result OperatorError (Unit {0}) × World W
  start_upload w =
      let (slot, w') =
        retry_operator "POST /v1/messages" (client.init_upload u.question_id (metadata_of u)) w in
      elim slot [
        | ok slot ↦ transfer slot w'
        | err (duplicate_recording s) ↦ (ok tt, w')
        | err e ↦ (err e, w')
      ]

  unfoldable pub try_upload : World W → Result OperatorError (Unit {0}) × World W
  try_upload w = elim (validate_upload_caps u.bytes u.duration_ms) [
    | ok _ ↦ start_upload w
    | err e ↦ (err e, w)
  ]

-- `send_upload_outcome`.
unfoldable pub send_upload_outcome : Bool → RecordingId → UploadOutcome → List Action
send_upload_outcome true r outcome = upload_finished r outcome ∷ []
send_upload_outcome false r outcome = []

-- For the session, if there is one.
abbrev pub for_session : Option String → (String → Action) → List Action
for_session none act = []
for_session (some sid) act = act sid ∷ []

abbrev pub if_present : Bool → Action → List Action
if_present true act = act ∷ []
if_present false act = []

-- What is reported of the result.
unfoldable pub report_upload : Upload → Result OperatorError (Unit {0}) → List Action
unfolding send_upload_outcome publish_operator_error
report_upload u (ok _) =
    for_session u.session_id (λ sid. upload_completed u.recording_id sid u.bytes)
    ++ (if_present u.has_source (cleanup_recording u.recording_id)
        ++ send_upload_outcome u.notified u.recording_id complete)
report_upload u (err (installation_inactive s)) =
    send_upload_outcome u.notified u.recording_id deferred
report_upload u (err e) =
    publish_operator_error "upload_recording" e
    ++ (for_session u.session_id (λ sid. upload_failed u.recording_id sid (display e))
        ++ send_upload_outcome u.notified u.recording_id (failed (display e)))

abbrev pub is_ok {ℓ} : {T : Type ℓ} → Result OperatorError T → Bool
is_ok (ok v) = true
is_ok (err e) = false

module _ {W : Type 0} (client : OperatorClient W) (u : Upload) where
  unfoldable pub upload_recording : World W → Bool × World W
  upload_recording w =
      let (result, w') = try_upload client u w in
      (is_ok result, record w' { trace = w'.trace ++ report_upload u result })
