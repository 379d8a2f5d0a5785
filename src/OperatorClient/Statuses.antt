-- ===== src/OperatorClient/Statuses.antt =====
-- crates/booth-pi/src/operator.rs and crates/booth-bin/src/lib.rs: how the runtime takes the operator's answers.
use telephone_booth.Base.{
  ℕ, Bool, true, false, ◌&&◌, String, Option, leb, ◌==◌, ◌≡◌, refl, if◌then◌else◌, err, arith,
}
use telephone_booth.Operator.Errors.{
  OperatorError, installation_inactive, operator_status, is_retryable_operator_error,
}
use telephone_booth.OperatorClient.Transfer.{UploadError, invalid_url, io, http}
use telephone_booth.OperatorClient.Answers.{is_text, map_operator_error_body, from_upload_error}

abbrev pub is_inactive : OperatorError → Bool
is_inactive (installation_inactive text) = true
is_inactive _ = false

-- Is the runtime's upload tried again after the error?
abbrev pub is_tried_again : UploadError → Bool
is_tried_again (invalid_url text) = true
is_tried_again (io text) = true
is_tried_again (UploadError.transport text) = true
is_tried_again (UploadError.duplicate_recording text) = false
is_tried_again (http status body) = leb 500 status

module _ (error_field : String → Option String) (max_bytes_field : String → Option ℕ) where
  answers :
      (status : ℕ) (body : String)
      → let e = map_operator_error_body error_field max_bytes_field status body in
        (is_retryable_operator_error e ≡ leb 500 status)
        × (is_inactive e ≡ (status == 409 && is_text (error_field body) "installation_inactive"))
        × (operator_status {0} {T = Unit {0}} (err e) ≡ (if status == 400 then 422 else status))
  unfolding map_operator_error_body is_retryable_operator_error operator_status
  answers status body = (ground arith, ground arith, ground arith)

  -- The runtime repeats a call after an answer exactly if its status is 500 or more; the answer tells the gate
  -- that the installation is inactive exactly if it is a 409 with that error code; the status that is
  -- reported is the answer's, but 422 for 400. Of the errors of an upload it repeats all but a
  -- duplicate and an answer below 500, those for which no other attempt can help included: a URL that is refused, a
  -- file that is too large or cannot be read.
  pub map_operator_error_body-statuses :
      (status : ℕ) (body : String) (u : UploadError)
      → let e = map_operator_error_body error_field max_bytes_field status body in
        (is_retryable_operator_error e ≡ leb 500 status)
        × (is_inactive e ≡ (status == 409 && is_text (error_field body) "installation_inactive"))
        × (operator_status {0} {T = Unit {0}} (err e) ≡ (if status == 400 then 422 else status))
        × (is_retryable_operator_error (from_upload_error error_field max_bytes_field u)
            ≡ is_tried_again u)
  unfolding from_upload_error is_retryable_operator_error
  map_operator_error_body-statuses status body u =
      let (again, inactive, reported) = answers status body in (again, inactive, reported, upload u)
    where
      upload :
          (u : UploadError)
          → is_retryable_operator_error (from_upload_error error_field max_bytes_field u)
            ≡ is_tried_again u
      upload (invalid_url text) = refl
      upload (io text) = refl
      upload (UploadError.transport text) = refl
      upload (UploadError.duplicate_recording text) = refl
      upload (http status body) = (answers status body).0
