-- ===== src/Operator/Delivered.antt =====
-- crates/booth-bin/src/lib.rs, `upload_recording`: what it reports as done, the operator has.
use telephone_booth.Base.{true, ◌≡◌, inl, inr, arith, Result, ok, err, Result-cases}
use telephone_booth.Hal.{RecordingId}
use telephone_booth.Operator.Errors.{OperatorError, duplicate_recording}
use telephone_booth.Operator.Retry.{World}
use telephone_booth.Operator.Upload.{
  OperatorClient, UploadSlot, Upload, metadata_of, unwrap_or_zero, validate_upload_caps,
  complete_slot, transfer, start_upload, try_upload, upload_recording,
}
use telephone_booth.Operator.Lawful.{IsLawful, retry_operator-keeps, retry_operator-reaches}
use telephone_booth.Operator.Calls.{
  init_retried, put_retried, start_upload-cases, try_upload-invariant,
}

err-ne-ok : (x : OperatorError) → ◌≡◌ {A = Result OperatorError (Unit {0})} (err x) (ok tt) → ⊥
err-ne-ok x e = cc

module _ {W : Type 0} (client : OperatorClient W) (Stored : W → RecordingId → Type 0)
    (law : IsLawful client Stored) (u : Upload) where
  -- A completed upload is stored.
  transfer-stores :
      (slot : UploadSlot) (w : World W)
      → (transfer client u slot w).0 ≡ ok tt
      → Stored (transfer client u slot w).1.outside u.recording_id
  unfolding complete_slot transfer
  transfer-stores slot w h = elim (Result-cases (put_retried client u slot w).0) [
    | inl (v, e) ↦
        rw (e, transfer)
          (retry_operator-reaches (λ o. Stored o u.recording_id) "POST /v1/messages/{id}/complete"
            (client.complete_upload slot.id u.recording_id (unwrap_or_zero u.duration_ms)) (ok tt)
            (law.completed slot.id u.recording_id (unwrap_or_zero u.duration_ms))
            (put_retried client u slot w).1 (rw (e, transfer) at h))
    | inr (x, e) ↦ absurd (err-ne-ok x (rw (e, transfer) at h))
  ]

  pub try_upload-stores :
      (w : World W)
      → (try_upload client u w).0 ≡ ok tt
      → Stored (try_upload client u w).1.outside u.recording_id
  unfolding try_upload
  try_upload-stores w h = elim (Result-cases (validate_upload_caps u.bytes u.duration_ms)) [
    | inr (x, e) ↦ absurd (err-ne-ok x (rw (e, try_upload) at h))
    | inl (v, e) ↦ rw (e, try_upload) (begun (rw (e, try_upload) at h))
  ]
    where
      begun :
          (start_upload client u w).0 ≡ ok tt
          → Stored (start_upload client u w).1.outside u.recording_id
      begun =
          start_upload-cases client u w (λ run. run.0 ≡ ok tt → Stored run.1.outside u.recording_id)
            (λ slot. transfer-stores slot (init_retried client u w).1)
            (λ s e h'.
              retry_operator-reaches (λ o. Stored o u.recording_id) "POST /v1/messages"
                (client.init_upload u.question_id (metadata_of u)) (err (duplicate_recording s))
                (λ o. law.duplicate u.question_id (metadata_of u) o s) w e)
            (λ e h'. absurd (err-ne-ok e h'))

  pub upload_recording-keeps :
      (r : RecordingId) (w : World W)
      → Stored w.outside r
      → Stored (upload_recording client u w).1.outside r
  unfolding upload_recording complete_slot
  upload_recording-keeps r =
      try_upload-invariant client u (λ w. Stored w.outside r)
        (retry_operator-keeps (λ o. Stored o r) "POST /v1/messages"
          (client.init_upload u.question_id (metadata_of u))
          (λ o. law.init_keeps u.question_id (metadata_of u) o r))
        (λ slot.
          retry_operator-keeps (λ o. Stored o r) "PUT <presigned-upload-url>"
            (client.put_upload slot u.path u.recording_id)
            (λ o. law.put_keeps slot u.path u.recording_id o r))
        (λ slot.
          retry_operator-keeps (λ o. Stored o r) "POST /v1/messages/{id}/complete"
            (client.complete_upload slot.id u.recording_id (unwrap_or_zero u.duration_ms))
            (λ o. law.complete_keeps slot.id u.recording_id (unwrap_or_zero u.duration_ms) o r))

  -- Against an operator that keeps its promises, an upload that is reported as a success, and whose
  -- entry is therefore taken out of the spool, is of a recording that the operator has.
  pub upload_recording-stores :
      (w : World W)
      → (upload_recording client u w).0 ≡ true
      → Stored (upload_recording client u w).1.outside u.recording_id
  unfolding upload_recording
  upload_recording-stores w h = elim (Result-cases (try_upload client u w).0) [
    | inl (v, e) ↦ try_upload-stores w e
    | inr (x, e) ↦ absurd (ground arith)
  ]
