-- ===== src/Operator/Calls.antt =====
-- crates/booth-bin/src/lib.rs, `upload_recording`: the calls that an upload makes, in their cases.
use telephone_booth.Base.{String, ◌≡◌, inl, inr, Result, ok, err, Result-cases}
use telephone_booth.Operator.Errors.{OperatorError, duplicate_recording}
use telephone_booth.Operator.Retry.{World, retry_operator}
use telephone_booth.Operator.Upload.{
  OperatorClient, UploadSlot, Upload, metadata_of, validate_upload_caps, complete_slot, transfer,
  start_upload, try_upload,
}

module _ {W : Type 0} (client : OperatorClient W) (u : Upload) where
  abbrev pub put_retried : UploadSlot → World W → Result OperatorError (Unit {0}) × World W
  put_retried slot w =
      retry_operator "PUT <presigned-upload-url>" (client.put_upload slot u.path u.recording_id) w

  abbrev pub init_retried : World W → Result OperatorError UploadSlot × World W
  init_retried w =
      retry_operator "POST /v1/messages" (client.init_upload u.question_id (metadata_of u)) w

  -- After the first call: a slot, a duplicate, or an end.
  pub start_upload-cases :
      (w : World W) (P : Result OperatorError (Unit {0}) × World W → Type 0)
      → ((slot : UploadSlot) → P (transfer client u slot (init_retried w).1))
      → ((s : String)
          → (init_retried w).0 ≡ err (duplicate_recording s)
          → P (ok tt, (init_retried w).1))
      → ((e : OperatorError) → P (err e, (init_retried w).1))
      → P (start_upload client u w)
  unfolding start_upload
  start_upload-cases w P slots duplicates errors = elim (Result-cases (init_retried w).0) [
    | inl (slot, e) ↦ rw (e, start_upload) (slots slot)
    | inr (x, e) ↦ ended x e
  ]
    where
      ended : (x : OperatorError) → (init_retried w).0 ≡ err x → P (start_upload client u w)
      ended (duplicate_recording s) e = rw (e, start_upload) (duplicates s e)
      ended x e = rw (e, start_upload) (errors x)

  -- What each of the three retried calls keeps, an upload keeps.
  module _ (P : World W → Type 0) (init : (w : World W) → P w → P (init_retried w).1)
      (put : (slot : UploadSlot) (w : World W) → P w → P (put_retried slot w).1)
      (complete : (slot : UploadSlot) (w : World W)
        → P w
        → P (complete_slot client u slot w).1) where
    transfer-keeps : (slot : UploadSlot) (w : World W) → P w → P (transfer client u slot w).1
    unfolding transfer
    transfer-keeps slot w h = elim (Result-cases (put_retried slot w).0) [
      | inl (v, e) ↦ rw (e, transfer) (complete slot (put_retried slot w).1 (put slot w h))
      | inr (x, e) ↦ rw (e, transfer) (put slot w h)
    ]

    pub try_upload-invariant : (w : World W) → P w → P (try_upload client u w).1
    unfolding try_upload
    try_upload-invariant w h = elim (Result-cases (validate_upload_caps u.bytes u.duration_ms)) [
      | inr (x, e) ↦ rw (e, try_upload) h
      | inl (v, e) ↦
          rw (e, try_upload)
            (start_upload-cases w (λ run. P run.1)
              (λ slot. transfer-keeps slot (init_retried w).1 (init w h)) (λ s e. init w h)
              (λ e. init w h))
    ]
