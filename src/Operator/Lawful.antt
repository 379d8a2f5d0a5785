-- ===== src/Operator/Lawful.antt =====
-- What the runtime relies on of the operator, and what its retried calls make of it.
use telephone_booth.Base.{ℕ, zero, suc, String, Option, ◌≡◌, refl, sym, ◌∙◌, subst, Result, ok, err}
use telephone_booth.Hal.{RecordingId, QuestionId}
use telephone_booth.Operator.Errors.{OperatorError, duplicate_recording}
use telephone_booth.Operator.Retry.{World, Operation, retry_operator}
use telephone_booth.Operator.Attempts.{outside_after, retry_operator-Tried}
use telephone_booth.Operator.Upload.{OperatorClient, UploadMetadata, UploadSlot}

-- What the operator promises of the recordings that it has: none is lost by a call, a completed upload
-- is one of them, and so is a recording that it calls a duplicate.
pub record IsLawful {W : Type 0} (client : OperatorClient W) (Stored : W → RecordingId → Type 0)
    : Type 0 where
  pub init_keeps :
      (q : Option QuestionId) (m : UploadMetadata) (w : W) (r : RecordingId)
      → Stored w r
      → Stored (client.init_upload q m w).1 r
  pub put_keeps :
      (slot : UploadSlot) (path : String) (s : RecordingId) (w : W) (r : RecordingId)
      → Stored w r
      → Stored (client.put_upload slot path s w).1 r
  pub complete_keeps :
      (id : String) (s : RecordingId) (ms : ℕ) (w : W) (r : RecordingId)
      → Stored w r
      → Stored (client.complete_upload id s ms w).1 r
  pub completed :
      (id : String) (r : RecordingId) (ms : ℕ) (w : W)
      → (client.complete_upload id r ms w).0 ≡ ok tt
      → Stored (client.complete_upload id r ms w).1 r
  pub duplicate :
      (q : Option QuestionId) (m : UploadMetadata) (w : W) (s : String)
      → (client.init_upload q m w).0 ≡ err (duplicate_recording s)
      → Stored (client.init_upload q m w).1 m.sha256_hex

module _ {W T : Type 0} (P : W → Type 0) (route : String) (operation : Operation W T) where
  outside_after-keeps :
      ((w : W) → P w → P (operation w).1)
      → (n : ℕ) (w : W) → P w
      → P (outside_after route operation n w)
  outside_after-keeps keeps zero w h = h
  outside_after-keeps keeps (suc n) w h = outside_after-keeps keeps n (operation w).1 (keeps w h)

  outside_after-last :
      (n : ℕ) (w : W)
      → outside_after route operation (suc n) w ≡ (operation (outside_after route operation n w)).1
  outside_after-last zero w = refl
  outside_after-last (suc n) w = outside_after-last n (operation w).1

  -- What every call keeps, a retried call keeps.
  pub retry_operator-keeps :
      ((w : W) → P w → P (operation w).1)
      → (w : World W) → P w.outside
      → P (retry_operator route operation w).1.outside
  retry_operator-keeps keeps w h =
      let (n, t) = retry_operator-Tried route operation w in
      subst P (sym t.world) (outside_after-keeps keeps (suc n) w.outside h)

  -- What a call with this result brings about, a retried call with this result does.
  pub retry_operator-reaches :
      (result : Result OperatorError T)
      → ((w : W) → (operation w).0 ≡ result → P (operation w).1)
      → (w : World W) → (retry_operator route operation w).0 ≡ result
      → P (retry_operator route operation w).1.outside
  retry_operator-reaches result brings w e =
      let (n, t) = retry_operator-Tried route operation w in
      subst P (sym (t.world ∙ outside_after-last n w.outside))
        (brings (outside_after route operation n w.outside) (sym t.result ∙ e))
