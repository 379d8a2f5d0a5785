-- ===== src/Operator/Caps.antt =====
-- crates/booth-bin/src/lib.rs, `validate_upload_caps` and `upload_recording`: the operator's caps.
use telephone_booth.Base.{
  ℕ, ◌*◌, ◌≤◌, ◌<◌, false, Option, none, some, ◌≡◌, refl, ◌⊎◌, inl, inr, arith, ok, Result-cases,
}
use telephone_booth.Operator.Retry.{World}
use telephone_booth.Operator.Upload.{
  OperatorClient, Upload, validate_upload_caps, try_upload, upload_recording,
}

-- The duration is known, and it and the size are within the caps.
abbrev pub IsWithinCaps : ℕ → Option ℕ → Type 0
IsWithinCaps bytes none = ⊥
IsWithinCaps bytes (some ms) = (0 < ms) × (ms ≤ 300_000) × (bytes ≤ 25 * 1024 * 1024)

validate-IsWithinCaps :
    (bytes : ℕ) (duration_ms : Option ℕ)
    → validate_upload_caps bytes duration_ms ≡ ok tt
    → IsWithinCaps bytes duration_ms
unfolding validate_upload_caps
validate-IsWithinCaps bytes none e = cc
validate-IsWithinCaps bytes (some ms) e = (ground arith, ground arith, ground arith)

-- Either the recording is within the caps, or the upload fails without a request to the operator.
pub upload_recording-IsWithinCaps :
    {W : Type 0} (client : OperatorClient W) (u : Upload) (w : World W)
    → IsWithinCaps u.bytes u.duration_ms
      ⊎ (((upload_recording client u w).0 ≡ false)
          × ((upload_recording client u w).1.outside ≡ w.outside)
          × ((upload_recording client u w).1.request_seq ≡ w.request_seq))
unfolding upload_recording try_upload
upload_recording-IsWithinCaps client u w =
    elim (Result-cases (validate_upload_caps u.bytes u.duration_ms)) [
      | inl (v, e) ↦ inl (validate-IsWithinCaps u.bytes u.duration_ms e)
      | inr (x, e) ↦ inr (rw (e, upload_recording, try_upload) (refl, refl, refl))
    ]
