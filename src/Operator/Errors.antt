-- ===== src/Operator/Errors.antt =====
-- crates/booth-hal/src/lib.rs: `OperatorError`; crates/booth-bin/src/lib.rs: what the runtime reads in it.
use telephone_booth.Base.{
  ℕ, ◌*◌, ◌-◌, ◌^◌, Bool, true, false, String, ◌<>◌, Option, leb, ltb, if◌then◌else◌, Result, ok,
  err,
}
use telephone_booth.Base.Decimal.{decimal_u64}

pub data OperatorError : Type 0 where
  transport auth unauthorized duplicate_recording invalid_argument conflict : String → OperatorError
  installation_inactive : String → OperatorError
  -- max_bytes, body
  payload_too_large : Option ℕ → String → OperatorError
  unprocessable unsupported : String → OperatorError
  -- status, body
  server : ℕ → String → OperatorError
  protocol : String → OperatorError

-- `to_string`.
unfoldable pub display : OperatorError → String
display (transport s) = "operator transport error: " <> s
display (auth s) = "operator auth error: " <> s
display (unauthorized s) = "operator unauthorized: " <> s
display (duplicate_recording s) = "duplicate recording: " <> s
display (invalid_argument s) = "operator invalid argument: " <> s
display (conflict s) = "operator conflict: " <> s
display (installation_inactive s) = "operator installation inactive: " <> s
display (payload_too_large max_bytes body) = "operator payload too large: " <> body
display (unprocessable s) = "operator validation error: " <> s
display (unsupported s) = "operator operation unsupported: " <> s
display (server status body) =
    "operator returned an error: " <> (decimal_u64 status <> (" " <> body))
display (protocol s) = "operator returned an unexpected response: " <> s

unfoldable pub operator_status {ℓ} : {T : Type ℓ} → Result OperatorError T → ℕ
operator_status (ok v) = 200
operator_status (err (auth s)) = 401
operator_status (err (unauthorized s)) = 401
operator_status (err (duplicate_recording s)) = 409
operator_status (err (conflict s)) = 409
operator_status (err (installation_inactive s)) = 409
operator_status (err (invalid_argument s)) = 422
operator_status (err (unprocessable s)) = 422
operator_status (err (payload_too_large max_bytes body)) = 413
operator_status (err (protocol s)) = 502
operator_status (err (transport s)) = 503
operator_status (err (unsupported s)) = 503
operator_status (err (server status body)) = status

unfoldable pub is_retryable_operator_error : OperatorError → Bool
is_retryable_operator_error (transport s) = true
is_retryable_operator_error (server status body) = leb 500 status
is_retryable_operator_error _ = false

-- A `u32` shifted left by 32 or more is out of range.
abbrev pub checked_shl_one : ℕ → ℕ
checked_shl_one shift = if ltb shift 32 then 2 ^ shift else 2 ^ 32 - 1

-- Milliseconds. `Duration::saturating_mul` is far from its limit here.
unfoldable pub operator_backoff : ℕ → ℕ
operator_backoff attempt = 100 * checked_shl_one (attempt - 1)
