-- ===== src/Operator/Retry.antt =====
-- crates/booth-bin/src/lib.rs: `retry_operator`. The outside world is a state `W`, which an operation
-- reads and changes; what the runtime publishes and how long it sleeps is the trace. The number of the
-- request sequence is a `u64`; the measured durations are not modelled.
use telephone_booth.Base.{
  ℕ, zero, suc, ◌+◌, ◌%◌, ◌^◌, not, ◌||◌, String, List, [], ◌∷◌, ◌++◌, ◌==◌, if◌then◌else◌, Result,
  ok, err,
}
use telephone_booth.Hal.{RecordingId}
use telephone_booth.Core.Types.{UploadOutcome}
use telephone_booth.Operator.Errors.{
  OperatorError, transport, installation_inactive, display, operator_status,
  is_retryable_operator_error, operator_backoff,
}

abbrev pub operator_attempts : ℕ
operator_attempts = 3

pub data Action : Type 0 where
  -- id, route
  operator_request : ℕ → String → Action
  -- id, status
  operator_response : ℕ → ℕ → Action
  -- source, message
  error_event : String → String → Action
  sleep_ms : ℕ → Action
  -- recording, session, bytes
  upload_completed : RecordingId → String → ℕ → Action
  -- recording, session, message
  upload_failed : RecordingId → String → String → Action
  -- recording, session
  upload_started : RecordingId → String → Action
  cleanup_recording : RecordingId → Action
  remove_file : String → Action
  upload_finished : RecordingId → UploadOutcome → Action

-- An inactive installation is no error to report.
unfoldable pub publish_operator_error : String → OperatorError → List Action
publish_operator_error source (installation_inactive s) = []
publish_operator_error source e = error_event source (display e) ∷ []

-- The world, the sequence number of requests, and what was done, in order.
pub record World (W : Type 0) : Type 0 where
  pub outside : W
  pub request_seq : ℕ
  pub trace : List Action

abbrev pub Operation : Type 0 → Type 0 → Type 0
Operation W T = W → Result OperatorError T × W

module _ {W : Type 0} (route : String) where
  -- The error is reported, and the next attempt waits.
  unfoldable pub back_off : ℕ → OperatorError → World W → World W
  unfolding publish_operator_error operator_backoff
  back_off attempt e w = record w {
    trace = w.trace ++ (publish_operator_error route e ++ sleep_ms (operator_backoff attempt) ∷ []);
  }

module _ {W T : Type 0} (route : String) (operation : Operation W T) where
  -- One call with its request and its response on the bus.
  unfoldable pub call_operator : World W → Result OperatorError T × World W
  unfolding operator_status
  call_operator w =
      let id = (w.request_seq + 1) % 2 ^ 64 in
      let (result, outside) = operation w.outside in
      (
        result,
        record {
          outside = outside;
          request_seq = id;
          trace =
              w.trace
              ++ operator_request id route ∷ operator_response id (operator_status result) ∷ [];
        },
      )

  -- The rounds of `for attempt in 1..=OPERATOR_ATTEMPTS` that are left, from `attempt` on.
  unfoldable pub retry_from : ℕ → ℕ → World W → Result OperatorError T × World W
  unfolding is_retryable_operator_error
  retry_from zero attempt w = (err (transport "operator retry loop exhausted"), w)
  retry_from (suc left) attempt w =
      let (result, w') = call_operator w in
      elim result [
        | ok v ↦ (ok v, w')
        | err e ↦
            let rest = retry_from left (attempt + 1) (back_off route attempt e w') in
            if attempt == operator_attempts || not (is_retryable_operator_error e)
            then (err e, w')
            else rest
      ]

  unfoldable pub retry_operator : World W → Result OperatorError T × World W
  retry_operator w = retry_from operator_attempts 1 w
