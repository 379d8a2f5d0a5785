-- ===== src/Config/Sections.antt =====
-- crates/booth-bin/src/lib.rs: what `validate_config` asks of each section.
use telephone_booth.Base.{
  ◌≤◌, ◌<◌, Bool, true, false, String, none, List, [], ◌∷◌, ◌++◌, ◌≡◌, ◌↔◌, refl, arith,
}
use telephone_booth.Config.Types.{
  AudioConfig, OperatorConfig, OperatorForwardConfig, ShellyConfig, Features,
}
use telephone_booth.Config.Validate.{
  is_blank, first_error, operator_checks, recording_checks, forward_checks, shelly_checks,
}

-- No condition to bail out holds.
abbrev pub Passes : List (Bool × String) → Type 0
Passes [] = Unit
Passes ((fails, text) ∷ checks) = (fails ≡ false) × Passes checks

pub first_error_iff : (checks : List (Bool × String)) → (first_error checks ≡ none) ↔ Passes checks
unfolding first_error
first_error_iff [] = (λ h. _, λ h. refl)
first_error_iff ((true, text) ∷ checks) = (λ h. cc, λ h. cc)
first_error_iff ((false, text) ∷ checks) =
    (λ h. (refl, (first_error_iff checks).0 h), λ h. (first_error_iff checks).1 h.1)

pub Passes-append_iff : (xs ys : List (Bool × String)) → Passes (xs ++ ys) ↔ (Passes xs × Passes ys)
Passes-append_iff [] ys = (λ h. (_, h), λ h. h.1)
Passes-append_iff (x ∷ xs) ys = (
  λ h. let (a, b) = (Passes-append_iff xs ys).0 h.1 in ((h.0, a), b),
  λ h. (h.0.0, (Passes-append_iff xs ys).1 (h.0.1, h.1)),
)

-- What each section asks for.
pub record OperatorIsValid (o : OperatorConfig) : Type 0 where
  pub timeout : 1 ≤ o.http_timeout_secs
  pub initial : 1 ≤ o.ws_reconnect_initial_ms
  pub maximal : o.ws_reconnect_initial_ms ≤ o.ws_reconnect_max_ms

pub record RecordingIsValid (a : AudioConfig) : Type 0 where
  pub some_maximum : 1 ≤ a.max_recording_secs
  pub ceiling : a.max_recording_secs ≤ 600
  pub minimum : a.min_recording_secs < a.max_recording_secs

pub record ForwardIsValid (f : OperatorForwardConfig) : Type 0 where
  pub some_batch : 1 ≤ f.batch_max
  pub flushes : 1 ≤ f.flush_interval_ms
  pub buffer : f.batch_max ≤ f.buffer_max
  pub pushes : 1 ≤ f.system_push_interval_ms

pub record ShellyIsValid (features : Features) (observability : Bool) (s : ShellyConfig)
    : Type 0 where
  pub interval : 2 ≤ s.poll_interval_seconds
  pub timeout : (1 ≤ s.request_timeout_seconds) × s.request_timeout_seconds ≤ 30
  pub enabled :
      s.enabled ≡ true
      → (observability ≡ true)
        × (is_blank s.device ≡ false)
        × (is_blank s.endpoint ≡ false)
        × (features.shelly ≡ true)

pub operator_iff : (o : OperatorConfig) → Passes (operator_checks o) ↔ OperatorIsValid o
operator_iff o = ground arith

pub recording_iff : (a : AudioConfig) → Passes (recording_checks a) ↔ RecordingIsValid a
recording_iff a = ground arith

pub forward_iff : (f : OperatorForwardConfig) → Passes (forward_checks f) ↔ ForwardIsValid f
forward_iff f = ground arith

pub shelly_iff :
    (features : Features) (observability : Bool) (s : ShellyConfig)
    → Passes (shelly_checks features observability s) ↔ ShellyIsValid features observability s
shelly_iff features observability s = ground arith
