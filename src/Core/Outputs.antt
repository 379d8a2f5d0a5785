-- ===== src/Core/Outputs.antt =====
-- What the effects of crates/booth-core/src/lib.rs do to the booth's outputs, as the comments on
-- `Effect` tell it: the LED, the status at the operator and the two timers keep the last command.
use telephone_booth.Base.{Bool, true, false, List, [], ◌∷◌, ◌++◌, ◌≡◌, refl}
use telephone_booth.Hal.{BoothStatus}
use telephone_booth.Core.Types.{
  Effect, arm_recording_timeout, cancel_recording_timeout, put_status, arm_pulse_timeout,
  cancel_pulse_timeout, set_status_led,
}
use telephone_booth.Core.Led.{Led}

pub record Outputs : Type 0 where
  pub led : Led
  pub reported : BoothStatus
  pub pulse_timer : Bool
  pub recording_timer : Bool

abbrev pub apply : Effect → Outputs → Outputs
apply (set_status_led colour pattern) o = record o { led = (colour, pattern) }
apply (put_status status) o = record o { reported = status }
apply arm_pulse_timeout o = record o { pulse_timer = true }
apply cancel_pulse_timeout o = record o { pulse_timer = false }
apply arm_recording_timeout o = record o { recording_timer = true }
apply cancel_recording_timeout o = record o { recording_timer = false }
apply _ o = o

-- The effects are run in order.
abbrev pub perform : List Effect → Outputs → Outputs
perform [] o = o
perform (f ∷ fs) o = perform fs (apply f o)

pub perform-append :
    (fs gs : List Effect) (o : Outputs) → perform (fs ++ gs) o ≡ perform gs (perform fs o)
perform-append [] gs o = refl
perform-append (f ∷ fs) gs o = perform-append fs gs (apply f o)
