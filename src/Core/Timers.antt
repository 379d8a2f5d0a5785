-- ===== src/Core/Timers.antt =====
-- crates/booth-core/src/lib.rs: the two timers follow the state.
use telephone_booth.Base.{
  ℕ, ◌≤◌, ◌<◌, Bool, true, false, ◌≡◌, List, [], ◌∷◌, arith, All, if◌then◌else◌, ◌==◌,
}
use telephone_booth.Hal.{BoothStatus}
use telephone_booth.Core.Types.{
  State, calls_paused, dialing, recording, Event, digit_dialed, upload_finished, UploadOutcome,
  complete, deferred, failed,
}
use telephone_booth.Core.Decode.{Transition, decode_digit, digit_log}
use telephone_booth.Core.Handle.{
  outcome_event, admit, handle_available, handle_with_call_availability, run,
}
use telephone_booth.Core.Cases.{with_led_cases, upload_finished_cases}
use telephone_booth.Core.Outputs.{Outputs, perform, perform-append}

-- The pulses counted so far make a digit.
abbrev pub IsDialable : State → Type 0
IsDialable (dialing pulses) = (0 < pulses) × (pulses ≤ 10)
IsDialable _ = Unit {0}

-- A digit event carries a decimal digit.
abbrev pub IsDecimal : Event → Type 0
IsDecimal (digit_dialed digit) = digit ≤ 9
IsDecimal _ = Unit {0}

abbrev pub is_dialing : State → Bool
is_dialing (dialing pulses) = true
is_dialing _ = false

abbrev pub is_recording : State → Bool
is_recording (recording q) = true
is_recording _ = false

pub record TimersMatch (s : State) (o : Outputs) : Type 0 where
  pub dialable : IsDialable s
  pub pulse : o.pulse_timer ≡ is_dialing s
  pub recorder : o.recording_timer ≡ is_recording s

abbrev Keeps : Transition → Outputs → Type 0
Keeps t o = TimersMatch t.0 (perform t.1 o)

-- A decimal digit disarms the pulse timer, and leads to no dialing and no recording.
decode_digit-TimersMatch :
    (digit : ℕ) (o : Outputs) → digit ≤ 9 → o.recording_timer ≡ false → Keeps (decode_digit digit) o
unfolding decode_digit digit_log
decode_digit-TimersMatch digit o h r = ground arith

pulses-TimersMatch :
    (pulses : ℕ) (o : Outputs)
    → 0 < pulses
    → pulses ≤ 10
    → o.recording_timer ≡ false
    → Keeps (decode_digit (if pulses == 10 then 0 else pulses)) o
pulses-TimersMatch pulses o p q r =
    ground (arith, decode_digit-TimersMatch 0 o, decode_digit-TimersMatch pulses o)

abbrev digit_of : Event → ℕ
digit_of (digit_dialed digit) = digit
digit_of _ = 0

admit-TimersMatch :
    (s : State) (e : Event) (accepting_calls : Bool) (o : Outputs)
    → IsDecimal e
    → TimersMatch s o
    → Keeps (admit s e accepting_calls) o
unfolding admit
admit-TimersMatch (dialing pulses) e acc o d m =
    ground (arith, decode_digit-TimersMatch (digit_of e) o, pulses-TimersMatch pulses o)
admit-TimersMatch (calls_paused h) e acc o d m =
    ground
      (arith, decode_digit-TimersMatch (digit_of e) (record o { reported = BoothStatus.dial_tone }))
admit-TimersMatch _ e acc o d m = ground (arith, decode_digit-TimersMatch (digit_of e) o)

outcome_event-IsDecimal : (outcome : UploadOutcome) → IsDecimal (outcome_event outcome)
unfolding outcome_event
outcome_event-IsDecimal complete = tt
outcome_event-IsDecimal deferred = tt
outcome_event-IsDecimal (failed reason) = tt

handle_available-TimersMatch :
    (s : State) (e : Event) (accepting_calls : Bool) (o : Outputs)
    → IsDecimal e
    → TimersMatch s o
    → Keeps (handle_available s e accepting_calls) o
unfolding handle_available
handle_available-TimersMatch s (upload_finished r outcome) acc o d m =
    upload_finished_cases (λ t. Keeps t o) s r outcome acc m
      (admit-TimersMatch s (outcome_event outcome) acc o (outcome_event-IsDecimal outcome) m)
handle_available-TimersMatch s e acc o d m = admit-TimersMatch s e acc o d m

step-TimersMatch :
    (s : State) (e : Event) (accepting_calls : Bool) (o : Outputs)
    → IsDecimal e
    → TimersMatch s o
    → Keeps (handle_with_call_availability s e accepting_calls) o
unfolding handle_with_call_availability
step-TimersMatch s e acc o d m =
    with_led_cases (λ t. Keeps t o) s (handle_available s e acc)
      (handle_available-TimersMatch s e acc o d m)
      λ c p.
        handle_available-TimersMatch s e acc (record o { led = (c, p) }) d
          (record { dialable = m.dialable; pulse = m.pulse; recorder = m.recorder })

-- Every digit event of a history carries a decimal digit.
abbrev pub AllDecimal : List (Event × Bool) → Type 0
AllDecimal = All λ input. IsDecimal input.0

-- After any history of events and admission decisions whose digit events carry decimal digits, from
-- a state whose timers match it, they match the state again: the pulse timer is armed exactly while
-- a digit is being dialed, whose pulses are then between 1 and 10, and the recording timer exactly
-- while an answer is being recorded.
pub run-TimersMatch :
    (s : State) (es : List (Event × Bool)) (o : Outputs)
    → AllDecimal es
    → TimersMatch s o
    → TimersMatch (run s es).0 (perform (run s es).1 o)
unfolding run
run-TimersMatch s [] o d m = m
run-TimersMatch s ((e, acc) ∷ es) o d m =
    let (next, effects) = handle_with_call_availability s e acc in
    rw (perform-append effects (run next es).1 o)
      (run-TimersMatch next es (perform effects o) d.1 (step-TimersMatch s e acc o d.0 m))
