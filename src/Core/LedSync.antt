-- ===== src/Core/LedSync.antt =====
-- crates/booth-core/src/lib.rs, `handle_with_call_availability`: the LED shows the state.
use telephone_booth.Base.{ℕ, refl, if◌then◌else◌, ◌==◌, Bool, ◌≡◌, List, [], ◌∷◌, arith}
use telephone_booth.Hal.{BoothStatus}
use telephone_booth.Core.Types.{State, calls_paused, dialing, Event, upload_finished, digit_dialed}
use telephone_booth.Core.Decode.{Transition, decode_digit, digit_log}
use telephone_booth.Core.Handle.{
  outcome_event, admit, handle_available, with_led, handle_with_call_availability, run,
}
use telephone_booth.Core.Cases.{upload_finished_cases}
use telephone_booth.Core.Led.{Led, status_led_for, led_eq_sound}
use telephone_booth.Core.Outputs.{Outputs, perform, perform-append}

abbrev KeepsLed : Transition → Outputs → Type 0
KeepsLed t o = (perform t.1 o).led ≡ o.led

decode_digit-KeepsLed : (digit : ℕ) (o : Outputs) → KeepsLed (decode_digit digit) o
unfolding decode_digit digit_log
decode_digit-KeepsLed digit o = ground arith

abbrev digit_of : State → Event → ℕ
digit_of s (digit_dialed digit) = digit
digit_of (dialing pulses) e = if pulses == 10 then 0 else pulses
digit_of s e = 0

admit-KeepsLed :
    (s : State) (e : Event) (accepting_calls : Bool) (o : Outputs)
    → KeepsLed (admit s e accepting_calls) o
unfolding admit
admit-KeepsLed (calls_paused h) e acc o = ground (
  arith,
  decode_digit-KeepsLed (digit_of (calls_paused h) e)
      (record o { reported = BoothStatus.dial_tone }),
)
admit-KeepsLed (dialing pulses) e acc o =
    ground (arith, decode_digit-KeepsLed (digit_of (dialing pulses) e) o)
admit-KeepsLed s e acc o = ground (arith, decode_digit-KeepsLed (digit_of s e) o)

handle_available-KeepsLed :
    (s : State) (e : Event) (accepting_calls : Bool) (o : Outputs)
    → KeepsLed (handle_available s e accepting_calls) o
unfolding handle_available
handle_available-KeepsLed s (upload_finished r outcome) acc o =
    upload_finished_cases (λ t. KeepsLed t o) s r outcome acc refl
      (admit-KeepsLed s (outcome_event outcome) acc o)
handle_available-KeepsLed s e acc o = admit-KeepsLed s e acc o

with_led-shows :
    (s : State) (t : Transition) (o : Outputs)
    → ((led : Led) → KeepsLed t (record o { led = led }))
    → o.led ≡ status_led_for s
    → (perform (with_led s t).1 o).led ≡ status_led_for (with_led s t).0
unfolding with_led
with_led-shows s t o keeps m = ground (
  arith,
  keeps o.led,
  keeps (status_led_for t.0),
  led_eq_sound (status_led_for t.0) (status_led_for s),
)

step_led :
    (s : State) (e : Event) (accepting_calls : Bool) (o : Outputs)
    → o.led ≡ status_led_for s
    → let t = handle_with_call_availability s e accepting_calls in
      (perform t.1 o).led ≡ status_led_for t.0
unfolding handle_with_call_availability
step_led s e acc o m =
    with_led-shows s (handle_available s e acc) o
      (λ led. handle_available-KeepsLed s e acc (record o { led = led })) m

-- If the LED shows the indication of the state, then after any history of events and admission
-- decisions it shows the indication of the state that the history ends in.
pub run_led :
    (s : State) (es : List (Event × Bool)) (o : Outputs)
    → o.led ≡ status_led_for s
    → (perform (run s es).1 o).led ≡ status_led_for (run s es).0
unfolding run
run_led s [] o m = m
run_led s ((e, acc) ∷ es) o m =
    let (next, effects) = handle_with_call_availability s e acc in
    rw (perform-append effects (run next es).1 o)
      (run_led next es (perform effects o) (step_led s e acc o m))
