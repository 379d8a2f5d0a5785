-- ===== src/Core/StatusSync.antt =====
-- crates/booth-core/src/lib.rs: while calls are accepted, the operator's status follows the state.
use telephone_booth.Base.{ℕ, if◌then◌else◌, ◌==◌, Bool, true, ◌≡◌, List, [], ◌∷◌, arith}
use telephone_booth.Hal.{BoothStatus}
use telephone_booth.Core.Types.{
  State, calls_paused, dialing, error, Event, upload_finished, digit_dialed, status,
}
use telephone_booth.Core.Decode.{Transition, decode_digit, digit_log}
use telephone_booth.Core.Handle.{
  outcome_event, admit, handle_available, handle, handle_with_call_availability, run,
}
use telephone_booth.Core.Cases.{with_led_cases, upload_finished_cases}
use telephone_booth.Core.Led.{Led}
use telephone_booth.Core.Outputs.{Outputs, perform, perform-append}

-- The operator shows the state's status; nothing is asked of `error`, whose entry announces nothing
-- after a failed fetch or upload, or of paused calls, during which the core writes no status.
abbrev pub StatusMatches : State → Outputs → Type 0
StatusMatches (error reason) o = Unit {0}
StatusMatches (calls_paused on_hook) o = Unit {0}
StatusMatches s o = o.reported ≡ status s

abbrev Keeps : Transition → Outputs → Type 0
Keeps t o = StatusMatches t.0 (perform t.1 o)

decode_digit-Keeps :
    (digit : ℕ) (o : Outputs) → o.reported ≡ BoothStatus.dial_tone → Keeps (decode_digit digit) o
unfolding decode_digit digit_log status
decode_digit-Keeps digit o h = ground arith

abbrev digit_of : State → Event → ℕ
digit_of s (digit_dialed digit) = digit
digit_of (dialing pulses) e = if pulses == 10 then 0 else pulses
digit_of s e = 0

admit-Keeps : (s : State) (e : Event) (o : Outputs) → StatusMatches s o → Keeps (admit s e true) o
unfolding admit status
admit-Keeps (calls_paused h) e o m = ground (
  arith,
  decode_digit-Keeps (digit_of (calls_paused h) e) (record o { reported = BoothStatus.dial_tone }),
)
admit-Keeps (dialing pulses) e o m =
    ground (arith, decode_digit-Keeps (digit_of (dialing pulses) e) o)
admit-Keeps _ e o m = ground (arith, decode_digit-Keeps (digit_of (error "") e) o)

handle_available-Keeps :
    (s : State) (e : Event) (o : Outputs) → StatusMatches s o → Keeps (handle_available s e true) o
unfolding handle_available
handle_available-Keeps s (upload_finished r outcome) o m =
    upload_finished_cases (λ t. Keeps t o) s r outcome true m
      (admit-Keeps s (outcome_event outcome) o m)
handle_available-Keeps s e o m = admit-Keeps s e o m

StatusMatches-led :
    (s : State) (o : Outputs) (led : Led)
    → StatusMatches s o
    → StatusMatches s (record o { led = led })
StatusMatches-led (error reason) o led m = tt
StatusMatches-led _ o led m = m

handle-Keeps : (s : State) (e : Event) (o : Outputs) → StatusMatches s o → Keeps (handle s e) o
unfolding handle handle_with_call_availability
handle-Keeps s e o m =
    with_led_cases (λ t. Keeps t o) s (handle_available s e true) (handle_available-Keeps s e o m)
      λ c p. handle_available-Keeps s e (record o { led = (c, p) }) (StatusMatches-led s o (c, p) m)

-- The events of a history during which calls are accepted throughout.
abbrev pub accepted : List Event → List (Event × Bool)
accepted [] = []
accepted (e ∷ es) = (e, true) ∷ accepted es

-- While calls are accepted, the status reported to the operator is the status of the state after
-- any events, if it was so before them; states of error and of paused calls are left out, before
-- and after.
pub run-StatusMatches :
    (s : State) (es : List Event) (o : Outputs)
    → StatusMatches s o
    → StatusMatches (run s (accepted es)).0 (perform (run s (accepted es)).1 o)
unfolding run handle
run-StatusMatches s [] o m = m
run-StatusMatches s (e ∷ es) o m =
    let (next, effects) = handle_with_call_availability s e true in
    rw (perform-append effects (run next (accepted es)).1 o)
      (run-StatusMatches next es (perform effects o) (handle-Keeps s e o m))
