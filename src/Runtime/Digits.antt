-- ===== src/Runtime/Digits.antt =====
-- crates/booth-bin/src/lib.rs, `dialed_digit_for_telemetry`, and crates/booth-core/src/lib.rs: what is
-- published of a dialed digit and what the machine does with it.
use telephone_booth.Base.{
  ℕ, zero, Bool, true, false, Option, none, some, List, [], ◌∷◌, ◌++◌, ◌≡◌, refl, ◌≢◌, ◌∙◌, ap, sym,
  All, ◌==◌, leb, if◌then◌else◌, retain, arith,
}
use telephone_booth.Hal.{builtin, BuiltinTone}
use telephone_booth.Core.Types.{
  State, calls_paused, dial_tone, dialing, recording, UploadOutcome, Event, upload_finished,
  digit_dialed, Effect, play, fetch_random_question, fetch_random_message, fetch_instructions,
}
use telephone_booth.Core.Decode.{decode_digit, digit_log}
use telephone_booth.Core.Handle.{
  outcome_event, admit, handle_available, handle_with_call_availability,
}
use telephone_booth.Core.Cases.{with_led_cases, upload_finished_cases, step-next}
use telephone_booth.Runtime.Events.{
  Published, digit_published, publish, dialed_digit_for_telemetry, published_digit, handle_event,
}
use telephone_booth.Core.Paused.{IsQuiet, paused-IsQuiet}
use telephone_booth.Core.Dialing.{menu}

-- Does the effect connect the caller?
abbrev connects : Effect → Bool
connects fetch_random_question = true
connects fetch_random_message = true
connects fetch_instructions = true
connects (play (builtin BuiltinTone.call_unavailable)) = true
connects _ = false

abbrev pub connections : Option (ℕ × ℕ) → List Effect
connections none = []
connections (some (digit, pulses)) = menu digit ∷ []

abbrev pub connecting : List Effect → List Effect
connecting effects = retain connects effects

decode-connecting :
    (digit : ℕ) → connecting (decode_digit digit).1 ≡ (if leb digit 9 then menu digit ∷ [] else [])
unfolding decode_digit digit_log
decode-connecting digit = ground arith

abbrev digit_of : State → Event → ℕ
digit_of s (digit_dialed digit) = digit
digit_of (dialing pulses) e = if pulses == 10 then 0 else pulses
digit_of s e = 0

accepted-connecting :
    (s : State) (e : Event)
    → s ≢ dialing 0
    → connecting (admit s e true).1 ≡ connections (dialed_digit_for_telemetry s e)
unfolding admit dialed_digit_for_telemetry
accepted-connecting (calls_paused h) e started =
    ground (arith, decode-connecting (digit_of (calls_paused h) e))
accepted-connecting (dialing pulses) e started =
    ground (arith, decode-connecting (digit_of (dialing pulses) e))
accepted-connecting dial_tone e started = ground (arith, decode-connecting (digit_of dial_tone e))
accepted-connecting _ e started = ground arith

no_digit :
    (s : State) (outcome : UploadOutcome)
    → dialed_digit_for_telemetry s (outcome_event outcome) ≡ none
unfolding dialed_digit_for_telemetry outcome_event
no_digit s outcome = ground arith

available-connecting :
    (s : State) (e : Event)
    → s ≢ dialing 0
    → connecting (handle_available s e true).1 ≡ connections (dialed_digit_for_telemetry s e)
unfolding handle_available dialed_digit_for_telemetry
available-connecting s (upload_finished r outcome) started =
    upload_finished_cases
      (λ t. connecting t.1 ≡ connections (dialed_digit_for_telemetry s (upload_finished r outcome)))
      s r outcome true (ap connections (sym (stale_digit s)))
      (accepted-connecting s (outcome_event outcome) started
        ∙ ap connections (no_digit s outcome ∙ sym (stale_digit s)))
  where
    stale_digit : (s : State) → dialed_digit_for_telemetry s (upload_finished r outcome) ≡ none
    stale_digit s = ground arith
available-connecting s e started = accepted-connecting s e started

quiet-connecting : (effects : List Effect) → All IsQuiet effects → connecting effects ≡ []
quiet-connecting [] h = refl
quiet-connecting (e ∷ effects) h = ground (arith, quiet-connecting effects h.1)

-- The connections of the digits among what is published.
abbrev pub dialed : List Published → List Effect
dialed [] = []
dialed (digit_published digit pulses ∷ ps) = menu digit ∷ dialed ps
dialed (_ ∷ ps) = dialed ps

publish-dialed :
    (from : State) (e : Event) (to : State) (digit : Option (ℕ × ℕ))
    → dialed (publish from e to digit) ≡ connections digit
unfolding publish
publish-dialed from e to digit = ground arith

abbrev pub is_started : State → Bool
is_started (dialing zero) = false
is_started _ = true

started_lem : (s : State) → is_started s ≡ true → s ≢ dialing 0
started_lem s h e = ground arith

-- What the machine asks for on an event, a fetch or the recorded refusal, is what the published
-- digits stand for, whether calls are accepted or not; the dial has counted a pulse if it counts.
pub handle_event-connecting :
    (accepting_calls : Bool) (s : State) (e : Event)
    → is_started s ≡ true
    → let ((next, effects), published) = handle_event accepting_calls s e in
      connecting effects ≡ dialed published
unfolding handle_event published_digit handle_with_call_availability
handle_event-connecting true s e started =
    with_led_cases (λ t. connecting t.1 ≡ connections (dialed_digit_for_telemetry s e)) s
      (handle_available s e true) (available-connecting s e (started_lem s started))
      (λ c p. available-connecting s e (started_lem s started))
    ∙ sym (publish-dialed s e (handle_with_call_availability s e true).0 (published_digit true s e))
handle_event-connecting false s e started =
    quiet-connecting (handle_with_call_availability s e false).1 (paused-IsQuiet s e)
    ∙ sym
        (publish-dialed s e (handle_with_call_availability s e false).0 (published_digit false s e))

decode-started : (digit : ℕ) → is_started (decode_digit digit).0 ≡ true
unfolding decode_digit
decode-started digit = ground arith

admit-started :
    (s : State) (e : Event) (accepting_calls : Bool)
    → is_started s ≡ true
    → is_started (admit s e accepting_calls).0 ≡ true
unfolding admit
admit-started (recording q) e acc started = ground arith
admit-started (calls_paused h) e acc started =
    ground (arith, decode-started (digit_of (calls_paused h) e))
admit-started (dialing pulses) e acc started =
    ground (arith, decode-started (digit_of (dialing pulses) e))
admit-started dial_tone e acc started = ground (arith, decode-started (digit_of dial_tone e))
admit-started _ e acc started = ground arith

pub handle_event-started :
    (accepting_calls : Bool) (s : State) (e : Event)
    → is_started s ≡ true
    → is_started (handle_event accepting_calls s e).0.0 ≡ true
unfolding handle_event handle_available
handle_event-started acc s (upload_finished r outcome) started =
    rw (step-next s (upload_finished r outcome) acc) (
      upload_finished_cases (λ t. is_started t.0 ≡ true) s r outcome acc started
        (admit-started s (outcome_event outcome) acc started))
handle_event-started acc s e started = rw (step-next s e acc) (admit-started s e acc started)

pub connecting-append :
    (xs ys : List Effect) → connecting (xs ++ ys) ≡ connecting xs ++ connecting ys
connecting-append [] ys = refl
connecting-append (e ∷ xs) ys = ground (arith, connecting-append xs ys)

pub dialed-append : (xs ys : List Published) → dialed (xs ++ ys) ≡ dialed xs ++ dialed ys
dialed-append [] ys = refl
dialed-append (digit_published digit pulses ∷ xs) ys =
    ap (λ l. menu digit ∷ l) (dialed-append xs ys)
dialed-append (_ ∷ xs) ys = dialed-append xs ys
