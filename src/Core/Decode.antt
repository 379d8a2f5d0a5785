-- ===== src/Core/Decode.antt =====
-- crates/booth-core/src/lib.rs, `decode_digit`: what a dialed digit does.
use telephone_booth.Base.{
  ℕ, ◌/◌, ◌%◌, String, ◌<>◌, List, [], ◌∷◌, ◌&&◌, ◌==◌, leb, ltb, if◌then◌else◌,
}
use telephone_booth.Hal.{builtin, BuiltinTone, BoothStatus}
use telephone_booth.Core.Types.{
  State, dial_tone, call_unavailable, error, Effect, play, fetch_random_question,
  fetch_random_message, fetch_instructions, put_status, cancel_pulse_timeout, log,
}

-- A state and the effects to run, in order.
abbrev pub Transition : Type 0
Transition = State × List Effect

digit_text : ℕ → String
digit_text d =
    if d == 0
    then "0"
    else if d == 1
    then "1"
    else if d == 2
    then "2"
    else if d == 3
    then "3"
    else if d == 4
    then "4"
    else if d == 5
    then "5"
    else if d == 6
    then "6"
    else if d == 7
    then "7"
    else if d == 8
    then "8"
    else "9"

-- `{digit}` in a format string: a `u8` in decimal.
unfoldable pub decimal : ℕ → String
unfolding digit_text
decimal n =
    if ltb n 10
    then digit_text n
    else if ltb n 100
    then digit_text (n / 10) <> digit_text (n % 10)
    else digit_text (n / 100) <> (digit_text (n / 10 % 10) <> digit_text (n % 10))

unfoldable pub digit_action : ℕ → String
digit_action digit =
    if digit == 1
    then "fetching a random question"
    else if digit == 2
    then "fetching a random message"
    else if digit == 0
    then "fetching a random operator instructions clip"
    else "playing the call-cannot-be-completed prompt"

-- The log line that every valid digit puts in front of its effects.
unfoldable pub digit_log : ℕ → Effect
digit_log digit = log ("dialed digit " <> (decimal digit <> (": " <> digit_action digit)))

unfoldable pub decode_digit : ℕ → Transition
decode_digit digit =
    if digit == 1
    then (dial_tone, digit_log digit ∷ fetch_random_question ∷ cancel_pulse_timeout ∷ [])
    else if digit == 2
    then (dial_tone, digit_log digit ∷ fetch_random_message ∷ cancel_pulse_timeout ∷ [])
    else if leb 3 digit && leb digit 9
    then (
      call_unavailable,
      digit_log digit
          ∷ play (builtin BuiltinTone.call_unavailable)
          ∷ cancel_pulse_timeout
          ∷ put_status BoothStatus.call_unavailable
          ∷ [],
    )
    else if digit == 0
    then (dial_tone, digit_log digit ∷ fetch_instructions ∷ cancel_pulse_timeout ∷ [])
    else (error ("invalid digit " <> decimal digit), play (builtin BuiltinTone.line_busy) ∷ [])
