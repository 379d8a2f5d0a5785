-- ===== src/Core/Dialing.antt =====
-- crates/booth-core/src/lib.rs: from rotary pulses to a digit.
use telephone_booth.Base.{
  ℕ, zero, suc, ◌+◌, ◌%◌, ◌≤◌, ◌<◌, Bool, true, ◌≡◌, ap, ◌∙◌, List, [], ◌∷◌, arith, ◌==◌,
  if◌then◌else◌, replicate,
}
use telephone_booth.Core.Types.{
  State, dial_tone, dialing, Event, rotary_pulse, tick, Effect, play, fetch_random_question,
  fetch_random_message, fetch_instructions,
}
use telephone_booth.Hal.{builtin, BuiltinTone}
use telephone_booth.Core.Decode.{decode_digit, digit_log}
use telephone_booth.Core.Cases.{step-next, with_led_cases}
use telephone_booth.Core.Handle.{
  admit, handle_available, with_led, handle_with_call_availability, run,
}

abbrev pub pulse : Event × Bool
pulse = (rotary_pulse, true)

-- The state after `k` pulses, for `k` up to 10; none is the dial tone.
abbrev pub after_pulses : ℕ → State
after_pulses k = if k == 0 then dial_tone else dialing k

step-after_pulses :
    (k : ℕ)
    → k < 11
    → (handle_with_call_availability (after_pulses k) rotary_pulse true).0
      ≡ after_pulses ((k + 1) % 11)
unfolding handle_available admit
step-after_pulses k h = rw step-next (ground arith)

run-after_pulses :
    (n k : ℕ) → k < 11 → (run (after_pulses k) (replicate n pulse)).0 ≡ after_pulses ((k + n) % 11)
unfolding run
run-after_pulses zero k h = ap after_pulses (omega arith)
run-after_pulses (suc n) k h =
    ap (λ s. (run s (replicate n pulse)).0) (step-after_pulses k h)
    ∙ run-after_pulses n ((k + 1) % 11) (omega arith)
    ∙ ap after_pulses (omega arith)

-- From the dial tone, any number of pulses is counted modulo 11: the eleventh pulse is one too many
-- and brings the dial tone back.
run-pulses : (n : ℕ) → (run dial_tone (replicate n pulse)).0 ≡ after_pulses (n % 11)
run-pulses n = run-after_pulses n 0 (omega arith) ∙ ap after_pulses (omega arith)

after_pulses-pos : (n : ℕ) → 0 < n → n ≤ 10 → after_pulses (n % 11) ≡ dialing n
after_pulses-pos n p q = ground arith

tick-dialing :
    (n : ℕ) → 0 < n → n ≤ 10 → handle_available (dialing n) tick true ≡ decode_digit (n % 10)
unfolding handle_available admit
tick-dialing n p q = ap decode_digit (ground arith)

-- Between 1 and 10 pulses from the dial tone and then the timeout decode the digit that the number
-- of pulses stands for, ten pulses being the digit 0.
pub run-dial :
    (n : ℕ)
    → 0 < n
    → n ≤ 10
    → handle_with_call_availability (run dial_tone (replicate n pulse)).0 tick true
      ≡ with_led (dialing n) (decode_digit (n % 10))
unfolding handle_with_call_availability
run-dial n p q =
    rw (run-pulses n, after_pulses-pos n p q) (ap (with_led (dialing n)) (tick-dialing n p q))

-- What a step asks of the operator or plays.
abbrev pub requests : List Effect → List Effect
requests [] = []
requests (play source ∷ fs) = play source ∷ requests fs
requests (fetch_random_question ∷ fs) = fetch_random_question ∷ requests fs
requests (fetch_random_message ∷ fs) = fetch_random_message ∷ requests fs
requests (fetch_instructions ∷ fs) = fetch_instructions ∷ requests fs
requests (_ ∷ fs) = requests fs

-- The dial's menu.
abbrev pub menu : ℕ → Effect
menu zero = fetch_instructions
menu (suc zero) = fetch_random_question
menu (suc (suc zero)) = fetch_random_message
menu (suc (suc (suc n))) = play (builtin BuiltinTone.call_unavailable)

decode_digit-requests : (d : ℕ) → d ≤ 9 → requests (decode_digit d).1 ≡ menu d ∷ []
unfolding decode_digit digit_log
decode_digit-requests d h = ground arith

-- Dialing a digit makes exactly the one request that the menu has for it: instructions for 0, a
-- question for 1, a message for 2, and the call-cannot-be-completed prompt for 3 to 9.
run-dial-requests :
    (n : ℕ)
    → 0 < n
    → n ≤ 10
    → requests (handle_with_call_availability (run dial_tone (replicate n pulse)).0 tick true).1
      ≡ menu (n % 10) ∷ []
run-dial-requests n p q = rw (run-dial n p q) (
    with_led_cases (λ t. requests t.1 ≡ menu (n % 10) ∷ []) (dialing n) (decode_digit (n % 10))
      (decode_digit-requests (n % 10) (omega arith))
      (λ c b. decode_digit-requests (n % 10) (omega arith)))
