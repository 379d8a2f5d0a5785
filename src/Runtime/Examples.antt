-- ===== src/Runtime/Examples.antt =====
-- crates/booth-bin/src/lib.rs: a digit dialed, and then the gate closes.
use telephone_booth.Base.{true, false, List, [], ◌∷◌, ◌≡◌, refl}
use telephone_booth.Core.Types.{digit_dialed, hook_off, question_ready, dial_tone}
use telephone_booth.Core.Paused.{is_resting}
use telephone_booth.Runtime.Digits.{connecting, dialed}
use telephone_booth.Runtime.Loop.{
  LoopInput, installation_changed, event_received, Runtime, first_runtime, start_runtime, run_loop,
}
use telephone_booth.Runtime.Published.{run_loop-connecting, run_loop-pauses}

abbrev call : List LoopInput
call = event_received (digit_dialed 1) true ∷ event_received (question_ready "q1") true ∷ []

abbrev at_dial_tone : Runtime
at_dial_tone = record (first_runtime true false) { state = dial_tone }

run_loop-connecting_example :
    connecting (run_loop false call (start_runtime true false true)).effects
    ≡ dialed (run_loop false call (start_runtime true false true)).published
run_loop-connecting_example = run_loop-connecting false true false true call

run_loop-pauses_example :
    is_resting
      (run_loop false
        (installation_changed false false ∷ event_received hook_off false ∷ [])
        at_dial_tone).state
    ≡ true
run_loop-pauses_example =
    run_loop-pauses false (event_received hook_off false ∷ []) at_dial_tone refl refl refl
