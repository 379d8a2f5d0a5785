-- ===== src/Core/Examples.antt =====
-- crates/booth-core/src/lib.rs: calls played through the machine, and the theorems at them.
use telephone_booth.Base.{Bool, true, false, ◌≡◌, refl, List, [], ◌∷◌, ◌++◌, All, arith}
use telephone_booth.Hal.{BoothStatus}
use telephone_booth.Core.Types.{
  status, idle, recording, uploading_timed_out, Event, hook_on, hook_off, rotary_pulse, tick,
  question_ready, playback_ended, recording_timed_out, recording_finished, upload_finished,
  complete, deferred,
}
use telephone_booth.Core.Led.{status_led_for}
use telephone_booth.Core.Decode.{decode_digit, digit_log}
use telephone_booth.Core.Handle.{handle_with_call_availability, run}
use telephone_booth.Core.Outputs.{Outputs, perform}
use telephone_booth.Core.Timers.{TimersMatch, run-TimersMatch}
use telephone_booth.Core.LedSync.{run_led}
use telephone_booth.Core.StatusSync.{StatusMatches, accepted, run-StatusMatches}
use telephone_booth.Core.Answers.{uploads, run-uploads_answer}
use telephone_booth.Core.Paused.{IsQuiet, paused-IsQuiet}
use telephone_booth.Core.HangUp.{IsAtRest, hang_up-IsAtRest}

-- Lift, dial 1, hear the question, answer until the limit, and the upload completes.
abbrev call : List Event
call =
    hook_off
    ∷ rotary_pulse
    ∷ tick
    ∷ question_ready "q"
    ∷ playback_ended
    ∷ playback_ended
    ∷ playback_ended
    ∷ recording_timed_out
    ∷ recording_finished "r"
    ∷ upload_finished "r" complete
    ∷ playback_ended
    ∷ hook_on
    ∷ []

abbrev start : Outputs
start = record {
  led = status_led_for idle;
  reported = BoothStatus.idle;
  pulse_timer = false;
  recording_timer = false;
}

call_ends : (run idle (accepted call)).0 ≡ idle
unfolding run handle_with_call_availability decode_digit digit_log
call_ends = refl

call-uploads : uploads (run idle (accepted call)).1 ≡ ("r", "q") ∷ []
unfolding run handle_with_call_availability decode_digit digit_log
call-uploads = refl

start-TimersMatch : TimersMatch idle start
start-TimersMatch = record { dialable = tt; pulse = refl; recorder = refl }

run-TimersMatch_example :
    TimersMatch (run idle (accepted call)).0 (perform (run idle (accepted call)).1 start)
run-TimersMatch_example = run-TimersMatch idle (accepted call) start (omega arith) start-TimersMatch

run_led_example :
    (perform (run idle (accepted call)).1 start).led ≡ status_led_for (run idle (accepted call)).0
run_led_example = run_led idle (accepted call) start refl

run-StatusMatches_example :
    StatusMatches (run idle (accepted call)).0 (perform (run idle (accepted call)).1 start)
unfolding status
run-StatusMatches_example = run-StatusMatches idle call start refl

-- The caller hangs up, lifts again, and the exhibition pauses.
abbrev restless : List (Event × Bool)
restless = (hook_on, true) ∷ (hook_off, true) ∷ (tick, false) ∷ (hook_on, false) ∷ []

run-uploads_answer_example :
    uploads (run (recording "q") (restless ++ (recording_finished "r", false) ∷ [])).1
    ≡ ("r", "q") ∷ []
run-uploads_answer_example =
    run-uploads_answer (recording "q") restless "r" false "q" (refl, (refl, (refl, (refl, tt))))
      refl

paused-IsQuiet_example :
    All IsQuiet
      (handle_with_call_availability
        (uploading_timed_out "r" "q" true)
        (upload_finished "r" complete)
        false).1
paused-IsQuiet_example =
    paused-IsQuiet (uploading_timed_out "r" "q" true) (upload_finished "r" complete)

hang_up-IsAtRest_example :
    IsAtRest
      (run (recording "q") (
        (hook_on, true)
        ∷ (recording_finished "r", false)
        ∷ (upload_finished "r" deferred, true)
        ∷ [])).0
hang_up-IsAtRest_example = hang_up-IsAtRest (recording "q") "r" deferred true false true
