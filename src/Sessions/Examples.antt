-- ===== src/Sessions/Examples.antt =====
-- crates/booth-bin/src/observability.rs: a call that is dialed and hung up, as the forwarder sees it.
use telephone_booth.Base.{
  ℕ, true, false, not, String, none, some, List, [], ◌∷◌, ◌≡◌, if◌then◌else◌,
}
use telephone_booth.Hal.{BoothStatus}
use telephone_booth.Core.Types.{Event, digit_dialed, question_ready, status}
use telephone_booth.Runtime.Events.{is_idle_or_paused}
use telephone_booth.Runtime.Loop.{LoopInput, event_received, Runtime, start_runtime, run_loop}
use telephone_booth.Sessions.Events.{TelemetryEvent, state_transition}
use telephone_booth.Sessions.Tracker.{current_session_id}
use telephone_booth.Sessions.Bracketed.{observe_all, brackets, observe_all-brackets}
use telephone_booth.Sessions.Runs.{
  tracked, heard, has_session, is_finishing, run_loop-session, run_loop-heard,
}

abbrev records : List (String × ℕ × TelemetryEvent ℕ ℕ)
records =
    ("a", 1, state_transition "idle" "dial_tone" "HookOff" 1)
    ∷ ("b", 2, TelemetryEvent.digit_dialed 1 1 2)
    ∷ ("c", 3, state_transition "dial_tone" "idle" "HookOn" 3)
    ∷ []

observe_all-brackets_example :
    brackets (current_session_id none) (observe_all records none).0
    ≡ some (current_session_id (observe_all records none).1)
observe_all-brackets_example = observe_all-brackets records none

abbrev call : List LoopInput
call = event_received (digit_dialed 1) true ∷ event_received (question_ready "q1") true ∷ []

abbrev text : Event → String
text e = "event"

abbrev at : ℕ → ℕ
at n = n

abbrev fresh : ℕ → String
fresh n = "id"

abbrev run : Runtime
run = run_loop false call (start_runtime true false true)

run_loop-session_example :
    has_session (tracked ℕ ℕ text at fresh 0 run.published none) ≡ not (is_idle_or_paused run.state)
run_loop-session_example = run_loop-session ℕ ℕ text at fresh false true false true call

run_loop-heard_example :
    heard ℕ ℕ text at fresh 0 run.published BoothStatus.idle
    ≡ (if is_finishing run.state then BoothStatus.idle else status run.state)
run_loop-heard_example = run_loop-heard ℕ ℕ text at fresh false true false true call
