-- ===== src/Sessions/Runs.antt =====
-- crates/booth-bin/src/observability.rs on the records of `run_with_hal`, crates/booth-bin/src/lib.rs: what
-- the forwarder's tracker and the heartbeat make of the main loop's own events.
use telephone_booth.Base.{
  ℕ, ◌+◌, Bool, true, false, not, String, none, some, List, [], ◌∷◌, ◌≡◌, refl, ap, sym, subst, ◌∙◌,
  if◌then◌else◌, arith,
}
use telephone_booth.Hal.{BoothStatus}
use telephone_booth.Core.Types.{
  State, calls_paused, idle, dial_tone, dialing, ringing_question, playing_question, beep,
  recording, finishing_timed_out_recording, finishing_recording, uploading, uploading_timed_out,
  recording_ended_beep, playing_message, playing_instructions, call_unavailable, error, status,
  Event,
}
use telephone_booth.Runtime.Events.{
  Published, digit_published, error_published, tag, is_idle_or_paused,
}
use telephone_booth.Runtime.Loop.{LoopInput, start_runtime, run_loop}
use telephone_booth.Sessions.Events.{TelemetryEvent}
use telephone_booth.Sessions.Tracker.{
  LiveSession, SessionTracker, is_idle_name, phase_for, on_session, open_session, close_session,
  observe_transition, observe,
}
use telephone_booth.Sessions.Heartbeat.{state_name_to_booth_status, heartbeat_status}
use telephone_booth.Sessions.Chains.{
  IsChain, IsFollowed, run_loop-IsFollowed, first_tag, start-IsFollowed,
}

abbrev pub is_finishing : State → Bool
is_finishing (finishing_recording q on_hook) = true
is_finishing _ = false

is_idle_name-tag : (s : State) → is_idle_name (tag s) ≡ is_idle_or_paused s
unfolding tag
is_idle_name-tag idle = refl
is_idle_name-tag (calls_paused on_hook) = refl
is_idle_name-tag dial_tone = refl
is_idle_name-tag (dialing pulses) = refl
is_idle_name-tag (ringing_question q) = refl
is_idle_name-tag (playing_question q) = refl
is_idle_name-tag (beep q) = refl
is_idle_name-tag (recording q) = refl
is_idle_name-tag (finishing_recording q on_hook) = refl
is_idle_name-tag (finishing_timed_out_recording q on_hook) = refl
is_idle_name-tag (uploading r q on_hook) = refl
is_idle_name-tag (uploading_timed_out r q beep_pending) = refl
is_idle_name-tag recording_ended_beep = refl
is_idle_name-tag playing_message = refl
is_idle_name-tag playing_instructions = refl
is_idle_name-tag call_unavailable = refl
is_idle_name-tag (error reason) = refl

status-tag :
    (s : State)
    → state_name_to_booth_status (tag s) ≡ (if is_finishing s then BoothStatus.idle else status s)
unfolding tag state_name_to_booth_status status
status-tag idle = refl
status-tag (calls_paused on_hook) = refl
status-tag dial_tone = refl
status-tag (dialing pulses) = refl
status-tag (ringing_question q) = refl
status-tag (playing_question q) = refl
status-tag (beep q) = refl
status-tag (recording q) = refl
status-tag (finishing_recording q on_hook) = refl
status-tag (finishing_timed_out_recording q on_hook) = refl
status-tag (uploading r q on_hook) = refl
status-tag (uploading_timed_out r q beep_pending) = refl
status-tag recording_ended_beep = refl
status-tag playing_message = refl
status-tag playing_instructions = refl
status-tag call_unavailable = refl
status-tag (error reason) = refl

first_tag-idle : (acc : Bool) → false ≡ not (is_idle_name (first_tag acc))
first_tag-idle true = refl
first_tag-idle false = refl

first_tag-status : (acc : Bool) → BoothStatus.idle ≡ state_name_to_booth_status (first_tag acc)
unfolding state_name_to_booth_status
first_tag-status true = refl
first_tag-status false = refl

abbrev pub has_session : SessionTracker → Bool
has_session none = false
has_session (some session) = true

-- A record as the forwarder reads it, and the id and time that it may use for it. `name` is the text of
-- an event, `at` the record's time, `fresh` the ids.
module _ (S L : Type 0) (name : Event → String) (at : ℕ → ℕ) (fresh : ℕ → String) where
  record_of : ℕ → Published → TelemetryEvent S L
  record_of n (Published.state_transition from to e) =
      TelemetryEvent.state_transition from to (name e) (at n)
  record_of n (digit_published digit pulses) = TelemetryEvent.digit_dialed digit pulses (at n)
  record_of n (error_published source message) = TelemetryEvent.error source message

  -- The tracker after the records, the first of which has number `n`.
  unfoldable pub tracked : ℕ → List Published → SessionTracker → SessionTracker
  unfolding record_of observe
  tracked n [] tracker = tracker
  tracked n (p ∷ ps) tracker =
      let (_, tracker') = observe (fresh n) (at n) (record_of n p) tracker in
      tracked (n + 1) ps tracker'

  unfoldable pub heard : ℕ → List Published → BoothStatus → BoothStatus
  unfolding record_of heartbeat_status
  heard n [] current = current
  heard n (p ∷ ps) current = heard (n + 1) ps (heartbeat_status (record_of n p) current)

  transition_session :
      (id from to : String) (t : ℕ) (tracker : SessionTracker)
      → has_session tracker ≡ not (is_idle_name from)
      → let (_, tracker') = observe_transition {S = S} {L = L} id t from to tracker in
        has_session tracker' ≡ not (is_idle_name to)
  unfolding observe_transition open_session close_session phase_for
  transition_session id from to t none h = ground arith
  transition_session id from to t (some session) h = ground arith

  on_session-has_session :
      (f : LiveSession → LiveSession) (tracker : SessionTracker)
      → has_session (on_session f tracker) ≡ has_session tracker
  on_session-has_session f none = refl
  on_session-has_session f (some session) = refl

  tracked-has_session :
      (n : ℕ) (a c : String) (ps : List Published) (tracker : SessionTracker)
      → IsChain a ps c
      → has_session tracker ≡ not (is_idle_name a)
      → has_session (tracked n ps tracker) ≡ not (is_idle_name c)
  unfolding tracked observe IsChain record_of
  tracked-has_session n a c [] tracker h k =
      subst (λ x. has_session tracker ≡ not (is_idle_name x)) h k
  tracked-has_session n a c (Published.state_transition from to e ∷ ps) tracker (h, r) k =
      tracked-has_session (n + 1) to c ps _ r (
        transition_session (fresh n) from to (at n) tracker
          (subst (λ x. has_session tracker ≡ not (is_idle_name x)) (sym h) k))
  tracked-has_session n a c (digit_published digit pulses ∷ ps) tracker h k =
      tracked-has_session (n + 1) a c ps _ h (on_session-has_session _ tracker ∙ k)
  tracked-has_session n a c (error_published source message ∷ ps) tracker h k =
      tracked-has_session (n + 1) a c ps tracker h k

  heard-last :
      (n : ℕ) (a c : String) (ps : List Published) (current : BoothStatus)
      → IsChain a ps c
      → current ≡ state_name_to_booth_status a
      → heard n ps current ≡ state_name_to_booth_status c
  unfolding heard heartbeat_status IsChain record_of
  heard-last n a c [] current h k = k ∙ ap state_name_to_booth_status h
  heard-last n a c (Published.state_transition from to e ∷ ps) current (h, r) k =
      heard-last (n + 1) to c ps _ r refl
  heard-last n a c (digit_published digit pulses ∷ ps) current h k =
      heard-last (n + 1) a c ps current h k
  heard-last n a c (error_published source message ∷ ps) current h k =
      heard-last (n + 1) a c ps current h k

  -- From the start of the program on, however events, commands and changes of the gate come, when no
  -- record is lost on the way to the forwarder: a session is open exactly when the machine is neither idle nor paused.
  pub run_loop-session :
      (allow_controls accepting_calls initial_hook_on again : Bool) (is : List LoopInput)
      → let w = run_loop allow_controls is (start_runtime accepting_calls initial_hook_on again) in
        has_session (tracked 0 w.published none) ≡ not (is_idle_or_paused w.state)
  unfolding tag
  run_loop-session allow acc hook again is =
      let w = run_loop allow is (start_runtime acc hook again) in
      tracked-has_session 0 (first_tag acc) (tag w.state) w.published none
        (unfold IsFollowed in
          run_loop-IsFollowed (first_tag acc) allow is _ (start-IsFollowed acc hook again))
        (first_tag-idle acc)
      ∙ ap not (is_idle_name-tag w.state)

  -- From the start of the program on, however events, commands and changes of the gate come, when no
  -- record is lost on the way to the heartbeat: the status that it repeats is the state's own, but in
  -- `FinishingRecording`, where it is that of an idle booth.
  pub run_loop-heard :
      (allow_controls accepting_calls initial_hook_on again : Bool) (is : List LoopInput)
      → let w = run_loop allow_controls is (start_runtime accepting_calls initial_hook_on again) in
        heard 0 w.published BoothStatus.idle
        ≡ (if is_finishing w.state then BoothStatus.idle else status w.state)
  unfolding tag
  run_loop-heard allow acc hook again is =
      let w = run_loop allow is (start_runtime acc hook again) in
      heard-last 0 (first_tag acc) (tag w.state) w.published BoothStatus.idle
        (unfold IsFollowed in
          run_loop-IsFollowed (first_tag acc) allow is _ (start-IsFollowed acc hook again))
        (first_tag-status acc)
      ∙ status-tag w.state
