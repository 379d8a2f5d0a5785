-- ===== src/Sessions/Tracker.antt =====
-- crates/booth-bin/src/observability.rs: `SessionTracker`. The id of a new session, a fresh UUID in the
-- source, is an argument.
use telephone_booth.Base.{
  ℕ, Bool, false, not, ◌&&◌, ◌||◌, String, str_eq, ◌<>◌, Option, none, some, List, [], ◌∷◌, ◌++◌,
  if◌then◌else◌,
}
use telephone_booth.Core.Decode.{decimal}
use telephone_booth.Sessions.Events.{
  CallOutcome, hung_up_before_dial, hung_up_during_prompt, hung_up_during_recording,
  hung_up_during_upload, recording_completed, operator_error, aborted, TelemetryEvent,
  state_transition, digit_dialed, call_started, call_ended,
}

pub data SessionPhase : Type 0 where
  prompt recording uploading recording_done recording_failed operator_error_phase : SessionPhase

pub record LiveSession : Type 0 where
  pub id : String
  pub phase : SessionPhase
  pub digits : String

-- `self.current`.
abbrev pub SessionTracker : Type 0
SessionTracker = Option LiveSession

abbrev pub is_idle_name : String → Bool
is_idle_name name = str_eq name "idle" || str_eq name "calls_paused"

unfoldable pub phase_for : String → SessionPhase → SessionPhase
phase_for to phase =
    if str_eq to "recording"
    then recording
    else if str_eq to "uploading" || str_eq to "uploading_timeout"
    then uploading
    else if str_eq to "error"
    then operator_error_phase
    else phase

-- An unfinished call that a pause ends.
unfoldable pub is_aborted : SessionPhase → String → Bool
is_aborted prompt to = str_eq to "calls_paused"
is_aborted recording to = str_eq to "calls_paused"
is_aborted uploading to = str_eq to "calls_paused"
is_aborted _ to = false

unfoldable pub outcome_of : SessionPhase → String → CallOutcome
outcome_of prompt digits = if str_eq digits "" then hung_up_before_dial else hung_up_during_prompt
outcome_of recording digits = hung_up_during_recording
outcome_of uploading digits = hung_up_during_upload
outcome_of recording_done digits = recording_completed
outcome_of recording_failed digits = CallOutcome.upload_failed
outcome_of operator_error_phase digits = operator_error

unfoldable pub call_outcome : LiveSession → String → CallOutcome
unfolding is_aborted outcome_of
call_outcome session to =
    if is_aborted session.phase to then aborted else outcome_of session.phase session.digits

module _ {S L : Type 0} where
  -- The first block: a call begins.
  unfoldable pub open_session :
      String → ℕ → Bool → SessionTracker → List (TelemetryEvent S L) × SessionTracker
  open_session id t begins none =
      if begins
      then (call_started id t ∷ [], some (record { id = id; phase = prompt; digits = "" }))
      else ([], none)
  open_session id t begins (some session) = ([], some session)

  -- The last block: it ends.
  unfoldable pub close_session :
      ℕ → Bool → String → SessionTracker → List (TelemetryEvent S L) × SessionTracker
  unfolding call_outcome
  close_session t ends to none = ([], none)
  close_session t ends to (some session) =
      if ends
      then (call_ended session.id (call_outcome session to) session.digits t ∷ [], none)
      else ([], some session)

abbrev pub on_session : (LiveSession → LiveSession) → SessionTracker → SessionTracker
on_session f none = none
on_session f (some session) = some (f session)

module _ {S L : Type 0} where
  unfoldable pub observe_transition :
      String → ℕ → String → String → SessionTracker → List (TelemetryEvent S L) × SessionTracker
  unfolding open_session close_session phase_for
  observe_transition id t from to tracker =
      let was_idle = is_idle_name from in
      let now_idle = is_idle_name to in
      let (opened, tracker') = open_session id t (was_idle && not now_idle) tracker in
      let (closed, tracker'') =
        close_session t (not was_idle && now_idle) to
          (on_session (λ s. record s { phase = phase_for to s.phase }) tracker') in
      (opened ++ closed, tracker'')

  -- The events that are made up, and the tracker.
  unfoldable pub observe :
      String → ℕ → TelemetryEvent S L → SessionTracker → List (TelemetryEvent S L) × SessionTracker
  unfolding observe_transition
  observe id t (state_transition from to cause at) tracker = observe_transition id t from to tracker
  observe id t (digit_dialed digit pulses at) tracker =
      ([], on_session (λ s. record s { digits = s.digits <> decimal digit }) tracker)
  observe id t (TelemetryEvent.upload_completed r sid ms bytes at) tracker =
      ([], on_session (λ s. record s { phase = recording_done }) tracker)
  observe id t (TelemetryEvent.upload_failed r sid message at) tracker =
      ([], on_session (λ s. record s { phase = recording_failed }) tracker)
  observe id t _ tracker = ([], tracker)

unfoldable pub current_session_id : SessionTracker → Option String
current_session_id none = none
current_session_id (some session) = some session.id
