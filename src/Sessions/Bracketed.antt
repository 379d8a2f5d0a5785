-- ===== src/Sessions/Bracketed.antt =====
-- crates/booth-bin/src/observability.rs: over a stream of records, the calls that the tracker makes up.
use telephone_booth.Base.{
  ℕ, Bool, true, false, String, str_eq, eq_iff, Option, none, some, List, [], ◌∷◌, ◌++◌, ◌≡◌, refl,
  ap, sym, ◌∙◌, not, ◌&&◌, append_assoc, arith, if◌then◌else◌,
}
use telephone_booth.Sessions.Events.{
  TelemetryEvent, state_transition, digit_dialed, call_started, call_ended,
}
use telephone_booth.Sessions.Tracker.{
  LiveSession, SessionTracker, is_idle_name, open_session, close_session, phase_for, on_session,
  observe_transition, observe, current_session_id,
}

on_session-brackets :
    (f : LiveSession → LiveSession) (tracker : SessionTracker)
    → ((s : LiveSession) → (f s).id ≡ s.id)
    → current_session_id (on_session f tracker) ≡ current_session_id tracker
unfolding current_session_id
on_session-brackets f none same = refl
on_session-brackets f (some session) same = ap some (same session)

module _ {S L : Type 0} where
  unfoldable pub observe_all :
      List (String × ℕ × TelemetryEvent S L)
      → SessionTracker
      → List (TelemetryEvent S L) × SessionTracker
  unfolding observe
  observe_all [] tracker = ([], tracker)
  observe_all ((id, t, e) ∷ rs) tracker =
      let (made, tracker') = observe id t e tracker in
      let (rest, tracker'') = observe_all rs tracker' in (made ++ rest, tracker'')

  -- Reads starts and ends of calls, each end with the id of the start before it: the call under way
  -- at the end, or `none` where one start follows another or an end has no start.
  unfoldable pub brackets : Option String → List (TelemetryEvent S L) → Option (Option String)
  brackets current [] = some current
  brackets none (call_started id t ∷ es) = brackets (some id) es
  brackets (some open_id) (call_ended id outcome digits t ∷ es) =
      let rest = brackets none es in if str_eq open_id id then rest else none
  brackets _ (_ ∷ es) = none

  -- One record, with what follows it.
  close_session-brackets :
      (t : ℕ) (ends : Bool) (to : String) (tracker : SessionTracker)
      (es : List (TelemetryEvent S L))
      → let (made, tracker') = close_session {S = S} {L = L} t ends to tracker in
        brackets (current_session_id tracker) (made ++ es)
        ≡ brackets (current_session_id tracker') es
  unfolding brackets close_session current_session_id
  close_session-brackets t ends to none es = refl
  close_session-brackets t false to (some session) es = refl
  close_session-brackets t true to (some session) es = ground (arith, eq_iff session.id session.id)

  open_session-brackets :
      (id : String) (t : ℕ) (begins : Bool) (tracker : SessionTracker)
      (es : List (TelemetryEvent S L))
      → let (made, tracker') = open_session {S = S} {L = L} id t begins tracker in
        brackets (current_session_id tracker) (made ++ es)
        ≡ brackets (current_session_id tracker') es
  unfolding brackets open_session current_session_id
  open_session-brackets id t true none es = refl
  open_session-brackets id t false none es = refl
  open_session-brackets id t begins (some session) es = refl

  observe_transition-brackets :
      (id : String) (t : ℕ) (from to : String) (tracker : SessionTracker)
      (es : List (TelemetryEvent S L))
      → let (made, tracker') = observe_transition {S = S} {L = L} id t from to tracker in
        brackets (current_session_id tracker) (made ++ es)
        ≡ brackets (current_session_id tracker') es
  unfolding observe_transition
  observe_transition-brackets id t from to tracker es =
      let was_idle = is_idle_name from in
      let now_idle = is_idle_name to in
      let (opened, tracker') =
        open_session {S = S} {L = L} id t (was_idle && not now_idle) tracker in
      let settled = on_session (λ s. record s { phase = phase_for to s.phase }) tracker' in
      let (closed, _) = close_session {S = S} {L = L} t (not was_idle && now_idle) to settled in
      ap (brackets (current_session_id tracker)) (append_assoc opened closed es)
      ∙ open_session-brackets id t (was_idle && not now_idle) tracker (closed ++ es)
      ∙ ap (λ c. brackets c (closed ++ es)) (sym (on_session-brackets _ tracker' (λ s. refl)))
      ∙ close_session-brackets t (not was_idle && now_idle) to settled es

  observe-brackets :
      (id : String) (t : ℕ) (e : TelemetryEvent S L) (tracker : SessionTracker)
      (es : List (TelemetryEvent S L))
      → let (made, tracker') = observe id t e tracker in
        brackets (current_session_id tracker) (made ++ es)
        ≡ brackets (current_session_id tracker') es
  unfolding observe
  observe-brackets id t (state_transition from to cause at) tracker es =
      observe_transition-brackets id t from to tracker es
  observe-brackets id t (digit_dialed digit pulses at) tracker es =
      ap (λ c. brackets c es) (sym (on_session-brackets _ tracker (λ s. refl)))
  observe-brackets id t (TelemetryEvent.upload_completed r sid ms bytes at) tracker es =
      ap (λ c. brackets c es) (sym (on_session-brackets _ tracker (λ s. refl)))
  observe-brackets id t (TelemetryEvent.upload_failed r sid message at) tracker es =
      ap (λ c. brackets c es) (sym (on_session-brackets _ tracker (λ s. refl)))
  observe-brackets id t _ tracker es = refl

  -- Over any records, with any ids for new sessions: the events that the tracker makes up are starts
  -- and ends of calls in turn, each end with the id of the start before it, and the call that is then
  -- under way is the one whose id the tracker gives to digits.
  pub observe_all-brackets :
      (rs : List (String × ℕ × TelemetryEvent S L)) (tracker : SessionTracker)
      → let (made, tracker') = observe_all rs tracker in
        brackets (current_session_id tracker) made ≡ some (current_session_id tracker')
  unfolding observe_all brackets
  observe_all-brackets [] none = refl
  observe_all-brackets [] (some session) = refl
  observe_all-brackets ((id, t, e) ∷ rs) tracker =
      let (made, tracker') = observe id t e tracker in
      let (rest, _) = observe_all rs tracker' in
      observe-brackets id t e tracker rest ∙ observe_all-brackets rs tracker'
