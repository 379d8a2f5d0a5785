-- ===== src/Core/Answers.antt =====
-- crates/booth-core/src/lib.rs: an answer that is being recorded is uploaded, once.
use telephone_booth.Base.{
  ℕ, suc, Bool, true, false, Option, none, some, ◌≡◌, refl, List, [], ◌∷◌, ◌++◌, arith, All,
}
use telephone_booth.Hal.{RecordingId, QuestionId}
use telephone_booth.Core.Types.{
  State, recording, finishing_recording, finishing_timed_out_recording, Event, upload_finished,
  recording_finished, recording_failed, UploadOutcome, Effect, upload_recording, start_recording,
}
use telephone_booth.Core.Decode.{decode_digit, digit_log}
use telephone_booth.Core.Cases.{with_led_cases, upload_finished_cases}
use telephone_booth.Core.Handle.{
  outcome_event, admit, handle_available, handle_with_call_availability, run,
}

-- The question whose answer is being recorded or finalized.
abbrev pub answer_of : State → Option QuestionId
answer_of (recording q) = some q
answer_of (finishing_recording q on_hook) = some q
answer_of (finishing_timed_out_recording q on_hook) = some q
answer_of _ = none

-- The uploads that a list of effects begins.
abbrev pub uploads : List Effect → List (RecordingId × QuestionId)
uploads [] = []
uploads (upload_recording r q ∷ fs) = (r, q) ∷ uploads fs
uploads (_ ∷ fs) = uploads fs

-- How many recordings a list of effects starts.
abbrev pub starts : List Effect → ℕ
starts [] = 0
starts (start_recording ∷ fs) = suc (starts fs)
starts (_ ∷ fs) = starts fs

abbrev pub due_upload : Option QuestionId → Event → List (RecordingId × QuestionId)
due_upload (some q) (recording_finished r) = (r, q) ∷ []
due_upload _ _ = []

admit-uploads :
    (s : State) (e : Event) (accepting_calls : Bool)
    → uploads (admit s e accepting_calls).1 ≡ due_upload (answer_of s) e
unfolding admit decode_digit digit_log
admit-uploads (recording q) e acc = ground arith
admit-uploads _ e acc = ground arith

due_upload-outcome :
    (a : Option QuestionId) (outcome : UploadOutcome) → due_upload a (outcome_event outcome) ≡ []
unfolding outcome_event
due_upload-outcome a outcome = ground arith

handle_available-uploads :
    (s : State) (e : Event) (accepting_calls : Bool)
    → uploads (handle_available s e accepting_calls).1 ≡ due_upload (answer_of s) e
unfolding handle_available
handle_available-uploads s (upload_finished r outcome) acc =
    upload_finished_cases (λ t. uploads t.1 ≡ due_upload (answer_of s) (upload_finished r outcome))
      s r outcome acc (ground arith)
      (ground (
        arith,
        admit-uploads s (outcome_event outcome) acc,
        due_upload-outcome (answer_of s) outcome,
      ))
handle_available-uploads s e acc = admit-uploads s e acc

-- A step begins an upload exactly when it handles the end of a recording while an answer is being
-- recorded or finalized, and then one upload, of that recording for that answer's question.
pub step-uploads :
    (s : State) (e : Event) (accepting_calls : Bool)
    → uploads (handle_with_call_availability s e accepting_calls).1 ≡ due_upload (answer_of s) e
unfolding handle_with_call_availability
step-uploads s e acc =
    with_led_cases (λ t. uploads t.1 ≡ due_upload (answer_of s) e) s (handle_available s e acc)
      (handle_available-uploads s e acc) (λ c p. handle_available-uploads s e acc)

-- Events that do not end a recording.
abbrev pub spares_answer : Event → Bool
spares_answer (recording_finished r) = false
spares_answer (recording_failed reason) = false
spares_answer _ = true

admit-answer_of :
    (s : State) (e : Event) (accepting_calls : Bool) {q : QuestionId}
    → spares_answer e ≡ true
    → answer_of s ≡ some q
    → answer_of (admit s e accepting_calls).0 ≡ some q
unfolding admit
admit-answer_of (recording q') e acc h a = ground arith
admit-answer_of _ e acc h a = ground arith

handle_available-answer_of :
    (s : State) (e : Event) (accepting_calls : Bool) {q : QuestionId}
    → spares_answer e ≡ true
    → answer_of s ≡ some q
    → answer_of (handle_available s e accepting_calls).0 ≡ some q
unfolding handle_available outcome_event
handle_available-answer_of s (upload_finished r outcome) acc {q} h a =
    upload_finished_cases (λ t. answer_of t.0 ≡ some q) s r outcome acc a
      (admit-answer_of s (outcome_event outcome) acc (ground arith) a)
handle_available-answer_of s e acc h a = admit-answer_of s e acc h a

step-answer_of :
    (s : State) (e : Event) (accepting_calls : Bool) {q : QuestionId}
    → spares_answer e ≡ true
    → answer_of s ≡ some q
    → answer_of (handle_with_call_availability s e accepting_calls).0 ≡ some q
unfolding handle_with_call_availability
step-answer_of s e acc {q} h a =
    with_led_cases (λ t. answer_of t.0 ≡ some q) s (handle_available s e acc)
      (handle_available-answer_of s e acc h a) (λ c p. handle_available-answer_of s e acc h a)

pub uploads-append : (fs gs : List Effect) → uploads (fs ++ gs) ≡ uploads fs ++ uploads gs
uploads-append [] gs = refl
uploads-append (upload_recording r q ∷ fs) gs = cc (uploads-append fs gs)
uploads-append (_ ∷ fs) gs = uploads-append fs gs

-- No event of the history ends the recording.
abbrev pub AllSpare : List (Event × Bool) → Type 0
AllSpare = All λ input. spares_answer input.0 ≡ true

-- Whatever happens while an answer is recorded or finalized, hanging up, lifting the handset and
-- pauses included, the end of its recording uploads it for its question, and nothing else was
-- uploaded on the way.
pub run-uploads_answer :
    (s : State) (es : List (Event × Bool)) (r : RecordingId) (accepting_calls : Bool)
    (q : QuestionId)
    → AllSpare es
    → answer_of s ≡ some q
    → uploads (run s (es ++ (recording_finished r, accepting_calls) ∷ [])).1 ≡ (r, q) ∷ []
unfolding run
run-uploads_answer s [] r acc q h a = ground (
  arith,
  uploads-append (handle_with_call_availability s (recording_finished r) acc).1 [],
  step-uploads s (recording_finished r) acc,
)
run-uploads_answer s ((e, acc') ∷ es) r acc q h a =
    let (next, effects) = handle_with_call_availability s e acc' in
    ground (
      arith,
      uploads-append effects (run next (es ++ (recording_finished r, acc) ∷ [])).1,
      step-uploads s e acc',
      run-uploads_answer next es r acc q h.1 (step-answer_of s e acc' h.0 a),
    )
