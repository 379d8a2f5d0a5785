-- ===== src/Core/Starts.antt =====
-- crates/booth-core/src/lib.rs: recordings start after the beep alone, and bound the uploads.
use telephone_booth.Base.{
  ℕ, suc, ◌+◌, ◌≤◌, Bool, true, none, some, ◌≡◌, List, [], ◌∷◌, ◌++◌, arith, length, length-append,
}
use telephone_booth.Core.Types.{
  State, beep, Event, upload_finished, playback_ended, Effect, start_recording,
}
use telephone_booth.Core.Decode.{Transition, decode_digit, digit_log}
use telephone_booth.Core.Cases.{with_led_cases, upload_finished_cases}
use telephone_booth.Core.Handle.{
  outcome_event, admit, handle_available, handle_with_call_availability, run,
}
use telephone_booth.Core.Answers.{answer_of, uploads, uploads-append, due_upload, step-uploads}

-- How many recordings a list of effects starts.
abbrev pub starts : List Effect → ℕ
starts [] = 0
starts (start_recording ∷ fs) = suc (starts fs)
starts (_ ∷ fs) = starts fs

starts-append : (fs gs : List Effect) → starts (fs ++ gs) ≡ starts fs + starts gs
starts-append [] gs = omega arith
starts-append (start_recording ∷ fs) gs = omega (arith, starts-append fs gs)
starts-append (_ ∷ fs) gs = starts-append fs gs

abbrev pub due_start : State → Event → Bool → ℕ
due_start (beep q) playback_ended true = 1
due_start _ _ _ = 0

-- The answers in hand: one, or none.
abbrev pub answers : State → ℕ
answers s = elim (answer_of s) [ none ↦ 0 | some q ↦ 1 ]

abbrev Accounts : State → Event → Bool → Transition → Type 0
Accounts s e accepting_calls t =
    (starts t.1 ≡ due_start s e accepting_calls)
    × (length (due_upload (answer_of s) e) + answers t.0 ≤ starts t.1 + answers s)

admit-Accounts :
    (s : State) (e : Event) (accepting_calls : Bool)
    → Accounts s e accepting_calls (admit s e accepting_calls)
unfolding admit decode_digit digit_log
admit-Accounts (beep q) e acc = ground arith
admit-Accounts _ e acc = ground arith

handle_available-Accounts :
    (s : State) (e : Event) (accepting_calls : Bool)
    → Accounts s e accepting_calls (handle_available s e accepting_calls)
unfolding handle_available outcome_event
handle_available-Accounts s (upload_finished r outcome) acc =
    upload_finished_cases (Accounts s (upload_finished r outcome) acc) s r outcome acc
      (ground arith) (ground (arith, admit-Accounts s (outcome_event outcome) acc))
handle_available-Accounts s e acc = admit-Accounts s e acc

step-Accounts :
    (s : State) (e : Event) (accepting_calls : Bool)
    → Accounts s e accepting_calls (handle_with_call_availability s e accepting_calls)
unfolding handle_with_call_availability
step-Accounts s e acc =
    with_led_cases (Accounts s e acc) s (handle_available s e acc)
      (handle_available-Accounts s e acc) (λ c p. handle_available-Accounts s e acc)

-- A step starts a recording exactly when the attention beep ends while calls are accepted.
step-starts :
    (s : State) (e : Event) (accepting_calls : Bool)
    → starts (handle_with_call_availability s e accepting_calls).1 ≡ due_start s e accepting_calls
step-starts s e acc = (step-Accounts s e acc).0

-- Over any history, the uploads begun and the answer still in hand are no more than the recordings
-- started and the answer in hand at the beginning.
run-uploads-le :
    (s : State) (es : List (Event × Bool))
    → length (uploads (run s es).1) + answers (run s es).0 ≤ starts (run s es).1 + answers s
unfolding run
run-uploads-le s [] = omega arith
run-uploads-le s ((e, acc) ∷ es) =
    let (next, effects) = handle_with_call_availability s e acc in
    ground (
      arith,
      uploads-append effects (run next es).1,
      length-append (uploads effects) (uploads (run next es).1),
      starts-append effects (run next es).1,
      step-uploads s e acc,
      step-Accounts s e acc,
      run-uploads-le next es,
    )
