-- ===== src/Core/Cases.antt =====
-- crates/booth-core/src/lib.rs: rules that reduce a claim about a step to claims about its parts.
use telephone_booth.Base.{◌≡◌, refl, Bool, [], ◌∷◌, inl, inr, Bool-cases}
use telephone_booth.Hal.{RecordingId, LedColour, LedPattern}
use telephone_booth.Core.Types.{State, Event, upload_finished, UploadOutcome, set_status_led}
use telephone_booth.Core.Led.{status_led_for, led_eq}
use telephone_booth.Core.Decode.{Transition}
use telephone_booth.Core.Handle.{
  is_current_upload, outcome_event, admit, handle_available, with_led,
  handle_with_call_availability,
}

-- The LED effect comes first or not at all.
pub with_led_cases {ℓ} :
    (P : Transition → Type ℓ) (s : State) (t : Transition)
    → P t
    → ((c : LedColour) (p : LedPattern) → P (t.0, set_status_led c p ∷ t.1))
    → P (with_led s t)
unfolding with_led
with_led_cases P s t same changed =
    elim (Bool-cases (led_eq (status_led_for t.0) (status_led_for s))) [
      | inl e ↦ rw (e, with_led) same
      | inr e ↦ rw (e, with_led) (changed (status_led_for t.0).0 (status_led_for t.0).1)
    ]

-- The result of an upload is dropped, or stands for the event of its outcome.
pub upload_finished_cases {ℓ} :
    (P : Transition → Type ℓ) (s : State) (r : RecordingId) (outcome : UploadOutcome)
    (accepting_calls : Bool)
    → P (s, [])
    → P (admit s (outcome_event outcome) accepting_calls)
    → P (handle_available s (upload_finished r outcome) accepting_calls)
unfolding handle_available
upload_finished_cases P s r outcome acc stale current = elim (Bool-cases (is_current_upload s r)) [
  | inl e ↦ rw e current
  | inr e ↦ rw e stale
]

-- The LED does not change where a step leads.
pub step-next :
    (s : State) (e : Event) (accepting_calls : Bool)
    → (handle_with_call_availability s e accepting_calls).0
      ≡ (handle_available s e accepting_calls).0
unfolding handle_with_call_availability
step-next s e acc =
    with_led_cases (λ t. t.0 ≡ (handle_available s e acc).0) s (handle_available s e acc) refl
      (λ c p. refl)
