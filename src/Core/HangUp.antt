-- ===== src/Core/HangUp.antt =====
-- crates/booth-core/src/lib.rs: hanging up brings the booth back from every state.
use text.Mathlib.TextPositions.{eq_refl}
use telephone_booth.Base.{Bool, true, ◌≡◌, ◌⊎◌, [], ◌∷◌, arith}
use telephone_booth.Hal.{RecordingId}
use telephone_booth.Core.Types.{
  State, calls_paused, idle, recording, finishing_recording, finishing_timed_out_recording,
  uploading, upload_finished, hook_on, recording_finished, UploadOutcome,
}
use telephone_booth.Core.Cases.{step-next}
use telephone_booth.Core.Handle.{
  is_current_upload, outcome_event, admit, handle_available, handle_with_call_availability, run,
}

-- On the hook with nothing going on.
abbrev pub IsAtRest : State → Type 0
IsAtRest s = (s ≡ idle) ⊎ (s ≡ calls_paused true)

-- Where the handset put down can lead.
abbrev IsHungUp : State → Type 0
IsHungUp idle = Unit {0}
IsHungUp (calls_paused on_hook) = on_hook ≡ true
IsHungUp (finishing_recording q on_hook) = on_hook ≡ true
IsHungUp (finishing_timed_out_recording q on_hook) = on_hook ≡ true
IsHungUp _ = ⊥

abbrev IsWaiting : RecordingId → State → Type 0
IsWaiting r idle = Unit {0}
IsWaiting r (calls_paused on_hook) = on_hook ≡ true
IsWaiting r (uploading current q on_hook) = (current ≡ r) × (on_hook ≡ true)
IsWaiting r _ = ⊥

hook_on-IsHungUp :
    (s : State) (acc : Bool) → IsHungUp (handle_with_call_availability s hook_on acc).0
unfolding handle_available admit
hook_on-IsHungUp (recording q) acc = rw step-next (ground arith)
hook_on-IsHungUp _ acc = rw step-next (ground arith)

finished-IsWaiting :
    (s : State) (r : RecordingId) (acc : Bool)
    → IsHungUp s
    → IsWaiting r (handle_with_call_availability s (recording_finished r) acc).0
unfolding handle_available admit
finished-IsWaiting (recording q) r acc h = absurd h
finished-IsWaiting _ r acc h = rw step-next (ground arith)

uploaded-IsAtRest :
    (s : State) (r : RecordingId) (outcome : UploadOutcome) (acc : Bool)
    → IsWaiting r s
    → IsAtRest (handle_with_call_availability s (upload_finished r outcome) acc).0
unfolding handle_available admit is_current_upload outcome_event
uploaded-IsAtRest (uploading current q on_hook) r outcome acc h =
    rw step-next (ground (arith, eq_refl r))
uploaded-IsAtRest _ r outcome acc h = rw step-next (ground arith)

-- From every state, and with any admission decisions on the way: once the handset is put down, the
-- recording (if any) is finished and its upload has an outcome, the booth is on the hook and idle,
-- or paused.
pub hang_up-IsAtRest :
    (s : State) (r : RecordingId) (outcome : UploadOutcome) (a b c : Bool)
    → IsAtRest
        (run s ((hook_on, a) ∷ (recording_finished r, b) ∷ (upload_finished r outcome, c) ∷ [])).0
unfolding run
hang_up-IsAtRest s r outcome a b c =
    let s₁ = (handle_with_call_availability s hook_on a).0 in
    let s₂ = (handle_with_call_availability s₁ (recording_finished r) b).0 in
    uploaded-IsAtRest s₂ r outcome c (finished-IsWaiting s₁ r b (hook_on-IsHungUp s a))
