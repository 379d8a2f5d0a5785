-- ===== src/Operator/Reported.antt =====
-- crates/booth-bin/src/lib.rs, `effect_task` and `upload_recording`: what the machine hears of an upload.
use telephone_booth.Base.{
  ℕ, zero, suc, ◌+◌, true, false, String, Option, none, some, List, [], ◌∷◌, ◌++◌, ◌≡◌, refl, ◌∙◌,
  inl, inr, arith, Result, ok, err, Result-cases, Bool-cases, Option-cases,
}
use telephone_booth.Hal.{RecordingId, QuestionId}
use telephone_booth.Core.Types.{deferred}
use telephone_booth.Operator.Errors.{OperatorError, installation_inactive}
use telephone_booth.Operator.Retry.{
  Action, upload_finished, World, Operation, operator_attempts, call_operator, back_off, retry_from,
  retry_operator, publish_operator_error,
}
use telephone_booth.Operator.Upload.{
  OperatorClient, Upload, metadata_of, unwrap_or_zero, complete_slot, try_upload, upload_recording,
  report_upload, send_upload_outcome,
}
use telephone_booth.Operator.Spool.{claim}
use telephone_booth.Operator.UploadTask.{
  Answers, Booth, act, started, send_outcome, is_short, upload_of, upload_and_dequeue,
  network_upload, network_task, claimed_upload, upload_effect,
}
use telephone_booth.Operator.Calls.{try_upload-invariant}

-- How many outcomes a trace reports.
abbrev pub outcomes : List Action → ℕ
outcomes [] = 0
outcomes (upload_finished r outcome ∷ acts) = suc (outcomes acts)
outcomes (_ ∷ acts) = outcomes acts

outcomes-append : (xs ys : List Action) → outcomes (xs ++ ys) ≡ outcomes xs + outcomes ys
outcomes-append [] ys = omega arith
outcomes-append (upload_finished r outcome ∷ xs) ys = omega (arith, outcomes-append xs ys)
outcomes-append (_ ∷ xs) ys = outcomes-append xs ys

publish-outcomes :
    (source : String) (e : OperatorError) → outcomes (publish_operator_error source e) ≡ 0
unfolding publish_operator_error
publish-outcomes source e = ground arith

module _ {W : Type 0} (route : String) where
  back_off-outcomes :
      (attempt : ℕ) (e : OperatorError) (w : World W)
      → outcomes (back_off route attempt e w).trace ≡ outcomes w.trace
  unfolding back_off
  back_off-outcomes attempt e w = omega (
    arith,
    outcomes-append w.trace,
    outcomes-append (publish_operator_error route e),
    publish-outcomes route e,
  )

module _ {W T : Type 0} (route : String) (operation : Operation W T) where
  call-outcomes :
      (w : World W) → outcomes (call_operator route operation w).1.trace ≡ outcomes w.trace
  unfolding call_operator
  call-outcomes w = omega (arith, outcomes-append w.trace)

  -- The calls report no outcome.
  retry_from-outcomes :
      (left attempt : ℕ) (w : World W)
      → outcomes (retry_from route operation left attempt w).1.trace ≡ outcomes w.trace
  unfolding retry_from
  retry_from-outcomes zero attempt w = refl
  retry_from-outcomes (suc left) attempt w =
      let w' = (call_operator route operation w).1 in
      elim (Result-cases (call_operator route operation w).0) [
        | inl (v, e) ↦ rw (e, retry_from) (call-outcomes w)
        | inr (x, e) ↦ ground (
          arith,
          call-outcomes w,
          back_off-outcomes route attempt x w',
          retry_from-outcomes left (attempt + 1) (back_off route attempt x w'),
        )
      ]

  retry_operator-outcomes :
      (w : World W) → outcomes (retry_operator route operation w).1.trace ≡ outcomes w.trace
  unfolding retry_operator
  retry_operator-outcomes w = retry_from-outcomes operator_attempts 1 w

module _ {W : Type 0} (client : OperatorClient W) (u : Upload) where
  try_upload-outcomes : (w : World W) → outcomes (try_upload client u w).1.trace ≡ outcomes w.trace
  unfolding complete_slot
  try_upload-outcomes w =
      try_upload-invariant client u (λ w'. outcomes w'.trace ≡ outcomes w.trace)
        (λ w' h.
          retry_operator-outcomes _ (client.init_upload u.question_id (metadata_of u)) w' ∙ h)
        (λ slot w' h.
          retry_operator-outcomes _ (client.put_upload slot u.path u.recording_id) w' ∙ h)
        (λ slot w' h.
          retry_operator-outcomes _
            (client.complete_upload slot.id u.recording_id (unwrap_or_zero u.duration_ms)) w'
          ∙ h)
        w refl

  report-outcomes :
      (result : Result OperatorError (Unit {0}))
      → u.notified ≡ true
      → outcomes (report_upload u result) ≡ 1
  unfolding report_upload send_upload_outcome
  report-outcomes (ok v) h = elim (Option-cases u.session_id) [
    | inl none_given ↦ elim (Bool-cases u.has_source) [
      | inl x ↦ rw (none_given, x, h) refl
      | inr x ↦ rw (none_given, x, h) refl
    ]
    | inr (s, given) ↦ elim (Bool-cases u.has_source) [
      | inl x ↦ rw (given, x, h) refl
      | inr x ↦ rw (given, x, h) refl
    ]
  ]
  report-outcomes (err (installation_inactive s)) h = rw (h) refl
  report-outcomes (err e) h = elim (Option-cases u.session_id) [
    | inl none_given ↦ rw (none_given, h) refl
    | inr (s, given) ↦ rw (given, h) refl
  ]

  upload_recording-outcomes :
      (w : World W)
      → u.notified ≡ true
      → outcomes (upload_recording client u w).1.trace ≡ outcomes w.trace + 1
  unfolding upload_recording
  upload_recording-outcomes w h =
      let (result, w') = try_upload client u w in
      omega (
        arith,
        outcomes-append w'.trace (report_upload u result),
        try_upload-outcomes w,
        report-outcomes result h,
      )

act-outcomes :
    {W : Type 0} (acts : List Action) (b : Booth W)
    → outcomes (act acts b).world.trace ≡ outcomes b.world.trace + outcomes acts
act-outcomes acts b = outcomes-append b.world.trace acts

started-outcomes : (r : RecordingId) (sid : Option String) → outcomes (started r sid) ≡ 0
started-outcomes r none = refl
started-outcomes r (some s) = refl

module _ {W : Type 0} (client : OperatorClient W) (r : RecordingId) (q : QuestionId)
    (a : Answers) where
  network_upload-outcomes :
      (path : String) (b : Booth W)
      → outcomes (network_upload client r q a path b).world.trace ≡ outcomes b.world.trace + 1
  unfolding network_upload upload_and_dequeue
  network_upload-outcomes path b = omega (
    arith,
    upload_recording-outcomes client (upload_of client r q a path)
        (act (started r a.session_id) b).world refl,
    act-outcomes (started r a.session_id) b,
    started-outcomes r a.session_id,
  )

  network_task-outcomes :
      (path : String) (b : Booth W)
      → a.shut_down_later ≡ false
      → outcomes (network_task client r q a path b).world.trace ≡ outcomes b.world.trace + 1
  unfolding network_task
  network_task-outcomes path b up = elim (Option-cases a.persist_error) [
    | inr (e, refused) ↦ rw (refused, network_task) (act-outcomes (send_outcome r _) b)
    | inl persisted ↦ elim (Bool-cases a.accepting_calls) [
      | inl active ↦ rw (persisted, up, active, network_task) (network_upload-outcomes path b)
      | inr closed ↦
          rw (persisted, up, closed, network_task) (act-outcomes (send_outcome r deferred) b)
    ]
  ]

  -- Unless the booth is shutting down, carrying out an upload effect reports one outcome to the
  -- machine, no more and no less, on every path: a file that is missing or too short, a claim that is
  -- held, an entry that cannot be written, a closed installation, and whatever the operator answers.
  pub upload_effect-outcomes :
      (min_recording_ms : ℕ) (b : Booth W)
      → a.shutting_down ≡ false
      → a.shut_down_later ≡ false
      → outcomes (upload_effect client r q a min_recording_ms b).world.trace
        ≡ outcomes b.world.trace + 1
  unfolding upload_effect claimed_upload
  upload_effect-outcomes min_recording_ms b up still_up = elim (Result-cases a.path) [
    | inr (e, missing) ↦ rw (missing, upload_effect) (outcomes-append b.world.trace _)
    | inl (path, found) ↦ elim (Bool-cases (is_short min_recording_ms a.duration_ms)) [
      | inl short ↦ rw (found, short, upload_effect) (outcomes-append b.world.trace _)
      | inr long ↦ elim (Option-cases (claim r b.spool)) [
        | inl taken ↦ rw (found, long, taken, upload_effect) (outcomes-append b.world.trace _)
        | inr (spool, free) ↦
            rw (found, long, free, up, upload_effect) (network_task-outcomes path _ still_up)
      ]
    ]
  ]
