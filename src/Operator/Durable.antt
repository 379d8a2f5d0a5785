-- ===== src/Operator/Durable.antt =====
-- crates/booth-bin/src/lib.rs, `effect_task`: no answer is lost between the spool and the operator.
use telephone_booth.Base.{
  ℕ, Bool, true, false, String, str_eq, eq_iff, ◌<>◌, none, some, ◌≡◌, refl, sym, ◌∙◌, subst, ◌⊎◌,
  inl, inr, arith, ok, Result-cases, Bool-cases, Option-cases,
}
use telephone_booth.Hal.{RecordingId, QuestionId}
use telephone_booth.Core.Types.{deferred, failed}
use telephone_booth.Operator.Upload.{OperatorClient, Upload, upload_recording}
use telephone_booth.Operator.Spool.{
  PendingUploadSpool, contains, dequeue, claim, release, contains-enqueue, contains-dequeue,
  contains-release, contains-claim,
}
use telephone_booth.Operator.Lawful.{IsLawful}
use telephone_booth.Operator.Delivered.{upload_recording-keeps, upload_recording-stores}
use telephone_booth.Operator.UploadTask.{
  Answers, Booth, act, started, send_outcome, upload_and_dequeue, is_short, upload_of,
  network_upload, network_task, entry_of, persist, claimed_upload, upload_effect,
}

module _ {W : Type 0} (client : OperatorClient W) (Stored : W → RecordingId → Type 0)
    (law : IsLawful client Stored) where
  -- The recording waits in the spool, or the operator has it.
  abbrev pub IsSafe : Booth W → RecordingId → Type 0
  IsSafe b r = (contains r b.spool ≡ true) ⊎ Stored b.world.outside r

  -- What takes no entry out of the spool and changes nothing outside leaves every recording safe.
  pub kept-IsSafe :
      (b b' : Booth W) (s : RecordingId)
      → b'.world.outside ≡ b.world.outside
      → (contains s b.spool ≡ true → contains s b'.spool ≡ true)
      → IsSafe b s
      → IsSafe b' s
  kept-IsSafe b b' s same grows (inl waits) = inl (grows waits)
  kept-IsSafe b b' s same grows (inr stored) = inr (subst (λ o. Stored o s) (sym same) stored)

  -- The entry is taken out only of what the operator has.
  dequeued-IsSafe :
      (u : Upload) (b : Booth W) (s : RecordingId)
      → contains s b.spool ≡ true
      → (upload_recording client u b.world).0 ≡ true
      → (contains s (dequeue u.recording_id b.spool) ≡ true)
        ⊎ Stored (upload_recording client u b.world).1.outside s
  dequeued-IsSafe u b s waits success = elim (Bool-cases (str_eq u.recording_id s)) [
    | inl same ↦ inr (
        subst (Stored (upload_recording client u b.world).1.outside)
          ((eq_iff u.recording_id s).0 same)
          (upload_recording-stores client Stored law u b.world success))
    | inr other ↦ inl (contains-dequeue u.recording_id s b.spool ∙ ground arith)
  ]

  pub upload_and_dequeue-IsSafe :
      (u : Upload) (works : Bool) (b : Booth W) (s : RecordingId)
      → IsSafe b s
      → IsSafe (upload_and_dequeue client u works b).1 s
  unfolding upload_and_dequeue
  upload_and_dequeue-IsSafe u works b s (inr stored) =
      inr (upload_recording-keeps client Stored law u s b.world stored)
  upload_and_dequeue-IsSafe u works b s (inl waits) =
      elim (Bool-cases (upload_recording client u b.world).0) [
        | inl success ↦ elim (Bool-cases works) [
          | inl obeys ↦
              rw (success, obeys, upload_and_dequeue) (dequeued-IsSafe u b s waits success)
          | inr fails ↦ rw (success, fails, upload_and_dequeue) (inl waits)
        ]
        | inr failure ↦ rw (failure, upload_and_dequeue) (inl waits)
      ]

  module _ (r : RecordingId) (q : QuestionId) (a : Answers) where
    network_upload-IsSafe :
        (path : String) (b : Booth W) (s : RecordingId)
        → IsSafe b s
        → IsSafe (network_upload client r q a path b) s
    unfolding network_upload
    network_upload-IsSafe path b s h =
        upload_and_dequeue-IsSafe (upload_of client r q a path) a.dequeue_works
          (act (started r a.session_id) b) s h

    network_task-IsSafe :
        (path : String) (b : Booth W) (s : RecordingId)
        → IsSafe b s
        → IsSafe (network_task client r q a path b) s
    unfolding network_task
    network_task-IsSafe path b s h = elim (Option-cases a.persist_error) [
      | inr (e, refused) ↦
          rw (refused, network_task)
            (kept-IsSafe b
              (act (send_outcome r (failed ("cannot persist pending upload: " <> e))) b) s refl
              (λ w. w) h)
      | inl persisted ↦ elim (Bool-cases a.shut_down_later) [
        | inl down ↦ rw (persisted, down, network_task) h
        | inr up ↦ elim (Bool-cases a.accepting_calls) [
          | inl active ↦ rw (persisted, up, active, network_task) (network_upload-IsSafe path b s h)
          | inr closed ↦
              rw (persisted, up, closed, network_task)
                (kept-IsSafe b (act (send_outcome r deferred) b) s refl (λ w. w) h)
        ]
      ]
    ]

    contains-persist :
        (path : String) (s : RecordingId) (spool : PendingUploadSpool)
        → contains s spool ≡ true
        → contains s (persist client r q a path spool) ≡ true
    unfolding persist
    contains-persist path s spool waits =
        ground (arith, contains-enqueue (entry_of client r q a path) s spool)

    abbrev persisted : String → Booth W → Booth W
    persisted path b = record b { spool = persist client r q a path b.spool }

    persisted-IsSafe :
        (path : String) (b : Booth W) (s : RecordingId) → IsSafe b s → IsSafe (persisted path b) s
    persisted-IsSafe path b s =
        kept-IsSafe b (persisted path b) s refl (contains-persist path s b.spool)

    -- What is safe once the entry is written is safe when the claim is dropped.
    claimed_upload-IsSafe :
        (path : String) (b : Booth W) (s : RecordingId)
        → IsSafe (persisted path b) s
        → IsSafe (claimed_upload client r q a path b) s
    unfolding claimed_upload
    claimed_upload-IsSafe path b s h = elim (Bool-cases a.shutting_down) [
      | inl down ↦ rw (down, claimed_upload) (unclaimed (persisted path b) h)
      | inr up ↦
          rw (up, claimed_upload)
            (unclaimed (network_task client r q a path (persisted path b))
              (network_task-IsSafe path (persisted path b) s h))
    ]
      where
        unclaimed :
            (b' : Booth W) → IsSafe b' s → IsSafe (record b' { spool = release r b'.spool }) s
        unclaimed b' =
            kept-IsSafe b' (record b' { spool = release r b'.spool }) s refl
              (λ w. contains-release r s b'.spool ∙ w)

    -- Whatever the disk, the gate and the shutdown flag answer: a recording that waits in the spool
    -- or that the operator has before the effect is carried out waits there, or the operator has it,
    -- afterwards, if the operator keeps its promises.
    pub upload_effect-IsSafe :
        (min_recording_ms : ℕ) (b : Booth W) (s : RecordingId)
        → IsSafe b s
        → IsSafe (upload_effect client r q a min_recording_ms b) s
    unfolding upload_effect
    upload_effect-IsSafe min_recording_ms b s h = elim (Result-cases a.path) [
      | inr (e, missing) ↦ rw (missing, upload_effect) h
      | inl (path, found) ↦ elim (Bool-cases (is_short min_recording_ms a.duration_ms)) [
        | inl short ↦ rw (found, short, upload_effect) h
        | inr long ↦ elim (Option-cases (claim r b.spool)) [
          | inl taken ↦ rw (found, long, taken, upload_effect) h
          | inr (spool, free) ↦
              rw (found, long, free, upload_effect)
                (claimed_upload-IsSafe path (record b { spool = spool }) s
                  (persisted-IsSafe path (record b { spool = spool }) s
                    (kept-IsSafe b (record b { spool = spool }) s refl
                      (contains-claim r s b.spool spool free) h)))
        ]
      ]
    ]

    -- An effect that is carried out, for a file that exists and is not too short, whose claim is free
    -- and whose entry the disk takes, leaves the new recording in the spool or with the operator,
    -- whatever the uploads then answer, if the operator keeps its promises.
    upload_effect-saves :
        (min_recording_ms : ℕ) (b : Booth W) (path : String) (spool : PendingUploadSpool)
        → a.path ≡ ok path
        → is_short min_recording_ms a.duration_ms ≡ false
        → claim r b.spool ≡ some spool
        → a.persist_error ≡ none
        → IsSafe (upload_effect client r q a min_recording_ms b) r
    unfolding upload_effect persist
    upload_effect-saves min_recording_ms b path spool found long free written =
        rw (found, long, free, upload_effect)
          (claimed_upload-IsSafe path (record b { spool = spool }) r
            (inl
              (ground (arith, contains-enqueue (entry_of client r q a path) r spool, eq_iff r r))))
