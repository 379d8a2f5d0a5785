-- ===== src/Operator/UploadTask.antt =====
-- crates/booth-bin/src/lib.rs, `effect_task`: the arm for `Effect::UploadRecording` with the two tasks
-- that it starts. What the disk, the audio source, the gate and the shutdown flag answer is part of the
-- input.
use telephone_booth.Base.{
  ℕ, Bool, true, false, not, String, ◌<>◌, Option, none, some, List, [], ◌∷◌, ◌++◌, ltb,
  if◌then◌else◌, Result, ok, err,
}
use telephone_booth.Hal.{RecordingId, QuestionId}
use telephone_booth.Core.Types.{UploadOutcome, complete, deferred, failed}
use telephone_booth.Operator.Retry.{
  Action, upload_started, cleanup_recording, remove_file, error_event, upload_finished, World,
}
use telephone_booth.Operator.Upload.{OperatorClient, Upload, upload_recording}
use telephone_booth.Operator.Spool.{
  SpoolEntry, PendingUploadSpool, enqueue, dequeue, claim, release,
}

pub record Answers : Type 0 where
  -- `path_of`, the size and the duration that the audio source gives
  pub path : Result String String
  pub size : Option ℕ
  pub duration_ms : Option ℕ
  pub session_id : Option String
  -- the error of `enqueue`, if it fails
  -- and whether the entry was renamed into place all the same
  pub persist_error : Option String
  pub renamed : Bool
  pub dequeue_works : Bool
  -- the flag when the recording is persisted, and when the network task starts
  pub shutting_down : Bool
  pub shut_down_later : Bool
  pub accepting_calls : Bool

-- The outside with the trace, and the spool.
pub record Booth (W : Type 0) : Type 0 where
  pub world : World W
  pub spool : PendingUploadSpool

-- The runtime does these things.
abbrev pub act : {W : Type 0} → List Action → Booth W → Booth W
act actions b = record b { world = record b.world { trace = b.world.trace ++ actions } }

abbrev pub is_short : ℕ → Option ℕ → Bool
is_short min_recording_ms none = false
is_short min_recording_ms (some ms) = ltb ms min_recording_ms

abbrev pub size_or_zero : Option ℕ → ℕ
size_or_zero none = 0
size_or_zero (some n) = n

abbrev pub started : RecordingId → Option String → List Action
started r none = []
started r (some sid) = upload_started r sid ∷ []

-- `send_upload_outcome(Some(event_tx), ..)`.
abbrev pub send_outcome : RecordingId → UploadOutcome → List Action
send_outcome r outcome = upload_finished r outcome ∷ []

module _ {W : Type 0} (client : OperatorClient W) (u : Upload) where
  -- An upload, and then the removal of its entry, if it succeeds and the disk obeys.
  unfoldable pub upload_and_dequeue : Bool → Booth W → Bool × Booth W
  upload_and_dequeue dequeue_works b =
      let (success, world) = upload_recording client u b.world in
      let spool =
        if success
        then if dequeue_works then dequeue u.recording_id b.spool else b.spool
        else b.spool in
      (success, record { world = world; spool = spool })

module _ {W : Type 0} (client : OperatorClient W) (r : RecordingId) (q : QuestionId)
    (a : Answers) where
  abbrev pub upload_of : String → Upload
  upload_of path = record {
    recording_id = r;
    question_id = some q;
    session_id = a.session_id;
    path = path;
    bytes = size_or_zero a.size;
    duration_ms = a.duration_ms;
    notified = true;
    has_source = true;
  }

  -- An upload that is begun, and the entry's removal.
  unfoldable pub network_upload : String → Booth W → Booth W
  unfolding upload_and_dequeue
  network_upload path b =
      (upload_and_dequeue client (upload_of path) a.dequeue_works
        (act (started r a.session_id) b)).1

  -- The task on the network, once the recording is persisted or could not be.
  unfoldable pub network_task : String → Booth W → Booth W
  unfolding network_upload
  network_task path b = elim a.persist_error [
    | some e ↦ act (send_outcome r (failed ("cannot persist pending upload: " <> e))) b
    | none ↦
        if a.shut_down_later
        then b
        else if not a.accepting_calls
        then act (send_outcome r deferred) b
        else network_upload path b
  ]

  abbrev pub entry_of : String → SpoolEntry
  entry_of path = record {
    recording_id = r;
    question_id = some q;
    path = path;
    size_bytes = some (size_or_zero a.size);
    duration_ms = a.duration_ms;
  }

  -- The task on the disk.
  unfoldable pub persist : String → PendingUploadSpool → PendingUploadSpool
  persist path spool = elim a.persist_error [
    | none ↦ enqueue (entry_of path) spool
    | some e ↦ if a.renamed then enqueue (entry_of path) spool else spool
  ]

  -- The claim is held; it is dropped when the network task ends, or at once when shutting down.
  unfoldable pub claimed_upload : String → Booth W → Booth W
  unfolding persist network_task
  claimed_upload path b =
      let b' = record b { spool = persist path b.spool } in
      let b'' = if a.shutting_down then b' else network_task path b' in
      record b'' { spool = release r b''.spool }

  unfoldable pub upload_effect : ℕ → Booth W → Booth W
  unfolding claim claimed_upload
  upload_effect min_recording_ms b = elim a.path [
    | err e ↦ act (error_event "audio" e ∷ send_outcome r (failed e)) b
    | ok path ↦
        if is_short min_recording_ms a.duration_ms
        then act (cleanup_recording r ∷ remove_file path ∷ send_outcome r complete) b
        else elim (claim r b.spool) [
          | none ↦ act (send_outcome r deferred) b
          | some spool ↦ claimed_upload path (record b { spool = spool })
        ]
  ]
