-- ===== src/Operator/Examples.antt =====
-- crates/booth-bin/src/lib.rs: uploads to a small operator that fails now and then.
use telephone_booth.Base.{
  ℕ, ltb, ◌-◌, Bool, true, false, String, str_eq, eq_iff, Option, none, some, List, [], ◌∷◌, ◌≡◌,
  refl, ◌⊎◌, inl, inr, arith, if◌then◌else◌, any, ok, err,
}
use telephone_booth.Hal.{RecordingId, QuestionId}
use telephone_booth.Operator.Errors.{duplicate_recording, server}
use telephone_booth.Operator.Retry.{
  World, Operation, retry_operator, retry_from, call_operator, back_off,
}
use telephone_booth.Operator.Attempts.{Tried, retry_operator-Tried}
use telephone_booth.Operator.Upload.{
  OperatorClient, UploadMetadata, UploadSlot, Upload, upload_recording, try_upload,
  validate_upload_caps, start_upload, transfer, complete_slot,
}
use telephone_booth.Operator.Spool.{SpoolEntry, PendingUploadSpool, contains, claim}
use telephone_booth.Operator.Lawful.{IsLawful}
use telephone_booth.Operator.UploadTask.{Answers, Booth, upload_effect}
use telephone_booth.Operator.Durable.{IsSafe, upload_effect-IsSafe}
use telephone_booth.Operator.Reported.{outcomes, upload_effect-outcomes}
use telephone_booth.Operator.Replay.{Turn, Sweep, replay_pass}
use telephone_booth.Operator.Replayed.{replay_pass-IsSafe}
use telephone_booth.Operator.Caps.{IsWithinCaps, upload_recording-IsWithinCaps}

-- An operator: how many puts it will still fail, and the recordings that it has.
record Store : Type 0 where
  failures : ℕ
  recordings : List RecordingId

abbrev has : Store → RecordingId → Bool
has o r = any (str_eq r) o.recordings

abbrev Stored : Store → RecordingId → Type 0
Stored o r = has o r ≡ true

abbrev init_upload : Option QuestionId → UploadMetadata → Operation Store UploadSlot
init_upload q m o =
    if has o m.sha256_hex
    then (err (duplicate_recording m.sha256_hex), o)
    else (ok (record { id = "m1"; upload_url = "https://blobs/m1"; blob_name = "m1" }), o)

abbrev put_upload : UploadSlot → String → RecordingId → Operation Store (Unit {0})
put_upload slot path r o =
    if ltb 0 o.failures
    then (err (server 503 "busy"), record o { failures = o.failures - 1 })
    else (ok tt, o)

abbrev complete_upload : String → RecordingId → ℕ → Operation Store (Unit {0})
complete_upload id r ms o = (ok tt, record o { recordings = r ∷ o.recordings })

abbrev client : OperatorClient Store
client = record {
  init_upload = init_upload;
  put_upload = put_upload;
  complete_upload = complete_upload;
}

init-keeps :
    (q : Option QuestionId) (m : UploadMetadata) (o : Store) (r : RecordingId)
    → Stored o r
    → Stored (init_upload q m o).1 r
init-keeps q m o r h = ground arith

put-keeps :
    (slot : UploadSlot) (path : String) (s : RecordingId) (o : Store) (r : RecordingId)
    → Stored o r
    → Stored (put_upload slot path s o).1 r
put-keeps slot path s o r h = ground arith

complete-stores : (r : RecordingId) (o : Store) → Stored (complete_upload "" r 0 o).1 r
complete-stores r o = ground (arith, eq_iff r r)

init-duplicate :
    (q : Option QuestionId) (m : UploadMetadata) (o : Store) (s : String)
    → (init_upload q m o).0 ≡ err (duplicate_recording s)
    → Stored (init_upload q m o).1 m.sha256_hex
init-duplicate q m o s e = ground arith

client-IsLawful : IsLawful client Stored
client-IsLawful = record {
  init_keeps = init-keeps;
  put_keeps = put-keeps;
  complete_keeps = λ id s ms o r h. ground (arith);
  completed = λ id r ms o e. complete-stores r o;
  duplicate = init-duplicate;
}

abbrev busy_once : Store
busy_once = record { failures = 1; recordings = "r1" ∷ [] }

abbrev world : World Store
world = record { outside = busy_once; request_seq = 0; trace = [] }

abbrev u : Upload
u = record {
  recording_id = "r2";
  question_id = none;
  session_id = some "s1";
  path = "r2.flac";
  bytes = 4_000;
  duration_ms = some 2_000;
  notified = true;
  has_source = true;
}

abbrev slot : UploadSlot
slot = record { id = "m1"; upload_url = "https://blobs/m1"; blob_name = "m1" }

abbrev b : Booth Store
b = record { world = world; spool = record { entries = []; in_flight = [] } }

abbrev answers : Answers
answers = record {
  path = ok "r2.flac";
  size = some 4_000;
  duration_ms = some 2_000;
  session_id = some "s1";
  persist_error = none;
  renamed = false;
  dequeue_works = true;
  shutting_down = false;
  shut_down_later = false;
  accepting_calls = true;
}

abbrev claimed : PendingUploadSpool
claimed = record { entries = []; in_flight = "r2" ∷ [] }

retry_operator-Tried_example :
    (retries : ℕ) × Tried "PUT"
      (put_upload slot "r2.flac" "r2")
      world
      0
      retries
      (retry_operator "PUT" (put_upload slot "r2.flac" "r2") world)
retry_operator-Tried_example = retry_operator-Tried "PUT" (put_upload slot "r2.flac" "r2") world

uploads : (upload_recording client u world).0 ≡ true
unfolding upload_recording try_upload validate_upload_caps start_upload retry_operator retry_from
    call_operator transfer back_off complete_slot
uploads = refl

upload_effect-IsSafe_example :
    IsSafe client Stored client-IsLawful (upload_effect client "r2" "q1" answers 500 b) "r1"
upload_effect-IsSafe_example =
    upload_effect-IsSafe client Stored client-IsLawful "r2" "q1" answers 500 b "r1" (inr refl)

claim_free : claim "r2" b.spool ≡ some claimed
unfolding claim
claim_free = refl

upload_effect-outcomes_example :
    outcomes (upload_effect client "r2" "q1" answers 500 b).world.trace ≡ 1
upload_effect-outcomes_example = upload_effect-outcomes client "r2" "q1" answers 500 b refl refl

upload_recording-IsWithinCaps_example :
    IsWithinCaps 4_000 (some 0)
    ⊎ (((upload_recording client (record u { duration_ms = some 0 }) world).0 ≡ false)
        × ((upload_recording client (record u { duration_ms = some 0 }) world).1.outside
            ≡ busy_once)
        × ((upload_recording client (record u { duration_ms = some 0 }) world).1.request_seq ≡ 0))
upload_recording-IsWithinCaps_example =
    upload_recording-IsWithinCaps client (record u { duration_ms = some 0 }) world

abbrev waiting : SpoolEntry
waiting = record {
  recording_id = "r2";
  question_id = none;
  path = "r2.flac";
  size_bytes = some 4_000;
  duration_ms = some 2_000;
}

abbrev turn : Turn
turn = record {
  entry = waiting;
  accepting_calls = true;
  inspect_fails = false;
  metadata_len = none;
  dequeue_works = true;
}

abbrev sweep : Sweep Store
sweep = record {
  booth = record { world = world; spool = record { entries = waiting ∷ []; in_flight = [] } };
  last_attempt = some "r1";
}

replay_pass-IsSafe_example :
    IsSafe client Stored client-IsLawful (replay_pass client str_eq (turn ∷ []) sweep).booth "r2"
unfolding contains
replay_pass-IsSafe_example =
    replay_pass-IsSafe client Stored client-IsLawful "r2" str_eq (turn ∷ []) sweep (inl refl)
