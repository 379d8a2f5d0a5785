-- ===== src/Forwarder/Wire.antt =====
-- crates/booth-bin/src/observability.rs: envelopes for the operator. The JSON payload is the event itself;
-- what the identity of the booth and the clock add to every envelope is left out.
use telephone_booth.Base.{ℕ, ◌+◌, ◌-◌, ◌^◌, String, Option, none, some, ltb, if◌then◌else◌}
use telephone_booth.Hal.{RecordingId}
use telephone_booth.Sessions.Events.{
  TelemetryEvent, should_forward, event_kind, session_id_of, recording_id_of, session_id_for_wire,
}

pub record WireEvent (S L : Type 0) : Type 0 where
  -- the end of `eventId`
  pub seq : ℕ
  pub kind : String
  pub session_id : Option String
  pub recording_id : Option RecordingId
  pub payload : TelemetryEvent S L

-- The number, and the next one, of 64 bits.
unfoldable pub next_event_seq : ℕ → ℕ × ℕ
next_event_seq next_seq =
    (next_seq, if ltb (next_seq + 1) (2 ^ 64) then next_seq + 1 else 2 ^ 64 - 1)

module _ {S L : Type 0} where
  -- The envelope, if any, and the next number.
  unfoldable pub wire_for : TelemetryEvent S L → ℕ → Option String → Option (WireEvent S L) × ℕ
  unfolding next_event_seq should_forward event_kind session_id_for_wire recording_id_of
  wire_for event next_seq active_session_id =
      let (seq, next_seq') = next_event_seq next_seq in
      if should_forward event
      then (
        some (record {
          seq = seq;
          kind = event_kind event;
          session_id = session_id_for_wire event active_session_id;
          recording_id = recording_id_of event;
          payload = event;
        }),
        next_seq',
      )
      else (none, next_seq)

  unfoldable pub wire_for_synthetic : TelemetryEvent S L → ℕ → WireEvent S L × ℕ
  unfolding next_event_seq event_kind session_id_of recording_id_of
  wire_for_synthetic event next_seq =
      let (seq, next_seq') = next_event_seq next_seq in
      (
        record {
          seq = seq;
          kind = event_kind event;
          session_id = session_id_of event;
          recording_id = recording_id_of event;
          payload = event;
        },
        next_seq',
      )
