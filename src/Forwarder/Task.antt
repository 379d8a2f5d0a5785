-- ===== src/Forwarder/Task.antt =====
-- crates/booth-bin/src/observability.rs: `spawn_event_forwarder`. A step of the loop takes one input; what
-- the operator and the disk answer in it is part of it.
use Prim.Native.Nat.{max}
use mathlib.Core.Option
use telephone_booth.Base.{
  ℕ, Bool, true, false, String, Option, none, some, List, [], ◌∷◌, ◌++◌, length, ltb, leb,
  if◌then◌else◌,
}
use telephone_booth.EventSpool.Files.{Name, Directory, Disk, oldest_batch, remove_file}
use telephone_booth.EventSpool.Split.{SplitDisk, replace_file_with_chunks}
use telephone_booth.Sessions.Events.{TelemetryEvent, monotonic_ns_of}
use telephone_booth.Sessions.Tracker.{SessionTracker, observe, current_session_id}
use telephone_booth.Forwarder.Wire.{WireEvent, wire_for, wire_for_synthetic}
use telephone_booth.Forwarder.Store.{
  Answer, accepted, unsupported, installation_inactive, refused, flushed, retained, given_up, Store,
  effective_event_batch_max, push_with_cap, spill_remaining, flush_once, after_flush, is_empty,
}

pub record ForwardConfig : Type 0 where
  pub batch_max : ℕ
  pub buffer_max : ℕ

pub record Forwarder (S L : Type 0) : Type 0 where
  pub tracker : SessionTracker
  -- what `session_handle` shows
  pub session : Option String
  pub next_seq : ℕ
  pub dropped : ℕ
  -- the counts of the warnings on overflow
  pub warned : List ℕ
  pub was_failing : Bool
  -- what was published on the bus again
  pub published : List (TelemetryEvent S L)
  pub store : Store (WireEvent S L)
  pub running : Bool

pub data ForwarderInput (S L : Type 0) : Type 0 where
  -- the answer to a replayed batch, if it comes; the disk's to a split; the answers to the flush; the disk's to a spill of the
  -- flush and to one after it
  flush_tick : Option Answer → SplitDisk → List Answer → List Disk → List Disk → ForwarderInput S L
  -- the id for a new session, the record's event, and the answers and disks of a flush
  received : String → TelemetryEvent S L → List Answer → List Disk → List Disk → ForwarderInput S L
  lagged closed shutdown : ForwarderInput S L

module _ (less_text : String → String → Bool) (max_files : ℕ) {E : Type 0} where
  -- The arm of a replayed batch for each answer.
  unfoldable pub answered : Answer → Name → List E → Store E → Store E
  unfolding remove_file
  answered accepted path events s = record s {
    spool = Option.map (remove_file path) s.spool;
    acknowledged = s.acknowledged ++ events;
  }
  answered unsupported path events s = record s { spool = Option.map (remove_file path) s.spool }
  answered installation_inactive path events s = s
  answered refused path events s = s

  -- The batch is sent, unless it is to be split first. `none`: the booth shuts down meanwhile.
  unfoldable pub replay_batch :
      Option Answer → SplitDisk → ℕ → Name → List E → Directory E → Store E → Option (Store E)
  unfolding answered replace_file_with_chunks
  replay_batch answer split max_events path events d s =
      if ltb max_events (length events)
      then some (record s {
        spool = some (replace_file_with_chunks less_text split path events (max max_events 1) d).1;
      })
      else Option.map (λ a. answered a path events s) answer

  unfoldable pub replay_one_batch : Option Answer → SplitDisk → ℕ → Store E → Option (Store E)
  unfolding replay_batch oldest_batch
  replay_one_batch answer split max_events s = elim s.spool [
    | none ↦ some s
    | some d ↦
        let (oldest, d') = oldest_batch d in
        let s' = record s { spool = some d' } in
        elim oldest [
          | none ↦ some s'
          | some (path, events) ↦ replay_batch answer split max_events path events d' s'
        ]
  ]

abbrev pub request_batch_max : ForwardConfig → ℕ
request_batch_max config = effective_event_batch_max config.batch_max

module _ {S L : Type 0} where
  -- The record's event.
  unfoldable pub push_wire : ℕ → Option (WireEvent S L) → Forwarder S L → Forwarder S L
  unfolding push_with_cap
  push_wire buffer_max none w = w
  push_wire buffer_max (some wire) w =
      let (batch, dropped) = push_with_cap w.store.batch wire buffer_max w.dropped in
      record w { store = record (w.store) { batch = batch }; dropped = dropped }

  -- The made-up events, each published again.
  unfoldable pub push_synthetic : ℕ → List (TelemetryEvent S L) → Forwarder S L → Forwarder S L
  unfolding push_wire wire_for_synthetic
  push_synthetic buffer_max [] w = w
  push_synthetic buffer_max (e ∷ es) w =
      let (wire, next_seq) = wire_for_synthetic e w.next_seq in
      let w' = push_wire buffer_max (some wire) (record w { next_seq = next_seq }) in
      push_synthetic buffer_max es (record w' { published = w'.published ++ e ∷ [] })

  unfoldable pub ingest_record : ℕ → String → TelemetryEvent S L → Forwarder S L → Forwarder S L
  unfolding observe push_wire wire_for push_synthetic current_session_id monotonic_ns_of
  ingest_record buffer_max id event w =
      let (synthetic, tracker) = observe id (monotonic_ns_of event) event w.tracker in
      let active = current_session_id tracker in
      let (wire, next_seq) = wire_for event w.next_seq active in
      push_synthetic buffer_max synthetic (
        push_wire buffer_max wire
          (record w { tracker = tracker; session = active; next_seq = next_seq }))

  -- The warning on overflow.
  unfoldable pub warn_dropped : Forwarder S L → Forwarder S L
  warn_dropped w =
      if ltb 0 w.dropped then record w { warned = w.warned ++ w.dropped ∷ []; dropped = 0 } else w

  module _ (less_text : String → String → Bool) (max_files : ℕ) (config : ForwardConfig) where
    -- A flush with what follows it; the loop ends where the booth shuts down meanwhile.
    unfoldable pub flush : List Answer → List Disk → List Disk → Forwarder S L → Forwarder S L
    unfolding flush_once after_flush
    flush answers disks after w =
        let (result, store) =
          flush_once less_text max_files disks (request_batch_max config) answers w.store in
        let settle = λ (done : Bool).
          let (failing, store') =
            after_flush less_text max_files after config.buffer_max config.batch_max done
              w.was_failing store in
          record w { was_failing = failing; store = store' } in
        elim result [
          | flushed ↦ settle true
          | retained ↦ settle false
          | given_up ↦ record w { store = store; running = false }
        ]

    unfoldable pub forwarder_step : ForwarderInput S L → Forwarder S L → Forwarder S L
    unfolding flush replay_one_batch ingest_record warn_dropped is_empty
    forwarder_step (flush_tick answer split answers disks after) w =
        elim (replay_one_batch less_text max_files answer split (request_batch_max config)
          w.store) [
            | none ↦ record w { running = false }
            | some store ↦
                let w' = record w { store = store } in
                if is_empty store.batch then w' else flush answers disks after w'
          ]
    forwarder_step (received id event answers disks after) w =
        let w' = ingest_record config.buffer_max id event w in
        let w'' =
          if leb (request_batch_max config) (length w'.store.batch)
          then flush answers disks after w'
          else w' in
        if w''.running then warn_dropped w'' else w''
    forwarder_step lagged w = w
    forwarder_step closed w = record w { running = false }
    forwarder_step shutdown w = record w { running = false }

    unfoldable pub run_forwarder : List (ForwarderInput S L) → Forwarder S L → Forwarder S L
    unfolding forwarder_step
    run_forwarder [] w = w
    run_forwarder (i ∷ is) w =
        let next = run_forwarder is (forwarder_step i w) in if w.running then next else w

    -- After the loop: the records that still wait on the bus, with the ids for new sessions.
    unfoldable pub ingest_all : List (String × TelemetryEvent S L) → Forwarder S L → Forwarder S L
    unfolding ingest_record
    ingest_all [] w = w
    ingest_all ((id, event) ∷ rs) w = ingest_all rs (ingest_record config.buffer_max id event w)

    -- The last flush, within `SHUTDOWN_FLUSH_TIMEOUT`, and the last spill.
    unfoldable pub final_flush :
        List Answer → List Disk → List Disk → Store (WireEvent S L) → Store (WireEvent S L)
    unfolding flush_once spill_remaining is_empty
    final_flush answers disks last s =
        let (result, s') =
          flush_once less_text max_files disks (request_batch_max config) answers s in
        if is_empty s.batch then s else elim result [
          | flushed ↦ s'
          | retained ↦ spill_remaining less_text max_files last (request_batch_max config) s'
          | given_up ↦ spill_remaining less_text max_files last (request_batch_max config) s'
        ]

    unfoldable pub shut_down :
        List (String × TelemetryEvent S L)
        → List Answer
        → List Disk
        → List Disk
        → Forwarder S L
        → Forwarder S L
    unfolding ingest_all final_flush
    shut_down waiting answers disks last w =
        let w' = ingest_all waiting w in
        record w' { store = final_flush answers disks last w'.store }
