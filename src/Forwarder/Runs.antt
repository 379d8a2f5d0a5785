-- ===== src/Forwarder/Runs.antt =====
-- crates/booth-bin/src/observability.rs: the forwarder's loop loses no event while its buffer and its spool
-- have room.
use telephone_booth.Base.{
  ℕ, ◌+◌, Bool, true, false, String, Option, none, some, List, [], ◌∷◌, length, ◌≡◌, All, leb,
  if◌then◌else◌, if_cases, arith,
}
use telephone_booth.EventSpool.Files.{Disk}
use telephone_booth.EventSpool.Split.{SplitDisk}
use telephone_booth.Sessions.Events.{TelemetryEvent}
use telephone_booth.Forwarder.Wire.{WireEvent}
use telephone_booth.Forwarder.Store.{Answer, Store, is_empty}
use telephone_booth.Forwarder.Task.{
  ForwardConfig, request_batch_max, Forwarder, ForwarderInput, flush_tick, received, lagged, closed,
  shutdown, ingest_record, warn_dropped, flush, forwarder_step, run_forwarder, replay_one_batch,
}
use telephone_booth.Forwarder.Flushed.{HasRoom, less-HasRoom}
use telephone_booth.Forwarder.Replayed.{Kept, is_fine, replay_one_batch-Kept}
use telephone_booth.Forwarder.Kept.{
  AreSupported, Goes, Flushes, ingest-Goes, flush-Flushes, Goes-of_Flushes, same-Flushes,
  Goes-trans, warn_dropped-Goes,
}

module _ {S L : Type 0} where
  -- No answer in it says that the client knows no events.
  abbrev pub IsSupported : ForwarderInput S L → Type 0
  IsSupported (flush_tick answer split answers disks after) =
      (is_fine answer ≡ true) × AreSupported answers
  IsSupported (received id event answers disks after) = AreSupported answers
  IsSupported _ = Unit

  -- How many files its spills write at most.
  abbrev pub files_of : ForwarderInput S L → ℕ
  files_of (flush_tick answer split answers disks after) = length disks + length after
  files_of (received id event answers disks after) = length disks + length after
  files_of _ = 0

  abbrev pub all_files : List (ForwarderInput S L) → ℕ
  all_files [] = 0
  all_files (i ∷ is) = files_of i + all_files is

module _ (less_text : String → String → Bool) (max_files : ℕ) (config : ForwardConfig)
    {S L : Type 0} where
  tick-Goes :
      (more : ℕ) (answer : Option Answer) (split : SplitDisk) (answers : List Answer)
      (disks after : List Disk) (w : Forwarder S L)
      → is_fine answer ≡ true
      → AreSupported answers
      → HasRoom less_text max_files
          (request_batch_max config)
          (length disks + (length after + more))
          w.store.spool
      → Goes less_text max_files config more w (
          forwarder_step less_text max_files config (flush_tick answer split answers disks after) w)
  unfolding forwarder_step
  tick-Goes more answer split answers disks after w fine fines room =
      let budget = length disks + (length after + more) in
      let proceed : Store (WireEvent S L) → Forwarder S L = λ store.
        if is_empty store.batch
        then record w { store = store }
        else flush less_text max_files config answers disks after (record w { store = store }) in
      elim (replay_one_batch less_text max_files answer split (request_batch_max config) w.store)
          as (λ r.
            Kept less_text max_files (request_batch_max config) budget w.store r
            → Goes less_text max_files config more w (elim r as (λ _. Forwarder S L) [
              | none ↦ record w { running = false }
              | some store ↦ proceed store
            ])) [
              | none ↦ λ kept. record {
                room =
                    (same-Flushes less_text max_files config budget more w (omega arith)
                      room).keeps.room;
                clean = λ clean. clean;
                held = λ clean x h. h;
              }
              | some store ↦ λ kept.
                  let w' = record w { store = store } in
                  Goes-trans less_text max_files config more w w' (proceed store) budget
                    (record {
                      room = kept.room;
                      clean = λ clean. clean;
                      held = λ clean x h. kept.held x h;
                    })
                    (Goes-of_Flushes less_text max_files config more w' (proceed store) (
                      if_cases (Flushes less_text max_files config more w') (is_empty store.batch)
                        w' (flush less_text max_files config answers disks after w')
                        (same-Flushes less_text max_files config budget more w' (omega arith)
                          kept.room)
                        (flush-Flushes less_text max_files config more answers disks after w' fines
                          kept.room)))
            ]
        (replay_one_batch-Kept less_text max_files (request_batch_max config) budget answer split
          w.store fine room)

  -- After an ingested record: perhaps a flush, and the warning.
  abbrev ingested : String → TelemetryEvent S L → Forwarder S L → Forwarder S L
  ingested id event w = ingest_record config.buffer_max id event w

  pub received-Goes :
      (more : ℕ) (id : String) (event : TelemetryEvent S L) (answers : List Answer)
      (disks after : List Disk) (w : Forwarder S L)
      → AreSupported answers
      → HasRoom less_text max_files
          (request_batch_max config)
          (length disks + (length after + more))
          w.store.spool
      → Goes less_text max_files config more
          (ingest_record config.buffer_max id event w)
          (forwarder_step less_text max_files config (received id event answers disks after) w)
  unfolding forwarder_step
  received-Goes more id event answers disks after w fines room =
      let budget = length disks + (length after + more) in
      let w' = ingested id event w in
      let flushed_w = flush less_text max_files config answers disks after w' in
      let full = leb (request_batch_max config) (length w'.store.batch) in
      let u = if full then flushed_w else w' in
      let room' = (ingest-Goes less_text max_files config budget id event w room).room in
      let f =
        if_cases (Flushes less_text max_files config more w') full flushed_w w'
          (flush-Flushes less_text max_files config more answers disks after w' fines room')
          (same-Flushes less_text max_files config budget more w' (omega arith) room') in
      if_cases (Goes less_text max_files config more w') u.running (warn_dropped u) u
        (Goes-trans less_text max_files config more w' u (warn_dropped u) more
          (Goes-of_Flushes less_text max_files config more w' u f)
          (warn_dropped-Goes less_text max_files config more u f.keeps.room))
        (Goes-of_Flushes less_text max_files config more w' u f)

  step-Goes :
      (more : ℕ) (i : ForwarderInput S L) (w : Forwarder S L)
      → IsSupported i
      → HasRoom less_text max_files (request_batch_max config) (files_of i + more) w.store.spool
      → Goes less_text max_files config more w (forwarder_step less_text max_files config i w)
  unfolding forwarder_step
  step-Goes more (flush_tick answer split answers disks after) w (fine, fines) room =
      tick-Goes more answer split answers disks after w fine fines (
        less-HasRoom less_text max_files (request_batch_max config) _ _ w.store.spool (omega arith)
          room)
  step-Goes more (received id event answers disks after) w fines room =
      let budget = length disks + (length after + more) in
      let room' =
        less-HasRoom less_text max_files (request_batch_max config) _ budget w.store.spool
          (omega arith) room in
      Goes-trans less_text max_files config more w (ingested id event w) _ budget
        (ingest-Goes less_text max_files config budget id event w room')
        (received-Goes more id event answers disks after w fines room')
  step-Goes more lagged w fine room =
      Goes-of_Flushes less_text max_files config more w w
        (same-Flushes less_text max_files config (0 + more) more w (omega arith) room)
  step-Goes more closed w fine room = record {
    room =
        (same-Flushes less_text max_files config (0 + more) more w (omega arith) room).keeps.room;
    clean = λ clean. clean;
    held = λ clean x h. h;
  }
  step-Goes more shutdown w fine room = record {
    room =
        (same-Flushes less_text max_files config (0 + more) more w (omega arith) room).keeps.room;
    clean = λ clean. clean;
    held = λ clean x h. h;
  }

  pub run_forwarder-Goes :
      (more : ℕ) (is : List (ForwarderInput S L)) (w : Forwarder S L)
      → All IsSupported is
      → HasRoom less_text max_files (request_batch_max config) (all_files is + more) w.store.spool
      → Goes less_text max_files config more w (run_forwarder less_text max_files config is w)
  unfolding run_forwarder
  run_forwarder-Goes more [] w fine room =
      Goes-of_Flushes less_text max_files config more w w
        (same-Flushes less_text max_files config (0 + more) more w (omega arith) room)
  run_forwarder-Goes more (i ∷ is) w (fine, fines) room =
      let next = forwarder_step less_text max_files config i w in
      let rest = all_files is + more in
      let room' =
        less-HasRoom less_text max_files (request_batch_max config)
          (files_of i + all_files is + more) (files_of i + rest) w.store.spool (omega arith) room in
      let one = step-Goes rest i w fine room' in
      if_cases (Goes less_text max_files config more w) w.running
        (run_forwarder less_text max_files config is next) w
        (Goes-trans less_text max_files config more w next _ rest one
          (run_forwarder-Goes more is next fines one.room))
        (Goes-of_Flushes less_text max_files config more w w
          (same-Flushes less_text max_files config (files_of i + rest) more w (omega arith) room'))
