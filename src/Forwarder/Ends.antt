-- ===== src/Forwarder/Ends.antt =====
-- crates/booth-bin/src/observability.rs: the end of the forwarder keeps what the loop kept.
use telephone_booth.Base.{ℕ, ◌+◌, Bool, String, List, [], ◌∷◌, length, if_cases, arith}
use telephone_booth.EventSpool.Files.{Disk}
use telephone_booth.Sessions.Events.{TelemetryEvent}
use telephone_booth.Forwarder.Wire.{WireEvent}
use telephone_booth.Forwarder.Store.{
  Answer, flushed, retained, given_up, Store, is_empty, flush_once, spill_remaining,
}
use telephone_booth.Forwarder.Task.{
  ForwardConfig, request_batch_max, Forwarder, ingest_record, ingest_all, final_flush, shut_down,
}
use telephone_booth.Forwarder.Flushed.{
  HasRoom, less-HasRoom, Keeps, flush_once-Keeps, spill_remaining-Keeps,
}
use telephone_booth.Forwarder.Kept.{
  AreSupported, Goes, ingest-Goes, Goes-trans, same-Flushes, Goes-of_Flushes,
}

module _ (less_text : String → String → Bool) (max_files : ℕ) (config : ForwardConfig)
    {S L : Type 0} where
  ingest_all-Goes :
      (more : ℕ) (rs : List (String × TelemetryEvent S L)) (w : Forwarder S L)
      → HasRoom less_text max_files (request_batch_max config) more w.store.spool
      → Goes less_text max_files config more w (ingest_all less_text max_files config rs w)
  unfolding ingest_all
  ingest_all-Goes more [] w room =
      Goes-of_Flushes less_text max_files config more w w
        (same-Flushes less_text max_files config more more w (omega arith) room)
  ingest_all-Goes more ((id, event) ∷ rs) w room =
      let w' = ingest_record config.buffer_max id event w in
      let one = ingest-Goes less_text max_files config more id event w room in
      Goes-trans less_text max_files config more w w' _ more one
        (ingest_all-Goes more rs w' one.room)

  final_flush-Keeps :
      (more : ℕ) (answers : List Answer) (disks last : List Disk) (s : Store (WireEvent S L))
      → AreSupported answers
      → HasRoom less_text max_files
          (request_batch_max config)
          (length disks + (length last + more))
          s.spool
      → Keeps less_text max_files
          (request_batch_max config)
          more
          s
          (final_flush less_text max_files config answers disks last s)
  unfolding final_flush
  final_flush-Keeps more answers disks last s fine room =
      let most = request_batch_max config in
      let (result, s') = flush_once less_text max_files disks most answers s in
      let one =
        flush_once-Keeps less_text max_files most most (omega arith) (length last + more) disks
          answers s fine room in
      let left : Store (WireEvent S L) = spill_remaining less_text max_files last most s' in
      let two =
        spill_remaining-Keeps less_text max_files most most (omega arith) more last s' one.room in
      let spilled : Keeps less_text max_files most more s left = record {
        held = λ x h. two.held x (one.held x h);
        room = two.room;
      } in
      let after =
        elim result
          as (λ r. Keeps less_text max_files most more s (elim r as (λ _. Store (WireEvent S L)) [
            | flushed ↦ s'
            | retained ↦ left
            | given_up ↦ left
          ])) [
            | flushed ↦ record {
              held = one.held;
              room =
                  less-HasRoom less_text max_files most (length last + more) more s'.spool
                    (omega arith) one.room;
            }
            | retained ↦ spilled
            | given_up ↦ spilled
          ] in
      if_cases (Keeps less_text max_files most more s) (is_empty s.batch) s _
        (record {
          held = λ x h. h;
          room = less-HasRoom less_text max_files most _ more s.spool (omega arith) room;
        })
        after

  pub shut_down-Goes :
      (more : ℕ) (waiting : List (String × TelemetryEvent S L)) (answers : List Answer)
      (disks last : List Disk) (w : Forwarder S L)
      → AreSupported answers
      → HasRoom less_text max_files
          (request_batch_max config)
          (length disks + (length last + more))
          w.store.spool
      → Goes less_text max_files config more w
          (shut_down less_text max_files config waiting answers disks last w)
  unfolding shut_down
  shut_down-Goes more waiting answers disks last w fine room =
      let w' = ingest_all less_text max_files config waiting w in
      let one = ingest_all-Goes (length disks + (length last + more)) waiting w room in
      let two = final_flush-Keeps more answers disks last w'.store fine one.room in
      record {
        room = two.room;
        clean = one.clean;
        held = λ clean x h. two.held x (one.held clean x h);
      }
