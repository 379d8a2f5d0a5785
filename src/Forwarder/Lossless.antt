-- ===== src/Forwarder/Lossless.antt =====
-- crates/booth-bin/src/observability.rs: an event between the telemetry bus and the operator.
use telephone_booth.Base.{
  ℕ, Bool, true, String, List, ◌∷◌, ◌≡◌, sym, subst, inr, All, if◌then◌else◌, arith, ◌+◌, [], ◌⊎◌,
  inl, length,
}
use telephone_booth.EventSpool.Files.{Disk}
use telephone_booth.Sessions.Events.{TelemetryEvent}
use telephone_booth.Forwarder.Wire.{WireEvent}
use telephone_booth.Forwarder.Store.{Answer, Store}
use telephone_booth.Forwarder.Task.{
  ForwardConfig, request_batch_max, Forwarder, ForwarderInput, received, ingest_record,
  forwarder_step, run_forwarder, shut_down,
}
use telephone_booth.Forwarder.Held.{In, In-right, IsHeld, IsStored}
use telephone_booth.Forwarder.Emptied.{CannotSpill, shut_down-empties}
use telephone_booth.Forwarder.Flushed.{HasRoom, less-HasRoom}
use telephone_booth.Forwarder.Ingested.{IsClean, wires, ingest_record-Appends}
use telephone_booth.Forwarder.Kept.{AreSupported}
use telephone_booth.Forwarder.Ends.{shut_down-Goes}
use telephone_booth.Forwarder.Runs.{IsSupported, all_files, received-Goes, run_forwarder-Goes}

module _ (less_text : String → String → Bool) (max_files : ℕ) (config : ForwardConfig)
    {S L : Type 0} where
  -- The buffer dies with the task, so only what could not be written is there at the end.
  IsHeld-ends :
      (last : List Disk) (x : WireEvent S L) (s : Store (WireEvent S L))
      → (s.batch ≡ []) ⊎ CannotSpill (request_batch_max config) last s.batch s.spool
      → IsHeld x s
      → IsStored x s ⊎ (In x s.batch × CannotSpill (request_batch_max config) last s.batch s.spool)
  IsHeld-ends last x s ends (inl known) = inl (inl known)
  IsHeld-ends last x s ends (inr (inl waits)) = inl (inr waits)
  IsHeld-ends last x s (inl empty) (inr (inr buffered)) = absurd (subst (In x) empty buffered)
  IsHeld-ends last x s (inr cannot) (inr (inr buffered)) = inr (buffered, cannot)

  -- In the running loop, when a record is received, whatever is received, answered and written after
  -- it, and then the loop's end with the records that still wait: each envelope of the record's event and of
  -- the starts and ends of calls made up for it is at last with the operator or in the spool, unless the last
  -- spill could not write it: there is no spool, or the disk fails it or answers for fewer files than it has, or
  -- the spool has no number left. The conditions: no answer says that the client
  -- knows no events, no overflow of the buffer was counted or reported, the spool, if there is one, has its
  -- files under different names and no batch over the limit of a request, and its cap has room for
  -- all files that are spilled.
  pub run_forwarder-holds :
      (id : String) (event : TelemetryEvent S L) (answers : List Answer) (disks after : List Disk)
      (is : List (ForwarderInput S L)) (waiting : List (String × TelemetryEvent S L))
      (last_answers : List Answer) (last_disks last : List Disk) (w : Forwarder S L)
      → w.running ≡ true
      → All IsSupported (received id event answers disks after ∷ is)
      → AreSupported last_answers
      → HasRoom less_text max_files
          (request_batch_max config)
          (all_files (received id event answers disks after ∷ is)
            + (length last_disks + length last))
          w.store.spool
      → let v =
          run_forwarder less_text max_files config (received id event answers disks after ∷ is) w in
        let end = shut_down less_text max_files config waiting last_answers last_disks last v in
        IsClean end
        → (x : WireEvent S L) → In x (wires id event w)
        → IsStored x end.store
          ⊎ (In x end.store.batch
              × CannotSpill (request_batch_max config) last end.store.batch end.store.spool)
  unfolding run_forwarder
  run_forwarder-holds id event answers disks after is waiting last_answers last_disks last w running
        (fine, fines) last_fine room clean x added =
      let most = request_batch_max config in
      let rest = length last_disks + length last in
      let first = received id event answers disks after in
      let w' = ingest_record config.buffer_max id event w in
      let next = forwarder_step less_text max_files config first w in
      let one =
        received-Goes less_text max_files config (all_files is + rest) id event answers disks after
          w fine (less-HasRoom less_text max_files most _ _ w.store.spool (omega arith) room) in
      let two = run_forwarder-Goes less_text max_files config rest is next fines one.room in
      let v = run_forwarder less_text max_files config is next in
      let three =
        shut_down-Goes less_text max_files config 0 waiting last_answers last_disks last v last_fine
          (less-HasRoom less_text max_files most _ _ v.store.spool (omega arith) two.room) in
      let end = λ (u : Forwarder S L).
        shut_down less_text max_files config waiting last_answers last_disks last u in
      IsHeld-ends last x _
        (shut_down-empties less_text max_files config waiting last_answers last_disks last _
          last_fine)
        (subst (λ b. IsClean (end (if b then v else w)) → IsHeld x (end (if b then v else w)).store)
          (sym running)
          (λ clean.
            let clean_v = three.clean clean in
            let clean_w' = one.clean (two.clean clean_v) in
            let appended = ingest_record-Appends config.buffer_max id event w clean_w' in
            three.held clean x (
              two.held clean_v x (
                one.held (two.clean clean_v) x (
                  inr
                    (inr (subst (In x) (sym appended.batch) (In-right x w.store.batch _ added)))))))
          clean)
