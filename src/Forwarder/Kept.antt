-- ===== src/Forwarder/Kept.antt =====
-- crates/booth-bin/src/observability.rs: what one part of a step of the forwarder's loop keeps.
use telephone_booth.Base.{
  ℕ, ◌+◌, ◌≤◌, Bool, true, false, String, List, [], ◌∷◌, ◌++◌, length, ◌≡◌, refl, sym, subst, ◌∙◌,
  inl, inr, All, ltb, if_cases, arith,
}
use telephone_booth.EventSpool.Files.{Disk}
use telephone_booth.Sessions.Events.{TelemetryEvent}
use telephone_booth.Forwarder.Wire.{WireEvent}
use telephone_booth.Forwarder.Store.{
  Answer, flushed, retained, given_up, Store, flush_once, after_flush,
}
use telephone_booth.Forwarder.Task.{
  ForwardConfig, request_batch_max, Forwarder, ingest_record, warn_dropped, flush,
}
use telephone_booth.Forwarder.Held.{In, In-left, InSpool, IsHeld}
use telephone_booth.Forwarder.Flushed.{
  is_supported, HasRoom, less-HasRoom, Keeps, flush_once-Keeps, after_flush-Keeps,
}
use telephone_booth.Forwarder.Ingested.{
  append-not-nil, IsClean, ingest_record-Appends, ingest_record-spool,
}

abbrev pub AreSupported : List Answer → Type 0
AreSupported answers = All (λ (a : Answer). is_supported a ≡ true) answers

module _ (less_text : String → String → Bool) (max_files : ℕ) (config : ForwardConfig)
    {S L : Type 0} where
  abbrev pub KeepsStore : ℕ → Store (WireEvent S L) → Store (WireEvent S L) → Type 0
  KeepsStore more s s' = Keeps less_text max_files (request_batch_max config) more s s'

  -- There is room left, and where no overflow has been counted or reported nothing is lost.
  pub record Goes (more : ℕ) (w w' : Forwarder S L) : Type 0 where
    pub room : HasRoom less_text max_files (request_batch_max config) more w'.store.spool
    pub clean : IsClean w' → IsClean w
    pub held : IsClean w' → (x : WireEvent S L) → IsHeld x w.store → IsHeld x w'.store

  pub ingest-Goes :
      (more : ℕ) (id : String) (event : TelemetryEvent S L) (w : Forwarder S L)
      → HasRoom less_text max_files (request_batch_max config) more w.store.spool
      → Goes more w (ingest_record config.buffer_max id event w)
  ingest-Goes more id event w room =
      let appends = ingest_record-Appends config.buffer_max id event w in
      record {
        room =
            subst (HasRoom less_text max_files (request_batch_max config) more)
              (sym (ingest_record-spool config.buffer_max id event w)) room;
        clean = λ clean. (appends clean).clean;
        held = λ clean x h. elim h [
          | inl known ↦ inl (subst (In x) (sym (appends clean).acknowledged) known)
          | inr (inl waits) ↦ inr (inl (subst (InSpool x) (sym (appends clean).spool) waits))
          | inr (inr buffered) ↦
              inr (inr (subst (In x) (sym (appends clean).batch) (In-left x _ _ buffered)))
        ];
      }

  -- A flush leaves the counts of the overflow.
  pub record Flushes (more : ℕ) (w w' : Forwarder S L) : Type 0 where
    pub warned : w'.warned ≡ w.warned
    pub dropped : w'.dropped ≡ w.dropped
    pub keeps : KeepsStore more w.store w'.store

  pub flush-Flushes :
      (more : ℕ) (answers : List Answer) (disks after : List Disk) (w : Forwarder S L)
      → All (λ (a : Answer). is_supported a ≡ true) answers
      → HasRoom less_text max_files
          (request_batch_max config)
          (length disks + (length after + more))
          w.store.spool
      → Flushes more w (flush less_text max_files config answers disks after w)
  unfolding flush
  flush-Flushes more answers disks after w fine room =
      let (result, store) =
        flush_once less_text max_files disks (request_batch_max config) answers w.store in
      let one =
        flush_once-Keeps less_text max_files (request_batch_max config) (request_batch_max config)
          (omega arith) (length after + more) disks answers w.store fine room in
      let settle : Bool → Forwarder S L = λ done.
        let (failing, store') =
          after_flush less_text max_files after config.buffer_max config.batch_max done
            w.was_failing store in
        record w { was_failing = failing; store = store' } in
      let settled : (done : Bool) → Flushes more w (settle done) = λ done.
        let two =
          after_flush-Keeps less_text max_files (request_batch_max config) config.batch_max refl
            more after config.buffer_max done w.was_failing store one.room in
        record {
          warned = refl;
          dropped = refl;
          keeps = record { held = λ x h. two.held x (one.held x h); room = two.room };
        } in
      elim result
        as (λ r. Flushes more w (elim r as (λ _. Forwarder S L) [
          | flushed ↦ settle true
          | retained ↦ settle false
          | given_up ↦ record w { store = store; running = false }
        ])) [
          | flushed ↦ settled true
          | retained ↦ settled false
          | given_up ↦ record {
            warned = refl;
            dropped = refl;
            keeps = record {
              held = one.held;
              room =
                  less-HasRoom less_text max_files (request_batch_max config) (length after + more)
                    more store.spool (omega arith) one.room;
            };
          }
        ]

  pub Goes-of_Flushes : (more : ℕ) (w w' : Forwarder S L) → Flushes more w w' → Goes more w w'
  Goes-of_Flushes more w w' f = record {
    room = f.keeps.room;
    clean = λ clean. (sym f.warned ∙ clean.0, sym f.dropped ∙ clean.1);
    held = λ clean x h. f.keeps.held x h;
  }

  pub same-Flushes :
      (more less : ℕ) (w : Forwarder S L)
      → less ≤ more
      → HasRoom less_text max_files (request_batch_max config) more w.store.spool
      → Flushes less w w
  same-Flushes more less w le room = record {
    warned = refl;
    dropped = refl;
    keeps = record {
      held = λ x h. h;
      room =
          less-HasRoom less_text max_files (request_batch_max config) more less w.store.spool le
            room;
    };
  }

  pub Goes-trans :
      (more : ℕ) (w u v : Forwarder S L) (budget : ℕ)
      → Goes budget w u
      → Goes more u v
      → Goes more w v
  Goes-trans more w u v budget first second = record {
    room = second.room;
    clean = λ clean. first.clean (second.clean clean);
    held = λ clean x h. second.held clean x (first.held (second.clean clean) x h);
  }

  pub warn_dropped-Goes :
      (more : ℕ) (w : Forwarder S L)
      → HasRoom less_text max_files (request_batch_max config) more w.store.spool
      → Goes more w (warn_dropped w)
  unfolding warn_dropped
  warn_dropped-Goes more w room =
      if_cases (Goes more w) (ltb 0 w.dropped)
        (record w { warned = w.warned ++ w.dropped ∷ []; dropped = 0 }) w
        (record {
          room = room;
          clean = λ clean. absurd (append-not-nil w.warned w.dropped clean.0);
          held = λ clean x h. h;
        })
        (record { room = room; clean = λ clean. clean; held = λ clean x h. h })
