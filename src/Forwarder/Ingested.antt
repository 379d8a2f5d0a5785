-- ===== src/Forwarder/Ingested.antt =====
-- crates/booth-bin/src/observability.rs: what `ingest_record` adds to the buffer.
use telephone_booth.Base.{
  ℕ, ◌+◌, ◌-◌, ◌^◌, String, Option, none, some, List, [], ◌∷◌, ◌++◌, append_assoc, append-nil,
  length, drop, ◌≡◌, refl, sym, ap, ap₂, ◌∙◌, ltb, leb, if◌then◌else◌, if_cases, arith,
}
use telephone_booth.Sessions.Events.{TelemetryEvent, monotonic_ns_of}
use telephone_booth.Sessions.Tracker.{observe, current_session_id}
use telephone_booth.Forwarder.Wire.{WireEvent, wire_for, wire_for_synthetic}
use telephone_booth.Forwarder.Store.{push_with_cap}
use telephone_booth.Forwarder.Task.{Forwarder, push_wire, push_synthetic, ingest_record}

module _ {A : Type 0} where
  -- Where nothing is dropped the item is appended.
  push_with_cap-append :
      (batch : List A) (item : A) (cap dropped : ℕ)
      → let (batch', dropped') = push_with_cap batch item cap dropped in
        dropped' ≡ 0 → (dropped ≡ 0) × (batch' ≡ batch ++ item ∷ [])
  unfolding push_with_cap
  push_with_cap-append batch item cap dropped =
      if_cases (λ (p : List A × ℕ). p.1 ≡ 0 → (dropped ≡ 0) × (p.0 ≡ batch ++ item ∷ []))
        (leb cap (length batch))
        (drop 1 batch ++ item ∷ [], if ltb (dropped + 1) (2 ^ 64) then dropped + 1 else 2 ^ 64 - 1)
        (batch ++ item ∷ [], dropped) (λ h. absurd (ground arith)) (λ h. (h, refl))

  pub append-not-nil : (xs : List A) (x : A) → xs ++ x ∷ [] ≡ [] → ⊥
  append-not-nil [] x h = cc
  append-not-nil (y ∷ xs) x h = cc

module _ {S L : Type 0} where
  -- No overflow has been counted or reported.
  abbrev pub IsClean : Forwarder S L → Type 0
  IsClean w = (w.warned ≡ []) × (w.dropped ≡ 0)

  -- The envelopes that an ingested record adds to the buffer.
  abbrev pub synthetic_wires : List (TelemetryEvent S L) → ℕ → List (WireEvent S L)
  synthetic_wires [] next_seq = []
  synthetic_wires (e ∷ es) next_seq =
      let (wire, next_seq') = wire_for_synthetic e next_seq in wire ∷ synthetic_wires es next_seq'

  abbrev pub option_list : Option (WireEvent S L) → List (WireEvent S L)
  option_list none = []
  option_list (some wire) = wire ∷ []

  abbrev pub wires : String → TelemetryEvent S L → Forwarder S L → List (WireEvent S L)
  wires id event w =
      let (synthetic, tracker) = observe id (monotonic_ns_of event) event w.tracker in
      let (wire, next_seq) = wire_for event w.next_seq (current_session_id tracker) in
      option_list wire ++ synthetic_wires synthetic next_seq

  -- What a record leaves where nothing is dropped.
  pub record Appends (added : List (WireEvent S L)) (w w' : Forwarder S L) : Type 0 where
    pub clean : IsClean w
    pub batch : w'.store.batch ≡ w.store.batch ++ added
    pub spool : w'.store.spool ≡ w.store.spool
    pub acknowledged : w'.store.acknowledged ≡ w.store.acknowledged
    pub running : w'.running ≡ w.running

  push_wire-Appends :
      (buffer_max : ℕ) (wire : Option (WireEvent S L)) (w : Forwarder S L)
      → IsClean (push_wire buffer_max wire w)
      → Appends (option_list wire) w (push_wire buffer_max wire w)
  unfolding push_wire
  push_wire-Appends buffer_max none w clean = record {
    clean = clean;
    batch = sym (append-nil w.store.batch);
    spool = refl;
    acknowledged = refl;
    running = refl;
  }
  push_wire-Appends buffer_max (some wire) w (unwarned, undropped) =
      let (zero_before, appended) =
        push_with_cap-append w.store.batch wire buffer_max w.dropped undropped in
      record {
        clean = (unwarned, zero_before);
        batch = appended;
        spool = refl;
        acknowledged = refl;
        running = refl;
      }

  push_wire-next_seq :
      (buffer_max : ℕ) (wire : Option (WireEvent S L)) (w : Forwarder S L)
      → (push_wire buffer_max wire w).next_seq ≡ w.next_seq
  unfolding push_wire
  push_wire-next_seq buffer_max none w = refl
  push_wire-next_seq buffer_max (some wire) w = refl

  push_synthetic-Appends :
      (buffer_max : ℕ) (es : List (TelemetryEvent S L)) (w : Forwarder S L)
      → IsClean (push_synthetic buffer_max es w)
      → Appends (synthetic_wires es w.next_seq) w (push_synthetic buffer_max es w)
  unfolding push_synthetic
  push_synthetic-Appends buffer_max [] w clean = record {
    clean = clean;
    batch = sym (append-nil w.store.batch);
    spool = refl;
    acknowledged = refl;
    running = refl;
  }
  push_synthetic-Appends buffer_max (e ∷ es) w clean =
      let (wire, next_seq) = wire_for_synthetic e w.next_seq in
      let numbered = record w { next_seq = next_seq } in
      let w' = push_wire buffer_max (some wire) numbered in
      let later =
        push_synthetic-Appends buffer_max es (record w' { published = w'.published ++ e ∷ [] })
          clean in
      let first = push_wire-Appends buffer_max (some wire) numbered later.clean in
      record {
        clean = first.clean;
        batch =
            later.batch
            ∙ ap (λ b. b ++ synthetic_wires es next_seq) first.batch
            ∙ append_assoc w.store.batch (wire ∷ []) _;
        spool = later.spool ∙ first.spool;
        acknowledged = later.acknowledged ∙ first.acknowledged;
        running = later.running ∙ first.running;
      }

  pub ingest_record-Appends :
      (buffer_max : ℕ) (id : String) (event : TelemetryEvent S L) (w : Forwarder S L)
      → IsClean (ingest_record buffer_max id event w)
      → Appends (wires id event w) w (ingest_record buffer_max id event w)
  unfolding ingest_record
  ingest_record-Appends buffer_max id event w clean =
      let (synthetic, tracker) = observe id (monotonic_ns_of event) event w.tracker in
      let active = current_session_id tracker in
      let (wire, next_seq) = wire_for event w.next_seq active in
      let numbered = record w { tracker = tracker; session = active; next_seq = next_seq } in
      let later =
        push_synthetic-Appends buffer_max synthetic (push_wire buffer_max wire numbered) clean in
      let first = push_wire-Appends buffer_max wire numbered later.clean in
      record {
        clean = first.clean;
        batch =
            later.batch
            ∙ ap₂ (λ b n. b ++ synthetic_wires synthetic n) first.batch
                (push_wire-next_seq buffer_max wire numbered)
            ∙ append_assoc w.store.batch (option_list wire) _;
        spool = later.spool ∙ first.spool;
        acknowledged = later.acknowledged ∙ first.acknowledged;
        running = later.running ∙ first.running;
      }

  push_wire-spool :
      (buffer_max : ℕ) (wire : Option (WireEvent S L)) (w : Forwarder S L)
      → (push_wire buffer_max wire w).store.spool ≡ w.store.spool
  unfolding push_wire
  push_wire-spool buffer_max none w = refl
  push_wire-spool buffer_max (some wire) w = refl

  push_synthetic-spool :
      (buffer_max : ℕ) (es : List (TelemetryEvent S L)) (w : Forwarder S L)
      → (push_synthetic buffer_max es w).store.spool ≡ w.store.spool
  unfolding push_synthetic
  push_synthetic-spool buffer_max [] w = refl
  push_synthetic-spool buffer_max (e ∷ es) w =
      let (wire, next_seq) = wire_for_synthetic e w.next_seq in
      let w' = push_wire buffer_max (some wire) (record w { next_seq = next_seq }) in
      push_synthetic-spool buffer_max es (record w' { published = w'.published ++ e ∷ [] })
      ∙ push_wire-spool buffer_max (some wire) (record w { next_seq = next_seq })

  pub ingest_record-spool :
      (buffer_max : ℕ) (id : String) (event : TelemetryEvent S L) (w : Forwarder S L)
      → (ingest_record buffer_max id event w).store.spool ≡ w.store.spool
  unfolding ingest_record
  ingest_record-spool buffer_max id event w =
      let (synthetic, tracker) = observe id (monotonic_ns_of event) event w.tracker in
      let active = current_session_id tracker in
      let (wire, next_seq) = wire_for event w.next_seq active in
      let numbered = record w { tracker = tracker; session = active; next_seq = next_seq } in
      push_synthetic-spool buffer_max synthetic (push_wire buffer_max wire numbered)
      ∙ push_wire-spool buffer_max wire numbered
