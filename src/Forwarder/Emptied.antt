-- ===== src/Forwarder/Emptied.antt =====
-- crates/booth-bin/src/observability.rs: the end of the forwarder leaves events in its buffer only where the
-- last spill cannot write them.
use Prim.Native.Nat.{min}
use telephone_booth.Base.{
  ℕ, suc, ◌+◌, ◌^◌, ◌≤◌, ◌<◌, Bool, true, false, String, Option, none, some, List, [], ◌∷◌, ◌++◌,
  length, take, drop, ◌≡◌, ◌⊎◌, refl, inl, inr, ltb, Bool-cases, arith, if◌then◌else◌,
}
use telephone_booth.EventSpool.Files.{
  Directory, Disk, obeys, write_fails, sync_fails, spill, max_sequence,
}
use telephone_booth.EventSpool.Split.{chunks}
use telephone_booth.Sessions.Events.{TelemetryEvent}
use telephone_booth.Forwarder.Wire.{WireEvent}
use telephone_booth.Forwarder.Store.{
  Answer, accepted, unsupported, installation_inactive, refused, Flushed, flushed, retained,
  given_up, Store, effective_event_batch_max, spill_chunks, spill_remaining, flush_once, is_empty,
}
use telephone_booth.Forwarder.Task.{
  ForwardConfig, request_batch_max, Forwarder, ingest_all, final_flush, shut_down,
}
use telephone_booth.Forwarder.Kept.{AreSupported}

abbrev pub all_obey : List Disk → Bool
all_obey [] = true
all_obey (obeys ∷ disks) = all_obey disks
all_obey (_ ∷ disks) = false

true-not-false : true ≡ false → ⊥
true-not-false h = cc

first-fails :
    (disk : Disk) (disks : List Disk)
    → all_obey (disk ∷ []) ≡ false
    → all_obey (disk ∷ disks) ≡ false
first-fails obeys disks h = cc
first-fails write_fails disks h = refl
first-fails sync_fails disks h = refl

later-fails :
    (disk : Disk) (disks : List Disk) → all_obey disks ≡ false → all_obey (disk ∷ disks) ≡ false
later-fails obeys disks h = h
later-fails write_fails disks h = refl
later-fails sync_fails disks h = refl

module _ {E : Type 0} where
  -- Why a spill into so many files fails: the disk fails, or answers for fewer files, or the spool has no
  -- number left for another one.
  abbrev pub IsRefused : List Disk → ℕ → Directory E → Type 0
  IsRefused disks files d =
      (all_obey disks ≡ false) ⊎ (length disks < files) ⊎ (2 ^ 64 ≤ max_sequence d + 1)

  -- The spool, if there is one, could not take the events of the buffer, in files of at most `max_events`.
  abbrev pub CannotSpill : ℕ → List Disk → List E → Option (Directory E) → Type 0
  CannotSpill max_events disks batch none = Unit
  CannotSpill max_events disks batch (some d) =
      IsRefused disks (length (chunks (effective_event_batch_max max_events) batch)) d

  if_empty {ℓ κ} :
      {A : Type ℓ} (batch : List E) (P : A → Type κ) (x y : A)
      → (batch ≡ [] → P x)
      → P y
      → P (if is_empty batch then x else y)
  unfolding is_empty
  if_empty [] P x y hx hy = hx refl
  if_empty (e ∷ batch) P x y hx hy = hy

  module _ (less_text : String → String → Bool) (max_files : ℕ) where
    spill-IsRefused :
        (disk : Disk) (c : List E) (d : Directory E)
        → (spill less_text max_files disk c d).0 ≡ false
        → (all_obey (disk ∷ []) ≡ false)
          ⊎ (2 ^ 64 ≤ max_sequence (spill less_text max_files disk c d).1 + 1)
    unfolding spill
    spill-IsRefused write_fails c d h = inl refl
    spill-IsRefused sync_fails c d h = inl refl
    spill-IsRefused obeys c d h = elim (Bool-cases (ltb (max_sequence d + 1) (2 ^ 64))) [
      | inr full ↦ rw full (inr (ground arith))
      | inl free ↦ absurd (true-not-false (rw free at h))
    ]

    spill_chunks-IsRefused :
        (disks : List Disk) (cs : List (List E)) (d : Directory E)
        → (spill_chunks less_text max_files disks cs d).0 ≡ false
        → IsRefused disks (length cs) (spill_chunks less_text max_files disks cs d).1
    unfolding spill_chunks
    spill_chunks-IsRefused disks [] d h = cc
    spill_chunks-IsRefused [] (c ∷ cs) d h = inr (inl (omega arith))
    spill_chunks-IsRefused (disk ∷ disks) (c ∷ cs) d h =
        let (works, d') = spill less_text max_files disk c d in
        let rest = spill_chunks less_text max_files disks cs d' in
        first works d' rest h (spill-IsRefused disk c d) (spill_chunks-IsRefused disks cs d')
      where
        first :
            (works : Bool) (d' : Directory E) (rest : Bool × Directory E)
            → (if works then rest else (false, d')).0 ≡ false
            → (works ≡ false → (all_obey (disk ∷ []) ≡ false) ⊎ (2 ^ 64 ≤ max_sequence d' + 1))
            → (rest.0 ≡ false → IsRefused disks (length cs) rest.1)
            → IsRefused (disk ∷ disks) (suc (length cs)) (if works then rest else (false, d')).1
        first true d' rest h here later = elim (later h) [
          | inl fails ↦ inl (later-fails disk disks fails)
          | inr (inl few) ↦ inr (inl (omega arith))
          | inr (inr full) ↦ inr (inr full)
        ]
        first false d' rest h here later = elim (here refl) [
          | inl fails ↦ inl (first-fails disk disks fails)
          | inr full ↦ inr (inr full)
        ]

    -- What a spill leaves in the buffer it could not write.
    pub spill_remaining-empties :
        (max_events : ℕ) (disks : List Disk) (s : Store E)
        → let s' = spill_remaining less_text max_files disks max_events s in
          (s'.batch ≡ []) ⊎ CannotSpill max_events disks s'.batch s'.spool
    unfolding spill_remaining
    spill_remaining-empties max_events disks s = go s.spool s.batch s.acknowledged
      where
        go :
            (o : Option (Directory E)) (batch acknowledged : List E)
            → let s : Store E = record { batch = batch; spool = o; acknowledged = acknowledged } in
              let s' = spill_remaining less_text max_files disks max_events s in
              (s'.batch ≡ []) ⊎ CannotSpill max_events disks s'.batch s'.spool
        go none batch acknowledged = inr _
        go (some d) batch acknowledged =
            let size = effective_event_batch_max max_events in
            let cs = chunks size batch in
            elim (Bool-cases (spill_chunks less_text max_files disks cs d).0) [
              | inl ok ↦ rw ok (inl refl)
              | inr fails ↦ rw fails (inr (spill_chunks-IsRefused disks cs d fails))
            ]

    -- A flush that is done has emptied the buffer.
    abbrev EndsEmpty : Flushed × Store E → Type 0
    EndsEmpty (result, s) = result ≡ flushed → s.batch ≡ []

    flush_once-empties :
        (disks : List Disk) (max_events : ℕ) (answers : List Answer) (s : Store E)
        → AreSupported answers
        → EndsEmpty (flush_once less_text max_files disks max_events answers s)
    unfolding flush_once
    flush_once-empties disks max_events [] s fine =
        if_empty s.batch (λ r. r ≡ flushed → s.batch ≡ []) flushed given_up (λ e h. e) (λ h. cc)
    flush_once-empties disks max_events (accepted ∷ answers) s (ok, fine) =
        let taken = min (length s.batch) (effective_event_batch_max max_events) in
        let sent : Store E = record s {
          batch = drop taken s.batch;
          acknowledged = s.acknowledged ++ take taken s.batch;
        } in
        if_empty s.batch EndsEmpty (flushed, s)
          (flush_once less_text max_files disks max_events answers sent) (λ e h. e)
          (flush_once-empties disks max_events answers sent fine)
    flush_once-empties disks max_events (unsupported ∷ answers) s (ok, fine) = absurd (cc)
    flush_once-empties disks max_events (installation_inactive ∷ answers) s fine =
        if_empty s.batch EndsEmpty (flushed, s)
          (retained, spill_remaining less_text max_files disks max_events s) (λ e h. e) (λ h. cc)
    flush_once-empties disks max_events (refused ∷ answers) s fine =
        if_empty s.batch (λ r. r ≡ flushed → s.batch ≡ []) flushed retained (λ e h. e) (λ h. cc)

module _ (less_text : String → String → Bool) (max_files : ℕ) (config : ForwardConfig)
    {S L : Type 0} where
  abbrev EndsWell : List Disk → Store (WireEvent S L) → Type 0
  EndsWell last s = (s.batch ≡ []) ⊎ CannotSpill (request_batch_max config) last s.batch s.spool

  final_flush-empties :
      (answers : List Answer) (disks last : List Disk) (s : Store (WireEvent S L))
      → AreSupported answers
      → EndsWell last (final_flush less_text max_files config answers disks last s)
  unfolding final_flush
  final_flush-empties answers disks last s fine =
      let most = request_batch_max config in
      let flushed_s = flush_once less_text max_files disks most answers s in
      if_empty s.batch (EndsWell last) s _ (λ e. inl e)
        (ended flushed_s.0 flushed_s.1
          (flush_once-empties less_text max_files disks most answers s fine))
    where
      ended :
          (result : Flushed) (s' : Store (WireEvent S L))
          → (result ≡ flushed → s'.batch ≡ [])
          → EndsWell last (elim result as (λ _. Store (WireEvent S L)) [
            | flushed ↦ s'
            | retained ↦ spill_remaining less_text max_files last (request_batch_max config) s'
            | given_up ↦ spill_remaining less_text max_files last (request_batch_max config) s'
          ])
      ended flushed s' done = inl (done refl)
      ended retained s' done =
          spill_remaining-empties less_text max_files (request_batch_max config) last s'
      ended given_up s' done =
          spill_remaining-empties less_text max_files (request_batch_max config) last s'

  -- What the end of the forwarder leaves in its buffer the last spill could not write.
  pub shut_down-empties :
      (waiting : List (String × TelemetryEvent S L)) (answers : List Answer)
      (disks last : List Disk) (w : Forwarder S L)
      → AreSupported answers
      → EndsWell last (shut_down less_text max_files config waiting answers disks last w).store
  unfolding shut_down
  shut_down-empties waiting answers disks last w fine =
      final_flush-empties answers disks last (ingest_all less_text max_files config waiting w).store
        fine
