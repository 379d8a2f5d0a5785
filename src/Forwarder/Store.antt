-- ===== src/Forwarder/Store.antt =====
-- crates/booth-bin/src/observability.rs: the buffer of the forwarder, its flush and its spill. What the
-- operator answers to one request after another, and the disk to one file after another, is input;
-- where the operator's answers end, the caller gives up.
use telephone_booth.Base.{
  ℕ, ◌+◌, ◌-◌, ◌/◌, ◌^◌, Bool, true, false, String, Option, none, some, List, [], ◌∷◌, ◌++◌, length,
  take, drop, ltb, leb, if◌then◌else◌,
}
use Prim.Native.Nat.{min, max}
use telephone_booth.EventSpool.Files.{Directory, Disk, spill}
use telephone_booth.EventSpool.Split.{chunks_from, chunks}

abbrev pub operator_event_batch_max : ℕ
operator_event_batch_max = 500

abbrev pub effective_event_batch_max : ℕ → ℕ
effective_event_batch_max configured = min (max configured 1) operator_event_batch_max

-- What an answer to a request is to the forwarder.
pub data Answer : Type 0 where
  accepted unsupported installation_inactive refused : Answer

pub data Flushed : Type 0 where
  flushed retained given_up : Flushed

pub record Store (E : Type 0) : Type 0 where
  pub batch : List E
  -- `event_spool`
  pub spool : Option (Directory E)
  -- what the operator has accepted
  pub acknowledged : List E

module _ {A : Type 0} where
  unfoldable pub is_empty : List A → Bool
  is_empty [] = true
  is_empty (x ∷ xs) = false

  -- The items and how many were dropped, of 64 bits.
  unfoldable pub push_with_cap : List A → A → ℕ → ℕ → List A × ℕ
  push_with_cap batch item cap dropped =
      if leb cap (length batch)
      then (
        drop 1 batch ++ item ∷ [],
        if ltb (dropped + 1) (2 ^ 64) then dropped + 1 else 2 ^ 64 - 1,
      )
      else (batch ++ item ∷ [], dropped)

module _ (less_text : String → String → Bool) (max_files : ℕ) {E : Type 0} where
  -- The first chunk that fails ends it. A disk that answers no more fails.
  unfoldable pub spill_chunks : List Disk → List (List E) → Directory E → Bool × Directory E
  unfolding spill
  spill_chunks disks [] d = (true, d)
  spill_chunks [] (c ∷ cs) d = (false, d)
  spill_chunks (disk ∷ disks) (c ∷ cs) d =
      let (works, d') = spill less_text max_files disk c d in
      let (all, d'') = spill_chunks disks cs d' in if works then (all, d'') else (false, d')

  -- An empty batch has no chunks.
  unfoldable pub spill_remaining : List Disk → ℕ → Store E → Store E
  unfolding spill_chunks chunks_from
  spill_remaining disks max_events s = elim s.spool [
    | none ↦ s
    | some d ↦
        let (works, d') =
          spill_chunks disks (chunks (effective_event_batch_max max_events) s.batch) d in
        if works then record s { batch = []; spool = some d' } else record s { spool = some d' }
  ]

  -- `buffer_max` and `batch_max` are of the configuration.
  unfoldable pub maybe_spill : List Disk → ℕ → ℕ → Store E → Store E
  unfolding spill_remaining
  maybe_spill disks buffer_max batch_max s =
      if ltb (length s.batch) (buffer_max / 2) then s else spill_remaining disks batch_max s

  -- One request after another.
  unfoldable pub flush_once : List Disk → ℕ → List Answer → Store E → Flushed × Store E
  unfolding spill_remaining is_empty
  flush_once disks max_events [] s = (if is_empty s.batch then flushed else given_up, s)
  flush_once disks max_events (accepted ∷ answers) s =
      let taken = min (length s.batch) (effective_event_batch_max max_events) in
      let rest = flush_once disks max_events answers (record s {
        batch = drop taken s.batch;
        acknowledged = s.acknowledged ++ take taken s.batch;
      }) in
      if is_empty s.batch then (flushed, s) else rest
  flush_once disks max_events (unsupported ∷ answers) s = (flushed, record s { batch = [] })
  flush_once disks max_events (installation_inactive ∷ answers) s =
      if is_empty s.batch then (flushed, s) else (retained, spill_remaining disks max_events s)
  flush_once disks max_events (refused ∷ answers) s =
      (if is_empty s.batch then flushed else retained, s)

  -- `was_failing` and the store.
  unfoldable pub after_flush : List Disk → ℕ → ℕ → Bool → Bool → Store E → Bool × Store E
  unfolding maybe_spill
  after_flush disks buffer_max batch_max true was_failing s = (false, s)
  after_flush disks buffer_max batch_max false was_failing s =
      (true, maybe_spill disks buffer_max batch_max s)
