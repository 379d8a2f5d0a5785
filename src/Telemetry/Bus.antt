-- ===== src/Telemetry/Bus.antt =====
-- crates/booth-telemetry/src/lib.rs. The payload of an event only matters in that it may be a status
-- LED's, so the type of events and that test are parameters. The broadcast channel belongs to the
-- crate tokio, and what it does with a record changes nothing here.
use telephone_booth.Base.{
  ℕ, ◌+◌, ◌%◌, ◌^◌, Bool, true, Option, none, some, List, [], ◌∷◌, ◌++◌, ◌==◌, ltb, leb,
  if◌then◌else◌, length, retain,
}

-- The time is the wall clock's, a number.
pub record TelemetryRecord (E : Type 0) : Type 0 where
  pub id : ℕ
  pub ts : ℕ
  pub event : E

pub record RingBuffer (E : Type 0) : Type 0 where
  pub capacity : ℕ
  pub records : List (TelemetryRecord E)

pub record TelemetryBus (E : Type 0) : Type 0 where
  pub ring : RingBuffer E
  pub next_id : ℕ
  pub latest_status_led : Option (TelemetryRecord E)

-- The ids are `u64`s.
abbrev pub succ_u64 : ℕ → ℕ
succ_u64 n = (n + 1) % 2 ^ 64

module _ {E : Type 0} where
  -- The loop that pops the front while there are too many.
  unfoldable pub evict : ℕ → List (TelemetryRecord E) → List (TelemetryRecord E)
  evict capacity [] = []
  evict capacity (r ∷ rs) =
      let rest = evict capacity rs in if leb capacity (length (r ∷ rs)) then rest else r ∷ rs

  unfoldable pub push : TelemetryRecord E → RingBuffer E → RingBuffer E
  unfolding evict
  push r ring =
      if ring.capacity == 0
      then ring
      else record ring { records = evict ring.capacity ring.records ++ r ∷ [] }

  -- `since_id.is_none_or(|id| record.id > id)`.
  abbrev pub is_newer : Option ℕ → TelemetryRecord E → Bool
  is_newer none r = true
  is_newer (some since) r = ltb since r.id

  unfoldable pub snapshot_since : Option ℕ → RingBuffer E → List (TelemetryRecord E)
  snapshot_since since_id ring = retain (is_newer since_id) ring.records

  -- `latest.as_ref().is_none_or(|held| record.id > held.id)`.
  unfoldable pub hold_newest :
      TelemetryRecord E → Option (TelemetryRecord E) → Option (TelemetryRecord E)
  hold_newest r none = some r
  hold_newest r (some held) = if ltb held.id r.id then some r else some held

  unfoldable pub new : ℕ → TelemetryBus E
  new capacity = record {
    ring = record { capacity = capacity; records = [] };
    next_id = 0;
    latest_status_led = none;
  }

  -- The publisher's steps. The record with the next id:
  unfoldable pub take_id : ℕ → E → TelemetryBus E → TelemetryRecord E × TelemetryBus E
  take_id now event bus =
      let id = succ_u64 bus.next_id in
      (record { id = id; ts = now; event = event }, record bus { next_id = id })

  -- The section under the ring's lock:
  unfoldable pub push_record : TelemetryRecord E → TelemetryBus E → TelemetryBus E
  unfolding push
  push_record r bus = record bus { ring = push r bus.ring }

  module _ (is_status_led : E → Bool) where
    -- The section under the lock of the retained LED record.
    unfoldable pub retain_status_led :
        TelemetryRecord E → Option (TelemetryRecord E) → Option (TelemetryRecord E)
    unfolding hold_newest
    retain_status_led r latest = if is_status_led r.event then hold_newest r latest else latest

    -- The section under the lock of the retained record:
    unfoldable pub retain_record : TelemetryRecord E → TelemetryBus E → TelemetryBus E
    unfolding retain_status_led
    retain_record r bus = record bus {
      latest_status_led = retain_status_led r bus.latest_status_led;
    }

    -- A publisher that nobody overtakes. Telemetry.Publishers has them all at once.
    unfoldable pub publish : ℕ → E → TelemetryBus E → TelemetryBus E
    unfolding take_id retain_record push_record
    publish now event bus =
        let (r, bus') = take_id now event bus in push_record r (retain_record r bus')

    -- Events published one after the other, with the time of each.
    unfoldable pub publish_all : List (ℕ × E) → TelemetryBus E → TelemetryBus E
    publish_all [] bus = bus
    publish_all ((now, event) ∷ es) bus = publish_all es (publish now event bus)
