-- ===== src/Telemetry/Publishers.antt =====
-- crates/booth-telemetry/src/lib.rs: `publish` by several threads at once. An id is taken by an atomic
-- operation, and then one lock after the other, so publishers may overtake each other between these steps.
use telephone_booth.Base.{ℕ, zero, suc, Bool, Option, none, some, List, [], ◌∷◌, ◌++◌}
use telephone_booth.Telemetry.Bus.{
  TelemetryRecord, TelemetryBus, new, take_id, retain_record, push_record,
}

pub data BusStep (E : Type 0) : Type 0 where
  -- a publisher takes its id
  takes : ℕ → E → BusStep E
  -- one of those that have an id is through the lock of the retained record
  retains : ℕ → BusStep E
  -- one of those is through the ring's lock
  pushes : ℕ → BusStep E

pub record Publishers (E : Type 0) : Type 0 where
  pub bus : TelemetryBus E
  -- the records of the publishers before the first lock, and before the second
  pub before_led : List (TelemetryRecord E)
  pub before_ring : List (TelemetryRecord E)
  -- what was published, in the order of the ids, with the times
  pub events : List (ℕ × E)
  -- the records in the order in which they reached the ring
  pub arrived : List (TelemetryRecord E)

-- One of the publishers goes on.
unfoldable pub take_at {ℓ} : {A : Type ℓ} → ℕ → List A → Option (A × List A)
take_at n [] = none
take_at zero (x ∷ xs) = some (x, xs)
take_at (suc n) (x ∷ xs) = elim (take_at n xs) [ none ↦ none | some (y, rest) ↦ some (y, x ∷ rest) ]

module _ {E : Type 0} where
  abbrev pub start_bus : ℕ → Publishers E
  start_bus capacity = record {
    bus = new capacity;
    before_led = [];
    before_ring = [];
    events = [];
    arrived = [];
  }

  module _ (is_status_led : E → Bool) where
    unfoldable pub bus_step : BusStep E → Publishers E → Publishers E
    unfolding take_id retain_record push_record take_at
    bus_step (takes now event) w =
        let (r, bus) = take_id now event w.bus in
        record w {
          bus = bus;
          before_led = w.before_led ++ r ∷ [];
          events = w.events ++ (now, event) ∷ [];
        }
    bus_step (retains n) w = elim (take_at n w.before_led) [
      | none ↦ w
      | some (r, rest) ↦ record w {
        bus = retain_record is_status_led r w.bus;
        before_led = rest;
        before_ring = w.before_ring ++ r ∷ [];
      }
    ]
    bus_step (pushes n) w = elim (take_at n w.before_ring) [
      | none ↦ w
      | some (r, rest) ↦ record w {
        bus = push_record r w.bus;
        before_ring = rest;
        arrived = w.arrived ++ r ∷ [];
      }
    ]

    unfoldable pub run_bus : List (BusStep E) → Publishers E → Publishers E
    run_bus [] w = w
    run_bus (s ∷ steps) w = run_bus steps (bus_step s w)
