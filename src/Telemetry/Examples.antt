-- ===== src/Telemetry/Examples.antt =====
-- crates/booth-telemetry/src/lib.rs: three events on a ring of two, and two records that overtake.
use telephone_booth.Base.{ℕ, ◌≡◌, refl, Bool, true, false, none, some, List, [], ◌∷◌, arith}
use telephone_booth.Telemetry.Bus.{
  TelemetryRecord, snapshot_since, new, publish, publish_all, push, evict, retain_status_led,
  hold_newest,
}
use telephone_booth.Telemetry.Publishers.{
  BusStep, takes, retains, pushes, start_bus, bus_step, run_bus,
}
use telephone_booth.Telemetry.Overtaken.{IsReplay, snapshot_since-replays}
use telephone_booth.Telemetry.LatestLed.{arrive, IsNewestLed, arrive-IsNewestLed}

-- An event is a Boolean: is it an LED's?
abbrev is_led : Bool → Bool
is_led b = b

abbrev events : List (ℕ × Bool)
events = (100, false) ∷ (101, true) ∷ (102, false) ∷ []

replays_two :
    snapshot_since none (publish_all is_led events (new 2)).ring
    ≡ record { id = 2; ts = 101; event = true } ∷ record { id = 3; ts = 102; event = false } ∷ []
unfolding snapshot_since publish_all publish new push evict
replays_two = refl

-- The second publisher reaches the ring first; the third has only its id.
abbrev steps : List (BusStep Bool)
steps =
    takes 100 false
    ∷ takes 101 true
    ∷ retains 1
    ∷ retains 0
    ∷ pushes 0
    ∷ takes 102 false
    ∷ pushes 0
    ∷ []

replays_overtaken :
    snapshot_since none (run_bus is_led steps (start_bus 2)).bus.ring
    ≡ record { id = 2; ts = 101; event = true } ∷ record { id = 1; ts = 100; event = false } ∷ []
unfolding snapshot_since run_bus bus_step new push evict
replays_overtaken = refl

snapshot_since-replays_example :
    let w = run_bus is_led steps (start_bus 2) in
    IsReplay 2 (some 1) w (snapshot_since (some 1) w.bus.ring)
snapshot_since-replays_example = snapshot_since-replays is_led 2 steps (some 1) (omega arith)

abbrev overtaken : List (TelemetryRecord Bool)
overtaken = record { id = 1; ts = 5; event = true } ∷ record { id = 2; ts = 5; event = true } ∷ []

keeps_newer : arrive is_led overtaken ≡ some (record { id = 2; ts = 5; event = true })
unfolding arrive retain_status_led hold_newest
keeps_newer = refl

arrive-IsNewestLed_example : IsNewestLed is_led overtaken (arrive is_led overtaken)
arrive-IsNewestLed_example = arrive-IsNewestLed is_led overtaken
