-- ===== src/Telemetry/Overtaken.antt =====
-- crates/booth-telemetry/src/lib.rs: what a client is replayed, however publishers overtake each other.
use telephone_booth.Base.{
  ℕ, ◌+◌, ◌-◌, ◌^◌, ◌<◌, Bool, true, Option, none, some, List, length, take, drop, retain, ◌≡◌, ◌↔◌,
  ◌⊎◌, inl, inr, refl, sym, ap, subst, arith,
}
use telephone_booth.Base.Members.{In, In-split, In-drop, In-retain, retain-In}
use telephone_booth.Telemetry.Bus.{TelemetryRecord, is_newer, snapshot_since}
use telephone_booth.Telemetry.Numbered.{numbered}
use telephone_booth.Telemetry.Publishers.{BusStep, Publishers, start_bus, run_bus}
use telephone_booth.Telemetry.Arrivals.{IsUnderWay, run_bus-IsKept, start_bus-IsKept}

module _ {E : Type 0} where
  -- New to a client that gave this id, or none.
  abbrev pub IsNewer : Option ℕ → TelemetryRecord E → Type 0
  IsNewer none r = Unit
  IsNewer (some last) r = last < r.id

  is_newer_iff :
      (since : Option ℕ) (r : TelemetryRecord E) → (is_newer since r ≡ true) ↔ IsNewer since r
  is_newer_iff none r = (λ h. _, λ h. refl)
  is_newer_iff (some last) r = (λ h. ground (arith, h), λ h. ground (arith, h))

  -- What a client that has seen the records up to an id gets.
  pub record IsReplay (capacity : ℕ) (since : Option ℕ) (w : Publishers E)
      (replay : List (TelemetryRecord E)) : Type 0 where
    -- It is part of the last records that reached the ring, in their order.
    pub order : replay ≡ retain (is_newer since) (drop (length w.arrived - capacity) w.arrived)
    -- A record of it is a published event's, and new to the client.
    pub sound : (r : TelemetryRecord E) → In r replay → In r (numbered 0 w.events) × IsNewer since r
    -- A published event that is new to the client is in it, or still under way, or pushed out by the ring's
    -- capacity of records that reached it later.
    pub complete :
        (r : TelemetryRecord E)
        → In r (numbered 0 w.events)
        → IsNewer since r
        → In r replay ⊎ IsUnderWay r w ⊎ In r (take (length w.arrived - capacity) w.arrived)
    -- No event reaches the ring twice.
    pub once : length w.before_led + (length w.before_ring + length w.arrived) ≡ length w.events

  -- However publishers overtake each other, in fewer than 2 ^ 64 steps from a new bus, and whatever id a client gives or none:
  -- it is replayed a part of the last records that reached the ring, as many as its capacity, in the order in which they reached
  -- it, and only records of published events with a higher id than the client's. Every such event is replayed,
  -- but those whose publisher is still on its way to the ring and those after which as many as the
  -- capacity reached the ring. With those under way, as many records reached the ring as events were published.
  pub snapshot_since-replays :
      (is_status_led : E → Bool) (capacity : ℕ) (steps : List (BusStep E)) (since : Option ℕ)
      → length steps < 2 ^ 64
      → let w = run_bus is_status_led steps (start_bus capacity) in
        IsReplay capacity since w (snapshot_since since w.bus.ring)
  unfolding snapshot_since
  snapshot_since-replays is_status_led capacity steps since few =
      let w = run_bus is_status_led steps (start_bus capacity) in
      let n = length w.arrived - capacity in
      let kept =
        run_bus-IsKept is_status_led capacity steps (start_bus capacity) (omega arith)
          (start_bus-IsKept is_status_led capacity) in
      let order : snapshot_since since w.bus.ring ≡ retain (is_newer since) (drop n w.arrived) =
        ap (snapshot_since since) kept.ring in
      record {
        order = order;
        sound = λ r i.
            let (there, newer) =
              retain-In r (is_newer since) (drop n w.arrived) (subst (In r) order i) in
            (kept.known r (inr (In-drop r n w.arrived there)), (is_newer_iff since r).0 newer);
        complete = λ r i newer. elim (kept.there r i) [
          | inl waits ↦ inr (inl waits)
          | inr known ↦ elim (In-split r n w.arrived known) [
            | inl pushed_out ↦ inr (inr pushed_out)
            | inr there ↦ inl (
                subst (In r) (sym order) (
                  In-retain r (is_newer since) (drop n w.arrived) there
                    ((is_newer_iff since r).1 newer)))
          ]
        ];
        once = kept.count;
      }
