-- ===== src/Telemetry/Arrivals.antt =====
-- crates/booth-telemetry/src/lib.rs: where the records of published events are, however publishers overtake
-- each other.
use telephone_booth.Base.{
  ℕ, ◌+◌, ◌-◌, ◌^◌, ◌≤◌, ◌<◌, Bool, Option, none, some, List, [], ◌∷◌, ◌++◌, length, length-append,
  ◌≡◌, ◌⊎◌, inl, inr, refl, sym, ap, subst, ◌∙◌, arith,
}
use telephone_booth.Base.Members.{In, In-left, In-right, In-append}
use telephone_booth.Telemetry.Bus.{
  TelemetryRecord, new, take_id, retain_record, push_record, succ_u64, push,
}
use telephone_booth.Telemetry.Numbered.{numbered, drop-all}
use telephone_booth.Telemetry.Replay.{last_of, ring_of, push-last_of}
use telephone_booth.Telemetry.Publishers.{
  BusStep, takes, retains, pushes, Publishers, take_at, start_bus, bus_step, run_bus,
}
use telephone_booth.Telemetry.Taken.{IsTaken, take_at-IsTaken, moved, moved_back}

module _ {E : Type 0} where
  numbered-append :
      (i : ℕ) (es : List (ℕ × E)) (now : ℕ) (event : E)
      → numbered i (es ++ (now, event) ∷ [])
        ≡ numbered i es ++ record { id = i + length es + 1; ts = now; event = event } ∷ []
  numbered-append i [] now event =
      ap (λ n. record { id = n; ts = now; event = event } ∷ []) (omega arith)
  numbered-append i (e ∷ es) now event =
      ap (λ l. record { id = i + 1; ts = e.0; event = e.1 } ∷ l)
        (numbered-append (i + 1) es now event
          ∙ ap (λ n. numbered (i + 1) es ++ record { id = n; ts = now; event = event } ∷ [])
              (omega arith))

  -- Where the record of a published event is.
  abbrev pub IsUnderWay : TelemetryRecord E → Publishers E → Type 0
  IsUnderWay r w = In r w.before_led ⊎ In r w.before_ring

  pub record IsKept (capacity : ℕ) (w : Publishers E) : Type 0 where
    pub ring : w.bus.ring ≡ ring_of capacity (last_of capacity w.arrived)
    pub next_id : w.bus.next_id ≡ length w.events
    pub there :
        (r : TelemetryRecord E) → In r (numbered 0 w.events) → IsUnderWay r w ⊎ In r w.arrived
    pub known :
        (r : TelemetryRecord E) → IsUnderWay r w ⊎ In r w.arrived → In r (numbered 0 w.events)
    pub count : length w.before_led + (length w.before_ring + length w.arrived) ≡ length w.events

  module _ (is_status_led : E → Bool) (capacity : ℕ) where
    bus_step-IsKept :
        (s : BusStep E) (w : Publishers E)
        → length w.events + 1 < 2 ^ 64
        → IsKept capacity w
        → IsKept capacity (bus_step is_status_led s w)
    unfolding bus_step take_id retain_record push_record
    bus_step-IsKept (takes now event) w few h =
        let r0 : TelemetryRecord E = record {
          id = succ_u64 w.bus.next_id;
          ts = now;
          event = event;
        } in
        let same : numbered 0 (w.events ++ (now, event) ∷ []) ≡ numbered 0 w.events ++ r0 ∷ [] =
          numbered-append 0 w.events now event
          ∙ ap (λ n. numbered 0 w.events ++ record { id = n; ts = now; event = event } ∷ [])
              (omega (arith, h.next_id)) in
        record {
          ring = h.ring;
          next_id = omega (arith, h.next_id, length-append w.events ((now, event) ∷ []));
          there = λ r i. elim (In-append r (numbered 0 w.events) (r0 ∷ []) (subst (In r) same i)) [
            | inl old ↦ elim (h.there r old) [
              | inl (inl waits) ↦ inl (inl (In-left r w.before_led (r0 ∷ []) waits))
              | inl (inr waits) ↦ inl (inr waits)
              | inr known ↦ inr known
            ]
            | inr fresh ↦ inl (inl (In-right r w.before_led (r0 ∷ []) fresh))
          ];
          known = λ r i.
              let old = λ (k : IsUnderWay r w ⊎ In r w.arrived).
                subst (In r) (sym same) (In-left r (numbered 0 w.events) (r0 ∷ []) (h.known r k)) in
              elim i [
                | inl (inl waits) ↦ elim (In-append r w.before_led (r0 ∷ []) waits) [
                  | inl before ↦ old (inl (inl before))
                  | inr fresh ↦
                      subst (In r) (sym same) (In-right r (numbered 0 w.events) (r0 ∷ []) fresh)
                ]
                | inl (inr waits) ↦ old (inl (inr waits))
                | inr known ↦ old (inr known)
              ];
          count = omega (
            arith,
            h.count,
            length-append w.events ((now, event) ∷ []),
            length-append w.before_led (r0 ∷ []),
          );
        }
    bus_step-IsKept (retains n) w few h =
        go (take_at n w.before_led) (take_at-IsTaken n w.before_led)
      where
        go :
            (o : Option (TelemetryRecord E × List (TelemetryRecord E)))
            → IsTaken w.before_led o
            → IsKept capacity (elim o as (λ _. Publishers E) [
              | none ↦ w
              | some (r, rest) ↦ record w {
                bus = retain_record is_status_led r w.bus;
                before_led = rest;
                before_ring = w.before_ring ++ r ∷ [];
              }
            ])
        go none t = h
        go (some (x, rest)) t = record {
          ring = h.ring;
          next_id = h.next_id;
          there = λ r i. elim (h.there r i) [
            | inl waits ↦ inl (moved w.before_led w.before_ring rest x r t waits)
            | inr known ↦ inr known
          ];
          known = λ r i. h.known r (elim i [
            | inl waits ↦ inl (moved_back w.before_led w.before_ring rest x r t waits)
            | inr known ↦ inr known
          ]);
          count = omega (arith, h.count, t.count, length-append w.before_ring (x ∷ []));
        }
    bus_step-IsKept (pushes n) w few h =
        go (take_at n w.before_ring) (take_at-IsTaken n w.before_ring)
      where
        go :
            (o : Option (TelemetryRecord E × List (TelemetryRecord E)))
            → IsTaken w.before_ring o
            → IsKept capacity (elim o as (λ _. Publishers E) [
              | none ↦ w
              | some (r, rest) ↦ record w {
                bus = push_record r w.bus;
                before_ring = rest;
                arrived = w.arrived ++ r ∷ [];
              }
            ])
        go none t = h
        go (some (x, rest)) t = record {
          ring = ap (push x) h.ring ∙ push-last_of capacity x w.arrived;
          next_id = h.next_id;
          there = λ r i. assoc (elim (h.there r i) [
            | inl (inl waits) ↦ inl waits
            | inl (inr waits) ↦ inr (moved w.before_ring w.arrived rest x r t (inl waits))
            | inr known ↦ inr (moved w.before_ring w.arrived rest x r t (inr known))
          ]);
          known = λ r i. h.known r (elim i [
            | inl (inl waits) ↦ inl (inl waits)
            | inl (inr waits) ↦ one r (moved_back w.before_ring w.arrived rest x r t (inl waits))
            | inr known ↦ one r (moved_back w.before_ring w.arrived rest x r t (inr known))
          ]);
          count = omega (arith, h.count, t.count, length-append w.arrived (x ∷ []));
        }
          where
            assoc : {A B C : Type 0} → A ⊎ (B ⊎ C) → (A ⊎ B) ⊎ C
            assoc (inl a) = inl (inl a)
            assoc (inr (inl b)) = inl (inr b)
            assoc (inr (inr c)) = inr c

            one :
                (r : TelemetryRecord E)
                → In r w.before_ring ⊎ In r w.arrived
                → IsUnderWay r w ⊎ In r w.arrived
            one r (inl waits) = inl (inr waits)
            one r (inr known) = inr known

    bus_step-events :
        (s : BusStep E) (w : Publishers E)
        → length (bus_step is_status_led s w).events ≤ length w.events + 1
    unfolding bus_step
    bus_step-events (takes now event) w = omega (arith, length-append w.events ((now, event) ∷ []))
    bus_step-events (retains n) w = go (take_at n w.before_led)
      where
        go :
            (o : Option (TelemetryRecord E × List (TelemetryRecord E)))
            → length
                (elim o as (λ _. Publishers E) [
                  | none ↦ w
                  | some (r, rest) ↦ record w {
                    bus = retain_record is_status_led r w.bus;
                    before_led = rest;
                    before_ring = w.before_ring ++ r ∷ [];
                  }
                ]).events
              ≤ length w.events + 1
        go none = omega arith
        go (some (r, rest)) = omega arith
    bus_step-events (pushes n) w = go (take_at n w.before_ring)
      where
        go :
            (o : Option (TelemetryRecord E × List (TelemetryRecord E)))
            → length
                (elim o as (λ _. Publishers E) [
                  | none ↦ w
                  | some (r, rest) ↦ record w {
                    bus = push_record r w.bus;
                    before_ring = rest;
                    arrived = w.arrived ++ r ∷ [];
                  }
                ]).events
              ≤ length w.events + 1
        go none = omega arith
        go (some (r, rest)) = omega arith

    pub run_bus-IsKept :
        (steps : List (BusStep E)) (w : Publishers E)
        → length w.events + length steps < 2 ^ 64
        → IsKept capacity w
        → IsKept capacity (run_bus is_status_led steps w)
    unfolding run_bus
    run_bus-IsKept [] w few h = h
    run_bus-IsKept (s ∷ steps) w few h =
        run_bus-IsKept steps (bus_step is_status_led s w) (omega (arith, few, bus_step-events s w))
          (bus_step-IsKept s w (omega arith) h)

    pub start_bus-IsKept : IsKept capacity (start_bus {E = E} capacity)
    unfolding new
    start_bus-IsKept = record {
      ring = ap (ring_of capacity) (sym (drop-all (0 - capacity) [] (omega arith)));
      next_id = refl;
      there = λ r i. elim i [ ];
      known = λ r i. elim i [ inl (inl j) ↦ j | inl (inr j) ↦ j | inr j ↦ j ];
      count = refl;
    }
