-- ===== src/Telemetry/Replay.antt =====
-- crates/booth-telemetry/src/lib.rs: what a client that reconnects is replayed.
use Prim.Native.Nat.{max}
use telephone_booth.Base.{
  ℕ, zero, suc, ◌+◌, ◌-◌, ◌^◌, ◌<◌, Bool, false, Option, List, [], ◌∷◌, ◌++◌, ◌≡◌, refl, ap, sym,
  ◌∙◌, inl, inr, arith, ◌==◌, leb, length, drop, retain, length-append, Bool-cases,
}
use telephone_booth.Base.Slices.{length-drop}
use telephone_booth.Telemetry.Bus.{
  TelemetryRecord, RingBuffer, TelemetryBus, succ_u64, evict, push, is_newer, snapshot_since, new,
  publish, publish_all,
}
use telephone_booth.Telemetry.Numbered.{
  drop-same, drop-append, drop-all, drop-drop, seen, numbered, length-numbered, numbered-same,
  drop-numbered, retain-seen,
}

module _ {E : Type 0} where
  evict-drop :
      (c : ℕ) (rs : List (TelemetryRecord E)) → 0 < c → evict c rs ≡ drop (suc (length rs) - c) rs
  unfolding evict
  evict-drop c [] h = sym (drop-all (1 - c) [] (omega arith))
  evict-drop c (r ∷ rs) h = elim (Bool-cases (leb c (suc (length rs)))) [
    | inl e ↦ rw e (
        evict-drop c rs h
        ∙ drop-same (suc (suc (length rs) - c)) (suc (suc (length rs)) - c) (r ∷ rs) (ground arith))
    | inr e ↦ rw e (drop-same 0 (suc (suc (length rs)) - c) (r ∷ rs) (ground arith))
  ]

  -- The last `c` of all the records.
  abbrev pub last_of : ℕ → List (TelemetryRecord E) → List (TelemetryRecord E)
  last_of c rs = drop (length rs - c) rs

  abbrev pub ring_of : ℕ → List (TelemetryRecord E) → RingBuffer E
  ring_of c rs = record { capacity = c; records = rs }

  last_of-add :
      (c : ℕ) (r : TelemetryRecord E) (all : List (TelemetryRecord E))
      → evict (suc c) (last_of (suc c) all) ++ r ∷ [] ≡ last_of (suc c) (all ++ r ∷ [])
  last_of-add c r all =
      let k = length all - suc c in
      let m = suc (length (last_of (suc c) all)) - suc c in
      ap (λ l. l ++ r ∷ [])
        (evict-drop (suc c) (last_of (suc c) all) (omega arith) ∙ drop-drop m k all)
      ∙ sym (drop-append (k + m) all (r ∷ []) (omega (arith, length-drop k all)))
      ∙ drop-same (k + m) (length (all ++ r ∷ []) - suc c) (all ++ r ∷ [])
          (omega (arith, length-drop k all, length-append all (r ∷ [])))

  pub push-last_of :
      (c : ℕ) (r : TelemetryRecord E) (all : List (TelemetryRecord E))
      → push r (ring_of c (last_of c all)) ≡ ring_of c (last_of c (all ++ r ∷ []))
  unfolding push
  push-last_of zero r all = ap (ring_of 0) (
      drop-all (length all - 0) all (omega arith)
      ∙ sym (drop-all (length (all ++ r ∷ []) - 0) (all ++ r ∷ []) (omega arith)))
  push-last_of (suc c) r all = rw (nonzero c) (ap (ring_of (suc c)) (last_of-add c r all))
    where
      nonzero : (n : ℕ) → (suc n == 0) ≡ false
      nonzero n = ground arith

  append_assoc : (xs ys zs : List (TelemetryRecord E)) → (xs ++ ys) ++ zs ≡ xs ++ (ys ++ zs)
  append_assoc [] ys zs = refl
  append_assoc (x ∷ xs) ys zs = ap (λ l. x ∷ l) (append_assoc xs ys zs)

  append-nil : (xs : List (TelemetryRecord E)) → xs ++ [] ≡ xs
  append-nil [] = refl
  append-nil (x ∷ xs) = ap (λ l. x ∷ l) (append-nil xs)

  module _ (is_status_led : E → Bool) where
    publish_all-ring :
        (es : List (ℕ × E)) (bus : TelemetryBus E) (c : ℕ) (all : List (TelemetryRecord E))
        → bus.ring ≡ ring_of c (last_of c all)
        → bus.next_id + length es < 2 ^ 64
        → (publish_all is_status_led es bus).ring
          ≡ ring_of c (last_of c (all ++ numbered bus.next_id es))
    unfolding publish_all publish
    publish_all-ring [] bus c all e h = e ∙ ap (λ l. ring_of c (last_of c l)) (sym (append-nil all))
    publish_all-ring ((now, event) ∷ es) bus c all e h =
        let r : TelemetryRecord E = record { id = succ_u64 bus.next_id; ts = now; event = event } in
        let next : succ_u64 bus.next_id ≡ bus.next_id + 1 = omega arith in
        publish_all-ring es (publish is_status_led now event bus) c (all ++ r ∷ [])
          (ap (push r) e ∙ push-last_of c r all) (omega arith)
        ∙ ap (λ l. ring_of c (last_of c l))
            (append_assoc all (r ∷ []) (numbered (succ_u64 bus.next_id) es)
              ∙ ap (λ i. all ++ record { id = i; ts = now; event = event } ∷ numbered i es) next)

    -- After fewer than 2 ^ 64 events on a new bus, published one after the other, a client that gives the last id it has seen, or
    -- none, is replayed, in order and with their ids, all events after that one, except those that
    -- more than the capacity's number of later events have pushed out.
    publish_all-replays :
        (capacity : ℕ) (es : List (ℕ × E)) (since : Option ℕ)
        → length es < 2 ^ 64
        → let start = max (seen since) (length es - capacity) in
          snapshot_since since (publish_all is_status_led es (new capacity)).ring
          ≡ numbered start (drop start es)
    unfolding snapshot_since new
    publish_all-replays c es since h =
        let j = length es - c in
        ap (snapshot_since since) (
          publish_all-ring es (new c) c []
            (ap (ring_of c) (sym (drop-all (0 - c) [] (omega arith)))) (omega arith))
        ∙ ap (retain (is_newer since)) (
            drop-same (length (numbered 0 es) - c) j (numbered 0 es)
              (omega (arith, length-numbered 0 es))
            ∙ drop-numbered j 0 es
            ∙ numbered-same (0 + j) j (drop j es) (drop j es) (omega arith) refl)
        ∙ retain-seen since j (drop j es)
        ∙ numbered-same (max (seen since) j) (max (seen since) j)
            (drop (seen since - j) (drop j es)) (drop (max (seen since) j) es) refl
            (drop-drop (seen since - j) j es
              ∙ drop-same (j + (seen since - j)) (max (seen since) j) es (omega arith))
