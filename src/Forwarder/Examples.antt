-- ===== src/Forwarder/Examples.antt =====
-- crates/booth-bin/src/observability.rs: a digit is received while the operator is away.
use telephone_booth.Base.{
  ℕ, Bool, true, false, String, none, some, List, [], ◌∷◌, ◌⊎◌, refl, inl, arith,
}
use telephone_booth.EventSpool.Files.{obeys}
use telephone_booth.Sessions.Events.{TelemetryEvent}
use telephone_booth.Sessions.Tracker.{observe, current_session_id}
use telephone_booth.Forwarder.Wire.{WireEvent, wire_for}
use telephone_booth.Forwarder.Store.{refused}
use telephone_booth.Forwarder.Task.{
  request_batch_max, ForwardConfig, Forwarder, ForwarderInput, received, run_forwarder, shut_down,
}
use telephone_booth.Forwarder.Held.{IsStored, In}
use telephone_booth.Forwarder.Ingested.{IsClean, wires}
use telephone_booth.Forwarder.Emptied.{CannotSpill}
use telephone_booth.Forwarder.Lossless.{run_forwarder-holds}

abbrev config : ForwardConfig
config = record { batch_max = 1; buffer_max = 2 }

abbrev less : String → String → Bool
less a b = false

abbrev digit : TelemetryEvent ℕ ℕ
digit = TelemetryEvent.digit_dialed 7 7 1

abbrev first : Forwarder ℕ ℕ
first = record {
  tracker = none;
  session = none;
  next_seq = 0;
  dropped = 0;
  warned = [];
  was_failing = false;
  published = [];
  store = record { batch = []; spool = some []; acknowledged = [] };
  running = true;
}

abbrev inputs : List (ForwarderInput ℕ ℕ)
inputs = received "a" digit (refused ∷ []) [] (obeys ∷ []) ∷ []

abbrev sent : WireEvent ℕ ℕ
sent = record {
  seq = 0;
  kind = "digit_dialed";
  session_id = none;
  recording_id = none;
  payload = digit;
}

abbrev last : Forwarder ℕ ℕ
last = shut_down less 50 config [] [] [] (obeys ∷ []) (run_forwarder less 50 config inputs first)

clean : IsClean last
unfolding run_forwarder shut_down
clean = (refl, refl)

sent-In : In sent (wires "a" digit first)
unfolding wire_for observe current_session_id
sent-In = inl refl

run_forwarder-holds_example :
    IsStored sent last.store
    ⊎ (In sent last.store.batch
        × CannotSpill (request_batch_max config) (obeys ∷ []) last.store.batch last.store.spool)
run_forwarder-holds_example =
    run_forwarder-holds less 50 config "a" digit (refused ∷ []) [] (obeys ∷ []) [] [] [] []
      (obeys ∷ []) first refl ((refl, _), _) _ (record { distinct = _; within = _ }, omega arith)
      clean sent sent-In
