-- ===== src/Installation/Examples.antt =====
-- crates/booth-bin/src/installation.rs: a conflict between a probe and its answer, and a lost network.
use telephone_booth.Base.{
  ◌+◌, ◌≤◌, ◌<◌, ◌^◌, length, none, arith, true, false, some, List, [], ◌∷◌, ◌≡◌, refl, ◌≢◌, ok,
  err,
}
use telephone_booth.Operator.Errors.{transport, installation_inactive}
use telephone_booth.Installation.Gate.{
  installation_active, active, check, accepting_calls, is_current, between_exhibitions, observe,
  observe_inactive,
}
use telephone_booth.Installation.Steps.{
  GateStep, time_passes, probe_begins, probe_answers, call_answers, GateRun, start_run, gate_step,
  run,
}
use telephone_booth.Installation.Sticky.{conflict-pauses}
use telephone_booth.Installation.Lease.{silence-pauses, errors-keep}
use telephone_booth.Installation.Fetches.{may_accept, run-ends_fetch}

-- A probe is answered, and another is begun.
abbrev before : List GateStep
before = probe_begins ∷ probe_answers (ok (some installation_active)) ∷ probe_begins ∷ []

-- The second probe's answer is older than the conflict; the third one fails.
abbrev after : List GateStep
after =
    probe_answers (ok (some installation_active))
    ∷ time_passes 5_000
    ∷ probe_begins
    ∷ probe_answers (err (transport "down"))
    ∷ []

abbrev outage : List GateStep
outage =
    time_passes 5_000
    ∷ probe_begins
    ∷ probe_answers (err (transport "down"))
    ∷ time_passes 10_000
    ∷ []

abbrev confirmed : GateRun
confirmed = record {
  now = 100;
  gate = record {
    state = record { mode = active; checked = 100; revision = 1 };
    fetch_generation = 0;
  };
  probe = none;
}

conflict-pauses_example :
    let w = run after (
      gate_step
        (call_answers (err (installation_inactive "gap")))
        (run before (start_run true 0))) in
    accepting_calls w.now w.gate ≡ false
conflict-pauses_example = conflict-pauses true 0 before after "gap" (omega arith) refl

outage_time : confirmed.gate.state.checked + 15_000 ≤ (run outage confirmed).now
unfolding run gate_step
outage_time = omega arith

silence-pauses_example :
    accepting_calls (run outage confirmed).now (run outage confirmed).gate ≡ false
silence-pauses_example = silence-pauses outage confirmed refl refl outage_time

errors-keep_example : check 0 (run outage confirmed).gate ≢ err (installation_inactive "gap")
errors-keep_example = errors-keep outage confirmed 0 "gap" refl refl

abbrev conflict : GateStep
conflict = call_answers (err (installation_inactive "gap"))

active-not-between : active ≢ between_exhibitions
active-not-between e = cc

run-ends_fetch_example :
    is_current 0 (run outage (gate_step conflict (run [] confirmed))).gate.fetch_generation ≡ false
unfolding gate_step run observe observe_inactive
run-ends_fetch_example = run-ends_fetch [] outage conflict confirmed small few changes closed
  where
    small : confirmed.gate.fetch_generation < 2 ^ 64
    small = omega arith

    few : length {A = GateStep} [] + (1 + length outage) < 2 ^ 64
    few = omega arith

    changes :
        (run [] confirmed).gate.state.mode ≢ (gate_step conflict (run [] confirmed)).gate.state.mode
    changes e = active-not-between e

    closed : may_accept (gate_step conflict (run [] confirmed)).gate.state.mode ≡ false
    closed = refl
