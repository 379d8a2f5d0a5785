-- ===== src/Installation/Steps.antt =====
-- crates/booth-bin/src/installation.rs: the gate in time, with the reconciler's loop and the calls.
use telephone_booth.Base.{ℕ, ◌+◌, Bool, Option, none, some, List, [], ◌∷◌, Result}
use telephone_booth.Operator.Errors.{OperatorError}
use telephone_booth.Installation.Gate.{
  InstallationState, InstallationGate, new_gate, observe, reconcile,
}

pub data GateStep : Type 0 where
  -- so many milliseconds pass
  time_passes : ℕ → GateStep
  -- the loop reads the revision and sends GET /v1/status
  probe_begins : GateStep
  -- its answer, or its timeout, is there
  probe_answers : Result OperatorError (Option InstallationState) → GateStep
  -- the answer of a gated call
  call_answers : Result OperatorError (Unit {0}) → GateStep

-- The revision at which the probe under way was begun; the loop has one at a time.
pub record GateRun : Type 0 where
  pub now : ℕ
  pub gate : InstallationGate
  pub probe : Option ℕ

unfoldable pub start_run : Bool → ℕ → GateRun
start_run reconciles now = record { now = now; gate = new_gate reconciles now; probe = none }

unfoldable pub answer :
    Result OperatorError (Option InstallationState) → Option ℕ → GateRun → GateRun
answer result none w = w
answer result (some revision) w = record w {
  gate = reconcile w.now revision result w.gate;
  probe = none;
}

unfoldable pub gate_step : GateStep → GateRun → GateRun
unfolding answer
gate_step (time_passes ms) w = record w { now = w.now + ms }
gate_step probe_begins w = record w { probe = some w.gate.state.revision }
gate_step (probe_answers result) w = answer result w.probe w
gate_step (call_answers result) w = record w { gate = observe result w.gate }

-- From the first step to the last.
unfoldable pub run : List GateStep → GateRun → GateRun
run [] w = w
run (s ∷ steps) w = run steps (gate_step s w)
