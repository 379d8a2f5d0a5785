-- ===== src/Installation/Lease.antt =====
-- crates/booth-bin/src/installation.rs: what errors and silence do to the gate.
use telephone_booth.Base.{
  ℕ, ◌+◌, ◌≤◌, Bool, true, false, not, ◌&&◌, String, Option, none, some, List, [], ◌∷◌, ◌≡◌, refl,
  ◌≢◌, Result, ok, err, arith, Bool-cases,
}
use telephone_booth.Operator.Errors.{OperatorError, installation_inactive}
use telephone_booth.Installation.Gate.{
  installation_between_exhibitions, Mode, active, legacy, InstallationGate, is_between, check,
  check_mode, accepting_calls, observe, observe_inactive, next_mode, set_mode, reconcile,
}
use telephone_booth.Installation.Steps.{
  GateStep, time_passes, probe_begins, probe_answers, call_answers, GateRun, answer, gate_step, run,
}

abbrev pub is_legacy : Mode → Bool
is_legacy legacy = true
is_legacy _ = false

abbrev pub is_active : Mode → Bool
is_active active = true
is_active _ = false

-- Is every probe in it answered with an error?
abbrev silent_step : GateStep → Bool
silent_step (probe_answers (ok s)) = false
silent_step _ = true

abbrev pub is_silent : List GateStep → Bool
is_silent [] = true
is_silent (s ∷ steps) = silent_step s && is_silent steps

-- An active gate was confirmed at that instant.
record IsLeased (confirmed : ℕ) (w : GateRun) : Type 0 where
  no_legacy : is_legacy w.gate.state.mode ≡ false
  lease : is_active w.gate.state.mode ≡ true → w.gate.state.checked ≡ confirmed

reconcile-IsLeased :
    (now r confirmed : ℕ) (e : OperatorError) (g : InstallationGate)
    → is_legacy g.state.mode ≡ false
    → (is_active g.state.mode ≡ true → g.state.checked ≡ confirmed)
    → (is_legacy (reconcile now r (err e) g).state.mode ≡ false)
      × (is_active (reconcile now r (err e) g).state.mode ≡ true
          → (reconcile now r (err e) g).state.checked ≡ confirmed)
unfolding reconcile next_mode set_mode
reconcile-IsLeased now r confirmed e g other lease = (ground arith, λ h. ground arith)

observe-IsLeased :
    (confirmed : ℕ) (result : Result OperatorError (Unit {0})) (g : InstallationGate)
    → is_legacy g.state.mode ≡ false
    → (is_active g.state.mode ≡ true → g.state.checked ≡ confirmed)
    → (is_legacy (observe result g).state.mode ≡ false)
      × (is_active (observe result g).state.mode ≡ true
          → (observe result g).state.checked ≡ confirmed)
unfolding observe observe_inactive
observe-IsLeased confirmed result g other lease = (ground arith, λ h. ground arith)

step-IsLeased :
    (confirmed : ℕ) (s : GateStep) (w : GateRun)
    → silent_step s ≡ true
    → IsLeased confirmed w
    → IsLeased confirmed (gate_step s w)
unfolding gate_step answer
step-IsLeased confirmed (time_passes ms) w silent h = record {
  no_legacy = h.no_legacy;
  lease = h.lease;
}
step-IsLeased confirmed probe_begins w silent h = record {
  no_legacy = h.no_legacy;
  lease = h.lease;
}
step-IsLeased confirmed (probe_answers (ok s)) w silent h = cc
step-IsLeased confirmed (probe_answers (err e)) w silent h = answered w.probe
  where
    answered : (p : Option ℕ) → IsLeased confirmed (answer (err e) p w)
    answered none = h
    answered (some r) =
        let (other, lease) = reconcile-IsLeased w.now r confirmed e w.gate h.no_legacy h.lease in
        record { no_legacy = other; lease = lease }
step-IsLeased confirmed (call_answers result) w silent h =
    let (other, lease) = observe-IsLeased confirmed result w.gate h.no_legacy h.lease in
    record { no_legacy = other; lease = lease }

run-IsLeased :
    (confirmed : ℕ) (steps : List GateStep) (w : GateRun)
    → is_silent steps ≡ true
    → IsLeased confirmed w
    → IsLeased confirmed (run steps w)
unfolding run
run-IsLeased confirmed [] w silent h = h
run-IsLeased confirmed (s ∷ steps) w silent h =
    run-IsLeased confirmed steps (gate_step s w) (ground arith)
      (step-IsLeased confirmed s w (ground arith) h)

lapsed-refuses :
    (confirmed now : ℕ) (w : GateRun)
    → IsLeased confirmed w
    → confirmed + 15_000 ≤ now
    → accepting_calls now w.gate ≡ false
unfolding accepting_calls check check_mode
lapsed-refuses confirmed now w h late =
    ground (arith, h.no_legacy, h.lease, Bool-cases (is_active w.gate.state.mode))

-- A gate that is not in legacy mode accepts no call fifteen seconds and more after the instant of its
-- last confirmation, if every probe since then was answered with an error.
pub silence-pauses :
    (steps : List GateStep) (w : GateRun)
    → is_legacy w.gate.state.mode ≡ false
    → is_silent steps ≡ true
    → w.gate.state.checked + 15_000 ≤ (run steps w).now
    → accepting_calls (run steps w).now (run steps w).gate ≡ false
silence-pauses steps w other silent late =
    lapsed-refuses w.gate.state.checked (run steps w).now (run steps w)
      (run-IsLeased w.gate.state.checked steps w silent
        (record { no_legacy = other; lease = λ h. refl }))
      late

-- Does the step bring word that there is no exhibition?
abbrev says_between : GateStep → Bool
says_between (probe_answers (ok (some installation_between_exhibitions))) = true
says_between (call_answers (err (installation_inactive body))) = true
says_between _ = false

abbrev pub never_says_between : List GateStep → Bool
never_says_between [] = true
never_says_between (s ∷ steps) = not (says_between s) && never_says_between steps

step-open :
    (s : GateStep) (w : GateRun)
    → says_between s ≡ false
    → is_between w.gate.state.mode ≡ false
    → is_between (gate_step s w).gate.state.mode ≡ false
unfolding gate_step answer reconcile next_mode set_mode observe observe_inactive
step-open (time_passes ms) w quiet h = h
step-open probe_begins w quiet h = h
step-open (probe_answers result) w quiet h = ground arith
step-open (call_answers result) w quiet h = ground arith

run-open :
    (steps : List GateStep) (w : GateRun)
    → never_says_between steps ≡ true
    → is_between w.gate.state.mode ≡ false
    → is_between (run steps w).gate.state.mode ≡ false
unfolding run
run-open [] w quiet h = h
run-open (s ∷ steps) w quiet h =
    run-open steps (gate_step s w) (ground arith) (step-open s w (ground arith) h)

check-open :
    (now : ℕ) (g : InstallationGate) (body : String)
    → is_between g.state.mode ≡ false
    → check now g ≢ err (installation_inactive body)
unfolding check check_mode
check-open now g body h e = ground arith

-- The health of the network never makes the installation inactive: unless the operator says that there
-- is no exhibition, the gate never answers so, whatever errors, silence and other answers there are.
pub errors-keep :
    (steps : List GateStep) (w : GateRun) (now : ℕ) (body : String)
    → is_between w.gate.state.mode ≡ false
    → never_says_between steps ≡ true
    → check now (run steps w).gate ≢ err (installation_inactive body)
errors-keep steps w now body h quiet =
    check-open now (run steps w).gate body (run-open steps w quiet h)
