-- ===== src/Installation/Sticky.antt =====
-- crates/booth-bin/src/installation.rs: an answer to an older probe does not undo a newer conflict.
use telephone_booth.Base.{
  ℕ, suc, ◌+◌, ◌^◌, ◌≤◌, ◌<◌, Bool, true, false, not, ◌&&◌, String, Option, none, some, List, [],
  ◌∷◌, length, ◌≡◌, refl, Result, ok, err, arith, inl, inr, Bool-cases,
}
use telephone_booth.Operator.Errors.{OperatorError, installation_inactive}
use telephone_booth.Installation.Gate.{
  InstallationState, installation_between_exhibitions, InstallationGate, new_gate, is_between,
  check, check_mode, accepting_calls, observe, observe_inactive, next_mode, set_mode, reconcile,
}
use telephone_booth.Installation.Steps.{
  GateStep, time_passes, probe_begins, probe_answers, call_answers, GateRun, start_run, answer,
  gate_step, run,
}

-- Does the answer say that calls may be accepted?
abbrev pub reopens : Result OperatorError (Option InstallationState) → Bool
reopens (ok (some installation_between_exhibitions)) = false
reopens (ok _) = true
reopens (err e) = false

-- Is a probe under way one that was begun in these steps?
abbrev is_fresh : Bool → GateStep → Bool
is_fresh fresh probe_begins = true
is_fresh fresh _ = fresh

abbrev allowed : Bool → GateStep → Bool
allowed fresh (probe_answers result) = not (fresh && reopens result)
allowed fresh _ = true

-- No probe that is begun in these steps is answered so, nor an earlier one if `fresh` is true.
abbrev pub stays_closed : Bool → List GateStep → Bool
stays_closed fresh [] = true
stays_closed fresh (s ∷ steps) = allowed fresh s && stays_closed (is_fresh fresh s) steps

-- After at most `n` changes, the probe under way was begun at an earlier revision or at this one.
record IsCounted (n : ℕ) (w : GateRun) : Type 0 where
  few : w.gate.state.revision ≤ n
  begun : (r : ℕ) → w.probe ≡ some r → r ≤ w.gate.state.revision

record IsClosed (fresh : Bool) (n : ℕ) (w : GateRun) : Type 0 where
  few : w.gate.state.revision ≤ n
  mode : is_between w.gate.state.mode ≡ true
  old : fresh ≡ false → (r : ℕ) → w.probe ≡ some r → r < w.gate.state.revision

reconcile-revision :
    (n now r : ℕ) (result : Result OperatorError (Option InstallationState)) (g : InstallationGate)
    → suc n < 2 ^ 64
    → g.state.revision ≤ n
    → (reconcile now r result g).state.revision ≤ suc n
unfolding reconcile set_mode
reconcile-revision n now r result g room few = ground arith

observe-revision :
    (n : ℕ) (result : Result OperatorError (Unit {0})) (g : InstallationGate)
    → suc n < 2 ^ 64
    → g.state.revision ≤ n
    → (g.state.revision ≤ (observe result g).state.revision)
      × ((observe result g).state.revision ≤ suc n)
unfolding observe observe_inactive
observe-revision n result g room few = (ground arith, ground arith)

step-IsCounted :
    (n : ℕ) (s : GateStep) (w : GateRun)
    → suc n < 2 ^ 64
    → IsCounted n w
    → IsCounted (suc n) (gate_step s w)
unfolding gate_step answer
step-IsCounted n (time_passes ms) w room h = record { few = omega (arith, h.few); begun = h.begun }
step-IsCounted n probe_begins w room h = record {
  few = omega (arith, h.few);
  begun = λ r e. ground arith;
}
step-IsCounted n (probe_answers result) w room h = answered w.probe refl
  where
    answered : (p : Option ℕ) → w.probe ≡ p → IsCounted (suc n) (answer result p w)
    answered none e = record { few = omega (arith, h.few); begun = h.begun }
    answered (some r) e = record {
      few = reconcile-revision n w.now r result w.gate room h.few;
      begun = λ r' e'. cc;
    }
step-IsCounted n (call_answers result) w room h =
    let (more, few) = observe-revision n result w.gate room h.few in
    record { few = few; begun = λ r e. omega (arith, h.begun r e, more) }

run-IsCounted :
    (n : ℕ) (steps : List GateStep) (w : GateRun)
    → n + length steps < 2 ^ 64
    → IsCounted n w
    → IsCounted (n + length steps) (run steps w)
unfolding run
run-IsCounted n [] w room h = record { few = omega (arith, h.few); begun = h.begun }
run-IsCounted n (s ∷ steps) w room h =
    let rest =
      run-IsCounted (suc n) steps (gate_step s w) (omega arith)
        (step-IsCounted n s w (omega arith) h) in
    record { few = omega (arith, rest.few); begun = rest.begun }

conflict-IsClosed :
    (n : ℕ) (body : String) (w : GateRun)
    → suc n < 2 ^ 64
    → IsCounted n w
    → IsClosed false (suc n) (gate_step (call_answers (err (installation_inactive body))) w)
unfolding gate_step observe observe_inactive
conflict-IsClosed n body w room h = record {
  few = (observe-revision n (err (installation_inactive body)) w.gate room h.few).1;
  mode = ground arith;
  old = λ closed r e. ground (arith, h.begun r e, h.few);
}

-- What a probe that is begun at an earlier revision answers, changes nothing.
reconcile-older :
    (now r : ℕ) (result : Result OperatorError (Option InstallationState)) (g : InstallationGate)
    → r < g.state.revision
    → reconcile now r result g ≡ g
unfolding reconcile
reconcile-older now r result g h = ground arith

reconcile-closed :
    (now r : ℕ) (result : Result OperatorError (Option InstallationState)) (g : InstallationGate)
    → reopens result ≡ false
    → is_between g.state.mode ≡ true
    → is_between (reconcile now r result g).state.mode ≡ true
unfolding reconcile next_mode set_mode
reconcile-closed now r result g h closed = ground arith

observe-closed :
    (result : Result OperatorError (Unit {0})) (g : InstallationGate)
    → is_between g.state.mode ≡ true
    → is_between (observe result g).state.mode ≡ true
unfolding observe observe_inactive
observe-closed result g h = ground arith

start-IsCounted : (reconciles : Bool) (began : ℕ) → IsCounted 0 (start_run reconciles began)
unfolding start_run new_gate
start-IsCounted reconciles began = record { few = omega arith; begun = λ r e. cc }

step-IsClosed :
    (n : ℕ) (fresh : Bool) (s : GateStep) (w : GateRun)
    → suc n < 2 ^ 64
    → allowed fresh s ≡ true
    → IsClosed fresh n w
    → IsClosed (is_fresh fresh s) (suc n) (gate_step s w)
unfolding gate_step answer
step-IsClosed n fresh (time_passes ms) w room ok_s h = record {
  few = omega (arith, h.few);
  mode = h.mode;
  old = h.old;
}
step-IsClosed n fresh probe_begins w room ok_s h = record {
  few = omega (arith, h.few);
  mode = h.mode;
  old = λ e r e'. cc;
}
step-IsClosed n fresh (probe_answers result) w room ok_s h = answered w.probe refl
  where
    reconciled :
        (r : ℕ) → w.probe ≡ some r → is_between (reconcile w.now r result w.gate).state.mode ≡ true
    reconciled r e = elim (Bool-cases fresh) [
      | inl new ↦ reconcile-closed w.now r result w.gate (ground arith) h.mode
      | inr earlier ↦ rw (reconcile-older w.now r result w.gate (h.old earlier r e)) h.mode
    ]

    answered : (p : Option ℕ) → w.probe ≡ p → IsClosed fresh (suc n) (answer result p w)
    answered none e = record { few = omega (arith, h.few); mode = h.mode; old = h.old }
    answered (some r) e = record {
      few = reconcile-revision n w.now r result w.gate room h.few;
      mode = reconciled r e;
      old = λ closed r' e'. cc;
    }
step-IsClosed n fresh (call_answers result) w room ok_s h =
    let (more, few) = observe-revision n result w.gate room h.few in
    record {
      few = few;
      mode = observe-closed result w.gate h.mode;
      old = λ e r e'. omega (arith, h.old e r e', more);
    }

run-IsClosed :
    (n : ℕ) (fresh : Bool) (steps : List GateStep) (w : GateRun)
    → n + length steps < 2 ^ 64
    → stays_closed fresh steps ≡ true
    → IsClosed fresh n w
    → is_between (run steps w).gate.state.mode ≡ true
unfolding run
run-IsClosed n fresh [] w room quiet h = h.mode
run-IsClosed n fresh (s ∷ steps) w room quiet h =
    run-IsClosed (suc n) (is_fresh fresh s) steps (gate_step s w) (omega arith) (ground arith)
      (step-IsClosed n fresh s w (omega arith) (ground arith) h)

between-refuses :
    (now : ℕ) (g : InstallationGate)
    → is_between g.state.mode ≡ true
    → accepting_calls now g ≡ false
unfolding accepting_calls check check_mode
between-refuses now g h = ground arith

-- Once a call is answered with the conflict of an inactive installation, no call is accepted, at whatever time, until
-- a probe that is begun after that answer says otherwise: an answer to an older probe does not, nor an
-- error, nor time. It holds while the steps are fewer than 2^64.
pub conflict-pauses :
    (reconciles : Bool) (began : ℕ) (before after : List GateStep) (body : String)
    → suc (length before + length after) < 2 ^ 64
    → stays_closed false after ≡ true
    → let w = run after (
        gate_step
          (call_answers (err (installation_inactive body)))
          (run before (start_run reconciles began))) in
      accepting_calls w.now w.gate ≡ false
conflict-pauses reconciles began before after body room quiet =
    let w = run before (start_run reconciles began) in
    let w' = gate_step (call_answers (err (installation_inactive body))) w in
    between-refuses (run after w').now (run after w').gate (
      run-IsClosed (suc (0 + length before)) false after w' (omega arith) quiet (
        conflict-IsClosed (0 + length before) body w (omega arith) (
          run-IsCounted 0 before (start_run reconciles began) (omega arith)
            (start-IsCounted reconciles began))))
