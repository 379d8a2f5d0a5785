-- ===== src/Installation/Fetches.antt =====
-- crates/booth-bin/src/installation.rs: the fetches that are under way when the gate changes.
use telephone_booth.Base.{
  ℕ, ◌+◌, ◌%◌, ◌^◌, ◌≤◌, ◌<◌, ◌==◌, Bool, true, false, not, ◌&&◌, Option, none, some, List, [], ◌∷◌,
  length, ◌≡◌, ◌≢◌, ◌⊎◌, inl, inr, refl, Result, ok, err, arith, Bool-cases, if_cases,
}
use telephone_booth.Operator.Errors.{OperatorError, installation_inactive}
use telephone_booth.Installation.Gate.{
  InstallationState, Mode, unknown, legacy, active, between_exhibitions, InstallationGate,
  is_between, ends_fetches, same_mode, is_current, invalidate, observe, observe_inactive, next_mode,
  set_mode, reconcile,
}
use telephone_booth.Installation.Steps.{
  GateStep, time_passes, probe_begins, probe_answers, call_answers, GateRun, answer, gate_step, run,
}

-- Is it a mode in which calls can be accepted?
abbrev pub may_accept : Mode → Bool
may_accept active = true
may_accept legacy = true
may_accept unknown = false
may_accept between_exhibitions = false

-- The generation is the next one, or the same and the mode did not change to a refusing one.
record Advances (g g' : InstallationGate) : Type 0 where
  once :
      (g'.fetch_generation ≡ g.fetch_generation)
      ⊎ (g'.fetch_generation ≡ invalidate g.fetch_generation)
  closes :
      g.state.mode ≢ g'.state.mode
      → may_accept g'.state.mode ≡ false
      → g'.fetch_generation ≡ invalidate g.fetch_generation

differ : (m next : Mode) → m ≢ next → same_mode next m ≡ false
differ unknown unknown h = absurd (h refl)
differ unknown legacy h = refl
differ unknown active h = refl
differ unknown between_exhibitions h = refl
differ legacy unknown h = refl
differ legacy legacy h = absurd (h refl)
differ legacy active h = refl
differ legacy between_exhibitions h = refl
differ active unknown h = refl
differ active legacy h = refl
differ active active h = absurd (h refl)
differ active between_exhibitions h = refl
differ between_exhibitions unknown h = refl
differ between_exhibitions legacy h = refl
differ between_exhibitions active h = refl
differ between_exhibitions between_exhibitions h = absurd (h refl)

closed-ends : (m : Mode) → may_accept m ≡ false → ends_fetches m ≡ true
closed-ends unknown h = refl
closed-ends legacy h = cc
closed-ends active h = cc
closed-ends between_exhibitions h = refl

same-Advances : (g : InstallationGate) → Advances g g
same-Advances g = record { once = inl refl; closes = λ differs closed. absurd (differs refl) }

set_mode-Advances :
    (now : ℕ) (next : Mode) (g : InstallationGate) → Advances g (set_mode now next g)
unfolding set_mode
set_mode-Advances now next g = record {
  once =
      if_cases (λ (n : ℕ). (n ≡ g.fetch_generation) ⊎ (n ≡ invalidate g.fetch_generation))
        (not (same_mode next g.state.mode) && ends_fetches next) (invalidate g.fetch_generation)
        g.fetch_generation (inr refl) (inl refl);
  closes = λ differs closed. rw (differ g.state.mode next differs, closed-ends next closed) refl;
}

observe_inactive-Advances : (g : InstallationGate) → Advances g (observe_inactive g)
unfolding observe_inactive
observe_inactive-Advances g = elim (Bool-cases (is_between g.state.mode)) [
  | inl between ↦
      rw between (record { once = inl refl; closes = λ differs closed. absurd (differs refl) })
  | inr other ↦ rw other (record { once = inr refl; closes = λ differs closed. refl })
]

reconcile-Advances :
    (now revision : ℕ) (result : Result OperatorError (Option InstallationState))
    (g : InstallationGate)
    → Advances g (reconcile now revision result g)
unfolding reconcile
reconcile-Advances now revision result g =
    if_cases (Advances g) (not (g.state.revision == revision)) g _ (same-Advances g)
      (answered (next_mode now result g.state))
  where
    answered :
        (next : Option Mode)
        → Advances g
            (elim next as (λ _. InstallationGate) [ none ↦ g | some next ↦ set_mode now next g ])
    answered none = same-Advances g
    answered (some next) = set_mode-Advances now next g

observe-Advances :
    (result : Result OperatorError (Unit {0})) (g : InstallationGate)
    → Advances g (observe result g)
unfolding observe
observe-Advances (ok v) g = same-Advances g
observe-Advances (err (installation_inactive body)) g = observe_inactive-Advances g
observe-Advances (err e) g = same-Advances g

gate_step-Advances : (s : GateStep) (w : GateRun) → Advances w.gate (gate_step s w).gate
unfolding gate_step answer
gate_step-Advances (time_passes ms) w = same-Advances w.gate
gate_step-Advances probe_begins w = same-Advances w.gate
gate_step-Advances (probe_answers result) w = answered w.probe
  where
    answered : (p : Option ℕ) → Advances w.gate (answer result p w).gate
    answered none = same-Advances w.gate
    answered (some revision) = reconcile-Advances w.now revision result w.gate
gate_step-Advances (call_answers result) w = observe-Advances result w.gate

-- So many generations, at least and at most, from one number to another.
record Between (least most from to : ℕ) : Type 0 where
  count : ℕ
  lower : least ≤ count
  upper : count ≤ most
  reached : to ≡ (from + count) % 2 ^ 64

Between-trans :
    (least most least' most' a b c : ℕ)
    → Between least most a b
    → Between least' most' b c
    → Between (least + least') (most + most') a c
Between-trans least most least' most' a b c h k = record {
  count = h.count + k.count;
  lower = omega (arith, h.lower, k.lower);
  upper = omega (arith, h.upper, k.upper);
  reached = omega (arith, h.reached, k.reached);
}

step-Between :
    (s : GateStep) (w : GateRun)
    → w.gate.fetch_generation < 2 ^ 64
    → Between 0 1 w.gate.fetch_generation (gate_step s w).gate.fetch_generation
unfolding invalidate
step-Between s w small = elim (gate_step-Advances s w).once [
  | inl same ↦ record {
    count = 0;
    lower = omega arith;
    upper = omega arith;
    reached = omega (arith, same);
  }
  | inr next ↦ record { count = 1; lower = omega arith; upper = omega arith; reached = next }
]

Between-small : (least most a b : ℕ) → Between least most a b → b < 2 ^ 64
Between-small least most a b h = omega (arith, h.reached)

run-Between :
    (steps : List GateStep) (w : GateRun)
    → w.gate.fetch_generation < 2 ^ 64
    → Between 0 (length steps) w.gate.fetch_generation (run steps w).gate.fetch_generation
unfolding run
run-Between [] w small = record {
  count = 0;
  lower = omega arith;
  upper = omega arith;
  reached = omega arith;
}
run-Between (s ∷ steps) w small =
    let one = step-Between s w small in
    let rest = run-Between steps (gate_step s w) (Between-small 0 1 _ _ one) in
    let all = Between-trans 0 1 0 (length steps) _ _ _ one rest in
    record {
      count = all.count;
      lower = omega arith;
      upper = omega (arith, all.upper);
      reached = all.reached;
    }

-- A fetch ends with a change to a mode that accepts no call: its token, issued in whatever state, is not current
-- after any steps of which one changes the mode to unknown or between exhibitions, as long as they are fewer than
-- 2 ^ 64 in all, the range of the generation.
pub run-ends_fetch :
    (before after : List GateStep) (s : GateStep) (w : GateRun)
    → w.gate.fetch_generation < 2 ^ 64
    → length before + (1 + length after) < 2 ^ 64
    → (run before w).gate.state.mode ≢ (gate_step s (run before w)).gate.state.mode
    → may_accept (gate_step s (run before w)).gate.state.mode ≡ false
    → is_current w.gate.fetch_generation
        (run after (gate_step s (run before w))).gate.fetch_generation
      ≡ false
unfolding is_current invalidate
run-ends_fetch before after s w small few differs closed =
    let u = run before w in
    let v = gate_step s u in
    let one = run-Between before w small in
    let two : Between 1 1 u.gate.fetch_generation v.gate.fetch_generation = record {
      count = 1;
      lower = omega arith;
      upper = omega arith;
      reached = (gate_step-Advances s u).closes differs closed;
    } in
    let three = run-Between after v (Between-small 1 1 _ _ two) in
    let all =
      Between-trans 0 (length before) 1 (1 + length after) _ _ _ one
        (Between-trans 1 1 0 (length after) _ _ _ two three) in
    ground (arith, all.lower, all.upper, all.reached, few, small)
