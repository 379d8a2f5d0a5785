-- ===== src/Installation/Gated.antt =====
-- crates/booth-bin/src/installation.rs: the operator's draws through the gate.
use telephone_booth.Base.{ℕ, true, ◌≡◌, ◌↔◌, Result, ok, arith}
use telephone_booth.Operator.Errors.{OperatorError}
use telephone_booth.Installation.Gate.{InstallationGate, accepting_calls, observe, gated_draw}

module _ {T : Type 0} where
  -- A draw hands out a value exactly if the operator gave it, calls were accepted when it was asked
  -- for, and calls were accepted when it came.
  gated_draw_iff :
      (began : ℕ) (before : InstallationGate) (ended : ℕ) (after : InstallationGate)
      (result : Result OperatorError T) (value : T)
      → ((gated_draw began before ended after result).0 ≡ ok value) ↔ (
          (accepting_calls began before ≡ true)
          × (result ≡ ok value)
          × (accepting_calls ended after ≡ true))
  unfolding gated_draw accepting_calls observe
  gated_draw_iff began before ended after result value =
      (λ h. (ground arith, ground arith, ground arith), λ h. ground arith)
