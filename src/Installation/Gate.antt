-- ===== src/Installation/Gate.antt =====
-- crates/booth-bin/src/installation.rs: the gate, with the fetch generation of crates/booth-bin/src/lib.rs.
-- An instant is a number of milliseconds; what the watchers are told and the log are not modelled.
use telephone_booth.Base.{
  ℕ, ◌+◌, ◌-◌, ◌%◌, ◌^◌, Bool, true, false, not, ◌&&◌, Option, none, some, ltb, leb, ◌==◌,
  if◌then◌else◌, Result, ok, err,
}
use telephone_booth.Operator.Errors.{OperatorError, transport, installation_inactive}

pub data InstallationState : Type 0 where
  installation_active installation_between_exhibitions : InstallationState

pub data Mode : Type 0 where
  unknown legacy active between_exhibitions : Mode

abbrev pub active_lease : ℕ
active_lease = 15_000

pub record Observation : Type 0 where
  pub mode : Mode
  pub checked : ℕ
  pub revision : ℕ

-- `fetch_generation` counts the resets of the audio.
pub record InstallationGate : Type 0 where
  pub state : Observation
  pub fetch_generation : ℕ

-- `InstallationGate::new`.
unfoldable pub new_gate : Bool → ℕ → InstallationGate
new_gate reconciles now = record {
  state = record { mode = if reconciles then unknown else legacy; checked = now; revision = 0 };
  fetch_generation = 0;
}

unfoldable pub invalidate : ℕ → ℕ
invalidate generation = (generation + 1) % 2 ^ 64

-- Is the token current that was issued in that generation?
unfoldable pub is_current : ℕ → ℕ → Bool
is_current issued generation = generation == issued

-- `elapsed` is 0 for an instant to come.
abbrev pub elapsed : ℕ → Observation → ℕ
elapsed now state = now - state.checked

unfoldable pub check_mode : Mode → Bool → Result OperatorError (Unit {0})
check_mode legacy is_fresh = ok tt
check_mode active true = ok tt
check_mode active false =
    err (transport "installation lifecycle is unknown or stale; waiting for GET /v1/status")
check_mode between_exhibitions is_fresh =
    err (installation_inactive "waiting for an operator to start the next exhibition")
check_mode unknown is_fresh =
    err (transport "installation lifecycle is unknown or stale; waiting for GET /v1/status")

unfoldable pub check : ℕ → InstallationGate → Result OperatorError (Unit {0})
check now gate = check_mode gate.state.mode (ltb (elapsed now gate.state) active_lease)

abbrev is_ok {ℓ} : {T : Type ℓ} → Result OperatorError T → Bool
is_ok (ok v) = true
is_ok (err e) = false

unfoldable pub accepting_calls : ℕ → InstallationGate → Bool
accepting_calls now gate = is_ok (check now gate)

abbrev pub is_between : Mode → Bool
is_between between_exhibitions = true
is_between _ = false

unfoldable pub observe_inactive : InstallationGate → InstallationGate
unfolding invalidate
observe_inactive gate =
    let state = record gate.state { revision = (gate.state.revision + 1) % 2 ^ 64 } in
    if is_between gate.state.mode then record gate { state = state } else record {
      state = record state { mode = between_exhibitions };
      fetch_generation = invalidate gate.fetch_generation;
    }

-- The result is passed on as it is.
unfoldable pub observe {ℓ} :
    {T : Type ℓ} → Result OperatorError T → InstallationGate → InstallationGate
observe (err (installation_inactive s)) gate = observe_inactive gate
observe _ gate = gate

-- `none` leaves the gate as it is.
unfoldable pub next_mode :
    ℕ → Result OperatorError (Option InstallationState) → Observation → Option Mode
next_mode now (ok (some installation_active)) state = some active
next_mode now (ok (some installation_between_exhibitions)) state = some between_exhibitions
next_mode now (ok none) state = some legacy
next_mode now (err e) (state) = elim state.mode [
  | active ↦ if leb active_lease (elapsed now state) then some unknown else none
  | _ ↦ none
]

abbrev pub same_mode : Mode → Mode → Bool
same_mode unknown unknown = true
same_mode legacy legacy = true
same_mode active active = true
same_mode between_exhibitions between_exhibitions = true
same_mode _ _ = false

-- Do fetches end with this mode?
abbrev pub ends_fetches : Mode → Bool
ends_fetches unknown = true
ends_fetches between_exhibitions = true
ends_fetches _ = false

unfoldable pub set_mode : ℕ → Mode → InstallationGate → InstallationGate
unfolding invalidate
set_mode now next gate = record {
  state = record { mode = next; checked = now; revision = (gate.state.revision + 1) % 2 ^ 64 };
  fetch_generation =
      if not (same_mode next gate.state.mode) && ends_fetches next
      then invalidate gate.fetch_generation
      else gate.fetch_generation;
}

-- The answer to the probe that was begun at `revision`.
unfoldable pub reconcile :
    ℕ → ℕ → Result OperatorError (Option InstallationState) → InstallationGate → InstallationGate
unfolding next_mode set_mode
reconcile now revision result gate =
    if not (gate.state.revision == revision)
    then gate
    else elim (next_mode now result gate.state) [ none ↦ gate | some next ↦ set_mode now next gate ]

module _ {ℓ} {T : Type ℓ} where
  -- `ExhibitionOperator`'s draws. The gate may change while the inner call runs: it is `before` when the
  -- call is made and `after` when its result is there. Without a call the gate stays.
  unfoldable pub gated_draw :
      ℕ
      → InstallationGate
      → ℕ
      → InstallationGate
      → Result OperatorError T
      → Result OperatorError T × InstallationGate
  unfolding check observe
  gated_draw began before ended after result = elim (check began before) [
    | err e ↦ (err e, before)
    | ok _ ↦
        let gate = observe result after in
        elim result [
          | err e ↦ (err e, gate)
          | ok value ↦ elim (check ended gate) [ ok _ ↦ (ok value, gate) | err e ↦ (err e, gate) ]
        ]
  ]

  -- Its uploads, status updates and event batches.
  unfoldable pub gated_call :
      ℕ
      → InstallationGate
      → InstallationGate
      → Result OperatorError T
      → Result OperatorError T × InstallationGate
  unfolding check observe
  gated_call began before after result = elim (check began before) [
    | err e ↦ (err e, before)
    | ok _ ↦ (result, observe result after)
  ]
