-- ===== src/Gpio/Steps.antt =====
-- crates/booth-pi/src/gpio.rs: a tick takes one debouncing step for each role.
use telephone_booth.Base.{
  true, false, ◌≡◌, refl, ◌≢◌, inl, inr, arith, if◌then◌else◌, Option-cases, Bool-cases,
}
use telephone_booth.Hal.{PinRole, rotary_pulse, rotary_read, hook, power_button, GpioEdge}
use telephone_booth.Gpio.Debounce.{Debouncer, sample}
use telephone_booth.Gpio.Poll.{
  PerRole, get, put, GpioConfig, SendResult, Tick, Poller, reading, is_active, try_send_edge,
  retry_power, forward, confirm, poll_role, poll,
}

retry_power-debouncers : (t : Tick) (p : Poller) → (retry_power t p).debouncers ≡ p.debouncers
unfolding retry_power
retry_power-debouncers t p = elim (Option-cases p.pending_power) [
  | inl e ↦ rw e refl
  | inr (edge, e) ↦ rw e refl
]

forward-debouncers :
    (r : SendResult) (edge : GpioEdge) (p : Poller) → (forward r edge p).debouncers ≡ p.debouncers
unfolding forward try_send_edge
forward-debouncers r edge p = ground arith

confirm-debouncers :
    (r : SendResult) (edge : GpioEdge) (p : Poller) → (confirm r edge p).debouncers ≡ p.debouncers
unfolding confirm
confirm-debouncers r edge p =
    ground (arith, forward-debouncers r edge p, Option-cases p.pending_power)

-- What the loop does to the debouncers at one role.
abbrev resampled : GpioConfig → Tick → PinRole → Poller → PerRole Debouncer
resampled config t role p =
    put p.debouncers role
      (sample config.debounce_ms t.now_ms (reading config t role) (get p.debouncers role)).0

poll_role-debouncers :
    (config : GpioConfig) (t : Tick) (role : PinRole) (p : Poller)
    → is_active config role ≡ true
    → (poll_role config t role p).debouncers ≡ resampled config t role p
unfolding poll_role
poll_role-debouncers config t role p active =
    let r = sample config.debounce_ms t.now_ms (reading config t role) (get p.debouncers role) in
    elim (Bool-cases r.1) [
      | inl e ↦
          rw (active, e)
            (confirm-debouncers (get t.send_result role)
              (record {
                role = role;
                level = reading config t role;
                at_monotonic_ns = t.elapsed_ns;
              })
              (record p {
                levels = put p.levels role (reading config t role);
                debouncers = resampled config t role p;
              }))
      | inr e ↦ rw (active, e) refl
    ]

poll_role-idle :
    (config : GpioConfig) (t : Tick) (role : PinRole) (p : Poller)
    → is_active config role ≡ false
    → (poll_role config t role p).debouncers ≡ p.debouncers
unfolding poll_role
poll_role-idle config t role p idle = rw idle refl

-- What a tick does to one debouncer.
unfoldable pub step : GpioConfig → Tick → PinRole → Debouncer → Debouncer
step config t role d =
    if is_active config role
    then (sample config.debounce_ms t.now_ms (reading config t role) d).0
    else d

poll_role-same :
    (config : GpioConfig) (t : Tick) (role : PinRole) (p : Poller)
    → get (poll_role config t role p).debouncers role ≡ step config t role (get p.debouncers role)
unfolding step
poll_role-same config t role p = elim (Bool-cases (is_active config role)) [
  | inl active ↦ rw (active, poll_role-debouncers config t role p active) (got role)
  | inr idle ↦ rw (idle, poll_role-idle config t role p idle) refl
]
  where
    got : (r : PinRole) {d : Debouncer} → get (put p.debouncers r d) r ≡ d
    got r = ground arith

poll_role-others :
    (config : GpioConfig) (t : Tick) (role r : PinRole) (p : Poller)
    → role ≢ r
    → get (poll_role config t role p).debouncers r ≡ get p.debouncers r
poll_role-others config t role r p other = elim (Bool-cases (is_active config role)) [
  | inl active ↦ rw (poll_role-debouncers config t role p active) (kept role r _ other)
  | inr idle ↦ rw (poll_role-idle config t role p idle) refl
]
  where
    kept :
        (s r : PinRole) (d : Debouncer) → s ≢ r → get (put p.debouncers s d) r ≡ get p.debouncers r
    kept s r d other = ground arith

module _ (config : GpioConfig) (t : Tick) (p : Poller) where
  abbrev p₀ : Poller
  p₀ = retry_power t p

  abbrev p₁ : Poller
  p₁ = poll_role config t hook p₀

  abbrev p₂ : Poller
  p₂ = poll_role config t rotary_pulse p₁

  abbrev p₃ : Poller
  p₃ = poll_role config t rotary_read p₂

  -- The steps of the other roles leave a debouncer alone.
  pub poll-step :
      (r : PinRole) → get (poll config t p).debouncers r ≡ step config t r (get p.debouncers r)
  unfolding poll
  poll-step hook = cc (
    poll_role-others config t power_button hook p₃ (λ e. ground arith),
    poll_role-others config t rotary_read hook p₂ (λ e. ground arith),
    poll_role-others config t rotary_pulse hook p₁ (λ e. ground arith),
    poll_role-same config t hook p₀,
    retry_power-debouncers t p,
  )
  poll-step rotary_pulse = cc (
    poll_role-others config t power_button rotary_pulse p₃ (λ e. ground arith),
    poll_role-others config t rotary_read rotary_pulse p₂ (λ e. ground arith),
    poll_role-same config t rotary_pulse p₁,
    poll_role-others config t hook rotary_pulse p₀ (λ e. ground arith),
    retry_power-debouncers t p,
  )
  poll-step rotary_read = cc (
    poll_role-others config t power_button rotary_read p₃ (λ e. ground arith),
    poll_role-same config t rotary_read p₂,
    poll_role-others config t rotary_pulse rotary_read p₁ (λ e. ground arith),
    poll_role-others config t hook rotary_read p₀ (λ e. ground arith),
    retry_power-debouncers t p,
  )
  poll-step power_button = cc (
    poll_role-same config t power_button p₃,
    poll_role-others config t rotary_read power_button p₂ (λ e. ground arith),
    poll_role-others config t rotary_pulse power_button p₁ (λ e. ground arith),
    poll_role-others config t hook power_button p₀ (λ e. ground arith),
    retry_power-debouncers t p,
  )
