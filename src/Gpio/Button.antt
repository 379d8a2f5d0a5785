-- ===== src/Gpio/Button.antt =====
-- crates/booth-pi/src/gpio.rs: what the consumer of edges sees of the power button.
use telephone_booth.Base.{
  ℕ, Bool, true, false, Option, none, some, List, [], ◌∷◌, ◌≡◌, refl, sym, ◌∙◌, ◌≢◌, arith, All,
  Option-cases, Bool-cases, ◌⊎◌, inl, inr,
}
use telephone_booth.Hal.{PinRole, rotary_pulse, rotary_read, hook, power_button, GpioEdge}
use telephone_booth.Gpio.Debounce.{Debouncer, sample, consider}
use telephone_booth.Gpio.Poll.{
  get, GpioConfig, SendResult, sent, full, closed, Tick, Poller, reading, is_active, try_send_edge,
  retry_power, forward, confirm, poll_role, poll, poll_all,
}

-- The newest button level among the edges, the newest edge first; not pressed if there is none.
abbrev pub newest_button : List GpioEdge → Bool
newest_button [] = false
newest_button (edge ∷ es) = elim edge.role [
  | power_button ↦ edge.level
  | rotary_pulse ↦ newest_button es
  | rotary_read ↦ newest_button es
  | hook ↦ newest_button es
]

-- The newest button level that was sent or waits to be sent.
abbrev pub button_seen : Poller → Bool
button_seen p = elim p.pending_power [ none ↦ newest_button p.delivered | some edge ↦ edge.level ]

abbrev IsButton : Option GpioEdge → Type 0
IsButton none = Unit {0}
IsButton (some edge) = edge.role ≡ power_button

-- A button seen as pressed is pressed, as far as the debouncer knows; and only the button waits.
pub record NoPhantom (p : Poller) : Type 0 where
  pub real : button_seen p ≡ true → p.debouncers.for_power_button.confirmed ≡ true
  pub waits : IsButton p.pending_power

-- The receiver is there.
abbrev pub IsLive : Tick → Type 0
IsLive t = (t.retry_result ≢ closed) × ((role : PinRole) → get t.send_result role ≢ closed)

result-cases : (r : SendResult) → r ≢ closed → (r ≡ sent) ⊎ (r ≡ full)
result-cases sent h = inl refl
result-cases full h = inr refl
result-cases closed h = absurd (h refl)

retry_power-NoPhantom :
    (t : Tick) (p : Poller) → IsLive t → NoPhantom p → NoPhantom (retry_power t p)
unfolding retry_power try_send_edge
retry_power-NoPhantom t p live n = elim (Option-cases p.pending_power) [
  | inl e ↦ rw (e, retry_power) n
  | inr (edge, e) ↦ elim (result-cases t.retry_result live.0) [
    | inl r ↦ record { real = ground (arith, n.real, n.waits); waits = ground (arith, n.waits) }
    | inr r ↦ record { real = ground (arith, n.real, n.waits); waits = ground (arith, n.waits) }
  ]
]

-- A level that is confirmed at once and equals the reading, or is what it was.
sample-cases :
    (debounce now : ℕ) (raw : Bool) (d : Debouncer)
    → let r = sample debounce now raw d in
      ((r.1 ≡ true) × (r.0.confirmed ≡ raw)) ⊎ ((r.1 ≡ false) × (r.0.confirmed ≡ d.confirmed))
unfolding sample consider
sample-cases debounce now raw d = ground arith

forward-NoPhantom :
    (r : SendResult) (edge : GpioEdge) (p : Poller)
    → r ≢ closed
    → edge.role ≢ power_button
    → NoPhantom p
    → NoPhantom (forward r edge p)
unfolding forward try_send_edge
forward-NoPhantom r edge p live other n = elim (result-cases r live) [
  | inl e ↦ record { real = ground (arith, n.real); waits = ground (arith, n.waits) }
  | inr e ↦ record { real = ground (arith, n.real); waits = ground (arith, n.waits) }
]

confirm-button :
    (r : SendResult) (edge : GpioEdge) (p : Poller)
    → r ≢ closed
    → edge.role ≡ power_button
    → edge.level ≡ p.debouncers.for_power_button.confirmed
    → IsButton p.pending_power
    → NoPhantom (confirm r edge p)
unfolding confirm forward try_send_edge
confirm-button r edge p live button level waits = elim (Option-cases p.pending_power) [
  | inl e ↦ elim (result-cases r live) [
    | inl e' ↦ record { real = ground arith; waits = ground arith }
    | inr e' ↦ record { real = ground arith; waits = ground arith }
  ]
  | inr (waiting, e) ↦ record { real = ground arith; waits = ground arith }
]

-- The other roles neither touch the button's debouncer nor its edges.
module _ (config : GpioConfig) (t : Tick) (live : IsLive t) (p : Poller) (n : NoPhantom p) where
  abbrev sampled : PinRole → Debouncer × Bool
  sampled role = sample config.debounce_ms t.now_ms (reading config t role) (get p.debouncers role)

  poll_hook-NoPhantom : NoPhantom (poll_role config t hook p)
  unfolding poll_role is_active confirm
  poll_hook-NoPhantom = elim (Bool-cases (sampled hook).1) [
    | inl e ↦ rw e (
        forward-NoPhantom (get t.send_result hook) _ _ (live.1 hook) (λ q. ground arith)
          (record { real = n.real; waits = n.waits }))
    | inr e ↦ rw e (record { real = n.real; waits = n.waits })
  ]

  poll_pulse-NoPhantom : NoPhantom (poll_role config t rotary_pulse p)
  unfolding poll_role is_active confirm
  poll_pulse-NoPhantom = elim (Bool-cases (sampled rotary_pulse).1) [
    | inl e ↦ rw e (
        forward-NoPhantom (get t.send_result rotary_pulse) _ _ (live.1 rotary_pulse)
          (λ q. ground arith) (record { real = n.real; waits = n.waits }))
    | inr e ↦ rw e (record { real = n.real; waits = n.waits })
  ]

  poll_read-NoPhantom : NoPhantom (poll_role config t rotary_read p)
  unfolding poll_role is_active confirm
  poll_read-NoPhantom = elim (Bool-cases (sampled rotary_read).1) [
    | inl e ↦ rw e (
        forward-NoPhantom (get t.send_result rotary_read) _ _ (live.1 rotary_read)
          (λ q. ground arith) (record { real = n.real; waits = n.waits }))
    | inr e ↦ rw e (record { real = n.real; waits = n.waits })
  ]

  poll_button-NoPhantom : NoPhantom (poll_role config t power_button p)
  unfolding poll_role is_active
  poll_button-NoPhantom = elim (Bool-cases config.power_button_enabled) [
    | inr off ↦ rw off n
    | inl on ↦
        elim (sample-cases config.debounce_ms t.now_ms (reading config t power_button)
          p.debouncers.for_power_button) [
            | inl (fired, level) ↦
                rw (on, fired)
                  (confirm-button (get t.send_result power_button) _ _ (live.1 power_button) refl
                    (sym level) n.waits)
            | inr (idle, level) ↦
                rw (on, idle) (record { real = λ h. level ∙ n.real h; waits = n.waits })
          ]
  ]

poll-NoPhantom :
    (config : GpioConfig) (t : Tick) (p : Poller)
    → IsLive t
    → NoPhantom p
    → NoPhantom (poll config t p)
unfolding poll
poll-NoPhantom config t p live n = poll_button-NoPhantom config t live _ (
    poll_read-NoPhantom config t live _ (
      poll_pulse-NoPhantom config t live _
        (poll_hook-NoPhantom config t live _ (retry_power-NoPhantom t p live n))))

-- From a state in which the newest button level that was sent or waits is a press only if the debounced button
-- is pressed, and in which only the button waits, this stays so, whatever the pins read and however
-- often the queue is full, as long as the receiver is there.
pub poll_all-NoPhantom :
    (config : GpioConfig) (ts : List Tick) (p : Poller)
    → All IsLive ts
    → NoPhantom p
    → NoPhantom (poll_all config ts p)
unfolding poll_all
poll_all-NoPhantom config [] p live n = n
poll_all-NoPhantom config (t ∷ ts) p live n =
    poll-NoPhantom config t _ live.0 (poll_all-NoPhantom config ts p live.1 n)
