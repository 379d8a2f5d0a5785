-- ===== src/Gpio/Examples.antt =====
-- crates/booth-pi/src/gpio.rs: a hook that is put down, and a short press on a full queue.
use telephone_booth.Base.{
  ℕ, ◌-◌, ◌≤◌, Bool, true, false, none, List, [], ◌∷◌, ◌≡◌, refl, ◌≢◌, ◌⊎◌, inl, inr, arith,
}
use telephone_booth.Hal.{PinRole, rotary_pulse, rotary_read, hook, power_button}
use telephone_booth.Gpio.Debounce.{sample, consider}
use telephone_booth.Gpio.Poll.{
  PerRole, get, GpioConfig, SendResult, sent, full, closed, Tick, Poller, is_active, try_send_edge,
  retry_power, forward, confirm, poll_role, poll, poll_all,
}
use telephone_booth.Gpio.Button.{NoPhantom, IsLive, button_seen, poll_all-NoPhantom}
use telephone_booth.Gpio.Steady.{Steady, level_of, poll_all-debounces}
use telephone_booth.Gpio.Confirms.{poll_all-confirms}

abbrev everywhere {ℓ} : {A : Type ℓ} → A → PerRole A
everywhere a = record {
  for_hook = a;
  for_rotary_pulse = a;
  for_rotary_read = a;
  for_power_button = a;
}

abbrev config : GpioConfig
config = record { debounce_ms = 4; power_button_enabled = true; invert = everywhere false }

abbrev start : Poller
start = record {
  levels = everywhere false;
  debouncers = everywhere (record { confirmed = false; pending = none });
  pending_power = none;
  delivered = [];
  dropped = [];
}

abbrev tick : ℕ → Bool → Bool → SendResult → Tick
tick now hook_level button_level result = record {
  now_ms = now;
  elapsed_ns = 0;
  physical_high = record {
    for_hook = hook_level;
    for_rotary_pulse = false;
    for_rotary_read = false;
    for_power_button = button_level;
  };
  retry_result = result;
  send_result = everywhere result;
}

-- The newest tick stands first.
abbrev put_down : List Tick
put_down = tick 3 true false sent ∷ tick 1 true false sent ∷ []

abbrev short_press : List Tick
short_press =
    tick 15 false false sent
    ∷ tick 13 false false full
    ∷ tick 9 false false full
    ∷ tick 6 false true full
    ∷ tick 1 false true full
    ∷ []

press_waits :
    button_seen (poll_all config (tick 6 false true full ∷ tick 1 false true full ∷ []) start)
    ≡ true
unfolding poll_all poll poll_role retry_power confirm forward try_send_edge is_active sample
    consider
press_waits = refl

release_replaces_it : button_seen (poll_all config short_press start) ≡ false
unfolding poll_all poll poll_role retry_power confirm forward try_send_edge is_active sample
    consider
release_replaces_it = refl

get-everywhere : (r : SendResult) (role : PinRole) → r ≢ closed → get (everywhere r) role ≢ closed
get-everywhere r hook h = h
get-everywhere r rotary_pulse h = h
get-everywhere r rotary_read h = h
get-everywhere r power_button h = h

tick-IsLive :
    (now : ℕ) (hook_level button_level : Bool) (r : SendResult)
    → r ≢ closed
    → IsLive (tick now hook_level button_level r)
tick-IsLive now hook_level button_level r h = (h, λ role. get-everywhere r role h)

sent-tick-IsLive : (now : ℕ) (button_level : Bool) → IsLive (tick now false button_level sent)
sent-tick-IsLive now button_level = tick-IsLive now false button_level sent (λ e. ground arith)

full-tick-IsLive : (now : ℕ) (button_level : Bool) → IsLive (tick now false button_level full)
full-tick-IsLive now button_level = tick-IsLive now false button_level full (λ e. ground arith)

poll_all-NoPhantom_example : NoPhantom (poll_all config short_press start)
poll_all-NoPhantom_example =
    poll_all-NoPhantom config short_press start
      (
        sent-tick-IsLive 15 false,
        (
          full-tick-IsLive 13 false,
          (full-tick-IsLive 9 false, (full-tick-IsLive 6 true, (full-tick-IsLive 1 true, tt))),
        ),
      )
      (record { real = λ h. ground arith; waits = tt })

-- The third reading, at 5 ms, confirms the handset on the hook.
put_down_confirmed :
    level_of hook (poll_all config (tick 5 true false sent ∷ put_down) start) ≡ true
unfolding poll_all poll poll_role retry_power confirm forward try_send_edge is_active sample
    consider
put_down_confirmed = refl

abbrev next_tick : Tick
next_tick = tick 5 true false sent

hook-is_active : is_active config hook ≡ true
unfolding is_active
hook-is_active = refl

poll_all-debounces_example :
    (level_of hook (poll_all config (next_tick ∷ put_down) start)
      ≡ level_of hook (poll_all config put_down start))
    ⊎ ((since : ℕ) × (4 ≤ 5 - since)
        × Steady config hook
            (level_of hook (poll_all config (next_tick ∷ put_down) start))
            since
            (next_tick ∷ put_down))
poll_all-debounces_example =
    poll_all-debounces config hook hook-is_active put_down next_tick start refl

poll_all-confirms_example : level_of hook (poll_all config (next_tick ∷ put_down) start) ≡ true
poll_all-confirms_example =
    poll_all-confirms config hook hook-is_active start refl put_down next_tick 1 (omega arith, tt)
      (refl, inr (refl, inl refl)) (omega arith)
