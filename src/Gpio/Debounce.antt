-- ===== src/Gpio/Debounce.antt =====
-- crates/booth-pi/src/gpio.rs, `poll_edges`: the debouncing of one input. Times are in milliseconds.
use telephone_booth.Base.{ℕ, ◌-◌, Bool, true, false, not, Option, none, some, leb, if◌then◌else◌}

-- The entries of `confirmed` and `pending` for one role: the confirmed level, and the level that may
-- replace it with the time it was first seen.
pub record Debouncer : Type 0 where
  pub confirmed : Bool
  pub pending : Option (Bool × ℕ)

abbrev pub same_level : Bool → Bool → Bool
same_level true b = b
same_level false b = not b

-- A reading that differs from the confirmed level; `true` when it is confirmed now.
unfoldable pub consider : ℕ → ℕ → Bool → Bool → Option (Bool × ℕ) → Debouncer × Bool
consider debounce now raw confirmed none =
    (record { confirmed = confirmed; pending = some (raw, now) }, false)
consider debounce now raw confirmed (some (level, since)) =
    if same_level level raw
    then (if leb debounce (now - since)
        then (record { confirmed = raw; pending = none }, true)
        else (record { confirmed = confirmed; pending = some (level, since) }, false))
    else (record { confirmed = confirmed; pending = some (raw, now) }, false)

unfoldable pub sample : ℕ → ℕ → Bool → Debouncer → Debouncer × Bool
unfolding consider
sample debounce now raw d =
    if same_level raw d.confirmed
    then (record { confirmed = d.confirmed; pending = none }, false)
    else consider debounce now raw d.confirmed d.pending
