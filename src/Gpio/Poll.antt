-- ===== src/Gpio/Poll.antt =====
-- crates/booth-pi/src/gpio.rs, `poll_edges`: one tick. The channel belongs to the crate tokio: whether
-- an edge that is sent is taken, refused or meets a closed channel is part of a tick's input.
use telephone_booth.Base.{
  ℕ, Bool, true, not, ◌||◌, Option, none, some, List, [], ◌∷◌, if◌then◌else◌,
}
use telephone_booth.Hal.{PinRole, rotary_pulse, rotary_read, hook, power_button, GpioEdge}
use telephone_booth.Gpio.Debounce.{Debouncer, sample}

-- An array with an entry for each role.
pub record PerRole {ℓ} (A : Type ℓ) : Type ℓ where
  pub for_hook : A
  pub for_rotary_pulse : A
  pub for_rotary_read : A
  pub for_power_button : A

abbrev pub get {ℓ} : {A : Type ℓ} → PerRole A → PinRole → A
get a hook = a.for_hook
get a rotary_pulse = a.for_rotary_pulse
get a rotary_read = a.for_rotary_read
get a power_button = a.for_power_button

abbrev pub put {ℓ} : {A : Type ℓ} → PerRole A → PinRole → A → PerRole A
put a hook v = record a { for_hook = v }
put a rotary_pulse v = record a { for_rotary_pulse = v }
put a rotary_read v = record a { for_rotary_read = v }
put a power_button v = record a { for_power_button = v }

-- The part of `GpioConfig` that is read.
pub record GpioConfig : Type 0 where
  pub debounce_ms : ℕ
  pub power_button_enabled : Bool
  pub invert : PerRole Bool

-- What `try_send` says.
pub data SendResult : Type 0 where
  sent full closed : SendResult

-- What a tick meets: the clock, the physical levels, and the answers of the channel to the retry and
-- to the edge of each role.
pub record Tick : Type 0 where
  pub now_ms : ℕ
  pub elapsed_ns : ℕ
  pub physical_high : PerRole Bool
  pub retry_result : SendResult
  pub send_result : PerRole SendResult

-- The newest edge sent stands first in `delivered`; `dropped` has the roles of the metric.
pub record Poller : Type 0 where
  pub levels : PerRole Bool
  pub debouncers : PerRole Debouncer
  pub pending_power : Option GpioEdge
  pub delivered : List GpioEdge
  pub dropped : List PinRole

abbrev pub apply_invert : Bool → Bool → Bool
apply_invert physical_high invert = if invert then not physical_high else physical_high

abbrev pub reading : GpioConfig → Tick → PinRole → Bool
reading config t role = apply_invert (get t.physical_high role) (get config.invert role)

unfoldable pub is_active : GpioConfig → PinRole → Bool
is_active config power_button = config.power_button_enabled
is_active config _ = true

unfoldable pub try_send_edge :
    SendResult → GpioEdge → List GpioEdge → List GpioEdge × Option GpioEdge
try_send_edge sent edge delivered = (edge ∷ delivered, none)
try_send_edge full edge delivered = (delivered, some edge)
try_send_edge closed edge delivered = (delivered, none)

unfoldable pub retry_power : Tick → Poller → Poller
unfolding try_send_edge
retry_power t p = elim p.pending_power [
  | none ↦ p
  | some edge ↦
      let (delivered, undelivered) = try_send_edge t.retry_result edge p.delivered in
      record p { pending_power = undelivered; delivered = delivered }
]

-- An edge that no older button edge waits for: it is sent, and one that is refused is kept for the
-- button and dropped for the other roles.
unfoldable pub forward : SendResult → GpioEdge → Poller → Poller
unfolding try_send_edge
forward result edge p =
    let (delivered, undelivered) = try_send_edge result edge p.delivered in
    let p' = record p { delivered = delivered } in
    elim undelivered [
      | none ↦ p'
      | some e ↦ elim edge.role [
        | power_button ↦ record p' { pending_power = some e }
        | rotary_pulse ↦ record p' { dropped = rotary_pulse ∷ p.dropped }
        | rotary_read ↦ record p' { dropped = rotary_read ∷ p.dropped }
        | hook ↦ record p' { dropped = hook ∷ p.dropped }
      ]
    ]

-- A confirmed level: a button level behind a waiting one goes into the slot, where a waiting release
-- stays.
unfoldable pub confirm : SendResult → GpioEdge → Poller → Poller
unfolding forward
confirm result edge p = elim edge.role [
  | power_button ↦ elim p.pending_power [
    | none ↦ forward result edge p
    | some waiting ↦
        if waiting.level || not edge.level then record p { pending_power = some edge } else p
  ]
  | rotary_pulse ↦ forward result edge p
  | rotary_read ↦ forward result edge p
  | hook ↦ forward result edge p
]

unfoldable pub poll_role : GpioConfig → Tick → PinRole → Poller → Poller
unfolding is_active sample confirm
poll_role config t role p =
    let raw = reading config t role in
    let (d, fired) = sample config.debounce_ms t.now_ms raw (get p.debouncers role) in
    let p' = record p { levels = put p.levels role raw; debouncers = put p.debouncers role d } in
    let edge : GpioEdge = record { role = role; level = raw; at_monotonic_ns = t.elapsed_ns } in
    if not (is_active config role)
    then p
    else if fired
    then confirm (get t.send_result role) edge p'
    else p'

-- The body of the loop.
unfoldable pub poll : GpioConfig → Tick → Poller → Poller
unfolding retry_power poll_role
poll config t p = poll_role config t power_button (
    poll_role config t rotary_read
      (poll_role config t rotary_pulse (poll_role config t hook (retry_power t p))))

-- The ticks of a history, the newest first.
unfoldable pub poll_all : GpioConfig → List Tick → Poller → Poller
poll_all config [] p = p
poll_all config (t ∷ ts) p = poll config t (poll_all config ts p)
