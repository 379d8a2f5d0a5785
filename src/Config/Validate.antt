-- ===== src/Config/Validate.antt =====
-- crates/booth-bin/src/lib.rs: `validate_config`. Error texts stand without their numbers.
use Prim.Native.Char.{code}
use telephone_booth.Base.{
  ℕ, Bool, true, false, not, ◌&&◌, ◌||◌, String, Option, none, some, List, [], ◌∷◌, ◌++◌, length,
  any, ltb, leb, ◌==◌, if◌then◌else◌,
}
use telephone_booth.Config.Types.{
  AudioConfig, OperatorConfig, OperatorForwardConfig, ShellyConfig, WeatherConfig, RuntimeConfig,
  Features,
}

abbrev pub max_recording_secs_ceiling : ℕ
max_recording_secs_ceiling = 600

-- Of shelly.rs and of weather.rs.
abbrev pub shelly_min_poll_interval_seconds : ℕ
shelly_min_poll_interval_seconds = 2

abbrev pub shelly_max_request_timeout_seconds : ℕ
shelly_max_request_timeout_seconds = 30

abbrev pub weather_min_poll_interval_seconds : ℕ
weather_min_poll_interval_seconds = 60

abbrev pub weather_max_request_timeout_seconds : ℕ
weather_max_request_timeout_seconds = 60

-- `char::is_whitespace`.
abbrev pub is_whitespace : ℕ → Bool
is_whitespace c =
    leb 9 c && leb c 13
    || (any (λ k. c == k) (32 ∷ 133 ∷ 160 ∷ 5760 ∷ 8232 ∷ 8233 ∷ 8239 ∷ 8287 ∷ 12288 ∷ [])
        || leb 8192 c && leb c 8202)

-- `trim().is_empty()`.
unfoldable pub is_blank : String → Bool
is_blank String.[] = true
is_blank (String.◌∷◌ c s) = let rest = is_blank s in is_whitespace (code c) && rest

-- The set of the pins.
unfoldable pub unique : List ℕ → List ℕ
unique [] = []
unique (p ∷ ps) = let rest = unique ps in if any (λ q. p == q) rest then rest else p ∷ rest

abbrev pub pins_if : Bool → List ℕ → List ℕ
pins_if true ps = ps
pins_if false ps = []

-- Conditions to bail out, each with its text.
unfoldable pub first_error : List (Bool × String) → Option String
first_error [] = none
first_error ((fails, text) ∷ checks) =
    let rest = first_error checks in if fails then some text else rest

abbrev pub operator_checks : OperatorConfig → List (Bool × String)
operator_checks o =
    (o.http_timeout_secs == 0, "operator.http_timeout_secs must be greater than 0")
    ∷ (o.ws_reconnect_initial_ms == 0, "operator.ws_reconnect_initial_ms must be greater than 0")
    ∷ (
      ltb o.ws_reconnect_max_ms o.ws_reconnect_initial_ms,
      "operator.ws_reconnect_max_ms must be >= operator.ws_reconnect_initial_ms",
    )
    ∷ []

abbrev pub recording_checks : AudioConfig → List (Bool × String)
recording_checks a =
    (a.max_recording_secs == 0, "audio.max_recording_secs must be greater than 0")
    ∷ (
      ltb max_recording_secs_ceiling a.max_recording_secs,
      "audio.max_recording_secs exceeds maximum allowed",
    )
    ∷ (
      leb a.max_recording_secs a.min_recording_secs,
      "audio.min_recording_secs must be less than audio.max_recording_secs",
    )
    ∷ []

abbrev pub forward_checks : OperatorForwardConfig → List (Bool × String)
forward_checks f =
    (f.batch_max == 0, "observability.operator_forward.batch_max must be greater than 0")
    ∷ (
      f.flush_interval_ms == 0,
      "observability.operator_forward.flush_interval_ms must be greater than 0",
    )
    ∷ (
      ltb f.buffer_max f.batch_max,
      "observability.operator_forward.buffer_max must be >= observability.operator_forward.batch_max",
    )
    ∷ (
      f.system_push_interval_ms == 0,
      "observability.operator_forward.system_push_interval_ms must be greater than 0",
    )
    ∷ []

abbrev pub shelly_checks : Features → Bool → ShellyConfig → List (Bool × String)
shelly_checks features observability s =
    (
      ltb s.poll_interval_seconds shelly_min_poll_interval_seconds,
      "shelly.poll_interval_seconds is too small",
    )
    ∷ (
      s.request_timeout_seconds == 0
          || ltb shelly_max_request_timeout_seconds s.request_timeout_seconds,
      "shelly.request_timeout_seconds is out of range",
    )
    ∷ (s.enabled && not observability, "shelly.enabled requires observability.enabled")
    ∷ (s.enabled && is_blank s.device, "shelly.device must not be empty when shelly is enabled")
    ∷ (s.enabled && is_blank s.endpoint, "shelly.endpoint must not be empty when shelly is enabled")
    ∷ (
      s.enabled && not features.shelly,
      "shelly.enabled = true but this binary was built without the `shelly` Cargo feature",
    )
    ∷ []

-- `is_finite`, lies between -n and n, and lies between 0 and 1.
module _ {F : Type 0} (is_finite : F → Bool) (within : ℕ → F → Bool) (in_unit : F → Bool) where
  abbrev pub out_of_range : ℕ → Option F → Bool
  out_of_range most none = false
  out_of_range most (some degrees) = not (is_finite degrees) || not (within most degrees)

  abbrev pub is_none : Option F → Bool
  is_none none = true
  is_none (some degrees) = false

  abbrev pub weather_checks : Features → Bool → WeatherConfig F → List (Bool × String)
  weather_checks features observability w =
      (
        ltb w.poll_interval_seconds weather_min_poll_interval_seconds,
        "weather.poll_interval_seconds is too small",
      )
      ∷ (
        w.request_timeout_seconds == 0
            || ltb weather_max_request_timeout_seconds w.request_timeout_seconds,
        "weather.request_timeout_seconds is out of range",
      )
      ∷ (out_of_range 90 w.latitude, "weather.latitude must be between -90 and 90")
      ∷ (out_of_range 180 w.longitude, "weather.longitude must be between -180 and 180")
      ∷ (w.enabled && not observability, "weather.enabled requires observability.enabled")
      ∷ (w.enabled && is_none w.latitude, "weather.latitude is required when weather is enabled")
      ∷ (w.enabled && is_none w.longitude, "weather.longitude is required when weather is enabled")
      ∷ (
        w.enabled && not features.weather,
        "weather.enabled = true but this binary was built without the `weather` Cargo feature",
      )
      ∷ []

  -- In the source's order.
  abbrev pub pins : RuntimeConfig F → List ℕ
  pins c =
      (c.gpio.hook ∷ c.gpio.rotary_pulse ∷ c.gpio.rotary_read ∷ [])
      ++ (pins_if c.power_button.enabled (c.gpio.power_button ∷ [])
          ++ pins_if c.status_led.enabled
              (c.status_led.red ∷ c.status_led.green ∷ c.status_led.blue ∷ []))

  abbrev pub first_checks : RuntimeConfig F → List (Bool × String)
  first_checks c =
      (is_blank c.operator.base_url, "operator.base_url must not be empty")
      ∷ (c.audio.channels == 0, "audio.channels must be at least 1")
      ∷ (c.audio.sample_rate_hz == 0, "audio.sample_rate_hz must be at least 1")
      ∷ []

  abbrev pub sample_checks : RuntimeConfig F → List (Bool × String)
  sample_checks c =
      (
        c.observability.sample_interval_ms == 0,
        "observability.sample_interval_ms must be greater than 0",
      )
      ∷ []

  abbrev pub last_checks : Features → RuntimeConfig F → List (Bool × String)
  last_checks features c =
      (
        not (length (unique (pins c)) == length (pins c)),
        "gpio pins (including power button / status LED, when enabled) must be unique",
      )
      ∷ (
        c.power_button.enabled && c.power_button.hold_ms == 0,
        "power_button.hold_ms must be greater than 0",
      )
      ∷ (
        c.status_led.enabled && not (in_unit c.status_led.brightness),
        "status_led.brightness must be between 0.0 and 1.0",
      )
      ∷ (
        not features.mock && c.runtime.mock,
        "runtime.mock = true but this binary was built without the `mock` Cargo feature",
      )
      ∷ (
        not features.simulator && c.runtime.simulator,
        "runtime.simulator = true but this binary was built without the `simulator` Cargo feature",
      )
      ∷ []

  -- `none` where it returns `Ok(())`.
  unfoldable pub validate_config : Features → RuntimeConfig F → Option String
  unfolding first_error
  validate_config features c = first_error (
      first_checks c
      ++ (operator_checks c.operator
          ++ (recording_checks c.audio
              ++ (sample_checks c
                  ++ (forward_checks c.observability.operator_forward
                      ++ (shelly_checks features c.observability.enabled c.shelly
                          ++ (weather_checks features c.observability.enabled c.weather
                              ++ last_checks features c)))))))
