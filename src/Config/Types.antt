-- ===== src/Config/Types.antt =====
-- The configuration: crates/booth-bin/src/lib.rs, observability.rs, shelly.rs and weather.rs,
-- crates/booth-pi/src/lib.rs. Floating-point numbers are of a type `F`; of `AudioConfig`, `GpioConfig` and
-- `OperatorConfig` the fields that are not validated are left out, and so are the debug surface,
-- logging and the token.
use telephone_booth.Base.{ℕ, Bool, String, Option}

pub record GpioConfig : Type 0 where
  pub rotary_pulse : ℕ
  pub rotary_read : ℕ
  pub hook : ℕ
  pub power_button : ℕ

pub record PowerButtonConfig : Type 0 where
  pub enabled : Bool
  pub hold_ms : ℕ

pub record StatusLedConfig (F : Type 0) : Type 0 where
  pub enabled : Bool
  pub red : ℕ
  pub green : ℕ
  pub blue : ℕ
  pub active_low : Bool
  pub brightness : F

pub record AudioConfig : Type 0 where
  pub sample_rate_hz : ℕ
  pub channels : ℕ
  pub max_recording_secs : ℕ
  pub min_recording_secs : ℕ

pub record OperatorConfig : Type 0 where
  pub base_url : String
  pub http_timeout_secs : ℕ
  pub ws_reconnect_initial_ms : ℕ
  pub ws_reconnect_max_ms : ℕ

pub record OperatorForwardConfig : Type 0 where
  pub enabled : Bool
  pub batch_max : ℕ
  pub flush_interval_ms : ℕ
  pub buffer_max : ℕ
  pub system_push_interval_ms : ℕ
  pub heartbeat_interval_ms : ℕ

pub record ObservabilityConfig : Type 0 where
  pub enabled : Bool
  pub booth_id : String
  pub sample_interval_ms : ℕ
  pub operator_forward : OperatorForwardConfig

pub record ShellyConfig : Type 0 where
  pub enabled : Bool
  pub device : String
  pub endpoint : String
  pub switch_id : ℕ
  pub poll_interval_seconds : ℕ
  pub request_timeout_seconds : ℕ

pub record WeatherConfig (F : Type 0) : Type 0 where
  pub enabled : Bool
  pub latitude : Option F
  pub longitude : Option F
  pub poll_interval_seconds : ℕ
  pub request_timeout_seconds : ℕ

pub record RuntimeStartupConfig : Type 0 where
  pub mock : Bool
  pub simulator : Bool

pub record RuntimeConfig (F : Type 0) : Type 0 where
  pub gpio : GpioConfig
  pub power_button : PowerButtonConfig
  pub status_led : StatusLedConfig F
  pub audio : AudioConfig
  pub operator : OperatorConfig
  pub observability : ObservabilityConfig
  pub shelly : ShellyConfig
  pub weather : WeatherConfig F
  pub runtime : RuntimeStartupConfig

-- The Cargo features of the build.
pub record Features : Type 0 where
  pub shelly : Bool
  pub weather : Bool
  pub mock : Bool
  pub simulator : Bool
