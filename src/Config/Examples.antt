-- ===== src/Config/Examples.antt =====
-- crates/booth-bin/src/lib.rs: the default configuration, with degrees and brightness as whole numbers.
use telephone_booth.Base.{ℕ, Bool, true, false, none, ◌≡◌, ◌↔◌, refl, leb}
use telephone_booth.Config.Types.{RuntimeConfig, Features}
use telephone_booth.Config.Validate.{is_blank, unique, validate_config}
use telephone_booth.Config.Accepts.{IsValid, validate_config_iff}

abbrev finite : ℕ → Bool
finite x = true

abbrev at_most : ℕ → ℕ → Bool
at_most most x = leb x most

abbrev in_unit : ℕ → Bool
in_unit x = leb x 1

abbrev features : Features
features = record { shelly = true; weather = true; mock = true; simulator = true }

abbrev default_config : RuntimeConfig ℕ
default_config = record {
  gpio = record { rotary_pulse = 27; rotary_read = 22; hook = 17; power_button = 26 };
  power_button = record { enabled = true; hold_ms = 3000 };
  status_led = record {
    enabled = true;
    red = 5;
    green = 6;
    blue = 13;
    active_low = true;
    brightness = 1;
  };
  audio = record {
    sample_rate_hz = 48000;
    channels = 1;
    max_recording_secs = 60;
    min_recording_secs = 2;
  };
  operator = record {
    base_url = "https://operator.example.com";
    http_timeout_secs = 10;
    ws_reconnect_initial_ms = 500;
    ws_reconnect_max_ms = 30000;
  };
  observability = record {
    enabled = true;
    booth_id = "booth-01";
    sample_interval_ms = 5000;
    operator_forward = record {
      enabled = true;
      batch_max = 200;
      flush_interval_ms = 2000;
      buffer_max = 4096;
      system_push_interval_ms = 5000;
      heartbeat_interval_ms = 30000;
    };
  };
  shelly = record {
    enabled = false;
    device = "plug";
    endpoint = "shelly.local";
    switch_id = 0;
    poll_interval_seconds = 10;
    request_timeout_seconds = 5;
  };
  weather = record {
    enabled = false;
    latitude = none;
    longitude = none;
    poll_interval_seconds = 900;
    request_timeout_seconds = 15;
  };
  runtime = record { mock = false; simulator = false };
}

default_is_accepted : validate_config finite at_most in_unit features default_config ≡ none
unfolding validate_config unique is_blank
default_is_accepted = refl

validate_config_iff_example :
    (validate_config finite at_most in_unit features default_config ≡ none)
    ↔ IsValid finite at_most in_unit features default_config
validate_config_iff_example = validate_config_iff finite at_most in_unit features default_config
