-- ===== src/Config/Accepts.antt =====
-- crates/booth-bin/src/lib.rs: which configurations `validate_config` accepts.
use telephone_booth.Base.{
  ℕ, ◌≤◌, Bool, true, false, Option, none, some, ◌++◌, length, ==_iff, ◌≡◌, ◌↔◌, refl, arith,
}
use telephone_booth.Config.Types.{WeatherConfig, RuntimeConfig, Features}
use telephone_booth.Config.Validate.{
  is_blank, unique, operator_checks, recording_checks, forward_checks, shelly_checks, out_of_range,
  is_none, weather_checks, pins, first_checks, sample_checks, last_checks, validate_config,
}
use telephone_booth.Config.Distinct.{AreDistinct, unique-length_iff}
use telephone_booth.Config.Sections.{
  Passes, first_error_iff, Passes-append_iff, OperatorIsValid, RecordingIsValid, ForwardIsValid,
  ShellyIsValid, operator_iff, recording_iff, forward_iff, shelly_iff,
}

module _ {F : Type 0} (is_finite : F → Bool) (within : ℕ → F → Bool) (in_unit : F → Bool) where
  -- A coordinate that is given is finite and within its bounds.
  abbrev pub InRange : ℕ → Option F → Type 0
  InRange most none = Unit
  InRange most (some degrees) = (is_finite degrees ≡ true) × (within most degrees ≡ true)

  abbrev pub IsGiven : Option F → Type 0
  IsGiven none = ⊥
  IsGiven (some degrees) = Unit

  pub record WeatherIsValid (features : Features) (observability : Bool) (w : WeatherConfig F)
      : Type 0 where
    pub interval : 60 ≤ w.poll_interval_seconds
    pub timeout : (1 ≤ w.request_timeout_seconds) × w.request_timeout_seconds ≤ 60
    pub latitude : InRange 90 w.latitude
    pub longitude : InRange 180 w.longitude
    pub enabled :
        w.enabled ≡ true
        → (observability ≡ true)
          × IsGiven w.latitude
          × IsGiven w.longitude
          × (features.weather ≡ true)

  pub record IsValid (features : Features) (c : RuntimeConfig F) : Type 0 where
    pub base_url : is_blank c.operator.base_url ≡ false
    pub channels : 1 ≤ c.audio.channels
    pub sample_rate : 1 ≤ c.audio.sample_rate_hz
    pub operator : OperatorIsValid c.operator
    pub recording : RecordingIsValid c.audio
    pub samples : 1 ≤ c.observability.sample_interval_ms
    pub forward : ForwardIsValid c.observability.operator_forward
    pub shelly : ShellyIsValid features c.observability.enabled c.shelly
    pub weather : WeatherIsValid features c.observability.enabled c.weather
    -- the pins that are in use
    pub distinct : AreDistinct (pins is_finite within in_unit c)
    pub hold : c.power_button.enabled ≡ true → 1 ≤ c.power_button.hold_ms
    pub brightness : c.status_led.enabled ≡ true → in_unit c.status_led.brightness ≡ true
    pub mock : c.runtime.mock ≡ true → features.mock ≡ true
    pub simulator : c.runtime.simulator ≡ true → features.simulator ≡ true

  out_of_range_iff :
      (most : ℕ) (o : Option F)
      → (out_of_range is_finite within in_unit most o ≡ false) ↔ InRange most o
  out_of_range_iff most none = (λ h. _, λ h. refl)
  out_of_range_iff most (some degrees) = ground arith

  is_none_iff : (o : Option F) → (is_none is_finite within in_unit o ≡ false) ↔ IsGiven o
  is_none_iff none = (λ h. cc, λ h. elim h [ ])
  is_none_iff (some degrees) = (λ h. _, λ h. refl)

  weather_iff :
      (features : Features) (observability : Bool) (w : WeatherConfig F)
      → Passes (weather_checks is_finite within in_unit features observability w)
        ↔ WeatherIsValid features observability w
  weather_iff features observability w = ground (
    arith,
    out_of_range_iff 90 w.latitude,
    out_of_range_iff 180 w.longitude,
    is_none_iff w.latitude,
    is_none_iff w.longitude,
  )

  -- The parts of the last checks.
  LastIsValid : Features → RuntimeConfig F → Type 0
  LastIsValid features c =
      AreDistinct (pins is_finite within in_unit c)
      × (c.power_button.enabled ≡ true → 1 ≤ c.power_button.hold_ms)
      × (c.status_led.enabled ≡ true → in_unit c.status_led.brightness ≡ true)
      × (c.runtime.mock ≡ true → features.mock ≡ true)
      × (c.runtime.simulator ≡ true → features.simulator ≡ true)

  last_iff :
      (features : Features) (c : RuntimeConfig F)
      → Passes (last_checks is_finite within in_unit features c) ↔ LastIsValid features c
  unfolding LastIsValid
  last_iff features c =
      let ps = pins is_finite within in_unit c in
      let same = ==_iff (length (unique ps)) (length ps) in
      let distinct = unique-length_iff ps in
      (
        λ h. (
          distinct.0 (same.0 (ground (arith, h.0))),
          ground (arith, h.1),
          ground (arith, h.1),
          ground (arith, h.1),
          ground (arith, h.1),
        ),
        λ h.
            let equal = same.1 (distinct.1 h.0) in
            (
              ground (arith, equal),
              (
                ground (arith, h.1),
                (ground (arith, h.1), (ground (arith, h.1), (ground (arith, h.1), _))),
              ),
            ),
      )

  -- `validate_config` accepts a configuration exactly if it is valid: every bound of its sections holds,
  -- what is enabled is described and was built in, and no two pins in use are the same.
  pub validate_config_iff :
      (features : Features) (c : RuntimeConfig F)
      → (validate_config is_finite within in_unit features c ≡ none) ↔ IsValid features c
  unfolding validate_config LastIsValid
  validate_config_iff features c =
      let observed = c.observability.enabled in
      let a = first_checks is_finite within in_unit c in
      let b = operator_checks c.operator in
      let d = recording_checks c.audio in
      let e = sample_checks is_finite within in_unit c in
      let f = forward_checks c.observability.operator_forward in
      let g = shelly_checks features observed c.shelly in
      let k = weather_checks is_finite within in_unit features observed c.weather in
      let l = last_checks is_finite within in_unit features c in
      let all = first_error_iff (a ++ (b ++ (d ++ (e ++ (f ++ (g ++ (k ++ l))))))) in
      let ab = Passes-append_iff a (b ++ (d ++ (e ++ (f ++ (g ++ (k ++ l)))))) in
      let bd = Passes-append_iff b (d ++ (e ++ (f ++ (g ++ (k ++ l))))) in
      let de = Passes-append_iff d (e ++ (f ++ (g ++ (k ++ l)))) in
      let ef = Passes-append_iff e (f ++ (g ++ (k ++ l))) in
      let fg = Passes-append_iff f (g ++ (k ++ l)) in
      let gk = Passes-append_iff g (k ++ l) in
      let kl = Passes-append_iff k l in
      (
        λ h.
            let (first, h1) = ab.0 (all.0 h) in
            let (operator, h2) = bd.0 h1 in
            let (recording, h3) = de.0 h2 in
            let (samples, h4) = ef.0 h3 in
            let (forward, h5) = fg.0 h4 in
            let (shelly, h6) = gk.0 h5 in
            let (weather, last) = kl.0 h6 in
            let (distinct, hold, brightness, mock, simulator) = (last_iff features c).0 last in
            record {
              base_url = first.0;
              channels = ground (arith, first.1.0);
              sample_rate = ground (arith, first.1.1.0);
              operator = (operator_iff c.operator).0 operator;
              recording = (recording_iff c.audio).0 recording;
              samples = ground (arith, samples.0);
              forward = (forward_iff c.observability.operator_forward).0 forward;
              shelly = (shelly_iff features observed c.shelly).0 shelly;
              weather = (weather_iff features observed c.weather).0 weather;
              distinct = distinct;
              hold = hold;
              brightness = brightness;
              mock = mock;
              simulator = simulator;
            },
        λ v. all.1 (
            ab.1 (
              (v.base_url, (ground (arith, v.channels), (ground (arith, v.sample_rate), _))),
              bd.1 (
                (operator_iff c.operator).1 v.operator,
                de.1 (
                  (recording_iff c.audio).1 v.recording,
                  ef.1 (
                    (ground (arith, v.samples), _),
                    fg.1 (
                      (forward_iff c.observability.operator_forward).1 v.forward,
                      gk.1 (
                        (shelly_iff features observed c.shelly).1 v.shelly,
                        kl.1 (
                          (weather_iff features observed c.weather).1 v.weather,
                          (last_iff features c).1
                              (v.distinct, v.hold, v.brightness, v.mock, v.simulator),
                        ),
                      ),
                    ),
                  ),
                ),
              ),
            )),
      )
