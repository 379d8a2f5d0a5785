-- ===== src/Hal.antt =====
-- crates/booth-hal/src/lib.rs: the vocabulary that the core shares with the adapters.
use telephone_booth.Base.{ℕ, Bool, true, false, String, Option, ◌==◌}

-- Opaque texts that the operator or the audio adapter hands out.
abbrev pub QuestionId : Type 0
QuestionId = String

abbrev pub RecordingId : Type 0
RecordingId = String

pub data LedColour : Type 0 where
  off red green blue : LedColour

-- Brightness is a `u8`; periods and durations are `u32` milliseconds.
pub data LedPattern : Type 0 where
  steady : ℕ → LedPattern
  pulse : ℕ → LedPattern
  blink : ℕ → LedPattern
  fade : ℕ → LedPattern

pub data BuiltinTone : Type 0 where
  dial_tone ringback beep line_busy call_unavailable : BuiltinTone

pub data AudioRef : Type 0 where
  builtin : BuiltinTone → AudioRef
  local_file : String → AudioRef
  remote_url : String → Option String → AudioRef

pub data BoothStatus : Type 0 where
  idle dial_tone playing_question recording uploading playing_message playing_instructions :
      BoothStatus
  call_unavailable : BoothStatus

-- The derived equality of a colour and of a pattern.
abbrev pub colour_eq : LedColour → LedColour → Bool
colour_eq off off = true
colour_eq red red = true
colour_eq green green = true
colour_eq blue blue = true
colour_eq _ _ = false

abbrev pub pattern_eq : LedPattern → LedPattern → Bool
pattern_eq (steady a) (steady b) = a == b
pattern_eq (pulse a) (pulse b) = a == b
pattern_eq (blink a) (blink b) = a == b
pattern_eq (fade a) (fade b) = a == b
pattern_eq _ _ = false

pub data PinRole : Type 0 where
  rotary_pulse rotary_read hook power_button : PinRole

pub record GpioEdge : Type 0 where
  pub role : PinRole
  pub level : Bool
  pub at_monotonic_ns : ℕ
