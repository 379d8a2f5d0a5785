-- ===== src/Base/Bytes.antt =====
-- Facts about bit operations on bytes, checked over all values.
use mathlib.Core.Bool.{◌&&◌, true, Bool}
use mathlib.Core.Path.{refl, ◌≡◌}
use Prim.Native.Nat.{ℕ, suc, zero, ◌<◌, ◌/◌, ◌^◌, bit_or, bit_and}
use native.Mathlib.Omega.{arith}
use telephone_booth.Base.Tests.{◌==◌}

-- A test passed by every number below a bound, found by evaluation.
unfoldable pub passes : (ℕ → Bool) → ℕ → Bool
passes test zero = true
passes test (suc bound) = passes test bound && test bound

pub passes_each :
    (test : ℕ → Bool) (bound i : ℕ) → i < bound → passes test bound ≡ true → test i ≡ true
unfolding passes
passes_each test zero i below h = absurd (omega arith)
passes_each test (suc bound) i below h = ground (arith, passes_each test bound i)

-- `(b & 0xF0) | code`: the high half of `b` over the low half `code`.
abbrev pub with_low_half : ℕ → ℕ → ℕ
with_low_half b code = bit_or (bit_and b 0xF0) code

abbrev halves_ok : ℕ → ℕ → Bool
halves_ok b code =
    (bit_and (with_low_half b code) 0x0F == code) && (with_low_half b code / 2 ^ 4 == b / 2 ^ 4)

halves_table : passes (λ b. passes (halves_ok b) 16) 256 ≡ true
unfolding passes
halves_table = refl

pub with_low_half_fields :
    (b code : ℕ)
    → b < 256
    → code < 16
    → (bit_and (with_low_half b code) 0x0F ≡ code) × (with_low_half b code / 2 ^ 4 ≡ b / 2 ^ 4)
with_low_half_fields b code h k = ground (
  arith,
  passes_each (halves_ok b) 16 code k
      (passes_each (λ x. passes (halves_ok x) 16) 256 b h halves_table),
)
