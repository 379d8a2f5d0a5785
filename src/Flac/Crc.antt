-- ===== src/Flac/Crc.antt =====
-- crates/booth-pi/src/flac_frame.rs: the two table-driven checksums. A `u8` is a number below 2 ^ 8,
-- a `u16` one below 2 ^ 16; a shift to the left drops what leaves the word.
use Prim.Native.Nat.{bit_and, bit_xor}
use mathlib.Core.List.{foldl}
use telephone_booth.Base.{
  ℕ, zero, suc, ◌+◌, ◌*◌, ◌/◌, ◌%◌, ◌^◌, List, [], ◌∷◌, ◌≡◌, refl, ◌==◌, if◌then◌else◌, get_or,
}

abbrev pub crc8_poly : ℕ
crc8_poly = 0x07

abbrev pub crc16_poly : ℕ
crc16_poly = 0x8005

-- `crc << 1` in a `u8` and in a `u16`.
abbrev pub shl8 : ℕ → ℕ
shl8 crc = crc * 2 % 2 ^ 8

abbrev pub shl16 : ℕ → ℕ
shl16 crc = crc * 2 % 2 ^ 16

-- One round of the inner loop.
unfoldable pub crc8_bit : ℕ → ℕ
crc8_bit crc = if bit_and crc 0x80 == 0 then shl8 crc else bit_xor (shl8 crc) crc8_poly

unfoldable pub crc16_bit : ℕ → ℕ
crc16_bit crc = if bit_and crc 0x8000 == 0 then shl16 crc else bit_xor (shl16 crc) crc16_poly

-- `while bit < 8`, by the rounds left.
unfoldable pub crc8_bits : ℕ → ℕ → ℕ
unfolding crc8_bit
crc8_bits zero crc = crc
crc8_bits (suc n) crc = crc8_bits n (crc8_bit crc)

unfoldable pub crc16_bits : ℕ → ℕ → ℕ
unfolding crc16_bit
crc16_bits zero crc = crc
crc16_bits (suc n) crc = crc16_bits n (crc16_bit crc)

-- `while i < 256`, by the entries left: the table's entries from `i` on.
unfoldable pub crc8_entries : ℕ → ℕ → List ℕ
unfolding crc8_bits
crc8_entries zero i = []
crc8_entries (suc n) i = crc8_bits 8 (i % 2 ^ 8) ∷ crc8_entries n (i + 1)

unfoldable pub crc16_entries : ℕ → ℕ → List ℕ
unfolding crc16_bits
crc16_entries zero i = []
crc16_entries (suc n) i = crc16_bits 8 (i * 2 ^ 8 % 2 ^ 16) ∷ crc16_entries n (i + 1)

unfoldable pub crc8_table : List ℕ
unfolding crc8_entries
crc8_table = crc8_entries 256 0

unfoldable pub crc16_table : List ℕ
unfolding crc16_entries
crc16_table = crc16_entries 256 0

-- The index is a `u8`, so that the default is never read.
unfoldable pub crc8_step : ℕ → ℕ → ℕ
unfolding crc8_table
crc8_step crc byte = get_or crc8_table (bit_xor crc byte) 0

unfoldable pub crc16_step : ℕ → ℕ → ℕ
unfolding crc16_table
crc16_step crc byte =
    bit_xor (crc * 2 ^ 8 % 2 ^ 16) (get_or crc16_table (bit_xor (crc / 2 ^ 8 % 2 ^ 8) byte) 0)

unfoldable pub crc8 : List ℕ → ℕ
unfolding crc8_step
crc8 = foldl crc8_step 0

unfoldable pub crc16 : List ℕ → ℕ
unfolding crc16_step
crc16 = foldl crc16_step 0

abbrev digits_text : List ℕ
digits_text = 0x31 ∷ 0x32 ∷ 0x33 ∷ 0x34 ∷ 0x35 ∷ 0x36 ∷ 0x37 ∷ 0x38 ∷ 0x39 ∷ []

-- The reference vectors of the tests.
crc8_vector : crc8 digits_text ≡ 0xF4
unfolding crc8
crc8_vector = refl

crc16_vector : crc16 digits_text ≡ 0xFEE8
unfolding crc16
crc16_vector = refl
