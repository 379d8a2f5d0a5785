-- ===== src/Flac/Header.antt =====
-- crates/booth-pi/src/flac_frame.rs: what a frame header says of its own length and sample rate.
use Prim.Native.Nat.{bit_and}
use telephone_booth.Base.{
  ℕ, ◌+◌, ◌/◌, ◌^◌, Bool, not, ◌||◌, ◌&&◌, Option, none, some, List, ◌==◌, ltb, leb, if◌then◌else◌,
  get_or, length, ◌>>=◌,
}

abbrev pub frame_header_prefix_len : ℕ
frame_header_prefix_len = 4

abbrev pub frame_footer_len : ℕ
frame_footer_len = 2

unfoldable pub sample_rate_code : ℕ → Option ℕ
sample_rate_code rate_hz =
    if rate_hz == 88_200
    then some 1
    else if rate_hz == 176_400
    then some 2
    else if rate_hz == 192_000
    then some 3
    else if rate_hz == 8_000
    then some 4
    else if rate_hz == 16_000
    then some 5
    else if rate_hz == 22_050
    then some 6
    else if rate_hz == 24_000
    then some 7
    else if rate_hz == 32_000
    then some 8
    else if rate_hz == 44_100
    then some 9
    else if rate_hz == 48_000
    then some 10
    else if rate_hz == 96_000
    then some 11
    else none

abbrev pub within : ℕ → ℕ → ℕ → Bool
within lo hi n = leb lo n && leb n hi

unfoldable pub utf8_coded_number_len : ℕ → Option ℕ
utf8_coded_number_len lead =
    if within 0x00 0x7F lead
    then some 1
    else if within 0xC0 0xDF lead
    then some 2
    else if within 0xE0 0xEF lead
    then some 3
    else if within 0xF0 0xF7 lead
    then some 4
    else if within 0xF8 0xFB lead
    then some 5
    else if within 0xFC 0xFD lead
    then some 6
    else if lead == 0xFE
    then some 7
    else none

-- The byte at an index; it is read only below the length.
abbrev pub byte : List ℕ → ℕ → ℕ
byte frame i = get_or frame i 0

-- Block-size codes 6 and 7 append one byte and two.
unfoldable pub block_size_len : ℕ → ℕ
block_size_len size_and_rate =
    if size_and_rate / 2 ^ 4 == 6 then 1 else if size_and_rate / 2 ^ 4 == 7 then 2 else 0

-- Sample-rate codes 12 to 14 append one byte or two, and 15 is invalid.
unfoldable pub sample_rate_len : ℕ → Option ℕ
sample_rate_len size_and_rate =
    if bit_and size_and_rate 0x0F == 12
    then some 1
    else if within 13 14 (bit_and size_and_rate 0x0F)
    then some 2
    else if bit_and size_and_rate 0x0F == 15
    then none
    else some 0

unfoldable pub has_sync_code : List ℕ → Bool
has_sync_code frame = byte frame 0 == 0xFF && bit_and (byte frame 1) 0xFC == 0xF8

unfoldable pub frame_header_len : List ℕ → Option ℕ
unfolding utf8_coded_number_len block_size_len sample_rate_len has_sync_code
frame_header_len frame =
    if ltb (length frame) (frame_header_prefix_len + 2) || not (has_sync_code frame)
    then none
    else do
      coded_number_len ← utf8_coded_number_len (byte frame frame_header_prefix_len)
      rate_len ← sample_rate_len (byte frame 2)
      some (
          frame_header_prefix_len + coded_number_len + block_size_len (byte frame 2) + rate_len + 1)
