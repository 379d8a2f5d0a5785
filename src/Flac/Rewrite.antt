-- ===== src/Flac/Rewrite.antt =====
-- crates/booth-pi/src/flac_frame.rs: the pre-flight check and the rewrite. A `&mut [u8]` is a list that
-- is returned. The largest `usize` is below the parameter `usize_limit`. Warnings are not modelled.
use Prim.Native.Nat.{bit_and, bit_or}
use telephone_booth.Base.{
  ℕ, ◌+◌, ◌-◌, ◌/◌, ◌%◌, ◌^◌, Bool, true, false, not, ◌||◌, ◌&&◌, Option, none, some, List, [], ◌∷◌,
  ◌++◌, ◌==◌, ltb, leb, if◌then◌else◌, set, take, drop, length, ◌>>=◌,
}
use telephone_booth.Flac.Crc.{crc8, crc16}
use telephone_booth.Flac.Header.{sample_rate_code, frame_header_len, byte, frame_footer_len}

pub data Preflight : Type 0 where
  rewritable already_explicit ineligible : Preflight

-- `encoded.get(start..end)`.
abbrev pub slice : List ℕ → ℕ → ℕ → Option (List ℕ)
slice bytes start end =
    if leb start end && leb end (length bytes)
    then some (take (end - start) (drop start bytes))
    else none

pub data RateField : Type 0 where
  unspecified explicit : RateField

-- One round of the check: does the frame parse, and what does it say of its rate?
unfoldable pub check_frame : List ℕ → ℕ → Option RateField
check_frame frame code = do
  header_len ← frame_header_len frame
  (if ltb (length frame) (header_len + frame_footer_len)
        || not (byte frame (header_len - 1) == crc8 (take (header_len - 1) frame))
      then none
      else if bit_and (byte frame 2) 0x0F == 0
      then some unspecified
      else if bit_and (byte frame 2) 0x0F == code
      then some explicit
      else none)

-- The loop of `preflight`: the two counts, or `none` at the first frame that is not one.
unfoldable pub count_frames : List ℕ → ℕ → ℕ → ℕ → ℕ → List ℕ → Option (ℕ × ℕ)
count_frames encoded code offset unspec expl [] = some (unspec, expl)
count_frames encoded code offset unspec expl (len ∷ lens) =
    elim (slice encoded offset (offset + len)) [
      | none ↦ none
      | some frame ↦ elim (check_frame frame code) [
        | none ↦ none
        | some unspecified ↦ count_frames encoded code (offset + len) (unspec + 1) expl lens
        | some explicit ↦ count_frames encoded code (offset + len) unspec (expl + 1) lens
      ]
    ]

unfoldable pub preflight : List ℕ → ℕ → List ℕ → ℕ → Preflight
preflight encoded first_frame frame_lengths code =
    elim (count_frames encoded code first_frame 0 0 frame_lengths) [
      | none ↦ ineligible
      | some (unspec, expl) ↦
          if unspec == length frame_lengths
          then rewritable
          else if expl == length frame_lengths
          then already_explicit
          else ineligible
    ]

-- The writes of `rewrite_frame`, in order: the rate field, the CRC-8, the CRC-16.
unfoldable pub set_rate : List ℕ → ℕ → List ℕ
set_rate frame code = set frame 2 (bit_or (bit_and (byte frame 2) 0xF0) code)

unfoldable pub fix_crc8 : List ℕ → ℕ → List ℕ
fix_crc8 frame crc8_index = set frame crc8_index (crc8 (take crc8_index frame))

unfoldable pub fix_crc16 : List ℕ → List ℕ
fix_crc16 frame =
    let footer_index = length frame - frame_footer_len in
    let checksum = crc16 (take footer_index frame) in
    take footer_index frame ++ (checksum / 2 ^ 8) ∷ (checksum % 2 ^ 8) ∷ []

unfoldable pub rewrite_frame : List ℕ → ℕ → Bool × List ℕ
unfolding set_rate fix_crc8 fix_crc16
rewrite_frame frame code = elim (frame_header_len frame) [
  | none ↦ (false, frame)
  | some header_len ↦
      if not (bit_and (byte frame 2) 0x0F == 0)
        || ltb (length frame) (header_len + frame_footer_len)
      then (false, frame)
      else (true, fix_crc16 (fix_crc8 (set_rate frame code) (header_len - 1)))
]

-- Writing a frame back through `get_mut`.
unfoldable pub splice : List ℕ → ℕ → ℕ → List ℕ → List ℕ
splice encoded offset len frame = take offset encoded ++ (frame ++ drop (offset + len) encoded)

abbrev pub add_if : Bool → ℕ → ℕ
add_if true n = n + 1
add_if false n = n

-- The loop that rewrites, with its count.
unfoldable pub rewrite_frames : List ℕ → ℕ → ℕ → ℕ → List ℕ → List ℕ × ℕ
rewrite_frames encoded code offset rewritten [] = (encoded, rewritten)
rewrite_frames encoded code offset rewritten (len ∷ lens) =
    elim (slice encoded offset (offset + len)) [
      | none ↦ (encoded, rewritten)
      | some frame ↦
          let (written, frame') = rewrite_frame frame code in
          rewrite_frames (splice encoded offset len frame') code (offset + len)
            (add_if written rewritten) lens
    ]

-- `try_fold` of `checked_add`.
unfoldable pub checked_sum : ℕ → ℕ → List ℕ → Option ℕ
checked_sum usize_limit acc [] = some acc
checked_sum usize_limit acc (len ∷ lens) = elim (ltb (acc + len) usize_limit) [
  | true ↦ checked_sum usize_limit (acc + len) lens
  | false ↦ none
]

-- "fLaC".
unfoldable pub has_magic : List ℕ → Bool
has_magic (a ∷ b ∷ c ∷ d ∷ bytes) = a == 0x66 && b == 0x4C && c == 0x61 && d == 0x43
has_magic _ = false

abbrev pub checked_sub : ℕ → ℕ → Option ℕ
checked_sub a b = if leb b a then some (a - b) else none

abbrev pub unless_rewritable : Preflight → List ℕ × ℕ → List ℕ → List ℕ × ℕ
unless_rewritable rewritable result encoded = result
unless_rewritable already_explicit result encoded = (encoded, 0)
unless_rewritable ineligible result encoded = (encoded, 0)

-- What follows once the code, the sum and the first frame are known.
unfoldable pub rewrite_from : List ℕ → List ℕ → ℕ → ℕ → List ℕ × ℕ
rewrite_from encoded frame_lengths code first_frame =
    if not (has_magic encoded)
    then (encoded, 0)
    else unless_rewritable (preflight encoded first_frame frame_lengths code)
        (rewrite_frames encoded code first_frame 0 frame_lengths) encoded

unfoldable pub rewrite_frame_sample_rates : ℕ → List ℕ → List ℕ → ℕ → List ℕ × ℕ
rewrite_frame_sample_rates usize_limit encoded frame_lengths rate_hz =
    elim (sample_rate_code rate_hz) [
      | none ↦ (encoded, 0)
      | some code ↦ elim (checked_sum usize_limit 0 frame_lengths) [
        | none ↦ (encoded, 0)
        | some total ↦ elim (checked_sub (length encoded) total) [
          | none ↦ (encoded, 0)
          | some first_frame ↦ rewrite_from encoded frame_lengths code first_frame
        ]
      ]
    ]
