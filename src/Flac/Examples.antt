-- ===== src/Flac/Examples.antt =====
-- crates/booth-pi/src/flac_frame.rs: the frame of the tests, alone and in a stream of two.
use telephone_booth.Base.{ℕ, ◌^◌, true, List, [], ◌∷◌, ◌++◌, ◌≡◌, refl, ◌⊎◌, some, arith}
use telephone_booth.Flac.Crc.{crc8, crc16}
use telephone_booth.Flac.Header.{sample_rate_code, frame_header_len}
use telephone_booth.Flac.Rewrite.{
  check_frame, rewrite_frame, rewrite_frame_sample_rates, has_magic, checked_sum, rewrite_from,
  preflight, count_frames, rewrite_frames, splice,
}
use telephone_booth.Flac.Layout.{join, renewed}
use telephone_booth.Flac.Stream.{IsBare}
use telephone_booth.Flac.Atomic.{Rewrote, rewrite_atomically}
use telephone_booth.Flac.Idempotent.{rewrite_twice}
use telephone_booth.Flac.Accepts.{rewrite_succeeds}

abbrev frame : List ℕ
frame = 0xFF ∷ 0xF8 ∷ 0xC0 ∷ 0x08 ∷ 0x00 ∷ 0xAF ∷ 0xAB ∷ 0xD3 ∷ 0xF6 ∷ []

abbrev frame_48k : List ℕ
frame_48k = 0xFF ∷ 0xF8 ∷ 0xCA ∷ 0x08 ∷ 0x00 ∷ 0x28 ∷ 0xAB ∷ 0xC2 ∷ 0xCC ∷ []

abbrev magic : List ℕ
magic = 0x66 ∷ 0x4C ∷ 0x61 ∷ 0x43 ∷ []

abbrev stream : List ℕ
stream = magic ++ join (frame ∷ frame ∷ [])

frame_parses : frame_header_len frame ≡ some 6
unfolding frame_header_len
frame_parses = refl

frame-IsBare : IsBare 10 frame
unfolding check_frame frame_header_len crc8
frame-IsBare = refl

frame_becomes : rewrite_frame frame 10 ≡ (true, frame_48k)
unfolding rewrite_frame frame_header_len crc8 crc16
frame_becomes = refl

stream_becomes :
    rewrite_frame_sample_rates (2 ^ 64) stream (9 ∷ 9 ∷ []) 48_000
    ≡ (magic ++ join (frame_48k ∷ frame_48k ∷ []), 2)
unfolding rewrite_frame_sample_rates sample_rate_code checked_sum rewrite_from has_magic preflight
    count_frames check_frame frame_header_len crc8 rewrite_frames rewrite_frame crc16 splice
stream_becomes = refl

rewrite_atomically_example :
    let r = rewrite_frame_sample_rates (2 ^ 64) stream (9 ∷ 9 ∷ []) 48_000 in
    (r ≡ (stream, 0))
    ⊎ ((code : ℕ) × (sample_rate_code 48_000 ≡ some code) × Rewrote code stream (9 ∷ 9 ∷ []) r)
rewrite_atomically_example = rewrite_atomically (2 ^ 64) stream (9 ∷ 9 ∷ []) 48_000 (omega arith)

rewrite_twice_example :
    let once = (rewrite_frame_sample_rates (2 ^ 64) stream (9 ∷ 9 ∷ []) 48_000).0 in
    rewrite_frame_sample_rates (2 ^ 64) once (9 ∷ 9 ∷ []) 48_000 ≡ (once, 0)
rewrite_twice_example = rewrite_twice (2 ^ 64) stream (9 ∷ 9 ∷ []) 48_000 (omega arith)

rewrite_succeeds_example :
    rewrite_frame_sample_rates (2 ^ 64) stream (9 ∷ 9 ∷ []) 48_000
    ≡ (magic ++ join (renewed 10 (frame ∷ frame ∷ [])), 2)
unfolding sample_rate_code has_magic
rewrite_succeeds_example =
    rewrite_succeeds (2 ^ 64) magic (frame ∷ frame ∷ []) 48_000 10 refl (omega arith) refl
      (omega arith) (frame-IsBare, (frame-IsBare, tt))
