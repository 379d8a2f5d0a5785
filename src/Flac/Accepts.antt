-- ===== src/Flac/Accepts.antt =====
-- crates/booth-pi/src/flac_frame.rs: a stream of bare frames is rewritten.
use telephone_booth.Base.{
  ℕ, ◌+◌, ◌-◌, ◌≤◌, ◌<◌, true, some, List, [], ◌∷◌, ◌++◌, ◌≡◌, ap, ◌∙◌, arith, length,
  length-append, All,
}
use telephone_booth.Flac.Header.{sample_rate_code}
use telephone_booth.Flac.Rewrite.{
  preflight, checked_sum, has_magic, rewrite_from, rewrite_frame_sample_rates,
}
use telephone_booth.Flac.Layout.{
  join, lengths, sum, length-join, tally, count_frames-tally, renewed, written,
  rewrite_frames-renewed,
}
use telephone_booth.Flac.Stream.{IsByte, IsBare, sample_rate_code-small, written-bare}
use telephone_booth.Flac.Atomic.{length-lengths, result-fits}

checked_sum-fits :
    (limit acc : ℕ) (lens : List ℕ)
    → acc + sum lens < limit
    → checked_sum limit acc lens ≡ some (acc + sum lens)
unfolding checked_sum
checked_sum-fits limit acc [] h = ap some (omega arith)
checked_sum-fits limit acc (len ∷ lens) h = ground (arith, checked_sum-fits limit (acc + len) lens)

tally-bare_frames :
    (code u : ℕ) (fs : List (List ℕ))
    → All (IsBare code) fs
    → tally code u 0 fs ≡ some (u + length fs, 0)
unfolding tally
tally-bare_frames code u [] h = ap (λ n. some (n, 0)) (omega arith)
tally-bare_frames code u (f ∷ fs) h =
    rw (h.0, tally) (tally-bare_frames code (u + 1) fs h.1 ∙ ap (λ n. some (n, 0)) (omega arith))

rewrite_from-bare :
    (p : List ℕ) (fs : List (List ℕ)) (code : ℕ)
    → has_magic (p ++ join fs) ≡ true
    → All (IsBare code) fs
    → rewrite_from (p ++ join fs) (lengths fs) code (length p)
      ≡ (p ++ join (renewed code fs), written code 0 fs)
unfolding rewrite_from preflight
rewrite_from-bare p fs code magic bare = ground (
  arith,
  count_frames-tally p fs code 0 0,
  tally-bare_frames code 0 fs bare,
  length-lengths fs,
  rewrite_frames-renewed p fs code 0,
)

-- A stream of a prefix and frames of bytes, with the magic number, whose lengths do not overflow, whose rate has a code and whose
-- frames all parse, have a right CRC-8 and leave their rate open, is rewritten: behind the same
-- prefix stand all its frames in their new form, and the count is their number.
pub rewrite_succeeds :
    (usize_limit : ℕ) (p : List ℕ) (fs : List (List ℕ)) (rate_hz code : ℕ)
    → sample_rate_code rate_hz ≡ some code
    → sum (lengths fs) < usize_limit
    → has_magic (p ++ join fs) ≡ true
    → All (All IsByte) fs
    → All (IsBare code) fs
    → rewrite_frame_sample_rates usize_limit (p ++ join fs) (lengths fs) rate_hz
      ≡ (p ++ join (renewed code fs), length fs)
rewrite_succeeds limit p fs rate_hz code known small magic bytes bare =
    result-fits limit (p ++ join fs) (lengths fs) rate_hz code known total room
    ∙ ap (rewrite_from (p ++ join fs) (lengths fs) code) start
    ∙ rewrite_from-bare p fs code magic bare
    ∙ ap (λ n. (p ++ join (renewed code fs), n)) count
  where
    whole : length (p ++ join fs) ≡ length p + sum (lengths fs)
    whole = omega (arith, length-append p (join fs), length-join fs)

    room : sum (lengths fs) ≤ length (p ++ join fs)
    room = omega (arith, whole)

    start : length (p ++ join fs) - sum (lengths fs) ≡ length p
    start = omega (arith, whole)

    total : checked_sum limit 0 (lengths fs) ≡ some (sum (lengths fs))
    total = checked_sum-fits limit 0 (lengths fs) (omega arith) ∙ ap some (omega arith)

    count : written code 0 fs ≡ length fs
    count =
        omega (
          arith,
          (written-bare code 0 fs (sample_rate_code-small rate_hz code known).1 bytes bare).0,
        )
