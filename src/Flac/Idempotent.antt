-- ===== src/Flac/Idempotent.antt =====
-- crates/booth-pi/src/flac_frame.rs: a stream of bare frames is rewritten, and a second pass does nothing.
use telephone_booth.Base.{
  ℕ, ◌+◌, ◌-◌, ◌≤◌, ◌<◌, some, List, [], ◌∷◌, ◌++◌, ◌≡◌, sym, ap, ap₂, ◌∙◌, inl, inr, arith, length,
  length-append, All,
}
use telephone_booth.Flac.Header.{sample_rate_code, frame_header_len}
use telephone_booth.Flac.Rewrite.{
  explicit, check_frame, preflight, rewrite_frame, rewrite_frames, rewrite_from,
  rewrite_frame_sample_rates,
}
use telephone_booth.Flac.Frame.{IsRewritten}
use telephone_booth.Flac.Layout.{
  join, lengths, sum, length-join, tally, count_frames-tally, renewed, lengths-renewed,
}
use telephone_booth.Flac.Stream.{
  IsByte, IsBare, AllRewritten, sample_rate_code-small, check_frame-bare,
}
use telephone_booth.Flac.Atomic.{Rewrote, length-lengths, result-cases, rewrite_atomically}

-- A rewritten frame passes the check again, now with its rate explicit.
check_frame-rewritten :
    (f g : List ℕ) (code h : ℕ)
    → 0 < code
    → h + 2 ≤ length f
    → frame_header_len f ≡ some h
    → IsRewritten code h f g
    → check_frame g code ≡ some explicit
unfolding check_frame
check_frame-rewritten f g code h pos room parsed good =
    rw (good.same_header, parsed) (ground (arith, good.same_length, good.rate, good.crc8_good))

tally-renewed :
    (code x : ℕ) (fs : List (List ℕ))
    → 0 < code
    → All (IsBare code) fs
    → AllRewritten code fs
    → tally code 0 x (renewed code fs) ≡ some (0, x + length fs)
unfolding tally
tally-renewed code x [] pos bare good = ap (λ n. some (0, n)) (omega arith)
tally-renewed code x (f ∷ fs) pos bare good =
    let (h, parsed, done) = good.0 in
    let (h', parsed', room, _) = check_frame-bare f code bare.0 in
    let same : h' ≡ h = ground arith in
    rw
      (
        check_frame-rewritten f (rewrite_frame f code).1 code h pos (omega (arith, same)) parsed
            done,
        tally,
      )
      (tally-renewed code (x + 1) fs pos bare.1 good.1 ∙ ap (λ n. some (0, n)) (omega arith))

rewrite_from-renewed :
    (p : List ℕ) (fs : List (List ℕ)) (code : ℕ)
    → 0 < code
    → All (IsBare code) fs
    → AllRewritten code fs
    → let out = p ++ join (renewed code fs) in
      rewrite_from out (lengths (renewed code fs)) code (length p) ≡ (out, 0)
unfolding rewrite_from preflight rewrite_frames
rewrite_from-renewed p [] code pos bare good =
    ground (arith, count_frames-tally p [] code 0 0, tally-renewed code 0 [])
rewrite_from-renewed p (f ∷ fs) code pos bare good = ground (
  arith,
  count_frames-tally p (renewed code (f ∷ fs)) code 0 0,
  tally-renewed code 0 (f ∷ fs) pos bare good,
  length-lengths (renewed code (f ∷ fs)),
)

-- On a stream of bytes a second pass with the same lengths and rate leaves the stream as the first pass left it, and
-- reports that it rewrote nothing.
pub rewrite_twice :
    (usize_limit : ℕ) (encoded lens : List ℕ) (rate_hz : ℕ)
    → All IsByte encoded
    → let once = (rewrite_frame_sample_rates usize_limit encoded lens rate_hz).0 in
      rewrite_frame_sample_rates usize_limit once lens rate_hz ≡ (once, 0)
rewrite_twice limit encoded lens rate_hz bytes =
    elim (rewrite_atomically limit encoded lens rate_hz bytes) [
      | inl same ↦ cc
      | inr (code, known, done) ↦ rw (ap (λ r. r.0) done.gives) (again code known done)
    ]
  where
    first_call : List ℕ × ℕ
    first_call = rewrite_frame_sample_rates limit encoded lens rate_hz

    again :
        (code : ℕ)
        → sample_rate_code rate_hz ≡ some code
        → (done : Rewrote code encoded lens first_call)
        → let out = done.prefix ++ join (renewed code done.frames) in
          rewrite_frame_sample_rates limit out lens rate_hz ≡ (out, 0)
    again code known done = elim (result-cases limit out lens rate_hz) [
      | inl same ↦ same
      | inr (code', known', fits, e) ↦
          e
          ∙ ap₂ (λ c n. rewrite_from out lens c n) (agree code' known') start
          ∙ ap (λ l. rewrite_from out l code (length done.prefix)) lens-out
          ∙ rewrite_from-renewed done.prefix done.frames code
              (sample_rate_code-small rate_hz code known).0 done.bare done.good
    ]
      where
        out : List ℕ
        out = done.prefix ++ join (renewed code done.frames)

        lens-out : lens ≡ lengths (renewed code done.frames)
        lens-out = done.cut ∙ sym (lengths-renewed code done.frames)

        agree : (code' : ℕ) → sample_rate_code rate_hz ≡ some code' → code' ≡ code
        agree code' known' = ground arith

        start : length out - sum lens ≡ length done.prefix
        start = omega (
          arith,
          length-append done.prefix (join (renewed code done.frames)),
          length-join (renewed code done.frames),
          ap sum lens-out,
        )
