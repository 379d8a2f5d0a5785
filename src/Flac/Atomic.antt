-- ===== src/Flac/Atomic.antt =====
-- crates/booth-pi/src/flac_frame.rs, `rewrite_frame_sample_rates`: every frame is rewritten, or none.
use telephone_booth.Base.{
  ℕ, suc, ◌+◌, ◌-◌, ◌≤◌, ◌<◌, none, some, List, [], ◌∷◌, ◌++◌, ◌≡◌, refl, sym, ap, ◌∙◌, ◌⊎◌, inl,
  inr, arith, take, drop, length, All, Option-cases,
}
use native.Mathlib.Decide.{dec_le}
use telephone_booth.Base.Slices.{length-take, length-drop, take-append-drop, All-drop, All-take}
use telephone_booth.Flac.Header.{sample_rate_code}
use telephone_booth.Flac.Rewrite.{
  rewritable, preflight, checked_sum, rewrite_from, rewrite_frame_sample_rates,
}
use telephone_booth.Flac.Layout.{
  join, lengths, sum, chop, lengths-chop, join-chop, tally, count_frames-tally, renewed, written,
  rewrite_frames-renewed,
}
use telephone_booth.Flac.Stream.{
  IsByte, IsBare, AllRewritten, sample_rate_code-small, written-bare, tally-IsBare,
}

-- The stream cut into a prefix and frames, and its frames all rewritten.
pub record Rewrote (code : ℕ) (encoded lens : List ℕ) (result : List ℕ × ℕ) : Type 0 where
  pub prefix : List ℕ
  pub frames : List (List ℕ)
  pub whole : encoded ≡ prefix ++ join frames
  pub cut : lens ≡ lengths frames
  pub bare : All (IsBare code) frames
  pub good : AllRewritten code frames
  pub gives : result ≡ (prefix ++ join (renewed code frames), length lens)

pub length-lengths : (fs : List (List ℕ)) → length (lengths fs) ≡ length fs
length-lengths [] = refl
length-lengths (f ∷ fs) = ap suc (length-lengths fs)

checked_sum-eq-sum :
    (limit acc : ℕ) (lens : List ℕ) {total : ℕ}
    → checked_sum limit acc lens ≡ some total
    → total ≡ acc + sum lens
unfolding checked_sum
checked_sum-eq-sum limit acc [] e = ground arith
checked_sum-eq-sum limit acc (len ∷ lens) {total} e =
    ground (arith, checked_sum-eq-sum limit (acc + len) lens {total = total})

chop-bytes : (lens bytes : List ℕ) → All IsByte bytes → All (All IsByte) (chop lens bytes)
unfolding chop
chop-bytes [] bytes h = tt
chop-bytes (len ∷ lens) bytes h =
    (All-take IsByte len bytes h, chop-bytes lens (drop len bytes) (All-drop IsByte len bytes h))

-- The check over a stream that is cut up.
preflight-rewritable :
    (p : List ℕ) (fs : List (List ℕ)) (code : ℕ)
    → preflight (p ++ join fs) (length p) (lengths fs) code ≡ rewritable
    → All (IsBare code) fs
unfolding preflight
preflight-rewritable p fs code e = elim (Option-cases (tally code 0 0 fs)) [
  | inl none_left ↦ absurd (ground (arith, count_frames-tally p fs code 0 0))
  | inr ((a, b), counts) ↦
      tally-IsBare code 0 0 fs a b counts
        (ground (arith, count_frames-tally p fs code 0 0, length-lengths fs))
]

rewrite_from-cases :
    (p : List ℕ) (fs : List (List ℕ)) (code : ℕ)
    → let r = rewrite_from (p ++ join fs) (lengths fs) code (length p) in
      (r ≡ (p ++ join fs, 0))
      ⊎ (All (IsBare code) fs × (r ≡ (p ++ join (renewed code fs), written code 0 fs)))
unfolding rewrite_from
rewrite_from-cases p fs code =
    ground (arith, preflight-rewritable p fs code, rewrite_frames-renewed p fs code 0)

module _ (usize_limit : ℕ) (encoded lens : List ℕ) (rate_hz : ℕ) where
  abbrev pub result : List ℕ × ℕ
  result = rewrite_frame_sample_rates usize_limit encoded lens rate_hz

  abbrev pub first : ℕ
  first = length encoded - sum lens

  -- The result, once the code and the sum are known.
  pub result-fits :
      (code : ℕ)
      → sample_rate_code rate_hz ≡ some code
      → checked_sum usize_limit 0 lens ≡ some (sum lens)
      → sum lens ≤ length encoded
      → result ≡ rewrite_from encoded lens code first
  unfolding rewrite_frame_sample_rates
  result-fits code e e' h = ground arith

  result-misfits :
      (sample_rate_code rate_hz ≡ none)
        ⊎ (checked_sum usize_limit 0 lens ≡ none)
        ⊎ ((checked_sum usize_limit 0 lens ≡ some (sum lens)) × (length encoded < sum lens))
      → result ≡ (encoded, 0)
  unfolding rewrite_frame_sample_rates
  result-misfits h = ground arith

  abbrev Starts : Type 0
  Starts =
      (code : ℕ) × (sample_rate_code rate_hz ≡ some code)
      × (sum lens ≤ length encoded)
      × (result ≡ rewrite_from encoded lens code first)

  summed-cases :
      (code : ℕ)
      → sample_rate_code rate_hz ≡ some code
      → checked_sum usize_limit 0 lens ≡ some (sum lens)
      → (result ≡ (encoded, 0)) ⊎ Starts
  summed-cases code e e' = elim (dec_le (sum lens) (length encoded)) [
    | no misfits ↦ inl (result-misfits (inr (inr (e', omega arith))))
    | yes fits ↦ inr (code, e, fits, result-fits code e e' fits)
  ]

  -- Nothing is done, or the magic number is looked at with the frames at their place.
  pub result-cases : (result ≡ (encoded, 0)) ⊎ Starts
  result-cases = elim (Option-cases (sample_rate_code rate_hz)) [
    | inl e ↦ inl (result-misfits (inl e))
    | inr (code, e) ↦ elim (Option-cases (checked_sum usize_limit 0 lens)) [
      | inl e' ↦ inl (result-misfits (inr (inl e')))
      | inr (total, e') ↦
          let whole_sum : total ≡ sum lens =
            omega (arith, checked_sum-eq-sum usize_limit 0 lens e') in
          summed-cases code e (e' ∙ ap some whole_sum)
    ]
  ]

module _ (encoded lens : List ℕ) (bytes : All IsByte encoded)
    (fits : sum lens ≤ length encoded) where
  abbrev first_frame : ℕ
  first_frame = length encoded - sum lens

  abbrev prefix : List ℕ
  prefix = take first_frame encoded

  abbrev frames : List (List ℕ)
  frames = chop lens (drop first_frame encoded)

  frames-span : sum lens ≡ length (drop first_frame encoded)
  frames-span = omega (arith, length-drop first_frame encoded)

  encoded-cut : encoded ≡ prefix ++ join frames
  encoded-cut =
      sym (take-append-drop first_frame encoded)
      ∙ ap (λ l. prefix ++ l) (sym (join-chop lens (drop first_frame encoded) frames-span))

  lens-cut : lens ≡ lengths frames
  lens-cut = sym (lengths-chop lens (drop first_frame encoded) (omega (arith, frames-span)))

  first-cut : first_frame ≡ length prefix
  first-cut = omega (arith, length-take first_frame encoded)

  frames-bytes : All (All IsByte) frames
  frames-bytes =
      chop-bytes lens (drop first_frame encoded) (All-drop IsByte first_frame encoded bytes)

  same_call :
      (code : ℕ)
      → rewrite_from encoded lens code first_frame
        ≡ rewrite_from (prefix ++ join frames) (lengths frames) code (length prefix)
  same_call code = cc (encoded-cut, lens-cut, first-cut)

  count-cut : length frames ≡ length lens
  count-cut = sym (length-lengths frames) ∙ ap length (sym lens-cut)

  from_first :
      (code : ℕ)
      → code ≤ 11
      → let r = rewrite_from encoded lens code first_frame in
        (r ≡ (encoded, 0)) ⊎ Rewrote code encoded lens r
  from_first code small = elim (rewrite_from-cases prefix frames code) [
    | inl e ↦ inl (same_call code ∙ e ∙ ap (λ l. (l, 0)) (sym encoded-cut))
    | inr (bare, e) ↦
        let (count, good) = written-bare code 0 frames small frames-bytes bare in
        inr (record {
          prefix = prefix;
          frames = frames;
          whole = encoded-cut;
          cut = lens-cut;
          bare = bare;
          good = good;
          gives =
              same_call code
              ∙ e
              ∙ ap (λ n. (prefix ++ join (renewed code frames), n))
                  (omega (arith, count, count-cut));
        })
  ]

-- For a stream of bytes: either it is returned as it was, with the count 0; or it is a prefix and frames that all
-- passed the check, the prefix stays, every frame is rewritten, and the count is their number.
pub rewrite_atomically :
    (usize_limit : ℕ) (encoded lens : List ℕ) (rate_hz : ℕ)
    → All IsByte encoded
    → let r = rewrite_frame_sample_rates usize_limit encoded lens rate_hz in
      (r ≡ (encoded, 0))
      ⊎ ((code : ℕ) × (sample_rate_code rate_hz ≡ some code) × Rewrote code encoded lens r)
rewrite_atomically limit encoded lens rate_hz bytes =
    elim (result-cases limit encoded lens rate_hz) [
      | inl same ↦ inl same
      | inr (code, e, fits, start) ↦
          elim (from_first encoded lens bytes fits code (sample_rate_code-small rate_hz code e).1) [
            | inl same ↦ inl (start ∙ same)
            | inr done ↦ inr (code, e, rw start done)
          ]
    ]
