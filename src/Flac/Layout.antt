-- ===== src/Flac/Layout.antt =====
-- crates/booth-pi/src/flac_frame.rs: a stream as a prefix and its frames, and the two loops on it.
use mathlib.Core.List.{append_assoc}
use telephone_booth.Base.{
  ℕ, ◌+◌, ◌-◌, ◌≤◌, Option, none, some, List, [], ◌∷◌, ◌++◌, ◌≡◌, refl, sym, ap, ◌∙◌, arith, take,
  drop, length, length-append,
}
use telephone_booth.Base.Slices.{
  length-take, length-drop, take-append_length, drop-append_length, take-append-drop,
}
use telephone_booth.Flac.Rewrite.{
  unspecified, explicit, slice, check_frame, count_frames, rewrite_frame, splice, rewrite_frames,
  add_if,
}
use telephone_booth.Flac.Frame.{length-rewrite_frame}

-- The frames one after the other, and their lengths.
abbrev pub join : List (List ℕ) → List ℕ
join [] = []
join (f ∷ fs) = f ++ join fs

abbrev pub lengths : List (List ℕ) → List ℕ
lengths [] = []
lengths (f ∷ fs) = length f ∷ lengths fs

abbrev pub sum : List ℕ → ℕ
sum [] = 0
sum (n ∷ ns) = n + sum ns

pub length-join : (fs : List (List ℕ)) → length (join fs) ≡ sum (lengths fs)
length-join [] = refl
length-join (f ∷ fs) = omega (arith, length-append f (join fs), length-join fs)

-- A stretch of bytes cut up by lengths.
unfoldable pub chop : List ℕ → List ℕ → List (List ℕ)
chop [] bytes = []
chop (len ∷ lens) bytes = take len bytes ∷ chop lens (drop len bytes)

pub lengths-chop :
    (lens bytes : List ℕ) → sum lens ≤ length bytes → lengths (chop lens bytes) ≡ lens
unfolding chop
lengths-chop [] bytes h = refl
lengths-chop (len ∷ lens) bytes h = ground (
  arith,
  length-take len bytes,
  lengths-chop lens (drop len bytes) (omega (arith, length-drop len bytes)),
)

pub join-chop : (lens bytes : List ℕ) → sum lens ≡ length bytes → join (chop lens bytes) ≡ bytes
unfolding chop
join-chop [] [] h = refl
join-chop [] (b ∷ bytes) h = absurd (omega arith)
join-chop (len ∷ lens) bytes h =
    ap (λ l. take len bytes ++ l)
      (join-chop lens (drop len bytes) (omega (arith, length-drop len bytes)))
    ∙ take-append-drop len bytes

-- The frame at an offset is what `get` finds there.
slice-frame :
    (p f rest : List ℕ) → slice (p ++ (f ++ rest)) (length p) (length p + length f) ≡ some f
slice-frame p f rest = ground (
  arith,
  length-append p (f ++ rest),
  length-append f rest,
  drop-append_length p (f ++ rest),
  take-append_length f rest,
  ap (λ (n : ℕ). take n (f ++ rest)) (span (length p) (length f)),
)
  where
    span : (a b : ℕ) → a + b - a ≡ b
    span a b = omega arith

-- A place behind `f` is the same place behind `p ++ f`.
behind {ℓ} :
    {B : Type ℓ} (F : List ℕ → ℕ → B) (p f rest : List ℕ)
    → F (p ++ (f ++ rest)) (length p + length f) ≡ F ((p ++ f) ++ rest) (length (p ++ f))
behind F p f rest =
    ap (λ e. F e (length p + length f)) (sym (append_assoc p f rest))
    ∙ ap (F ((p ++ f) ++ rest)) (sym (length-append p f))

splice-frame :
    (p f rest g : List ℕ) → splice (p ++ (f ++ rest)) (length p) (length f) g ≡ p ++ (g ++ rest)
unfolding splice
splice-frame p f rest g =
    rw (take-append_length p (f ++ rest)) (
      ap (λ l. p ++ (g ++ l))
        (behind (λ e n. drop n e) p f rest ∙ drop-append_length (p ++ f) rest))

-- The counts of `preflight`, frame by frame.
unfoldable pub tally : ℕ → ℕ → ℕ → List (List ℕ) → Option (ℕ × ℕ)
tally code unspec expl [] = some (unspec, expl)
tally code unspec expl (f ∷ fs) = elim (check_frame f code) [
  | none ↦ none
  | some unspecified ↦ tally code (unspec + 1) expl fs
  | some explicit ↦ tally code unspec (expl + 1) fs
]

pub count_frames-tally :
    (p : List ℕ) (fs : List (List ℕ)) (code unspec expl : ℕ)
    → count_frames (p ++ join fs) code (length p) unspec expl (lengths fs)
      ≡ tally code unspec expl fs
unfolding count_frames tally
count_frames-tally p [] code u x = refl
count_frames-tally p (f ∷ fs) code u x =
    rw (slice-frame p f (join fs), count_frames)
      (ground (
        arith,
        behind (λ e n. count_frames e code n (u + 1) x (lengths fs)) p f (join fs)
            ∙ count_frames-tally (p ++ f) fs code (u + 1) x,
        behind (λ e n. count_frames e code n u (x + 1) (lengths fs)) p f (join fs)
            ∙ count_frames-tally (p ++ f) fs code u (x + 1),
      ))

-- The frames after the rewrite, and how many were written.
abbrev pub renewed : ℕ → List (List ℕ) → List (List ℕ)
renewed code [] = []
renewed code (f ∷ fs) = (rewrite_frame f code).1 ∷ renewed code fs

abbrev pub written : ℕ → ℕ → List (List ℕ) → ℕ
written code n [] = n
written code n (f ∷ fs) = written code (add_if (rewrite_frame f code).0 n) fs

pub lengths-renewed : (code : ℕ) (fs : List (List ℕ)) → lengths (renewed code fs) ≡ lengths fs
lengths-renewed code [] = refl
lengths-renewed code (f ∷ fs) = rw (length-rewrite_frame f code, lengths-renewed code fs)

pub rewrite_frames-renewed :
    (p : List ℕ) (fs : List (List ℕ)) (code n : ℕ)
    → rewrite_frames (p ++ join fs) code (length p) n (lengths fs)
      ≡ (p ++ join (renewed code fs), written code n fs)
unfolding rewrite_frames
rewrite_frames-renewed p [] code n = refl
rewrite_frames-renewed p (f ∷ fs) code n =
    rw (slice-frame p f (join fs), rewrite_frames)
      (ap (λ e. rewrite_frames e code (length p + length f) k (lengths fs))
          (splice-frame p f (join fs) g)
        ∙ ap (λ m. rewrite_frames (p ++ (g ++ join fs)) code (length p + m) k (lengths fs))
            (sym (length-rewrite_frame f code))
        ∙ behind (λ e m. rewrite_frames e code m k (lengths fs)) p g (join fs)
        ∙ rewrite_frames-renewed (p ++ g) fs code k
        ∙ ap (λ e. (e, written code k fs)) (append_assoc p g (join (renewed code fs))))
  where
    g : List ℕ
    g = (rewrite_frame f code).1

    k : ℕ
    k = add_if (rewrite_frame f code).0 n
