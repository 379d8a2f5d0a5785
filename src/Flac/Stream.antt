-- ===== src/Flac/Stream.antt =====
-- crates/booth-pi/src/flac_frame.rs: the rewrite of a whole stream is all or nothing.
use Prim.Native.Nat.{bit_and}
use telephone_booth.Base.{
  ℕ, ◌+◌, ◌≤◌, ◌<◌, true, some, List, [], ◌∷◌, ◌≡◌, inl, inr, arith, length, All, Option-cases,
}
use telephone_booth.Base.Slices.{All-get_or}
use telephone_booth.Flac.Header.{sample_rate_code, frame_header_len, byte}
use telephone_booth.Flac.Rewrite.{unspecified, check_frame, rewrite_frame}
use telephone_booth.Flac.Frame.{IsRewritten, rewrite_frame-IsRewritten}
use telephone_booth.Flac.Layout.{tally, written}

abbrev pub IsByte : ℕ → Type 0
IsByte n = n < 256

-- A frame that parses, has a right CRC-8 and leaves its rate open.
abbrev pub IsBare : ℕ → List ℕ → Type 0
IsBare code f = check_frame f code ≡ some unspecified

-- Each frame with its new form.
abbrev pub AllRewritten : ℕ → List (List ℕ) → Type 0
AllRewritten code [] = Unit {0}
AllRewritten code (f ∷ fs) =
    ((h : ℕ) × (frame_header_len f ≡ some h) × IsRewritten code h f (rewrite_frame f code).1)
    × AllRewritten code fs

pub sample_rate_code-small :
    (rate_hz code : ℕ) → sample_rate_code rate_hz ≡ some code → (0 < code) × (code ≤ 11)
unfolding sample_rate_code
sample_rate_code-small rate_hz code h = ground arith

-- What the check of a bare frame says.
pub check_frame-bare :
    (f : List ℕ) (code : ℕ)
    → IsBare code f
    → (h : ℕ) × (frame_header_len f ≡ some h) × (h + 2 ≤ length f) × (bit_and (byte f 2) 0x0F ≡ 0)
unfolding check_frame
check_frame-bare f code e = elim (Option-cases (frame_header_len f)) [
  | inl p ↦ absurd (ground arith)
  | inr (h, p) ↦ (h, p, ground arith, ground arith)
]

bare-IsRewritten :
    (f : List ℕ) (code : ℕ)
    → code ≤ 11
    → IsByte (byte f 2)
    → IsBare code f
    → ((rewrite_frame f code).0 ≡ true)
      × ((h : ℕ) × (frame_header_len f ≡ some h) × IsRewritten code h f (rewrite_frame f code).1)
bare-IsRewritten f code small is_byte e =
    let (h, parsed, room, bare) = check_frame-bare f code e in
    let (done, good) = rewrite_frame-IsRewritten f code h parsed room is_byte small bare in
    (done, (h, parsed, good))

pub written-bare :
    (code n : ℕ) (fs : List (List ℕ))
    → code ≤ 11
    → All (All IsByte) fs
    → All (IsBare code) fs
    → (written code n fs ≡ n + length fs) × AllRewritten code fs
written-bare code n [] small bytes bare = (omega arith, tt)
written-bare code n (f ∷ fs) small bytes bare =
    let (done, good) =
      bare-IsRewritten f code small (All-get_or IsByte f 2 0 (omega arith) bytes.0) bare.0 in
    let (count, rest) = written-bare code (n + 1) fs small bytes.1 bare.1 in
    (rw done (omega (arith, count)), (good, rest))

-- Only a stream of bare frames has as many open frames as frames.
tally-bounds :
    (code u x : ℕ) (fs : List (List ℕ)) (a b : ℕ)
    → tally code u x fs ≡ some (a, b)
    → a + b ≡ u + x + length fs
unfolding tally
tally-bounds code u x [] a b e = ground arith
tally-bounds code u x (f ∷ fs) a b e =
    ground (arith, tally-bounds code (u + 1) x fs a b, tally-bounds code u (x + 1) fs a b)

tally-le :
    (code u x : ℕ) (fs : List (List ℕ)) (a b : ℕ)
    → tally code u x fs ≡ some (a, b)
    → (u ≤ a) × (x ≤ b)
unfolding tally
tally-le code u x [] a b e = ground arith
tally-le code u x (f ∷ fs) a b e =
    ground (arith, tally-le code (u + 1) x fs a b, tally-le code u (x + 1) fs a b)

pub tally-IsBare :
    (code u x : ℕ) (fs : List (List ℕ)) (a b : ℕ)
    → tally code u x fs ≡ some (a, b)
    → a ≡ u + length fs
    → All (IsBare code) fs
unfolding tally
tally-IsBare code u x [] a b e h = tt
tally-IsBare code u x (f ∷ fs) a b e h = ground (
  arith,
  tally-IsBare code (u + 1) x fs a b,
  tally-bounds code u (x + 1) fs a b,
  tally-le code u (x + 1) fs a b,
)
