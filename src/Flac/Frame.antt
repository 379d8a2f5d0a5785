-- ===== src/Flac/Frame.antt =====
-- crates/booth-pi/src/flac_frame.rs: what `rewrite_frame` makes of one frame.
use Prim.Native.Nat.{bit_and}
use telephone_booth.Base.{
  inl, inr, Option-cases, ℕ, ◌+◌, ◌-◌, ◌/◌, ◌%◌, ◌^◌, ◌≤◌, ◌<◌, true, some, List, [], ◌∷◌, ◌++◌,
  ◌≡◌, refl, sym, ◌∙◌, ap, ◌≢◌, arith, take, set, length, length-append,
}
use telephone_booth.Base.Slices.{
  length-take, length-set, get_or-append, get_or-set_self, get_or-set_ne, get_or-take, take-set,
  take-append, take-take,
}
use telephone_booth.Base.Bytes.{with_low_half, with_low_half_fields}
use telephone_booth.Flac.Crc.{crc8, crc16}
use telephone_booth.Flac.Header.{frame_header_len, byte, sample_rate_len}
use telephone_booth.Flac.Rewrite.{rewrite_frame, set_rate, fix_crc8, fix_crc16}

header_len_bound : (frame : List ℕ) (h : ℕ) → frame_header_len frame ≡ some h → 6 ≤ h
unfolding frame_header_len
header_len_bound frame h e = ground arith

-- The header's length depends on five bytes and on the frame's length alone.
frame_header_len-cong :
    (f g : List ℕ)
    → length f ≡ length g
    → byte f 0 ≡ byte g 0
    → byte f 1 ≡ byte g 1
    → byte f 4 ≡ byte g 4
    → byte f 2 / 2 ^ 4 ≡ byte g 2 / 2 ^ 4
    → sample_rate_len (byte f 2) ≡ sample_rate_len (byte g 2)
    → frame_header_len f ≡ frame_header_len g
unfolding frame_header_len
frame_header_len-cong f g a b c d e h = ground arith

length-fix_crc16 : (f : List ℕ) → 2 ≤ length f → length (fix_crc16 f) ≡ length f
unfolding fix_crc16
length-fix_crc16 f h = ground (
  arith,
  length-append (take (length f - 2) f)
      ((crc16 (take (length f - 2) f) / 2 ^ 8) ∷ (crc16 (take (length f - 2) f) % 2 ^ 8) ∷ []),
  length-take (length f - 2) f,
)

-- Whatever it does, the rewrite keeps the length of a frame.
pub length-rewrite_frame : (f : List ℕ) (code : ℕ) → length (rewrite_frame f code).1 ≡ length f
unfolding rewrite_frame
length-rewrite_frame f code = elim (Option-cases (frame_header_len f)) [
  | inl e ↦ rw (e, rewrite_frame)
  | inr (h, e) ↦ rw (e, rewrite_frame) (ground (arith, kept h))
]
  where
    written : ℕ → List ℕ
    written h = fix_crc8 (set_rate f code) (h - 1)

    same : (h : ℕ) → length (written h) ≡ length f
    same h = length-set (set_rate f code) (h - 1) _ ∙ length-set f 2 _

    kept : (h : ℕ) → 2 ≤ length f → length (fix_crc16 (written h)) ≡ length f
    kept h room = length-fix_crc16 (written h) (omega (arith, same h)) ∙ same h

take-fix_crc16 : (f : List ℕ) (n : ℕ) → n + 2 ≤ length f → take n (fix_crc16 f) ≡ take n f
unfolding fix_crc16
take-fix_crc16 f n h =
    take-append n (take (length f - 2) f) _ (omega (arith, length-take (length f - 2) f))
    ∙ take-take n (length f - 2) f (omega arith)

byte-fix_crc16 : (f : List ℕ) (i : ℕ) → i + 2 < length f → byte (fix_crc16 f) i ≡ byte f i
unfolding fix_crc16
byte-fix_crc16 f i h =
    get_or-append (take (length f - 2) f) _ i 0 (omega (arith, length-take (length f - 2) f))
    ∙ get_or-take (length f - 2) f i 0 (omega arith)

-- A 16-bit checksum as it is stored, high byte first.
abbrev pub be_bytes : ℕ → List ℕ
be_bytes checksum = (checksum / 2 ^ 8) ∷ (checksum % 2 ^ 8) ∷ []

-- `g` is the frame `f`, whose header takes `h` bytes, with the rate code and both checksums made
-- good and nothing else touched.
pub record IsRewritten (code h : ℕ) (f g : List ℕ) : Type 0 where
  pub same_length : length g ≡ length f
  pub same_header : frame_header_len g ≡ frame_header_len f
  pub rate : bit_and (byte g 2) 0x0F ≡ code
  pub rest : (i : ℕ) → i ≢ 2 → i ≢ h - 1 → i + 2 < length f → byte g i ≡ byte f i
  pub crc8_good : byte g (h - 1) ≡ crc8 (take (h - 1) g)
  pub crc16_good : g ≡ take (length g - 2) g ++ be_bytes (crc16 (take (length g - 2) g))

fix_crc16-good :
    (f : List ℕ)
    → 2 ≤ length f
    → let g = fix_crc16 f in g ≡ take (length g - 2) g ++ be_bytes (crc16 (take (length g - 2) g))
unfolding fix_crc16
fix_crc16-good f h =
    let g = fix_crc16 f in
    ap (λ l. l ++ be_bytes (crc16 l)) (sym (take-fix_crc16 f (length f - 2) (omega arith)))
    ∙ ap (λ n. take n g ++ be_bytes (crc16 (take n g))) (omega (arith, length-fix_crc16 f h))

module _ (f : List ℕ) (code h : ℕ) (parsed : frame_header_len f ≡ some h) (room : h + 2 ≤ length f)
    (is_byte : byte f 2 < 256) (small : code ≤ 11) (bare : bit_and (byte f 2) 0x0F ≡ 0) where
  abbrev f₁ : List ℕ
  f₁ = set f 2 (with_low_half (byte f 2) code)

  abbrev f₂ : List ℕ
  f₂ = set f₁ (h - 1) (crc8 (take (h - 1) f₁))

  h_bound : 6 ≤ h
  h_bound = header_len_bound f h parsed

  length-f₂ : length f₂ ≡ length f
  length-f₂ = length-set f₁ (h - 1) _ ∙ length-set f 2 _

  byte-f₁ : byte f₁ 2 ≡ with_low_half (byte f 2) code
  byte-f₁ = get_or-set_self f 2 _ 0 (omega (arith, h_bound))

  byte-f₂ : byte f₂ 2 ≡ with_low_half (byte f 2) code
  byte-f₂ = get_or-set_ne f₁ (h - 1) 2 _ 0 (λ e. absurd (omega (arith, h_bound))) ∙ byte-f₁

  byte-f₃ : (i : ℕ) → i + 2 < length f → byte (fix_crc16 f₂) i ≡ byte f₂ i
  byte-f₃ i p = byte-fix_crc16 f₂ i (omega (arith, length-f₂))

  byte-f₃_other : (i : ℕ) → i ≢ 2 → i ≢ h - 1 → i + 2 < length f → byte (fix_crc16 f₂) i ≡ byte f i
  byte-f₃_other i p q r =
      byte-f₃ i r
      ∙ get_or-set_ne f₁ (h - 1) i _ 0 (λ e. q (sym e))
      ∙ get_or-set_ne f 2 i _ 0 (λ e. p (sym e))

  byte-f₃_rate : byte (fix_crc16 f₂) 2 ≡ with_low_half (byte f 2) code
  byte-f₃_rate = byte-f₃ 2 (omega (arith, h_bound)) ∙ byte-f₂

  rate-f₃ : bit_and (byte (fix_crc16 f₂) 2) 0x0F ≡ code
  rate-f₃ = rw byte-f₃_rate (with_low_half_fields (byte f 2) code is_byte (omega arith)).0

  sample_rate_len-f₃ : sample_rate_len (byte (fix_crc16 f₂) 2) ≡ sample_rate_len (byte f 2)
  unfolding sample_rate_len
  sample_rate_len-f₃ = ground (arith, rate-f₃)

  length-f₃ : length (fix_crc16 f₂) ≡ length f
  length-f₃ = length-fix_crc16 f₂ (omega (arith, length-f₂, h_bound)) ∙ length-f₂

  same_header-f₃ : frame_header_len (fix_crc16 f₂) ≡ frame_header_len f
  same_header-f₃ =
      frame_header_len-cong (fix_crc16 f₂) f length-f₃
        (byte-f₃_other 0 (omega arith) (omega (arith, h_bound)) (omega (arith, h_bound)))
        (byte-f₃_other 1 (omega arith) (omega (arith, h_bound)) (omega (arith, h_bound)))
        (byte-f₃_other 4 (omega arith) (omega (arith, h_bound)) (omega (arith, h_bound)))
        (rw byte-f₃_rate (with_low_half_fields (byte f 2) code is_byte (omega arith)).1)
        sample_rate_len-f₃

  crc8-f₃ : byte (fix_crc16 f₂) (h - 1) ≡ crc8 (take (h - 1) (fix_crc16 f₂))
  crc8-f₃ =
      byte-f₃ (h - 1) (omega (arith, h_bound))
      ∙ get_or-set_self f₁ (h - 1) _ 0
          (omega (arith, h_bound, length-set f 2 (with_low_half (byte f 2) code)))
      ∙ ap crc8 (
          sym (
            take-fix_crc16 f₂ (h - 1) (omega (arith, h_bound, length-f₂))
            ∙ take-set (h - 1) f₁ (h - 1) _ (omega arith)))

  rewrite_frame-f₃ : rewrite_frame f code ≡ (true, fix_crc16 f₂)
  unfolding rewrite_frame
  rewrite_frame-f₃ = ground arith

  IsRewritten-f₃ : IsRewritten code h f (fix_crc16 f₂)
  IsRewritten-f₃ = record {
    same_length = length-f₃;
    same_header = same_header-f₃;
    rate = rate-f₃;
    rest = byte-f₃_other;
    crc8_good = crc8-f₃;
    crc16_good = fix_crc16-good f₂ (omega (arith, length-f₂, h_bound));
  }

  -- A frame that parses, has room for its checksums, has a byte for its rate and leaves it open is
  -- rewritten, for a code of at most 11: the rate field gets the code, both checksums become right, and the length, the header's length and every
  -- other byte before the footer stay.
  pub rewrite_frame-IsRewritten :
      ((rewrite_frame f code).0 ≡ true) × IsRewritten code h f (rewrite_frame f code).1
  rewrite_frame-IsRewritten = rw rewrite_frame-f₃ (refl, IsRewritten-f₃)
