-- ===== src/Storage/Decoded.antt =====
-- crates/booth-bin/src/file_storage.rs: a file's name determines its key.
use telephone_booth.Base.{
  ℕ, ◌<◌, ◌+◌, ◌-◌, ◌*◌, ◌/◌, ◌%◌, true, false, List, [], ◌∷◌, ◌≡◌, ◌≢◌, refl, ap, sym, ◌∙◌, ltb,
  ◌==◌, if◌then◌else◌, Bool-cases, inl, inr, arith,
}
use telephone_booth.Storage.Names.{is_special, hex_digit, encode_chars, encode_key}

-- A decoder: the value of a digit, and the text.
unhex : ℕ → ℕ
unhex d = if ltb d 58 then d - 48 else d - 55

decode : List ℕ → List ℕ
unfolding unhex
decode [] = []
decode (c ∷ []) = c ∷ []
decode (c ∷ d ∷ []) = let rest = decode (d ∷ []) in c ∷ rest
decode (c ∷ d ∷ e ∷ r) =
    let plain = decode (d ∷ e ∷ r) in
    let coded = decode r in if c == 37 then (16 * unhex d + unhex e) ∷ coded else c ∷ plain

unhex-digit : (n : ℕ) → n < 16 → unhex (hex_digit n) ≡ n
unfolding unhex hex_digit
unhex-digit n h = ground arith

decode-plain : (c : ℕ) (r : List ℕ) → (c == 37) ≡ false → decode (c ∷ r) ≡ c ∷ decode r
unfolding decode
decode-plain c [] h = refl
decode-plain c (d ∷ []) h = refl
decode-plain c (d ∷ e ∷ r) h = rw h refl

special-fits : (c : ℕ) → is_special c ≡ true → c < 256
unfolding is_special
special-fits c h = ground arith

special-percent : is_special 37 ≡ true
unfolding is_special
special-percent = refl

plain-percent : (c : ℕ) → is_special c ≡ false → (c == 37) ≡ false
unfolding is_special
plain-percent c h = ground arith

decode-coded :
    (c : ℕ) (r : List ℕ)
    → c < 256
    → decode (37 ∷ hex_digit (c / 16) ∷ hex_digit (c % 16) ∷ r) ≡ c ∷ decode r
unfolding decode
decode-coded c r small =
    ap (λ n. n ∷ decode r)
      (omega (arith, unhex-digit (c / 16) (omega arith), unhex-digit (c % 16) (omega arith)))

decode-encode_chars : (key : List ℕ) → decode (encode_chars key) ≡ key
unfolding encode_chars
decode-encode_chars [] = unfold decode in refl
decode-encode_chars (c ∷ key) =
    let coded = 37 ∷ hex_digit (c / 16) ∷ hex_digit (c % 16) ∷ encode_chars key in
    elim (Bool-cases (is_special c)) [
      | inl special ↦ rw special (
          decode-coded c (encode_chars key) (special-fits c special)
          ∙ ap (λ l. c ∷ l) (decode-encode_chars key))
      | inr plain ↦ rw plain (
          decode-plain c (encode_chars key) (plain-percent c plain)
          ∙ ap (λ l. c ∷ l) (decode-encode_chars key))
    ]

-- No key but the empty one is stored under "%empty".
abbrev second_char : List ℕ → ℕ
second_char [] = 0
second_char (a ∷ []) = 0
second_char (a ∷ b ∷ r) = b

abbrev pub first_char : List ℕ → ℕ
first_char [] = 0
first_char (a ∷ r) = a

hex_digit-below : (n : ℕ) → n < 16 → hex_digit n < 101
unfolding hex_digit
hex_digit-below n h = ground arith

encode-not-empty :
    (c : ℕ) (key : List ℕ)
    → first_char (encode_chars (c ∷ key)) ≡ 37
    → second_char (encode_chars (c ∷ key)) < 101
unfolding encode_chars
encode-not-empty c key h = elim (Bool-cases (is_special c)) [
  | inl special ↦ rw special (hex_digit-below (c / 16) (omega (arith, special-fits c special)))
  | inr plain ↦ absurd (ground (arith, plain-percent c plain))
]

-- The starts of the names of a key and of a temporary file differ.
pub encode_key-first : (key : List ℕ) → first_char (encode_key key) ≢ 46
unfolding encode_key encode_chars is_special
encode_key-first [] h = omega arith
encode_key-first (c ∷ key) h = ground arith

-- Keys that are stored under one name are one key.
pub encode_key-injective : (a b : List ℕ) → encode_key a ≡ encode_key b → a ≡ b
unfolding encode_key
encode_key-injective [] [] h = refl
encode_key-injective [] (c ∷ key) h =
    absurd (omega (arith, ap second_char h, encode-not-empty c key (sym (ap first_char h))))
encode_key-injective (c ∷ key) [] h =
    absurd (omega (arith, ap second_char h, encode-not-empty c key (ap first_char h)))
encode_key-injective (c ∷ key) (d ∷ other) h =
    sym (decode-encode_chars (c ∷ key)) ∙ ap decode h ∙ decode-encode_chars (d ∷ other)
