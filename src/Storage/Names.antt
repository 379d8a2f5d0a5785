-- ===== src/Storage/Names.antt =====
-- crates/booth-bin/src/file_storage.rs: `encode_key`. Texts are lists of code points.
use telephone_booth.Base.{
  ℕ, ◌/◌, ◌%◌, ◌+◌, Bool, true, false, ◌&&◌, List, [], ◌∷◌, any, ltb, ◌==◌, if◌then◌else◌,
}

-- `/`, `\`, `:`, `%`, NUL and `.`, each one byte in UTF-8.
unfoldable pub is_special : ℕ → Bool
is_special c = any (λ k. c == k) (47 ∷ 92 ∷ 58 ∷ 37 ∷ 0 ∷ 46 ∷ [])

-- A digit of `{byte:02X}`.
unfoldable pub hex_digit : ℕ → ℕ
hex_digit n = if ltb n 10 then 48 + n else 55 + n

unfoldable pub encode_chars : List ℕ → List ℕ
unfolding is_special hex_digit
encode_chars [] = []
encode_chars (c ∷ key) =
    let rest = encode_chars key in
    if is_special c then 37 ∷ hex_digit (c / 16) ∷ hex_digit (c % 16) ∷ rest else c ∷ rest

-- The empty key is "%empty".
unfoldable pub encode_key : List ℕ → List ℕ
unfolding encode_chars
encode_key [] = 37 ∷ 101 ∷ 109 ∷ 112 ∷ 116 ∷ 121 ∷ []
encode_key (c ∷ key) = encode_chars (c ∷ key)

abbrev pub same_text : List ℕ → List ℕ → Bool
same_text [] [] = true
same_text (a ∷ xs) (b ∷ ys) = a == b && same_text xs ys
same_text _ _ = false
