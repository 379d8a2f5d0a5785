-- ===== src/Base/Decimal.antt =====
-- Numbers in decimal, as a format string writes them.
use Prim.Native.Nat.{ℕ, zero, suc, ◌/◌, ◌%◌}
use Prim.Native.String.{String, ◌++◌ as ◌<>◌}
use mathlib.Core.List.{List, [], ◌∷◌}
use telephone_booth.Base.Tests.{ltb, if◌then◌else◌}

abbrev glyphs : List String
glyphs = "0" ∷ "1" ∷ "2" ∷ "3" ∷ "4" ∷ "5" ∷ "6" ∷ "7" ∷ "8" ∷ "9" ∷ []

abbrev glyph_at : List String → ℕ → String
glyph_at [] n = ""
glyph_at (g ∷ gs) zero = g
glyph_at (g ∷ gs) (suc n) = glyph_at gs n

digits : ℕ → ℕ → String
digits zero n = ""
digits (suc places) n =
    let front = digits places (n / 10) in
    if ltb n 10 then glyph_at glyphs n else front <> glyph_at glyphs (n % 10)

-- A `u64` has at most 20 digits.
unfoldable pub decimal_u64 : ℕ → String
unfolding digits
decimal_u64 n = digits 20 n
