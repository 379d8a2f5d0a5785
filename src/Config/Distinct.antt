-- ===== src/Config/Distinct.antt =====
-- crates/booth-bin/src/lib.rs: the pins are counted as a set.
use telephone_booth.Base.{
  ℕ, suc, ◌≤◌, Bool, true, false, List, [], ◌∷◌, length, any, All, ◌==◌, ◌≡◌, ◌≢◌, ◌↔◌, refl, ap,
  sym, ◌∙◌, if◌then◌else◌, if_cases, arith,
}
use telephone_booth.Config.Validate.{unique}

-- No pin stands twice.
abbrev pub AreDistinct : List ℕ → Type 0
AreDistinct [] = Unit
AreDistinct (p ∷ ps) = All (λ q. p ≢ q) ps × AreDistinct ps

any-All : (p : ℕ) (qs : List ℕ) → (any (λ q. p == q) qs ≡ false) ↔ All (λ q. p ≢ q) qs
any-All p [] = (λ h. _, λ h. refl)
any-All p (q ∷ qs) = ground (arith, any-All p qs)

any-unique : (p : ℕ) (qs : List ℕ) → any (λ q. p == q) (unique qs) ≡ any (λ q. p == q) qs
unfolding unique
any-unique p [] = refl
any-unique p (q ∷ qs) = ground (arith, any-unique p qs, any-unique q qs)

length-unique : (ps : List ℕ) → length (unique ps) ≤ length ps
unfolding unique
length-unique [] = omega arith
length-unique (p ∷ ps) =
    if_cases (λ qs. length qs ≤ suc (length ps)) (any (λ q. p == q) (unique ps)) (unique ps)
      (p ∷ unique ps) (omega (arith, length-unique ps)) (omega (arith, length-unique ps))

pub unique-length_iff : (ps : List ℕ) → (length (unique ps) ≡ length ps) ↔ AreDistinct ps
unfolding unique
unique-length_iff [] = (λ h. _, λ h. refl)
unique-length_iff (p ∷ ps) = go (unique-length_iff ps) (any (λ q. p == q) (unique ps)) refl
  where
    go :
        ((length (unique ps) ≡ length ps) ↔ AreDistinct ps)
        → (b : Bool) → any (λ q. p == q) (unique ps) ≡ b
        → (length (if b then unique ps else p ∷ unique ps) ≡ suc (length ps))
          ↔ (All (λ q. p ≢ q) ps × AreDistinct ps)
    go ih true there = (
      λ h. absurd (omega (arith, length-unique ps)),
      λ h. absurd (ground (arith, any-unique p ps, (any-All p ps).1 h.0)),
    )
    go ih false new = (
      λ h. ((any-All p ps).0 (sym (any-unique p ps) ∙ new), ih.0 (omega arith)),
      λ h. ap suc (ih.1 h.1),
    )
