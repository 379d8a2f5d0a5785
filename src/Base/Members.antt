-- ===== src/Base/Members.antt =====
-- What is in a list, and in parts of it.
use telephone_booth.Base.{
  ℕ, zero, suc, Bool, true, false, List, [], ◌∷◌, ◌++◌, take, drop, retain, ◌≡◌, ◌⊎◌, inl, inr, sym,
  ap, ◌∙◌, Bool-cases,
}

true-not-false : true ≡ false → ⊥
true-not-false h = cc

module _ {A : Type 0} where
  abbrev pub In : A → List A → Type 0
  In x [] = ⊥
  In x (y ∷ ys) = (x ≡ y) ⊎ In x ys

  pub In-left : (x : A) (xs ys : List A) → In x xs → In x (xs ++ ys)
  In-left x [] ys h = elim h [ ]
  In-left x (y ∷ xs) ys (inl e) = inl e
  In-left x (y ∷ xs) ys (inr h) = inr (In-left x xs ys h)

  pub In-right : (x : A) (xs ys : List A) → In x ys → In x (xs ++ ys)
  In-right x [] ys h = h
  In-right x (y ∷ xs) ys h = inr (In-right x xs ys h)

  pub In-split : (x : A) (n : ℕ) (xs : List A) → In x xs → In x (take n xs) ⊎ In x (drop n xs)
  In-split x zero xs h = inr h
  In-split x (suc n) [] h = elim h [ ]
  In-split x (suc n) (y ∷ xs) (inl e) = inl (inl e)
  In-split x (suc n) (y ∷ xs) (inr h) = elim (In-split x n xs h) [
    | inl front ↦ inl (inr front)
    | inr back ↦ inr back
  ]

  -- In the front or in the back.
  pub In-append : (x : A) (xs ys : List A) → In x (xs ++ ys) → In x xs ⊎ In x ys
  In-append x [] ys h = inr h
  In-append x (y ∷ xs) ys (inl e) = inl (inl e)
  In-append x (y ∷ xs) ys (inr h) = elim (In-append x xs ys h) [
    | inl front ↦ inl (inr front)
    | inr back ↦ inr back
  ]

  pub In-drop : (x : A) (n : ℕ) (xs : List A) → In x (drop n xs) → In x xs
  In-drop x zero xs h = h
  In-drop x (suc n) [] h = h
  In-drop x (suc n) (y ∷ xs) h = inr (In-drop x n xs h)

  pub In-retain :
      (x : A) (keep : A → Bool) (xs : List A) → In x xs → keep x ≡ true → In x (retain keep xs)
  In-retain x keep [] h k = h
  In-retain x keep (y ∷ xs) h k = elim (Bool-cases (keep y)) [
    | inl kept ↦
        rw (kept, In, retain)
          (elim h [ inl e ↦ inl e | inr later ↦ inr (In-retain x keep xs later k) ])
    | inr left ↦
        rw (left, In, retain)
          (elim h [
            | inl e ↦ absurd (true-not-false (sym k ∙ ap keep e ∙ left))
            | inr later ↦ In-retain x keep xs later k
          ])
  ]

  pub retain-In :
      (x : A) (keep : A → Bool) (xs : List A) → In x (retain keep xs) → In x xs × (keep x ≡ true)
  retain-In x keep [] h = elim h [ ]
  retain-In x keep (y ∷ xs) h = elim (Bool-cases (keep y)) [
    | inl kept ↦
        let either : (x ≡ y) ⊎ In x (retain keep xs) = rw (kept, In, retain) at h in
        elim either [
          | inl e ↦ (inl e, ap keep e ∙ kept)
          | inr later ↦ let (there, k) = retain-In x keep xs later in (inr there, k)
        ]
    | inr left ↦ let (there, k) = retain-In x keep xs (rw (left, In, retain) at h) in (inr there, k)
  ]
