-- ===== src/Telemetry/Taken.antt =====
-- crates/booth-telemetry/src/lib.rs: one of the publishers that wait goes on.
use telephone_booth.Base.{
  ℕ, zero, suc, Option, none, some, List, [], ◌∷◌, ◌++◌, length, ◌≡◌, ◌⊎◌, inl, inr, refl, ap,
}
use telephone_booth.Base.Members.{In, In-left, In-right, In-append}
use telephone_booth.Telemetry.Publishers.{take_at}

module _ {A : Type 0} where
  -- One item is taken out, and nothing else changes.
  pub record Splits (xs : List A) (x : A) (rest : List A) : Type 0 where
    pub out : (y : A) → In y xs → (y ≡ x) ⊎ In y rest
    pub back : (y : A) → (y ≡ x) ⊎ In y rest → In y xs
    pub count : length xs ≡ suc (length rest)

  abbrev pub IsTaken : List A → Option (A × List A) → Type 0
  IsTaken xs none = Unit
  IsTaken xs (some (x, rest)) = Splits xs x rest

  pub take_at-IsTaken : (n : ℕ) (xs : List A) → IsTaken xs (take_at n xs)
  unfolding take_at
  take_at-IsTaken n [] = _
  take_at-IsTaken zero (x ∷ xs) = record { out = λ y h. h; back = λ y h. h; count = refl }
  take_at-IsTaken (suc n) (x ∷ xs) = later (take_at n xs) (take_at-IsTaken n xs)
    where
      later :
          (o : Option (A × List A))
          → IsTaken xs o
          → IsTaken (x ∷ xs) (elim o as (λ _. Option (A × List A)) [
            | none ↦ none
            | some (y, rest) ↦ some (y, x ∷ rest)
          ])
      later none h = _
      later (some (y, rest)) h = record {
        out = λ z i. elim i [
          | inl e ↦ inr (inl e)
          | inr there ↦ elim (h.out z there) [ inl e ↦ inl e | inr left ↦ inr (inr left) ]
        ];
        back = λ z i. elim i [
          | inl e ↦ inr (h.back z (inl e))
          | inr (inl e) ↦ inl e
          | inr (inr left) ↦ inr (h.back z (inr left))
        ];
        count = ap suc h.count;
      }

  -- The item goes to the end of another list.
  pub moved :
      (xs ys rest : List A) (x y : A)
      → Splits xs x rest
      → In y xs ⊎ In y ys
      → In y rest ⊎ In y (ys ++ x ∷ [])
  moved xs ys rest x y h (inl here) = elim (h.out y here) [
    | inl e ↦ inr (In-right y ys (x ∷ []) (inl e))
    | inr left ↦ inl left
  ]
  moved xs ys rest x y h (inr there) = inr (In-left y ys (x ∷ []) there)

  pub moved_back :
      (xs ys rest : List A) (x y : A)
      → Splits xs x rest
      → In y rest ⊎ In y (ys ++ x ∷ [])
      → In y xs ⊎ In y ys
  moved_back xs ys rest x y h (inl left) = inl (h.back y (inr left))
  moved_back xs ys rest x y h (inr there) = elim (In-append y ys (x ∷ []) there) [
    | inl old ↦ inr old
    | inr (inl e) ↦ inl (h.back y (inl e))
    | inr (inr none_left) ↦ elim none_left [ ]
  ]
