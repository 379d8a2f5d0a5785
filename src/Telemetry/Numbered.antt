-- ===== src/Telemetry/Numbered.antt =====
-- Records that are numbered on, and what is left of them from some number on: lemmas for
-- crates/booth-telemetry/src/lib.rs.
use Prim.Native.Nat.{max}
use telephone_booth.Base.{
  ℕ, zero, suc, ◌+◌, ◌-◌, ◌≤◌, Option, none, some, List, [], ◌∷◌, ◌++◌, ◌≡◌, refl, ap, ap₂, sym,
  ◌∙◌, inl, inr, arith, ltb, length, drop, retain, Bool-cases,
}
use telephone_booth.Telemetry.Bus.{TelemetryRecord, is_newer}

module _ {A : Type 0} where
  pub drop-same : (m n : ℕ) (xs : List A) → m ≡ n → drop m xs ≡ drop n xs
  drop-same m n xs e = ap (λ k. drop k xs) e

  pub drop-append : (n : ℕ) (xs ys : List A) → n ≤ length xs → drop n (xs ++ ys) ≡ drop n xs ++ ys
  drop-append zero xs ys h = refl
  drop-append (suc n) [] ys h = absurd (omega arith)
  drop-append (suc n) (x ∷ xs) ys h = drop-append n xs ys (omega arith)

  pub drop-all : (n : ℕ) (xs : List A) → length xs ≤ n → drop n xs ≡ []
  drop-all zero [] h = refl
  drop-all (suc n) [] h = refl
  drop-all zero (x ∷ xs) h = absurd (omega arith)
  drop-all (suc n) (x ∷ xs) h = drop-all n xs (omega arith)

  pub drop-drop : (a b : ℕ) (xs : List A) → drop a (drop b xs) ≡ drop (b + a) xs
  drop-drop a zero xs = ap (λ n. drop n xs) (omega arith)
  drop-drop a (suc b) [] = drop-all a [] (omega arith) ∙ sym (drop-all (suc b + a) [] (omega arith))
  drop-drop a (suc b) (x ∷ xs) =
      drop-drop a b xs ∙ drop-same (suc (b + a)) (suc b + a) (x ∷ xs) (omega arith)

-- Where a replay starts: behind the last record that the client has seen.
abbrev pub seen : Option ℕ → ℕ
seen none = 0
seen (some since) = since

module _ {E : Type 0} where
  -- The records of events that are numbered on from `i`.
  abbrev pub numbered : ℕ → List (ℕ × E) → List (TelemetryRecord E)
  numbered i [] = []
  numbered i ((now, event) ∷ es) =
      record { id = i + 1; ts = now; event = event } ∷ numbered (i + 1) es

  pub length-numbered : (i : ℕ) (es : List (ℕ × E)) → length (numbered i es) ≡ length es
  length-numbered i [] = refl
  length-numbered i (e ∷ es) = ap suc (length-numbered (i + 1) es)

  -- Numbering from the same number.
  pub numbered-same :
      (i j : ℕ) (es fs : List (ℕ × E)) → i ≡ j → es ≡ fs → numbered i es ≡ numbered j fs
  numbered-same i j es fs e f = ap₂ numbered e f

  pub drop-numbered :
      (n i : ℕ) (es : List (ℕ × E)) → drop n (numbered i es) ≡ numbered (i + n) (drop n es)
  drop-numbered zero i es = numbered-same i (i + 0) es es (omega arith) refl
  drop-numbered (suc n) i [] = refl
  drop-numbered (suc n) i (e ∷ es) =
      drop-numbered n (i + 1) es
      ∙ numbered-same (i + 1 + n) (i + suc n) (drop n es) (drop n es) (omega arith) refl

  retain-numbered :
      (k i : ℕ) (es : List (ℕ × E))
      → retain (is_newer (some k)) (numbered i es) ≡ numbered (max k i) (drop (k - i) es)
  retain-numbered k i [] =
      numbered-same (max k i) (max k i) [] (drop (k - i) []) refl
        (sym (drop-all (k - i) [] (omega arith)))
  retain-numbered k i (e ∷ es) = elim (Bool-cases (ltb k (i + 1))) [
    | inl newer ↦
        rw (newer, retain)
          (ap (λ l. record { id = i + 1; ts = e.0; event = e.1 } ∷ l)
              (retain-numbered k (i + 1) es
                ∙ numbered-same (max k (i + 1)) (i + 1) (drop (k - (i + 1)) es) es (ground arith)
                    (drop-same (k - (i + 1)) 0 es (ground arith)))
            ∙ sym (
                numbered-same (max k i) i (drop (k - i) (e ∷ es)) (e ∷ es) (ground arith)
                  (drop-same (k - i) 0 (e ∷ es) (ground arith))))
    | inr older ↦
        rw (older, retain)
          (retain-numbered k (i + 1) es
            ∙ numbered-same (max k (i + 1)) (max k i) (drop (k - (i + 1)) es)
                (drop (k - i) (e ∷ es)) (ground arith)
                (drop-same (suc (k - (i + 1))) (k - i) (e ∷ es) (ground arith)))
  ]

  retain-none : (rs : List (TelemetryRecord E)) → retain (is_newer none) rs ≡ rs
  retain-none [] = refl
  retain-none (r ∷ rs) = ap (λ l. r ∷ l) (retain-none rs)

  pub retain-seen :
      (since : Option ℕ) (i : ℕ) (es : List (ℕ × E))
      → retain (is_newer since) (numbered i es)
        ≡ numbered (max (seen since) i) (drop (seen since - i) es)
  retain-seen none i es =
      retain-none (numbered i es)
      ∙ sym (
          numbered-same (max 0 i) i (drop (0 - i) es) es (omega arith)
            (drop-same (0 - i) 0 es (omega arith)))
  retain-seen (some since) i es = retain-numbered since i es
