-- ===== src/EventSpool/Newest.antt =====
-- crates/booth-bin/src/event_spool.rs: what is spilled is drained in its order, the newest of it.
use telephone_booth.Base.{
  ℕ, zero, suc, ◌+◌, ◌-◌, ◌^◌, ◌≤◌, ◌<◌, Bool, true, String, List, [], ◌∷◌, ◌++◌, append-nil,
  append_assoc, length, length-append, drop, ◌≡◌, refl, ap, sym, ◌∙◌, ltb, inl, inr, Bool-cases,
  arith,
}
use telephone_booth.EventSpool.Files.{
  Name, sequenced, batch, Directory, obeys, same_name, parts_same, parts_less, batch_sequence,
  key_less, put_file, max_sequence, enforce_cap, spill, drain,
}

module _ {A : Type 0} where
  drop-append : (n : ℕ) (xs ys : List A) → n ≤ length xs → drop n (xs ++ ys) ≡ drop n xs ++ ys
  drop-append zero xs ys h = refl
  drop-append (suc n) [] ys h = absurd (omega arith)
  drop-append (suc n) (x ∷ xs) ys h = drop-append n xs ys (omega arith)

  drop-nil : (n : ℕ) → ◌≡◌ {A = List A} (drop n []) []
  drop-nil zero = refl
  drop-nil (suc n) = refl

  drop-drop : (m n : ℕ) (xs : List A) → drop m (drop n xs) ≡ drop (n + m) xs
  drop-drop m zero xs = ap (λ k. drop k xs) (omega arith)
  drop-drop m (suc n) [] = drop-nil m ∙ sym (drop-nil (suc n + m))
  drop-drop m (suc n) (x ∷ xs) =
      drop-drop m n xs ∙ ap (λ k. drop k (x ∷ xs)) {x = suc (n + m)} {y = suc n + m} (omega arith)

  length-drop : (n : ℕ) (xs : List A) → length (drop n xs) ≡ length xs - n
  length-drop zero xs = omega arith
  length-drop (suc n) [] = omega arith
  length-drop (suc n) (x ∷ xs) = omega (arith, length-drop n xs)

  -- The last so many.
  abbrev pub newest : ℕ → List A → List A
  newest count xs = drop (length xs - count) xs

  -- What is dropped earlier is not among the last.
  newest-drop :
      (count n : ℕ) (xs ys : List A)
      → n ≡ length xs - count
      → newest count (drop n xs ++ ys) ≡ newest count (xs ++ ys)
  newest-drop count n xs ys h =
      ap (newest count) (sym (drop-append n xs ys (omega arith)))
      ∙ drop-drop (length (drop n (xs ++ ys)) - count) n (xs ++ ys)
      ∙ ap (λ k. drop k (xs ++ ys)) (omega (arith, length-drop n (xs ++ ys), length-append xs ys))

module _ {E : Type 0} where
  abbrev pub batches_of : List (Name × List E) → List (List E)
  batches_of [] = []
  batches_of ((name, events) ∷ bs) = events ∷ batches_of bs

  -- Batches in files of consecutive sequences.
  abbrev numbered : ℕ → List (List E) → Directory E
  numbered k [] = []
  numbered k (b ∷ bs) =
      record { name = sequenced (suc k) []; content = batch b } ∷ numbered (suc k) bs

  length-numbered : (k : ℕ) (bs : List (List E)) → length (numbered k bs) ≡ length bs
  length-numbered k [] = refl
  length-numbered k (b ∷ bs) = ap suc (length-numbered (suc k) bs)

  drop-numbered :
      (n k : ℕ) (bs : List (List E))
      → n ≤ length bs
      → drop n (numbered k bs) ≡ numbered (k + n) (drop n bs)
  drop-numbered zero k bs h = ap (λ j. numbered j bs) (omega arith)
  drop-numbered (suc n) k [] h = absurd (omega arith)
  drop-numbered (suc n) k (b ∷ bs) h =
      drop-numbered n (suc k) bs (omega arith) ∙ ap (λ j. numbered j (drop n bs)) (omega arith)

  max-numbered :
      (k : ℕ) (b : List E) (bs : List (List E))
      → max_sequence (numbered k (b ∷ bs)) ≡ suc k + length bs
  unfolding max_sequence batch_sequence
  max-numbered k b [] = omega arith
  max-numbered k b (c ∷ bs) = omega (arith, max-numbered (suc k) c bs)

  next-numbered :
      (k : ℕ) (bs : List (List E))
      → (length bs ≡ 0 → k ≡ 0)
      → max_sequence (numbered k bs) + 1 ≡ suc (k + length bs)
  unfolding max_sequence
  next-numbered k [] empty = omega (arith, empty refl)
  next-numbered k (b ∷ bs) empty = omega (arith, max-numbered k b bs)

  pub enforce_cap-drop :
      (max_files : ℕ) (d : Directory E) → enforce_cap max_files d ≡ drop (length d - max_files) d
  unfolding enforce_cap
  enforce_cap-drop max_files d = elim (Bool-cases (ltb max_files (length d))) [
    | inl above ↦ rw (above, enforce_cap) refl
    | inr within ↦
        rw (within, enforce_cap)
          (ap (λ n. drop n d) {x = 0} {y = length d - max_files} (ground arith))
  ]

module _ (less_text : String → String → Bool) {E : Type 0} where
  put-numbered :
      (k : ℕ) (b : List E) (bs : List (List E))
      → put_file less_text
          (record { name = sequenced (suc (k + length bs)) []; content = batch b })
          (numbered k bs)
        ≡ numbered k (bs ++ b ∷ [])
  unfolding put_file same_name parts_same key_less parts_less
  put-numbered k b [] =
      ap (λ n. record { name = sequenced (suc n) []; content = batch b } ∷ []) (omega arith)
  put-numbered k b (c ∷ bs) = ground (arith, put-numbered (suc k) b bs)

  -- How many files the cap takes away.
  abbrev excess : ℕ → List (List E) → ℕ
  excess max_files bs = suc (length bs) - max_files

  spill-obeys :
      (max_files n : ℕ) (b : List E) (d : Directory E)
      → max_sequence d + 1 ≡ n
      → n < 2 ^ 64
      → spill less_text max_files obeys b d ≡ (
        true,
        enforce_cap max_files
            (put_file less_text (record { name = sequenced n []; content = batch b }) d),
      )
  unfolding spill
  spill-obeys max_files n b d e room = ground arith

  spill-numbered :
      (max_files k : ℕ) (b : List E) (bs : List (List E))
      → (length bs ≡ 0 → k ≡ 0)
      → 0 < max_files
      → suc (k + length bs) < 2 ^ 64
      → spill less_text max_files obeys b (numbered k bs)
        ≡ (true, numbered (k + excess max_files bs) (drop (excess max_files bs) (bs ++ b ∷ [])))
  spill-numbered max_files k b bs empty some_room room =
      spill-obeys max_files (suc (k + length bs)) b (numbered k bs) (next-numbered k bs empty) room
      ∙ ap (λ d. (true, d))
          (ap (enforce_cap max_files) (put-numbered k b bs)
            ∙ enforce_cap-drop max_files (numbered k (bs ++ b ∷ []))
            ∙ ap (λ n. drop n (numbered k (bs ++ b ∷ [])))
                (omega (arith, length-numbered k (bs ++ b ∷ []), length-append bs (b ∷ [])))
            ∙ drop-numbered (excess max_files bs) k (bs ++ b ∷ [])
                (omega (arith, length-append bs (b ∷ []))))

  -- Batches spilled one after another on a disk that obeys.
  abbrev pub spill_all : ℕ → List (List E) → Directory E → Directory E
  spill_all max_files [] d = d
  spill_all max_files (b ∷ bs) d = spill_all max_files bs (spill less_text max_files obeys b d).1

  drain-numbered : (k : ℕ) (bs : List (List E)) → batches_of (drain (numbered k bs)).0 ≡ bs
  unfolding drain
  drain-numbered k [] = refl
  drain-numbered k (b ∷ bs) = ap (λ l. b ∷ l) (drain-numbered (suc k) bs)

  spill_all-numbered :
      (max_files k : ℕ) (bs shown : List (List E))
      → (length shown ≡ 0 → k ≡ 0)
      → 0 < max_files
      → length shown ≤ max_files
      → k + length shown + length bs < 2 ^ 64
      → batches_of (drain (spill_all max_files bs (numbered k shown))).0
        ≡ newest max_files (shown ++ bs)
  spill_all-numbered max_files k [] shown empty some_room few room =
      drain-numbered k shown
      ∙ sym (
          ap (newest max_files) (append-nil shown)
          ∙ ap (λ n. drop n shown) {x = length shown - max_files} {y = 0} (omega arith))
  spill_all-numbered max_files k (b ∷ bs) shown empty some_room few room =
      let j = excess max_files shown in
      let shown' = drop j (shown ++ b ∷ []) in
      let long = length-drop j (shown ++ b ∷ []) in
      let longer = length-append shown (b ∷ []) in
      ap (λ d. batches_of (drain (spill_all max_files bs d.1)).0)
        (spill-numbered max_files k b shown empty some_room (omega arith))
      ∙ spill_all-numbered max_files (k + j) bs shown' (λ e. absurd (omega (arith, long, longer)))
          some_room (omega (arith, long, longer)) (omega (arith, long, longer))
      ∙ newest-drop max_files j (shown ++ b ∷ []) bs (omega (arith, longer))
      ∙ ap (newest max_files) (append_assoc shown (b ∷ []) bs)

  -- Batches that are spilled into an empty directory, fewer than 2^64 of them and on a disk that obeys,
  -- are drained in the order in which they were spilled: all of them, or the newest ones, as many as
  -- the cap allows, which is not 0.
  pub spill_all-drain :
      (max_files : ℕ) (bs : List (List E))
      → 0 < max_files
      → length bs < 2 ^ 64
      → batches_of (drain (spill_all max_files bs [])).0 ≡ newest max_files bs
  spill_all-drain max_files bs some_room room =
      spill_all-numbered max_files 0 bs [] (λ e. refl) some_room (omega arith) (omega arith)
