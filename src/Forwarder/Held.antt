-- ===== src/Forwarder/Held.antt =====
-- crates/booth-bin/src/observability.rs: where an event can be that the forwarder has not lost.
use telephone_booth.Base.{
  ℕ, zero, suc, ◌-◌, ◌≤◌, ◌<◌, false, Option, none, some, List, [], ◌∷◌, length, drop, ◌≡◌, ◌⊎◌,
  inl, inr, All, arith,
}
pub use telephone_booth.Base.Members.{In, In-left, In-right, In-split}
use telephone_booth.EventSpool.Files.{
  Name, BatchFile, Content, batch, corrupt, unreadable, Directory, same_name,
}
use telephone_booth.EventSpool.Split.{chunks_from}
use telephone_booth.Forwarder.Store.{Store}

module _ {A : Type 0} where
  -- In one of the lists.
  abbrev pub InAny : A → List (List A) → Type 0
  InAny x [] = ⊥
  InAny x (l ∷ ls) = In x l ⊎ InAny x ls

  length-drop_le : (n : ℕ) (xs : List A) → length (drop n xs) ≤ length xs - n
  length-drop_le zero xs = omega arith
  length-drop_le (suc n) [] = omega arith
  length-drop_le (suc n) (x ∷ xs) = omega (arith, length-drop_le n xs)

  pub InAny-chunks_from :
      (x : A) (fuel size : ℕ) (xs : List A)
      → 0 < size
      → length xs ≤ fuel
      → In x xs
      → InAny x (chunks_from fuel size xs)
  unfolding chunks_from
  InAny-chunks_from x zero size [] some_size enough h = elim h [ ]
  InAny-chunks_from x (suc fuel) size [] some_size enough h = elim h [ ]
  InAny-chunks_from x zero size (y ∷ xs) some_size enough h = absurd (omega arith)
  InAny-chunks_from x (suc fuel) size (y ∷ xs) some_size enough h =
      elim (In-split x size (y ∷ xs) h) [
        | inl front ↦ inl front
        | inr back ↦ inr (
            InAny-chunks_from x fuel size (drop size (y ∷ xs)) some_size
              (omega (arith, length-drop_le size (y ∷ xs))) back)
      ]

module _ {E : Type 0} where
  abbrev pub InFile : E → Content E → Type 0
  InFile x (batch events) = In x events
  InFile x corrupt = ⊥
  InFile x unreadable = ⊥

  abbrev pub InDirectory : E → Directory E → Type 0
  InDirectory x [] = ⊥
  InDirectory x (f ∷ fs) = InFile x f.content ⊎ InDirectory x fs

  abbrev pub InSpool : E → Option (Directory E) → Type 0
  InSpool x none = ⊥
  InSpool x (some d) = InDirectory x d

  -- With the operator or in the spool.
  abbrev pub IsStored : E → Store E → Type 0
  IsStored x s = In x s.acknowledged ⊎ InSpool x s.spool

  -- With the operator, in the spool, or in the buffer.
  abbrev pub IsHeld : E → Store E → Type 0
  IsHeld x s = In x s.acknowledged ⊎ InSpool x s.spool ⊎ In x s.batch

  -- No file of the directory has the name.
  abbrev pub IsFresh : Name → Directory E → Type 0
  IsFresh name d = All (λ (g : BatchFile E). same_name name g.name ≡ false) d

  -- Names are those of one directory each, and batches hold no more than `most` events.
  abbrev pub IsDistinct : Directory E → Type 0
  IsDistinct [] = Unit
  IsDistinct (f ∷ fs) = IsFresh f.name fs × IsDistinct fs

  abbrev pub IsWithin : ℕ → BatchFile E → Type 0
  IsWithin most f = (events : List E) → f.content ≡ batch events → length events ≤ most

  pub record IsSpool (most : ℕ) (d : Directory E) : Type 0 where
    pub distinct : IsDistinct d
    pub within : All (IsWithin most) d
