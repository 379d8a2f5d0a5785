-- ===== src/Forwarder/Spilled.antt =====
-- crates/booth-bin/src/event_spool.rs: what a spill and a removal leave in the directory.
use Prim.Native.Nat.{max}
use telephone_booth.Base.{
  ℕ, suc, ◌+◌, ◌-◌, ◌≤◌, ◌<◌, ◌^◌, Bool, true, false, not, String, none, some, List, [], ◌∷◌,
  length, drop, ◌≡◌, refl, sym, ap, subst, ◌∙◌, inl, inr, All, if◌then◌else◌, if_cases, ltb, arith,
}
use telephone_booth.EventSpool.Files.{
  Name, sequenced, legacy, BatchFile, Content, batch, corrupt, unreadable, Directory, Disk, obeys,
  write_fails, sync_fails, key_less, same_name, put_file, spill, enforce_cap, max_sequence,
  batch_sequence,
}
use telephone_booth.EventSpool.Newest.{enforce_cap-drop}
use telephone_booth.Forwarder.Held.{In, InFile, InDirectory, IsFresh, IsDistinct, IsWithin, IsSpool}

module _ (less_text : String → String → Bool) {E : Type 0} where
  put-old :
      (x : E) (f : BatchFile E) (d : Directory E)
      → IsFresh f.name d
      → InDirectory x d
      → InDirectory x (put_file less_text f d)
  unfolding put_file
  put-old x f [] fresh h = elim h [ ]
  put-old x f (g ∷ gs) (other, fresh) (inl h) = rw other (
      if_cases (InDirectory x) (key_less less_text f.name g.name) (f ∷ g ∷ gs)
        (g ∷ put_file less_text f gs) (inr (inl h)) (inl h))
  put-old x f (g ∷ gs) (other, fresh) (inr h) = rw other (
      if_cases (InDirectory x) (key_less less_text f.name g.name) (f ∷ g ∷ gs)
        (g ∷ put_file less_text f gs) (inr (inr h)) (inr (put-old x f gs fresh h)))

  -- What holds of the file, of the directory and of one before another file.
  put_cases :
      (P : Directory E → Type 0) (f : BatchFile E) (d : Directory E)
      → P (f ∷ [])
      → ((g : BatchFile E) (gs : Directory E) → P (f ∷ gs))
      → ((g : BatchFile E) (gs : Directory E) → P (f ∷ g ∷ gs))
      → ((g : BatchFile E) (gs : Directory E) → P gs → P (g ∷ gs))
      → P (put_file less_text f d)
  unfolding put_file
  put_cases P f [] single over before after = single
  put_cases P f (g ∷ gs) single over before after =
      if_cases P (same_name f.name g.name) (f ∷ gs)
        (if key_less less_text f.name g.name then f ∷ g ∷ gs else g ∷ put_file less_text f gs)
        (over g gs)
        (if_cases P (key_less less_text f.name g.name) (f ∷ g ∷ gs) (g ∷ put_file less_text f gs)
          (before g gs)
          (after g (put_file less_text f gs) (put_cases P f gs single over before after)))

  put-new :
      (x : E) (f : BatchFile E) (d : Directory E)
      → InFile x f.content
      → InDirectory x (put_file less_text f d)
  put-new x f d h =
      put_cases (InDirectory x) f d (inl h) (λ g gs. inl h) (λ g gs. inl h) (λ g gs k. inr k)

  put-All :
      (P : BatchFile E → Type 0) (f : BatchFile E) (d : Directory E)
      → P f
      → All P d
      → All P (put_file less_text f d)
  unfolding put_file
  put-All P f [] p ps = (p, ps)
  put-All P f (g ∷ gs) p (q, ps) =
      if_cases (All P) (same_name f.name g.name) (f ∷ gs)
        (if key_less less_text f.name g.name then f ∷ g ∷ gs else g ∷ put_file less_text f gs)
        (p, ps)
        (if_cases (All P) (key_less less_text f.name g.name) (f ∷ g ∷ gs)
          (g ∷ put_file less_text f gs) (p, (q, ps)) (q, put-All P f gs p ps))

  length-put :
      (f : BatchFile E) (d : Directory E) → length (put_file less_text f d) ≤ suc (length d)
  unfolding put_file
  length-put f [] = omega arith
  length-put f (g ∷ gs) =
      if_cases (λ d. length d ≤ suc (suc (length gs))) (same_name f.name g.name) (f ∷ gs)
        (if key_less less_text f.name g.name then f ∷ g ∷ gs else g ∷ put_file less_text f gs)
        (omega arith)
        (if_cases (λ d. length d ≤ suc (suc (length gs))) (key_less less_text f.name g.name)
          (f ∷ g ∷ gs) (g ∷ put_file less_text f gs) (omega arith) (omega (arith, length-put f gs)))

  put-IsDistinct :
      (f : BatchFile E) (d : Directory E)
      → IsFresh f.name d
      → All (λ (g : BatchFile E). same_name g.name f.name ≡ false) d
      → IsDistinct d
      → IsDistinct (put_file less_text f d)
  unfolding put_file
  put-IsDistinct f [] fresh back h = (fresh, h)
  put-IsDistinct f (g ∷ gs) (other, fresh) (back, backs) (h, hs) = rw other (
      if_cases IsDistinct (key_less less_text f.name g.name) (f ∷ g ∷ gs)
        (g ∷ put_file less_text f gs) ((other, fresh), (h, hs))
        (
          put-All (λ e. same_name g.name e.name ≡ false) f gs back h,
          put-IsDistinct f gs fresh backs hs,
        ))

-- The sequence, if there is one, is less.
abbrev IsBelow : ℕ → Name → Type 0
IsBelow n (sequenced s parts) = s < n
IsBelow n (legacy modified name) = Unit

first-IsBelow :
    (n rest : ℕ) (name : Name)
    → elim (batch_sequence name) [ none ↦ rest | some s ↦ max s rest ] < n
    → IsBelow n name × rest < n
unfolding batch_sequence
first-IsBelow n rest (sequenced s parts) h = (omega arith, omega arith)
first-IsBelow n rest (legacy modified name) h = (_, h)

below-fresh :
    (n : ℕ) (name : Name)
    → IsBelow n name
    → (same_name (sequenced n []) name ≡ false) × (same_name name (sequenced n []) ≡ false)
unfolding same_name
below-fresh n (sequenced s parts) h = (ground arith, ground arith)
below-fresh n (legacy modified name) h = (refl, refl)

module _ {E : Type 0} where
  All-map :
      (P Q : BatchFile E → Type 0) (d : Directory E)
      → ((f : BatchFile E) → P f → Q f)
      → All P d
      → All Q d
  All-map P Q [] imp h = h
  All-map P Q (f ∷ fs) imp (p, ps) = (imp f p, All-map P Q fs imp ps)

  max-IsBelow :
      (n : ℕ) (d : Directory E) → max_sequence d < n → All (λ (f : BatchFile E). IsBelow n f.name) d
  unfolding max_sequence
  max-IsBelow n [] h = _
  max-IsBelow n (f ∷ fs) h =
      let (first, rest) = first-IsBelow n (max_sequence fs) f.name h in
      (first, max-IsBelow n fs rest)

  abbrev size_of : Content E → ℕ
  size_of (batch events) = length events
  size_of corrupt = 0
  size_of unreadable = 0

  enforce_cap-room :
      (max_files : ℕ) (d : Directory E) → length d ≤ max_files → enforce_cap max_files d ≡ d
  enforce_cap-room max_files d room =
      enforce_cap-drop max_files d
      ∙ ap (λ n. drop n d) {x = length d - max_files} {y = 0} (omega arith)

-- A spill of a chunk into a directory under the cap.
pub record IsSpilled {E : Type 0} (most : ℕ) (chunk : List E) (d : Directory E) (works : Bool)
    (d' : Directory E) : Type 0 where
  pub old : (x : E) → InDirectory x d → InDirectory x d'
  pub new : works ≡ true → (x : E) → In x chunk → InDirectory x d'
  pub spool : IsSpool most d → IsSpool most d'
  pub longer : length d' ≤ suc (length d)

module _ (less_text : String → String → Bool) {E : Type 0} where
  -- The next file.
  abbrev next_file : List E → Directory E → BatchFile E
  next_file chunk d = record { name = sequenced (max_sequence d + 1) []; content = batch chunk }

  put-IsSpilled :
      (most : ℕ) (chunk : List E) (d : Directory E) (works : Bool)
      → length chunk ≤ most
      → IsSpilled most chunk d works (put_file less_text (next_file chunk d) d)
  put-IsSpilled most chunk d works few =
      let f = next_file chunk d in
      let below = max-IsBelow (max_sequence d + 1) d (omega arith) in
      let fresh =
        All-map _ (λ g. same_name f.name g.name ≡ false) d
          (λ g h. (below-fresh (max_sequence d + 1) g.name h).0) below in
      let back =
        All-map _ (λ g. same_name g.name f.name ≡ false) d
          (λ g h. (below-fresh (max_sequence d + 1) g.name h).1) below in
      record {
        old = λ x h. put-old less_text x f d fresh h;
        new = λ ok x h. put-new less_text x f d h;
        spool = λ h. record {
          distinct = put-IsDistinct less_text f d fresh back h.distinct;
          within =
              put-All less_text (IsWithin most) f d (λ events e. omega (arith, ap size_of e))
                h.within;
        };
        longer = length-put less_text f d;
      }

  same-IsSpilled : (most : ℕ) (chunk : List E) (d : Directory E) → IsSpilled most chunk d false d
  same-IsSpilled most chunk d = record {
    old = λ x h. h;
    new = λ ok x h. absurd (cc);
    spool = λ h. h;
    longer = omega arith;
  }

  pub spill-IsSpilled :
      (max_files most : ℕ) (disk : Disk) (chunk : List E) (d : Directory E)
      → length chunk ≤ most
      → length d < max_files
      → let (works, d') = spill less_text max_files disk chunk d in IsSpilled most chunk d works d'
  unfolding spill
  spill-IsSpilled max_files most obeys chunk d few room =
      let put = put_file less_text (next_file chunk d) d in
      if_cases (λ (p : Bool × Directory E). IsSpilled most chunk d p.0 p.1)
        (not (ltb (max_sequence d + 1) (2 ^ 64))) (false, d) (true, enforce_cap max_files put)
        (same-IsSpilled most chunk d)
        (subst (λ e. IsSpilled most chunk d true e)
          (sym (
            enforce_cap-room max_files put
              (omega (arith, length-put less_text (next_file chunk d) d))))
          (put-IsSpilled most chunk d true few))
  spill-IsSpilled max_files most write_fails chunk d few room =
      if_cases (λ (p : Bool × Directory E). IsSpilled most chunk d p.0 p.1)
        (not (ltb (max_sequence d + 1) (2 ^ 64))) (false, d) (false, d)
        (same-IsSpilled most chunk d) (same-IsSpilled most chunk d)
  spill-IsSpilled max_files most sync_fails chunk d few room =
      if_cases (λ (p : Bool × Directory E). IsSpilled most chunk d p.0 p.1)
        (not (ltb (max_sequence d + 1) (2 ^ 64))) (false, d)
        (false, put_file less_text (next_file chunk d) d) (same-IsSpilled most chunk d)
        (put-IsSpilled most chunk d false few)
