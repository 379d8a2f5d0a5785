-- ===== src/Forwarder/Replayed.antt =====
-- crates/booth-bin/src/observability.rs: what the replay of a spooled batch keeps.
use mathlib.Core.Option
use telephone_booth.Base.{
  ℕ, suc, ◌≤◌, Bool, true, false, not, String, Option, none, some, List, [], ◌∷◌, ◌++◌, length, ◌≡◌,
  refl, sym, ap, subst, ◌∙◌, inl, inr, retain, All, ltb, arith,
}
use telephone_booth.EventSpool.Files.{
  Name, BatchFile, Content, batch, corrupt, unreadable, Directory, same_name, remove_file,
  oldest_batch,
}
use telephone_booth.EventSpool.Split.{SplitDisk}
use telephone_booth.Forwarder.Store.{
  Answer, accepted, unsupported, installation_inactive, refused, Store,
}
use telephone_booth.Forwarder.Task.{answered, replay_batch, replay_one_batch}
use telephone_booth.Forwarder.Held.{
  In-left, In-right, InFile, InDirectory, IsFresh, IsDistinct, IsWithin, IsSpool,
}
use telephone_booth.Forwarder.Flushed.{is_supported, HasRoom, Keeps}

abbrev pub is_fine : Option Answer → Bool
is_fine none = true
is_fine (some a) = is_supported a

module _ {E : Type 0} where
  retain-All :
      (P : BatchFile E → Type 0) (test : BatchFile E → Bool) (d : Directory E)
      → All P d
      → All P (retain test d)
  retain-All P test [] h = h
  retain-All P test (f ∷ fs) (p, ps) =
      elim (test f)
        as (λ b. All P (elim b [ true ↦ f ∷ retain test fs | false ↦ retain test fs ])) [
          | true ↦ (p, retain-All P test fs ps)
          | false ↦ retain-All P test fs ps
        ]

  retain-IsDistinct :
      (test : BatchFile E → Bool) (d : Directory E) → IsDistinct d → IsDistinct (retain test d)
  retain-IsDistinct test [] h = h
  retain-IsDistinct test (f ∷ fs) (h, hs) =
      elim (test f)
        as (λ b. IsDistinct (elim b [ true ↦ f ∷ retain test fs | false ↦ retain test fs ])) [
          | true ↦ (
            retain-All (λ g. same_name f.name g.name ≡ false) test fs h,
            retain-IsDistinct test fs hs,
          )
          | false ↦ retain-IsDistinct test fs hs
        ]

  length-retain : (test : BatchFile E → Bool) (d : Directory E) → length (retain test d) ≤ length d
  length-retain test [] = omega arith
  length-retain test (f ∷ fs) =
      elim (test f)
        as (λ b.
          length (elim b [ true ↦ f ∷ retain test fs | false ↦ retain test fs ])
          ≤ suc (length fs)) [
            | true ↦ omega (arith, length-retain test fs)
            | false ↦ omega (arith, length-retain test fs)
          ]

  -- Nothing of another name is removed.
  remove_fresh : (name : Name) (d : Directory E) → IsFresh name d → remove_file name d ≡ d
  unfolding remove_file
  remove_fresh name [] h = refl
  remove_fresh name (f ∷ fs) (other, fresh) =
      let rest = retain (λ (g : BatchFile E). not (same_name name g.name)) fs in
      ap (λ b. elim (not b) as (λ _. Directory E) [ true ↦ f ∷ rest | false ↦ rest ]) other
      ∙ ap (λ l. f ∷ l) (remove_fresh name fs fresh)

  remove-first :
      (x : E) (f : BatchFile E) (fs : Directory E)
      → IsFresh f.name fs
      → InDirectory x fs
      → InDirectory x (remove_file f.name (f ∷ fs))
  unfolding remove_file
  remove-first x f fs fresh h =
      let rest = retain (λ (g : BatchFile E). not (same_name f.name g.name)) fs in
      let h' = subst (InDirectory x) (sym (remove_fresh f.name fs fresh)) h in
      elim (not (same_name f.name f.name))
        as (λ b. InDirectory x (elim b [ true ↦ f ∷ rest | false ↦ rest ])) [
          | true ↦ inr h'
          | false ↦ h'
        ]

  remove-IsSpool :
      (most : ℕ) (name : Name) (d : Directory E)
      → IsSpool most d
      → IsSpool most (remove_file name d)
  unfolding remove_file
  remove-IsSpool most name d h = record {
    distinct = retain-IsDistinct _ d h.distinct;
    within = retain-All (IsWithin most) _ d h.within;
  }

  length-remove : (name : Name) (d : Directory E) → length (remove_file name d) ≤ length d
  unfolding remove_file
  length-remove name d = length-retain _ d

module _ (less_text : String → String → Bool) (max_files : ℕ) {E : Type 0} (most : ℕ) where
  -- The store that a replay leaves, unless the booth shuts down meanwhile.
  abbrev pub Kept : ℕ → Store E → Option (Store E) → Type 0
  Kept more s none = Unit
  Kept more s (some s') = Keeps less_text max_files most more s s'

  removed-Keeps :
      (more : ℕ) (f : BatchFile E) (events : List E) (fs : Directory E) (b acknowledged : List E)
      → f.content ≡ batch events
      → HasRoom less_text max_files most more (some (f ∷ fs))
      → let s : Store E = record {
        batch = b;
        spool = some (f ∷ fs);
        acknowledged = acknowledged;
      } in
        Keeps less_text max_files most more s (record {
          batch = b;
          spool = some (remove_file f.name (f ∷ fs));
          acknowledged = acknowledged ++ events;
        })
  removed-Keeps more f events fs b acknowledged content (spool, room) = record {
    held = λ x h. elim h [
      | inl known ↦ inl (In-left x acknowledged events known)
      | inr (inl (inl first)) ↦
          inl (In-right x acknowledged events (subst (InFile x) content first))
      | inr (inl (inr later)) ↦ inr (inl (remove-first x f fs (spool.distinct).0 later))
      | inr (inr buffered) ↦ inr (inr buffered)
    ];
    room =
        (remove-IsSpool most f.name (f ∷ fs) spool, omega (arith, length-remove f.name (f ∷ fs)));
  }

  replay_batch-Kept :
      (more : ℕ) (answer : Option Answer) (split : SplitDisk) (f : BatchFile E) (events : List E)
      (fs : Directory E) (b acknowledged : List E)
      → f.content ≡ batch events
      → is_fine answer ≡ true
      → HasRoom less_text max_files most more (some (f ∷ fs))
      → let s : Store E = record {
        batch = b;
        spool = some (f ∷ fs);
        acknowledged = acknowledged;
      } in
        Kept more s (replay_batch less_text max_files answer split most f.name events (f ∷ fs) s)
  unfolding replay_batch answered
  replay_batch-Kept more answer split f events fs b acknowledged content fine room =
      let s : Store E = record { batch = b; spool = some (f ∷ fs); acknowledged = acknowledged } in
      let small : ltb most (length events) ≡ false =
        ground (arith, (room.0).within.0 events content) in
      rw small (go answer fine)
    where
      go :
          (answer : Option Answer)
          → is_fine answer ≡ true
          → Kept more
              (record { batch = b; spool = some (f ∷ fs); acknowledged = acknowledged })
              (Option.map
                (λ a.
                  answered less_text max_files a f.name events
                    (record { batch = b; spool = some (f ∷ fs); acknowledged = acknowledged }))
                answer)
      go none fine = _
      go (some accepted) fine = removed-Keeps more f events fs b acknowledged content room
      go (some unsupported) fine = absurd (cc)
      go (some installation_inactive) fine = record { held = λ x h. h; room = room }
      go (some refused) fine = record { held = λ x h. h; room = room }

  pub replay_one_batch-Kept :
      (more : ℕ) (answer : Option Answer) (split : SplitDisk) (s : Store E)
      → is_fine answer ≡ true
      → HasRoom less_text max_files most more s.spool
      → Kept more s (replay_one_batch less_text max_files answer split most s)
  unfolding replay_one_batch oldest_batch
  replay_one_batch-Kept more answer split s fine room = go s.spool room
    where
      kept :
          (o : Option (Directory E))
          → HasRoom less_text max_files most more o
          → Kept more (record s { spool = o }) (some (record s { spool = o }))
      kept o room = record { held = λ x h. h; room = room }

      first :
          (name : Name) (c : Content E) (fs : Directory E)
          → HasRoom less_text max_files most more (some (record { name = name; content = c } ∷ fs))
          → Kept more
              (record s { spool = some (record { name = name; content = c } ∷ fs) })
              (replay_one_batch less_text max_files answer split most
                (record s { spool = some (record { name = name; content = c } ∷ fs) }))
      first name (batch events) fs room =
          replay_batch-Kept more answer split (record { name = name; content = batch events })
            events fs s.batch s.acknowledged refl fine room
      first name corrupt fs (spool, room) = record {
        held = λ x h. elim h [
          | inl known ↦ inl known
          | inr (inl (inl here)) ↦ elim here [ ]
          | inr (inl (inr later)) ↦ inr (inl later)
          | inr (inr buffered) ↦ inr (inr buffered)
        ];
        room = (record { distinct = (spool.distinct).1; within = (spool.within).1 }, omega arith);
      }
      first name unreadable fs room = kept _ room

      go :
          (o : Option (Directory E))
          → HasRoom less_text max_files most more o
          → Kept more
              (record s { spool = o })
              (replay_one_batch less_text max_files answer split most (record s { spool = o }))
      go none room = kept none room
      go (some []) room = kept (some []) room
      go (some (f ∷ fs)) room = first f.name f.content fs room
