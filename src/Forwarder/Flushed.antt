-- ===== src/Forwarder/Flushed.antt =====
-- crates/booth-bin/src/observability.rs: what a flush and a spill keep of the buffer.
use Prim.Native.Nat.{min}
use telephone_booth.Base.{
  ℕ, zero, suc, ◌+◌, ◌/◌, ◌≤◌, Bool, true, false, String, Option, none, some, List, [], ◌∷◌, ◌++◌,
  length, take, drop, ◌≡◌, sym, subst, inl, inr, All, ltb, if_cases, Bool-cases, arith,
}
use telephone_booth.EventSpool.Files.{Directory, Disk, spill}
use telephone_booth.EventSpool.Split.{chunks_from, chunks}
use telephone_booth.Forwarder.Store.{
  Answer, accepted, unsupported, installation_inactive, refused, Flushed, flushed, retained, Store,
  effective_event_batch_max, spill_chunks, spill_remaining, maybe_spill, flush_once, after_flush,
  is_empty,
}
use telephone_booth.Forwarder.Held.{
  In-left, In-right, In-split, InAny, InAny-chunks_from, InDirectory, IsHeld, IsSpool,
}
use telephone_booth.Forwarder.Spilled.{spill-IsSpilled}

module _ {A : Type 0} where
  length-take_le : (n : ℕ) (xs : List A) → length (take n xs) ≤ n
  length-take_le zero xs = omega arith
  length-take_le (suc n) [] = omega arith
  length-take_le (suc n) (x ∷ xs) = omega (arith, length-take_le n xs)

  chunks_from-All :
      (fuel size : ℕ) (xs : List A)
      → All (λ (c : List A). length c ≤ size) (chunks_from fuel size xs)
  unfolding chunks_from
  chunks_from-All zero size xs = _
  chunks_from-All (suc fuel) size [] = _
  chunks_from-All (suc fuel) size (x ∷ xs) =
      (length-take_le size (x ∷ xs), chunks_from-All fuel size (drop size (x ∷ xs)))

abbrev pub is_supported : Answer → Bool
is_supported unsupported = false
is_supported _ = true

module _ (less_text : String → String → Bool) (max_files : ℕ) {E : Type 0} (most : ℕ) where
  -- The spool is in order and has room for so many files more.
  abbrev pub HasRoom : ℕ → Option (Directory E) → Type 0
  HasRoom more none = Unit
  HasRoom more (some d) = IsSpool most d × length d + more ≤ max_files

  -- Nothing that was held is lost, and there is room left.
  pub record Keeps (more : ℕ) (s s' : Store E) : Type 0 where
    pub held : (x : E) → IsHeld x s → IsHeld x s'
    pub room : HasRoom more s'.spool

  pub less-HasRoom :
      (more less : ℕ) (o : Option (Directory E)) → less ≤ more → HasRoom more o → HasRoom less o
  less-HasRoom more less none le h = _
  less-HasRoom more less (some d) le (spool, room) = (spool, omega arith)

  record AreSpilled (more : ℕ) (cs : List (List E)) (d : Directory E) (works : Bool)
      (d' : Directory E) : Type 0 where
    old : (x : E) → InDirectory x d → InDirectory x d'
    new : works ≡ true → (x : E) → InAny x cs → InDirectory x d'
    room : HasRoom more (some d')

  spill_chunks-AreSpilled :
      (more : ℕ) (disks : List Disk) (cs : List (List E)) (d : Directory E)
      → All (λ (c : List E). length c ≤ most) cs
      → HasRoom (length disks + more) (some d)
      → let (works, d') = spill_chunks less_text max_files disks cs d in
        AreSpilled more cs d works d'
  unfolding spill_chunks
  spill_chunks-AreSpilled more disks [] d few room = record {
    old = λ x h. h;
    new = λ ok x h. elim h [ ];
    room = less-HasRoom (length disks + more) more (some d) (omega arith) room;
  }
  spill_chunks-AreSpilled more [] (c ∷ cs) d few room = record {
    old = λ x h. h;
    new = λ ok x h. absurd (cc);
    room = less-HasRoom (0 + more) more (some d) (omega arith) room;
  }
  spill_chunks-AreSpilled more (disk ∷ disks) (c ∷ cs) d (few, rest_few) (spool, room) =
      let (works, d') = spill less_text max_files disk c d in
      let one = spill-IsSpilled less_text max_files most disk c d few (omega arith) in
      let longer : length d' ≤ suc (length d) = one.longer in
      let rest = spill_chunks-AreSpilled more disks cs d' rest_few (one.spool spool, omega arith) in
      elim (Bool-cases works) [
        | inl ok ↦ rw ok (record {
          old = λ x h. rest.old x (one.old x h);
          new = λ (all : (spill_chunks less_text max_files disks cs d').0 ≡ true) x h. elim h [
            | inl first ↦ rest.old x (one.new ok x first)
            | inr later ↦ rest.new all x later
          ];
          room = rest.room;
        })
        | inr fails ↦ rw fails (record {
          old = one.old;
          new = λ ok x h. absurd (cc);
          room = (one.spool spool, omega arith);
        })
      ]

  module _ (max_events : ℕ) (cap : most ≡ effective_event_batch_max max_events) where
    pub spill_remaining-Keeps :
        (more : ℕ) (disks : List Disk) (s : Store E)
        → HasRoom (length disks + more) s.spool
        → Keeps more s (spill_remaining less_text max_files disks max_events s)
    unfolding spill_remaining
    spill_remaining-Keeps more disks s room = go s.spool s.batch s.acknowledged room
      where
        go :
            (o : Option (Directory E)) (batch acknowledged : List E)
            → HasRoom (length disks + more) o
            → let s : Store E = record { batch = batch; spool = o; acknowledged = acknowledged } in
              Keeps more s (spill_remaining less_text max_files disks max_events s)
        go none batch acknowledged room = record { held = λ x h. h; room = _ }
        go (some d) batch acknowledged room =
            let s : Store E = record {
              batch = batch;
              spool = some d;
              acknowledged = acknowledged;
            } in
            let cs = chunks (effective_event_batch_max max_events) batch in
            let (works, d') = spill_chunks less_text max_files disks cs d in
            let all =
              spill_chunks-AreSpilled more disks cs d
                (subst (λ n. All (λ (c : List E). length c ≤ n) cs) (sym cap)
                  (chunks_from-All (length batch) (effective_event_batch_max max_events) batch))
                room in
            elim (Bool-cases works) [
              | inl ok ↦ rw ok (record {
                held = λ x h. elim h [
                  | inl known ↦ inl known
                  | inr (inl waits) ↦ inr (inl (all.old x waits))
                  | inr (inr buffered) ↦ inr (
                      inl (
                        all.new ok x (
                          InAny-chunks_from x (length batch) (effective_event_batch_max max_events)
                            batch (omega arith) (omega arith) buffered)))
                ];
                room = all.room;
              })
              | inr fails ↦ rw fails (record {
                held = λ x h. elim h [
                  | inl known ↦ inl known
                  | inr (inl waits) ↦ inr (inl (all.old x waits))
                  | inr (inr buffered) ↦ inr (inr buffered)
                ];
                room = all.room;
              })
            ]

    keep :
        (more : ℕ) (disks : List Disk) (s : Store E)
        → HasRoom (length disks + more) s.spool
        → Keeps more s s
    keep more disks s room = record {
      held = λ x h. h;
      room = less-HasRoom (length disks + more) more s.spool (omega arith) room;
    }

    pub maybe_spill-Keeps :
        (more : ℕ) (disks : List Disk) (buffer_max : ℕ) (s : Store E)
        → HasRoom (length disks + more) s.spool
        → Keeps more s (maybe_spill less_text max_files disks buffer_max max_events s)
    unfolding maybe_spill
    maybe_spill-Keeps more disks buffer_max s room =
        if_cases (Keeps more s) (ltb (length s.batch) (buffer_max / 2)) s
          (spill_remaining less_text max_files disks max_events s) (keep more disks s room)
          (spill_remaining-Keeps more disks s room)

    pub after_flush-Keeps :
        (more : ℕ) (disks : List Disk) (buffer_max : ℕ) (done was_failing : Bool) (s : Store E)
        → HasRoom (length disks + more) s.spool
        → Keeps more s
            (after_flush less_text max_files disks buffer_max max_events done was_failing s).1
    unfolding after_flush
    after_flush-Keeps more disks buffer_max true was_failing s room = keep more disks s room
    after_flush-Keeps more disks buffer_max false was_failing s room =
        maybe_spill-Keeps more disks buffer_max s room

    pub flush_once-Keeps :
        (more : ℕ) (disks : List Disk) (answers : List Answer) (s : Store E)
        → All (λ (a : Answer). is_supported a ≡ true) answers
        → HasRoom (length disks + more) s.spool
        → Keeps more s (flush_once less_text max_files disks max_events answers s).1
    unfolding flush_once
    flush_once-Keeps more disks [] s fine room = keep more disks s room
    flush_once-Keeps more disks (accepted ∷ answers) s (ok, fine) room =
        let taken = min (length s.batch) (effective_event_batch_max max_events) in
        let sent : Store E = record s {
          batch = drop taken s.batch;
          acknowledged = s.acknowledged ++ take taken s.batch;
        } in
        let rest = flush_once-Keeps more disks answers sent fine room in
        if_cases (λ (p : Flushed × Store E). Keeps more s p.1) (is_empty s.batch) (flushed, s)
          (flush_once less_text max_files disks max_events answers sent) (keep more disks s room)
          (record {
            held = λ x h. rest.held x (elim h [
              | inl known ↦ inl (In-left x s.acknowledged (take taken s.batch) known)
              | inr (inl waits) ↦ inr (inl waits)
              | inr (inr buffered) ↦ elim (In-split x taken s.batch buffered) [
                | inl front ↦ inl (In-right x s.acknowledged (take taken s.batch) front)
                | inr back ↦ inr (inr back)
              ]
            ]);
            room = rest.room;
          })
    flush_once-Keeps more disks (unsupported ∷ answers) s (ok, fine) room = absurd (cc)
    flush_once-Keeps more disks (installation_inactive ∷ answers) s fine room =
        if_cases (λ (p : Flushed × Store E). Keeps more s p.1) (is_empty s.batch) (flushed, s)
          (retained, spill_remaining less_text max_files disks max_events s)
          (keep more disks s room) (spill_remaining-Keeps more disks s room)
    flush_once-Keeps more disks (refused ∷ answers) s fine room = keep more disks s room
