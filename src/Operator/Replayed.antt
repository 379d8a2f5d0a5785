-- ===== src/Operator/Replayed.antt =====
-- crates/booth-bin/src/lib.rs, `spawn_upload_replay`: a sweep loses nothing, and begins after the last one.
use telephone_booth.Base.{
  ℕ, Bool, true, false, not, String, Option, none, some, List, [], ◌∷◌, ◌++◌, append_assoc, All,
  All-append, ◌≡◌, refl, sym, ◌∙◌, inl, inr, if◌then◌else◌, if_cases, Bool-cases, Option-cases,
}
use telephone_booth.Hal.{RecordingId}
use telephone_booth.Operator.Upload.{OperatorClient}
use telephone_booth.Operator.Spool.{contains, claim, contains-release, contains-claim}
use telephone_booth.Operator.Lawful.{IsLawful}
use telephone_booth.Operator.UploadTask.{Booth}
use telephone_booth.Operator.Durable.{IsSafe, kept-IsSafe, upload_and_dequeue-IsSafe}
use telephone_booth.Operator.Replay.{
  Turn, Sweep, rotated, sweep_order, replay_entry, replay_upload, drop_claim, size_of,
  replay_claimed, replay_turn, replay_sweep, replay_pass,
}

module _ {W : Type 0} (client : OperatorClient W) (Stored : W → RecordingId → Type 0)
    (law : IsLawful client Stored) (r : RecordingId) where
  abbrev Keeps : Booth W → Type 0
  Keeps b = IsSafe client Stored law b r

  replay_entry-IsSafe :
      (t : Turn) (size : Option ℕ) (w : Sweep W)
      → Keeps w.booth
      → Keeps (replay_entry client t size w).1.booth
  unfolding replay_entry
  replay_entry-IsSafe t none w h = h
  replay_entry-IsSafe t (some bytes) w h =
      upload_and_dequeue-IsSafe client Stored law (replay_upload t.entry bytes) t.dequeue_works
        w.booth r h

  replay_claimed-IsSafe :
      (t : Turn) (w : Sweep W) → Keeps w.booth → Keeps (replay_claimed client t w).1.booth
  unfolding replay_claimed
  replay_claimed-IsSafe t w h =
      let sized = replay_entry client t (size_of t.entry t.metadata_len) w in
      let absent = not (contains t.entry.recording_id w.booth.spool) in
      if_cases (λ run. Keeps run.1.booth) t.inspect_fails (true, w)
        (if absent then (true, w) else sized) h
        (if_cases (λ run. Keeps run.1.booth) absent (true, w) sized h
          (replay_entry-IsSafe t (size_of t.entry t.metadata_len) w h))

  replay_turn-IsSafe :
      (t : Turn) (w : Sweep W) → Keeps w.booth → Keeps (replay_turn client t w).1.booth
  unfolding replay_turn
  replay_turn-IsSafe t w h = elim (Bool-cases t.accepting_calls) [
    | inr closed ↦ rw (closed, replay_turn) h
    | inl accepted ↦ elim (Option-cases (claim t.entry.recording_id w.booth.spool)) [
      | inl taken ↦ rw (accepted, taken, replay_turn) h
      | inr (spool, free) ↦
          let claimed = record w { booth = record w.booth { spool = spool } } in
          rw (accepted, free, replay_turn)
            (dropped t.entry.recording_id (replay_claimed client t claimed).1 (
              replay_claimed-IsSafe t claimed (
                kept-IsSafe client Stored law w.booth claimed.booth r refl
                  (contains-claim t.entry.recording_id r w.booth.spool spool free) h)))
    ]
  ]
    where
      dropped : (id : String) (w : Sweep W) → Keeps w.booth → Keeps (drop_claim id w).booth
      dropped id w =
          kept-IsSafe client Stored law w.booth (drop_claim id w).booth r refl
            (λ waits. contains-release id r w.booth.spool ∙ waits)

  replay_sweep-IsSafe :
      (ts : List Turn) (w : Sweep W) → Keeps w.booth → Keeps (replay_sweep client ts w).booth
  unfolding replay_sweep
  replay_sweep-IsSafe [] w h = h
  replay_sweep-IsSafe (t ∷ ts) w h =
      let run = replay_turn client t w in
      if_cases (λ w'. Keeps w'.booth) run.0 (replay_sweep client ts run.1) run.1
        (replay_sweep-IsSafe ts run.1 (replay_turn-IsSafe t w h)) (replay_turn-IsSafe t w h)

  -- A sweep over the spool leaves each recording that waits there, or that the operator has, waiting
  -- there or with the operator, whatever the gate, the disk and the operator answer, if the operator
  -- keeps its promises.
  pub replay_pass-IsSafe :
      (less : String → String → Bool) (ts : List Turn) (w : Sweep W)
      → Keeps w.booth
      → Keeps (replay_pass client less ts w).booth
  unfolding replay_pass
  replay_pass-IsSafe less ts w h = replay_sweep-IsSafe (sweep_order less w.last_attempt ts) w h

module _ (less : String → String → Bool) (last : String) where
  -- Does the name of the entry come after the last one?
  abbrev pub IsLater : Turn → Type 0
  IsLater t = less last t.entry.recording_id ≡ true

  abbrev pub IsEarlier : Turn → Type 0
  IsEarlier t = less last t.entry.recording_id ≡ false

  -- The first one, if there is one, does.
  abbrev pub BeginsLater : List Turn → Type 0
  BeginsLater [] = Unit {0}
  BeginsLater (t ∷ ts) = IsLater t

  -- A scan cut into the entries up to the last attempt and those that follow, and the order of it.
  pub record IsRotated (scan order : List Turn) : Type 0 where
    pub earlier : List Turn
    pub later : List Turn
    pub cut : scan ≡ earlier ++ later
    pub joined : order ≡ later ++ earlier
    pub up_to : All IsEarlier earlier
    pub begins : BeginsLater later

  rotated-IsRotated :
      (seen ts : List Turn)
      → All IsEarlier seen
      → IsRotated (seen ++ ts) (rotated less last seen ts)
  unfolding rotated
  rotated-IsRotated seen [] h = record {
    earlier = seen;
    later = [];
    cut = refl;
    joined = refl;
    up_to = h;
    begins = tt;
  }
  rotated-IsRotated seen (t ∷ ts) h = elim (Bool-cases (less last t.entry.recording_id)) [
    | inl after ↦ record {
      earlier = seen;
      later = t ∷ ts;
      cut = refl;
      joined = rw (after, rotated) refl;
      up_to = h;
      begins = after;
    }
    | inr before ↦
        let rest =
          rotated-IsRotated (seen ++ t ∷ []) ts
            (All-append IsEarlier seen (t ∷ []) h (before, tt)) in
        record {
          earlier = rest.earlier;
          later = rest.later;
          cut = sym (append_assoc seen (t ∷ []) ts) ∙ rest.cut;
          joined = rw (before, rotated) rest.joined;
          up_to = rest.up_to;
          begins = rest.begins;
        }
  ]

  -- A sweep takes every entry of the scan once, and begins with the first whose name comes after the
  -- last attempt, if there is one: the entries before that one come last, in their order.
  sweep_order-IsRotated : (scan : List Turn) → IsRotated scan (sweep_order less (some last) scan)
  unfolding sweep_order
  sweep_order-IsRotated scan = rotated-IsRotated [] scan tt
