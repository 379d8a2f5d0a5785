-- ===== src/Operator/Replay.antt =====
-- crates/booth-bin/src/lib.rs, `spawn_upload_replay`: one sweep over the spool. What the spool's scan
-- gives, sorted by name, is the input, with what the gate and the disk answer for each entry; the
-- order of names is a parameter.
use telephone_booth.Base.{
  ℕ, Bool, true, false, not, String, Option, none, some, List, [], ◌∷◌, ◌++◌, if◌then◌else◌,
}
use telephone_booth.Operator.Upload.{OperatorClient, Upload}
use telephone_booth.Operator.Spool.{SpoolEntry, contains, claim, release}
use telephone_booth.Operator.UploadTask.{Booth, upload_and_dequeue}

-- An entry of the scan, and what happens when its turn comes.
pub record Turn : Type 0 where
  pub entry : SpoolEntry
  pub accepting_calls : Bool
  -- the task that looks for the entry panics
  pub inspect_fails : Bool
  -- the size of the file, for an entry without one
  pub metadata_len : Option ℕ
  pub dequeue_works : Bool

pub record Sweep (W : Type 0) : Type 0 where
  pub booth : Booth W
  pub last_attempt : Option String

module _ (less : String → String → Bool) where
  -- `position`, `unwrap_or(0)` and `rotate_left`: the entries after the last attempt come first.
  unfoldable pub rotated : String → List Turn → List Turn → List Turn
  rotated last seen [] = seen
  rotated last seen (t ∷ ts) =
      let rest = rotated last (seen ++ t ∷ []) ts in
      if less last t.entry.recording_id then (t ∷ ts) ++ seen else rest

  unfoldable pub sweep_order : Option String → List Turn → List Turn
  unfolding rotated
  sweep_order none turns = turns
  sweep_order (some last) turns = rotated last [] turns

abbrev pub replay_upload : SpoolEntry → ℕ → Upload
replay_upload entry bytes = record {
  recording_id = entry.recording_id;
  question_id = entry.question_id;
  session_id = none;
  path = entry.path;
  bytes = bytes;
  duration_ms = entry.duration_ms;
  notified = false;
  has_source = true;
}

abbrev pub size_of : SpoolEntry → Option ℕ → Option ℕ
size_of entry metadata_len = elim entry.size_bytes [ some n ↦ some n | none ↦ metadata_len ]

-- The claim is dropped at the end of an entry's turn.
abbrev pub drop_claim : {W : Type 0} → String → Sweep W → Sweep W
drop_claim r w = record w { booth = record w.booth { spool = release r w.booth.spool } }

module _ {W : Type 0} (client : OperatorClient W) where
  -- The turn of an entry that is there, with its size.
  unfoldable pub replay_entry : Turn → Option ℕ → Sweep W → Bool × Sweep W
  unfolding upload_and_dequeue
  replay_entry t none w = (true, record w { last_attempt = some t.entry.recording_id })
  replay_entry t (some bytes) w =
      let (success, booth) =
        upload_and_dequeue client (replay_upload t.entry bytes) t.dequeue_works w.booth in
      (success, record { booth = booth; last_attempt = some t.entry.recording_id })

  -- The turn of an entry whose claim is held; does the sweep go on?
  unfoldable pub replay_claimed : Turn → Sweep W → Bool × Sweep W
  unfolding replay_entry
  replay_claimed t w =
      if t.inspect_fails
      then (true, w)
      else if not (contains t.entry.recording_id w.booth.spool)
      then (true, w)
      else replay_entry t (size_of t.entry t.metadata_len) w

  unfoldable pub replay_turn : Turn → Sweep W → Bool × Sweep W
  unfolding replay_claimed
  replay_turn t w =
      if not t.accepting_calls
      then (false, w)
      else elim (claim t.entry.recording_id w.booth.spool) [
        | none ↦ (true, w)
        | some spool ↦
            let (goes_on, w') =
              replay_claimed t (record w { booth = record w.booth { spool = spool } }) in
            (goes_on, drop_claim t.entry.recording_id w')
      ]

  unfoldable pub replay_sweep : List Turn → Sweep W → Sweep W
  replay_sweep [] w = w
  replay_sweep (t ∷ ts) w =
      let (goes_on, w') = replay_turn t w in
      let rest = replay_sweep ts w' in if goes_on then rest else w'

  -- A sweep over the turns in the order of their entries' names.
  unfoldable pub replay_pass : (String → String → Bool) → List Turn → Sweep W → Sweep W
  unfolding replay_sweep sweep_order
  replay_pass less turns w = replay_sweep (sweep_order less w.last_attempt turns) w
