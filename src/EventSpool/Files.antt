-- ===== src/EventSpool/Files.antt =====
-- crates/booth-bin/src/event_spool.rs: `EventSpool`. The directory is the list of its batch files in the
-- order of their keys; a name is what `batch_sort_key` reads in it, and events are of any type. What
-- the disk answers is part of the input.
use telephone_booth.Base.{
  ℕ, ◌+◌, ◌-◌, ◌^◌, Bool, true, false, not, ◌&&◌, ◌||◌, String, str_eq, Option, none, some, List,
  [], ◌∷◌, length, drop, retain, ltb, ◌==◌, if◌then◌else◌,
}
use Prim.Native.Nat.{max}

-- sequence and parts; or the time of modification and the name of a file from an older version
pub data Name : Type 0 where
  sequenced : ℕ → List ℕ → Name
  legacy : ℕ → String → Name

pub data Content (E : Type 0) : Type 0 where
  batch : List E → Content E
  corrupt unreadable : Content E

pub record BatchFile (E : Type 0) : Type 0 where
  pub name : Name
  pub content : Content E

abbrev pub Directory : Type 0 → Type 0
Directory E = List (BatchFile E)

-- How the disk takes a file: it does, it fails before the rename, or it fails after it.
pub data Disk : Type 0 where
  obeys write_fails sync_fails : Disk

abbrev pub default_max_files : ℕ
default_max_files = 50

unfoldable pub parts_less : List ℕ → List ℕ → Bool
parts_less ps [] = false
parts_less [] (q ∷ qs) = true
parts_less (p ∷ ps) (q ∷ qs) = ltb p q || p == q && parts_less ps qs

unfoldable pub parts_same : List ℕ → List ℕ → Bool
parts_same [] [] = true
parts_same (p ∷ ps) (q ∷ qs) = p == q && parts_same ps qs
parts_same _ _ = false

unfoldable pub same_name : Name → Name → Bool
unfolding parts_same
same_name (sequenced s ps) (sequenced t qs) = s == t && parts_same ps qs
same_name (legacy m n) (legacy k o) = str_eq n o
same_name _ _ = false

-- `batch_sequence`.
unfoldable pub batch_sequence : Name → Option ℕ
batch_sequence (sequenced s ps) = some s
batch_sequence (legacy m n) = none

module _ {E : Type 0} where
  unfoldable pub max_sequence : Directory E → ℕ
  unfolding batch_sequence
  max_sequence [] = 0
  max_sequence (f ∷ fs) = elim (batch_sequence f.name) [
    | none ↦ max_sequence fs
    | some s ↦ max s (max_sequence fs)
  ]

  -- The oldest files beyond the cap are deleted.
  unfoldable pub enforce_cap : ℕ → Directory E → Directory E
  enforce_cap max_files d = if ltb max_files (length d) then drop (length d - max_files) d else d

-- `less_text` is the order of texts.
module _ (less_text : String → String → Bool) where
  -- The order of the keys in `entries`.
  unfoldable pub key_less : Name → Name → Bool
  unfolding parts_less
  key_less (legacy m n) (legacy k o) = ltb m k || m == k && less_text n o
  key_less (legacy m n) (sequenced s ps) = true
  key_less (sequenced s ps) (legacy m n) = false
  key_less (sequenced s ps) (sequenced t qs) = ltb s t || s == t && parts_less ps qs

  module _ {E : Type 0} where
    -- A file is renamed into the directory, over one of the same name.
    unfoldable pub put_file : BatchFile E → Directory E → Directory E
    unfolding key_less same_name
    put_file f [] = f ∷ []
    put_file f (g ∷ gs) =
        let rest = put_file f gs in
        if same_name f.name g.name
        then f ∷ gs
        else if key_less f.name g.name
        then f ∷ g ∷ gs
        else g ∷ rest

    -- Is the batch on the disk for good? And the directory then.
    unfoldable pub spill : ℕ → Disk → List E → Directory E → Bool × Directory E
    unfolding put_file max_sequence enforce_cap
    spill max_files disk events d =
        let sequence = max_sequence d + 1 in
        let file : BatchFile E = record { name = sequenced sequence []; content = batch events } in
        if not (ltb sequence (2 ^ 64)) then (false, d) else elim disk [
          | obeys ↦ (true, enforce_cap max_files (put_file file d))
          | write_fails ↦ (false, d)
          | sync_fails ↦ (false, put_file file d)
        ]

module _ {E : Type 0} where
  -- `drain`, oldest first: the batches, and what is left, since corrupt files are deleted.
  unfoldable pub drain : Directory E → List (Name × List E) × Directory E
  drain [] = ([], [])
  drain (f ∷ fs) =
      let (batches, left) = drain fs in
      elim f.content [
        | batch events ↦ ((f.name, events) ∷ batches, f ∷ left)
        | corrupt ↦ (batches, left)
        | unreadable ↦ (batches, f ∷ left)
      ]

  -- `oldest_batch`.
  unfoldable pub oldest_batch : Directory E → Option (Name × List E) × Directory E
  oldest_batch [] = (none, [])
  oldest_batch (f ∷ fs) = elim f.content [
    | batch events ↦ (some (f.name, events), f ∷ fs)
    | corrupt ↦ (none, fs)
    | unreadable ↦ (none, f ∷ fs)
  ]

  -- `remove_file`, on a disk that obeys.
  unfoldable pub remove_file : Name → Directory E → Directory E
  unfolding same_name
  remove_file name d = retain (λ f. not (same_name name f.name)) d

  unfoldable pub has_pending : Directory E → Bool
  has_pending [] = false
  has_pending (f ∷ fs) = true
