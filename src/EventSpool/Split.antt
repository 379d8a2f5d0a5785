-- ===== src/EventSpool/Split.antt =====
-- crates/booth-bin/src/event_spool.rs: `replace_file_with_chunks`. Only the directory is modelled, not what a
-- crash leaves of unfinished writes.
use Prim.Native.String.{len, slice}
use text.Mathlib.Text.{starts_with}
use telephone_booth.Base.{
  ℕ, zero, suc, ◌+◌, ◌-◌, Bool, true, false, String, ◌<>◌, List, [], ◌∷◌, ◌++◌, length, take, drop,
  ltb, if◌then◌else◌,
}
use telephone_booth.Base.Decimal.{decimal_u64}
use telephone_booth.EventSpool.Files.{
  Name, sequenced, legacy, batch, Directory, put_file, remove_file,
}

module _ {A : Type 0} where
  unfoldable pub chunks_from : ℕ → ℕ → List A → List (List A)
  chunks_from zero size xs = []
  chunks_from (suc fuel) size [] = []
  chunks_from (suc fuel) size (x ∷ xs) =
      take size (x ∷ xs) ∷ chunks_from fuel size (drop size (x ∷ xs))

  -- `chunks`, for a size that is not 0.
  abbrev pub chunks : ℕ → List A → List (List A)
  chunks size xs = chunks_from (length xs) size xs

-- `file_stem` of a name that ends in ".json".
unfoldable pub file_stem : String → String
file_stem name = slice name 0 (len name - 5)

unfoldable pub replacement_stem : String → String
unfolding file_stem
replacement_stem name =
    let stem = file_stem name in if starts_with stem "split-" then stem else "split-" <> stem

-- `{index:06}`.
unfoldable pub padded : ℕ → ℕ → String
padded zero index = ""
padded (suc zeros) index =
    let text = decimal_u64 index in
    if ltb (len text) (suc zeros) then "0" <> padded zeros index else text

-- The name of a chunk, as `batch_sort_key` reads it: a part counts from 1.
unfoldable pub part_name : Name → ℕ → Name
unfolding replacement_stem padded
part_name (sequenced s parts) index = sequenced s (parts ++ (index + 1) ∷ [])
part_name (legacy modified name) index =
    legacy modified (replacement_stem name <> "-part-" <> padded 6 index <> ".json")

-- How the disk takes it: it stops before the first rename or after some of them, or it obeys.
pub data SplitDisk : Type 0 where
  obeys : SplitDisk
  stops_after : ℕ → SplitDisk

module _ (less_text : String → String → Bool) {E : Type 0} where
  unfoldable pub put_chunks : Name → ℕ → List (List E) → Directory E → Directory E
  unfolding put_file part_name
  put_chunks path index [] d = d
  put_chunks path index (c ∷ cs) d =
      put_chunks path (index + 1) cs
        (put_file less_text (record { name = part_name path index; content = batch c }) d)

  -- Does it return `Ok`? And the directory.
  unfoldable pub replace_file_with_chunks :
      SplitDisk → Name → List E → ℕ → Directory E → Bool × Directory E
  unfolding put_chunks remove_file chunks_from
  replace_file_with_chunks disk path events zero d = (false, d)
  replace_file_with_chunks obeys path events (suc size) d =
      (true, remove_file path (put_chunks path 0 (chunks (suc size) events) d))
  replace_file_with_chunks (stops_after renamed) path events (suc size) d =
      (false, put_chunks path 0 (take renamed (chunks (suc size) events)) d)
