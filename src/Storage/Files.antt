-- ===== src/Storage/Files.antt =====
-- crates/booth-bin/src/file_storage.rs: `get`, `set` and `delete`. The directory is the list of its files;
-- what the disk answers is input.
use telephone_booth.Base.{
  ℕ, Bool, true, false, not, Option, none, some, List, [], ◌∷◌, ◌++◌, retain, if◌then◌else◌,
}
use telephone_booth.Storage.Names.{encode_key, same_text}

pub record File : Type 0 where
  pub name : List ℕ
  pub content : List ℕ

abbrev pub Directory : Type 0
Directory = List File

pub data StorageError : Type 0 where
  io : StorageError

pub data Outcome (A : Type 0) : Type 0 where
  done : A → Outcome A
  failed : StorageError → Outcome A

abbrev pub without : List ℕ → Directory → Directory
without name d = retain (λ (f : File). not (same_text name f.name)) d

unfoldable pub read_file : List ℕ → Directory → Option (List ℕ)
read_file name [] = none
read_file name (f ∷ fs) =
    let rest = read_file name fs in if same_text name f.name then some f.content else rest

abbrev pub write_file : List ℕ → List ℕ → Directory → Directory
write_file name content d = record { name = name; content = content } ∷ without name d

-- How the disk takes a write: it does; the temporary file fails, with what is on the disk of it; or
-- the rename fails.
pub data Disk : Type 0 where
  obeys : Disk
  write_fails : Option (List ℕ) → Disk
  rename_fails : Disk

-- ".tmp-", the process id, "-" and the time, as the code points of their digits.
abbrev pub temp_name : List ℕ → List ℕ → List ℕ
temp_name pid time = 46 ∷ 116 ∷ 109 ∷ 112 ∷ 45 ∷ pid ++ (45 ∷ time)

-- Does the file system answer a read?
unfoldable pub get : Bool → List ℕ → Directory → Outcome (Option (List ℕ))
unfolding read_file encode_key
get true key d = done (read_file (encode_key key) d)
get false key d = failed io

unfoldable pub set : Disk → List ℕ → List ℕ → List ℕ → List ℕ → Directory → Outcome Unit × Directory
unfolding encode_key
set obeys pid time key value d =
    let temp = temp_name pid time in
    (done _, write_file (encode_key key) value (without temp (write_file temp value d)))
set (write_fails none) pid time key value d = (failed io, d)
set (write_fails (some part)) pid time key value d =
    (failed io, write_file (temp_name pid time) part d)
set rename_fails pid time key value d =
    let temp = temp_name pid time in (failed io, without temp (write_file temp value d))

-- A file that is not there is no error.
unfoldable pub delete : Bool → List ℕ → Directory → Outcome Unit × Directory
unfolding encode_key
delete true key d = (done _, without (encode_key key) d)
delete false key d = (failed io, d)
