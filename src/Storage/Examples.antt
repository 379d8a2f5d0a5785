-- ===== src/Storage/Examples.antt =====
-- crates/booth-bin/src/file_storage.rs: the keys "a/b" and "a".
use telephone_booth.Base.{ℕ, true, ◌&&◌, none, some, List, [], ◌∷◌, ◌≡◌, refl, if◌then◌else◌}
use telephone_booth.Storage.Names.{encode_key, encode_chars, is_special, hex_digit, same_text}
use telephone_booth.Storage.Files.{Directory, done, obeys, get, set, delete}
use telephone_booth.Storage.Decoded.{encode_key-injective}
use telephone_booth.Storage.Kept.{is_done, storage-IsMap}

abbrev slashed : List ℕ
slashed = 97 ∷ 47 ∷ 98 ∷ []

slashed_name : encode_key slashed ≡ 97 ∷ 37 ∷ 50 ∷ 70 ∷ 98 ∷ []
unfolding encode_key encode_chars is_special hex_digit
slashed_name = refl

encode_key-injective_example : slashed ≡ 97 ∷ 47 ∷ 98 ∷ []
encode_key-injective_example = encode_key-injective slashed (97 ∷ 47 ∷ 98 ∷ []) refl

abbrev pid : List ℕ
pid = 49 ∷ []

abbrev time : List ℕ
time = 50 ∷ []

abbrev value : List ℕ
value = 1 ∷ 2 ∷ []

abbrev empty : Directory
empty = []

storage-IsMap_example :
    (get true slashed (set obeys pid time slashed value empty).1 ≡ (
      if is_done (set obeys pid time slashed value empty).0 && same_text slashed slashed
      then done (some value)
      else get true slashed empty))
    × (get true slashed (delete true slashed empty).1 ≡ (
        if is_done (delete true slashed empty).0 && same_text slashed slashed
        then done none
        else get true slashed empty))
storage-IsMap_example = storage-IsMap obeys true pid time slashed value slashed empty
