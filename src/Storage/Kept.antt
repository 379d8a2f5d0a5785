-- ===== src/Storage/Kept.antt =====
-- crates/booth-bin/src/file_storage.rs: what is stored is what is read.
use telephone_booth.Base.{
  ℕ, Bool, true, false, ◌&&◌, Option, none, some, List, [], ◌∷◌, ◌≡◌, ◌↔◌, refl, ap, ap₂, sym, ◌∙◌,
  if◌then◌else◌, Bool-cases, inl, inr, arith,
}
use telephone_booth.Storage.Names.{encode_key, same_text}
use telephone_booth.Storage.Files.{
  Directory, Outcome, done, failed, without, read_file, write_file, Disk, obeys, write_fails,
  rename_fails, temp_name, get, set, delete,
}
use telephone_booth.Storage.Decoded.{first_char, encode_key-first, encode_key-injective}

same_text_iff : (a b : List ℕ) → (same_text a b ≡ true) ↔ (a ≡ b)
same_text_iff [] [] = (λ h. refl, λ h. refl)
same_text_iff [] (c ∷ b) = (λ h. cc, λ h. cc)
same_text_iff (c ∷ a) [] = (λ h. cc, λ h. cc)
same_text_iff (c ∷ a) (d ∷ b) = ground (arith, same_text_iff a b)

same-by_iff : (x y : Bool) → (x ≡ true → y ≡ true) → (y ≡ true → x ≡ true) → x ≡ y
same-by_iff true y f g = sym (f refl)
same-by_iff false true f g = g refl
same-by_iff false false f g = refl

same_text-encode_key : (a b : List ℕ) → same_text (encode_key a) (encode_key b) ≡ same_text a b
same_text-encode_key a b =
    same-by_iff (same_text (encode_key a) (encode_key b)) (same_text a b)
      (λ h.
        (same_text_iff a b).1
          (encode_key-injective a b ((same_text_iff (encode_key a) (encode_key b)).0 h)))
      (λ h.
        (same_text_iff (encode_key a) (encode_key b)).1 (ap encode_key ((same_text_iff a b).0 h)))

-- A temporary file is no key's.
same_text-temp_name : (k pid time : List ℕ) → same_text (encode_key k) (temp_name pid time) ≡ false
same_text-temp_name k pid time = elim (Bool-cases (same_text (encode_key k) (temp_name pid time))) [
  | inl same ↦ absurd (
      encode_key-first k
        (ap first_char ((same_text_iff (encode_key k) (temp_name pid time)).0 same)))
  | inr other ↦ other
]

read-without :
    (n m : List ℕ) (d : Directory)
    → read_file n (without m d) ≡ (if same_text n m then none else read_file n d)
unfolding read_file
read-without n m [] = ground arith
read-without n m (f ∷ fs) =
    ground (
      arith,
      read-without n m fs,
      same_text_iff n m,
      same_text_iff m f.name,
      same_text_iff n f.name,
    )

read-write :
    (n m content : List ℕ) (d : Directory)
    → read_file n (write_file m content d) ≡ (if same_text n m then some content else read_file n d)
unfolding read_file
read-write n m content d = ground (arith, read-without n m d)

abbrev pub is_done : Outcome Unit → Bool
is_done (done _) = true
is_done (failed e) = false

-- What is read after the temporary file is written and renamed or removed is not touched by it.
read-temp :
    (k pid time content : List ℕ) (d : Directory)
    → read_file (encode_key k) (write_file (temp_name pid time) content d)
      ≡ read_file (encode_key k) d
read-temp k pid time content d =
    read-write (encode_key k) (temp_name pid time) content d
    ∙ rw (same_text-temp_name k pid time) refl

read-renamed :
    (k pid time content : List ℕ) (d : Directory)
    → read_file
        (encode_key k)
        (without (temp_name pid time) (write_file (temp_name pid time) content d))
      ≡ read_file (encode_key k) d
read-renamed k pid time content d =
    read-without (encode_key k) (temp_name pid time) (write_file (temp_name pid time) content d)
    ∙ rw (same_text-temp_name k pid time) (read-temp k pid time content d)

same_text-sym : (a b : List ℕ) → same_text a b ≡ same_text b a
same_text-sym a b =
    same-by_iff (same_text a b) (same_text b a)
      (λ h. (same_text_iff b a).1 (sym ((same_text_iff a b).0 h)))
      (λ h. (same_text_iff a b).1 (sym ((same_text_iff b a).0 h)))

-- While reads are answered the store is a map: after `set` the key reads as the value exactly if `set`
-- succeeded, however it fails otherwise, and after `delete` it reads as nothing exactly if `delete`
-- succeeded; every other key, and the key itself where the call failed, reads as before.
pub storage-IsMap :
    (disk : Disk) (works : Bool) (pid time key value k : List ℕ) (d : Directory)
    → let (outcome, stored) = set disk pid time key value d in
      let (removed, left) = delete works key d in
      (get true k stored
        ≡ (if is_done outcome && same_text key k then done (some value) else get true k d))
      × (get true k left ≡ (if is_done removed && same_text key k then done none else get true k d))
unfolding get set delete
storage-IsMap disk works pid time key value k d = (written disk, deleted works)
  where
    same : same_text (encode_key k) (encode_key key) ≡ same_text key k
    same = same_text-encode_key k key ∙ same_text-sym k key

    push :
        (b : Bool) (o p : Option (List ℕ))
        → done (if b then o else p) ≡ (if b then done o else done p)
    push true o p = refl
    push false o p = refl

    written :
        (disk : Disk)
        → get true k (set disk pid time key value d).1 ≡ (
            if is_done (set disk pid time key value d).0 && same_text key k
            then done (some value)
            else get true k d)
    written obeys =
        let temp = temp_name pid time in
        let renamed = without temp (write_file temp value d) in
        ap done (
          read-write (encode_key k) (encode_key key) value renamed
          ∙ ap₂ (λ b o. if b then some value else o) same (read-renamed k pid time value d))
        ∙ push (same_text key k) (some value) (read_file (encode_key k) d)
    written (write_fails none) = refl
    written (write_fails (some part)) = ap done (read-temp k pid time part d)
    written rename_fails = ap done (read-renamed k pid time value d)

    deleted :
        (works : Bool)
        → get true k (delete works key d).1
          ≡ (if is_done (delete works key d).0 && same_text key k then done none else get true k d)
    deleted true =
        ap done (
          read-without (encode_key k) (encode_key key) d
          ∙ ap (λ b. if b then none else read_file (encode_key k) d) same)
        ∙ push (same_text key k) none (read_file (encode_key k) d)
    deleted false = refl
