-- ===== src/Operator/Spool.antt =====
-- crates/booth-bin/src/pending_uploads.rs: the spool of recordings that wait for their upload. A file
-- is named by its recording, so the directory is a list of entries with a name each; whether the disk
-- obeys is decided by the caller.
use telephone_booth.Base.{
  ℕ, Bool, true, false, not, String, str_eq, eq_iff, Option, none, some, List, [], ◌∷◌, ◌≡◌, refl,
  arith, if◌then◌else◌, any, retain,
}

pub record SpoolEntry : Type 0 where
  pub recording_id : String
  pub question_id : Option String
  pub path : String
  pub size_bytes : Option ℕ
  pub duration_ms : Option ℕ

pub record PendingUploadSpool : Type 0 where
  pub entries : List SpoolEntry
  pub in_flight : List String

abbrev is_named : String → SpoolEntry → Bool
is_named recording_id entry = str_eq entry.recording_id recording_id

unfoldable pub contains : String → PendingUploadSpool → Bool
contains recording_id spool = any (is_named recording_id) spool.entries

-- The file is renamed over one of the same name.
unfoldable pub enqueue : SpoolEntry → PendingUploadSpool → PendingUploadSpool
enqueue entry spool = record spool {
  entries = entry ∷ retain (λ e. not (is_named entry.recording_id e)) spool.entries;
}

unfoldable pub dequeue : String → PendingUploadSpool → PendingUploadSpool
dequeue recording_id spool = record spool {
  entries = retain (λ e. not (is_named recording_id e)) spool.entries;
}

unfoldable pub is_claimed : String → PendingUploadSpool → Bool
is_claimed recording_id spool = any (str_eq recording_id) spool.in_flight

-- `none` if another task holds the claim.
unfoldable pub claim : String → PendingUploadSpool → Option PendingUploadSpool
unfolding is_claimed
claim recording_id spool =
    if is_claimed recording_id spool
    then none
    else some (record spool { in_flight = recording_id ∷ spool.in_flight })

-- The claim is dropped.
unfoldable pub release : String → PendingUploadSpool → PendingUploadSpool
release recording_id spool = record spool {
  in_flight = retain (λ r. not (str_eq recording_id r)) spool.in_flight;
}

any-retain :
    (a b : String) (es : List SpoolEntry)
    → any (is_named b) (retain (λ e. not (is_named a e)) es)
      ≡ (if str_eq a b then false else any (is_named b) es)
any-retain a b [] = ground arith
any-retain a b (e ∷ es) =
    ground (arith, eq_iff a b, eq_iff e.recording_id a, eq_iff e.recording_id b, any-retain a b es)

pub contains-enqueue :
    (entry : SpoolEntry) (r : String) (spool : PendingUploadSpool)
    → contains r (enqueue entry spool)
      ≡ (if str_eq entry.recording_id r then true else contains r spool)
unfolding contains enqueue
contains-enqueue entry r spool =
    ground (arith, eq_iff entry.recording_id r, any-retain entry.recording_id r spool.entries)

pub contains-dequeue :
    (a r : String) (spool : PendingUploadSpool)
    → contains r (dequeue a spool) ≡ (if str_eq a r then false else contains r spool)
unfolding contains dequeue
contains-dequeue a r spool = any-retain a r spool.entries

pub contains-release :
    (a r : String) (spool : PendingUploadSpool) → contains r (release a spool) ≡ contains r spool
unfolding contains release
contains-release a r spool = refl

-- A claim leaves the entries as they are.
pub contains-claim :
    (a r : String) (spool claimed : PendingUploadSpool)
    → claim a spool ≡ some claimed
    → contains r spool ≡ true
    → contains r claimed ≡ true
unfolding claim contains
contains-claim a r spool claimed e waits = ground arith
