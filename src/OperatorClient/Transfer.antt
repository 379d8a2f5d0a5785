-- ===== src/OperatorClient/Transfer.antt =====
-- crates/booth-pi/src/operator.rs: `put_recording`, which uploads a file with retries.
use telephone_booth.Base.{
  ℕ, zero, suc, ◌+◌, ◌-◌, ◌*◌, ◌^◌, Bool, not, ◌&&◌, ◌||◌, String, List, [], ◌∷◌, ltb, leb, ◌==◌,
  if◌then◌else◌, Result, ok, err,
}

-- Texts are kept only where they come from an answer.
pub data UploadError : Type 0 where
  invalid_url io transport duplicate_recording : String → UploadError
  -- status, body
  http : ℕ → String → UploadError

-- What an attempt meets: the file cannot be opened, the server answers with a status and a body, or the
-- transport fails.
pub data Response : Type 0 where
  unopened : String → Response
  answered : ℕ → String → Response
  broken : String → Response

abbrev pub upload_retries : ℕ
upload_retries = 3

unfoldable pub is_success : ℕ → Bool
is_success status = leb 200 status && leb status 299

unfoldable pub is_retryable_upload_status : ℕ → Bool
is_retryable_upload_status status =
    status == 408
    || (status == 409 || (status == 425 || (status == 429 || leb 500 status && leb status 599)))

-- In milliseconds; `saturating_mul` of a duration is far from its limit here.
unfoldable pub upload_backoff : ℕ → ℕ
upload_backoff attempt = 25 * (if ltb attempt 32 then 2 ^ attempt else 2 ^ 32 - 1)

-- A round of `for attempt in 0..=UPLOAD_RETRIES`, and what the later ones come to.
unfoldable pub put_round :
    ℕ → Response → Result UploadError (Unit {0}) × List ℕ → Result UploadError (Unit {0}) × List ℕ
unfolding is_success is_retryable_upload_status upload_backoff
put_round attempt (unopened text) (result, pauses) = (err (io text), [])
put_round attempt (answered status body) (result, pauses) =
    if is_success status
    then (ok _, [])
    else if status == 409 && attempt == upload_retries
    then (err (duplicate_recording body), [])
    else if not (is_retryable_upload_status status) || attempt == upload_retries
    then (err (http status body), [])
    else (result, upload_backoff attempt ∷ pauses)
put_round attempt (broken text) (result, pauses) =
    if attempt == upload_retries
    then (err (transport text), [])
    else (result, upload_backoff attempt ∷ pauses)

module _ (response : ℕ → Response) where
  -- The rounds that are left, from `attempt` on: the result and the pauses.
  unfoldable pub put_from : ℕ → ℕ → Result UploadError (Unit {0}) × List ℕ
  unfolding put_round
  put_from zero attempt = (err (transport "upload retry loop exited"), [])
  put_from (suc left) attempt = put_round attempt (response attempt) (put_from left (attempt + 1))

  -- The size of the file, unless it cannot be read, is checked first.
  unfoldable pub put_recording : ℕ → Result String ℕ → Result UploadError (Unit {0}) × List ℕ
  unfolding put_from
  put_recording max_upload_bytes (err text) = (err (io text), [])
  put_recording max_upload_bytes (ok file_size) =
      if ltb max_upload_bytes file_size
      then (err (io "exceeds upload cap"), [])
      else put_from (suc upload_retries) 0
