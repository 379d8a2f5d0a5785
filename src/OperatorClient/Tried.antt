-- ===== src/OperatorClient/Tried.antt =====
-- crates/booth-pi/src/operator.rs: how often a recording is sent and what is returned of it.
use telephone_booth.Base.{
  ℕ, zero, suc, ◌+◌, ◌≤◌, ◌<◌, Bool, true, false, not, ◌&&◌, ◌||◌, String, List, [], ◌∷◌, length,
  ltb, ◌==◌, ◌≡◌, refl, ap, sym, ◌∙◌, subst, if◌then◌else◌, Bool-cases, inl, inr, Result, ok, err,
  arith,
}
use telephone_booth.OperatorClient.Transfer.{
  UploadError, io, transport, duplicate_recording, http, Response, unopened, answered, broken,
  upload_retries, is_success, is_retryable_upload_status, upload_backoff, put_round, put_from,
  put_recording,
}

-- Is another attempt worth it?
abbrev pub is_transient : Response → Bool
is_transient (unopened text) = false
is_transient (answered status body) = not (is_success status) && is_retryable_upload_status status
is_transient (broken text) = true

-- What the upload comes to with its last attempt; the flag tells that no other was left.
abbrev pub verdict : Bool → Response → Result UploadError (Unit {0})
verdict last (unopened text) = err (io text)
verdict last (answered status body) =
    if is_success status
    then ok _
    else if status == 409 && last
    then err (duplicate_recording body)
    else err (http status body)
verdict last (broken text) = err (transport text)

abbrev pub pauses_from : ℕ → ℕ → List ℕ
pauses_from attempt zero = []
pauses_from attempt (suc n) = upload_backoff attempt ∷ pauses_from (attempt + 1) n

module _ (response : ℕ → Response) where
  -- The attempts after `attempt` that were made, each after a pause.
  pub record IsTried (attempt : ℕ) (result : Result UploadError (Unit {0})) (pauses : List ℕ)
      : Type 0 where
    pub count : attempt + length pauses ≤ upload_retries
    pub worth :
        (k : ℕ) → attempt ≤ k → k < attempt + length pauses → is_transient (response k) ≡ true
    pub ends :
        attempt + length pauses < upload_retries
        → is_transient (response (attempt + length pauses)) ≡ false
    pub gives :
        result
        ≡ verdict (attempt + length pauses == upload_retries) (response (attempt + length pauses))
    pub waits : pauses ≡ pauses_from attempt (length pauses)

  -- The round is the last one.
  stops-IsTried :
      (attempt : ℕ) (result : Result UploadError (Unit {0}))
      → attempt ≤ upload_retries
      → (attempt < upload_retries → is_transient (response attempt) ≡ false)
      → result ≡ verdict (attempt == upload_retries) (response attempt)
      → IsTried attempt result []
  stops-IsTried attempt result few ends gives =
      let same : attempt ≡ attempt + 0 = omega arith in
      record {
        count = omega arith;
        worth = λ k above below. absurd (omega arith);
        ends = λ h. subst (λ n. is_transient (response n) ≡ false) same (ends (omega arith));
        gives = gives ∙ ap (λ n. verdict (n == upload_retries) (response n)) same;
        waits = refl;
      }

  -- Another round follows.
  again-IsTried :
      (attempt : ℕ) (result : Result UploadError (Unit {0})) (pauses : List ℕ)
      → is_transient (response attempt) ≡ true
      → IsTried (attempt + 1) result pauses
      → IsTried attempt result (upload_backoff attempt ∷ pauses)
  again-IsTried attempt result pauses here h =
      let n = length pauses in
      let same : attempt + 1 + n ≡ attempt + suc n = omega arith in
      record {
        count = omega (arith, h.count);
        worth = λ k above below. elim (Bool-cases (k == attempt)) [
          | inl e ↦ subst (λ j. is_transient (response j) ≡ true) (ground arith) here
          | inr e ↦ h.worth k (ground arith) (omega arith)
        ];
        ends = λ less. subst (λ j. is_transient (response j) ≡ false) same (h.ends (omega arith));
        gives = h.gives ∙ ap (λ j. verdict (j == upload_retries) (response j)) same;
        waits = ap (λ l. upload_backoff attempt ∷ l) h.waits;
      }

  -- An answer, by what the tests say of it.
  answered-IsTried :
      (attempt status : ℕ) (body : String) (result : Result UploadError (Unit {0}))
      (pauses : List ℕ) (success conflict last retryable : Bool)
      → is_success status ≡ success
      → (status == 409) ≡ conflict
      → (attempt == upload_retries) ≡ last
      → is_retryable_upload_status status ≡ retryable
      → response attempt ≡ answered status body
      → attempt ≤ upload_retries
      → (attempt < upload_retries → IsTried (attempt + 1) result pauses)
      → let end : Result UploadError (Unit {0}) × List ℕ =
          if success
          then (ok _, [])
          else if conflict && last
          then (err (duplicate_recording body), [])
          else if not retryable || last
          then (err (http status body), [])
          else (result, upload_backoff attempt ∷ pauses) in
        IsTried attempt end.0 end.1
  answered-IsTried attempt status body result pauses true c l t es ec el et here few later =
      stops-IsTried attempt (ok _) few (λ h. ap is_transient here ∙ ground arith)
        (ground arith ∙ ap (verdict (attempt == upload_retries)) (sym here))
  answered-IsTried attempt status body result pauses false true true t es ec el et here few later =
      stops-IsTried attempt (err (duplicate_recording body)) few (λ h. absurd (ground arith))
        (ground arith ∙ ap (verdict (attempt == upload_retries)) (sym here))
  answered-IsTried attempt status body result pauses false false l false es ec el et here few
        later =
      stops-IsTried attempt (err (http status body)) few (λ h. ap is_transient here ∙ ground arith)
        (ground arith ∙ ap (verdict (attempt == upload_retries)) (sym here))
  answered-IsTried attempt status body result pauses false true false false es ec el et here few
        later =
      stops-IsTried attempt (err (http status body)) few (λ h. ap is_transient here ∙ ground arith)
        (ground arith ∙ ap (verdict (attempt == upload_retries)) (sym here))
  answered-IsTried attempt status body result pauses false false true true es ec el et here few
        later =
      stops-IsTried attempt (err (http status body)) few (λ h. absurd (ground arith))
        (ground arith ∙ ap (verdict (attempt == upload_retries)) (sym here))
  answered-IsTried attempt status body result pauses false c false true es ec el et here few later =
      again-IsTried attempt result pauses (ap is_transient here ∙ ground arith)
        (later (ground arith))

  put_round-IsTried :
      (attempt : ℕ) (r : Response) (rest : Result UploadError (Unit {0}) × List ℕ)
      → response attempt ≡ r
      → attempt ≤ upload_retries
      → (attempt < upload_retries → IsTried (attempt + 1) rest.0 rest.1)
      → let (result, pauses) = put_round attempt r rest in IsTried attempt result pauses
  unfolding put_round
  put_round-IsTried attempt (unopened text) (result, pauses) here few later =
      stops-IsTried attempt (err (io text)) few (λ h. ap is_transient here)
        (ap (verdict (attempt == upload_retries)) (sym here))
  put_round-IsTried attempt (broken text) (result, pauses) here few later =
      elim (Bool-cases (attempt == upload_retries)) [
        | inl last ↦ rw last (
            stops-IsTried attempt (err (transport text)) few (λ h. absurd (ground arith))
              (ap (verdict (attempt == upload_retries)) (sym here)))
        | inr more ↦
            rw more
              (again-IsTried attempt result pauses (ap is_transient here) (later (ground arith)))
      ]
  put_round-IsTried attempt (answered status body) (result, pauses) here few later =
      answered-IsTried attempt status body result pauses (is_success status) (status == 409)
        (attempt == upload_retries) (is_retryable_upload_status status) refl refl refl refl here few
        later

  put_from-IsTried :
      (left attempt : ℕ)
      → attempt + left ≡ upload_retries
      → let (result, pauses) = put_from response (suc left) attempt in IsTried attempt result pauses
  unfolding put_from
  put_from-IsTried zero attempt e =
      put_round-IsTried attempt (response attempt) (put_from response zero (attempt + 1)) refl
        (omega arith) (λ h. absurd (omega arith))
  put_from-IsTried (suc left) attempt e =
      put_round-IsTried attempt (response attempt) (put_from response (suc left) (attempt + 1)) refl
        (omega arith) (λ h. put_from-IsTried left (attempt + 1) (omega arith))

  -- What is promised of an upload, by what the disk says of the file's size.
  abbrev pub IsPut : ℕ → Result String ℕ → Result UploadError (Unit {0}) → List ℕ → Type 0
  IsPut max_upload_bytes (err text) result pauses = (result ≡ err (io text)) × (pauses ≡ [])
  IsPut max_upload_bytes (ok file_size) result pauses =
      (file_size ≤ max_upload_bytes → IsTried 0 result pauses)
      × (max_upload_bytes < file_size → (result ≡ err (io "exceeds upload cap")) × (pauses ≡ []))

  -- Of a recording within the cap: at most four attempts are made, with pauses of 25, 50 and 100 ms
  -- between them. Each but the last met an answer that is worth another attempt, and a last one that is
  -- not the fourth met an answer that is not. The result is what the last attempt comes to. A larger
  -- recording, and one whose size cannot be read, is refused without an attempt.
  pub put_recording-IsTried :
      (max_upload_bytes : ℕ) (metadata : Result String ℕ)
      → let (result, pauses) = put_recording response max_upload_bytes metadata in
        IsPut max_upload_bytes metadata result pauses
  unfolding put_recording
  put_recording-IsTried max_upload_bytes (err text) = (refl, refl)
  put_recording-IsTried max_upload_bytes (ok file_size) =
      elim (Bool-cases (ltb max_upload_bytes file_size)) [
        | inl above ↦ rw above ((λ h. absurd (ground arith)), (λ h. (refl, refl)))
        | inr within ↦
            rw within ((λ h. put_from-IsTried upload_retries 0 refl), (λ h. absurd (ground arith)))
      ]
