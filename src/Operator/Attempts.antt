-- ===== src/Operator/Attempts.antt =====
-- crates/booth-bin/src/lib.rs: how often `retry_operator` calls, and with what result.
use telephone_booth.Base.{
  ℕ, zero, suc, ◌+◌, ◌<◌, append-nil, append_assoc, Bool, true, false, String, [], ◌∷◌, ◌++◌, ◌≡◌,
  refl, ap, sym, ◌∙◌, ◌⊎◌, inl, inr, arith, Result, ok, err, Result-cases, Bool-cases, take, drop,
  ◌==◌, ◌||◌, not, subst,
}
use telephone_booth.Operator.Errors.{OperatorError, is_retryable_operator_error, operator_backoff}
use telephone_booth.Operator.Retry.{
  World, Operation, operator_attempts, call_operator, back_off, retry_from, retry_operator,
}
use telephone_booth.Operator.Traces.{
  pauses, requests_made, pauses-append, requests_made-append, Retryable, backoffs, drop-backoffs,
  back_off-requests, back_off-pauses,
}

module _ {W T : Type 0} (route : String) (operation : Operation W T) where
  -- The world after so many calls, and the result of the call made in it.
  abbrev pub outside_after : ℕ → W → W
  outside_after zero w = w
  outside_after (suc n) w = outside_after n (operation w).1

  abbrev pub result_of : ℕ → W → Result OperatorError T
  result_of n w = (operation (outside_after n w)).0

  -- `retries + 1` calls were made, after `done` others: all but the last failed in a way that is
  -- worth another attempt, the last one did not or was the third, and its result is the result.
  pub record Tried (before : World W) (done retries : ℕ) (run : Result OperatorError T × World W)
      : Type 0 where
    pub few : done + retries < operator_attempts
    pub result : run.0 ≡ result_of retries before.outside
    pub world : run.1.outside ≡ outside_after (suc retries) before.outside
    pub failed_before : (i : ℕ) → i < retries → Retryable (result_of i before.outside)
    pub stopped : (Retryable run.0 → ⊥) ⊎ (done + retries + 1 ≡ operator_attempts)
    pub requests : requests_made run.1.trace ≡ requests_made before.trace + retries + 1
    pub waits : pauses run.1.trace ≡ pauses before.trace ++ take retries (drop done backoffs)

  called-trace :
      (w : World W)
      → (requests_made (call_operator route operation w).1.trace ≡ requests_made w.trace + 1)
        × (pauses (call_operator route operation w).1.trace ≡ pauses w.trace)
  unfolding call_operator
  called-trace w =
      (omega (arith, requests_made-append w.trace), pauses-append w.trace _ ∙ append-nil _)

  called-outside :
      (w : World W)
      → ((call_operator route operation w).0 ≡ result_of 0 w.outside)
        × ((call_operator route operation w).1.outside ≡ outside_after 1 w.outside)
  unfolding call_operator
  called-outside w = (refl, refl)

  not-Retryable-ok : (r : Result OperatorError T) (v : T) → r ≡ ok v → Retryable r → ⊥
  not-Retryable-ok (ok v') v e h = h
  not-Retryable-ok (err e') v e h = cc

  Retryable-err :
      (r : Result OperatorError T) (e : OperatorError)
      → r ≡ err e
      → is_retryable_operator_error e ≡ true
      → Retryable r
  Retryable-err (ok v) e h again = cc
  Retryable-err (err e') e h again = ground arith

  -- The call made when `done` calls failed before it ends the attempts.
  ends :
      (w : World W) (done : ℕ)
      → done < operator_attempts
      → (Retryable (call_operator route operation w).0 → ⊥) ⊎ (done + 1 ≡ operator_attempts)
      → Tried w done 0 (call_operator route operation w)
  unfolding call_operator
  ends w done few stop = record {
    few = omega arith;
    result = refl;
    world = refl;
    failed_before = λ i lt. absurd (omega arith);
    stopped = elim stop [ inl final ↦ inl final | inr last ↦ inr (omega arith) ];
    requests = omega (arith, (called-trace w).0);
    waits = (called-trace w).1 ∙ sym (append-nil (pauses w.trace));
  }

  -- A failed call and a pause, and then the rest.
  goes_on :
      (w : World W) (done retries : ℕ) (e : OperatorError) (run : Result OperatorError T × World W)
      → (call_operator route operation w).0 ≡ err e
      → is_retryable_operator_error e ≡ true
      → Tried
          (back_off route (done + 1) e (call_operator route operation w).1)
          (done + 1)
          retries
          run
      → Tried w done (suc retries) run
  unfolding back_off call_operator
  goes_on w done retries e run failed again t =
      let w' = (call_operator route operation w).1 in
      record {
        few = omega (arith, t.few);
        result = t.result;
        world = t.world;
        failed_before = earlier;
        stopped = elim t.stopped [ inl final ↦ inl final | inr last ↦ inr (omega arith) ];
        requests =
            omega (arith, t.requests, back_off-requests route (done + 1) e w', (called-trace w).0);
        waits =
            t.waits
            ∙ ap (λ l. l ++ take retries (drop (done + 1) backoffs))
                (back_off-pauses route (done + 1) e w'
                  ∙ ap (λ l. l ++ operator_backoff (done + 1) ∷ []) (called-trace w).1)
            ∙ append_assoc (pauses w.trace) (operator_backoff (done + 1) ∷ [])
                (take retries (drop (done + 1) backoffs))
            ∙ ap (λ l. pauses w.trace ++ take (suc retries) l)
                (sym (drop-backoffs done (omega (arith, t.few))));
      }
    where
      earlier : (i : ℕ) → i < suc retries → Retryable (result_of i w.outside)
      earlier zero h = Retryable-err (result_of 0 w.outside) e failed again
      earlier (suc i) h = t.failed_before i (omega arith)

  -- Is the error the last of the attempts?
  abbrev gives_up : ℕ → OperatorError → Bool
  gives_up attempt e = attempt == operator_attempts || not (is_retryable_operator_error e)

  retry_from-ok :
      (left attempt : ℕ) (w : World W) (v : T)
      → (call_operator route operation w).0 ≡ ok v
      → retry_from route operation (suc left) attempt w ≡ call_operator route operation w
  unfolding retry_from
  retry_from-ok left attempt w v e = ground arith

  retry_from-last :
      (left attempt : ℕ) (w : World W) (e : OperatorError)
      → (call_operator route operation w).0 ≡ err e
      → gives_up attempt e ≡ true
      → retry_from route operation (suc left) attempt w ≡ call_operator route operation w
  unfolding retry_from
  retry_from-last left attempt w e failed last = ground arith

  retry_from-again :
      (left attempt : ℕ) (w : World W) (e : OperatorError)
      → (call_operator route operation w).0 ≡ err e
      → gives_up attempt e ≡ false
      → retry_from route operation (suc left) attempt w
        ≡ retry_from route operation left
            (attempt + 1)
            (back_off route attempt e (call_operator route operation w).1)
  unfolding retry_from
  retry_from-again left attempt w e failed more = ground arith

  -- The attempts end with this call, or the rest is tried.
  call-Tried :
      (left done : ℕ) (w : World W)
      → done + suc left ≡ operator_attempts
      → ((e : OperatorError)
          → (call_operator route operation w).0 ≡ err e
          → gives_up (done + 1) e ≡ false
          → (retries : ℕ) × Tried w done retries
              (retry_from route operation (suc left) (done + 1) w))
      → (retries : ℕ) × Tried w done retries (retry_from route operation (suc left) (done + 1) w)
  call-Tried left done w h rest =
      let call = call_operator route operation w in
      elim (Result-cases call.0) [
        | inl (v, e) ↦ (
          0,
          subst (Tried w done 0) (sym (retry_from-ok left (done + 1) w v e))
              (ends w done (omega arith) (inl (not-Retryable-ok call.0 v e))),
        )
        | inr (e, failed) ↦ elim (Bool-cases (gives_up (done + 1) e)) [
          | inl last ↦ (
            0,
            subst (Tried w done 0) (sym (retry_from-last left (done + 1) w e failed last))
                (ends w done (omega arith) (given_up call.0 e failed last)),
          )
          | inr more ↦ rest e failed more
        ]
      ]
    where
      given_up :
          (r : Result OperatorError T) (e : OperatorError)
          → r ≡ err e
          → gives_up (done + 1) e ≡ true
          → (Retryable r → ⊥) ⊎ (done + 1 ≡ operator_attempts)
      given_up (ok v) e failed last = cc
      given_up (err e') e failed last = elim (Bool-cases (is_retryable_operator_error e)) [
        | inl again ↦ inr (ground arith)
        | inr final ↦ inl (λ again. ground arith)
      ]

  retry_from-Tried :
      (left done : ℕ) (w : World W)
      → done + suc left ≡ operator_attempts
      → (retries : ℕ) × Tried w done retries (retry_from route operation (suc left) (done + 1) w)
  retry_from-Tried zero done w h = call-Tried zero done w h (λ e failed more. absurd (ground arith))
  retry_from-Tried (suc left) done w h = call-Tried (suc left) done w h (λ e failed more.
      let w' = back_off route (done + 1) e (call_operator route operation w).1 in
      let (retries, t) = retry_from-Tried left (done + 1) w' (omega arith) in
      (
        suc retries,
        subst (Tried w done (suc retries))
            (sym (retry_from-again (suc left) (done + 1) w e failed more))
            (goes_on w done retries e (retry_from route operation (suc left) (done + 1 + 1) w')
              failed (ground (arith, Bool-cases (is_retryable_operator_error e))) t),
      ))

  -- Whatever the operation answers, it is called once to three times: each call but the last fails
  -- with an error that is worth another attempt, the last call's result is the result, and it is no
  -- such error or the third call's; the pauses between the calls are 100 ms and 200 ms.
  pub retry_operator-Tried :
      (w : World W) → (retries : ℕ) × Tried w 0 retries (retry_operator route operation w)
  unfolding retry_operator
  retry_operator-Tried w = retry_from-Tried 2 0 w refl
