-- ===== src/Operator/Traces.antt =====
-- crates/booth-bin/src/lib.rs, `retry_operator`: the requests and the pauses in what it does.
use telephone_booth.Base.{
  ℕ, zero, suc, ◌+◌, ◌≤◌, true, String, List, [], ◌∷◌, ◌++◌, ◌≡◌, refl, ap, ◌∙◌, arith, Result, ok,
  err, drop,
}
use telephone_booth.Operator.Errors.{OperatorError, is_retryable_operator_error, operator_backoff}
use telephone_booth.Operator.Retry.{
  Action, operator_request, sleep_ms, World, back_off, publish_operator_error,
}

-- The pauses of a trace, in order.
abbrev pub pauses : List Action → List ℕ
pauses [] = []
pauses (sleep_ms ms ∷ acts) = ms ∷ pauses acts
pauses (_ ∷ acts) = pauses acts

-- How many requests a trace has.
abbrev pub requests_made : List Action → ℕ
requests_made [] = 0
requests_made (operator_request id route ∷ acts) = suc (requests_made acts)
requests_made (_ ∷ acts) = requests_made acts

pub pauses-append : (xs ys : List Action) → pauses (xs ++ ys) ≡ pauses xs ++ pauses ys
pauses-append [] ys = refl
pauses-append (sleep_ms ms ∷ xs) ys = ap (λ l. ms ∷ l) (pauses-append xs ys)
pauses-append (_ ∷ xs) ys = pauses-append xs ys

pub requests_made-append :
    (xs ys : List Action) → requests_made (xs ++ ys) ≡ requests_made xs + requests_made ys
requests_made-append [] ys = omega arith
requests_made-append (operator_request id route ∷ xs) ys = omega (arith, requests_made-append xs ys)
requests_made-append (_ ∷ xs) ys = requests_made-append xs ys

-- An error that ends the attempts, unless they are used up.
abbrev pub Retryable {ℓ} : {T : Type ℓ} → Result OperatorError T → Type 0
Retryable (ok v) = ⊥
Retryable (err e) = is_retryable_operator_error e ≡ true

-- The two pauses between three attempts.
abbrev pub backoffs : List ℕ
backoffs = 100 ∷ 200 ∷ []

error-trace :
    (route : String) (e : OperatorError)
    → (requests_made (publish_operator_error route e) ≡ 0)
      × (pauses (publish_operator_error route e) ≡ [])
unfolding publish_operator_error
error-trace route e = ground arith

pub drop-backoffs :
    (done : ℕ)
    → done ≤ 1
    → drop done backoffs ≡ operator_backoff (done + 1) ∷ drop (done + 1) backoffs
unfolding operator_backoff
drop-backoffs zero h = refl
drop-backoffs (suc zero) h = refl
drop-backoffs (suc (suc done)) h = absurd (omega arith)

module _ {W : Type 0} (route : String) where
  pub back_off-requests :
      (attempt : ℕ) (e : OperatorError) (w : World W)
      → requests_made (back_off route attempt e w).trace ≡ requests_made w.trace
  unfolding back_off
  back_off-requests attempt e w = omega (
    arith,
    requests_made-append w.trace,
    requests_made-append (publish_operator_error route e)
        (sleep_ms (operator_backoff attempt) ∷ []),
    (error-trace route e).0,
  )

  pub back_off-pauses :
      (attempt : ℕ) (e : OperatorError) (w : World W)
      → pauses (back_off route attempt e w).trace ≡ pauses w.trace ++ operator_backoff attempt ∷ []
  unfolding back_off
  back_off-pauses attempt e w =
      let reported = publish_operator_error route e in
      pauses-append w.trace (reported ++ sleep_ms (operator_backoff attempt) ∷ [])
      ∙ ap (λ l. pauses w.trace ++ l)
          (pauses-append reported (sleep_ms (operator_backoff attempt) ∷ [])
            ∙ ap (λ l. l ++ operator_backoff attempt ∷ []) (error-trace route e).1)
