-- ===== src/Sessions/Chains.antt =====
-- crates/booth-bin/src/lib.rs: the main loop's transitions form a chain of state names.
use telephone_booth.Base.{
  ℕ, Bool, true, false, not, ◌&&◌, String, Option, none, some, List, [], ◌∷◌, ◌++◌, ◌≡◌, refl, sym,
  subst, if_cases,
}
use telephone_booth.Core.Types.{State, Event, tick, hook_off}
use telephone_booth.Runtime.Events.{
  Published, digit_published, error_published, tag, is_idle_or_paused, is_paused, publish,
  published_digit, handle_event,
}
use telephone_booth.Runtime.Loop.{
  needs_tick, LoopInput, installation_changed, event_received, inject_event, snapshot, shutdown,
  Runtime, first_runtime, handled, start_runtime, loop_step, run_loop,
}

-- From the first state's name, each transition starts where the last one ended; the last name.
unfoldable pub IsChain : String → List Published → String → Type 0
IsChain a [] c = a ≡ c
IsChain a (Published.state_transition from to e ∷ ps) c = (from ≡ a) × IsChain to ps c
IsChain a (digit_published digit pulses ∷ ps) c = IsChain a ps c
IsChain a (error_published source message ∷ ps) c = IsChain a ps c

IsChain-append :
    (a b c : String) (ps qs : List Published)
    → IsChain a ps b
    → IsChain b qs c
    → IsChain a (ps ++ qs) c
unfolding IsChain
IsChain-append a b c [] qs h k = subst (λ x. IsChain x qs c) (sym h) k
IsChain-append a b c (Published.state_transition from to e ∷ ps) qs (h, t) k =
    (h, IsChain-append to b c ps qs t k)
IsChain-append a b c (digit_published digit pulses ∷ ps) qs h k = IsChain-append a b c ps qs h k
IsChain-append a b c (error_published source message ∷ ps) qs h k = IsChain-append a b c ps qs h k

publish-IsChain :
    (from : State) (e : Event) (to : State) (digit : Option (ℕ × ℕ))
    → IsChain (tag from) (publish from e to digit) (tag to)
unfolding publish IsChain
publish-IsChain from e to none =
    if_cases (λ ps. IsChain (tag from) ps (tag to)) (is_paused from && not (is_idle_or_paused to)) _
      _ (refl, refl) (refl, refl)
publish-IsChain from e to (some (digit, pulses)) =
    if_cases (λ ps. IsChain (tag from) ps (tag to)) (is_paused from && not (is_idle_or_paused to)) _
      _ (refl, refl) (refl, refl)

-- What was published so far leads from the first state's name to the present one's.
unfoldable pub IsFollowed : String → Runtime → Type 0
IsFollowed a w = IsChain a w.published (tag w.state)

handled-IsFollowed :
    (a : String) (acc : Bool) (e : Event) (w : Runtime)
    → IsFollowed a w
    → IsFollowed a (handled acc e w)
unfolding handled IsFollowed handle_event
handled-IsFollowed a acc e w h =
    let ((next, _), published) = handle_event acc w.state e in
    IsChain-append a (tag w.state) (tag next) w.published published h
      (publish-IsChain w.state e next (published_digit acc w.state e))

loop_step-IsFollowed :
    (a : String) (allow : Bool) (i : LoopInput) (w : Runtime)
    → IsFollowed a w
    → IsFollowed a (loop_step allow i w)
unfolding loop_step IsFollowed
loop_step-IsFollowed a allow (installation_changed available again) w h =
    if_cases (IsFollowed a) (needs_tick available w)
      (handled again tick (record w { accepting_calls = available })) w
      (handled-IsFollowed a again tick (record w { accepting_calls = available }) h) h
loop_step-IsFollowed a allow (event_received e acc) w h = handled-IsFollowed a acc e w h
loop_step-IsFollowed a true (inject_event e acc) w h = handled-IsFollowed a acc e w h
loop_step-IsFollowed a false (inject_event e acc) w h =
    unfold IsChain in IsChain-append a (tag w.state) (tag w.state) w.published _ h refl
loop_step-IsFollowed a allow snapshot w h = h
loop_step-IsFollowed a allow shutdown w h = h

pub run_loop-IsFollowed :
    (a : String) (allow : Bool) (is : List LoopInput) (w : Runtime)
    → IsFollowed a w
    → IsFollowed a (run_loop allow is w)
unfolding run_loop
run_loop-IsFollowed a allow [] w h = h
run_loop-IsFollowed a allow (i ∷ is) w h =
    if_cases (IsFollowed a) w.running (run_loop allow is (loop_step allow i w)) w
      (run_loop-IsFollowed a allow is (loop_step allow i w) (loop_step-IsFollowed a allow i w h)) h

abbrev pub first_tag : Bool → String
first_tag true = "idle"
first_tag false = "calls_paused"

pub start-IsFollowed :
    (accepting_calls initial_hook_on again : Bool)
    → IsFollowed (first_tag accepting_calls) (start_runtime accepting_calls initial_hook_on again)
unfolding start_runtime IsFollowed IsChain tag
start-IsFollowed false hook again = refl
start-IsFollowed true true again = refl
start-IsFollowed true false again =
    handled-IsFollowed "idle" again hook_off (first_runtime true false) refl
