-- ===== src/PowerButton/Held.antt =====
-- crates/booth-bin/src/lib.rs, `power_button_task`: when the host is powered off.
use telephone_booth.Base.{
  ℕ, ◌+◌, ◌≤◌, Bool, true, false, Option, none, some, List, [], ◌∷◌, ◌++◌, ◌≡◌, refl, sym, subst,
  leb, All, All-append, arith, inl, inr, Bool-cases,
}
use telephone_booth.Core.Types.{power_button_held}
use telephone_booth.PowerButton.Task.{
  PowerButtonSignal, level, interrupted, Phase, waiting, timing, holding, stopped, ButtonTask,
  start_task, drain_release, deadline, in_press, turn, TaskInput, polled, task_step, run_task,
  receive, settle, task_at,
}
use telephone_booth.PowerButton.Lasting.{signals, IsPress, Timed, Knows}
use telephone_booth.PowerButton.Turned.{run_task-Knows, start-Knows}

drain_open :
    (is_closed : Bool) (queue : List PowerButtonSignal)
    → (drain_release is_closed queue).0 ≡ none
    → is_closed ≡ false
unfolding drain_release
drain_open closed [] h = ground arith
drain_open closed (level true ∷ queue) h = drain_open closed queue h
drain_open closed (level false ∷ queue) h = cc
drain_open closed (interrupted ∷ queue) h = cc

settle-held :
    (is_open : Bool) (over : Option Bool) (w : ButtonTask)
    → (settle is_open over w).0 ≡ some power_button_held
    → over ≡ none
unfolding settle
settle-held is_open none w h = refl
settle-held true (some true) w h = cc
settle-held false (some true) w h = cc
settle-held is_open (some false) w h = cc

in_press-held :
    (is_open held : Bool) (s : PowerButtonSignal) (w : ButtonTask)
    → (in_press is_open held s w).0 ≡ some power_button_held
    → ⊥
unfolding in_press
in_press-held is_open held (level true) w h = cc
in_press-held is_open true (level false) w h = cc
in_press-held true false (level false) w h = cc
in_press-held false false (level false) w h = cc
in_press-held is_open held interrupted w h = cc

received-held :
    (is_open held is_closed : Bool) (phase : Phase) (queue : List PowerButtonSignal)
    → (receive (in_press is_open held) (task_at phase queue is_closed)).0 ≡ some power_button_held
    → ⊥
received-held is_open held closed phase [] h = cc
received-held is_open held closed phase (s ∷ queue) h =
    in_press-held is_open held s (task_at phase queue closed) h

drain-presses :
    (is_closed : Bool) (queue : List PowerButtonSignal)
    → (drain_release is_closed queue).0 ≡ none
    → All IsPress queue
unfolding drain_release
drain-presses closed [] h = _
drain-presses closed (level true ∷ queue) h = (refl, drain-presses closed queue h)
drain-presses closed (level false ∷ queue) h = cc
drain-presses closed (interrupted ∷ queue) h = cc

-- The button is held at the instant `now`, by the inputs up to it: at an instant that the threshold has
-- passed since, the task was polled with a press that had arrived, and since that press nothing but presses arrived.
pub record IsHeld (hold now : ℕ) (is : List TaskInput) : Type 0 where
  pub began : ℕ
  pub long : began + hold ≤ now
  -- the inputs up to the poll, and after it
  pub first : List TaskInput
  pub is_open : Bool
  pub since : List TaskInput
  pub inputs : is ≡ first ++ polled began is_open ∷ since
  -- the signals before the press, and after it
  pub before : List PowerButtonSignal
  pub after : List PowerButtonSignal
  pub press : signals first ≡ before ++ level true ∷ after
  pub held : All IsPress (after ++ signals since)

Timed-IsHeld :
    (hold now began : ℕ) (is : List TaskInput) (queue : List PowerButtonSignal)
    → began + hold ≤ now
    → All IsPress queue
    → Timed began is queue
    → IsHeld hold now is
Timed-IsHeld hold now began is queue long presses t = record {
  began = began;
  long = long;
  first = t.first;
  is_open = t.is_open;
  since = t.since;
  inputs = t.inputs;
  before = t.before;
  after = t.after;
  press = t.press;
  held = subst (All IsPress) (sym t.all) (All-append IsPress t.read queue t.presses presses);
}

turn-IsHeld :
    (hold now : ℕ) (is : List TaskInput) (is_open is_closed : Bool) (phase : Phase)
    (queue : List PowerButtonSignal)
    → Knows is (task_at phase queue is_closed)
    → (turn hold now is_open (task_at phase queue is_closed)).0 ≡ some power_button_held
    → IsHeld hold now is
unfolding turn deadline
turn-IsHeld hold now is is_open closed waiting [] t h = cc
turn-IsHeld hold now is is_open closed waiting (level true ∷ queue) t h = cc
turn-IsHeld hold now is is_open closed waiting (level false ∷ queue) t h = cc
turn-IsHeld hold now is is_open closed waiting (interrupted ∷ queue) t h = cc
turn-IsHeld hold now is is_open closed holding queue t h =
    absurd (received-held is_open true closed holding queue h)
turn-IsHeld hold now is is_open closed stopped queue t h = cc
turn-IsHeld hold now is is_open closed (timing began) queue t h =
    elim (Bool-cases (leb (began + hold) now)) [
      | inr early ↦
          absurd (received-held is_open false closed (timing began) queue (rw (early, turn) at h))
      | inl late ↦
          let (over, left) = drain_release closed queue in
          let still =
            settle-held is_open over (task_at (timing began) left closed) (rw (late, turn) at h) in
          Timed-IsHeld hold now began is queue (ground arith) (drain-presses closed queue still)
            (t (drain_open closed queue still)).1
    ]

-- From its start, whatever signals arrive and however late the task is polled: it asks to power off
-- the host only when the button is held: at an instant that the whole threshold has passed since, it was polled
-- when a press had arrived, and every signal that arrived after that press, also those that wait unread, is a
-- press, so that no release and no loss of the signals came in between.
pub run_task-IsHeld :
    (hold now : ℕ) (is_open : Bool) (is : List TaskInput)
    → (task_step hold (polled now is_open) (run_task hold is start_task).1).0
      ≡ some power_button_held
    → IsHeld hold now is
unfolding task_step
run_task-IsHeld hold now is_open is h =
    let w = (run_task hold is start_task).1 in
    turn-IsHeld hold now is is_open w.is_closed w.phase w.queue
      (run_task-Knows [] hold is start_task start-Knows) h
