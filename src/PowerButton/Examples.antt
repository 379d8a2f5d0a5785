-- ===== src/PowerButton/Examples.antt =====
-- crates/booth-bin/src/lib.rs, `power_button_task`: a button that is held for five seconds.
use telephone_booth.Base.{true, some, List, [], ◌∷◌, ◌≡◌, refl}
use telephone_booth.Core.Types.{power_button_held}
use telephone_booth.PowerButton.Task.{
  level, start_task, drain_release, deadline, settle, turn, TaskInput, arrives, polled, task_step,
  run_task,
}
use telephone_booth.PowerButton.Held.{IsHeld, run_task-IsHeld}

abbrev pressed : List TaskInput
pressed = arrives (level true) ∷ polled 100 true ∷ polled 2_000 true ∷ []

powers_off :
    (task_step 5_000 (polled 5_100 true) (run_task 5_000 pressed start_task).1).0
    ≡ some power_button_held
unfolding task_step run_task turn deadline settle drain_release
powers_off = refl

run_task-IsHeld_example : IsHeld 5_000 5_100 pressed
run_task-IsHeld_example = run_task-IsHeld 5_000 5_100 true pressed powers_off
