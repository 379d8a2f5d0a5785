-- ===== src/PowerButton/Turned.antt =====
-- crates/booth-bin/src/lib.rs, `power_button_task`: the task knows the press that its timer belongs to.
use telephone_booth.Base.{
  ℕ, ◌+◌, Bool, true, false, Option, none, some, List, [], ◌∷◌, ◌++◌, append-nil, append_assoc, ◌≡◌,
  refl, sym, subst, leb, if_cases,
}
use telephone_booth.PowerButton.Task.{
  PowerButtonSignal, level, interrupted, Phase, waiting, timing, holding, stopped, ButtonTask,
  start_task, drain_release, deadline, in_press, turn, TaskInput, arrives, closes, polled,
  task_step, run_task, receive, settle, task_at,
}
use telephone_booth.PowerButton.Lasting.{
  Read, Knows, more-Read, more-IsTimed, next-Read, begin-Timed, quiet-Read, quiet-Knows,
  pressed-IsTimed,
}

module _ (past : List TaskInput) where
  drain-Read :
      (is_closed : Bool) (queue : List PowerButtonSignal)
      → Read past queue
      → Read past (drain_release is_closed queue).1
  unfolding drain_release
  drain-Read closed [] h = h
  drain-Read closed (level true ∷ queue) h =
      drain-Read closed queue (next-Read past (level true ∷ []) queue h)
  drain-Read closed (level false ∷ queue) h = next-Read past (level false ∷ []) queue h
  drain-Read closed (interrupted ∷ queue) h = next-Read past (interrupted ∷ []) queue h

  settle-Knows :
      (is_open : Bool) (over : Option Bool) (w : ButtonTask)
      → (w.is_closed ≡ false → Read past w.queue)
      → Knows past (settle is_open over w).1
  unfolding settle
  settle-Knows true none w h = λ c. (h c, _)
  settle-Knows false none w h = λ c. (h c, _)
  settle-Knows true (some true) w h = λ c. (h c, _)
  settle-Knows false (some true) w h = λ c. (h c, _)
  settle-Knows is_open (some false) w h = λ c. (h c, _)

  deadline-Knows :
      (is_open is_closed : Bool) (phase : Phase) (queue : List PowerButtonSignal)
      → Knows past (task_at phase queue is_closed)
      → Knows past (deadline is_open (task_at phase queue is_closed)).1
  unfolding deadline
  deadline-Knows is_open closed phase queue h =
      let (over, left) = drain_release closed queue in
      settle-Knows is_open over (task_at phase left closed) (λ c. drain-Read closed queue (h c).0)

  in_press-Knows :
      (is_open held is_closed : Bool) (phase : Phase) (s : PowerButtonSignal)
      (queue : List PowerButtonSignal)
      → Knows past (task_at phase (s ∷ queue) is_closed)
      → Knows past (in_press is_open held s (task_at phase queue is_closed)).1
  unfolding in_press
  in_press-Knows is_open held closed phase (level true) queue h = λ c.
      (next-Read past (level true ∷ []) queue (h c).0, pressed-IsTimed phase past queue (h c).1)
  in_press-Knows is_open true closed phase (level false) queue h =
      λ c. (next-Read past (level false ∷ []) queue (h c).0, _)
  in_press-Knows true false closed phase (level false) queue h =
      λ c. (next-Read past (level false ∷ []) queue (h c).0, _)
  in_press-Knows false false closed phase (level false) queue h =
      λ c. (next-Read past (level false ∷ []) queue (h c).0, _)
  in_press-Knows is_open held closed phase interrupted queue h =
      λ c. (next-Read past (interrupted ∷ []) queue (h c).0, _)

  received-Knows :
      (is_open held is_closed : Bool) (phase : Phase) (queue : List PowerButtonSignal)
      → Knows past (task_at phase queue is_closed)
      → Knows past (receive (in_press is_open held) (task_at phase queue is_closed)).1
  received-Knows is_open held true phase [] h = λ c. cc
  received-Knows is_open held false phase [] h = h
  received-Knows is_open held closed phase (s ∷ queue) h =
      in_press-Knows is_open held closed phase s queue h

turn-Knows :
    (past : List TaskInput) (hold now : ℕ) (is_open is_closed : Bool) (phase : Phase)
    (queue : List PowerButtonSignal)
    → Knows past (task_at phase queue is_closed)
    → Knows
        (past ++ polled now is_open ∷ [])
        (turn hold now is_open (task_at phase queue is_closed)).1
unfolding turn
turn-Knows past hold now is_open true waiting [] h = λ c. cc
turn-Knows past hold now is_open false waiting [] h =
    quiet-Knows past (polled now is_open) refl waiting [] false h
turn-Knows past hold now is_open closed waiting (level true ∷ queue) h = λ c. (
  next-Read (past ++ polled now is_open ∷ []) (level true ∷ []) queue
      (quiet-Read past (polled now is_open) refl (level true ∷ queue) (h c).0),
  begin-Timed past now is_open queue (h c).0,
)
turn-Knows past hold now is_open closed waiting (level false ∷ queue) h = λ c. (
  next-Read (past ++ polled now is_open ∷ []) (level false ∷ []) queue
      (quiet-Read past (polled now is_open) refl (level false ∷ queue) (h c).0),
  _,
)
turn-Knows past hold now is_open closed waiting (interrupted ∷ queue) h = λ c. (
  next-Read (past ++ polled now is_open ∷ []) (interrupted ∷ []) queue
      (quiet-Read past (polled now is_open) refl (interrupted ∷ queue) (h c).0),
  _,
)
turn-Knows past hold now is_open closed stopped queue h =
    quiet-Knows past (polled now is_open) refl stopped queue closed h
turn-Knows past hold now is_open closed holding queue h =
    let next = past ++ polled now is_open ∷ [] in
    received-Knows next is_open true closed holding queue
      (quiet-Knows past (polled now is_open) refl holding queue closed h)
turn-Knows past hold now is_open closed (timing began) queue h =
    let next = past ++ polled now is_open ∷ [] in
    let still = quiet-Knows past (polled now is_open) refl (timing began) queue closed h in
    if_cases (λ run. Knows next run.1) (leb (began + hold) now)
      (deadline is_open (task_at (timing began) queue closed))
      (receive (in_press is_open false) (task_at (timing began) queue closed))
      (deadline-Knows next is_open closed (timing began) queue still)
      (received-Knows next is_open false closed (timing began) queue still)

arrives-Knows :
    (past : List TaskInput) (hold : ℕ) (s : PowerButtonSignal) (phase : Phase)
    (queue : List PowerButtonSignal) (is_closed : Bool)
    → Knows past (task_at phase queue is_closed)
    → Knows (past ++ arrives s ∷ []) (task_step hold (arrives s) (task_at phase queue is_closed)).1
unfolding task_step
arrives-Knows past hold s phase queue true h = λ c. cc
arrives-Knows past hold s phase queue false h = λ c.
    let (r, t) = h c in
    (
      more-Read past (arrives s) queue (s ∷ []) refl r,
      more-IsTimed past (arrives s) phase queue (s ∷ []) refl t,
    )

task_step-Knows :
    (past : List TaskInput) (hold : ℕ) (i : TaskInput) (w : ButtonTask)
    → Knows past w
    → Knows (past ++ i ∷ []) (task_step hold i w).1
unfolding task_step
task_step-Knows past hold (arrives s) w h = arrives-Knows past hold s w.phase w.queue w.is_closed h
task_step-Knows past hold closes w h = λ c. cc
task_step-Knows past hold (polled now is_open) w h =
    turn-Knows past hold now is_open w.is_closed w.phase w.queue h

-- Whatever arrives and whenever the task is polled.
pub run_task-Knows :
    (past : List TaskInput) (hold : ℕ) (is : List TaskInput) (w : ButtonTask)
    → Knows past w
    → Knows (past ++ is) (run_task hold is w).1
unfolding run_task
run_task-Knows past hold [] w h = subst (λ l. Knows l w) (sym (append-nil past)) h
run_task-Knows past hold (i ∷ is) w h =
    subst (λ l. Knows l (run_task hold is (task_step hold i w).1).1) (append_assoc past (i ∷ []) is)
      (run_task-Knows (past ++ i ∷ []) hold is (task_step hold i w).1
        (task_step-Knows past hold i w h))

pub start-Knows : Knows [] start_task
start-Knows c = (record { read = []; all = refl }, _)
