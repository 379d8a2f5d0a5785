-- ===== src/PowerButton/Task.antt =====
-- crates/booth-bin/src/lib.rs: `event_from_gpio`, `power_button_task` and `drain_release`. The task's loop
-- goes round once for an input that says so, at the time it says, so that it may be polled late;
-- signals arrive in its channel in between. Times are milliseconds.
use telephone_booth.Base.{
  ℕ, ◌+◌, Bool, true, false, not, Option, none, some, List, [], ◌∷◌, ◌++◌, leb, if◌then◌else◌,
}
use telephone_booth.Hal.{hook, rotary_pulse, rotary_read, power_button, GpioEdge}
use telephone_booth.Core.Types.{Event, hook_on, hook_off, power_button_pressed, power_button_held}

pub data PowerButtonSignal : Type 0 where
  level : Bool → PowerButtonSignal
  interrupted : PowerButtonSignal

-- The other events that an edge stands for.
unfoldable pub event_from_gpio : GpioEdge → Option Event
event_from_gpio edge = elim edge.role [
  | hook ↦ some (if edge.level then hook_on else hook_off)
  | rotary_pulse ↦ if not edge.level then some Event.rotary_pulse else none
  | rotary_read ↦ none
  | power_button ↦ none
]

-- The outer loop; the inner loop with the instant at which its timer started; and with `held`.
pub data Phase : Type 0 where
  waiting : Phase
  timing : ℕ → Phase
  holding : Phase
  stopped : Phase

pub record ButtonTask : Type 0 where
  pub phase : Phase
  -- the channel, and whether its senders are gone
  pub queue : List PowerButtonSignal
  pub is_closed : Bool

abbrev pub start_task : ButtonTask
start_task = record { phase = waiting; queue = []; is_closed = false }

abbrev pub task_at : Phase → List PowerButtonSignal → Bool → ButtonTask
task_at phase queue is_closed = record { phase = phase; queue = queue; is_closed = is_closed }

-- Is the press over, and by a release? And what is left in the channel.
unfoldable pub drain_release : Bool → List PowerButtonSignal → Option Bool × List PowerButtonSignal
drain_release is_closed [] = (if is_closed then some false else none, [])
drain_release is_closed (level true ∷ queue) = drain_release is_closed queue
drain_release is_closed (level false ∷ queue) = (some true, queue)
drain_release is_closed (interrupted ∷ queue) = (some false, queue)

-- An event is sent; `is_open` says whether the machine still listens.
abbrev pub send : Bool → Event → Phase → ButtonTask → Option Event × ButtonTask
send is_open e next w =
    if is_open then (some e, record w { phase = next }) else (none, record w { phase = stopped })

-- The press is over by a release or without one, or the button is still held.
unfoldable pub settle : Bool → Option Bool → ButtonTask → Option Event × ButtonTask
settle is_open none w = send is_open power_button_held holding w
settle is_open (some true) w = send is_open power_button_pressed waiting w
settle is_open (some false) w = (none, record w { phase = waiting })

-- The timer's branch.
unfoldable pub deadline : Bool → ButtonTask → Option Event × ButtonTask
unfolding drain_release settle
deadline is_open w =
    let (over, queue) = drain_release w.is_closed w.queue in
    settle is_open over (record w { queue = queue })

-- A signal in the inner loop.
unfoldable pub in_press : Bool → Bool → PowerButtonSignal → ButtonTask → Option Event × ButtonTask
in_press is_open held (level false) w =
    if held
    then (none, record w { phase = waiting })
    else send is_open power_button_pressed waiting w
in_press is_open held (level true) w = (none, w)
in_press is_open held interrupted w = (none, record w { phase = waiting })

-- The next signal is taken; with none the task waits, or ends if none will come.
abbrev pub receive :
    (PowerButtonSignal → ButtonTask → Option Event × ButtonTask)
    → ButtonTask
    → Option Event × ButtonTask
receive f w = elim w.queue [
  | [] ↦ (none, if w.is_closed then record w { phase = stopped } else w)
  | s ∷ queue ↦ f s (record w { queue = queue })
]

abbrev pub begin_press : ℕ → PowerButtonSignal → ButtonTask → Option Event × ButtonTask
begin_press now (level true) w = (none, record w { phase = timing now })
begin_press now _ w = (none, w)

-- Once round the loop at an instant: the event that is sent, if one is, and the task.
unfoldable pub turn : ℕ → ℕ → Bool → ButtonTask → Option Event × ButtonTask
unfolding deadline in_press
turn hold_threshold now is_open w = elim w.phase [
  | waiting ↦ receive (begin_press now) w
  | timing began ↦
      if leb (began + hold_threshold) now
      then deadline is_open w
      else receive (in_press is_open false) w
  | holding ↦ receive (in_press is_open true) w
  | stopped ↦ (none, w)
]

pub data TaskInput : Type 0 where
  -- a signal arrives in the channel
  arrives : PowerButtonSignal → TaskInput
  closes : TaskInput
  -- the instant, and whether the machine listens
  polled : ℕ → Bool → TaskInput

unfoldable pub task_step : ℕ → TaskInput → ButtonTask → Option Event × ButtonTask
unfolding turn
task_step hold_threshold (arrives s) w =
    (none, if w.is_closed then w else record w { queue = w.queue ++ s ∷ [] })
task_step hold_threshold closes w = (none, record w { is_closed = true })
task_step hold_threshold (polled now is_open) w = turn hold_threshold now is_open w

-- The events that are sent, in order, and the task.
unfoldable pub run_task : ℕ → List TaskInput → ButtonTask → List Event × ButtonTask
unfolding task_step
run_task hold_threshold [] w = ([], w)
run_task hold_threshold (i ∷ is) w =
    let (sent, w') = task_step hold_threshold i w in
    let (later, last) = run_task hold_threshold is w' in
    (elim sent [ none ↦ later | some e ↦ e ∷ later ], last)
