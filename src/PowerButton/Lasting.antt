-- ===== src/PowerButton/Lasting.antt =====
-- crates/booth-bin/src/lib.rs, `power_button_task`: the press that a running timer belongs to.
use telephone_booth.Base.{
  ℕ, Bool, true, false, List, [], ◌∷◌, ◌++◌, append-nil, append_assoc, ◌≡◌, refl, ap, sym, subst,
  ◌∙◌, All, All-append,
}
use telephone_booth.PowerButton.Task.{
  PowerButtonSignal, level, Phase, waiting, timing, holding, stopped, ButtonTask, TaskInput,
  arrives, closes, polled, task_at,
}

-- The signals that arrive, in their order.
abbrev pub signals : List TaskInput → List PowerButtonSignal
signals [] = []
signals (arrives s ∷ is) = s ∷ signals is
signals (_ ∷ is) = signals is

signals-append : (xs ys : List TaskInput) → signals (xs ++ ys) ≡ signals xs ++ signals ys
signals-append [] ys = refl
signals-append (arrives s ∷ xs) ys = ap (λ l. s ∷ l) (signals-append xs ys)
signals-append (closes ∷ xs) ys = signals-append xs ys
signals-append (polled now is_open ∷ xs) ys = signals-append xs ys

abbrev pub IsPress : PowerButtonSignal → Type 0
IsPress s = s ≡ level true

-- What has been read of the channel, and what is in it.
pub record Read (past : List TaskInput) (queue : List PowerButtonSignal) : Type 0 where
  pub read : List PowerButtonSignal
  pub all : signals past ≡ read ++ queue

-- The timer started at an instant, at which the task read a press; all that was read since are presses.
pub record Timed (began : ℕ) (past : List TaskInput) (queue : List PowerButtonSignal) : Type 0 where
  pub first : List TaskInput
  pub is_open : Bool
  pub since : List TaskInput
  pub inputs : past ≡ first ++ polled began is_open ∷ since
  pub before : List PowerButtonSignal
  pub after : List PowerButtonSignal
  pub press : signals first ≡ before ++ level true ∷ after
  pub read : List PowerButtonSignal
  pub all : after ++ signals since ≡ read ++ queue
  pub presses : All IsPress read

abbrev pub IsTimed : Phase → List TaskInput → List PowerButtonSignal → Type 0
IsTimed (timing began) past queue = Timed began past queue
IsTimed _ past queue = Unit

-- Of an open channel.
abbrev pub Knows : List TaskInput → ButtonTask → Type 0
Knows past w = w.is_closed ≡ false → Read past w.queue × IsTimed w.phase past w.queue

-- An input that brings `new` signals, and after which so much is in the channel.
module _ (past : List TaskInput) (i : TaskInput) where
  pub more-Read :
      (queue new : List PowerButtonSignal)
      → signals (i ∷ []) ≡ new
      → Read past queue
      → Read (past ++ i ∷ []) (queue ++ new)
  more-Read queue new brings h = record {
    read = h.read;
    all =
        signals-append past (i ∷ [])
        ∙ ap (λ l. l ++ signals (i ∷ [])) h.all
        ∙ ap (λ l. (h.read ++ queue) ++ l) brings
        ∙ append_assoc h.read queue new;
  }

  pub more-Timed :
      (began : ℕ) (queue new : List PowerButtonSignal)
      → signals (i ∷ []) ≡ new
      → Timed began past queue
      → Timed began (past ++ i ∷ []) (queue ++ new)
  more-Timed began queue new brings h = record {
    first = h.first;
    is_open = h.is_open;
    since = h.since ++ i ∷ [];
    inputs =
        ap (λ l. l ++ i ∷ []) h.inputs
        ∙ append_assoc h.first (polled began h.is_open ∷ h.since) (i ∷ []);
    before = h.before;
    after = h.after;
    press = h.press;
    read = h.read;
    all =
        ap (λ l. h.after ++ l)
          (signals-append h.since (i ∷ []) ∙ ap (λ l. signals h.since ++ l) brings)
        ∙ sym (append_assoc h.after (signals h.since) new)
        ∙ ap (λ l. l ++ new) h.all
        ∙ append_assoc h.read queue new;
    presses = h.presses;
  }

  pub more-IsTimed :
      (phase : Phase) (queue new : List PowerButtonSignal)
      → signals (i ∷ []) ≡ new
      → IsTimed phase past queue
      → IsTimed phase (past ++ i ∷ []) (queue ++ new)
  more-IsTimed (timing began) queue new brings h = more-Timed began queue new brings h
  more-IsTimed waiting queue new brings h = _
  more-IsTimed holding queue new brings h = _
  more-IsTimed stopped queue new brings h = _

-- So much of the channel is read.
pub next-Read :
    (past : List TaskInput) (gone queue : List PowerButtonSignal)
    → Read past (gone ++ queue)
    → Read past queue
next-Read past gone queue h = record {
  read = h.read ++ gone;
  all = h.all ∙ sym (append_assoc h.read gone queue);
}

next-Timed :
    (began : ℕ) (past : List TaskInput) (queue : List PowerButtonSignal)
    → Timed began past (level true ∷ queue)
    → Timed began past queue
next-Timed began past queue h = record {
  first = h.first;
  is_open = h.is_open;
  since = h.since;
  inputs = h.inputs;
  before = h.before;
  after = h.after;
  press = h.press;
  read = h.read ++ level true ∷ [];
  all = h.all ∙ sym (append_assoc h.read (level true ∷ []) queue);
  presses = All-append IsPress h.read (level true ∷ []) h.presses (refl, _);
}

-- A press is read, and its timer starts.
pub begin-Timed :
    (past : List TaskInput) (now : ℕ) (is_open : Bool) (queue : List PowerButtonSignal)
    → Read past (level true ∷ queue)
    → Timed now (past ++ polled now is_open ∷ []) queue
begin-Timed past now is_open queue h = record {
  first = past;
  is_open = is_open;
  since = [];
  inputs = refl;
  before = h.read;
  after = queue;
  press = h.all;
  read = [];
  all = append-nil queue;
  presses = _;
}

-- An input that brings no signal.
module _ (past : List TaskInput) (i : TaskInput) (quiet : signals (i ∷ []) ≡ []) where
  pub quiet-Read : (queue : List PowerButtonSignal) → Read past queue → Read (past ++ i ∷ []) queue
  quiet-Read queue h =
      subst (Read (past ++ i ∷ [])) (append-nil queue) (more-Read past i queue [] quiet h)

  quiet-IsTimed :
      (phase : Phase) (queue : List PowerButtonSignal)
      → IsTimed phase past queue
      → IsTimed phase (past ++ i ∷ []) queue
  quiet-IsTimed (timing began) queue h =
      subst (Timed began (past ++ i ∷ [])) (append-nil queue)
        (more-Timed past i began queue [] quiet h)
  quiet-IsTimed waiting queue h = _
  quiet-IsTimed holding queue h = _
  quiet-IsTimed stopped queue h = _

  pub quiet-Knows :
      (phase : Phase) (queue : List PowerButtonSignal) (is_closed : Bool)
      → Knows past (task_at phase queue is_closed)
      → Knows (past ++ i ∷ []) (task_at phase queue is_closed)
  quiet-Knows phase queue is_closed h =
      λ c. let (r, t) = h c in (quiet-Read queue r, quiet-IsTimed phase queue t)

pub pressed-IsTimed :
    (phase : Phase) (past : List TaskInput) (queue : List PowerButtonSignal)
    → IsTimed phase past (level true ∷ queue)
    → IsTimed phase past queue
pressed-IsTimed (timing began) past queue h = next-Timed began past queue h
pressed-IsTimed waiting past queue h = _
pressed-IsTimed holding past queue h = _
pressed-IsTimed stopped past queue h = _
