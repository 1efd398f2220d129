-- ===== src/Parser/Worker.antt =====
-- src/parser/ParserWorker.cpp: one turn of a worker's loop on a task, and its queue.
use medialibrary.Common.{
  if◌then◌else◌, Bool, true, false, not, ◌&&◌, Option, none, some, List, [], ◌∷◌, ◌++◌,
}
use medialibrary.Parser.Task.{
  Step, metadata_extraction, metadata_analysis, linking, Task, mark_step_completed, mark_completed,
  save_parser_step, decrement_retry_count, start_parser_step, is_step_completed, destroy,
}

pub data Status : Type 0 where
  unknown success temporary_unavailable fatal completed discarded requeue : Status

-- The exceptions of the file system, and what `run` of the service does.
pub data Fault : Type 0 where
  device_removed fs_exception : Fault

pub data Answer : Type 0 where
  returns : Status → Answer
  throws : Fault → Answer

-- What the turn meets: whether the entities have to be restored and can be, what is thrown before
-- the service is called, whether the file is on an absent device, the answer of the service, and
-- whether each update of the database succeeds.
pub record Visit : Type 0 where
  pub needs_restoration : Bool
  pub restores : Bool
  pub thrown_before : Option Fault
  pub postponed : Bool
  pub answer : Answer
  pub start_updates : Bool
  pub result_updates : Bool

abbrev pub caught_fault : Fault → Status
caught_fault device_removed = temporary_unavailable
caught_fault fs_exception = fatal

abbrev pub caught : Answer → Status
caught (returns s) = s
caught (throws f) = caught_fault f

-- `handleServiceResult`.
abbrev pub save_target : Step → Bool → Task → Task × Bool
save_target metadata_extraction ok t = decrement_retry_count ok t
save_target metadata_analysis ok t = save_parser_step ok t
save_target linking ok t = save_parser_step ok t

unfoldable pub handle_service_result : Step → Bool → Status → Task → Task × Bool
handle_service_result target ok success t = save_target target ok (mark_step_completed target t)
handle_service_result target ok completed t = save_parser_step ok (mark_completed t)
handle_service_result target ok discarded t = (if ok then destroy t else t, ok)
handle_service_result target ok _ t = (t, true)

-- What is reported to the parser after the service's result is handled.
unfoldable pub conclude : Step → Visit → Status → Task → Task × Status
conclude target v status t =
    let (t', handled) = handle_service_result target v.result_updates status t in
    (t', if handled then status else fatal)

-- The `try` block: the task is postponed, or the service runs.
unfoldable pub run_service : Step → Visit → Task → Task × Status
run_service target v t = elim v.thrown_before [
  | some fault ↦ conclude target v (caught_fault fault) t
  | none ↦
      if v.postponed
      then (t, temporary_unavailable)
      else conclude target v (caught v.answer) (start_parser_step v.start_updates t)
]

-- One turn: the task, and the status with which the parser's `done` is called.
unfoldable pub visit : Step → Visit → Task → Task × Status
visit target v t =
    if is_step_completed target t
    then (t, success)
    else if v.needs_restoration && not v.restores
    then (t, temporary_unavailable)
    else run_service target v t

-- The worker's queue and flags, under its mutex. `idle_events` are the calls of `onIdleChanged`.
pub record Worker (A : Type 0) : Type 0 where
  pub tasks : List A
  pub stop_parser : Bool
  pub paused : Bool
  pub idle : Bool
  pub started : Bool
  pub waiting : Bool
  pub idle_events : List Bool

module _ {A : Type 0} where
  abbrev pub set_idle : Bool → Worker A → Worker A
  set_idle true w =
      if w.idle then w else record w { idle = true; idle_events = w.idle_events ++ true ∷ [] }
  set_idle false w =
      if w.idle then record w { idle = false; idle_events = w.idle_events ++ false ∷ [] } else w

  unfoldable pub parse : A → Worker A → Worker A
  parse t w =
      let awake = if w.paused then w else set_idle false w in
      record awake { tasks = awake.tasks ++ t ∷ []; started = true }

  unfoldable pub parse_all : List A → Worker A → Worker A
  parse_all ts w =
      let awake = if w.paused then w else set_idle false w in
      record awake { tasks = awake.tasks ++ ts; started = true }

  -- The thread's entry into the loop tells the parser, and leaves the flag as it is.
  abbrev pub enter_loop : Worker A → Worker A
  enter_loop w = record w { idle_events = w.idle_events ++ false ∷ [] }

  abbrev pub pause : Worker A → Worker A
  pause w = record w { paused = true }

  abbrev pub resume : Worker A → Worker A
  resume w = record w { paused = false }

  abbrev pub flush : Worker A → Worker A
  flush w = record w { tasks = [] }

  abbrev pub signal_stop : Worker A → Worker A
  signal_stop w = record w { stop_parser = true }

-- How the locked block at the head of the loop ends.
pub data Take (A : Type 0) : Type 0 where
  leaves waits : Worker A → Take A
  takes : A → Worker A → Take A

module _ {A : Type 0} where
  abbrev pub take_front : List A → Worker A → Take A
  take_front [] w = waits w
  take_front (t ∷ ts) w = takes t (record w { tasks = ts; waiting = false })

  -- A thread that comes to the block.
  unfoldable pub arrive : List A → Worker A → Take A
  arrive [] w = waits (record (set_idle true w) { waiting = true })
  arrive (t ∷ ts) w =
      if w.paused
      then waits (record (set_idle true w) { waiting = true })
      else take_front (t ∷ ts) w

  -- A thread that waits, when it is notified.
  unfoldable pub wake_up : List A → Worker A → Take A
  wake_up [] w = waits w
  wake_up (t ∷ ts) w = if w.paused then waits w else take_front (t ∷ ts) (set_idle false w)

  -- A worker that stops leaves the loop, and is idle behind it.
  unfoldable pub take_task : Worker A → Take A
  take_task w =
      if w.stop_parser
      then leaves (set_idle true w)
      else if w.waiting
      then wake_up w.tasks w
      else arrive w.tasks w
