-- ===== src/Parser/Tests.antt =====
-- The pipeline, the counts and the link service at concrete tasks.
use medialibrary.Common.{ℕ, ◌+◌, ◌≡◌, refl, inl, true, false, none, [], ◌∷◌, ◌++◌, arith}
use medialibrary.Parser.Task.{
  Step, metadata_extraction, metadata_analysis, linking, no_steps, Task, creation, main, no_link,
  new_task,
}
use medialibrary.Parser.Worker.{Status, success, completed, requeue, returns, Visit}
use medialibrary.Parser.Pipeline.{turn, ended, follow}
use medialibrary.Parser.Ends.{IsReady, IsVisit, follow_ends}
use medialibrary.Parser.Saved.{IsTracked, AllTracked, turn-IsTracked}
use medialibrary.Parser.Stats.{
  Parser, new_parser, schedules, finishes, step, run-Inv, step_reports, refresh_silent,
  refresh_task_list, restore, flush, says_complete,
}
use medialibrary.Parser.Stats
use medialibrary.Parser.Link.{Lookups, written}
use medialibrary.Parser.Worker.{Worker, take_task}
use medialibrary.Common.{map, All, ◌⊎◌, List}
use medialibrary.Parser.Worker.{parse_all, arrive}
use medialibrary.Parser.Queue.{
  Action, act, flushes, taken, dropped, task_of, is_taken, is_unflushed, queues, pauses, resumes,
  thread_enters, thread_runs, act_all, IsHonest, TakesBusy, act_all_fifo, act_all-TakesBusy,
  pause_hides_task,
}

-- A turn with nothing in its way, and the answer of the service.
abbrev smooth : Status → Visit
smooth s = record {
  needs_restoration = false;
  restores = true;
  thrown_before = none;
  postponed = false;
  answer = returns s;
  start_updates = true;
  result_updates = true;
}

-- Extraction succeeds, the analysis always asks to be run again, and linking is complete.
abbrev stubborn : Step → Visit
stubborn metadata_extraction = smooth success
stubborn metadata_analysis = smooth requeue
stubborn linking = smooth completed

stubborn-IsVisit : (m : ℕ) (target : Step) → IsVisit target (stubborn target)
stubborn-IsVisit m metadata_extraction = record { started = refl; answers = refl }
stubborn-IsVisit m metadata_analysis = record { started = refl; answers = refl }
stubborn-IsVisit m linking = record { started = refl; answers = refl }

abbrev first : Task
first = new_task creation main no_link

first-IsReady : IsReady first
first-IsReady = ground arith

first-IsTracked : IsTracked first
first-IsTracked = record { attempts_saved = refl; steps_saved = inl refl }

follow_ends_example : (t' : Task) × (follow 16 (λ m. stubborn) 0 first ≡ ended t')
follow_ends_example =
    follow_ends 16 (λ m. stubborn) 0 first first-IsReady stubborn-IsVisit (omega arith)

turn-IsTracked_example : AllTracked (turn metadata_extraction (smooth success) first)
turn-IsTracked_example =
    turn-IsTracked metadata_extraction (smooth success) first refl first-IsReady
      (stubborn-IsVisit 0 metadata_extraction) first-IsTracked

-- The extraction had succeeded when the program was killed.
abbrev killed : Task
killed = record first { step = record no_steps { extraction = true }; current_service = 1 }

killed-IsTracked : IsTracked killed
killed-IsTracked = record { attempts_saved = refl; steps_saved = inl refl }

new_parser-Inv : Stats.Inv new_parser
new_parser-Inv = record { connected = refl; bounded = omega arith; agrees = refl }

run-Inv_example : Stats.Inv (Stats.run (schedules 3 ∷ finishes ∷ []) new_parser)
run-Inv_example = run-Inv (schedules 3 ∷ finishes ∷ []) new_parser new_parser-Inv

-- One of two tasks is done.
abbrev halfway : Parser
halfway = record new_parser { op_scheduled = 2; op_done = 1; reports = (0, 2) ∷ [] }

halfway-Inv : Stats.Inv halfway
halfway-Inv = record { connected = refl; bounded = omega arith; agrees = refl }

step_reports_example :
    (1 + 1 ≡ 2 → (step finishes halfway).reports ≡ (2, 2) ∷ halfway.reports)
    × (says_complete halfway.reports ≡ true
        → (step (schedules 1) halfway).reports ≡ (1, 2 + 1) ∷ halfway.reports)
step_reports_example = step_reports halfway 1 halfway-Inv

refresh_silent_example :
    ((refresh_task_list 0 halfway).op_done ≡ (refresh_task_list 0 halfway).op_scheduled)
    × (says_complete (refresh_task_list 0 halfway).reports ≡ false)
refresh_silent_example = refresh_silent halfway refl

abbrev found : Lookups
found = record {
  has_external_file = false;
  has_file = true;
  is_main = true;
  has_media = true;
  has_target = true;
  knows_file_id = false;
  adds_file = written;
  adds_track = written;
  sets_media = true;
  adds_item = written;
}

abbrev new_worker : Worker ℕ
new_worker = record {
  tasks = [];
  stop_parser = false;
  paused = false;
  idle = true;
  started = false;
  waiting = false;
  idle_events = [];
}

abbrev shift : List (Action ℕ)
shift = queues (7 ∷ 8 ∷ []) ∷ thread_runs ∷ flushes ∷ queues (9 ∷ []) ∷ []

act_all_test : (act_all shift new_worker).0 ≡ taken 7 ∷ dropped 8 ∷ []
unfolding act_all act take_task parse_all arrive
act_all_test = refl

act_all_fifo_example :
    (map task_of (act_all shift new_worker).0 ++ (act_all shift new_worker).1.tasks
      ≡ 7 ∷ 8 ∷ 9 ∷ [])
    × ((is_unflushed shift ≡ false) ⊎ All (λ o. is_taken o ≡ true) (act_all shift new_worker).0)
act_all_fifo_example = act_all_fifo shift new_worker

abbrev loaded : Worker ℕ
loaded = record new_worker { tasks = 7 ∷ 8 ∷ []; idle = false; started = true }

new_worker-IsHonest : IsHonest new_worker
new_worker-IsHonest = record { running = refl; unpaused = refl; empty = λ e. refl }

act_all-TakesBusy_example :
    IsHonest (act_all (queues (7 ∷ []) ∷ []) new_worker).1
    × TakesBusy (take_task (act_all (queues (7 ∷ []) ∷ []) new_worker).1)
act_all-TakesBusy_example =
    act_all-TakesBusy (queues (7 ∷ []) ∷ []) new_worker refl new_worker-IsHonest

pause_hides_task_example :
    (w' : Worker ℕ) × (act_all
        (pauses ∷ queues (7 ∷ []) ∷ thread_enters ∷ resumes ∷ thread_runs ∷ thread_runs ∷ [])
        new_worker
      ≡ (taken 7 ∷ [], w'))
    × (w'.tasks ≡ [])
    × (w'.waiting ≡ true)
    × (w'.idle_events ≡ false ∷ [])
pause_hides_task_example = pause_hides_task 7 new_worker refl refl refl refl refl
