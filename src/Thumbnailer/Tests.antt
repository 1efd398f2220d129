-- ===== src/Thumbnailer/Tests.antt =====
-- Two requests for one medium, a third for another, and the end while the first task is served.
use medialibrary.Common.{ℕ, ◌≡◌, refl, true, false, List, [], ◌∷◌}
use medialibrary.Thumbnailer.{
  Task, absent, unasked, Worker, Event, requests, pauses, stops, advances, stop, advance, run_all,
}
use medialibrary.Thumbnailer.Queue.{IsKept, run_all-IsKept}
use medialibrary.Thumbnailer.Asleep.{IsAlive, run_all-IsAlive}
use medialibrary.Thumbnailer.Ends.{run_all-ends}

abbrev picture : ℕ → ℕ → Task
picture media size_type = record {
  media = media;
  is_loaded = false;
  size_type = size_type;
  desired_width = 320;
  desired_height = 200;
  position = 0;
}

abbrev new_worker : Worker
new_worker = record {
  tasks = [];
  queued_media = [];
  run = false;
  paused = false;
  thread = absent;
  stopping = unasked;
  accepted = [];
  gone = [];
  told = [];
  nb_cleanups = 0;
}

abbrev session : List Event
session =
    requests (picture 5 0)
    ∷ requests (picture 5 1)
    ∷ requests (picture 8 0)
    ∷ advances true true
    ∷ advances true true
    ∷ pauses
    ∷ stops
    ∷ stops
    ∷ stops
    ∷ []

-- The banner that was asked for after the thumbnail of the same medium is not accepted.
session_accepted : (run_all session new_worker).accepted ≡ picture 5 0 ∷ picture 8 0 ∷ []
unfolding run_all
session_accepted = refl

new_worker-IsKept : IsKept new_worker
new_worker-IsKept = record { same_media = refl; distinct = refl; in_order = refl }

run_all-IsKept_example : IsKept (run_all session new_worker)
run_all-IsKept_example = run_all-IsKept session new_worker new_worker-IsKept

run_all-IsAlive_example : IsAlive (run_all session new_worker)
run_all-IsAlive_example = run_all-IsAlive session new_worker refl

run_all-ends_example :
    (stop (advance true false (advance true true (run_all session new_worker)))).thread ≡ absent
unfolding run_all
run_all-ends_example = run_all-ends session new_worker true true true false refl refl
