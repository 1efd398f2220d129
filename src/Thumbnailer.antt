-- ===== src/Thumbnailer.antt =====
-- src/thumbnails/ThumbnailerWorker.cpp: the requests, the queue and the thread that serves it. Each
-- function is a critical section, or the part of one between two.
mod Queue
mod Asleep
mod Ends
mod Tests
use medialibrary.Common.{
  ℕ, suc, ◌==◌, if◌then◌else◌, Bool, true, false, not, ◌&&◌, ◌||◌, List, [], ◌∷◌, ◌++◌,
}

-- A task; medium 0 asks for the clean-up. A position is the word that stands for it.
pub record Task : Type 0 where
  pub media : ℕ
  pub is_loaded : Bool
  pub size_type : ℕ
  pub desired_width : ℕ
  pub desired_height : ℕ
  pub position : ℕ

-- Where the thread is: it does not exist, is about to test the flag of its loop or to take the lock,
-- sleeps on the condition, serves a task, or has left its loop.
pub data Thread : Type 0 where
  absent begins waits sleeps left : Thread
  serves : Task → Thread

-- How far a call of `stop` is: none runs, the flag is reset, the queue is empty, or it joins.
pub data Stopping : Type 0 where
  unasked flagged emptied joins : Stopping

-- The worker, with the tasks that it accepted, those that left the queue, and what it told.
pub record Worker : Type 0 where
  pub tasks : List Task
  pub queued_media : List ℕ
  pub run : Bool
  pub paused : Bool
  pub thread : Thread
  pub stopping : Stopping
  pub accepted : List Task
  pub gone : List Task
  pub told : List (ℕ × ℕ × Bool)
  pub nb_cleanups : ℕ

abbrev pub is_queued : ℕ → List ℕ → Bool
is_queued media [] = false
is_queued media (m ∷ queued) = m == media || is_queued media queued

abbrev pub erase : ℕ → List ℕ → List ℕ
erase media [] = []
erase media (m ∷ queued) = if m == media then queued else m ∷ erase media queued

abbrev pub notify_all : Thread → Thread
notify_all absent = absent
notify_all begins = begins
notify_all waits = waits
notify_all sleeps = waits
notify_all left = left
notify_all (serves t) = serves t

abbrev pub is_absent : Thread → Bool
is_absent absent = true
is_absent begins = false
is_absent waits = false
is_absent sleeps = false
is_absent left = false
is_absent (serves t) = false

-- `requestThumbnailInternal`.
unfoldable pub request_thumbnail : Task → Worker → Worker
request_thumbnail t w = if is_queued t.media w.queued_media then w else record w {
  tasks = w.tasks ++ t ∷ [];
  queued_media = w.queued_media ++ t.media ∷ [];
  accepted = w.accepted ++ t ∷ [];
  run = is_absent w.thread || w.run;
  thread = if is_absent w.thread then begins else notify_all w.thread;
}

abbrev pub pause : Worker → Worker
pause w = record w { paused = true }

abbrev pub resume : Worker → Worker
resume w = if w.paused then record w { paused = false; thread = notify_all w.thread } else w

-- The end of `stop`, once the thread has left its loop.
abbrev pub join : Thread → Worker → Worker
join left w = record w { thread = absent; stopping = unasked }
join absent w = w
join begins w = w
join waits w = w
join sleeps w = w
join (serves t) w = w

-- `stop`, up to each point where another thread may run. One call runs at a time.
abbrev pub stop_from : Stopping → Worker → Worker
stop_from unasked w = if w.run then record w { run = false; stopping = flagged } else w
stop_from flagged w = record w {
  tasks = [];
  queued_media = [];
  gone = w.gone ++ w.tasks;
  stopping = emptied;
}
stop_from emptied w = record w { thread = notify_all w.thread; stopping = joins }
stop_from joins w = join w.thread w

abbrev pub stop : Worker → Worker
stop w = stop_from w.stopping w

abbrev pub take_first : List Task → Worker → Worker
take_first [] w = record w { thread = sleeps }
take_first (t ∷ tasks) w = record w {
  tasks = tasks;
  queued_media = erase t.media w.queued_media;
  gone = w.gone ++ t ∷ [];
  thread = serves t;
}

-- The predicate of the condition, with the lock held, and what follows it.
unfoldable pub take_task : Worker → Worker
take_task w =
    if not w.run
    then record w { thread = left }
    else if w.paused
    then record w { thread = sleeps }
    else take_first w.tasks w

-- What is done with a task: whether the medium is in the database, and what the generation returns.
abbrev pub serve : Bool → Bool → Task → Worker → Worker
serve is_found result t w = record w {
  thread = begins;
  nb_cleanups = if t.media == 0 then suc w.nb_cleanups else w.nb_cleanups;
  told = if t.is_loaded || is_found then w.told ++ (t.media, t.size_type, result) ∷ [] else w.told;
}

abbrev pub advance_from : Bool → Bool → Thread → Worker → Worker
advance_from is_found result absent w = w
advance_from is_found result begins w = record w { thread = if w.run then waits else left }
advance_from is_found result waits w = take_task w
advance_from is_found result sleeps w = take_task w
advance_from is_found result left w = w
advance_from is_found result (serves t) w = serve is_found result t w

-- A step of the thread; a thread that sleeps may also wake up for no reason.
abbrev pub advance : Bool → Bool → Worker → Worker
advance is_found result w = advance_from is_found result w.thread w

-- What happens next: a request, the calls of the clients, or a step of the thread.
pub data Event : Type 0 where
  requests : Task → Event
  pauses resumes stops : Event
  advances : Bool → Bool → Event

unfoldable pub step : Event → Worker → Worker
unfolding request_thumbnail take_task
step (requests t) w = request_thumbnail t w
step pauses w = pause w
step resumes w = resume w
step stops w = stop w
step (advances is_found result) w = advance is_found result w

unfoldable pub run_all : List Event → Worker → Worker
unfolding step
run_all [] w = w
run_all (e ∷ events) w = run_all events (step e w)
