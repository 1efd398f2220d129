-- ===== src/Notifier.antt =====
-- src/utils/ModificationsNotifier.{h,cpp}: the queues of notifications and the thread that sends them
-- in batches. Times are milliseconds and never 0, which is `ZeroTimeout`. The end of the thread is left
-- out.
pub mod Free
pub mod Kept
pub mod Lost
pub mod Woken
mod Tests
use medialibrary.Common.{
  ℕ, zero, suc, ◌+◌, ◌==◌, ltb, leb, if◌then◌else◌, Bool, true, false, not, ◌&&◌, ◌||◌, Option,
  none, some, List, [], ◌∷◌, ◌++◌, map,
}

-- A queue holds entities by their identifiers. A `std::set` is its ascending list; the queues for
-- `void` use `removed` only.
pub record Queue : Type 0 where
  pub added : List ℕ
  pub modified : List ℕ
  pub removed : List ℕ
  pub timeout : ℕ

abbrev pub no_queue : Queue
no_queue = record { added = []; modified = []; removed = []; timeout = 0 }

abbrev pub batch_delay : ℕ
batch_delay = 1000

-- The queues are numbered as they are declared: media, artists, albums, playlists, genres, media groups,
-- bookmarks, folders, subscriptions, clean-up requests for thumbnails, media of subscriptions.
abbrev pub thumbnails_cleanup_requests : ℕ
thumbnails_cleanup_requests = 9

abbrev pub subscriptions_media : ℕ
subscriptions_media = 10

-- In which order `run` checks the queues, and in which it notifies.
abbrev pub checked : List ℕ
checked = 0 ∷ 1 ∷ 2 ∷ 3 ∷ 4 ∷ 5 ∷ 9 ∷ 6 ∷ 8 ∷ 7 ∷ []

abbrev pub notified : List ℕ
notified = 0 ∷ 1 ∷ 2 ∷ 3 ∷ 4 ∷ 5 ∷ 6 ∷ 7 ∷ 8 ∷ 10 ∷ 9 ∷ []

pub data Change : Type 0 where
  creation modification removal : ℕ → Change

-- A callback with the number of the queue. That of the clean-up requests is
-- `requestCleanupRun`, of a thumbnailer that is there.
pub data Call : Type 0 where
  adds modifies removes : ℕ → List ℕ → Call

-- Where the thread is: about to test the condition, between the test and the sleep, asleep, waiting for
-- its time-out, or outside of the lock, with the queues still to check, the next time-out, the time of
-- the turn and whether it flushes.
pub data Phase : Type 0 where
  tests : Phase
  falls_asleep : Phase
  sleeps : Phase
  waits : ℕ → Phase
  checks : List ℕ → ℕ → ℕ → Bool → Phase

pub record Notifier : Type 0 where
  pub queues : ℕ → Queue
  pub outputs : ℕ → Queue
  pub wake_up_scheduled : Bool
  pub flushing : Bool
  pub phase : Phase
  pub calls : List Call

abbrev pub idle : Notifier
idle = record {
  queues = λ k. no_queue;
  outputs = λ k. no_queue;
  wake_up_scheduled = false;
  flushing = false;
  phase = tests;
  calls = [];
}

abbrev pub set_queue : ℕ → Queue → (ℕ → Queue) → ℕ → Queue
set_queue k q queues j = if j == k then q else queues j

-- The insertion into a `std::set`.
unfoldable pub insert_id : ℕ → List ℕ → List ℕ
insert_id id [] = id ∷ []
insert_id id (x ∷ xs) =
    let rest = insert_id id xs in
    if ltb id x then id ∷ x ∷ xs else if id == x then x ∷ xs else x ∷ rest

abbrev pub enqueue_change : Change → Queue → Queue
enqueue_change (creation id) q = record q { added = q.added ++ id ∷ [] }
enqueue_change (modification id) q = record q { modified = insert_id id q.modified }
enqueue_change (removal id) q = record q { removed = insert_id id q.removed }

-- `m_cond.notify_all`: it reaches the thread only where it sleeps.
abbrev pub notify_all : Phase → Phase
notify_all sleeps = tests
notify_all p = p

-- `notifyCreation`, `notifyModification` and `notifyRemoval`, with `updateTimeout`.
unfoldable pub notify_change : ℕ → Change → ℕ → Notifier → Notifier
notify_change k change now n =
    let q = n.queues k in
    let due = if q.timeout == 0 then now + batch_delay else q.timeout in
    record n {
      queues = set_queue k (record (enqueue_change change q) { timeout = due }) n.queues;
      wake_up_scheduled = true;
      phase = if n.wake_up_scheduled then n.phase else notify_all n.phase;
    }

-- The thread has the lock from the test until it sleeps.
abbrev is_locked : Phase → Bool
is_locked falls_asleep = true
is_locked p = false

-- `flush`, up to its wait, if the lock is free.
abbrev pub start_flush : Notifier → Notifier
start_flush n = record n {
  flushing = not (is_locked n.phase) || n.flushing;
  phase = notify_all n.phase;
}

-- The loop's top, with the time-out of the turn before: 0 leads to the wait for a wake-up.
abbrev pub loop_top : ℕ → Notifier → Notifier
loop_top timeout n = record n {
  flushing = false;
  phase = if timeout == 0 then tests else waits timeout;
}

-- The test of the condition, and what follows where it holds.
abbrev pub test_condition : ℕ → Notifier → Notifier
test_condition now n =
    if n.wake_up_scheduled
    then record n { wake_up_scheduled = false; phase = waits (now + batch_delay) }
    else if n.flushing
    then record n { phase = waits 0 }
    else record n { phase = falls_asleep }

-- The end of `wait_until`.
abbrev pub end_wait : ℕ → ℕ → Notifier → Notifier
end_wait timeout now n =
    if leb timeout now || n.flushing
    then record n { phase = checks checked 0 now n.flushing }
    else n

-- `checkQueue`; the rest of the turn goes on with the next time-out.
unfoldable pub check_queue : ℕ → List ℕ → ℕ → ℕ → Bool → Notifier → Notifier
check_queue k ks next_timeout now flushing n =
    let input = n.queues k in
    if input.timeout == 0
    then record n { phase = checks ks next_timeout now flushing }
    else if leb input.timeout now || flushing
    then record n {
      queues = set_queue k (n.outputs k) n.queues;
      outputs = set_queue k input n.outputs;
      phase = checks ks next_timeout now flushing;
    }
    else record n {
      phase =
          checks ks
            (if next_timeout == 0 || ltb input.timeout next_timeout
              then input.timeout
              else next_timeout)
            now flushing;
    }

abbrev when : List ℕ → Call → List Call
when [] c = []
when (id ∷ ids) c = c ∷ []

-- `notify` of one queue.
abbrev pub notify : ℕ → Queue → List Call
notify k q =
    when q.added (adds k q.added)
    ++ (when q.modified (modifies k q.modified) ++ when q.removed (removes k q.removed))

abbrev pub notify_each : List ℕ → (ℕ → Queue) → List Call
notify_each [] outputs = []
notify_each (k ∷ ks) outputs = notify k (outputs k) ++ notify_each ks outputs

-- The end of a turn. The callbacks take what the local queues hold, which are empty then.
unfoldable pub send : ℕ → Notifier → Notifier
send next_timeout n =
    loop_top next_timeout
      (record n { outputs = λ k. no_queue; calls = n.calls ++ notify_each notified n.outputs })

-- The next step of the thread, at a time.
unfoldable pub advance : ℕ → Notifier → Notifier
unfolding check_queue send
advance now n = elim n.phase [
  | tests ↦ test_condition now n
  | falls_asleep ↦ record n { phase = sleeps }
  | sleeps ↦ n
  | waits timeout ↦ end_wait timeout now n
  | checks ks next_timeout start flushing ↦ elim ks [
    | [] ↦ send next_timeout n
    | k ∷ others ↦ check_queue k others next_timeout start flushing n
  ]
]

pub data Event : Type 0 where
  notifies : ℕ → Change → ℕ → Event
  flushes : Event
  wakes_up : Event
  advances : ℕ → Event

-- A step of any thread. A wake-up can be spurious.
unfoldable pub step : Event → Notifier → Notifier
unfolding notify_change advance
step (notifies k change now) n = notify_change k change now n
step flushes n = start_flush n
step wakes_up n = record n { phase = notify_all n.phase }
step (advances now) n = advance now n

unfoldable pub run : List Event → Notifier → Notifier
unfolding step
run [] n = n
run (e ∷ es) n = run es (step e n)
