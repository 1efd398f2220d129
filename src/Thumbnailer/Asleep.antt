-- ===== src/Thumbnailer/Asleep.antt =====
-- When the thread of the thumbnailer sleeps.
use medialibrary.Common.{
  ◌≡◌, refl, if◌then◌else◌, Bool, true, false, not, ◌&&◌, ◌||◌, List, [], ◌∷◌, ◌++◌, arith,
  Bool-cases, inl, inr,
}
use medialibrary.Thumbnailer.{
  Task, Thread, Stopping, absent, begins, waits, sleeps, left, serves, unasked, flagged, emptied,
  joins, Worker, Event, requests, pauses, resumes, stops, advances, is_queued, is_absent,
  notify_all, request_thumbnail, join, stop_from, take_first, take_task, advance_from, step,
  run_all,
}

abbrev pub has_none : List Task → Bool
has_none [] = true
has_none (t ∷ tasks) = false

abbrev pub is_unasked : Stopping → Bool
is_unasked unasked = true
is_unasked flagged = false
is_unasked emptied = false
is_unasked joins = false

-- Whether `stop` is to notify yet.
abbrev pub will_notify : Stopping → Bool
will_notify unasked = false
will_notify flagged = true
will_notify emptied = true
will_notify joins = false

-- A thread that sleeps has nothing to do, and will be notified of an end that was asked for.
abbrev pub is_alive : Bool → Bool → Thread → Stopping → Bool
is_alive run idle absent stopping = not run && is_unasked stopping
is_alive run idle begins stopping = if run then is_unasked stopping else not (is_unasked stopping)
is_alive run idle waits stopping = if run then is_unasked stopping else not (is_unasked stopping)
is_alive run idle (serves t) stopping =
    if run then is_unasked stopping else not (is_unasked stopping)
is_alive run idle sleeps stopping =
    idle && (if run then is_unasked stopping else will_notify stopping)
is_alive run idle left stopping = not run && not (is_unasked stopping)

abbrev pub IsAlive : Worker → Type 0
IsAlive w = is_alive w.run (has_none w.tasks || w.paused) w.thread w.stopping ≡ true

will_notify-asked : (stopping : Stopping) → (will_notify stopping && is_unasked stopping) ≡ false
will_notify-asked unasked = refl
will_notify-asked flagged = refl
will_notify-asked emptied = refl
will_notify-asked joins = refl

-- A thread that is notified, or started, is alive whatever the tasks are.
notified_alive :
    (run idle other : Bool) (thread : Thread) (stopping : Stopping)
    → is_alive run idle thread stopping ≡ true
    → is_alive run other (notify_all thread) stopping ≡ true
notified_alive run idle other absent stopping h = h
notified_alive run idle other begins stopping h = h
notified_alive run idle other waits stopping h = h
notified_alive run idle other sleeps stopping h = ground (arith, h, will_notify-asked stopping)
notified_alive run idle other left stopping h = h
notified_alive run idle other (serves t) stopping h = h

started_alive :
    (run idle other : Bool) (thread : Thread) (stopping : Stopping)
    → is_alive run idle thread stopping ≡ true
    → is_alive
        (is_absent thread || run)
        other
        (if is_absent thread then begins else notify_all thread)
        stopping
      ≡ true
started_alive run idle other absent stopping h = ground (arith, h)
started_alive run idle other begins stopping h = h
started_alive run idle other waits stopping h = h
started_alive run idle other sleeps stopping h = ground (arith, h, will_notify-asked stopping)
started_alive run idle other left stopping h = h
started_alive run idle other (serves t) stopping h = h

request_thumbnail-IsAlive : (t : Task) (w : Worker) → IsAlive w → IsAlive (request_thumbnail t w)
unfolding request_thumbnail
request_thumbnail-IsAlive t w h = elim (Bool-cases (is_queued t.media w.queued_media)) [
  | inl e ↦ rw e h
  | inr e ↦ rw e (
      started_alive w.run (has_none w.tasks || w.paused) (has_none (w.tasks ++ t ∷ []) || w.paused)
        w.thread w.stopping h)
]

take_first-IsAlive :
    (tasks : List Task) (w : Worker)
    → w.tasks ≡ tasks
    → (w.run && is_unasked w.stopping) ≡ true
    → IsAlive (take_first tasks w)
take_first-IsAlive [] w e h = rw e (ground (arith, h))
take_first-IsAlive (t ∷ rest) w e h = ground (arith, h)

take_task-IsAlive :
    (w : Worker)
    → (if w.run then is_unasked w.stopping else not (is_unasked w.stopping)) ≡ true
    → IsAlive (take_task w)
unfolding take_task
take_task-IsAlive w h = elim (Bool-cases w.run) [
  | inr r ↦ rw r (ground (arith, h, r))
  | inl r ↦ elim (Bool-cases w.paused) [
    | inl p ↦ rw (r, p) (ground (arith, h, r))
    | inr p ↦ simp (r, p) (take_first-IsAlive w.tasks w refl (ground (arith, h, r)))
  ]
]

advance-IsAlive :
    (is_found result : Bool) (thread : Thread) (w : Worker)
    → IsAlive w
    → is_alive w.run (has_none w.tasks || w.paused) thread w.stopping ≡ true
    → IsAlive (advance_from is_found result thread w)
advance-IsAlive is_found result absent w h k = h
advance-IsAlive is_found result begins w h k = elim (Bool-cases w.run) [
  | inl r ↦ rw r (ground (arith, k, r))
  | inr r ↦ rw r (ground (arith, k, r))
]
advance-IsAlive is_found result waits w h k = take_task-IsAlive w k
advance-IsAlive is_found result sleeps w h k =
    take_task-IsAlive w (ground (arith, k, will_notify-asked w.stopping))
advance-IsAlive is_found result left w h k = h
advance-IsAlive is_found result (serves t) w h k = k

join-IsAlive :
    (thread : Thread) (w : Worker)
    → IsAlive w
    → is_alive w.run (has_none w.tasks || w.paused) thread w.stopping ≡ true
    → IsAlive (join thread w)
join-IsAlive absent w h k = h
join-IsAlive begins w h k = h
join-IsAlive waits w h k = h
join-IsAlive sleeps w h k = h
join-IsAlive left w h k = ground (arith, k)
join-IsAlive (serves t) w h k = h

-- What happens to the end that was asked for keeps the thread alive, whatever its tasks are.
flagged_alive :
    (idle : Bool) (thread : Thread)
    → is_alive true idle thread unasked ≡ true
    → is_alive false idle thread flagged ≡ true
flagged_alive idle absent h = h
flagged_alive idle begins h = h
flagged_alive idle waits h = h
flagged_alive idle sleeps h = h
flagged_alive idle left h = cc
flagged_alive idle (serves t) h = h

emptied_alive :
    (run idle : Bool) (thread : Thread)
    → is_alive run idle thread flagged ≡ true
    → is_alive run true thread emptied ≡ true
emptied_alive run idle absent h = h
emptied_alive run idle begins h = h
emptied_alive run idle waits h = h
emptied_alive run idle sleeps h = ground (arith, h)
emptied_alive run idle left h = h
emptied_alive run idle (serves t) h = h

joining_alive :
    (run idle : Bool) (thread : Thread)
    → is_alive run idle thread emptied ≡ true
    → is_alive run idle (notify_all thread) joins ≡ true
joining_alive run idle absent h = h
joining_alive run idle begins h = h
joining_alive run idle waits h = h
joining_alive run idle sleeps h = ground (arith, h)
joining_alive run idle left h = h
joining_alive run idle (serves t) h = h

stop-IsAlive :
    (stopping : Stopping) (w : Worker)
    → IsAlive w
    → is_alive w.run (has_none w.tasks || w.paused) w.thread stopping ≡ true
    → IsAlive (stop_from stopping w)
stop-IsAlive unasked w h k = elim (Bool-cases w.run) [
  | inl r ↦ rw r (flagged_alive (has_none w.tasks || w.paused) w.thread (rw r at k))
  | inr r ↦ rw r (rw r at h)
]
stop-IsAlive flagged w h k = emptied_alive w.run (has_none w.tasks || w.paused) w.thread k
stop-IsAlive emptied w h k = joining_alive w.run (has_none w.tasks || w.paused) w.thread k
stop-IsAlive joins w h k = join-IsAlive w.thread w h h

paused_alive :
    (run idle : Bool) (thread : Thread) (stopping : Stopping)
    → is_alive run idle thread stopping ≡ true
    → is_alive run true thread stopping ≡ true
paused_alive run idle absent stopping h = h
paused_alive run idle begins stopping h = h
paused_alive run idle waits stopping h = h
paused_alive run idle sleeps stopping h = ground (arith, h)
paused_alive run idle left stopping h = h
paused_alive run idle (serves t) stopping h = h

step-IsAlive : (e : Event) (w : Worker) → IsAlive w → IsAlive (step e w)
unfolding step
step-IsAlive (requests t) w h = request_thumbnail-IsAlive t w h
step-IsAlive pauses w h = elim (Bool-cases (has_none w.tasks)) [
  | inl n ↦ rw n (paused_alive w.run (has_none w.tasks || w.paused) w.thread w.stopping h)
  | inr n ↦ rw n (paused_alive w.run (has_none w.tasks || w.paused) w.thread w.stopping h)
]
step-IsAlive resumes w h = elim (Bool-cases w.paused) [
  | inl p ↦ rw p (
      notified_alive w.run (has_none w.tasks || w.paused) (has_none w.tasks || false) w.thread
        w.stopping h)
  | inr p ↦ rw p (rw p at h)
]
step-IsAlive stops w h = stop-IsAlive w.stopping w h h
step-IsAlive (advances is_found result) w h = advance-IsAlive is_found result w.thread w h h

-- Whatever the clients and the thread do, in any order, a thread that sleeps has no task or is paused,
-- and if it is to end, it is to be notified yet, if that is so at first.
pub run_all-IsAlive : (events : List Event) (w : Worker) → IsAlive w → IsAlive (run_all events w)
unfolding run_all
run_all-IsAlive [] w h = h
run_all-IsAlive (e ∷ events) w h = run_all-IsAlive events (step e w) (step-IsAlive e w h)
