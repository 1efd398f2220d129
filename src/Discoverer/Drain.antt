-- ===== src/Discoverer/Drain.antt =====
-- DiscovererWorker::run after a stop: what is left of the queue is worked off.
pub mod Short
use medialibrary.Common.{
  ℕ, zero, suc, ◌+◌, ◌≤◌, ◌<◌, ◌≡◌, ◌≢◌, refl, sym, ap, ◌∙◌, subst, Bool, true, false, not, ◌&&◌,
  Option, none, some, List, [], ◌∷◌, ◌++◌, Bytes, All, keep, keep-append, length, length-append,
  append-nil, append_assoc, arith, inl, inr, Bool-cases, Option-cases, if◌then◌else◌,
}
use medialibrary.Filename.{parent_directory}
use medialibrary.Filename.Folders.{to_folder_path_lem}
use medialibrary.Discoverer.{
  TaskType, reload, remove, ban, unban, reload_device, add_root, Task, Worker, is_long_running,
  type_eq, prune, any_task, cancel_ban, enqueue_short, insert_before_long, filter_as, insert_task,
  wake, enqueue, root_task, reload_meets,
}
use medialibrary.Discoverer.Fifo.{is_short}
use medialibrary.Discoverer.Drain.Short.{ran, ran-append, Like, run_task-Like}
use medialibrary.Discoverer.Loop.{
  Backend, Event, idle_changed, discovery_started, discovery_completed, discovery_failed,
  root_removed, root_banned, root_unbanned, root_added, reloads, refreshes_task_list, runs, Loop,
  emit, with_worker, pop_task, announce_idle, Turn, blocks, leaves, continues, wake_up, take_task,
  run_reload, run_remove, run_ban, run_unban, reload_roots, run_reload_device, run_add_root,
  announce_reload, run_type, refresh_tasks, run_switch, run_task, end_turn, Fate, left, drive, stop,
}

-- A request to remove a folder names it.
abbrev pub NamesRoot : Task → Type 0
NamesRoot t = t.type ≡ remove → t.root ≢ []

-- A loop whose worker is stopped, between two turns.
pub record IsStopped (l : Loop) : Type 0 where
  pub stopped : l.worker.run ≡ false
  pub started : l.worker.started ≡ true
  pub awake : l.waiting ≡ false
  pub between : l.worker.current_task ≡ none
  pub named : All NamesRoot (keep is_short l.worker.tasks)

-- The turns that are left: one for each task, and one more for each reload that may be queued.
abbrev pub turns : List Task → ℕ
turns ts = length ts + length (keep is_short ts)

-- The thread has left, ran the short tasks in order, and no task is left.
abbrev Drained : Loop → Option (Fate × Loop) → Type 0
Drained l r =
    (l' : Loop) × (r ≡ some (left, l'))
    × (ran l'.log ≡ ran l.log ++ keep is_short l.worker.tasks)
    × (l'.worker.tasks ≡ [])

announce_idle-ran : (l : Loop) → ran (announce_idle l).log ≡ ran l.log
unfolding announce_idle
announce_idle-ran l = ground (
  arith,
  ran-append l.log (discovery_completed ∷ []),
  ran-append (l.log ++ discovery_completed ∷ []) (idle_changed true ∷ []),
  ran-append l.log (idle_changed true ∷ []),
  append-nil (ran l.log),
)

announce_idle-worker :
    (l : Loop)
    → ((announce_idle l).worker.tasks ≡ l.worker.tasks)
      × ((announce_idle l).worker.run ≡ l.worker.run)
unfolding announce_idle
announce_idle-worker l = ground arith

-- The three turns of a stopped worker: it leaves, it passes a reload over, it takes a short task.
leaves_lem :
    (l : Loop)
    → l.worker.run ≡ false
    → take_task false [] l ≡ leaves (record (announce_idle l) { waiting = false })
unfolding take_task wake_up
leaves_lem l r = ground (arith, announce_idle-worker l)

skips_lem :
    (t : Task) (ts : List Task) (l : Loop)
    → l.worker.run ≡ false
    → is_long_running t ≡ true
    → take_task false (t ∷ ts) l ≡ continues (with_worker (record l.worker { tasks = ts }) l)
unfolding take_task pop_task
skips_lem t ts l r s = ground arith

takes_lem :
    (t : Task) (ts : List Task) (l : Loop)
    → is_long_running t ≡ false
    → take_task false (t ∷ ts) l
      ≡ continues (with_worker (record l.worker { tasks = ts; current_task = some t }) l)
unfolding take_task pop_task
takes_lem t ts l s = ground arith

abbrev without_first : List Task → Loop → Loop
without_first ts l = with_worker (record l.worker { tasks = ts }) l

abbrev with_current : Task → List Task → Loop → Loop
with_current t ts l = with_worker (record l.worker { tasks = ts; current_task = some t }) l

drive_skips :
    (fuel : ℕ) (b : Backend) (t : Task) (ts : List Task) (l : Loop)
    → l.worker.tasks ≡ t ∷ ts
    → IsStopped l
    → is_long_running t ≡ true
    → drive (suc fuel) b l ≡ drive fuel b (without_first ts l)
unfolding drive
drive_skips fuel b t ts l e s long =
    ground (arith, s.awake, s.between, skips_lem t ts l s.stopped long)

drive_takes :
    (fuel : ℕ) (b : Backend) (t : Task) (ts : List Task) (l m : Loop)
    → l.worker.tasks ≡ t ∷ ts
    → IsStopped l
    → is_long_running t ≡ false
    → run_task b t (with_current t ts l) ≡ some m
    → drive (suc fuel) b l ≡ drive fuel b m
unfolding drive
drive_takes fuel b t ts l m e s short r = ground (arith, s.awake, takes_lem t ts l short)

drive_leaves :
    (fuel : ℕ) (b : Backend) (l : Loop)
    → l.worker.tasks ≡ []
    → IsStopped l
    → drive (suc fuel) b l ≡ some (left, record (announce_idle l) { waiting = false })
unfolding drive
drive_leaves fuel b l e s = ground (arith, s.awake, leaves_lem l s.stopped)

-- The state behind the first task, between two turns again.
Like-IsStopped :
    (t : Task) (ts : List Task) (l m : Loop)
    → l.worker.tasks ≡ t ∷ ts
    → is_long_running t ≡ false
    → IsStopped l
    → m.worker.current_task ≡ none
    → Like (t ∷ []) 1 (with_current t ts l) m
    → IsStopped m
Like-IsStopped t ts l m e short s c v = record {
  stopped = v.run_eq ∙ s.stopped;
  started = v.started_eq ∙ s.started;
  awake = v.waiting_eq ∙ s.awake;
  between = c;
  named = rw v.short_eq (simp (e, short) at s.named).1;
}

first-NamesRoot :
    (t : Task) (ts : List Task) (l : Loop)
    → l.worker.tasks ≡ t ∷ ts
    → is_long_running t ≡ false
    → IsStopped l
    → NamesRoot t
first-NamesRoot t ts l e short s = (simp (e, short) at s.named).0

skipped-IsStopped :
    (t : Task) (ts : List Task) (l : Loop)
    → l.worker.tasks ≡ t ∷ ts
    → is_long_running t ≡ true
    → IsStopped l
    → IsStopped (without_first ts l)
skipped-IsStopped t ts l e long s = record {
  stopped = s.stopped;
  started = s.started;
  awake = s.awake;
  between = s.between;
  named = simp (e, long) at s.named;
}

drive_go :
    (fuel : ℕ) (b : Backend) (tasks : List Task) (l : Loop)
    → l.worker.tasks ≡ tasks
    → IsStopped l
    → turns tasks < fuel
    → Drained l (drive fuel b l)
drive_go zero b tasks l e s h = absurd (omega arith)
drive_go (suc fuel) b [] l e s h = (
  record (announce_idle l) { waiting = false },
  drive_leaves fuel b l e s,
  ground (arith, e, announce_idle-ran l, append-nil (ran l.log)),
  ground (arith, announce_idle-worker l),
)
drive_go (suc fuel) b (t ∷ ts) l e s h = elim (Bool-cases (is_long_running t)) [
  | inl long ↦
      let m = without_first ts l in
      let ih =
        drive_go fuel b ts m refl (skipped-IsStopped t ts l e long s) (ground (arith, h, long)) in
      (ih.0, drive_skips fuel b t ts l e s long ∙ ih.1, ground (arith, ih.2, e, long), ih.3)
  | inr short ↦
      let names = first-NamesRoot t ts l e short s in
      let (m, r, c, like) = run_task-Like b t (with_current t ts l) short names s.started in
      let ih =
        drive_go fuel b m.worker.tasks m refl (Like-IsStopped t ts l m e short s c like)
          (ground (arith, h, short, like.length_le, like.short_eq)) in
      (
        ih.0,
        drive_takes fuel b t ts l m e s short r ∙ ih.1,
        ground (
          arith,
          ih.2,
          e,
          short,
          like.ran_eq,
          like.short_eq,
          append_assoc (ran l.log) (t ∷ []) (keep is_short ts),
        ),
        ih.3,
      )
]

-- Of a stopped worker whose started thread is awake and between two tasks, with no request to
-- remove the empty path and without other threads, the thread leaves its loop by itself: fuel for
-- more than one turn for each task and one more for each short task is enough. It has then run
-- exactly the short tasks that were queued, in their order, and no reload, and the queue is
-- empty.
pub drive_stopped :
    (fuel : ℕ) (b : Backend) (l : Loop)
    → IsStopped l
    → turns l.worker.tasks < fuel
    → Drained l (drive fuel b l)
drive_stopped fuel b l s h = drive_go fuel b l.worker.tasks l refl s h

filter_as-nil : (type : TaskType) (new : Task) → filter_as type new [] ≡ ([], false)
unfolding filter_as prune any_task cancel_ban
filter_as-nil add_root new = refl
filter_as-nil _ new = refl

insert_task-nil :
    (new : Task) (w : Worker)
    → w.current_task ≡ none
    → w.tasks ≡ []
    → insert_task new w ≡ record w { tasks = new ∷ [] }
unfolding insert_task enqueue_short insert_before_long
insert_task-nil new w c e = ground arith

-- An idle worker with a thread takes any request.
enqueue-nil :
    (new : Task) (w : Worker)
    → w.started ≡ true
    → w.current_task ≡ none
    → w.tasks ≡ []
    → enqueue new w ≡ record w { tasks = new ∷ []; notifies = w.notifies + 1 }
unfolding enqueue wake
enqueue-nil new w s c e =
    ground (arith, filter_as-nil new.type new, insert_task-nil new (record w { tasks = [] }) c refl)

-- A request to a worker whose started thread sleeps on an empty queue, and that a stop follows
-- before the thread has woken, is not handled: the thread leaves with the request in the queue,
-- and no call was made.
pub stop_loses_request :
    (fuel : ℕ) (b : Backend) (new : Task) (l : Loop)
    → l.waiting ≡ true
    → l.worker.run ≡ true
    → l.worker.started ≡ true
    → l.worker.current_task ≡ none
    → l.worker.tasks ≡ []
    → (l' : Loop) × (drive (suc fuel) b (with_worker (stop (enqueue new l.worker)) l)
        ≡ some (left, l'))
      × (l'.worker.tasks ≡ new ∷ [])
      × (l'.log ≡ l.log)
unfolding drive take_task wake_up stop
stop_loses_request fuel b new l a r s c e =
    let queued = enqueue-nil new l.worker s c e in
    (
      record l { worker = stop (enqueue new l.worker); waiting = false },
      ground (arith, queued),
      ground (arith, queued),
      refl,
    )
