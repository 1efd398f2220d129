-- ===== src/Discoverer/Tests.antt =====
-- The discovery worker at concrete queues.
use medialibrary.Common.{
  ◌≡◌, refl, inl, true, false, none, some, [], ◌∷◌, Bytes, codes, bytes_eq, arith,
}
use medialibrary.Discoverer.{
  reload, remove, ban, unban, add_root, Worker, type_eq, prune, any_task, filter_as,
  insert_before_long, enqueue_short, insert_task, wake, enqueue, root_task, discover, ban_erases,
}
use medialibrary.Discoverer.Fifo.{fifos, push, insert_task-fifos}
use medialibrary.Discoverer.Conflicts.{on_root, enqueue_ban_lem}
use medialibrary.Discoverer.Loop.{
  Backend, Loop, left, drive, stop, with_worker, take_task, pop_task,
}
use medialibrary.Discoverer.Kept.{Inv}
use medialibrary.Discoverer.Threads.{enter, fresh_worker, takes, requests, here, next, Reach-Inv}
use medialibrary.Discoverer.Drain.Short.{ran}
use medialibrary.Discoverer.Drain.{IsStopped, drive_stopped, stop_loses_request}

abbrev music : Bytes
music = codes "file:///music/"

abbrev films : Bytes
films = codes "file:///films/"

-- The answers of a file system without failures.
abbrev answers : Backend
answers = record {
  has_parser = true;
  reload_folder = λ root. some true;
  discoverer_adds = λ root. true;
  knows_folder = λ root. true;
  removes_folder = λ root. true;
  bans_folder = λ root. true;
  has_banned_folder = λ root. true;
  unbans_folder = λ root. true;
  device_roots = λ id. none;
}

abbrev idle_worker : Worker
idle_worker = record {
  has_fs_holder = true;
  tasks = [];
  current_task = none;
  run = true;
  discoverer = true;
  started = true;
  discovery_notified = false;
  interrupts = 0;
  notifies = 0;
}

-- A reload of the films is running; one of the music waits.
abbrev busy_worker : Worker
busy_worker = record idle_worker {
  tasks = root_task music reload ∷ [];
  current_task = some (root_task films reload);
}

-- The test SimpleEnqueue of the source.
simple_enqueue :
    discover (codes "file:///music") (fresh_worker false)
    ≡ some (
      record (fresh_worker false) {
        tasks = root_task music add_root ∷ root_task music reload ∷ [];
      },
      true,
    )
unfolding discover bytes_eq filter_as insert_task wake
simple_enqueue = refl

insert_task-fifos_example :
    fifos (insert_task (root_task music ban) busy_worker).tasks
    ≡ push busy_worker.current_task (root_task music ban) (fifos busy_worker.tasks)
insert_task-fifos_example = insert_task-fifos (root_task music ban) busy_worker (inl (refl, tt))

enqueue_ban_lem_example :
    (any_task (on_root ban_erases music) (enqueue (root_task music ban) busy_worker).tasks ≡ false)
    × (any_task
          (on_root (λ t. type_eq t ban) music)
          (enqueue (root_task music ban) busy_worker).tasks
        ≡ true)
unfolding bytes_eq any_task
enqueue_ban_lem_example = enqueue_ban_lem music busy_worker refl

-- A stopped worker with a ban, an unban and a reload in its queue.
abbrev stopping : Loop
stopping = record {
  worker = record idle_worker {
    run = false;
    tasks = root_task music ban ∷ root_task films unban ∷ root_task music reload ∷ [];
  };
  need_task_refresh = false;
  waiting = false;
  log = [];
}

stopping-IsStopped : IsStopped stopping
stopping-IsStopped = record {
  stopped = refl;
  started = refl;
  awake = refl;
  between = refl;
  named = (λ e. cc, (λ e. cc, tt));
}

drive_stopped_example :
    (l' : Loop) × (drive 6 answers stopping ≡ some (left, l'))
    × (ran l'.log ≡ root_task music ban ∷ root_task films unban ∷ [])
    × (l'.worker.tasks ≡ [])
drive_stopped_example = drive_stopped 6 answers stopping stopping-IsStopped (omega arith)

stop_loses_request_example :
    (l' : Loop) × (drive 1 answers (
        with_worker
          (stop (enqueue (root_task music remove) idle_worker))
          (record { worker = idle_worker; need_task_refresh = false; waiting = true; log = [] }))
      ≡ some (left, l'))
    × (l'.worker.tasks ≡ root_task music remove ∷ [])
    × (l'.log ≡ [])
stop_loses_request_example =
    stop_loses_request 0 answers (root_task music remove)
      (record { worker = idle_worker; need_task_refresh = false; waiting = true; log = [] }) refl
      refl refl refl refl

-- Added, taken up and run; then another folder is queued.
abbrev entered : Loop
entered = enter (root_task music add_root) true

abbrev taken : Loop
taken = pop_task entered.worker.tasks entered

Reach-Inv_example : Inv (with_worker (enqueue (root_task films remove) taken.worker) taken)
unfolding enqueue filter_as insert_task wake enqueue_short insert_before_long prune take_task
    pop_task
Reach-Inv_example =
    Reach-Inv answers (root_task music add_root) true
      (with_worker (enqueue (root_task films remove) taken.worker) taken)
      (next (next here (takes refl refl)) (requests (root_task films remove) refl))
