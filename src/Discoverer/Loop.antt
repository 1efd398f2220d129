-- ===== src/Discoverer/Loop.antt =====
-- DiscovererWorker::run, the loop of the discovery thread. What the file system, the database and
-- the client answer is a parameter; the calls that the thread makes of them are its log.
use medialibrary.Common.{
  ℕ, zero, suc, ◌++◌, if◌then◌else◌, Bool, true, false, ◌&&◌, not, Option, none, some, List, [],
  ◌∷◌, Bytes,
}
use medialibrary.Filename.{to_folder_path, parent_directory}
use medialibrary.Discoverer.{
  TaskType, reload, remove, ban, unban, reload_device, add_root, Task, Worker, is_long_running,
  enqueue, root_task,
}

-- What the discoverer, the folders and the devices of the database answer. A reload that throws
-- has no answer. A device that is unknown, or whose roots cannot be listed, has none; a root whose
-- MRL throws `DeviceRemoved` has no MRL.
pub record Backend : Type 0 where
  pub has_parser : Bool
  pub reload_folder : Bytes → Option Bool
  pub discoverer_adds : Bytes → Bool
  pub knows_folder : Bytes → Bool
  pub removes_folder : Bytes → Bool
  pub bans_folder : Bytes → Bool
  pub has_banned_folder : Bytes → Bool
  pub unbans_folder : Bytes → Bool
  pub device_roots : ℕ → Option (List (Option Bytes))

-- The calls that the thread makes; `runs` marks the task of the `switch`.
pub data Event : Type 0 where
  idle_changed : Bool → Event
  discovery_started discovery_completed : Event
  discovery_failed : Bytes → Event
  root_removed root_banned root_unbanned root_added : Bytes → Bool → Event
  reloads : Bytes → Event
  refreshes_task_list : Event
  runs : Task → Event

-- The worker, the local `needTaskRefresh`, whether the thread waits on the condition, and the log.
pub record Loop : Type 0 where
  pub worker : Worker
  pub need_task_refresh : Bool
  pub waiting : Bool
  pub log : List Event

abbrev pub emit : Event → Loop → Loop
emit e l = record l { log = l.log ++ e ∷ [] }

abbrev pub with_worker : Worker → Loop → Loop
with_worker w l = record l { worker = w }

-- The tail of the locked block: the first task is taken, unless it is a reload and the worker stops.
unfoldable pub pop_task : List Task → Loop → Loop
pop_task [] l = l
pop_task (t ∷ ts) l =
    if is_long_running t && not l.worker.run
    then with_worker (record l.worker { tasks = ts }) l
    else with_worker (record l.worker { tasks = ts; current_task = some t }) l

-- What is announced before the thread waits.
unfoldable pub announce_idle : Loop → Loop
announce_idle l =
    let w = l.worker in
    let done =
      if w.discovery_notified
      then emit discovery_completed (with_worker (record w { discovery_notified = false }) l)
      else l in
    record (emit (idle_changed true) done) { waiting = true }

-- How a turn of the loop goes on.
pub data Turn : Type 0 where
  blocks leaves continues : Loop → Turn

-- The wait: it ends when there is a task or the worker stops; then stopping goes first.
unfoldable pub wake_up : List Task → Loop → Turn
wake_up tasks l = if not l.worker.run then leaves (record l { waiting = false }) else elim tasks [
  | [] ↦ blocks l
  | t ∷ ts ↦
      continues (pop_task (t ∷ ts) (emit (idle_changed false) (record l { waiting = false })))
]

-- The locked block of one turn.
unfoldable pub take_task : Bool → List Task → Loop → Turn
take_task true tasks l = wake_up tasks l
take_task false [] l = wake_up [] (announce_idle l)
take_task false (t ∷ ts) l = continues (pop_task (t ∷ ts) l)

-- A reload of the whole library, for an empty root, has no result.
unfoldable pub run_reload : Backend → Bytes → Loop → Loop
run_reload b [] l = emit (reloads []) l
run_reload b (c ∷ root) l =
    let called = emit (reloads (c ∷ root)) l in
    elim (b.reload_folder (c ∷ root)) [
      | none ↦ called
      | some ok ↦ if ok then called else emit (discovery_failed (c ∷ root)) called
    ]

-- `none` is the undefined `toFolderPath` of an empty path.
unfoldable pub run_remove : Backend → Bytes → Loop → Option Loop
run_remove b path l = elim (to_folder_path path) [
  | none ↦ none
  | some root ↦ some (
      if b.knows_folder root
      then emit (root_removed path (b.removes_folder root)) l
      else emit (root_removed path false) l)
]

unfoldable pub run_ban : Backend → Bytes → Loop → Loop
run_ban b root l = emit (root_banned root (b.bans_folder root)) l

unfoldable pub run_unban : Backend → Bytes → Loop → Loop
run_unban b root l =
    let done = emit (root_unbanned root (b.unbans_folder root)) l in
    if b.has_banned_folder root
    then with_worker (enqueue (root_task (parent_directory root) reload) done.worker) done
    else emit (root_unbanned root false) l

unfoldable pub reload_roots : Backend → List (Option Bytes) → Loop → Loop
reload_roots b [] l = l
reload_roots b (none ∷ roots) l = reload_roots b roots l
reload_roots b (some mrl ∷ roots) l = reload_roots b roots (run_reload b mrl l)

unfoldable pub run_reload_device : Backend → ℕ → Loop → Loop
run_reload_device b id l = elim (b.device_roots id) [
  | none ↦ l
  | some roots ↦ reload_roots b roots l
]

unfoldable pub run_add_root : Backend → Bytes → Loop → Loop
run_add_root b root l = emit (root_added root (b.discoverer_adds root)) l

-- The case `Reload` of the switch, which announces the discovery first.
unfoldable pub announce_reload : Loop → Loop
announce_reload l =
    if l.worker.discovery_notified
    then l
    else with_worker (record l.worker { discovery_notified = true }) (emit discovery_started l)

abbrev needs_refresh : Loop → Loop
needs_refresh l = record l { need_task_refresh = true }

-- The switch on the type of the task.
unfoldable pub run_type : TaskType → Backend → Task → Loop → Option Loop
run_type reload b t l = some (run_reload b t.root (announce_reload l))
run_type remove b t l = elim (run_remove b t.root l) [
  | none ↦ none
  | some l' ↦ some (needs_refresh l')
]
run_type ban b t l = some (needs_refresh (run_ban b t.root l))
run_type unban b t l = some (run_unban b t.root l)
run_type reload_device b t l = some (needs_refresh (run_reload_device b t.entity_id l))
run_type add_root b t l = some (run_add_root b t.root l)

-- The refresh of the parser's tasks that was put off until a reload.
unfoldable pub refresh_tasks : Backend → Loop → Loop
refresh_tasks b l = record (if b.has_parser then emit refreshes_task_list l else l) {
  need_task_refresh = false;
}

-- The deferred reset at the end of the turn.
abbrev pub end_turn : Loop → Loop
end_turn l = with_worker (record l.worker { current_task = none }) l

unfoldable pub run_switch : Backend → Task → Loop → Option Loop
run_switch b t l = elim (run_type t.type b t (emit (runs t) l)) [
  | none ↦ none
  | some l' ↦ some (end_turn l')
]

-- The rest of the turn, with the mutex released.
unfoldable pub run_task : Backend → Task → Loop → Option Loop
run_task b t l =
    if l.need_task_refresh && is_long_running t
    then (if not l.worker.run then some (end_turn l) else run_switch b t (refresh_tasks b l))
    else run_switch b t l

-- The loop from here on, when no other thread interferes: `none` where it ends undefined, and the
-- flag tells whether the thread has left the loop, blocks, or ran out of fuel.
pub data Fate : Type 0 where
  left blocked exhausted : Fate

unfoldable pub drive : ℕ → Backend → Loop → Option (Fate × Loop)
drive zero b l = some (exhausted, l)
drive (suc fuel) b l = elim (take_task l.waiting l.worker.tasks l) [
  | blocks l' ↦ some (blocked, l')
  | leaves l' ↦ some (left, l')
  | continues l' ↦ elim l'.worker.current_task [
    | none ↦ drive fuel b l'
    | some t ↦ elim (run_task b t l') [ none ↦ none | some m ↦ drive fuel b m ]
  ]
]

-- `stop`, up to the join: nothing happens to a worker that does not run.
unfoldable pub stop : Worker → Worker
stop w =
    if not w.run
    then w
    else record w { run = false; interrupts = suc w.interrupts; notifies = suc w.notifies }
