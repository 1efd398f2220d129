-- ===== src/Discoverer.antt =====
-- src/discoverer/DiscovererWorker.cpp and .h: the queue of discovery tasks, under its mutex.
-- MRLs are byte lists; the identifier of a device is a natural number.
pub mod Fifo
pub mod Conflicts
pub mod Unique
pub mod Loop
pub mod Kept
pub mod Threads
pub mod Drain
mod Tests
use medialibrary.Common.{
  ℕ, suc, ◌+◌, ◌==◌, if◌then◌else◌, Bool, true, false, not, ◌&&◌, ◌||◌, Option, none, some, List,
  [], ◌∷◌, ◌++◌, Bytes, bytes_eq,
}
use medialibrary.Filename.{to_folder_path}

pub data TaskType : Type 0 where
  reload remove ban unban reload_device add_root : TaskType

pub record Task : Type 0 where
  pub root : Bytes
  pub entity_id : ℕ
  pub type : TaskType

-- `operator==` on the task types.
abbrev pub type_eq : TaskType → TaskType → Bool
type_eq reload reload = true
type_eq remove remove = true
type_eq ban ban = true
type_eq unban unban = true
type_eq reload_device reload_device = true
type_eq add_root add_root = true
type_eq _ _ = false

-- Only a reload is long running.
abbrev pub is_long_running : Task → Bool
is_long_running t = type_eq t.type reload

-- The fields of the worker. `discoverer` tells whether `m_discoverer` is set, `started` whether
-- the thread is joinable; `interrupts` and `notifies` count the calls of `interrupt` and `notify`.
pub record Worker : Type 0 where
  pub has_fs_holder : Bool
  pub tasks : List Task
  pub current_task : Option Task
  pub run : Bool
  pub discoverer : Bool
  pub started : Bool
  pub discovery_notified : Bool
  pub interrupts : ℕ
  pub notifies : ℕ

-- What a loop of `filter` leaves of the queue, whether it met a task that ends it, and whether it
-- erased one before.
pub record Pruned : Type 0 where
  pub left : List Task
  pub stopped : Bool
  pub erased : Bool

abbrev keep_task : Task → Pruned → Pruned
keep_task t p = record p { left = t ∷ p.left }

-- The loop that `filter` runs for `AddRoot`, `Remove` and `Ban`: of the tasks on this root, those
-- of one class are erased, and one of another class ends the loop at once.
unfoldable pub prune : (TaskType → Bool) → (TaskType → Bool) → Bytes → List Task → Pruned
prune erases stops root [] = record { left = []; stopped = false; erased = false }
prune erases stops root (t ∷ ts) =
    let rest = prune erases stops root ts in
    if bytes_eq t.root root
    then (if erases t.type
        then record rest { erased = true }
        else if stops t.type
        then record { left = t ∷ ts; stopped = true; erased = false }
        else keep_task t rest)
    else keep_task t rest

-- Whether the queue holds a task that fits, as in the loops that only look.
unfoldable pub any_task : (Task → Bool) → List Task → Bool
any_task fits [] = false
any_task fits (t ∷ ts) = fits t || any_task fits ts

-- The loop for `Unban`: the first ban of this root is erased, and ends the loop.
unfoldable pub cancel_ban : Bytes → List Task → List Task × Bool
cancel_ban root [] = ([], false)
cancel_ban root (t ∷ ts) =
    let (left, found) = cancel_ban root ts in
    if bytes_eq t.root root && type_eq t.type ban then (ts, true) else (t ∷ left, found)

abbrev pub add_root_erases : TaskType → Bool
add_root_erases t = type_eq t remove || type_eq t reload

abbrev pub remove_erases : TaskType → Bool
remove_erases t = type_eq t add_root || type_eq t reload

abbrev pub ban_erases : TaskType → Bool
ban_erases t = type_eq t add_root || type_eq t reload || type_eq t unban

abbrev pub reload_meets : Task → Task → Bool
reload_meets new t =
    bytes_eq t.root new.root
    && (type_eq t.type reload || type_eq t.type remove || type_eq t.type ban)

abbrev pub device_meets : Task → Task → Bool
device_meets new t = type_eq t.type new.type && t.entity_id == new.entity_id

-- `filter` by the type of the new task: the queue that is left, and whether the task is dropped.
unfoldable pub filter_as : TaskType → Task → List Task → List Task × Bool
unfolding prune any_task cancel_ban
filter_as add_root new ts =
    let p = prune add_root_erases (λ t. type_eq t add_root) new.root ts in (p.left, p.stopped)
filter_as reload new ts = (ts, any_task (reload_meets new) ts)
filter_as remove new ts =
    let p = prune remove_erases (λ t. type_eq t remove) new.root ts in
    (p.left, p.stopped || p.erased)
filter_as ban new ts =
    let p = prune ban_erases (λ t. type_eq t ban) new.root ts in (p.left, p.stopped)
filter_as unban new ts = cancel_ban new.root ts
filter_as reload_device new ts = (ts, any_task (device_meets new) ts)

abbrev pub filter : Task → List Task → List Task × Bool
filter new = filter_as new.type new

-- `insert` and `emplace` at the place where `find_if` finds the first long running task.
unfoldable pub insert_before_long : List Task → List Task → List Task
insert_before_long new [] = new
insert_before_long new (t ∷ ts) =
    let rest = insert_before_long new ts in if is_long_running t then new ++ t ∷ ts else t ∷ rest

-- Whether the interrupted task is not worth a new reload: its folder is being removed or banned.
abbrev pub is_superseded : Task → Task → Bool
is_superseded current new = not (
    not (type_eq current.type reload)
    || (not (type_eq new.type ban) && not (type_eq new.type remove))
    || not (bytes_eq new.root current.root))

abbrev pub reload_task : Bytes → Task
reload_task root = record { root = root; entity_id = 0; type = reload }

-- The short tasks: queued before all long running ones, interrupting the one that runs.
unfoldable pub enqueue_short : Option Task → Task → Worker → Worker
unfolding insert_before_long
enqueue_short none new w = record w { tasks = insert_before_long (new ∷ []) w.tasks }
enqueue_short (some current) new w =
    if is_long_running current
    then record w {
      interrupts = if w.discoverer then w.interrupts + 1 else w.interrupts;
      tasks =
          insert_before_long
            (if is_superseded current new then new ∷ [] else new ∷ reload_task current.root ∷ [])
            w.tasks;
    }
    else record w { tasks = insert_before_long (new ∷ []) w.tasks }

-- The `switch` of `enqueue`, on the tasks that `filter` let through.
unfoldable pub insert_task : Task → Worker → Worker
unfolding enqueue_short
insert_task new w =
    if type_eq new.type reload
    then record w { tasks = w.tasks ++ new ∷ [] }
    else enqueue_short w.current_task new w

-- The end of `enqueue`: the thread is started, or woken.
unfoldable pub wake : Worker → Worker
wake w =
    if w.started
    then record w { notifies = w.notifies + 1 }
    else if w.has_fs_holder
    then record w { discoverer = true; started = true; run = true }
    else w

unfoldable pub enqueue : Task → Worker → Worker
enqueue new w =
    let (left, dropped) = filter new w.tasks in
    let filtered = record w { tasks = left } in
    if dropped then filtered else wake (insert_task new filtered)

abbrev pub root_task : Bytes → TaskType → Task
root_task root type = record { root = root; entity_id = 0; type = type }

abbrev pub device_task : ℕ → Task
device_task id = record { root = []; entity_id = id; type = reload_device }

-- The public methods. `none` is the undefined `toFolderPath` of an empty text.
unfoldable pub discover : Bytes → Worker → Option (Worker × Bool)
unfolding enqueue to_folder_path
discover [] w = some (w, false)
discover root w = elim (to_folder_path root) [
  | none ↦ none
  | some path ↦ some (enqueue (root_task path reload) (enqueue (root_task path add_root) w), true)
]

unfoldable pub remove_root : Bytes → Worker → Worker
unfolding enqueue
remove_root root w = enqueue (root_task root remove) w

unfoldable pub reload_all : Worker → Worker
unfolding enqueue
reload_all w = enqueue (root_task [] reload) w

-- `reload( root )`, `ban` and `unban`, by the type of the task that they queue.
unfoldable pub enqueue_folder : TaskType → Bytes → Worker → Option Worker
unfolding enqueue to_folder_path
enqueue_folder type root w = elim (to_folder_path root) [
  | none ↦ none
  | some path ↦ some (enqueue (root_task path type) w)
]

unfoldable pub reload_device_by_id : ℕ → Worker → Worker
unfolding enqueue
reload_device_by_id id w = enqueue (device_task id) w
