-- ===== src/Discoverer/Unique.antt =====
-- DiscovererWorker::filter: the requests of which the queue holds at most one.
use medialibrary.Common.{
  ◌+◌, ◌≤◌, ◌==◌, ◌≡◌, refl, Bool, true, false, ◌&&◌, Option, none, some, List, [], ◌∷◌, Bytes,
  bytes_eq, bytes_eq_sound, bytes_eq_refl, count, count-append, arith,
}
use medialibrary.Discoverer.{
  TaskType, reload, remove, ban, unban, reload_device, add_root, Task, Worker, type_eq, prune,
  any_task, cancel_ban, filter_as, insert_before_long, add_root_erases, remove_erases, ban_erases,
  device_meets, insert_task, enqueue,
}
use medialibrary.Discoverer.Fifo.{requeued, insert_task-tasks}
use medialibrary.Discoverer.Conflicts.{enqueue-tasks}

abbrev pub same : Task → Task → Bool
same x t = type_eq t.type x.type && (bytes_eq t.root x.root && t.entity_id == x.entity_id)

-- The types of which `filter` refuses a second task. A reload may be queued again for the one that
-- runs, and of the unbans nothing is checked.
abbrev pub is_kept_once : TaskType → Bool
is_kept_once add_root = true
is_kept_once remove = true
is_kept_once ban = true
is_kept_once reload_device = true
is_kept_once reload = false
is_kept_once unban = false

abbrev pub IsUnique : List Task → Type 0
IsUnique ts = (x : Task) → is_kept_once x.type ≡ true → count (same x) ts ≤ 1

type_eq_sound : (a b : TaskType) → type_eq a b ≡ true → a ≡ b
type_eq_sound a b h = ground arith

count-prune-le :
    (p : Task → Bool) (erases stops : TaskType → Bool) (root : Bytes) (ts : List Task)
    → count p (prune erases stops root ts).left ≤ count p ts
unfolding prune
count-prune-le p erases stops root [] = omega arith
count-prune-le p erases stops root (t ∷ ts) = ground (arith, count-prune-le p erases stops root ts)

count-cancel_ban-le :
    (p : Task → Bool) (root : Bytes) (ts : List Task) → count p (cancel_ban root ts).0 ≤ count p ts
unfolding cancel_ban
count-cancel_ban-le p root [] = omega arith
count-cancel_ban-le p root (t ∷ ts) = ground (arith, count-cancel_ban-le p root ts)

count-filter-le :
    (p : Task → Bool) (type : TaskType) (new : Task) (ts : List Task)
    → count p (filter_as type new ts).0 ≤ count p ts
unfolding filter_as
count-filter-le p add_root new ts =
    count-prune-le p add_root_erases (λ t. type_eq t add_root) new.root ts
count-filter-le p reload new ts = omega arith
count-filter-le p remove new ts = count-prune-le p remove_erases (λ t. type_eq t remove) new.root ts
count-filter-le p ban new ts = count-prune-le p ban_erases (λ t. type_eq t ban) new.root ts
count-filter-le p unban new ts = count-cancel_ban-le p new.root ts
count-filter-le p reload_device new ts = omega arith

count-insert :
    (p : Task → Bool) (new ts : List Task)
    → count p (insert_before_long new ts) ≡ count p new + count p ts
unfolding insert_before_long
count-insert p new [] = omega arith
count-insert p new (t ∷ ts) = ground (arith, count-insert p new ts, count-append p new (t ∷ ts))

count-requeued :
    (x : Task) (c : Option Task) (new : Task)
    → is_kept_once x.type ≡ true
    → count (same x) (requeued c new) ≡ 0
count-requeued x none new k = refl
count-requeued x (some c) new k = ground (arith, type_eq_sound reload x.type)

-- A loop that is not stopped met no task of the class that stops it.
count-prune_stops :
    (x : Task) (erases stops : TaskType → Bool) (root : Bytes) (ts : List Task)
    → stops x.type ≡ true
    → x.root ≡ root
    → (prune erases stops root ts).stopped ≡ false
    → count (same x) (prune erases stops root ts).left ≡ 0
unfolding prune
count-prune_stops x erases stops root [] s e h = refl
count-prune_stops x erases stops root (t ∷ ts) s e h = ground (
  arith,
  type_eq_sound t.type x.type,
  bytes_eq_sound t.root x.root,
  bytes_eq_refl root,
  count-prune_stops x erases stops root ts s e,
)

count-device :
    (x new : Task) (ts : List Task)
    → x.type ≡ new.type
    → x.entity_id ≡ new.entity_id
    → any_task (device_meets new) ts ≡ false
    → count (same x) ts ≡ 0
unfolding any_task
count-device x new [] t e h = refl
count-device x new (y ∷ ts) t e h =
    ground (arith, type_eq_sound y.type x.type, count-device x new ts)

-- A task that `filter` lets through has no equal among those that are left.
accepted-absent :
    (x new : Task) (type : TaskType) (ts : List Task)
    → new.type ≡ type
    → is_kept_once x.type ≡ true
    → same x new ≡ true
    → (filter_as type new ts).1 ≡ false
    → count (same x) (filter_as type new ts).0 ≡ 0
unfolding filter_as
accepted-absent x new add_root ts t k s h = ground (
  arith,
  type_eq_sound new.type x.type,
  bytes_eq_sound new.root x.root,
  count-prune_stops x add_root_erases (λ t. type_eq t add_root) new.root ts,
)
accepted-absent x new remove ts t k s h = ground (
  arith,
  type_eq_sound new.type x.type,
  bytes_eq_sound new.root x.root,
  count-prune_stops x remove_erases (λ t. type_eq t remove) new.root ts,
)
accepted-absent x new ban ts t k s h = ground (
  arith,
  type_eq_sound new.type x.type,
  bytes_eq_sound new.root x.root,
  count-prune_stops x ban_erases (λ t. type_eq t ban) new.root ts,
)
accepted-absent x new reload_device ts t k s h =
    ground (arith, type_eq_sound new.type x.type, count-device x new ts)
accepted-absent x new _ ts t k s h = ground (arith, type_eq_sound new.type x.type)

count-insert_task :
    (x new : Task) (w : Worker)
    → is_kept_once x.type ≡ true
    → count (same x) (insert_task new w).tasks ≡ count (same x) (new ∷ []) + count (same x) w.tasks
count-insert_task x new w k = ground (
  arith,
  insert_task-tasks new w,
  count-append (same x) w.tasks (new ∷ []),
  count-insert (same x) (new ∷ requeued w.current_task new) w.tasks,
  count-requeued x w.current_task new k,
)

-- If the queue does not hold twice a task to add, remove or ban a folder or to reload a device,
-- then it does not after a request.
pub enqueue-IsUnique : (new : Task) (w : Worker) → IsUnique w.tasks → IsUnique (enqueue new w).tasks
enqueue-IsUnique new w u x k = ground (
  arith,
  u x k,
  enqueue-tasks new w,
  count-filter-le (same x) new.type new w.tasks,
  count-insert_task x new (record w { tasks = (filter_as new.type new w.tasks).0 }) k,
  accepted-absent x new new.type w.tasks refl k,
)
