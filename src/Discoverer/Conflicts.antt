-- ===== src/Discoverer/Conflicts.antt =====
-- DiscovererWorker::filter: which requests cancel one another, and which are kept once.
use medialibrary.Common.{
  ◌≡◌, refl, if◌then◌else◌, Bool, true, false, not, ◌&&◌, ◌||◌, Option, none, some, List, [], ◌∷◌,
  ◌++◌, Bytes, bytes_eq, bytes_eq_refl, bytes_eq_comm, keep, arith,
}
use medialibrary.Discoverer.{
  TaskType, reload, remove, ban, add_root, Task, Worker, type_eq, prune, any_task, filter_as,
  insert_before_long, remove_erases, ban_erases, insert_task, enqueue, root_task, remove_root,
}
use medialibrary.Discoverer.Fifo.{requeued, insert_task-tasks, wake-tasks}

-- A task of one of these types, on this root.
abbrev pub on_root : (TaskType → Bool) → Bytes → Task → Bool
on_root types root t = bytes_eq t.root root && types t.type

pub enqueue-tasks :
    (new : Task) (w : Worker)
    → (enqueue new w).tasks ≡ (
        if (filter_as new.type new w.tasks).1
        then (filter_as new.type new w.tasks).0
        else (insert_task new (record w { tasks = (filter_as new.type new w.tasks).0 })).tasks)
unfolding enqueue
enqueue-tasks new w =
    ground (
      arith,
      wake-tasks (insert_task new (record w { tasks = (filter_as new.type new w.tasks).0 })),
    )

any-append :
    (fits : Task → Bool) (xs ys : List Task)
    → any_task fits (xs ++ ys) ≡ (any_task fits xs || any_task fits ys)
unfolding any_task
any-append fits [] ys = refl
any-append fits (x ∷ xs) ys = ground (arith, any-append fits xs ys)

any-insert :
    (fits : Task → Bool) (new ts : List Task)
    → any_task fits (insert_before_long new ts) ≡ (any_task fits new || any_task fits ts)
unfolding any_task insert_before_long
any-insert fits new [] = ground arith
any-insert fits new (t ∷ ts) = ground (arith, any-insert fits new ts, any-append fits new (t ∷ ts))

-- What is left behind a loop that was not stopped holds nothing of the erased class.
any-prune_erased :
    (erases stops : TaskType → Bool) (root : Bytes) (ts : List Task)
    → (prune erases stops root ts).stopped ≡ false
    → any_task (on_root erases root) (prune erases stops root ts).left ≡ false
unfolding prune any_task
any-prune_erased erases stops root [] h = refl
any-prune_erased erases stops root (t ∷ ts) h =
    ground (arith, any-prune_erased erases stops root ts)

prune-not-stopped :
    (erases stops : TaskType → Bool) (root : Bytes) (ts : List Task)
    → any_task (on_root stops root) ts ≡ false
    → (prune erases stops root ts).stopped ≡ false
unfolding prune any_task
prune-not-stopped erases stops root [] h = refl
prune-not-stopped erases stops root (t ∷ ts) h =
    ground (arith, prune-not-stopped erases stops root ts)

requeued_ban :
    (c : Option Task) (root : Bytes)
    → any_task (on_root ban_erases root) (requeued c (root_task root ban)) ≡ false
unfolding any_task
requeued_ban none root = refl
requeued_ban (some c) root = ground (arith, bytes_eq_comm c.root root)

-- After a ban is queued for a folder for which no ban is queued, no task is left in the queue to
-- add, reload or unban it, even where the reload of it was running and is interrupted; and the
-- ban is in the queue.
pub enqueue_ban_lem :
    (root : Bytes) (w : Worker)
    → any_task (on_root (λ t. type_eq t ban) root) w.tasks ≡ false
    → (any_task (on_root ban_erases root) (enqueue (root_task root ban) w).tasks ≡ false)
      × (any_task (on_root (λ t. type_eq t ban) root) (enqueue (root_task root ban) w).tasks ≡ true)
unfolding filter_as any_task
enqueue_ban_lem root w h =
    let new = root_task root ban in
    let p = prune ban_erases (λ t. type_eq t ban) root w.tasks in
    let goes = prune-not-stopped ban_erases (λ t. type_eq t ban) root w.tasks h in
    let all = new ∷ requeued w.current_task new in
    ground (
      arith,
      goes,
      enqueue-tasks new w,
      insert_task-tasks new (record w { tasks = p.left }),
      any-insert (on_root ban_erases root) all p.left,
      any-insert (on_root (λ t. type_eq t ban) root) all p.left,
      any-prune_erased ban_erases (λ t. type_eq t ban) root w.tasks,
      requeued_ban w.current_task root,
      bytes_eq_refl root,
    )

-- A test for the types, as a predicate on tasks.
abbrev pub is_reload : TaskType → Bool
is_reload t = type_eq t reload

prune_remove_lem :
    (root : Bytes) (ts : List Task)
    → any_task (on_root (λ t. type_eq t remove || type_eq t add_root) root) ts ≡ false
    → prune remove_erases (λ t. type_eq t remove) root ts ≡ record {
      left = keep (λ t. not (on_root is_reload root t)) ts;
      stopped = false;
      erased = any_task (on_root is_reload root) ts;
    }
unfolding prune any_task
prune_remove_lem root [] h = refl
prune_remove_lem root (t ∷ ts) h = ground (arith, prune_remove_lem root ts)

-- A request to remove a folder is lost when a reload of the folder is queued and neither its
-- removal nor its addition is: its reloads are erased, the request is dropped, and nothing else
-- changes.
pub remove_root_lost :
    (root : Bytes) (w : Worker)
    → any_task (on_root is_reload root) w.tasks ≡ true
    → any_task (on_root (λ t. type_eq t remove || type_eq t add_root) root) w.tasks ≡ false
    → remove_root root w ≡ record w { tasks = keep (λ t. not (on_root is_reload root t)) w.tasks }
unfolding remove_root filter_as
remove_root_lost root w r n = ground (arith, prune_remove_lem root w.tasks n)
