-- ===== src/Discoverer/Fifo.antt =====
-- DiscovererWorker::enqueue as an operation on two first-in first-out queues: the short tasks,
-- and the reloads behind them.
use medialibrary.Common.{
  ◌≡◌, refl, sym, Bool-cases, ◌⊎◌, inl, inr, if◌then◌else◌, Bool, true, false, not, Option, none,
  some, List, [], ◌∷◌, ◌++◌, Bytes, All, All-append, keep, keep-append, append-nil, arith,
}
use medialibrary.Discoverer.{
  TaskType, reload, remove, ban, unban, reload_device, add_root, Task, Worker, is_long_running,
  type_eq, prune, cancel_ban, filter_as, filter, insert_before_long, is_superseded, reload_task,
  add_root_erases, remove_erases, ban_erases, enqueue_short, insert_task, wake, enqueue,
}

abbrev pub is_short : Task → Bool
is_short t = not (is_long_running t)

abbrev pub IsLong : Task → Type 0
IsLong t = is_long_running t ≡ true

-- No short task stands behind a reload.
abbrev pub IsOrdered : List Task → Type 0
IsOrdered [] = Unit {0}
IsOrdered (t ∷ ts) =
    ((is_long_running t ≡ true) × All IsLong ts) ⊎ ((is_long_running t ≡ false) × IsOrdered ts)

-- The two queues.
pub record Fifos : Type 0 where
  pub short : List Task
  pub long : List Task

abbrev pub fifos : List Task → Fifos
fifos ts = record { short = keep is_short ts; long = keep is_long_running ts }

-- What an interrupted reload leaves to be queued again.
abbrev pub requeued : Option Task → Task → List Task
requeued none new = []
requeued (some current) new =
    if is_long_running current
    then (if is_superseded current new then [] else reload_task current.root ∷ [])
    else []

-- The specification of `insert_task`.
abbrev pub push : Option Task → Task → Fifos → Fifos
push current new q =
    if is_long_running new
    then record q { long = q.long ++ new ∷ [] }
    else record { short = q.short ++ new ∷ []; long = requeued current new ++ q.long }

pub long-IsOrdered : (ts : List Task) → All IsLong ts → IsOrdered ts
long-IsOrdered [] h = tt
long-IsOrdered (t ∷ ts) h = inl (h.0, h.1)

keep-short-long : (ts : List Task) → All IsLong ts → keep is_short ts ≡ []
keep-short-long [] h = refl
keep-short-long (t ∷ ts) h = ground (arith, keep-short-long ts h.1)

keep-long-long : (ts : List Task) → All IsLong ts → keep is_long_running ts ≡ ts
keep-long-long [] h = refl
keep-long-long (t ∷ ts) h = ground (arith, keep-long-long ts h.1)

-- An ordered queue is its two queues, one after the other.
pub IsOrdered-split :
    (ts : List Task) → IsOrdered ts → ts ≡ keep is_short ts ++ keep is_long_running ts
IsOrdered-split [] h = refl
IsOrdered-split (t ∷ ts) (inl (l, ls)) = ground (arith, keep-short-long ts ls, keep-long-long ts ls)
IsOrdered-split (t ∷ ts) (inr (s, o)) = ground (arith, IsOrdered-split ts o)

insert-split :
    (new ts : List Task)
    → IsOrdered ts
    → insert_before_long new ts ≡ keep is_short ts ++ (new ++ keep is_long_running ts)
unfolding insert_before_long
insert-split new [] h = sym (append-nil new)
insert-split new (t ∷ ts) (inl (l, ls)) =
    ground (arith, keep-short-long ts ls, keep-long-long ts ls)
insert-split new (t ∷ ts) (inr (s, o)) = ground (arith, insert-split new ts o)

append-IsOrdered :
    (new ts : List Task)
    → All (λ t. is_long_running t ≡ false) new
    → IsOrdered ts
    → IsOrdered (new ++ ts)
append-IsOrdered [] ts n h = h
append-IsOrdered (t ∷ new) ts n h = inr (n.0, append-IsOrdered new ts n.1 h)

IsOrdered-append : (ts new : List Task) → IsOrdered ts → All IsLong new → IsOrdered (ts ++ new)
IsOrdered-append [] new h n = long-IsOrdered new n
IsOrdered-append (t ∷ ts) new (inl (l, ls)) n = inl (l, All-append IsLong ts new n ls)
IsOrdered-append (t ∷ ts) new (inr (s, o)) n = inr (s, IsOrdered-append ts new o n)

insert-IsOrdered :
    (new : Task) (again ts : List Task)
    → is_long_running new ≡ false
    → All IsLong again
    → IsOrdered ts
    → IsOrdered (insert_before_long (new ∷ again) ts)
unfolding insert_before_long
insert-IsOrdered new again [] s a h = inr (s, long-IsOrdered again a)
insert-IsOrdered new again (t ∷ ts) s a (inl (l, ls)) =
    rw l (inr (s, long-IsOrdered _ (All-append IsLong again (t ∷ ts) (l, ls) a)))
insert-IsOrdered new again (t ∷ ts) s a (inr (k, o)) =
    rw k (inr (k, insert-IsOrdered new again ts s a o))

requeued-IsLong : (c : Option Task) (new : Task) → All IsLong (requeued c new)
requeued-IsLong none new = tt
requeued-IsLong (some c) new = ground arith

enqueue_short-tasks :
    (c : Option Task) (new : Task) (w : Worker)
    → (enqueue_short c new w).tasks ≡ insert_before_long (new ∷ requeued c new) w.tasks
unfolding enqueue_short
enqueue_short-tasks none new w = refl
enqueue_short-tasks (some c) new w = ground arith

pub insert_task-tasks :
    (new : Task) (w : Worker)
    → (insert_task new w).tasks ≡ (
        if is_long_running new
        then w.tasks ++ new ∷ []
        else insert_before_long (new ∷ requeued w.current_task new) w.tasks)
unfolding insert_task
insert_task-tasks new w = ground (arith, enqueue_short-tasks w.current_task new w)

-- The first queue, with `new` at its back, and the second, with `again` at its front.
insert-fifos :
    (new : Task) (again ts : List Task)
    → is_long_running new ≡ false
    → All IsLong again
    → IsOrdered ts
    → fifos (insert_before_long (new ∷ again) ts)
      ≡ record { short = keep is_short ts ++ new ∷ []; long = again ++ keep is_long_running ts }
unfolding insert_before_long
insert-fifos new again [] s a h =
    ground (arith, keep-short-long again a, keep-long-long again a, append-nil again)
insert-fifos new again (t ∷ ts) s a (inl (l, ls)) = ground (
  arith,
  keep-append is_long_running again (t ∷ ts),
  keep-append is_short again (t ∷ ts),
  keep-short-long again a,
  keep-long-long again a,
  keep-short-long ts ls,
  keep-long-long ts ls,
)
insert-fifos new again (t ∷ ts) s a (inr (k, o)) = ground (arith, insert-fifos new again ts s a o)

-- Where reloads stand behind all other tasks, an accepted task is queued as in the specification
-- by two queues: a reload behind everything, any other task behind the short ones, with the
-- reload that it interrupts before the other reloads.
pub insert_task-fifos :
    (new : Task) (w : Worker)
    → IsOrdered w.tasks
    → fifos (insert_task new w).tasks ≡ push w.current_task new (fifos w.tasks)
insert_task-fifos new w h = elim (Bool-cases (is_long_running new)) [
  | inl l ↦
      rw (insert_task-tasks new w, l)
        (ground (
          arith,
          keep-append is_short w.tasks (new ∷ []),
          keep-append is_long_running w.tasks (new ∷ []),
          append-nil (keep is_short w.tasks),
        ))
  | inr s ↦
      rw (insert_task-tasks new w, s)
        (insert-fifos new (requeued w.current_task new) w.tasks s
          (requeued-IsLong w.current_task new) h)
]

pub insert_task-IsOrdered :
    (new : Task) (w : Worker) → IsOrdered w.tasks → IsOrdered (insert_task new w).tasks
insert_task-IsOrdered new w h = elim (Bool-cases (is_long_running new)) [
  | inl l ↦ rw (insert_task-tasks new w, l) (IsOrdered-append w.tasks (new ∷ []) h (l, tt))
  | inr s ↦
      rw (insert_task-tasks new w, s)
        (insert-IsOrdered new (requeued w.current_task new) w.tasks s
          (requeued-IsLong w.current_task new) h)
]

prune-IsLong :
    (erases stops : TaskType → Bool) (root : Bytes) (ts : List Task)
    → All IsLong ts
    → All IsLong (prune erases stops root ts).left
unfolding prune
prune-IsLong erases stops root [] h = tt
prune-IsLong erases stops root (t ∷ ts) h = ground (arith, prune-IsLong erases stops root ts h.1)

prune-IsOrdered :
    (erases stops : TaskType → Bool) (root : Bytes) (ts : List Task)
    → IsOrdered ts
    → IsOrdered (prune erases stops root ts).left
unfolding prune
prune-IsOrdered erases stops root [] h = tt
prune-IsOrdered erases stops root (t ∷ ts) (inl (l, ls)) =
    long-IsOrdered _ (prune-IsLong erases stops root (t ∷ ts) (l, ls))
prune-IsOrdered erases stops root (t ∷ ts) (inr (s, o)) =
    ground (arith, prune-IsOrdered erases stops root ts o)

cancel_ban-IsLong :
    (root : Bytes) (ts : List Task) → All IsLong ts → All IsLong (cancel_ban root ts).0
unfolding cancel_ban
cancel_ban-IsLong root [] h = tt
cancel_ban-IsLong root (t ∷ ts) h = ground (arith, cancel_ban-IsLong root ts h.1)

cancel_ban-IsOrdered :
    (root : Bytes) (ts : List Task) → IsOrdered ts → IsOrdered (cancel_ban root ts).0
unfolding cancel_ban
cancel_ban-IsOrdered root [] h = tt
cancel_ban-IsOrdered root (t ∷ ts) (inl (l, ls)) =
    long-IsOrdered _ (cancel_ban-IsLong root (t ∷ ts) (l, ls))
cancel_ban-IsOrdered root (t ∷ ts) (inr (s, o)) = ground (arith, cancel_ban-IsOrdered root ts o)

-- What `filter` leaves is still ordered.
pub filter-IsOrdered :
    (type : TaskType) (new : Task) (ts : List Task)
    → IsOrdered ts
    → IsOrdered (filter_as type new ts).0
unfolding filter_as
filter-IsOrdered add_root new ts h =
    prune-IsOrdered add_root_erases (λ t. type_eq t add_root) new.root ts h
filter-IsOrdered reload new ts h = h
filter-IsOrdered remove new ts h =
    prune-IsOrdered remove_erases (λ t. type_eq t remove) new.root ts h
filter-IsOrdered ban new ts h = prune-IsOrdered ban_erases (λ t. type_eq t ban) new.root ts h
filter-IsOrdered unban new ts h = cancel_ban-IsOrdered new.root ts h
filter-IsOrdered reload_device new ts h = h

pub wake-tasks : (w : Worker) → (wake w).tasks ≡ w.tasks
unfolding wake
wake-tasks w = ground arith

-- No call of `enqueue` puts a short task behind a reload.
pub enqueue-IsOrdered :
    (new : Task) (w : Worker) → IsOrdered w.tasks → IsOrdered (enqueue new w).tasks
unfolding enqueue
enqueue-IsOrdered new w h =
    let filtered = record w { tasks = (filter new w.tasks).0 } in
    ground (
      arith,
      filter-IsOrdered new.type new w.tasks h,
      insert_task-IsOrdered new filtered,
      wake-tasks (insert_task new filtered),
    )
