-- ===== src/Discoverer/Threads.antt =====
-- DiscovererWorker between its threads: the steps of the discovery thread, and those of the
-- threads that queue requests or stop it, interleaved at the mutex.
use medialibrary.Common.{
  ◌≡◌, refl, subst, ◌∙◌, Bool, true, false, none, some, List, [], ◌∷◌, arith, inl, inr, Bool-cases,
}
use medialibrary.Discoverer.{Task, Worker, is_long_running, enqueue}
use medialibrary.Discoverer.Loop.{
  Backend, idle_changed, discovery_completed, Loop, emit, with_worker, pop_task, announce_idle,
  Turn, blocks, leaves, continues, wake_up, take_task, run_task, stop,
}
use medialibrary.Discoverer.Kept.{
  Inv, pop_task-Inv, run_task-Inv, enqueue-Inv, emit-Inv, replay-concat,
}

-- A worker before its first request, with an empty queue and no thread.
abbrev pub fresh_worker : Bool → Worker
fresh_worker holder = record {
  has_fs_holder = holder;
  tasks = [];
  current_task = none;
  run = false;
  discoverer = false;
  started = false;
  discovery_notified = false;
  interrupts = 0;
  notifies = 0;
}

-- The loop as its thread enters it, after a first request.
abbrev pub enter : Task → Bool → Loop
enter first holder = record {
  worker = enqueue first (fresh_worker holder);
  need_task_refresh = false;
  waiting = false;
  log = idle_changed false ∷ [];
}

pub data Step (b : Backend) (l l' : Loop) : Type 0 where
  takes :
      l.worker.current_task ≡ none
      → take_task l.waiting l.worker.tasks l ≡ continues l'
      → Step b l l'
  sleeps :
      l.worker.current_task ≡ none → take_task l.waiting l.worker.tasks l ≡ blocks l' → Step b l l'
  exits :
      l.worker.current_task ≡ none → take_task l.waiting l.worker.tasks l ≡ leaves l' → Step b l l'
  executes : (t : Task) → l.worker.current_task ≡ some t → run_task b t l ≡ some l' → Step b l l'
  requests : (new : Task) → l' ≡ with_worker (enqueue new l.worker) l → Step b l l'
  stops : l' ≡ with_worker (stop l.worker) l → Step b l l'

pub data Reach (b : Backend) (s : Loop) : Loop → Type 0 where
  here : Reach b s s
  next : {l l' : Loop} → Reach b s l → Step b l l' → Reach b s l'

complete-Inv :
    (l : Loop)
    → l.worker.discovery_notified ≡ true
    → Inv l
    → Inv
        (emit discovery_completed (with_worker (record l.worker { discovery_notified = false }) l))
complete-Inv l n v = record {
  announced = rw (replay-concat (some false) l.log discovery_completed, v.announced) (simp n);
  ordered = v.ordered;
  unique = v.unique;
}

waiting-Inv : (f : Bool) (l : Loop) → Inv l → Inv (record l { waiting = f })
waiting-Inv f l v = record { announced = v.announced; ordered = v.ordered; unique = v.unique }

announce_idle-Inv : (l : Loop) → Inv l → Inv (announce_idle l)
unfolding announce_idle
announce_idle-Inv l v = elim (Bool-cases l.worker.discovery_notified) [
  | inl told ↦
      simp (told, announce_idle)
        (waiting-Inv true _ (emit-Inv (idle_changed true) _ refl (complete-Inv l told v)))
  | inr silent ↦
      simp (silent, announce_idle) (waiting-Inv true _ (emit-Inv (idle_changed true) l refl v))
]

announce_idle-tasks : (l : Loop) → (announce_idle l).worker.tasks ≡ l.worker.tasks
unfolding announce_idle
announce_idle-tasks l = ground arith

abbrev TurnInv : Turn → Type 0
TurnInv (blocks l) = Inv l
TurnInv (leaves l) = Inv l
TurnInv (continues l) = Inv l

wake_up-Inv :
    (tasks : List Task) (l : Loop) → l.worker.tasks ≡ tasks → Inv l → TurnInv (wake_up tasks l)
unfolding wake_up
wake_up-Inv [] l e v = elim (Bool-cases l.worker.run) [
  | inl running ↦ simp running v
  | inr stopped ↦ simp stopped (waiting-Inv false l v)
]
wake_up-Inv (t ∷ ts) l e v = elim (Bool-cases l.worker.run) [
  | inl running ↦
      simp running
        (pop_task-Inv t ts _ e (emit-Inv (idle_changed false) _ refl (waiting-Inv false l v)))
  | inr stopped ↦ simp stopped (waiting-Inv false l v)
]

take_task-Inv :
    (waiting : Bool) (tasks : List Task) (l : Loop)
    → l.worker.tasks ≡ tasks
    → Inv l
    → TurnInv (take_task waiting tasks l)
unfolding take_task
take_task-Inv true tasks l e v = wake_up-Inv tasks l e v
take_task-Inv false [] l e v =
    wake_up-Inv [] (announce_idle l) (announce_idle-tasks l ∙ e) (announce_idle-Inv l v)
take_task-Inv false (t ∷ ts) l e v = pop_task-Inv t ts l e v

stop-Inv : (l : Loop) → Inv l → Inv (with_worker (stop l.worker) l)
unfolding stop
stop-Inv l v = elim (Bool-cases l.worker.run) [
  | inl running ↦
      simp running (record { announced = v.announced; ordered = v.ordered; unique = v.unique })
  | inr stopped ↦ simp stopped v
]

Step-Inv : (b : Backend) (l l' : Loop) → Step b l l' → Inv l → Inv l'
Step-Inv b l l' (takes idle e) v = subst TurnInv e (take_task-Inv l.waiting l.worker.tasks l refl v)
Step-Inv b l l' (sleeps idle e) v =
    subst TurnInv e (take_task-Inv l.waiting l.worker.tasks l refl v)
Step-Inv b l l' (exits idle e) v = subst TurnInv e (take_task-Inv l.waiting l.worker.tasks l refl v)
Step-Inv b l l' (executes t busy e) v = run_task-Inv b t l v e
Step-Inv b l l' (requests new e) v = rw e (enqueue-Inv new l v)
Step-Inv b l l' (stops e) v = rw e (stop-Inv l v)

enter-Inv : (first : Task) (holder : Bool) → Inv (enter first holder)
enter-Inv first holder =
    enqueue-Inv first
      (record {
        worker = fresh_worker holder;
        need_task_refresh = false;
        waiting = false;
        log = idle_changed false ∷ [];
      })
      (record { announced = refl; ordered = tt; unique = λ x k. omega arith })

-- In every state that the thread reaches from its start with one task, whatever requests and
-- stops come in between its steps, the client is told of the start and of the end of a discovery
-- in turn, reloads stand behind all other tasks, and the queue does not hold twice a task to add,
-- remove or ban a folder or to reload a device.
pub Reach-Inv :
    (b : Backend) (first : Task) (holder : Bool) (l : Loop) → Reach b (enter first holder) l → Inv l
Reach-Inv b first holder _ here = enter-Inv first holder
Reach-Inv b first holder l' (next {l = l} r s) = Step-Inv b l l' s (Reach-Inv b first holder l r)

pop_task_stopped :
    (ts : List Task) (l : Loop) (t : Task)
    → l.worker.run ≡ false
    → l.worker.current_task ≡ none
    → (pop_task ts l).worker.current_task ≡ some t
    → is_long_running t ≡ false
unfolding pop_task
pop_task_stopped [] l t r n e = ground arith
pop_task_stopped (x ∷ ts) l t r n e = ground arith

-- A turn that takes up a task takes a short one.
abbrev TakesShort : Turn → Type 0
TakesShort (blocks l) = Unit {0}
TakesShort (leaves l) = Unit {0}
TakesShort (continues l) = (t : Task) → l.worker.current_task ≡ some t → is_long_running t ≡ false

take_task-TakesShort :
    (waiting : Bool) (tasks : List Task) (l : Loop)
    → l.worker.run ≡ false
    → l.worker.current_task ≡ none
    → TakesShort (take_task waiting tasks l)
unfolding take_task wake_up
take_task-TakesShort true tasks l r n = simp r tt
take_task-TakesShort false [] l r n = elim (Bool-cases (announce_idle l).worker.run) [
  | inl running ↦ simp running tt
  | inr stopped ↦ simp stopped tt
]
take_task-TakesShort false (t ∷ ts) l r n = λ x e. pop_task_stopped (t ∷ ts) l x r n e

-- A task that the thread of a stopped worker takes up, when it has no current one, is not a
-- reload.
pub take_task_stopped :
    (l l' : Loop) (t : Task)
    → l.worker.run ≡ false
    → l.worker.current_task ≡ none
    → take_task l.waiting l.worker.tasks l ≡ continues l'
    → l'.worker.current_task ≡ some t
    → is_long_running t ≡ false
take_task_stopped l l' t r n e =
    subst TakesShort e (take_task-TakesShort l.waiting l.worker.tasks l r n) t
