-- ===== src/Discoverer/Kept.antt =====
-- The discovery thread and the threads that call the worker, interleaved at the mutex.
use mathlib.Core.Option.{some-injective}
use medialibrary.Common.{
  Bool-cases, ◌&&◌, ℕ, ◌≡◌, refl, subst, inl, inr, Option-cases, if◌then◌else◌, Bool, true, false,
  not, Option, none, some, List, [], ◌∷◌, ◌++◌, Bytes, arith,
}
use medialibrary.Filename.{to_folder_path, parent_directory}
use medialibrary.Discoverer.{
  TaskType, reload, remove, ban, unban, reload_device, add_root, Task, Worker, is_long_running,
  enqueue_short, insert_task, wake, enqueue, root_task, filter,
}
use medialibrary.Discoverer.Fifo.{IsOrdered, long-IsOrdered, enqueue-IsOrdered}
use medialibrary.Discoverer.Unique.{IsUnique, enqueue-IsUnique}
use medialibrary.Discoverer.Loop.{
  Backend, Event, discovery_started, discovery_completed, discovery_failed, root_removed,
  root_banned, root_unbanned, root_added, reloads, refreshes_task_list, runs, Loop, emit, pop_task,
  run_reload, run_remove, run_ban, run_unban, reload_roots, run_reload_device, run_add_root,
  announce_reload, run_type, refresh_tasks, run_switch, run_task, with_worker, end_turn,
}

-- The state of the discovery as the client was told it; `none` if a call came out of turn.
abbrev pub told : Option Bool → Event → Option Bool
told none e = none
told (some false) discovery_started = some true
told (some true) discovery_started = none
told (some true) discovery_completed = some false
told (some false) discovery_completed = none
told (some s) e = some s

abbrev pub replay : Option Bool → List Event → Option Bool
replay s [] = s
replay s (e ∷ es) = replay (told s e) es

pub replay-concat :
    (s : Option Bool) (es : List Event) (e : Event) → replay s (es ++ e ∷ []) ≡ told (replay s es) e
replay-concat s [] e = refl
replay-concat s (x ∷ es) e = replay-concat (told s x) es e

-- Starts and completions of a discovery alternate in the log, which ends as the flag says.
abbrev pub IsAnnounced : Loop → Type 0
IsAnnounced l = replay (some false) l.log ≡ some l.worker.discovery_notified

-- The events that announce no discovery.
abbrev is_quiet : Event → Bool
is_quiet discovery_started = false
is_quiet discovery_completed = false
is_quiet _ = true

-- What every thread keeps.
pub record Inv (l : Loop) : Type 0 where
  pub announced : IsAnnounced l
  pub ordered : IsOrdered l.worker.tasks
  pub unique : IsUnique l.worker.tasks

told-quiet : (s : Bool) (e : Event) → is_quiet e ≡ true → told (some s) e ≡ some s
told-quiet true e q = ground arith
told-quiet false e q = ground arith

pub emit-Inv : (e : Event) (l : Loop) → is_quiet e ≡ true → Inv l → Inv (emit e l)
emit-Inv e l q v = record {
  announced =
      rw (replay-concat (some false) l.log e, v.announced)
        (told-quiet l.worker.discovery_notified e q);
  ordered = v.ordered;
  unique = v.unique;
}

enqueue_short_notified :
    (c : Option Task) (new : Task) (w : Worker)
    → (enqueue_short c new w).discovery_notified ≡ w.discovery_notified
unfolding enqueue_short
enqueue_short_notified none new w = refl
enqueue_short_notified (some c) new w = ground arith

insert_task_notified :
    (new : Task) (w : Worker) → (insert_task new w).discovery_notified ≡ w.discovery_notified
unfolding insert_task
insert_task_notified new w = ground (arith, enqueue_short_notified w.current_task new w)

wake_notified : (w : Worker) → (wake w).discovery_notified ≡ w.discovery_notified
unfolding wake
wake_notified w = ground arith

enqueue_notified :
    (new : Task) (w : Worker) → (enqueue new w).discovery_notified ≡ w.discovery_notified
unfolding enqueue
enqueue_notified new w =
    let filtered = record w { tasks = (filter new w.tasks).0 } in
    ground (arith, wake_notified (insert_task new filtered), insert_task_notified new filtered)

pub enqueue-Inv : (new : Task) (l : Loop) → Inv l → Inv (with_worker (enqueue new l.worker) l)
enqueue-Inv new l v = record {
  announced = rw (enqueue_notified new l.worker) v.announced;
  ordered = enqueue-IsOrdered new l.worker v.ordered;
  unique = enqueue-IsUnique new l.worker v.unique;
}

run_reload-Inv : (b : Backend) (root : Bytes) (l : Loop) → Inv l → Inv (run_reload b root l)
unfolding run_reload
run_reload-Inv b [] l v = emit-Inv (reloads []) l refl v
run_reload-Inv b (c ∷ root) l v =
    let called = emit-Inv (reloads (c ∷ root)) l refl v in
    ground (
      arith,
      called,
      emit-Inv (discovery_failed (c ∷ root)) (emit (reloads (c ∷ root)) l) refl called,
    )

run_remove-Inv :
    (b : Backend) (path : Bytes) (l : Loop) {l' : Loop}
    → Inv l
    → run_remove b path l ≡ some l'
    → Inv l'
unfolding run_remove
run_remove-Inv b path l v e = elim (Option-cases (to_folder_path path)) [
  | inl bad ↦ cc (rw (bad, run_remove) at e)
  | inr (root, good) ↦ ground (
    arith,
    good,
    emit-Inv (root_removed path (b.removes_folder root)) l refl v,
    emit-Inv (root_removed path false) l refl v,
  )
]

reload_roots-Inv :
    (b : Backend) (roots : List (Option Bytes)) (l : Loop) → Inv l → Inv (reload_roots b roots l)
unfolding reload_roots
reload_roots-Inv b [] l v = v
reload_roots-Inv b (none ∷ roots) l v = reload_roots-Inv b roots l v
reload_roots-Inv b (some mrl ∷ roots) l v =
    reload_roots-Inv b roots (run_reload b mrl l) (run_reload-Inv b mrl l v)

run_unban-Inv : (b : Backend) (root : Bytes) (l : Loop) → Inv l → Inv (run_unban b root l)
unfolding run_unban
run_unban-Inv b root l v =
    let done = emit (root_unbanned root (b.unbans_folder root)) l in
    ground (
      arith,
      enqueue-Inv (root_task (parent_directory root) reload) done
          (emit-Inv (root_unbanned root (b.unbans_folder root)) l refl v),
      emit-Inv (root_unbanned root false) l refl v,
    )

announce_reload-Inv : (l : Loop) → Inv l → Inv (announce_reload l)
unfolding announce_reload
announce_reload-Inv l v =
    ground
      (arith, replay-concat (some false) l.log discovery_started, v.announced, v.ordered, v.unique)

run_reload_device-Inv : (b : Backend) (id : ℕ) (l : Loop) → Inv l → Inv (run_reload_device b id l)
unfolding run_reload_device
run_reload_device-Inv b id l v = elim (Option-cases (b.device_roots id)) [
  | inl e ↦ rw (e, run_reload_device) v
  | inr (roots, e) ↦ rw (e, run_reload_device) (reload_roots-Inv b roots l v)
]

-- The local flag is no part of what is kept.
flag-Inv : (f : Bool) (l : Loop) → Inv l → Inv (record l { need_task_refresh = f })
flag-Inv f l v = record { announced = v.announced; ordered = v.ordered; unique = v.unique }

end_turn-Inv : (l : Loop) → Inv l → Inv (end_turn l)
end_turn-Inv l v = record { announced = v.announced; ordered = v.ordered; unique = v.unique }

some-Inv : (l : Loop) {l' : Loop} → Inv l → some l ≡ some l' → Inv l'
some-Inv l {l'} v e = subst Inv (some-injective l l' e) v

run_type-Inv :
    (type : TaskType) (b : Backend) (t : Task) (l : Loop) {l' : Loop}
    → Inv l
    → run_type type b t l ≡ some l'
    → Inv l'
unfolding run_type run_ban run_add_root
run_type-Inv reload b t l v e = some-Inv _ (run_reload-Inv b t.root _ (announce_reload-Inv l v)) e
run_type-Inv remove b t l v e = elim (Option-cases (run_remove b t.root l)) [
  | inl bad ↦ cc (rw (bad, run_type) at e)
  | inr (m, good) ↦
      some-Inv _ (flag-Inv true m (run_remove-Inv b t.root l v good)) (rw (good, run_type) at e)
]
run_type-Inv ban b t l v e =
    some-Inv _ (flag-Inv true _ (emit-Inv (root_banned t.root (b.bans_folder t.root)) l refl v)) e
run_type-Inv unban b t l v e = some-Inv _ (run_unban-Inv b t.root l v) e
run_type-Inv reload_device b t l v e =
    some-Inv _ (flag-Inv true _ (run_reload_device-Inv b t.entity_id l v)) e
run_type-Inv add_root b t l v e =
    some-Inv _ (emit-Inv (root_added t.root (b.discoverer_adds t.root)) l refl v) e

run_switch-Inv :
    (b : Backend) (t : Task) (l : Loop) {l' : Loop} → Inv l → run_switch b t l ≡ some l' → Inv l'
unfolding run_switch
run_switch-Inv b t l v e = elim (Option-cases (run_type t.type b t (emit (runs t) l))) [
  | inl bad ↦ cc (rw (bad, run_switch) at e)
  | inr (m, good) ↦
      some-Inv _ (end_turn-Inv m (run_type-Inv t.type b t _ (emit-Inv (runs t) l refl v) good))
        (rw (good, run_switch) at e)
]

refresh_tasks-Inv : (b : Backend) (l : Loop) → Inv l → Inv (refresh_tasks b l)
unfolding refresh_tasks
refresh_tasks-Inv b l v = elim (Bool-cases b.has_parser) [
  | inl yes_parser ↦
      rw (yes_parser, refresh_tasks) (flag-Inv false _ (emit-Inv refreshes_task_list l refl v))
  | inr no_parser ↦ rw (no_parser, refresh_tasks) (flag-Inv false l v)
]

abbrev Gives : Option Loop → Type 0
Gives r = (l : Loop) → r ≡ some l → Inv l

if-Gives : (c : Bool) (r s : Option Loop) → Gives r → Gives s → Gives (if c then r else s)
if-Gives true r s f g = f
if-Gives false r s f g = g

pub run_task-Inv :
    (b : Backend) (t : Task) (l : Loop) {l' : Loop} → Inv l → run_task b t l ≡ some l' → Inv l'
unfolding run_task
run_task-Inv b t l {l'} v e =
    let uncut = λ (m : Loop) (p : run_switch b t l ≡ some m). run_switch-Inv b t l v p in
    let cut =
      if-Gives (not l.worker.run) (some (end_turn l)) (run_switch b t (refresh_tasks b l))
        (λ m p. some-Inv _ (end_turn-Inv l v) p)
        (λ m p. run_switch-Inv b t _ (refresh_tasks-Inv b l v) p) in
    if-Gives (l.need_task_refresh && is_long_running t) _ (run_switch b t l) cut uncut l' e

IsUnique-tail : (t : Task) (ts : List Task) → IsUnique (t ∷ ts) → IsUnique ts
IsUnique-tail t ts u x k = ground (arith, u x k)

IsOrdered-tail : (t : Task) (ts : List Task) → IsOrdered (t ∷ ts) → IsOrdered ts
IsOrdered-tail t ts (inl (l, ls)) = long-IsOrdered ts ls
IsOrdered-tail t ts (inr (s, o)) = o

pub pop_task-Inv :
    (t : Task) (ts : List Task) (l : Loop)
    → l.worker.tasks ≡ t ∷ ts
    → Inv l
    → Inv (pop_task (t ∷ ts) l)
unfolding pop_task
pop_task-Inv t ts l e v =
    let ordered = IsOrdered-tail t ts (rw e at v.ordered) in
    let unique = IsUnique-tail t ts (rw e at v.unique) in
    elim (Bool-cases (is_long_running t && not l.worker.run)) [
      | inl skipped ↦
          rw (skipped, pop_task)
            (record { announced = v.announced; ordered = ordered; unique = unique })
      | inr kept ↦
          rw (kept, pop_task)
            (record { announced = v.announced; ordered = ordered; unique = unique })
    ]
