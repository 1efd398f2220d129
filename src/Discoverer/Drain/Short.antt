-- ===== src/Discoverer/Drain/Short.antt =====
-- What the run of a short task leaves of a stopped worker.
use medialibrary.Common.{
  ℕ, ◌+◌, ◌≤◌, ◌≡◌, ◌≢◌, refl, sym, ap, ◌∙◌, Bool, true, false, Option, none, some, List, [], ◌∷◌,
  ◌++◌, Bytes, keep, keep-append, length, length-append, append-nil, arith, inl, inr, Option-cases,
}
use medialibrary.Filename.{parent_directory}
use medialibrary.Filename.Folders.{to_folder_path_lem}
use medialibrary.Discoverer.{
  TaskType, reload, remove, ban, unban, reload_device, add_root, Task, is_long_running, type_eq,
  filter_as, insert_task, wake, enqueue, root_task,
}
use medialibrary.Discoverer.Fifo.{is_short}
use medialibrary.Discoverer.Loop.{
  Backend, Event, discovery_failed, root_removed, root_banned, root_unbanned, root_added, reloads,
  runs, Loop, emit, with_worker, run_reload, run_remove, run_ban, run_unban, reload_roots,
  run_reload_device, run_add_root, run_type, run_switch, run_task, end_turn,
}

-- The tasks that the thread ran, in order.
abbrev pub ran : List Event → List Task
ran [] = []
ran (runs t ∷ es) = t ∷ ran es
ran (_ ∷ es) = ran es

abbrev is_run : Event → Bool
is_run (runs t) = true
is_run _ = false

pub ran-append : (xs ys : List Event) → ran (xs ++ ys) ≡ ran xs ++ ran ys
ran-append [] ys = refl
ran-append (runs t ∷ xs) ys = ap (◌∷◌ t) (ran-append xs ys)
ran-append (_ ∷ xs) ys = ran-append xs ys

-- From `l` to `m` the thread stays stopped, its short tasks are the same, `done` are the tasks
-- that it ran, and at most `k` reloads were queued.
pub record Like (done : List Task) (k : ℕ) (l m : Loop) : Type 0 where
  pub run_eq : m.worker.run ≡ l.worker.run
  pub started_eq : m.worker.started ≡ l.worker.started
  pub waiting_eq : m.waiting ≡ l.waiting
  pub ran_eq : ran m.log ≡ ran l.log ++ done
  pub short_eq : keep is_short m.worker.tasks ≡ keep is_short l.worker.tasks
  pub length_le : length m.worker.tasks ≤ length l.worker.tasks + k

Like-refl : (l : Loop) → Like [] 0 l l
Like-refl l = record {
  run_eq = refl;
  started_eq = refl;
  waiting_eq = refl;
  ran_eq = sym (append-nil (ran l.log));
  short_eq = refl;
  length_le = omega arith;
}

ran-quiet : (e : Event) → is_run e ≡ false → ran (e ∷ []) ≡ []
ran-quiet (runs t) q = cc
ran-quiet _ q = refl

emit-Like :
    (e : Event) {done : List Task} {k : ℕ} (l m : Loop)
    → is_run e ≡ false
    → Like done k l m
    → Like done k l (emit e m)
emit-Like e l m q v = record {
  run_eq = v.run_eq;
  started_eq = v.started_eq;
  waiting_eq = v.waiting_eq;
  ran_eq =
      ran-append m.log (e ∷ [])
      ∙ ap (◌++◌ (ran m.log)) (ran-quiet e q)
      ∙ append-nil (ran m.log)
      ∙ v.ran_eq;
  short_eq = v.short_eq;
  length_le = v.length_le;
}

run_reload-Like :
    (b : Backend) (root : Bytes) {done : List Task} {k : ℕ} (l m : Loop)
    → Like done k l m
    → Like done k l (run_reload b root m)
unfolding run_reload
run_reload-Like b [] l m v = emit-Like (reloads []) l m refl v
run_reload-Like b (c ∷ root) l m v =
    let called = emit-Like (reloads (c ∷ root)) l m refl v in
    ground (arith, called, emit-Like (discovery_failed (c ∷ root)) l _ refl called)

reload_roots-Like :
    (b : Backend) (roots : List (Option Bytes)) {done : List Task} {k : ℕ} (l m : Loop)
    → Like done k l m
    → Like done k l (reload_roots b roots m)
unfolding reload_roots
reload_roots-Like b [] l m v = v
reload_roots-Like b (none ∷ roots) l m v = reload_roots-Like b roots l m v
reload_roots-Like b (some mrl ∷ roots) l m v =
    reload_roots-Like b roots l (run_reload b mrl m) (run_reload-Like b mrl l m v)

-- A reload that a started worker queues.
enqueue_reload-Like :
    (root : Bytes) {done : List Task} (l m : Loop)
    → m.worker.started ≡ true
    → Like done 0 l m
    → Like done 1 l (with_worker (enqueue (root_task root reload) m.worker) m)
unfolding enqueue filter_as insert_task wake
enqueue_reload-Like root l m s v = ground (
  arith,
  keep-append is_short m.worker.tasks (root_task root reload ∷ []),
  append-nil (keep is_short m.worker.tasks),
  length-append m.worker.tasks (root_task root reload ∷ []),
)

-- What running the task `t` may do to a stopped worker.
abbrev RunsLike : Task → Loop → Option Loop → Type 0
RunsLike t l none = ⊥
RunsLike t l (some m) = Like (t ∷ []) 1 l m

more-Like : {done : List Task} (l m : Loop) → Like done 0 l m → Like done 1 l m
more-Like l m v = record {
  run_eq = v.run_eq;
  started_eq = v.started_eq;
  waiting_eq = v.waiting_eq;
  ran_eq = v.ran_eq;
  short_eq = v.short_eq;
  length_le = omega (arith, v.length_le);
}

flag-Like :
    (f : Bool) {done : List Task} {k : ℕ} (l m : Loop)
    → Like done k l m
    → Like done k l (record m { need_task_refresh = f })
flag-Like f l m v = record {
  run_eq = v.run_eq;
  started_eq = v.started_eq;
  waiting_eq = v.waiting_eq;
  ran_eq = v.ran_eq;
  short_eq = v.short_eq;
  length_le = v.length_le;
}

run_remove-Like :
    (b : Backend) (t : Task) (l m : Loop)
    → t.root ≢ []
    → Like (t ∷ []) 0 l m
    → RunsLike t l (run_remove b t.root m)
unfolding run_remove
run_remove-Like b t l m r v =
    let (folder, e, _, _) = to_folder_path_lem t.root r in
    ground (
      arith,
      e,
      more-Like l _ (emit-Like (root_removed t.root (b.removes_folder folder)) l m refl v),
      more-Like l _ (emit-Like (root_removed t.root false) l m refl v),
    )

run_unban-Like :
    (b : Backend) (root : Bytes) {done : List Task} (l m : Loop)
    → m.worker.started ≡ true
    → Like done 0 l m
    → Like done 1 l (run_unban b root m)
unfolding run_unban
run_unban-Like b root l m s v =
    let event = root_unbanned root (b.unbans_folder root) in
    ground (
      arith,
      enqueue_reload-Like (parent_directory root) l (emit event m) s (emit-Like event l m refl v),
      more-Like l _ (emit-Like (root_unbanned root false) l m refl v),
    )

run_reload_device-Like :
    (b : Backend) (id : ℕ) {done : List Task} {k : ℕ} (l m : Loop)
    → Like done k l m
    → Like done k l (run_reload_device b id m)
unfolding run_reload_device
run_reload_device-Like b id l m v = elim (Option-cases (b.device_roots id)) [
  | inl e ↦ rw (e, run_reload_device) v
  | inr (roots, e) ↦ rw (e, run_reload_device) (reload_roots-Like b roots l m v)
]

run_type-Like :
    (type : TaskType) (b : Backend) (t : Task) (l m : Loop)
    → type_eq type reload ≡ false
    → (type ≡ remove → t.root ≢ [])
    → m.worker.started ≡ true
    → Like (t ∷ []) 0 l m
    → RunsLike t l (run_type type b t m)
unfolding run_type run_ban run_add_root
run_type-Like reload b t l m s r st v = cc
run_type-Like remove b t l m s r st v = elim (Option-cases (run_remove b t.root m)) [
  | inl e ↦ absurd (rw e at (run_remove-Like b t l m (r refl) v))
  | inr (n, e) ↦
      rw (e, run_type) (flag-Like true l n (rw e at (run_remove-Like b t l m (r refl) v)))
]
run_type-Like ban b t l m s r st v =
    flag-Like true l _
      (more-Like l _ (emit-Like (root_banned t.root (b.bans_folder t.root)) l m refl v))
run_type-Like unban b t l m s r st v = run_unban-Like b t.root l m st v
run_type-Like reload_device b t l m s r st v =
    flag-Like true l _ (more-Like l _ (run_reload_device-Like b t.entity_id l m v))
run_type-Like add_root b t l m s r st v =
    more-Like l _ (emit-Like (root_added t.root (b.discoverer_adds t.root)) l m refl v)

runs-Like : (t : Task) (l : Loop) → Like (t ∷ []) 0 l (emit (runs t) l)
runs-Like t l = record {
  run_eq = refl;
  started_eq = refl;
  waiting_eq = refl;
  ran_eq = ran-append l.log (runs t ∷ []);
  short_eq = refl;
  length_le = omega arith;
}

end_turn-Like :
    {done : List Task} {k : ℕ} (l m : Loop) → Like done k l m → Like done k l (end_turn m)
end_turn-Like l m v = record {
  run_eq = v.run_eq;
  started_eq = v.started_eq;
  waiting_eq = v.waiting_eq;
  ran_eq = v.ran_eq;
  short_eq = v.short_eq;
  length_le = v.length_le;
}

-- A short task of a started worker is run, and its turn ends.
pub run_task-Like :
    (b : Backend) (t : Task) (l : Loop)
    → is_long_running t ≡ false
    → (t.type ≡ remove → t.root ≢ [])
    → l.worker.started ≡ true
    → (m : Loop) × (run_task b t l ≡ some m) × (m.worker.current_task ≡ none) × Like (t ∷ []) 1 l m
unfolding run_task run_switch
run_task-Like b t l s r st =
    let like = run_type-Like t.type b t l (emit (runs t) l) s r st (runs-Like t l) in
    elim (Option-cases (run_type t.type b t (emit (runs t) l))) [
      | inl e ↦ absurd (rw e at like)
      | inr (m, e) ↦ (end_turn m, ground (arith, s, e), refl, end_turn-Like l m (rw e at like))
    ]
