-- ===== src/Parser/Queue.antt =====
-- ParserWorker: what the thread takes from its queue, and what the worker says of itself.
use medialibrary.Common.{
  ℕ, zero, suc, ◌≡◌, refl, sym, ap, ◌∙◌, if◌then◌else◌, Bool, true, false, List, [], ◌∷◌, ◌++◌,
  append-nil, append_assoc, length, arith, map, All, All-append, Bool-cases, if-either, inl, inr,
  ◌⊎◌, ◌&&◌,
}
use medialibrary.Parser.Worker.{
  Worker, parse_all, pause, resume, flush, signal_stop, enter_loop, set_idle, Take, leaves, waits,
  takes, arrive, wake_up, take_task,
}

-- What clients do, the thread's entry into the loop, and its coming to the locked block or being
-- notified in it.
pub data Action (A : Type 0) : Type 0 where
  queues : List A → Action A
  pauses resumes flushes stops thread_enters thread_runs : Action A

-- How a task leaves the queue.
pub data Out (A : Type 0) : Type 0 where
  taken dropped : A → Out A

module _ {A : Type 0} where
  abbrev pub task_of : Out A → A
  task_of (taken t) = t
  task_of (dropped t) = t

  abbrev pub is_taken : Out A → Bool
  is_taken (taken t) = true
  is_taken (dropped t) = false

  abbrev pub take_result : Take A → List (Out A) × Worker A
  take_result (leaves w) = ([], w)
  take_result (waits w) = ([], w)
  take_result (takes t w) = (taken t ∷ [], w)

  -- The tasks that leave the queue, in order, and the worker behind the action.
  unfoldable pub act : Action A → Worker A → List (Out A) × Worker A
  act (queues ts) w = ([], parse_all ts w)
  act pauses w = ([], pause w)
  act resumes w = ([], resume w)
  act flushes w = (map dropped w.tasks, flush w)
  act stops w = ([], signal_stop w)
  act thread_enters w = ([], enter_loop w)
  act thread_runs w = take_result (take_task w)

  unfoldable pub act_all : List (Action A) → Worker A → List (Out A) × Worker A
  act_all [] w = ([], w)
  act_all (a ∷ acts) w =
      let (out, w') = act a w in let (more, last) = act_all acts w' in (out ++ more, last)

  abbrev pub queued : List (Action A) → List A
  queued [] = []
  queued (queues ts ∷ acts) = ts ++ queued acts
  queued (_ ∷ acts) = queued acts

  abbrev pub queued_by : Action A → List A
  queued_by (queues ts) = ts
  queued_by _ = []

  -- A block that is entered with the tasks `ts` splits them into the one taken and the others.
  abbrev Splits : List A → Take A → Type 0
  Splits ts r = map task_of (take_result r).0 ++ (take_result r).1.tasks ≡ ts

  arrive-Splits : (ts : List A) (w : Worker A) → w.tasks ≡ ts → Splits ts (arrive ts w)
  unfolding arrive
  arrive-Splits [] w e = ground (arith, e)
  arrive-Splits (t ∷ ts) w e = ground (arith, e)

  wake_up-Splits : (ts : List A) (w : Worker A) → w.tasks ≡ ts → Splits ts (wake_up ts w)
  unfolding wake_up
  wake_up-Splits [] w e = ground (arith, e)
  wake_up-Splits (t ∷ ts) w e = ground (arith, e)

  take_task-Splits : (w : Worker A) → Splits w.tasks (take_task w)
  unfolding take_task
  take_task-Splits w = ground (arith, arrive-Splits w.tasks w refl, wake_up-Splits w.tasks w refl)

  parse_all-tasks : (ts : List A) (w : Worker A) → (parse_all ts w).tasks ≡ w.tasks ++ ts
  unfolding parse_all
  parse_all-tasks ts w = ground arith

  map-dropped : (ts : List A) → map task_of (map dropped ts) ≡ ts
  map-dropped [] = refl
  map-dropped (t ∷ ts) = ap (◌∷◌ t) (map-dropped ts)

  act-tasks :
      (a : Action A) (w : Worker A)
      → map task_of (act a w).0 ++ (act a w).1.tasks ≡ w.tasks ++ queued_by a
  unfolding act
  act-tasks (queues ts) w = parse_all-tasks ts w
  act-tasks pauses w = sym (append-nil w.tasks)
  act-tasks resumes w = sym (append-nil w.tasks)
  act-tasks flushes w = ap (λ ts. ts ++ []) (map-dropped w.tasks)
  act-tasks stops w = sym (append-nil w.tasks)
  act-tasks thread_enters w = sym (append-nil w.tasks)
  act-tasks thread_runs w = take_task-Splits w ∙ sym (append-nil w.tasks)

  queued-cons :
      (a : Action A) (acts : List (Action A)) → queued (a ∷ acts) ≡ queued_by a ++ queued acts
  queued-cons (queues ts) acts = refl
  queued-cons _ acts = refl

  map-append :
      (outs more : List (Out A)) → map task_of (outs ++ more) ≡ map task_of outs ++ map task_of more
  map-append [] more = refl
  map-append (o ∷ outs) more = ap (◌∷◌ (task_of o)) (map-append outs more)

  act_all-tasks :
      (acts : List (Action A)) (w : Worker A)
      → map task_of (act_all acts w).0 ++ (act_all acts w).1.tasks ≡ w.tasks ++ queued acts
  unfolding act_all
  act_all-tasks [] w = sym (append-nil w.tasks)
  act_all-tasks (a ∷ acts) w =
      let w' = (act a w).1 in
      let ih = act_all-tasks acts w' in
      let here = act-tasks a w in
      rw (queued-cons, map-append (act a w).0 (act_all acts w').0)
        (append_assoc (map task_of (act a w).0) (map task_of (act_all acts w').0)
            (act_all acts w').1.tasks
          ∙ ap (λ xs. map task_of (act a w).0 ++ xs) ih
          ∙ sym (append_assoc (map task_of (act a w).0) w'.tasks (queued acts))
          ∙ ap (λ xs. xs ++ queued acts) here
          ∙ append_assoc w.tasks (queued_by a) (queued acts))

  abbrev pub is_unflushed : List (Action A) → Bool
  is_unflushed [] = true
  is_unflushed (flushes ∷ acts) = false
  is_unflushed (_ ∷ acts) = is_unflushed acts

  abbrev OnlyTakes : Take A → Type 0
  OnlyTakes r = All (λ o. is_taken o ≡ true) (take_result r).0

  arrive-OnlyTakes : (ts : List A) (w : Worker A) → OnlyTakes (arrive ts w)
  unfolding arrive
  arrive-OnlyTakes [] w = tt
  arrive-OnlyTakes (t ∷ ts) w = if-either OnlyTakes w.paused _ _ tt (refl, tt)

  wake_up-OnlyTakes : (ts : List A) (w : Worker A) → OnlyTakes (wake_up ts w)
  unfolding wake_up
  wake_up-OnlyTakes [] w = tt
  wake_up-OnlyTakes (t ∷ ts) w = if-either OnlyTakes w.paused _ _ tt (refl, tt)

  take_task-OnlyTakes : (w : Worker A) → OnlyTakes (take_task w)
  unfolding take_task
  take_task-OnlyTakes w =
      if-either OnlyTakes w.stop_parser _ _ tt (
        if-either OnlyTakes w.waiting _ _ (wake_up-OnlyTakes w.tasks w)
          (arrive-OnlyTakes w.tasks w))

  act-taken :
      (a : Action A) (w : Worker A)
      → is_unflushed (a ∷ []) ≡ true
      → All (λ o. is_taken o ≡ true) (act a w).0
  unfolding act
  act-taken (queues ts) w u = tt
  act-taken pauses w u = tt
  act-taken resumes w u = tt
  act-taken flushes w u = cc
  act-taken stops w u = tt
  act-taken thread_enters w u = tt
  act-taken thread_runs w u = take_task-OnlyTakes w

  is_unflushed-cons :
      (a : Action A) (acts : List (Action A))
      → is_unflushed (a ∷ acts) ≡ is_unflushed (a ∷ []) && is_unflushed acts
  is_unflushed-cons flushes acts = refl
  is_unflushed-cons _ acts = refl

  act_all-taken :
      (acts : List (Action A)) (w : Worker A)
      → is_unflushed acts ≡ true
      → All (λ o. is_taken o ≡ true) (act_all acts w).0
  unfolding act_all
  act_all-taken [] w u = tt
  act_all-taken (a ∷ acts) w u =
      let both = is_unflushed-cons a acts in
      All-append (λ o. is_taken o ≡ true) (act a w).0 (act_all acts (act a w).1).0
        (act_all-taken acts (act a w).1 (ground (arith, both, u)))
        (act-taken a w (ground (arith, both, u)))

  -- Whatever the clients do, pauses, flushes and a stop included, and however often the thread runs: the
  -- tasks that left the queue, followed by those that wait, are those that waited at first, followed by
  -- those that were queued, in order. Where nobody flushes the queue, the thread took all that left.
  pub act_all_fifo :
      (acts : List (Action A)) (w : Worker A)
      → (map task_of (act_all acts w).0 ++ (act_all acts w).1.tasks ≡ w.tasks ++ queued acts)
        × ((is_unflushed acts ≡ false) ⊎ All (λ o. is_taken o ≡ true) (act_all acts w).0)
  act_all_fifo acts w = (
    act_all-tasks acts w,
    elim (Bool-cases (is_unflushed acts)) [ inl u ↦ inr (act_all-taken acts w u) | inr u ↦ inl u ],
  )

  abbrev pub runs_thread : ℕ → List (Action A)
  runs_thread zero = []
  runs_thread (suc n) = thread_runs ∷ runs_thread n

  take_task-cons :
      (t : A) (ts : List A) (w : Worker A)
      → w.tasks ≡ t ∷ ts
      → w.stop_parser ≡ false
      → w.paused ≡ false
      → (w' : Worker A) × (take_task w ≡ takes t w')
        × (w'.tasks ≡ ts)
        × (w'.stop_parser ≡ false)
        × (w'.paused ≡ false)
  unfolding take_task wake_up arrive
  take_task-cons t ts w e s p =
      let awake = if w.waiting then set_idle false w else w in
      (
        record awake { tasks = ts; waiting = false },
        ground (arith, e),
        refl,
        ground arith,
        ground arith,
      )

  -- A worker that is neither stopped nor paused takes all its tasks, in order, in as many turns.
  pub act_all-runs_thread :
      (ts : List A) (w : Worker A)
      → w.tasks ≡ ts
      → w.stop_parser ≡ false
      → w.paused ≡ false
      → (act_all (runs_thread (length ts)) w).0 ≡ map taken ts
  unfolding act_all act
  act_all-runs_thread [] w e s p = refl
  act_all-runs_thread (t ∷ ts) w e s p =
      let (w', r, e', s', p') = take_task-cons t ts w e s p in
      rw r (ap (◌∷◌ (taken t)) (act_all-runs_thread ts w' e' s' p'))

  -- No client pauses or stops the worker.
  abbrev pub is_unpaused : List (Action A) → Bool
  is_unpaused [] = true
  is_unpaused (pauses ∷ acts) = false
  is_unpaused (stops ∷ acts) = false
  is_unpaused (_ ∷ acts) = is_unpaused acts

  -- The worker runs, is not paused, and has no task left when it says that it is idle.
  pub record IsHonest (w : Worker A) : Type 0 where
    pub running : w.stop_parser ≡ false
    pub unpaused : w.paused ≡ false
    pub empty : w.idle ≡ true → w.tasks ≡ []

  abbrev pub TakesBusy : Take A → Type 0
  TakesBusy (leaves w) = ⊥
  TakesBusy (waits w) = IsHonest w
  TakesBusy (takes t w) = IsHonest w × (w.idle ≡ false)

  take_task-TakesBusy :
      (ts : List A) (w : Worker A) → w.tasks ≡ ts → IsHonest w → TakesBusy (take_task w)
  unfolding take_task wake_up arrive
  take_task-TakesBusy [] w e h = ground (arith, e)
  take_task-TakesBusy (t ∷ ts) w e h = ground (arith, e)

  act-IsHonest :
      (a : Action A) (w : Worker A)
      → is_unpaused (a ∷ []) ≡ true
      → IsHonest w
      → IsHonest (act a w).1
  unfolding act parse_all
  act-IsHonest (queues ts) w u h = ground (arith)
  act-IsHonest pauses w u h = cc
  act-IsHonest resumes w u h = record { running = h.running; unpaused = refl; empty = h.empty }
  act-IsHonest flushes w u h = record {
    running = h.running;
    unpaused = h.unpaused;
    empty = λ e. refl;
  }
  act-IsHonest stops w u h = cc
  act-IsHonest thread_enters w u h = record {
    running = h.running;
    unpaused = h.unpaused;
    empty = h.empty;
  }
  act-IsHonest thread_runs w u h = ground (arith, take_task-TakesBusy w.tasks w refl h)

  act_all-IsHonest :
      (acts : List (Action A)) (w : Worker A)
      → is_unpaused acts ≡ true
      → IsHonest w
      → IsHonest (act_all acts w).1
  unfolding act_all
  act_all-IsHonest [] w u h = h
  act_all-IsHonest (queues ts ∷ acts) w u h =
      act_all-IsHonest acts _ u (act-IsHonest (queues ts) w refl h)
  act_all-IsHonest (pauses ∷ acts) w u h = cc
  act_all-IsHonest (stops ∷ acts) w u h = cc
  act_all-IsHonest (flushes ∷ acts) w u h =
      act_all-IsHonest acts _ u (act-IsHonest flushes w refl h)
  act_all-IsHonest (resumes ∷ acts) w u h =
      act_all-IsHonest acts _ u (act-IsHonest resumes w refl h)
  act_all-IsHonest (thread_enters ∷ acts) w u h =
      act_all-IsHonest acts _ u (act-IsHonest thread_enters w refl h)
  act_all-IsHonest (thread_runs ∷ acts) w u h =
      act_all-IsHonest acts _ u (act-IsHonest thread_runs w refl h)

  -- As long as nobody pauses or stops it, a worker that runs is never idle with a task in its queue, and not
  -- when it takes one.
  pub act_all-TakesBusy :
      (acts : List (Action A)) (w : Worker A)
      → is_unpaused acts ≡ true
      → IsHonest w
      → IsHonest (act_all acts w).1 × TakesBusy (take_task (act_all acts w).1)
  act_all-TakesBusy acts w u h =
      let last = act_all-IsHonest acts w u h in
      (last, take_task-TakesBusy _ (act_all acts w).1 refl last)

  -- A pause around the queuing of a task to an idle worker without a thread, that ends before the
  -- thread has come to the block: the thread takes the task and runs out of tasks, and all that the
  -- parser was told is that the worker is not idle.
  pub pause_hides_task :
      (t : A) (w : Worker A)
      → w.stop_parser ≡ false
      → w.started ≡ false
      → w.idle ≡ true
      → w.waiting ≡ false
      → w.tasks ≡ []
      → (w' : Worker A) × (act_all
            (pauses ∷ queues (t ∷ []) ∷ thread_enters ∷ resumes ∷ thread_runs ∷ thread_runs ∷ [])
            w
          ≡ (taken t ∷ [], w'))
        × (w'.tasks ≡ [])
        × (w'.waiting ≡ true)
        × (w'.idle_events ≡ w.idle_events ++ false ∷ [])
  unfolding act_all act parse_all take_task arrive
  pause_hides_task t w s n i f e = (
    (act_all (pauses ∷ queues (t ∷ []) ∷ thread_enters ∷ resumes ∷ thread_runs ∷ thread_runs ∷ [])
        w).1,
    ground (arith, e),
    ground (arith, e),
    ground (arith, e),
    ground (arith, e),
  )
