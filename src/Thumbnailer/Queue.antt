-- ===== src/Thumbnailer/Queue.antt =====
-- What is in the queue of the thumbnailer.
use medialibrary.Common.{
  ℕ, ◌==◌, ◌≡◌, refl, sym, ap, ◌∙◌, Bool, true, false, not, ◌&&◌, ◌||◌, List, [], ◌∷◌, ◌++◌, map,
  append_assoc, append-nil, subst, arith, Bool-cases, ==-refl, inl, inr,
}
use medialibrary.Thumbnailer.{
  Task, Thread, Stopping, absent, begins, waits, sleeps, left, serves, unasked, flagged, emptied,
  joins, Worker, Event, requests, pauses, resumes, stops, advances, is_queued, erase,
  request_thumbnail, join, stop_from, take_first, take_task, advance_from, step, run_all,
}

abbrev pub are_distinct : List ℕ → Bool
are_distinct [] = true
are_distinct (m ∷ queued) = not (is_queued m queued) && are_distinct queued

-- The set of the queued media is that of the tasks, which are for different media; a task that was
-- accepted is in the queue or has left it, in the order of the requests.
pub record AreKept (tasks : List Task) (queued : List ℕ) (accepted gone : List Task) : Type 0 where
  pub same_media : queued ≡ map (λ (t : Task). t.media) tasks
  pub distinct : are_distinct queued ≡ true
  pub in_order : accepted ≡ gone ++ tasks

abbrev pub IsKept : Worker → Type 0
IsKept w = AreKept w.tasks w.queued_media w.accepted w.gone

map-append :
    (t : Task) (tasks : List Task)
    → map (λ (t : Task). t.media) (tasks ++ t ∷ [])
      ≡ map (λ (t : Task). t.media) tasks ++ t.media ∷ []
map-append t [] = refl
map-append t (u ∷ tasks) = ap (λ m. u.media ∷ m) (map-append t tasks)

queued-append :
    (m n : ℕ) (queued : List ℕ) → is_queued m (queued ++ n ∷ []) ≡ (is_queued m queued || n == m)
queued-append m n [] = ground arith
queued-append m n (q ∷ queued) = ground (arith, queued-append m n queued)

distinct-append :
    (m : ℕ) (queued : List ℕ)
    → is_queued m queued ≡ false
    → are_distinct queued ≡ true
    → are_distinct (queued ++ m ∷ []) ≡ true
distinct-append m [] e d = refl
distinct-append m (q ∷ queued) e d =
    ground (arith, e, d, queued-append q m queued, distinct-append m queued)

request_thumbnail-IsKept : (t : Task) (w : Worker) → IsKept w → IsKept (request_thumbnail t w)
unfolding request_thumbnail
request_thumbnail-IsKept t w k = elim (Bool-cases (is_queued t.media w.queued_media)) [
  | inl e ↦ rw e k
  | inr e ↦ rw e (record {
    same_media = ap (λ q. q ++ t.media ∷ []) k.same_media ∙ sym (map-append t w.tasks);
    distinct = distinct-append t.media w.queued_media e k.distinct;
    in_order = ap (λ a. a ++ t ∷ []) k.in_order ∙ append_assoc w.gone w.tasks (t ∷ []);
  })
]

Kept-empty :
    (queued : List ℕ) (accepted gone tasks : List Task)
    → AreKept tasks queued accepted gone
    → AreKept [] [] accepted (gone ++ tasks)
Kept-empty queued accepted gone tasks k = record {
  same_media = refl;
  distinct = refl;
  in_order = k.in_order ∙ sym (append-nil (gone ++ tasks));
}

front-AreKept :
    (t : Task) (tasks : List Task) (queued : List ℕ) (accepted gone : List Task)
    → AreKept (t ∷ tasks) queued accepted gone
    → AreKept tasks (erase t.media queued) accepted (gone ++ t ∷ [])
front-AreKept t tasks queued accepted gone k =
    let front : erase t.media queued ≡ map (λ (u : Task). u.media) tasks =
      rw (k.same_media, ==-refl t.media) refl in
    record {
      same_media = front;
      distinct =
          rw front (ground (arith, subst (λ q. are_distinct q ≡ true) k.same_media k.distinct));
      in_order = k.in_order ∙ sym (append_assoc gone (t ∷ []) tasks);
    }

take_first-IsKept :
    (tasks : List Task) (w : Worker) → w.tasks ≡ tasks → IsKept w → IsKept (take_first tasks w)
take_first-IsKept [] w e k = k
take_first-IsKept (t ∷ rest) w e k =
    front-AreKept t rest w.queued_media w.accepted w.gone
      (subst (λ x. AreKept x w.queued_media w.accepted w.gone) e k)

take_task-IsKept : (w : Worker) → IsKept w → IsKept (take_task w)
unfolding take_task
take_task-IsKept w k = elim (Bool-cases w.run) [
  | inr r ↦ rw r k
  | inl r ↦ elim (Bool-cases w.paused) [
    | inl p ↦ rw (r, p) k
    | inr p ↦ simp (r, p) (take_first-IsKept w.tasks w refl k)
  ]
]

advance-IsKept :
    (is_found result : Bool) (thread : Thread) (w : Worker)
    → IsKept w
    → IsKept (advance_from is_found result thread w)
advance-IsKept is_found result absent w k = k
advance-IsKept is_found result begins w k = k
advance-IsKept is_found result waits w k = take_task-IsKept w k
advance-IsKept is_found result sleeps w k = take_task-IsKept w k
advance-IsKept is_found result left w k = k
advance-IsKept is_found result (serves t) w k = k

join-IsKept : (thread : Thread) (w : Worker) → IsKept w → IsKept (join thread w)
join-IsKept absent w k = k
join-IsKept begins w k = k
join-IsKept waits w k = k
join-IsKept sleeps w k = k
join-IsKept left w k = k
join-IsKept (serves t) w k = k

stop-IsKept : (stopping : Stopping) (w : Worker) → IsKept w → IsKept (stop_from stopping w)
stop-IsKept unasked w k = elim (Bool-cases w.run) [ inl r ↦ rw r k | inr r ↦ rw r k ]
stop-IsKept flagged w k = Kept-empty w.queued_media w.accepted w.gone w.tasks k
stop-IsKept emptied w k = k
stop-IsKept joins w k = join-IsKept w.thread w k

step-IsKept : (e : Event) (w : Worker) → IsKept w → IsKept (step e w)
unfolding step
step-IsKept (requests t) w k = request_thumbnail-IsKept t w k
step-IsKept pauses w k = k
step-IsKept resumes w k = elim (Bool-cases w.paused) [ inl p ↦ rw p k | inr p ↦ rw p k ]
step-IsKept stops w k = stop-IsKept w.stopping w k
step-IsKept (advances is_found result) w k = advance-IsKept is_found result w.thread w k

-- Whatever the clients and the thread do, in any order, the set of the queued media is that of the tasks,
-- which are for different media, and each accepted task is in the queue or has left it, in the order of
-- the requests, if that is so at first.
pub run_all-IsKept : (events : List Event) (w : Worker) → IsKept w → IsKept (run_all events w)
unfolding run_all
run_all-IsKept [] w k = k
run_all-IsKept (e ∷ events) w k = run_all-IsKept events (step e w) (step-IsKept e w k)
