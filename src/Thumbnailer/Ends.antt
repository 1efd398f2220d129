-- ===== src/Thumbnailer/Ends.antt =====
-- A call of `stop` joins the thread.
use medialibrary.Common.{◌≡◌, refl, Bool, true, false, ◌||◌, List, arith, subst}
use medialibrary.Thumbnailer.{
  Thread, absent, begins, waits, sleeps, left, serves, joins, Worker, Event, stop, take_task,
  advance, run_all,
}
use medialibrary.Thumbnailer.Asleep.{has_none, is_alive, IsAlive, run_all-IsAlive}

no_run :
    (w : Worker) (thread : Thread)
    → is_alive w.run (has_none w.tasks || w.paused) thread joins ≡ true
    → w.run ≡ false
no_run w absent h = ground (arith, h)
no_run w begins h = ground (arith, h)
no_run w waits h = ground (arith, h)
no_run w sleeps h = ground (arith, h)
no_run w left h = ground (arith, h)
no_run w (serves t) h = ground (arith, h)

ends_from :
    (a b c d : Bool) (thread : Thread) (w : Worker)
    → w.thread ≡ thread
    → w.stopping ≡ joins
    → is_alive w.run (has_none w.tasks || w.paused) thread joins ≡ true
    → (stop (advance c d (advance a b w))).thread ≡ absent
unfolding take_task
ends_from a b c d absent w e s h = cc
ends_from a b c d begins w e s h = simp (e, s, no_run w begins h) refl
ends_from a b c d waits w e s h = simp (e, s, no_run w waits h) refl
ends_from a b c d sleeps w e s h = ground (arith, h)
ends_from a b c d left w e s h = simp (e, s) refl
ends_from a b c d (serves t) w e s h = simp (e, s, no_run w (serves t) h) refl

-- Whatever happened before, `stop` joins the thread after two more steps of it at most, whichever task
-- it serves, if a thread that slept at first was alive.
pub run_all-ends :
    (events : List Event) (w : Worker) (a b c d : Bool)
    → IsAlive w
    → (run_all events w).stopping ≡ joins
    → (stop (advance c d (advance a b (run_all events w)))).thread ≡ absent
run_all-ends events w a b c d h s =
    let v = run_all events w in
    ends_from a b c d v.thread v refl s (
      subst (λ x. is_alive v.run (has_none v.tasks || v.paused) v.thread x ≡ true) s
        (run_all-IsAlive events w h))
