-- ===== src/Notifier/Tests.antt =====
-- Runs of the notifier.
use medialibrary.Common.{ℕ, zero, suc, ◌≡◌, refl, true, List, [], ◌∷◌, ◌++◌, arith}
use medialibrary.Notifier.{
  creation, removal, adds, falls_asleep, Notifier, idle, notify_change, check_queue, send, advance,
  Event, notifies, advances, step, run, insert_id,
}
use medialibrary.Notifier.Kept.{sent, created, run-total}
use medialibrary.Notifier.Lost.{run-lost}
use medialibrary.Notifier.Woken.{run-woken}

-- Steps of the thread, before some events.
abbrev ticks : ℕ → ℕ → List Event → List Event
ticks zero now es = es
ticks (suc n) now es = advances now ∷ ticks n now es

-- Two media are created, and another one while they are sent.
abbrev batch : List Event
batch = ticks 2 1 (
    notifies 0 (creation 7) 500
    ∷ notifies 0 (creation 8) 501
    ∷ ticks 2 502 (ticks 3 1502 (notifies 0 (creation 9) 1503 ∷ ticks 9 1504 [])))

batch_test : (run batch idle).calls ≡ adds 0 (7 ∷ 8 ∷ []) ∷ []
unfolding run step notify_change advance check_queue send insert_id
batch_test = refl

run-total_example :
    sent 0 (run batch idle).calls
      ++ (((run batch idle).outputs 0).added ++ ((run batch idle).queues 0).added)
    ≡ created 0 batch
run-total_example = run-total 0 batch (omega arith)

-- The thread is between the test and the sleep.
abbrev falling : Notifier
falling = record idle { phase = falls_asleep }

run-lost_example :
    (run
      (notifies 0 (creation 7) 1
        ∷ ticks 2 9000 (notifies 0 (creation 8) 9001 ∷ advances 20000 ∷ []))
      falling).calls
    ≡ []
run-lost_example =
    run-lost 0 (creation 7) 1 falling
      (ticks 2 9000 (notifies 0 (creation 8) 9001 ∷ advances 20000 ∷ [])) refl
      (refl, (refl, (refl, (refl, tt))))

run-woken_example :
    (run (ticks 1 1 (notifies 3 (removal 7) 2 ∷ advances 3 ∷ [])) idle).wake_up_scheduled ≡ true
unfolding run step notify_change advance insert_id
run-woken_example =
    run-woken 3 (ticks 1 1 (notifies 3 (removal 7) 2 ∷ advances 3 ∷ [])) (omega arith) refl
      (λ e. omega (arith, e))
