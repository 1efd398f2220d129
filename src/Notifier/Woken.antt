-- ===== src/Notifier/Woken.antt =====
-- The flag of the scheduled wake-up covers every queue that is left with something to send.
use medialibrary.Common.{
  ℕ, ◌≤◌, ◌==◌, leb, ◌≡◌, ◌≢◌, refl, sym, ap, subst, if◌then◌else◌, Bool, true, false, not, ◌||◌,
  List, [], ◌∷◌, arith, Bool-cases, inl, inr,
}
use medialibrary.Notifier.{
  no_queue, checked, Phase, tests, falls_asleep, sleeps, waits, checks, Notifier, idle, notify_all,
  notify_change, check_queue, send, advance, Event, notifies, flushes, wakes_up, advances, step,
  run,
}
use medialibrary.Notifier.Free.{IsFree, AreDistinct, member, step-IsFree}

-- The thread waits for a wake-up, and not for a time-out.
abbrev pub is_resting : Phase → Bool
is_resting tests = true
is_resting falls_asleep = true
is_resting sleeps = true
is_resting p = false

-- What will make the thread look at a queue.
abbrev is_covered : ℕ → Phase → Bool → Bool
is_covered k (waits timeout) scheduled = true
is_covered k (checks ks next start flushing) scheduled =
    member k ks || (scheduled || not (next == 0))
is_covered k p scheduled = scheduled

abbrev IsWatched : ℕ → Notifier → Type 0
IsWatched k n = ((n.queues k).timeout == 0 || is_covered k n.phase n.wake_up_scheduled) ≡ true

notify_all-covered :
    (k : ℕ) (p : Phase) (scheduled : Bool)
    → is_covered k (notify_all p) scheduled ≡ is_covered k p scheduled
notify_all-covered k sleeps scheduled = refl
notify_all-covered k p scheduled = refl

covered-scheduled : (k : ℕ) (p : Phase) → is_covered k p true ≡ true
covered-scheduled k (checks ks next start flushing) = ground arith
covered-scheduled k tests = refl
covered-scheduled k falls_asleep = refl
covered-scheduled k sleeps = refl
covered-scheduled k (waits timeout) = refl

check_own_queue-IsWatched :
    (j : ℕ) (ks : List ℕ) (next now : ℕ) (flushing : Bool) (n : Notifier)
    → n.outputs j ≡ no_queue
    → IsWatched j (check_queue j ks next now flushing n)
unfolding check_queue
check_own_queue-IsWatched j ks next now flushing n e = ground (arith, ap (λ q. q.timeout) e)

check_queue-IsWatched :
    (k j : ℕ) (ks : List ℕ) (next now : ℕ) (flushing : Bool) (n : Notifier)
    → n.outputs j ≡ no_queue
    → IsWatched k (record n { phase = checks (j ∷ ks) next now flushing })
    → IsWatched k (check_queue j ks next now flushing n)
unfolding check_queue member
check_queue-IsWatched k j ks next now flushing n e v = elim (Bool-cases (k == j)) [
  | inl same ↦
      let here : k ≡ j = ground (arith, same) in
      subst (λ i. IsWatched i (check_queue j ks next now flushing n)) (sym here)
        (check_own_queue-IsWatched j ks next now flushing n e)
  | inr other ↦ ground (arith, v, other)
]

advance-IsWatched :
    (k now : ℕ) (n : Notifier) (p : Phase)
    → member k checked ≡ true
    → IsFree (record n { phase = p })
    → IsWatched k (record n { phase = p })
    → IsWatched k (advance now (record n { phase = p }))
unfolding advance send member
advance-IsWatched k now n tests h f v = ground (arith, v)
advance-IsWatched k now n falls_asleep h f v = v
advance-IsWatched k now n sleeps h f v = v
advance-IsWatched k now n (waits timeout) h f v =
    elim (Bool-cases (leb timeout now || n.flushing)) [
      | inl e ↦ rw (e, h) (ground arith)
      | inr e ↦ rw e v
    ]
advance-IsWatched k now n (checks [] next start flushing) h f v = ground (arith, v)
advance-IsWatched k now n (checks (j ∷ ks) next start flushing) h f v =
    check_queue-IsWatched k j ks next start flushing
      (record n { phase = checks (j ∷ ks) next start flushing }) (f.free j (ground arith)) v

step-IsWatched :
    (k : ℕ) (e : Event) (n : Notifier)
    → member k checked ≡ true
    → IsFree n
    → IsWatched k n
    → IsWatched k (step e n)
unfolding step notify_change
step-IsWatched k (notifies j c now) n h f v =
    rw (covered-scheduled k (if n.wake_up_scheduled then n.phase else notify_all n.phase))
      (ground arith)
step-IsWatched k flushes n h f v = rw (notify_all-covered k n.phase n.wake_up_scheduled) v
step-IsWatched k wakes_up n h f v = rw (notify_all-covered k n.phase n.wake_up_scheduled) v
step-IsWatched k (advances now) n h f v = advance-IsWatched k now n n.phase h f v

run-IsWatched :
    (k : ℕ) (es : List Event) (n : Notifier)
    → member k checked ≡ true
    → IsFree n
    → IsWatched k n
    → IsWatched k (run es n)
unfolding run
run-IsWatched k [] n h f v = v
run-IsWatched k (e ∷ es) n h f v =
    run-IsWatched k es (step e n) h (step-IsFree e n f) (step-IsWatched k e n h f v)

member-checked : (k : ℕ) → k ≤ 9 → member k checked ≡ true
unfolding member
member-checked k h = ground arith

resting-covered :
    (k : ℕ) (p : Phase) (scheduled : Bool)
    → is_resting p ≡ true
    → is_covered k p scheduled ≡ true
    → scheduled ≡ true
resting-covered k tests scheduled r e = e
resting-covered k falls_asleep scheduled r e = e
resting-covered k sleeps scheduled r e = e
resting-covered k (waits timeout) scheduled r e = absurd (ground (arith, r))
resting-covered k (checks ks next start flushing) scheduled r e = absurd (ground (arith, r))

-- Whenever the thread waits for a wake-up while one of the queues up to the ninth, which are all but that
-- of the new media of subscriptions, has a time-out, a wake-up is scheduled: the condition of the wait
-- holds.
pub run-woken :
    (k : ℕ) (es : List Event)
    → k ≤ 9
    → is_resting (run es idle).phase ≡ true
    → ((run es idle).queues k).timeout ≢ 0
    → (run es idle).wake_up_scheduled ≡ true
unfolding run AreDistinct
run-woken k es h r t =
    let n = run es idle in
    let watched =
      run-IsWatched k es idle (member-checked k h) (record { free = λ j e. refl; distinct = tt })
        refl in
    resting-covered k n.phase n.wake_up_scheduled r (ground (arith, watched, t))
