-- ===== src/Notifier/Kept.antt =====
-- The notifications of created entities are sent once each, in their order.
use medialibrary.Common.{
  ℕ, ◌≤◌, ◌==◌, ◌≡◌, refl, sym, ap, ◌∙◌, if◌then◌else◌, Bool, true, false, List, [], ◌∷◌, ◌++◌,
  append-nil, append_assoc, arith, Bool-cases, inl, inr,
}
use medialibrary.Notifier.{
  Queue, no_queue, notified, Change, creation, modification, removal, Call, adds, modifies, removes,
  Phase, tests, falls_asleep, sleeps, waits, checks, Notifier, idle, notify_change, check_queue,
  notify, notify_each, send, advance, Event, notifies, flushes, wakes_up, advances, step, run,
}
use medialibrary.Notifier.Free.{member, AreDistinct, IsFree, member_same, member-here, step-IsFree}

-- The entities of the calls of `added` callbacks for a queue.
unfoldable pub sent : ℕ → List Call → List ℕ
sent k [] = []
sent k (adds j ids ∷ cs) = (if j == k then ids else []) ++ sent k cs
sent k (c ∷ cs) = sent k cs

-- The entities that the clients notify as created.
abbrev pub created_by : ℕ → Event → List ℕ
created_by k (notifies j (creation id) now) = if j == k then id ∷ [] else []
created_by k e = []

abbrev pub created : ℕ → List Event → List ℕ
created k [] = []
created k (e ∷ es) = created_by k e ++ created k es

abbrev total : ℕ → Notifier → List ℕ
total k n = sent k n.calls ++ ((n.outputs k).added ++ (n.queues k).added)

sent-append : (k : ℕ) (cs ds : List Call) → sent k (cs ++ ds) ≡ sent k cs ++ sent k ds
unfolding sent
sent-append k [] ds = refl
sent-append k (adds j ids ∷ cs) ds =
    ap (λ xs. (if j == k then ids else []) ++ xs) (sent-append k cs ds)
    ∙ sym (append_assoc (if j == k then ids else []) (sent k cs) (sent k ds))
sent-append k (modifies j ids ∷ cs) ds = sent-append k cs ds
sent-append k (removes j ids ∷ cs) ds = sent-append k cs ds

sent-notify : (k j : ℕ) (q : Queue) → sent k (notify j q) ≡ (if j == k then q.added else [])
unfolding sent
sent-notify k j q = ground (arith, append-nil q.added)

abbrev picked : ℕ → List ℕ → (ℕ → Queue) → List ℕ
picked k [] outputs = []
picked k (j ∷ ks) outputs = (if j == k then (outputs j).added else []) ++ picked k ks outputs

sent-notify_each :
    (k : ℕ) (ks : List ℕ) (outputs : ℕ → Queue)
    → sent k (notify_each ks outputs) ≡ picked k ks outputs
unfolding sent
sent-notify_each k [] outputs = refl
sent-notify_each k (j ∷ ks) outputs =
    sent-append k (notify j (outputs j)) (notify_each ks outputs)
    ∙ rw (sent-notify k j (outputs j), sent-notify_each k ks outputs) refl

picked-member :
    (k : ℕ) (ks : List ℕ) (outputs : ℕ → Queue)
    → AreDistinct ks
    → picked k ks outputs ≡ (if member k ks then (outputs k).added else [])
unfolding member AreDistinct
picked-member k [] outputs d = refl
picked-member k (j ∷ ks) outputs d = elim (Bool-cases (j == k)) [
  | inl e ↦
      let same : j ≡ k = ground (arith, e) in
      let gone : member k ks ≡ false = sym (member_same j k ks same) ∙ d.0 in
      let here : (k == j) ≡ true = ground (arith, e) in
      rw (e, here, picked-member k ks outputs d.1, gone)
        (append-nil (outputs j).added ∙ ap (λ i. (outputs i).added) same)
  | inr e ↦
      let other : (k == j) ≡ false = ground (arith, e) in
      rw (e, other) (picked-member k ks outputs d.1)
]

member-notified : (k : ℕ) → k ≤ 10 → member k notified ≡ true
unfolding member
member-notified k h = ground arith

picked-notified :
    (k : ℕ) (outputs : ℕ → Queue) → k ≤ 10 → picked k notified outputs ≡ (outputs k).added
unfolding AreDistinct member
picked-notified k outputs h =
    picked-member k notified outputs
      (refl, (refl, (refl, (refl, (refl, (refl, (refl, (refl, (refl, (refl, (refl, tt)))))))))))
    ∙ rw (member-notified k h) refl

notify_change-added :
    (k j : ℕ) (c : Change) (now : ℕ) (n : Notifier)
    → ((notify_change j c now n).queues k).added
      ≡ (n.queues k).added ++ created_by k (notifies j c now)
unfolding notify_change
notify_change-added k j (creation id) now n =
    ground (arith, append-nil (n.queues k).added, ap (λ i. (n.queues i).added) {x = k} {y = j})
notify_change-added k j (modification id) now n = ground (arith, append-nil (n.queues k).added)
notify_change-added k j (removal id) now n = ground (arith, append-nil (n.queues k).added)

check_queue-total :
    (k j : ℕ) (ks : List ℕ) (next now : ℕ) (flushing : Bool) (n : Notifier)
    → n.outputs j ≡ no_queue
    → total k (check_queue j ks next now flushing n) ≡ total k n
unfolding check_queue
check_queue-total k j ks next now flushing n e =
    ground (arith, e, append-nil (n.queues j).added, ap (λ q. q.added) e)

advance-total :
    (k now : ℕ) (n : Notifier) (p : Phase)
    → k ≤ 10
    → IsFree (record n { phase = p })
    → total k (advance now (record n { phase = p })) ≡ total k n
unfolding advance send
advance-total k now n tests h v = ground arith
advance-total k now n falls_asleep h v = refl
advance-total k now n sleeps h v = refl
advance-total k now n (waits timeout) h v = ground arith
advance-total k now n (checks [] next start flushing) h v =
    rw
      (
        sent-append k n.calls (notify_each notified n.outputs),
        sent-notify_each k notified n.outputs,
        picked-notified k n.outputs h,
      )
      (append_assoc (sent k n.calls) (n.outputs k).added (n.queues k).added)
advance-total k now n (checks (j ∷ ks) next start flushing) h v =
    check_queue-total k j ks next start flushing
      (record n { phase = checks (j ∷ ks) next start flushing }) (v.free j (member-here j ks))

-- A step keeps what is sent, taken or queued, and a creation adds to its end.
step-total :
    (k : ℕ) (e : Event) (n : Notifier)
    → k ≤ 10
    → IsFree n
    → total k (step e n) ≡ total k n ++ created_by k e
unfolding step notify_change
step-total k (notifies j c now) n h v =
    ap (λ xs. sent k n.calls ++ ((n.outputs k).added ++ xs)) (notify_change-added k j c now n)
    ∙ ap (λ xs. sent k n.calls ++ xs)
        (sym
          (append_assoc (n.outputs k).added (n.queues k).added (created_by k (notifies j c now))))
    ∙ sym (
        append_assoc (sent k n.calls) ((n.outputs k).added ++ (n.queues k).added)
          (created_by k (notifies j c now)))
step-total k flushes n h v = sym (append-nil (total k n))
step-total k wakes_up n h v = sym (append-nil (total k n))
step-total k (advances now) n h v = advance-total k now n n.phase h v ∙ sym (append-nil (total k n))

run_from-total :
    (k : ℕ) (es : List Event) (n : Notifier)
    → k ≤ 10
    → IsFree n
    → total k (run es n) ≡ total k n ++ created k es
unfolding run
run_from-total k [] n h v = sym (append-nil (total k n))
run_from-total k (e ∷ es) n h v =
    run_from-total k es (step e n) h (step-IsFree e n v)
    ∙ ap (λ xs. xs ++ created k es) (step-total k e n h v)
    ∙ append_assoc (total k n) (created_by k e) (created k es)

-- At any moment, the calls of an `added` callback, with what the thread has taken and what is queued
-- behind them, name the entities of that kind that were notified as created: each once, in order.
pub run-total :
    (k : ℕ) (es : List Event)
    → k ≤ 10
    → let n = run es idle in
      sent k n.calls ++ ((n.outputs k).added ++ (n.queues k).added) ≡ created k es
unfolding sent run AreDistinct
run-total k es h = run_from-total k es idle h (record { free = λ j e. refl; distinct = tt })
