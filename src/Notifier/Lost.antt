-- ===== src/Notifier/Lost.antt =====
-- The notifications that do not arrive.
use medialibrary.Common.{
  ℕ, ◌==◌, leb, ◌≡◌, refl, sym, subst, ◌∙◌, Bool, true, false, ◌||◌, List, [], ◌∷◌, ◌++◌, All,
  All-append, arith, Bool-cases, inl, inr,
}
use medialibrary.Notifier.{
  Queue, no_queue, subscriptions_media, notified, Change, Call, adds, modifies, removes, Phase,
  tests, falls_asleep, sleeps, waits, checks, Notifier, idle, notify_change, check_queue, when,
  notify, notify_each, send, advance, Event, notifies, flushes, wakes_up, advances, step, run,
}
use medialibrary.Notifier.Free.{member, left_of, notify_all-left}

-- Notifications and the steps of the thread, without a flush and without a spurious wake-up.
abbrev pub is_quiet : Event → Bool
is_quiet (notifies k c now) = true
is_quiet (advances now) = true
is_quiet e = false

abbrev is_down : Phase → Bool
is_down falls_asleep = true
is_down sleeps = true
is_down p = false

record IsStuck (n : Notifier) : Type 0 where
  pub down : is_down n.phase ≡ true
  pub scheduled : n.wake_up_scheduled ≡ true

advance-IsStuck :
    (now : ℕ) (n : Notifier) (p : Phase)
    → IsStuck (record n { phase = p })
    → IsStuck (advance now (record n { phase = p }))
      × ((advance now (record n { phase = p })).calls ≡ n.calls)
unfolding advance
advance-IsStuck now n tests v = absurd (ground (arith, v.down))
advance-IsStuck now n falls_asleep v = (record { down = refl; scheduled = v.scheduled }, refl)
advance-IsStuck now n sleeps v = (v, refl)
advance-IsStuck now n (waits timeout) v = absurd (ground (arith, v.down))
advance-IsStuck now n (checks ks next start flushing) v = absurd (ground (arith, v.down))

step-IsStuck :
    (e : Event) (n : Notifier)
    → is_quiet e ≡ true
    → IsStuck n
    → IsStuck (step e n) × ((step e n).calls ≡ n.calls)
unfolding step notify_change
step-IsStuck (notifies k c now) n h v =
    (record { down = rw v.scheduled v.down; scheduled = refl }, refl)
step-IsStuck (advances now) n h v = advance-IsStuck now n n.phase v
step-IsStuck flushes n h v = absurd (ground (arith, h))
step-IsStuck wakes_up n h v = absurd (ground (arith, h))

run-IsStuck :
    (es : List Event) (n : Notifier)
    → All (λ e. is_quiet e ≡ true) es
    → IsStuck n
    → (run es n).calls ≡ n.calls
unfolding run
run-IsStuck [] n a v = refl
run-IsStuck (e ∷ es) n a v =
    let (stuck, same) = step-IsStuck e n a.0 v in run-IsStuck es (step e n) a.1 stuck ∙ same

falling-IsStuck :
    (k : ℕ) (c : Change) (now : ℕ) (n : Notifier)
    → n.phase ≡ falls_asleep
    → IsStuck (notify_change k c now n)
unfolding notify_change
falling-IsStuck k c now n e = elim (Bool-cases n.wake_up_scheduled) [
  | inl w ↦ record { down = rw (w, e) refl; scheduled = refl }
  | inr w ↦ record { down = rw (w, e) refl; scheduled = refl }
]

-- If a client notifies a change after the thread has tested the condition and before it sleeps, nothing
-- is sent from then on, however many changes follow and however much time passes, as long as nobody
-- flushes and no wake-up is spurious.
pub run-lost :
    (k : ℕ) (c : Change) (now : ℕ) (n : Notifier) (es : List Event)
    → n.phase ≡ falls_asleep
    → All (λ e. is_quiet e ≡ true) es
    → (run (notifies k c now ∷ es) n).calls ≡ n.calls
unfolding run step notify_change
run-lost k c now n es e a = run-IsStuck es (notify_change k c now n) a (falling-IsStuck k c now n e)

abbrev pub queue_of : Call → ℕ
queue_of (adds k ids) = k
queue_of (modifies k ids) = k
queue_of (removes k ids) = k

abbrev pub IsOther : Call → Type 0
IsOther c = (queue_of c == subscriptions_media) ≡ false

record IsSilent (n : Notifier) : Type 0 where
  pub unswapped : n.outputs subscriptions_media ≡ no_queue
  pub unchecked : member subscriptions_media (left_of n.phase) ≡ false
  pub others : All IsOther n.calls

when-IsOther : (ids : List ℕ) (c : Call) → IsOther c → All IsOther (when ids c)
when-IsOther [] c h = tt
when-IsOther (id ∷ ids) c h = (h, tt)

notify-IsOther : (j : ℕ) (q : Queue) → (j == subscriptions_media) ≡ false → All IsOther (notify j q)
notify-IsOther j q h =
    let modifying = when q.modified (modifies j q.modified) in
    let removing = when q.removed (removes j q.removed) in
    All-append IsOther (when q.added (adds j q.added)) (modifying ++ removing)
      (All-append IsOther modifying removing (when-IsOther q.removed (removes j q.removed) h)
        (when-IsOther q.modified (modifies j q.modified) h))
      (when-IsOther q.added (adds j q.added) h)

notify_each-IsOther :
    (ks : List ℕ) (outputs : ℕ → Queue)
    → outputs subscriptions_media ≡ no_queue
    → All IsOther (notify_each ks outputs)
notify_each-IsOther [] outputs e = tt
notify_each-IsOther (j ∷ ks) outputs e =
    All-append IsOther (notify j (outputs j)) (notify_each ks outputs)
      (notify_each-IsOther ks outputs e)
      (elim (Bool-cases (j == subscriptions_media)) [
        | inl same ↦
            let at : j ≡ subscriptions_media = ground (arith, same) in
            subst (λ i. All IsOther (notify i (outputs i))) (sym at) (rw e tt)
        | inr other ↦ notify-IsOther j (outputs j) other
      ])

advance-IsSilent :
    (now : ℕ) (n : Notifier) (p : Phase)
    → IsSilent (record n { phase = p })
    → IsSilent (advance now (record n { phase = p }))
unfolding advance send check_queue member
advance-IsSilent now n tests v = elim (Bool-cases n.wake_up_scheduled) [
  | inl e ↦ rw e (record { unswapped = v.unswapped; unchecked = refl; others = v.others })
  | inr e ↦ elim (Bool-cases n.flushing) [
    | inl f ↦ rw (e, f) (record { unswapped = v.unswapped; unchecked = refl; others = v.others })
    | inr f ↦ rw (e, f) (record { unswapped = v.unswapped; unchecked = refl; others = v.others })
  ]
]
advance-IsSilent now n falls_asleep v = record {
  unswapped = v.unswapped;
  unchecked = refl;
  others = v.others;
}
advance-IsSilent now n sleeps v = v
advance-IsSilent now n (waits timeout) v = elim (Bool-cases (leb timeout now || n.flushing)) [
  | inl e ↦ rw e (record { unswapped = v.unswapped; unchecked = refl; others = v.others })
  | inr e ↦ rw e v
]
advance-IsSilent now n (checks [] next start flushing) v =
    let sent_others =
      All-append IsOther n.calls (notify_each notified n.outputs)
        (notify_each-IsOther notified n.outputs v.unswapped) v.others in
    elim (Bool-cases (next == 0)) [
      | inl e ↦ rw e (record { unswapped = refl; unchecked = refl; others = sent_others })
      | inr e ↦ rw e (record { unswapped = refl; unchecked = refl; others = sent_others })
    ]
advance-IsSilent now n (checks (j ∷ ks) next start flushing) v =
    let later : member subscriptions_media ks ≡ false = ground (arith, v.unchecked) in
    elim (Bool-cases ((n.queues j).timeout == 0)) [
      | inl e ↦ rw e (record { unswapped = v.unswapped; unchecked = later; others = v.others })
      | inr e ↦ elim (Bool-cases (leb (n.queues j).timeout start || flushing)) [
        | inl due ↦
            rw (e, due)
              (record {
                unswapped = ground (arith, v.unchecked, v.unswapped);
                unchecked = later;
                others = v.others;
              })
        | inr due ↦
            rw (e, due) (record { unswapped = v.unswapped; unchecked = later; others = v.others })
      ]
    ]

step-IsSilent : (e : Event) (n : Notifier) → IsSilent n → IsSilent (step e n)
unfolding step notify_change
step-IsSilent (notifies j c now) n v = elim (Bool-cases n.wake_up_scheduled) [
  | inl e ↦ rw e (record { unswapped = v.unswapped; unchecked = v.unchecked; others = v.others })
  | inr e ↦ rw e (record {
    unswapped = v.unswapped;
    unchecked = rw (notify_all-left n.phase) v.unchecked;
    others = v.others;
  })
]
step-IsSilent flushes n v = record {
  unswapped = v.unswapped;
  unchecked = rw (notify_all-left n.phase) v.unchecked;
  others = v.others;
}
step-IsSilent wakes_up n v = record {
  unswapped = v.unswapped;
  unchecked = rw (notify_all-left n.phase) v.unchecked;
  others = v.others;
}
step-IsSilent (advances now) n v = advance-IsSilent now n n.phase v

run-IsSilent : (es : List Event) (n : Notifier) → IsSilent n → IsSilent (run es n)
unfolding run
run-IsSilent [] n v = v
run-IsSilent (e ∷ es) n v = run-IsSilent es (step e n) (step-IsSilent e n v)

-- Whatever is notified and however often the thread runs and flushes, no call tells of the new media of a
-- subscription.
pub run-silent : (es : List Event) → All IsOther (run es idle).calls
unfolding member
run-silent es =
    (run-IsSilent es idle (record { unswapped = refl; unchecked = refl; others = tt })).others
