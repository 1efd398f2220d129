-- ===== src/Lock/Exclusion.antt =====
-- SWMRLock: readers and the writer exclude each other, and the counts of those that wait are right.
use medialibrary.Common.{
  ℕ, suc, ◌+◌, ◌<◌, ◌≡◌, refl, ap, if◌then◌else◌, Bool, true, false, not, List, ◌∷◌, count,
  count-append, arith, subst, sym, ◌∙◌,
}
use medialibrary.Lock.{
  Mode, reading, writing_mode, Waiter, Lock, init, may_enter, try_enter, lock, notify_all,
  unlock_read, unlock_write, acquire_priority_access, release_priority_access, erase_owner, Picks,
  first, later, Step, locks, retries, unlocks_read, unlocks_read_notifying, unlocks_read_unheard,
  unlocks_write, acquires, releases, wakes_spuriously, Reach, here, next,
}

abbrev pub is_reader : Waiter → Bool
is_reader w = elim w.mode [ reading ↦ true | writing_mode ↦ false ]

abbrev pub is_writer : Waiter → Bool
is_writer w = not (is_reader w)

-- Nobody reads while somebody writes, and each count is that of the threads that wait.
pub record IsConsistent (l : Lock) : Type 0 where
  pub exclusive : l.writing ≡ true → l.nb_reader ≡ 0
  pub readers : l.nb_reader_waiting ≡ count is_reader l.asleep + count is_reader l.woken
  pub writers : l.nb_writer_waiting ≡ count is_writer l.asleep + count is_writer l.woken

count-Picks :
    (p : Waiter → Bool) (w : Waiter) (ws rest : List Waiter)
    → Picks w ws rest
    → count p ws ≡ (if p w then suc (count p rest) else count p rest)
count-Picks p w _ _ first = refl
count-Picks p w _ _ (later {x = x} {ws = ws} {rest = rest} k) =
    ground (arith, count-Picks p w ws rest k)

-- A thread that tests counts among those that wait, beside the listed ones.
try_enter-IsConsistent :
    (mode : Mode) (tid : ℕ) (l : Lock)
    → (l.writing ≡ true → l.nb_reader ≡ 0)
    → l.nb_reader_waiting
      ≡ (if is_reader (record { tid = tid; mode = mode }) then 1 else 0)
        + count is_reader l.asleep
        + count is_reader l.woken
    → l.nb_writer_waiting
      ≡ (if is_reader (record { tid = tid; mode = mode }) then 0 else 1)
        + count is_writer l.asleep
        + count is_writer l.woken
    → IsConsistent (try_enter mode tid l)
unfolding try_enter may_enter
try_enter-IsConsistent reading tid l e r w = ground arith
try_enter-IsConsistent writing_mode tid l e r w = ground arith

lock-IsConsistent :
    (mode : Mode) (tid : ℕ) (l : Lock) → IsConsistent l → IsConsistent (lock mode tid l)
unfolding lock
lock-IsConsistent reading tid l v =
    try_enter-IsConsistent reading tid _ v.exclusive (omega (arith, v.readers))
      (omega (arith, v.writers))
lock-IsConsistent writing_mode tid l v =
    try_enter-IsConsistent writing_mode tid _ v.exclusive (omega (arith, v.readers))
      (omega (arith, v.writers))

notify_all-IsConsistent : (l : Lock) → IsConsistent l → IsConsistent (notify_all l)
notify_all-IsConsistent l v =
    ground (arith, count-append is_reader l.asleep l.woken, count-append is_writer l.asleep l.woken)

retry-IsConsistent :
    (w : Waiter) (rest : List Waiter) (l : Lock)
    → Picks w l.woken rest
    → IsConsistent l
    → IsConsistent (try_enter w.mode w.tid (record l { woken = rest }))
retry-IsConsistent w rest l k v =
    let reads = count-Picks is_reader w l.woken rest k in
    let writes = count-Picks is_writer w l.woken rest k in
    try_enter-IsConsistent w.mode w.tid (record l { woken = rest }) v.exclusive
      (ground (arith, reads, v.readers)) (ground (arith, writes, v.writers))

wake-IsConsistent :
    (w : Waiter) (rest : List Waiter) (l : Lock)
    → Picks w l.asleep rest
    → IsConsistent l
    → IsConsistent (record l { asleep = rest; woken = w ∷ l.woken })
wake-IsConsistent w rest l k v =
    ground (arith, count-Picks is_reader w l.asleep rest k, count-Picks is_writer w l.asleep rest k)

unlock_read-IsConsistent :
    (l : Lock) → 0 < l.nb_reader → IsConsistent l → IsConsistent (unlock_read l).0
unfolding unlock_read
unlock_read-IsConsistent l h v = ground arith

unlock_read-asleep : (l : Lock) → (unlock_read l).0.asleep ≡ l.asleep
unfolding unlock_read
unlock_read-asleep l = refl

unlock_write-IsConsistent : (l : Lock) → IsConsistent l → IsConsistent (unlock_write l)
unfolding unlock_write
unlock_write-IsConsistent l v =
    ground (arith, notify_all-IsConsistent (record l { writing = false }))

release-IsConsistent :
    (tid : ℕ) (l : Lock) → IsConsistent l → IsConsistent (release_priority_access tid l)
unfolding release_priority_access
release-IsConsistent tid l v =
    let left = record l { priority_owners = erase_owner tid l.priority_owners } in
    let kept : IsConsistent left = record {
      exclusive = v.exclusive;
      readers = v.readers;
      writers = v.writers;
    } in
    ground (arith, kept, notify_all-IsConsistent left kept)

Step-IsConsistent : (l l' : Lock) → Step l l' → IsConsistent l → IsConsistent l'
unfolding acquire_priority_access
Step-IsConsistent l l' (locks mode tid e) v = rw e (lock-IsConsistent mode tid l v)
Step-IsConsistent l l' (retries w rest k e) v = rw e (retry-IsConsistent w rest l k v)
Step-IsConsistent l l' (unlocks_read h e) v =
    subst IsConsistent (ap (λ p. p.0) e) (unlock_read-IsConsistent l h v)
Step-IsConsistent l l' (unlocks_read_notifying left w rest h e k e') v =
    let kept = subst IsConsistent (ap (λ p. p.0) e) (unlock_read-IsConsistent l h v) in
    let same = sym (unlock_read-asleep l) ∙ ap (λ p. p.0.asleep) e in
    rw e' (wake-IsConsistent w rest left (subst (λ x. Picks w x rest) same k) kept)
Step-IsConsistent l l' (unlocks_read_unheard h e n) v =
    subst IsConsistent (ap (λ p. p.0) e) (unlock_read-IsConsistent l h v)
Step-IsConsistent l l' (unlocks_write h e) v = rw e (unlock_write-IsConsistent l v)
Step-IsConsistent l l' (acquires tid n e) v =
    rw e (record { exclusive = v.exclusive; readers = v.readers; writers = v.writers })
Step-IsConsistent l l' (releases tid n e) v = rw e (release-IsConsistent tid l v)
Step-IsConsistent l l' (wakes_spuriously w rest k e) v = rw e (wake-IsConsistent w rest l k v)

init-IsConsistent : IsConsistent init
init-IsConsistent = record { exclusive = λ e. refl; readers = refl; writers = refl }

-- In every state that the threads can reach from the new lock, nobody reads while somebody
-- writes, and the two counters of waiting threads are the numbers of the threads that sleep or
-- were woken.
pub Reach-IsConsistent : (l : Lock) → Reach init l → IsConsistent l
Reach-IsConsistent _ here = init-IsConsistent
Reach-IsConsistent l' (next {l = l} r s) = Step-IsConsistent l l' s (Reach-IsConsistent l r)
