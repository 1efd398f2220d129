-- ===== src/Lock/Stranded.antt =====
-- SWMRLock: which threads a release of the lock wakes.
use medialibrary.Common.{
  ℕ, ◌+◌, ◌<◌, ◌≡◌, refl, true, false, List, [], ◌∷◌, count, length, arith, sym,
}
use medialibrary.Lock.{
  Mode, reading, writing_mode, Waiter, Lock, must_give_way, may_enter, try_enter, unlock_read,
  unlock_write, has_priority, Picks, first, Step, retries, unlocks_read_notifying,
}
use medialibrary.Lock.Exclusion.{IsConsistent, is_reader, is_writer}

counts-length : (ws : List Waiter) → count is_reader ws + count is_writer ws ≡ length ws
counts-length [] = refl
counts-length (w ∷ ws) = ground (arith, counts-length ws)

-- Where the counts of the waiting threads are right, the end of a write wakes every thread that is
-- asleep.
pub unlock_write-asleep : (l : Lock) → IsConsistent l → (unlock_write l).asleep ≡ []
unfolding unlock_write
unlock_write-asleep l v = grind (arith, counts-length l.asleep, v.readers, v.writers)

-- A thread that must give way falls asleep.
try_enter_gives_way :
    (mode : Mode) (tid : ℕ) (l : Lock)
    → must_give_way l tid ≡ true
    → try_enter mode tid l ≡ record l { asleep = record { tid = tid; mode = mode } ∷ l.asleep }
unfolding try_enter may_enter
try_enter_gives_way reading tid l g = rw g
try_enter_gives_way writing_mode tid l g = rw g

-- From a state with one reader, no writer inside, nobody woken and a writer waiting, in which some
-- sleeping thread must give way and another thread has priority, two steps can lead to one in which
-- the lock is free, nobody is woken, the same threads are asleep, and the one with priority could
-- write.
pub unlock_read_strands :
    (l : Lock) (r w : Waiter) (rest : List Waiter)
    → l.nb_reader ≡ 1
    → l.writing ≡ false
    → l.woken ≡ []
    → 0 < l.nb_writer_waiting
    → Picks r l.asleep rest
    → must_give_way l r.tid ≡ true
    → has_priority l w.tid ≡ true
    → (l' l'' : Lock) × Step l l'
      × Step l' l''
      × (l''.nb_reader ≡ 0)
      × (l''.writing ≡ false)
      × (l''.woken ≡ [])
      × (l''.asleep ≡ r ∷ rest)
      × (may_enter writing_mode l'' w.tid ≡ true)
unfolding unlock_read may_enter must_give_way
unlock_read_strands l r w rest n f e q k g p =
    let left = (unlock_read l).0 in
    let notified = record left { asleep = rest; woken = r ∷ left.woken } in
    let retried = record left { asleep = r ∷ rest } in
    (
      notified,
      retried,
      unlocks_read_notifying left r rest (omega arith) (ground arith) k refl,
      retries r left.woken first
          (sym (try_enter_gives_way r.mode r.tid (record left { asleep = rest }) g)),
      ground arith,
      f,
      e,
      refl,
      ground arith,
    )
