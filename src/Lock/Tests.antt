-- ===== src/Lock/Tests.antt =====
-- The lock with three threads.
use medialibrary.Common.{◌≡◌, refl, true, false, [], ◌∷◌, arith}
use medialibrary.Lock.{
  reading, writing_mode, Waiter, Lock, init, must_give_way, may_enter, try_enter, lock,
  unlock_write, is_owner, acquire_priority_access, first, later, Step, locks, acquires, Reach, here,
  next,
}
use medialibrary.Lock.Exclusion.{IsConsistent, Reach-IsConsistent}
use medialibrary.Lock.Stranded.{unlock_write-asleep, unlock_read_strands}

-- Thread 1 reads, thread 2 acquires the priority, thread 3 waits to read and thread 2 to write.
abbrev reader : Waiter
reader = record { tid = 3; mode = reading }

abbrev writer : Waiter
writer = record { tid = 2; mode = writing_mode }

abbrev crowded : Lock
crowded = record {
  nb_reader = 1;
  nb_reader_waiting = 1;
  writing = false;
  nb_writer_waiting = 1;
  priority_owners = 2 ∷ [];
  asleep = writer ∷ reader ∷ [];
  woken = [];
}

crowded-Reach : Reach init crowded
unfolding lock try_enter may_enter must_give_way is_owner acquire_priority_access
crowded-Reach =
    next
      (next (next (next here (locks reading 1 refl)) (acquires 2 refl refl)) (locks reading 3 refl))
      (locks writing_mode 2 refl)

Reach-IsConsistent_example : IsConsistent crowded
Reach-IsConsistent_example = Reach-IsConsistent crowded crowded-Reach

-- Thread 1 writes and thread 2 waits for it.
abbrev written : Lock
written = record init { writing = true; nb_writer_waiting = 1; asleep = writer ∷ [] }

written-IsConsistent : IsConsistent written
written-IsConsistent = record { exclusive = λ e. refl; readers = refl; writers = refl }

unlock_write-asleep_example : (unlock_write written).asleep ≡ []
unlock_write-asleep_example = unlock_write-asleep written written-IsConsistent

unlock_read_strands_example :
    (l' l'' : Lock) × Step crowded l'
    × Step l' l''
    × (l''.nb_reader ≡ 0)
    × (l''.writing ≡ false)
    × (l''.woken ≡ [])
    × (l''.asleep ≡ reader ∷ writer ∷ [])
    × (may_enter writing_mode l'' 2 ≡ true)
unfolding must_give_way is_owner
unlock_read_strands_example =
    unlock_read_strands crowded reader writer (writer ∷ []) refl refl refl (omega arith)
      (later first) refl refl
